-- ===== src/Settings/Int.antt =====
-- Signed integers over the native numbers, for the `i32` of the settings, and Rust's checked conversions.
use rsbtd.Base.{ℕ, zero, suc, Bool, true, false, ◌&&◌, Option, none, some, leb, if◌then◌else◌}

-- `negsuc n` is -(n + 1).
pub data ℤ : Type 0 where
  pos : ℕ → ℤ
  negsuc : ℕ → ℤ

abbrev pub leb_ℤ : ℤ → ℤ → Bool
leb_ℤ (pos a) (pos b) = leb a b
leb_ℤ (pos a) (negsuc b) = false
leb_ℤ (negsuc a) (pos b) = true
leb_ℤ (negsuc a) (negsuc b) = leb b a

-- `RangeInclusive::contains`.
abbrev pub within : ℤ → ℤ → ℤ → Bool
within lo hi v = leb_ℤ lo v && leb_ℤ v hi

abbrev unsigned : ℕ → ℤ → Option ℕ
unsigned bound (pos n) = if leb n bound then some n else none
unsigned bound (negsuc n) = none

-- `u16::try_from`, `u8::try_from`, `i8::try_from`.
abbrev pub try_u16 : ℤ → Option ℕ
try_u16 = unsigned 65535

abbrev pub try_u8 : ℤ → Option ℕ
try_u8 = unsigned 255

abbrev pub try_i8 : ℤ → Option ℤ
try_i8 v = if within (negsuc 127) (pos 127) v then some v else none

-- `NonZeroU16::new`.
abbrev pub non_zero : ℕ → Option ℕ
non_zero zero = none
non_zero (suc n) = some (suc n)

abbrev pub at_least_zero : ℤ → ℕ
at_least_zero (pos n) = n
at_least_zero (negsuc n) = 0
