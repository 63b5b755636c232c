-- ===== src/Settings/Texts.antt =====
-- Rust's `str`, as far as the settings use it: a text is its characters, each by its code point.
pub mod Split
pub mod Decimal
use Prim.Native.Char.{code}
use Prim.Native.String.{String}
use rsbtd.Base.{
  ℕ, suc, ◌+◌, Bool, true, false, ◌&&◌, ◌||◌, List, [], ◌∷◌, ◌++◌, Option, none, some, leb, ltb,
  ◌==◌, if◌then◌else◌,
}
use rsbtd.Events.{Text}

-- The characters of a literal.
abbrev pub codes : String → Text
codes String.[] = []
codes (String.◌∷◌ c s) = code c ∷ codes s

abbrev pub is_empty : Text → Bool
is_empty [] = true
is_empty (c ∷ s) = false

abbrev pub any : (ℕ → Bool) → Text → Bool
any p [] = false
any p (c ∷ s) = p c || any p s

abbrev pub contains : ℕ → Text → Bool
contains sep = any (λ c. c == sep)

-- `char::is_whitespace`: the property White_Space.
abbrev pub is_whitespace : ℕ → Bool
is_whitespace c =
    (leb 9 c && leb c 13)
    || c == 32
    || c == 0x85
    || c == 0xa0
    || c == 0x1680
    || (leb 0x2000 c && leb c 0x200a)
    || c == 0x2028
    || c == 0x2029
    || c == 0x202f
    || c == 0x205f
    || c == 0x3000

-- `str::len`: the bytes of a character in UTF-8.
abbrev utf8_len : ℕ → ℕ
utf8_len c = if ltb c 0x80 then 1 else if ltb c 0x800 then 2 else if ltb c 0x10000 then 3 else 4

abbrev pub byte_len : Text → ℕ
byte_len [] = 0
byte_len (c ∷ s) = utf8_len c + byte_len s

unfoldable pub starts_with : Text → Text → Bool
starts_with [] s = true
starts_with (p ∷ ps) [] = false
starts_with (p ∷ ps) (c ∷ s) = c == p && starts_with ps s

unfoldable pub strip_prefix : ℕ → Text → Option Text
strip_prefix p [] = none
strip_prefix p (c ∷ s) = if c == p then some s else none

abbrev consed : ℕ → Option Text → Option Text
consed c none = none
consed c (some s) = some (c ∷ s)

unfoldable pub strip_suffix : ℕ → Text → Option Text
strip_suffix p [] = none
strip_suffix p (c ∷ []) = if c == p then some [] else none
strip_suffix p (c ∷ d ∷ s) = consed c (strip_suffix p (d ∷ s))
