-- ===== src/Settings/Texts/Decimal.antt =====
-- A `u16` printed with `{}` and parsed with `str::parse`.
use Prim.Native.Nat.{◌≤◌}
use rsbtd.Base.{
  ℕ, zero, suc, ◌+◌, ◌-◌, ◌*◌, ◌/◌, ◌%◌, ◌≡◌, subst, sym, refl, ◌||◌, [], ◌∷◌, Option, none, some,
  ltb, ◌∙◌, if-cases, ◌==◌, if◌then◌else◌, arith, All,
}
use rsbtd.Events.{Text}

-- The digits of `n` before `out`; `fuel` rounds are enough for any `n ≤ fuel`.
emit : ℕ → ℕ → Text → Text
emit zero n out = out
emit (suc fuel) n out =
    let rest = emit fuel (n / 10) ((b'0' + n % 10) ∷ out) in if n == 0 then out else rest

unfoldable pub format : ℕ → Text
unfolding emit
format n = if n == 0 then b'0' ∷ [] else emit n n []

-- The value so far is `n`; a value above `u16::MAX` is an overflow.
scan : Text → ℕ → Option ℕ
scan [] n = some n
scan (c ∷ s) n =
    let rest = scan s (n * 10 + (c - b'0')) in
    if ltb c b'0' || ltb b'9' c || ltb 65535 (n * 10 + (c - b'0')) then none else rest

digits : Text → Option ℕ
digits [] = none
digits (c ∷ s) = scan (c ∷ s) 0

-- A `+` may stand before the digits.
unfoldable pub parse_u16 : Text → Option ℕ
unfolding scan digits
parse_u16 [] = none
parse_u16 (c ∷ s) = if c == b'+' then digits s else scan (c ∷ s) 0

scan_last : (n : ℕ) (out : Text) → n ≤ 65535 → scan ((b'0' + n % 10) ∷ out) (n / 10) ≡ scan out n
unfolding scan
scan_last n out small = ground arith

zero_of : (n : ℕ) → n ≤ 0 → n ≡ 0
zero_of n h = omega arith

scan-emit : (fuel n : ℕ) (out : Text) → n ≤ fuel → n ≤ 65535 → scan (emit fuel n out) 0 ≡ scan out n
unfolding emit
scan-emit zero n out enough small = cc (zero_of n enough)
scan-emit (suc fuel) n out enough small =
    ground (arith, scan_last n out small, scan-emit fuel (n / 10) ((b'0' + n % 10) ∷ out))

abbrev pub IsDigit : ℕ → Type 0
IsDigit c = (b'0' ≤ c) × (c ≤ b'9')

emit-IsDigit : (fuel n : ℕ) (out : Text) → All IsDigit out → All IsDigit (emit fuel n out)
unfolding emit
emit-IsDigit zero n out h = h
emit-IsDigit (suc fuel) n out h =
    if-cases (All IsDigit) (n == 0) (λ e. h)
      (λ e. emit-IsDigit fuel (n / 10) ((b'0' + n % 10) ∷ out) ((omega arith, omega arith), h))

abbrev NonEmpty : Text → Type 0
NonEmpty [] = ⊥
NonEmpty (c ∷ s) = Unit

emit-NonEmpty : (fuel n : ℕ) (out : Text) → NonEmpty out → NonEmpty (emit fuel n out)
unfolding emit
emit-NonEmpty zero n out h = h
emit-NonEmpty (suc fuel) n out h =
    if-cases NonEmpty (n == 0) (λ e. h)
      (λ e. emit-NonEmpty fuel (n / 10) ((b'0' + n % 10) ∷ out) tt)

pub format-IsDigit : (n : ℕ) → All IsDigit (format n)
unfolding format
format-IsDigit n =
    if-cases (All IsDigit) (n == 0) (λ e. ((omega arith, omega arith), tt))
      (λ e. emit-IsDigit n n [] tt)

format_positive : (n : ℕ) → format (suc n) ≡ emit n (suc n / 10) ((b'0' + suc n % 10) ∷ [])
unfolding format emit
format_positive n = ground arith

pub format-NonEmpty : (n : ℕ) → NonEmpty (format n)
unfolding format
format-NonEmpty zero = tt
format-NonEmpty (suc n) =
    subst NonEmpty (sym (format_positive n))
      (emit-NonEmpty n (suc n / 10) ((b'0' + suc n % 10) ∷ []) tt)

parse-digits : (s : Text) → All IsDigit s → NonEmpty s → parse_u16 s ≡ scan s 0
unfolding parse_u16
parse-digits [] h e = absurd e
parse-digits (c ∷ s) h e = ground (arith, h.0)

scan-format : (n : ℕ) → n ≤ 65535 → scan (format n) 0 ≡ some n
unfolding format scan
scan-format zero small = refl
scan-format (suc n) small = ground (arith, scan-emit (suc n) (suc n) [])

-- Every `u16` is read back from its decimal print.
pub parse_u16-format : (n : ℕ) → n ≤ 65535 → parse_u16 (format n) ≡ some n
parse_u16-format n small =
    parse-digits (format n) (format-IsDigit n) (format-NonEmpty n) ∙ scan-format n small
