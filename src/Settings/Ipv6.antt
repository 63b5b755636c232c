-- ===== src/Settings/Ipv6.antt =====
-- What `str::parse` of Rust's standard library accepts as a `std::net::Ipv6Addr`: up to eight groups of at
-- most four hexadecimal digits, one run of zero groups left out as `::`, and an IPv4 address for the last
-- two groups. Only whether a text is accepted matters, so a reader returns the unread text.
use rsbtd.Base.{
  ℕ, zero, suc, ◌+◌, ◌-◌, ◌*◌, Bool, true, false, not, ◌&&◌, ◌||◌, [], ◌∷◌, Option, none, some, leb,
  ◌==◌, length, if◌then◌else◌, ◌≡◌, refl,
}
use rsbtd.Events.{Text}
use rsbtd.Settings.Texts.{is_empty, codes}

abbrev is_digit : ℕ → Bool
is_digit c = leb b'0' c && leb c b'9'

abbrev is_hex : ℕ → Bool
is_hex c = is_digit c || (leb b'a' c && leb c b'f') || (leb b'A' c && leb c b'F')

-- The longest prefix of such characters, and what follows.
span : (ℕ → Bool) → Text → Text × Text
span p [] = ([], [])
span p (c ∷ s) = let rest = span p s in if p c then (c ∷ rest.0, rest.1) else ([], c ∷ s)

abbrev leading_zero : Text → Bool
leading_zero [] = false
leading_zero (c ∷ s) = c == b'0'

value : ℕ → Text → ℕ
value n [] = n
value n (c ∷ s) = value (n * 10 + (c - b'0')) s

abbrev is_octet : Text → Bool
is_octet ds =
    not (is_empty ds)
    && leb (length ds) 3
    && leb (value 0 ds) 255
    && not (leading_zero ds && leb 2 (length ds))

read_octet : Text → Option Text
read_octet s = let ds = span is_digit s in if is_octet ds.0 then some ds.1 else none

abbrev is_group : Text → Bool
is_group ds = not (is_empty ds) && leb (length ds) 4

read_group : Text → Option Text
read_group s = let ds = span is_hex s in if is_group ds.0 then some ds.1 else none

-- The separator stands before every element but the first.
read_separator : ℕ → Bool → Text → Option Text
read_separator sep true s = some s
read_separator sep false [] = none
read_separator sep false (c ∷ s) = if c == sep then some s else none

abbrev after : Option Text → (Text → Option Text) → Option Text
after none f = none
after (some s) f = f s

read_ipv4 : Text → Option Text
unfolding read_octet read_separator
read_ipv4 s =
    after
      (after
        (after
          (after (after (after (read_octet s) (read_separator b'.' false)) read_octet)
            (read_separator b'.' false))
          read_octet)
        (read_separator b'.' false))
      read_octet

abbrev counted : ℕ × Bool × Text → ℕ × Bool × Text
counted (n, v4, rest) = (suc n, v4, rest)

-- How many groups were read, whether an IPv4 address ended them, and the unread text.
read_groups : ℕ → Bool → Text → ℕ × Bool × Text
unfolding read_ipv4 read_group read_separator
read_groups zero first s = (0, false, s)
read_groups (suc zero) first s = elim (after (read_separator b':' first s) read_group) [
  | some rest ↦ (1, false, rest)
  | none ↦ (0, false, s)
]
read_groups (suc (suc limit)) first s = elim (after (read_separator b':' first s) read_ipv4) [
  | some rest ↦ (2, true, rest)
  | none ↦ elim (after (read_separator b':' first s) read_group) [
    | some rest ↦ counted (read_groups (suc limit) false rest)
    | none ↦ (0, false, s)
  ]
]

abbrev all_read : ℕ × Bool × Text → Bool
all_read (n, v4, rest) = is_empty rest

abbrev tail_read : ℕ → Option Text → Bool
tail_read n none = false
tail_read n (some rest) = all_read (read_groups (7 - n) true rest)

abbrev head_read : ℕ × Bool × Text → Bool
head_read (n, v4, rest) =
    if n == 8
    then is_empty rest
    else if v4
    then false
    else tail_read n (after (read_separator b':' false rest) (read_separator b':' false))

unfoldable pub is_ipv6 : Text → Bool
unfolding read_groups span value
is_ipv6 s = head_read (read_groups 8 true s)

accepted :
    (is_ipv6 (codes "::1") ≡ true)
    × (is_ipv6 (codes "fe80::1234:abCD") ≡ true)
    × (is_ipv6 (codes "1:2:3:4:5:6:7:8") ≡ true)
    × (is_ipv6 (codes "::ffff:192.0.2.1") ≡ true)
unfolding is_ipv6
accepted = (refl, refl, refl, refl)

refused :
    (is_ipv6 (codes "1:2:3:4:5:6:7") ≡ false)
    × (is_ipv6 (codes "1:2:3:4:5:6:7:8:9") ≡ false)
    × (is_ipv6 (codes "12345::") ≡ false)
    × (is_ipv6 (codes "::192.0.2.256") ≡ false)
    × (is_ipv6 (codes "::1::") ≡ false)
unfolding is_ipv6
refused = (refl, refl, refl, refl, refl)
