-- ===== src/Api/Scalar/Kept.antt =====
-- Writing scalars and reading them back: the given fields take their values, the others keep theirs.
use rsbtd.Base.{
  ℕ, ◌≡◌, ◌≤◌, refl, sym, ◌∙◌, arith, Bool, true, false, not, ◌&&◌, ◌||◌, List, [], ◌∷◌, map, All,
  Option, none, some, ◌==◌, ◌⊎◌, inl, inr,
}
use rsbtd.Settings.Pack.{SettingsPack, SettingKind, ok, merge}
use rsbtd.Settings.Table.{lt_setting}
use rsbtd.Settings.Connections.Interfaces.{get_peer_dscp}
use rsbtd.Api.Input.{MaybeUndefined, sat_u16, sat_u8, rb_err, defined}
use rsbtd.Api.Scalar.{
  Scalar, FieldType, ScalarSettings, ScalarSettingsInput, name_of, scalar_get, scalar_set,
  read_scalars, write_scalar, write_scalars, get_str_by_name, get_int_by_name, get_bool_by_name,
}
use rsbtd.Api.Scalar.Wiring.{Wired}
use rsbtd.Api.RoundTrip.{bind-ok, map_err-ok, ok-injective}

-- A value that its Rust type can hold.
abbrev pub Fits : (f : Scalar) → MaybeUndefined (FieldType f) → Type 0
Fits (Scalar.u16_field name set) (MaybeUndefined.value v) = v ≤ 65535
Fits (Scalar.u8_field name set) (MaybeUndefined.value v) = v ≤ 255
Fits f x = Unit

abbrev pub AllFit : (fs : List Scalar) → ScalarSettingsInput fs → Type 0
AllFit [] input = Unit
AllFit (f ∷ fs) (x, input) = Fits f x × AllFit fs input

abbrev pub given : {A : Type 0} → MaybeUndefined A → A → A
given MaybeUndefined.undefined own = own
given MaybeUndefined.null own = own
given (MaybeUndefined.value v) own = v

-- The settings with the given fields put in.
abbrev pub overlay :
    (fs : List Scalar) → ScalarSettingsInput fs → ScalarSettings fs → ScalarSettings fs
overlay [] input own = tt
overlay (f ∷ fs) (x, input) (v, own) = (given x v, overlay fs input own)

abbrev key_or_zero : Option (ℕ × SettingKind) → ℕ
key_or_zero none = 0
key_or_zero (some (key, kind)) = key

-- The key that a field's name stands for.
abbrev pub slot : Scalar → ℕ
slot f = key_or_zero (lt_setting (name_of f))

set-get :
    (f : Scalar) (w : Wired f) (v : FieldType f) (p q effective : SettingsPack)
    → Fits f (MaybeUndefined.value v)
    → scalar_set f v p ≡ ok q
    → scalar_get f (merge effective q) ≡ ok v
unfolding scalar_set scalar_get get_str_by_name get_int_by_name get_bool_by_name sat_u16 sat_u8
    get_peer_dscp
set-get (Scalar.str_field name set) (key, named, law) v p q effective fits h =
    ground (arith, named, law v p, h)
set-get (Scalar.checked_str name set) (key, named, law) v p q effective fits h =
    ground (arith, named, law v p q (map_err-ok (rb_err name) _ q h))
set-get (Scalar.int_field name set) (key, named, law) v p q effective fits h =
    ground (arith, named, law v p, h)
set-get (Scalar.checked_int name set) (key, named, law) v p q effective fits h =
    ground (arith, named, law v p q (map_err-ok (rb_err name) _ q h))
set-get (Scalar.dscp_field name set) (key, named, law, this) v p q effective fits h =
    let (put, back) = law v p q (map_err-ok (rb_err name) _ q h) in ground (arith, put, back, this)
set-get (Scalar.bool_field name set) (key, named, law) v p q effective fits h =
    ground (arith, named, law v p, h)
set-get (Scalar.u16_field name set) (key, named, law) v p q effective fits h =
    ground (arith, named, law v p, h, fits)
set-get (Scalar.u8_field name set) (key, named, law) v p q effective fits h =
    ground (arith, named, law v p, h, fits)

-- Two packs that hold the same under a key.
abbrev pub SameAt : ℕ → SettingsPack → SettingsPack → Type 0
SameAt j p q = (p.strs j ≡ q.strs j) × (p.ints j ≡ q.ints j) × (p.bools j ≡ q.bools j)

set-SameAt :
    (f : Scalar) (w : Wired f) (v : FieldType f) (p q : SettingsPack) (j : ℕ)
    → (j == slot f) ≡ false
    → scalar_set f v p ≡ ok q
    → SameAt j p q
unfolding scalar_set
set-SameAt (Scalar.str_field name set) (key, named, law) v p q j other h =
    ground (arith, named, law v p, h, other)
set-SameAt (Scalar.checked_str name set) (key, named, law) v p q j other h =
    ground (arith, named, law v p q (map_err-ok (rb_err name) _ q h), other)
set-SameAt (Scalar.int_field name set) (key, named, law) v p q j other h =
    ground (arith, named, law v p, h, other)
set-SameAt (Scalar.checked_int name set) (key, named, law) v p q j other h =
    ground (arith, named, law v p q (map_err-ok (rb_err name) _ q h), other)
set-SameAt (Scalar.dscp_field name set) (key, named, law, this) v p q j other h =
    let (put, back) = law v p q (map_err-ok (rb_err name) _ q h) in
    ground (arith, named, put, other)
set-SameAt (Scalar.bool_field name set) (key, named, law) v p q j other h =
    ground (arith, named, law v p, h, other)
set-SameAt (Scalar.u16_field name set) (key, named, law) v p q j other h =
    ground (arith, named, law v p, h, other)
set-SameAt (Scalar.u8_field name set) (key, named, law) v p q j other h =
    ground (arith, named, law v p, h, other)

get-SameAt :
    (g : Scalar) (w : Wired g) (p q effective : SettingsPack)
    → SameAt (slot g) p q
    → scalar_get g (merge effective p) ≡ scalar_get g (merge effective q)
unfolding scalar_get get_str_by_name get_int_by_name get_bool_by_name get_peer_dscp
get-SameAt (Scalar.str_field name set) (key, named, law) p q effective same =
    ground (arith, named, same.0)
get-SameAt (Scalar.checked_str name set) (key, named, law) p q effective same =
    ground (arith, named, same.0)
get-SameAt (Scalar.int_field name set) (key, named, law) p q effective same =
    ground (arith, named, same.1)
get-SameAt (Scalar.checked_int name set) (key, named, law) p q effective same =
    ground (arith, named, same.1)
get-SameAt (Scalar.dscp_field name set) (key, named, law, this) p q effective same =
    ground (arith, named, this, same.1)
get-SameAt (Scalar.bool_field name set) (key, named, law) p q effective same =
    ground (arith, named, same.2)
get-SameAt (Scalar.u16_field name set) (key, named, law) p q effective same =
    ground (arith, named, same.1)
get-SameAt (Scalar.u8_field name set) (key, named, law) p q effective same =
    ground (arith, named, same.1)

write_scalar-cases :
    (f : Scalar) (x : MaybeUndefined (FieldType f)) (p q : SettingsPack)
    → write_scalar f x p ≡ ok q
    → ((x ≡ MaybeUndefined.undefined) × (q ≡ p))
      ⊎ ((v : FieldType f) × (x ≡ MaybeUndefined.value v) × (scalar_set f v p ≡ ok q))
unfolding write_scalar defined
write_scalar-cases f MaybeUndefined.undefined p q h = inl (refl, cc h)
write_scalar-cases f MaybeUndefined.null p q h = absurd (cc h)
write_scalar-cases f (MaybeUndefined.value v) p q h = inr (v, refl, h)

write-SameAt :
    (f : Scalar) (w : Wired f) (x : MaybeUndefined (FieldType f)) (p q : SettingsPack) (j : ℕ)
    → (j == slot f) ≡ false
    → write_scalar f x p ≡ ok q
    → SameAt j p q
write-SameAt f w x p q j other h = elim (write_scalar-cases f x p q h) [
  | inl (given_nothing, same) ↦ (cc same, cc same, cc same)
  | inr (v, given_value, set) ↦ set-SameAt f w v p q j other set
]

-- A field that is given takes its value, one that is not keeps it.
write-get :
    (f : Scalar) (w : Wired f) (x : MaybeUndefined (FieldType f)) (p q effective : SettingsPack)
    (own : FieldType f)
    → Fits f x
    → write_scalar f x p ≡ ok q
    → scalar_get f (merge effective p) ≡ ok own
    → scalar_get f (merge effective q) ≡ ok (given x own)
unfolding write_scalar defined
write-get f w MaybeUndefined.undefined p q effective own fits h before =
    cc (ok-injective p q h, before)
write-get f w MaybeUndefined.null p q effective own fits h before = absurd (cc h)
write-get f w (MaybeUndefined.value v) p q effective own fits h before =
    set-get f w v p q effective fits h

abbrev pub member : ℕ → List ℕ → Bool
member j [] = false
member j (k ∷ ks) = j == k || member j ks

-- No key occurs twice.
abbrev pub apart : List ℕ → Bool
apart [] = true
apart (k ∷ ks) = not (member k ks) && apart ks

fresh_key :
    (k : ℕ) (ks : List ℕ) → apart (k ∷ ks) ≡ true → (member k ks ≡ false) × (apart ks ≡ true)
fresh_key k ks h = (ground (arith, h), ground (arith, h))

pub writes-SameAt :
    (fs : List Scalar) (ws : All Wired fs) (input : ScalarSettingsInput fs) (p q : SettingsPack)
    (j : ℕ)
    → member j (map slot fs) ≡ false
    → write_scalars fs input p ≡ ok q
    → SameAt j p q
unfolding write_scalars
writes-SameAt [] ws input p q j other h = (cc h, cc h, cc h)
writes-SameAt (f ∷ fs) ws (x, input) p q j other h =
    let (d, eh, h1) = bind-ok (write_scalar f x p) _ q h in
    let here = write-SameAt f ws.0 x p d j (ground (arith, other)) eh in
    let rest = writes-SameAt fs ws.1 input d q j (ground (arith, other)) h1 in
    (here.0 ∙ rest.0, here.1 ∙ rest.1, here.2 ∙ rest.2)

-- A write to another key does not change what the fields read.
reads_same :
    (f : Scalar) (w : Wired f) (fs : List Scalar) (ws : All Wired fs)
    (x : MaybeUndefined (FieldType f)) (p d effective : SettingsPack)
    → member (slot f) (map slot fs) ≡ false
    → write_scalar f x p ≡ ok d
    → read_scalars fs (merge effective p) ≡ read_scalars fs (merge effective d)
unfolding read_scalars
reads_same f w [] ws x p d effective other h = refl
reads_same f w (g ∷ fs) ws x p d effective other h =
    rw
      (
        get-SameAt g ws.0 p d effective (write-SameAt f w x p d (slot g) (ground (arith, other)) h),
        reads_same f w fs ws.1 x p d effective (ground (arith, other)) h,
      )
      refl

-- The fields of any list of wired fields with keys of their own.
pub write_scalars-read :
    (fs : List Scalar) (ws : All Wired fs) (input : ScalarSettingsInput fs)
    (p q effective : SettingsPack) (before : ScalarSettings fs)
    → apart (map slot fs) ≡ true
    → AllFit fs input
    → write_scalars fs input p ≡ ok q
    → read_scalars fs (merge effective p) ≡ ok before
    → read_scalars fs (merge effective q) ≡ ok (overlay fs input before)
unfolding write_scalars read_scalars
write_scalars-read [] ws input p q effective before distinct fits h known = refl
write_scalars-read (f ∷ fs) ws (x, input) p q effective (own, before) distinct fits h known =
    let (d, eh, h1) = bind-ok (write_scalar f x p) _ q h in
    let (v, ev, k1) = bind-ok (scalar_get f (merge effective p)) _ (own, before) known in
    let (vs, evs, k2) = bind-ok (read_scalars fs (merge effective p)) _ (own, before) k1 in
    let fresh = fresh_key (slot f) (map slot fs) distinct in
    let pair = ok-injective (v, vs) (own, before) k2 in
    let tail =
      write_scalars-read fs ws.1 input d q effective before fresh.1 fits.1 h1
        (sym (reads_same f ws.0 fs ws.1 x p d effective fresh.0 eh) ∙ evs ∙ cc pair) in
    let head =
      sym (get-SameAt f ws.0 d q effective (writes-SameAt fs ws.1 input d q (slot f) fresh.0 h1))
      ∙ write-get f ws.0 x p d effective own fits.0 eh (ev ∙ cc pair) in
    cc (head, tail)

-- The fields read the same from packs that agree on their keys.
pub reads-SameAt :
    (fs : List Scalar) (ws : All Wired fs) (p q effective : SettingsPack)
    → All (λ j. SameAt j p q) (map slot fs)
    → read_scalars fs (merge effective p) ≡ read_scalars fs (merge effective q)
unfolding read_scalars
reads-SameAt [] ws p q effective same = refl
reads-SameAt (f ∷ fs) ws p q effective same =
    rw (get-SameAt f ws.0 p q effective same.0, reads-SameAt fs ws.1 p q effective same.1) refl
