-- ===== src/Api/Groups/Parts.antt =====
-- How the groups of `SettingsInput` of rsbtd/src/api/settings/mod.rs take omitted, null and present values.
use rsbtd.Base.{ℕ, ◌≡◌, List, Option, none, some, subst}
use rsbtd.Settings.Pack.{SettingsPack, Result, ok, merge}
use rsbtd.Api.Input.{SettingsError, MaybeUndefined}
use rsbtd.Api.Scalar.Kept.{given}
use rsbtd.Api.Groups.{Group}

abbrev FitsValue : {A : Type 0} → (A → Type 0) → MaybeUndefined A → Type 0
FitsValue Fits MaybeUndefined.undefined = Unit
FitsValue Fits MaybeUndefined.null = Unit
FitsValue Fits (MaybeUndefined.value v) = Fits v

-- A group that takes no null.
abbrev pub plain :
    (A : Type 0)
    → List ℕ
    → (SettingsPack → Result SettingsError A)
    → (MaybeUndefined A → SettingsPack → Result SettingsError SettingsPack)
    → (A → Type 0)
    → Group
plain A keys read write Fits = record {
  Input = MaybeUndefined A;
  Value = A;
  keys = keys;
  read = read;
  write = write;
  Fits = FitsValue Fits;
  given = given;
}

-- What a nullable group shows: nothing once it is null, and of a value the form that is kept.
abbrev pub given_or_null : {A : Type 0} → (A → A) → MaybeUndefined A → Option A → Option A
given_or_null kept MaybeUndefined.undefined own = own
given_or_null kept MaybeUndefined.null own = none
given_or_null kept (MaybeUndefined.value v) own = some (kept v)

-- A group that null disables.
abbrev pub nulled :
    (A : Type 0)
    → (A → A)
    → List ℕ
    → (SettingsPack → Result SettingsError (Option A))
    → (MaybeUndefined A → SettingsPack → Result SettingsError SettingsPack)
    → (A → Type 0)
    → Group
nulled A kept keys read write Fits = record {
  Input = MaybeUndefined A;
  Value = Option A;
  keys = keys;
  read = read;
  write = write;
  Fits = FitsValue Fits;
  given = given_or_null kept;
}

module _ {A : Type 0} (read : SettingsPack → Result SettingsError A)
    (write : MaybeUndefined A → SettingsPack → Result SettingsError SettingsPack)
    (Fits : A → Type 0) where
  pub plain-back :
      ((p q : SettingsPack) → write MaybeUndefined.undefined p ≡ ok q → p ≡ q)
      → ((p q : SettingsPack) → write MaybeUndefined.null p ≡ ok q → ⊥)
      → ((v : A) (p q effective : SettingsPack)
          → Fits v
          → write (MaybeUndefined.value v) p ≡ ok q
          → read (merge effective q) ≡ ok v)
      → (x : MaybeUndefined A) (p q effective : SettingsPack) (own : A) → FitsValue Fits x
      → write x p ≡ ok q
      → read (merge effective p) ≡ ok own
      → read (merge effective q) ≡ ok (given x own)
  plain-back unchanged refused set MaybeUndefined.undefined p q effective own fits h known =
      subst (λ r. read (merge effective r) ≡ ok own) (unchanged p q h) known
  plain-back unchanged refused set MaybeUndefined.null p q effective own fits h known =
      absurd (refused p q h)
  plain-back unchanged refused set (MaybeUndefined.value v) p q effective own fits h known =
      set v p q effective fits h

module _ {A : Type 0} (kept : A → A) (read : SettingsPack → Result SettingsError (Option A))
    (write : MaybeUndefined A → SettingsPack → Result SettingsError SettingsPack)
    (Fits : A → Type 0) where
  pub nulled-back :
      ((p q : SettingsPack) → write MaybeUndefined.undefined p ≡ ok q → p ≡ q)
      → ((p q effective : SettingsPack)
          → write MaybeUndefined.null p ≡ ok q
          → read (merge effective q) ≡ ok none)
      → ((v : A) (p q effective : SettingsPack)
          → Fits v
          → write (MaybeUndefined.value v) p ≡ ok q
          → read (merge effective q) ≡ ok (some (kept v)))
      → (x : MaybeUndefined A) (p q effective : SettingsPack) (own : Option A) → FitsValue Fits x
      → write x p ≡ ok q
      → read (merge effective p) ≡ ok own
      → read (merge effective q) ≡ ok (given_or_null kept x own)
  nulled-back unchanged disabled set MaybeUndefined.undefined p q effective own fits h known =
      subst (λ r. read (merge effective r) ≡ ok own) (unchanged p q h) known
  nulled-back unchanged disabled set MaybeUndefined.null p q effective own fits h known =
      disabled p q effective h
  nulled-back unchanged disabled set (MaybeUndefined.value v) p q effective own fits h known =
      set v p q effective fits h
