-- ===== src/Api/Groups.antt =====
-- A group of settings as an interface: the keys behind it, how it is read and written, and the laws that
-- `read` and `write` of rsbtd/src/api/settings/mod.rs rest on. The laws of a sequence of groups follow.
pub mod Frame
pub mod Parts
pub mod Modes
pub mod Texts
pub mod Nets
pub mod Scalars
use rsbtd.Base.{
  ℕ, ◌≡◌, refl, sym, ap, ◌∙◌, arith, Bool, true, false, not, ◌&&◌, ◌||◌, List, [], ◌∷◌, All, ◌==◌,
}
use rsbtd.Settings.Pack.{SettingsPack, Result, ok, ◌>>=◌, merge}
use rsbtd.Api.Input.{SettingsError}
use rsbtd.Api.Scalar.Kept.{SameAt, member}
use rsbtd.Api.RoundTrip.{bind-ok, ok-injective}

-- `given` is the value that is read once the input is applied over an own value; `Fits` bounds what the Rust
-- type of the input bounds.
pub record Group : Type 1 where
  pub Input : Type 0
  pub Value : Type 0
  pub keys : List ℕ
  pub read : SettingsPack → Result SettingsError Value
  pub write : Input → SettingsPack → Result SettingsError SettingsPack
  pub Fits : Input → Type 0
  pub given : Input → Value → Value

abbrev pub SameOn : List ℕ → SettingsPack → SettingsPack → Type 0
SameOn keys p q = All (λ j. SameAt j p q) keys

pub record Lawful (g : Group) : Type 0 where
  pub frame :
      (x : g.Input) (p q : SettingsPack) (j : ℕ)
      → member j g.keys ≡ false
      → g.write x p ≡ ok q
      → SameAt j p q
  pub local :
      (p q effective : SettingsPack)
      → SameOn g.keys p q
      → g.read (merge effective p) ≡ g.read (merge effective q)
  pub back :
      (x : g.Input) (p q effective : SettingsPack) (own : g.Value)
      → g.Fits x
      → g.write x p ≡ ok q
      → g.read (merge effective p) ≡ ok own
      → g.read (merge effective q) ≡ ok (g.given x own)

abbrev pub Inputs : List Group → Type 0
Inputs [] = Unit
Inputs (g ∷ gs) = g.Input × Inputs gs

abbrev pub Values : List Group → Type 0
Values [] = Unit
Values (g ∷ gs) = g.Value × Values gs

abbrev pub AllFit : (gs : List Group) → Inputs gs → Type 0
AllFit [] input = Unit
AllFit (g ∷ gs) (x, input) = g.Fits x × AllFit gs input

abbrev pub overlay : (gs : List Group) → Inputs gs → Values gs → Values gs
overlay [] input own = tt
overlay (g ∷ gs) (x, input) (v, own) = (g.given x v, overlay gs input own)

abbrev pub AllLawful : List Group → Type 0
AllLawful [] = Unit
AllLawful (g ∷ gs) = Lawful g × AllLawful gs

unfoldable pub read_groups : (gs : List Group) → SettingsPack → Result SettingsError (Values gs)
read_groups [] pack = ok tt
read_groups (g ∷ gs) pack = do v ← g.read pack; vs ← read_groups gs pack; ok (v, vs)

unfoldable pub write_groups :
    (gs : List Group) → Inputs gs → SettingsPack → Result SettingsError SettingsPack
write_groups [] input delta = ok delta
write_groups (g ∷ gs) (x, input) delta = do d ← g.write x delta; write_groups gs input d

abbrev pub disjoint : List ℕ → List ℕ → Bool
disjoint [] ks = true
disjoint (j ∷ js) ks = not (member j ks) && disjoint js ks

abbrev pub disjoint_all : List ℕ → List Group → Bool
disjoint_all js [] = true
disjoint_all js (g ∷ gs) = disjoint js g.keys && disjoint_all js gs

-- No two groups share a key.
abbrev pub separate : List Group → Bool
separate [] = true
separate (g ∷ gs) = disjoint_all g.keys gs && separate gs
