-- ===== src/Api/Groups/Frame.antt =====
-- The frame of a sequence of groups, and its round trip.
use rsbtd.Base.{ℕ, ◌≡◌, refl, sym, subst, ◌∙◌, arith, true, false, List, [], ◌∷◌}
use rsbtd.Settings.Pack.{SettingsPack, ok, merge}
use rsbtd.Api.Scalar.Kept.{member}
use rsbtd.Api.RoundTrip.{bind-ok, ok-injective}
use rsbtd.Api.Groups.{
  Group, SameOn, Lawful, Inputs, Values, AllFit, overlay, AllLawful, read_groups, write_groups,
  disjoint, disjoint_all, separate,
}

disjoint-SameOn :
    (g : Group) (law : Lawful g) (x : g.Input) (p q : SettingsPack) (js : List ℕ)
    → disjoint js g.keys ≡ true
    → g.write x p ≡ ok q
    → SameOn js p q
disjoint-SameOn g law x p q [] apart h = tt
disjoint-SameOn g law x p q (j ∷ js) apart h = (
  law.frame x p q j (ground (arith, apart)) h,
  disjoint-SameOn g law x p q js (ground (arith, apart)) h,
)

SameOn-trans : (js : List ℕ) (p q r : SettingsPack) → SameOn js p q → SameOn js q r → SameOn js p r
SameOn-trans [] p q r h k = tt
SameOn-trans (j ∷ js) p q r h k =
    ((h.0.0 ∙ k.0.0, h.0.1 ∙ k.0.1, h.0.2 ∙ k.0.2), SameOn-trans js p q r h.1 k.1)

SameOn-refl : (js : List ℕ) (p : SettingsPack) → SameOn js p p
SameOn-refl [] p = tt
SameOn-refl (j ∷ js) p = ((refl, refl, refl), SameOn-refl js p)

-- The groups written later leave the keys alone.
pub writes-SameOn :
    (gs : List Group) (laws : AllLawful gs) (input : Inputs gs) (p q : SettingsPack) (js : List ℕ)
    → disjoint_all js gs ≡ true
    → write_groups gs input p ≡ ok q
    → SameOn js p q
unfolding write_groups
writes-SameOn [] laws input p q js apart h =
    subst (λ r. SameOn js p r) (ok-injective p q h) (SameOn-refl js p)
writes-SameOn (g ∷ gs) laws (x, input) p q js apart h =
    let (d, eh, h1) = bind-ok (g.write x p) _ q h in
    SameOn-trans js p d q (disjoint-SameOn g laws.0 x p d js (ground (arith, apart)) eh)
      (writes-SameOn gs laws.1 input d q js (ground (arith, apart)) h1)

disjoint-cons :
    (j : ℕ) (js ks : List ℕ)
    → member j ks ≡ false
    → disjoint ks js ≡ true
    → disjoint ks (j ∷ js) ≡ true
disjoint-cons j js [] absent apart = refl
disjoint-cons j js (k ∷ ks) absent apart =
    ground
      (arith, absent, apart, disjoint-cons j js ks (ground (arith, absent)) (ground (arith, apart)))

disjoint-nil : (ks : List ℕ) → disjoint ks [] ≡ true
disjoint-nil [] = refl
disjoint-nil (k ∷ ks) = disjoint-nil ks

disjoint_sym : (js ks : List ℕ) → disjoint js ks ≡ true → disjoint ks js ≡ true
disjoint_sym [] ks h = disjoint-nil ks
disjoint_sym (j ∷ js) ks h =
    disjoint-cons j js ks (ground (arith, h)) (disjoint_sym js ks (ground (arith, h)))

reads_same :
    (g : Group) (law : Lawful g) (gs : List Group) (laws : AllLawful gs) (x : g.Input)
    (p d effective : SettingsPack)
    → disjoint_all g.keys gs ≡ true
    → g.write x p ≡ ok d
    → read_groups gs (merge effective p) ≡ read_groups gs (merge effective d)
unfolding read_groups
reads_same g law [] laws x p d effective apart h = refl
reads_same g law (f ∷ gs) laws x p d effective apart h =
    rw
      (
        laws.0.local p d effective (
            disjoint-SameOn g law x p d f.keys (disjoint_sym g.keys f.keys (ground (arith, apart)))
              h),
        reads_same g law gs laws.1 x p d effective (ground (arith, apart)) h,
      )
      refl

pub write_groups-read :
    (gs : List Group) (laws : AllLawful gs) (input : Inputs gs) (p q effective : SettingsPack)
    (before : Values gs)
    → separate gs ≡ true
    → AllFit gs input
    → write_groups gs input p ≡ ok q
    → read_groups gs (merge effective p) ≡ ok before
    → read_groups gs (merge effective q) ≡ ok (overlay gs input before)
unfolding write_groups read_groups
write_groups-read [] laws input p q effective before apart fits h known = refl
write_groups-read (g ∷ gs) laws (x, input) p q effective (own, before) apart fits h known =
    let (d, eh, h1) = bind-ok (g.write x p) _ q h in
    let (v, ev, k1) = bind-ok (g.read (merge effective p)) _ (own, before) known in
    let (vs, evs, k2) = bind-ok (read_groups gs (merge effective p)) _ (own, before) k1 in
    let pair = ok-injective (v, vs) (own, before) k2 in
    let tail =
      write_groups-read gs laws.1 input d q effective before (ground (arith, apart)) fits.1 h1 (
        sym (reads_same g laws.0 gs laws.1 x p d effective (ground (arith, apart)) eh)
        ∙ evs
        ∙ cc pair) in
    let head =
      sym (
        laws.0.local d q effective
          (writes-SameOn gs laws.1 input d q g.keys (ground (arith, apart)) h1))
      ∙ laws.0.back x p d effective own fits.0 eh (ev ∙ cc pair) in
    cc (head, tail)

-- Each group reads its value.
abbrev pub AllRead : (gs : List Group) → SettingsPack → Values gs → Type 0
AllRead [] pack vs = Unit
AllRead (g ∷ gs) pack (v, vs) = (g.read pack ≡ ok v) × AllRead gs pack vs

pub read_groups-AllRead :
    (gs : List Group) (pack : SettingsPack) (vs : Values gs)
    → read_groups gs pack ≡ ok vs
    → AllRead gs pack vs
unfolding read_groups
read_groups-AllRead [] pack vs h = tt
read_groups-AllRead (g ∷ gs) pack (v, vs) h =
    let (w, ew, h1) = bind-ok (g.read pack) _ (v, vs) h in
    let (ws, ews, h2) = bind-ok (read_groups gs pack) _ (v, vs) h1 in
    let pair = ok-injective (w, ws) (v, vs) h2 in
    (ew ∙ cc pair, read_groups-AllRead gs pack vs (ews ∙ cc pair))

pub AllRead-read_groups :
    (gs : List Group) (pack : SettingsPack) (vs : Values gs)
    → AllRead gs pack vs
    → read_groups gs pack ≡ ok vs
unfolding read_groups
AllRead-read_groups [] pack vs h = refl
AllRead-read_groups (g ∷ gs) pack (v, vs) h = rw (h.0, AllRead-read_groups gs pack vs h.1) refl
