-- ===== src/Api/Whole/Reach.antt =====
-- How far `read` and `write` of rsbtd/src/api/settings/mod.rs reach: not beyond the settings that the table
-- `backing` names.
use rsbtd.Base.{ℕ, ◌≡◌, refl, sym, ◌∙◌, arith, true, false, ◌||◌, List, [], ◌∷◌, ◌++◌, none, subst}
use rsbtd.Events.{Text}
use rsbtd.Settings.Pack.{SettingsPack, ok, merge}
use rsbtd.Settings.Table.{lt_setting}
use rsbtd.Api.Scalar.Kept.{SameAt, member}
use rsbtd.Api.Proxy.{read_proxy}
use rsbtd.Api.I2p.{read_i2p}
use rsbtd.Api.Groups.{Group, SameOn, Values, AllLawful, write_groups, disjoint_all}
use rsbtd.Api.Groups.Frame.{writes-SameOn, AllRead}
use rsbtd.Api.Whole.{Settings, SettingsInput, read, write}
use rsbtd.Api.Whole.RoundTrip.{
  groups, inputs_of, values_of, groups-Lawful, read-AllRead, AllRead-read,
}
use rsbtd.Api.Whole.Backing.{backing, all_keys}

-- The keys of a sequence of groups.
abbrev group_keys : List Group → List ℕ
group_keys [] = []
group_keys (g ∷ gs) = g.keys ++ group_keys gs

member-append : (j : ℕ) (js ks : List ℕ) → member j (js ++ ks) ≡ (member j js || member j ks)
member-append j [] ks = refl
member-append j (i ∷ js) ks = ground (arith, member-append j js ks)

disjoint_from_others :
    (j : ℕ) (gs : List Group) → member j (group_keys gs) ≡ false → disjoint_all (j ∷ []) gs ≡ true
disjoint_from_others j [] h = refl
disjoint_from_others j (g ∷ gs) h =
    let both = sym (member-append j g.keys (group_keys gs)) ∙ h in
    ground (arith, both, disjoint_from_others j gs (ground (arith, both)))

SameOn-left : (js ks : List ℕ) (p q : SettingsPack) → SameOn (js ++ ks) p q → SameOn js p q
SameOn-left [] ks p q h = tt
SameOn-left (j ∷ js) ks p q (s, h) = (s, SameOn-left js ks p q h)

SameOn-right : (js ks : List ℕ) (p q : SettingsPack) → SameOn (js ++ ks) p q → SameOn ks p q
SameOn-right [] ks p q h = h
SameOn-right (j ∷ js) ks p q (s, h) = SameOn-right js ks p q h

AllRead-SameOn :
    (gs : List Group) (laws : AllLawful gs) (p q effective : SettingsPack) (vs : Values gs)
    → SameOn (group_keys gs) p q
    → AllRead gs (merge effective p) vs
    → AllRead gs (merge effective q) vs
AllRead-SameOn [] laws p q effective vs same h = tt
AllRead-SameOn (g ∷ gs) (law, laws) p q effective (v, vs) same (e, h) = (
  sym (law.local p q effective (SameOn-left g.keys (group_keys gs) p q same)) ∙ e,
  AllRead-SameOn gs laws p q effective vs (SameOn-right g.keys (group_keys gs) p q same) h,
)

module _ (libtorrent_version package_version : Text) (defaults : SettingsPack) where
  backing-group_keys :
      all_keys backing ≡ group_keys (groups libtorrent_version package_version defaults)
  unfolding lt_setting
  backing-group_keys = refl

  -- A write that succeeds stages nothing but settings that the table names behind some public field: for
  -- every other key the delta holds what it held before. It is assumed that the defaults of
  -- libtorrent set no proxy and no I2P bridge.
  pub write-backing :
      (input : SettingsInput) (delta d : SettingsPack) (j : ℕ)
      → read_proxy defaults ≡ ok none
      → read_i2p defaults ≡ ok none
      → write libtorrent_version package_version defaults delta input ≡ ok d
      → member j (all_keys backing) ≡ false
      → SameAt j delta d
  unfolding write write_groups
  write-backing input delta d j no_proxy no_i2p h other =
      let gs = groups libtorrent_version package_version defaults in
      let absent : member j (group_keys gs) ≡ false =
        subst (λ ks. member j ks ≡ false) backing-group_keys other in
      (writes-SameOn gs (groups-Lawful libtorrent_version package_version defaults no_proxy no_i2p)
        (inputs_of libtorrent_version package_version defaults input) delta d (j ∷ [])
        (disjoint_from_others j gs absent) h).0

  -- A read looks at nothing but settings that the table names behind some public field: over two deltas
  -- that agree on these settings, it shows the same. It is assumed that the defaults of libtorrent
  -- set no proxy and no I2P bridge.
  pub read-backing :
      (p q effective : SettingsPack) (s : Settings)
      → read_proxy defaults ≡ ok none
      → read_i2p defaults ≡ ok none
      → SameOn (all_keys backing) p q
      → read (merge effective p) ≡ ok s
      → read (merge effective q) ≡ ok s
  read-backing p q effective s no_proxy no_i2p same h =
      let gs = groups libtorrent_version package_version defaults in
      AllRead-read libtorrent_version package_version defaults (merge effective q) s (
        AllRead-SameOn gs
          (groups-Lawful libtorrent_version package_version defaults no_proxy no_i2p) p q effective
          (values_of libtorrent_version package_version defaults s)
          (subst (λ ks. SameOn ks p q) backing-group_keys same)
          (read-AllRead libtorrent_version package_version defaults (merge effective p) s h))
