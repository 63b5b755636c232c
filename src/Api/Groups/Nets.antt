-- ===== src/Api/Groups/Nets.antt =====
-- The proxy and the I2P bridge as groups, with their laws, and the scalar settings of the catalog.
use rsbtd.Base.{ℕ, ◌≡◌, ◌≤◌, refl, ◌∙◌, arith, false, List, [], ◌∷◌, none, ◌==◌, subst}
use rsbtd.Settings.Pack.{SettingsPack, ok, merge, set_default, set_defaults, kind}
use rsbtd.Api.Input.{MaybeUndefined}
use rsbtd.Api.Scalar.Kept.{SameAt, member}
use rsbtd.Api.Groups.{Group, Lawful, SameOn}
use rsbtd.Api.RoundTrip.{ok-injective}
use rsbtd.Api.Groups.Parts.{nulled, nulled-back}
use rsbtd.Settings.Net.Proxy.{proxy, proxy_keys, stage}
use rsbtd.Settings.Net.I2p.{i2p, i2p_keys, get_i2p}
use rsbtd.Settings.Net.I2p
use rsbtd.Api.Proxy.{ProxySettings, read_proxy, write_proxy}
use rsbtd.Api.I2p.{I2pSettings, read_i2p, write_i2p, bare_hostname}
use rsbtd.Api.RoundTrip.Proxy.{write_proxy-read, write_proxy-staged}
use rsbtd.Api.RoundTrip.I2p.{write_i2p-read, write_i2p-staged}

-- The value as it is kept: the host without brackets.
abbrev pub kept_proxy : ProxySettings → ProxySettings
kept_proxy p = record p { hostname = bare_hostname p.hostname }

abbrev pub kept_i2p : I2pSettings → I2pSettings
kept_i2p c = record c { hostname = bare_hostname c.hostname }

set_default-SameAt :
    (defaults p : SettingsPack) (key j : ℕ)
    → (j == key) ≡ false
    → SameAt j p (set_default defaults key p)
unfolding set_default
set_default-SameAt defaults p key j other = ground (arith, other)

set_defaults-SameAt :
    (defaults p : SettingsPack) (keys : List ℕ) (j : ℕ)
    → member j keys ≡ false
    → SameAt j p (set_defaults defaults keys p)
unfolding set_defaults
set_defaults-SameAt defaults p [] j other = (refl, refl, refl)
set_defaults-SameAt defaults p (key ∷ keys) j other =
    let here = set_default-SameAt defaults p key j (ground (arith, other)) in
    let rest =
      set_defaults-SameAt defaults (set_default defaults key p) keys j (ground (arith, other)) in
    (here.0 ∙ rest.0, here.1 ∙ rest.1, here.2 ∙ rest.2)

module _ (defaults : SettingsPack) where
  abbrev pub proxy_group : Group
  proxy_group =
      nulled ProxySettings kept_proxy proxy_keys read_proxy (write_proxy defaults)
        (λ p. p.port ≤ 65535)

  abbrev pub i2p_group : Group
  i2p_group =
      nulled I2pSettings kept_i2p i2p_keys read_i2p (write_i2p defaults) (λ c. c.port ≤ 65535)

  proxy-frame :
      (x : MaybeUndefined ProxySettings) (p q : SettingsPack) (j : ℕ)
      → member j proxy_keys ≡ false
      → write_proxy defaults x p ≡ ok q
      → SameAt j p q
  unfolding write_proxy proxy stage
  proxy-frame MaybeUndefined.undefined p q j other h = (cc h, cc h, cc h)
  proxy-frame MaybeUndefined.null p q j other h =
      subst (λ r. SameAt j p r) (ok-injective _ q h)
        (set_defaults-SameAt defaults p proxy_keys j other)
  proxy-frame (MaybeUndefined.value v) p q j other h =
      let (c, host, w, e) = write_proxy-staged defaults v p q h in ground (arith, other, e)

  i2p-frame :
      (x : MaybeUndefined I2pSettings) (p q : SettingsPack) (j : ℕ)
      → member j i2p_keys ≡ false
      → write_i2p defaults x p ≡ ok q
      → SameAt j p q
  unfolding write_i2p i2p I2p.stage
  i2p-frame MaybeUndefined.undefined p q j other h = (cc h, cc h, cc h)
  i2p-frame MaybeUndefined.null p q j other h =
      subst (λ r. SameAt j p r) (ok-injective _ q h)
        (set_defaults-SameAt defaults p i2p_keys j other)
  i2p-frame (MaybeUndefined.value v) p q j other h =
      ground (arith, other, write_i2p-staged defaults v p q h)

  pub write_proxy-null :
      (p q effective : SettingsPack)
      → read_proxy defaults ≡ ok none
      → write_proxy defaults MaybeUndefined.null p ≡ ok q
      → read_proxy (merge effective q) ≡ ok none
  unfolding write_proxy proxy read_proxy set_defaults set_default kind
  write_proxy-null p q effective off h = ground (arith, off, h)

  pub write_i2p-null :
      (p q effective : SettingsPack)
      → read_i2p defaults ≡ ok none
      → write_i2p defaults MaybeUndefined.null p ≡ ok q
      → read_i2p (merge effective q) ≡ ok none
  unfolding write_i2p i2p read_i2p get_i2p set_defaults set_default kind
  write_i2p-null p q effective off h = ground (arith, off, h)

  proxy-local :
      (p q effective : SettingsPack)
      → SameOn proxy_keys p q
      → read_proxy (merge effective p) ≡ read_proxy (merge effective q)
  unfolding read_proxy
  proxy-local p q effective same = ground (arith, same)

  i2p-local :
      (p q effective : SettingsPack)
      → SameOn i2p_keys p q
      → read_i2p (merge effective p) ≡ read_i2p (merge effective q)
  unfolding read_i2p get_i2p
  i2p-local p q effective same = ground (arith, same)

  pub proxy-Lawful : read_proxy defaults ≡ ok none → Lawful proxy_group
  unfolding write_proxy
  proxy-Lawful off = record {
    frame = proxy-frame;
    local = proxy-local;
    back =
        nulled-back kept_proxy read_proxy (write_proxy defaults) (λ p. p.port ≤ 65535)
          (λ p q h. cc h) (λ p q effective h. write_proxy-null p q effective off h)
          (λ v p q effective fits h. write_proxy-read defaults v p q effective fits h);
  }

  pub i2p-Lawful : read_i2p defaults ≡ ok none → Lawful i2p_group
  unfolding write_i2p
  i2p-Lawful off = record {
    frame = i2p-frame;
    local = i2p-local;
    back =
        nulled-back kept_i2p read_i2p (write_i2p defaults) (λ c. c.port ≤ 65535) (λ p q h. cc h)
          (λ p q effective h. write_i2p-null p q effective off h)
          (λ v p q effective fits h. write_i2p-read defaults v p q effective fits h);
  }
