-- ===== src/Api/RoundTrip/Proxy.antt =====
-- The proxy.
use rsbtd.Base.{ℕ, ◌≡◌, ◌≤◌, refl, arith, Option, none, some, true, [], sym, ap, subst, ◌∙◌}
use rsbtd.Events.{Text}
use rsbtd.Settings.Texts.{is_empty, strip_prefix}
use rsbtd.Settings.Tokens.{bare_host_token, bracketed}
use Prim.Native.String.{String}
use rsbtd.Api.RoundTrip.{bind-ok, map_err-ok}
use rsbtd.Settings.Pack.{SettingsPack, Result, ok, merge}
use rsbtd.Settings.Net.Proxy.{
  ProxyConfig, Wire, unbracket_host, proxy, credentials, wire, stage, no_stray,
}
use rsbtd.Api.Input.{SettingsError, value, rb_err, port_for}
use rsbtd.Api.Proxy.{
  ProxySettings, write_proxy, read_proxy, misused, lt_protocol, config_for, unless_misused,
}
use rsbtd.Api.I2p.{bare_hostname}

pub is_empty-nil : (s : Text) → is_empty s ≡ true → s ≡ []
is_empty-nil s h = ground (arith, h)

unbracketed :
    (host a : Text) → unbracket_host host (strip_prefix b'[' host) ≡ ok a → a ≡ bare_hostname host
unfolding bare_hostname bracketed
unbracketed host a h = ground (arith, h)

-- An accepted configuration is staged whole.
proxy-staged :
    (defaults : SettingsPack) (c : ProxyConfig) (delta d : SettingsPack)
    → proxy defaults (some c) delta ≡ ok d
    → (w : Wire) × (wire c.protocol ≡ ok w) × (d ≡ stage c (bare_hostname c.host) w delta)
unfolding proxy
proxy-staged defaults c delta d h =
    let (host, eh, h1) = bind-ok (unbracket_host c.host (strip_prefix b'[' c.host)) _ d h in
    let (u, eu, h2) = bind-ok (no_stray host) _ d h1 in
    let (v, ev, h3) = bind-ok (bare_host_token "proxy" "host" host) _ d h2 in
    let (w, ew, h4) = bind-ok (wire c.protocol) _ d h3 in
    (w, ew, cc (h4, unbracketed c.host host eh))

-- What was staged for a proper combination is read back.
staged-read :
    (p : ProxySettings) (host : Text) (w : Wire) (delta effective : SettingsPack)
    → p.port ≤ 65535
    → misused p ≡ none
    → wire (lt_protocol p p.protocol) ≡ ok w
    → read_proxy (merge effective (stage (config_for p p.port) host w delta))
      ≡ ok (some (record p { hostname = host }))
unfolding read_proxy credentials wire stage misused
staged-read p host w delta effective bound m h =
    ground (arith, h, is_empty-nil p.username, is_empty-nil p.password)

port_for-ok : (place : String) (n port : ℕ) → port_for place n ≡ ok port → port ≡ n
port_for-ok place n port h = ground (arith, h)

proper :
    (o : Option SettingsError) (r : Result SettingsError SettingsPack) (d : SettingsPack)
    → unless_misused o r ≡ ok d
    → (o ≡ none) × (r ≡ ok d)
proper none r d h = (refl, h)
proper (some e) r d h = absurd (cc h)

-- An accepted input is staged whole.
pub write_proxy-staged :
    (defaults : SettingsPack) (p : ProxySettings) (delta d : SettingsPack)
    → write_proxy defaults (value p) delta ≡ ok d
    → (c : ProxyConfig) × (host : Text) × (w : Wire) × (d ≡ stage c host w delta)
unfolding write_proxy
write_proxy-staged defaults p delta d h =
    let (port, ep, h1) = bind-ok (port_for "proxy.port" p.port) _ d h in
    let (m, h2) = proper (misused p) _ d h1 in
    let (w, ew, staged) =
      proxy-staged defaults (config_for p port) delta d (map_err-ok (rb_err "proxy") _ d h2) in
    (config_for p port, bare_hostname p.hostname, w, staged)

-- A proxy that is taken, with a port of 16 bits, is what is read from any effective pack with the
-- delta applied, with its host without brackets.
pub write_proxy-read :
    (defaults : SettingsPack) (p : ProxySettings) (delta d effective : SettingsPack)
    → p.port ≤ 65535
    → write_proxy defaults (value p) delta ≡ ok d
    → read_proxy (merge effective d) ≡ ok (some (record p { hostname = bare_hostname p.hostname }))
unfolding write_proxy
write_proxy-read defaults p delta d effective bound h =
    let (port, ep, h1) = bind-ok (port_for "proxy.port" p.port) _ d h in
    let (m, h2) = proper (misused p) _ d h1 in
    let (w, ew, staged) =
      proxy-staged defaults (config_for p port) delta d (map_err-ok (rb_err "proxy") _ d h2) in
    subst
      (λ q.
        read_proxy (merge effective q)
        ≡ ok (some (record p { hostname = bare_hostname p.hostname })))
      (sym (
        staged
        ∙ ap (λ n. stage (config_for p n) (bare_hostname p.hostname) w delta)
            (port_for-ok "proxy.port" p.port port ep)))
      (staged-read p (bare_hostname p.hostname) w delta effective bound m ew)
