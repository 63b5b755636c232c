-- ===== src/Api/Refusals.antt =====
-- Which inputs the validating writers of rsbtd/src/api/settings/structured.rs take, with the checks of
-- rbtorrent's setters below them.
use Prim.Native.String.{String}
use rsbtd.Base.{
  ap, ◌∙◌, ℕ, ◌≡◌, refl, arith, Bool, true, false, not, ◌&&◌, ◌||◌, Option, none, some, leb,
  is_some,
}
use rsbtd.Events.{Text}
use rsbtd.Settings.Int.{pos, negsuc, within}
use rsbtd.Settings.Texts.{is_empty, contains, byte_len, strip_prefix}
use rsbtd.Settings.Tokens.{bare_host_token, has_delimiter, ipv6_literal, bracketed}
use rsbtd.Settings.Pack.{SettingsPack, Result, ok, err, map_err, ◌>>=◌}
use rsbtd.Settings.Pack
use rsbtd.Errors.{Done}
use rsbtd.Settings.Net.I2p.{i2p, check_tunnels}
use rsbtd.Settings.Net.Proxy.{
  ProxyConfig, stage, proxy, credentials, wire, no_stray, unbracket_host, usize_max,
}
use rsbtd.Api.Input.{MaybeUndefined, SettingsError, defined, rb_err, port_for}
use rsbtd.Api.Encryption.{EncryptionSettings, write_encryption}
use rsbtd.Api.I2p.{I2pSettings, I2pTunnel, write_i2p, bare_hostname}
use rsbtd.Api.Hosts.{IsBareOf, bare_hostname_lem}
use rsbtd.Api.Proxy.{
  ProxySettings, ProxyProtocol, write_proxy, misused, is_socks4, is_socks5, is_http, config_for,
  lt_protocol, unless_misused,
}

abbrev pub is_ok : {E A : Type 0} → Result E A → Bool
is_ok (ok a) = true
is_ok (err e) = false

-- A text that is not empty, has no comma and no white space, and has a colon only if it is a bare IPv6
-- address.
abbrev pub bare_token : Text → Bool
bare_token s =
    not (is_empty s) && not (has_delimiter s) && (not (contains b':' s) || ipv6_literal s)

abbrev pub proper_tunnel : I2pTunnel → Bool
proper_tunnel t =
    leb 1 t.tunnels && leb t.tunnels 16 && leb t.hops 7 && within (negsuc 6) (pos 7) t.hop_variance

abbrev pub proper_i2p : Text → I2pSettings → Bool
proper_i2p host c =
    leb 1 c.port && bare_token host && proper_tunnel c.inbound && proper_tunnel c.outbound

abbrev pub proper_encryption : EncryptionSettings → Bool
proper_encryption e =
    (e.methods.plaintext || e.methods.rc4)
    && (not e.prefers_rc4 || (e.methods.plaintext && e.methods.rc4))

-- An encryption policy is taken exactly if one of the two methods is enabled, and both are if RC4
-- is preferred.
pub write_encryption-proper :
    (e : EncryptionSettings) (delta : SettingsPack)
    → is_ok (write_encryption (MaybeUndefined.value e) delta) ≡ proper_encryption e
unfolding write_encryption defined
write_encryption-proper e delta = ground arith

write_i2p-bare :
    (defaults : SettingsPack) (c : I2pSettings) (delta : SettingsPack)
    → is_ok (write_i2p defaults (MaybeUndefined.value c) delta)
      ≡ proper_i2p (bare_hostname c.hostname) c
unfolding write_i2p i2p check_tunnels bare_host_token
write_i2p-bare defaults c delta = ground arith

-- Let `host` be the host name without the brackets around it, if there are any, or else the name. An
-- I2P bridge is taken exactly if its port is not 0, `host` is not empty, has no comma and no white
-- space, and is an IPv6 address if it has a colon, and for both directions the tunnels are 1 to 16, the
-- hops at most 7 and the variance between -7 and 7. Other brackets in the host are not looked at.
pub write_i2p-proper :
    (defaults : SettingsPack) (c : I2pSettings) (delta : SettingsPack) (host : Text)
    → IsBareOf c.hostname host
    → is_ok (write_i2p defaults (MaybeUndefined.value c) delta) ≡ proper_i2p host c
write_i2p-proper defaults c delta host h =
    write_i2p-bare defaults c delta ∙ ap (λ t. proper_i2p t c) (bare_hostname_lem c.hostname host h)

-- The user name and the password that each protocol takes.
abbrev pub proper_login : ProxyProtocol → Text → Text → Bool
proper_login ProxyProtocol.socks4 user secret = not (is_empty user) && is_empty secret
proper_login ProxyProtocol.socks5 user secret = is_empty user && is_empty secret
proper_login ProxyProtocol.socks5_password user secret =
    not (is_empty user)
    && not (is_empty secret)
    && leb (byte_len user) 255
    && leb (byte_len secret) 255
proper_login ProxyProtocol.http user secret = is_empty user && is_empty secret
proper_login ProxyProtocol.http_password user secret =
    not (is_empty user)
    && not (is_empty secret)
    && leb (byte_len user) usize_max
    && leb (byte_len secret) usize_max

-- The options that each protocol takes.
abbrev pub proper_options : ProxySettings → Bool
proper_options p =
    (not p.resolve_hostnames || not (is_socks4 p.protocol))
    && (not p.socks5_udp_send_local_endpoint || is_socks5 p.protocol)
    && (not p.send_hostname_in_connect || is_http p.protocol)

-- Brackets stand around the whole host or nowhere.
abbrev pub proper_host : Text → Bool
proper_host host =
    (is_some (bracketed host) || not (is_some (strip_prefix b'[' host)))
    && not (contains b'[' (bare_hostname host) || contains b']' (bare_hostname host))
    && bare_token (bare_hostname host)

abbrev pub proper_proxy : ProxySettings → Bool
proper_proxy p =
    leb 1 p.port
    && proper_login p.protocol p.username p.password
    && proper_options p
    && proper_host p.hostname

bind-is_ok :
    {E A B : Type 0} (r : Result E A) (k : A → Result E B) (b : Bool)
    → ((a : A) → is_ok (k a) ≡ b)
    → is_ok (r >>= k) ≡ (is_ok r && b)
bind-is_ok (ok a) k b h = h a
bind-is_ok (err e) k b h = refl

map_err-is_ok : {E F A : Type 0} (f : E → F) (r : Result E A) → is_ok (map_err f r) ≡ is_ok r
map_err-is_ok f (ok a) = refl
map_err-is_ok f (err e) = refl

unless_misused-is_ok :
    {A : Type 0} (m : Option SettingsError) (r : Result SettingsError A)
    → is_ok (unless_misused m r) ≡ (not (is_some m) && is_ok r)
unless_misused-is_ok none r = refl
unless_misused-is_ok (some e) r = refl

wire-proper :
    (p : ProxySettings)
    → (not (is_some (misused p)) && is_ok (wire (lt_protocol p p.protocol)))
      ≡ (proper_login p.protocol p.username p.password && proper_options p)
unfolding misused wire credentials
wire-proper p = ground arith

-- The host that the setter goes on with, if it takes it.
checked_host : Text → Result Pack.SettingsError Done
checked_host host = unbracket_host host (strip_prefix b'[' host) >>= λ h.
    no_stray h >>= λ u. bare_host_token "proxy" "host" h

host-proper : (host : Text) → is_ok (checked_host host) ≡ proper_host host
unfolding checked_host no_stray bare_host_token bare_hostname bracketed
host-proper host = ground arith

checks-is_ok :
    {E A B C : Type 0} (a : Result E A) (b c : A → Result E Done) (w : Result E B) (f : A → B → C)
    → is_ok (a >>= λ h. b h >>= λ u. c h >>= λ v. w >>= λ x. ok (f h x))
      ≡ (is_ok (a >>= λ h. b h >>= λ u. c h) && is_ok w)
checks-is_ok (ok h) b c w f = ground arith
checks-is_ok (err e) b c w f = refl

proxy-is_ok :
    (defaults : SettingsPack) (c : ProxyConfig) (delta : SettingsPack)
    → is_ok (proxy defaults (some c) delta)
      ≡ (is_ok (checked_host c.host) && is_ok (wire c.protocol))
unfolding proxy checked_host
proxy-is_ok defaults c delta =
    checks-is_ok (unbracket_host c.host (strip_prefix b'[' c.host)) no_stray
      (bare_host_token "proxy" "host") (wire c.protocol) (λ host w. stage c host w delta)

config-is_ok :
    (defaults : SettingsPack) (p : ProxySettings) (delta : SettingsPack) (port : ℕ)
    → is_ok (
        unless_misused
          (misused p)
          (map_err (rb_err "proxy") (proxy defaults (some (config_for p port)) delta)))
      ≡ (proper_login p.protocol p.username p.password
          && proper_options p
          && proper_host p.hostname)
config-is_ok defaults p delta port = ground (
  arith,
  wire-proper p,
  host-proper p.hostname,
  proxy-is_ok defaults (config_for p port) delta,
  map_err-is_ok (rb_err "proxy") (proxy defaults (some (config_for p port)) delta),
  unless_misused-is_ok (misused p)
      (map_err (rb_err "proxy") (proxy defaults (some (config_for p port)) delta)),
)

port-is_ok : (place : String) (n : ℕ) → is_ok (port_for place n) ≡ leb 1 n
port-is_ok place n = ground arith

-- A proxy is taken exactly if its port is not 0, its protocol takes the user name, the password
-- and the options that are given, and its host is a resolver name or an IPv6 address with brackets
-- around the whole or none.
pub write_proxy-proper :
    (defaults : SettingsPack) (p : ProxySettings) (delta : SettingsPack)
    → is_ok (write_proxy defaults (MaybeUndefined.value p) delta) ≡ proper_proxy p
unfolding write_proxy
write_proxy-proper defaults p delta = ground (
  arith,
  port-is_ok "proxy.port" p.port,
  bind-is_ok (port_for "proxy.port" p.port) _ _ (config-is_ok defaults p delta),
)
