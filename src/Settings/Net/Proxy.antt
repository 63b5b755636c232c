-- ===== src/Settings/Net/Proxy.antt =====
-- `proxy` and `get_proxy` of rbtorrent/src/settings/net.rs: ten settings written and read as one group.
use rsbtd.Base.{ℕ, Bool, false, ◌||◌, List, [], ◌∷◌, Option, none, some, ltb, if◌then◌else◌}
use rsbtd.Events.{Text}
use rsbtd.Errors.{Done}
use rsbtd.Settings.Int.{pos, try_u16, non_zero}
use rsbtd.Settings.Texts.{is_empty, byte_len, strip_prefix, strip_suffix, contains}
use rsbtd.Settings.Tokens.{bare_host_token}
use rsbtd.Settings.Enums.{ProxyType}
use rsbtd.Settings.Pack.{
  SettingsPack, SettingsError, Result, ok, fail, ok_or, set_defaults, ◌>>=◌, ◌>>=?◌,
  unbalanced_brackets, stray_brackets, socks4_userid, auth_username, auth_password,
  credentials_length,
}
use rsbtd.Settings.Net
use rsbtd.Settings.Net.Keys.{
  ct_set_proxy_type, ct_set_proxy_hostname, ct_set_proxy_port, ct_set_proxy_username,
  ct_set_proxy_password, ct_set_proxy_hostnames, ct_set_proxy_peer_connections,
  ct_set_proxy_tracker_connections, ct_set_socks5_udp_send_local_ep,
  ct_set_proxy_send_host_in_connect,
}

pub record Credentials : Type 0 where
  pub username : Text
  pub password : Text

pub data ProxyProtocol : Type 0 where
  socks4 : Text → ProxyProtocol
  socks5 : Option Credentials → Bool → Bool → ProxyProtocol
  http : Option Credentials → Bool → Bool → ProxyProtocol

pub record ProxyConfig : Type 0 where
  pub protocol : ProxyProtocol
  pub host : Text
  pub port : ℕ
  pub peer_connections : Bool
  pub tracker_connections : Bool

abbrev pub proxy_keys : List ℕ
proxy_keys =
    ct_set_proxy_type ∷ ct_set_proxy_hostname ∷ ct_set_proxy_port ∷ ct_set_proxy_username
    ∷ ct_set_proxy_password ∷ ct_set_proxy_hostnames ∷ ct_set_proxy_peer_connections
    ∷ ct_set_proxy_tracker_connections ∷ ct_set_socks5_udp_send_local_ep
    ∷ ct_set_proxy_send_host_in_connect ∷ []

abbrev pub usize_max : ℕ
usize_max = 18446744073709551615

unfoldable pub credentials : Option Credentials → ℕ → Result SettingsError (Text × Text)
credentials none max_len = ok ([], [])
credentials (some c) max_len =
    if is_empty c.username
    then fail "proxy" auth_username
    else if is_empty c.password
    then fail "proxy" auth_password
    else if ltb max_len (byte_len c.username) || ltb max_len (byte_len c.password)
    then fail "proxy" (credentials_length max_len)
    else ok (c.username, c.password)

-- What the ten settings get from the protocol: type, user, password, names resolved by the proxy, the
-- local endpoint sent, the host name sent.
pub record Wire : Type 0 where
  pub ty : ProxyType
  pub user : Text
  pub secret : Text
  pub resolve : Bool
  pub udp_local : Bool
  pub host_in_connect : Bool

abbrev pub with_auth : Option Credentials → ProxyType → ProxyType → ProxyType
with_auth none plain authenticated = plain
with_auth (some c) plain authenticated = authenticated

unfoldable pub wire : ProxyProtocol → Result SettingsError Wire
wire (ProxyProtocol.socks4 user) =
    if is_empty user
    then fail "proxy" socks4_userid
    else ok (record {
      ty = ProxyType.socks4;
      user = user;
      secret = [];
      resolve = false;
      udp_local = false;
      host_in_connect = false;
    })
wire (ProxyProtocol.socks5 auth resolve udp_local) = do
  c ← credentials auth 255
  ok (record {
    ty = with_auth auth ProxyType.socks5 ProxyType.socks5_pw;
    user = c.0;
    secret = c.1;
    resolve = resolve;
    udp_local = udp_local;
    host_in_connect = false;
  })
wire (ProxyProtocol.http auth resolve host_in_connect) = do
  c ← credentials auth usize_max
  ok (record {
    ty = with_auth auth ProxyType.http ProxyType.http_pw;
    user = c.0;
    secret = c.1;
    resolve = resolve;
    udp_local = false;
    host_in_connect = host_in_connect;
  })

abbrev pub unbracket_host : Text → Option Text → Result SettingsError Text
unbracket_host host none = ok host
unbracket_host host (some rest) =
    ok_or (record { setting = "proxy"; message = unbalanced_brackets }) (strip_suffix b']' rest)

unfoldable pub no_stray : Text → Result SettingsError Done
no_stray host =
    if contains b'[' host || contains b']' host then fail "proxy" stray_brackets else ok tt

unfoldable pub stage : ProxyConfig → Text → Wire → SettingsPack → SettingsPack
stage c host w pack = Net.proxy_send_host_in_connect w.host_in_connect (
    Net.socks5_udp_send_local_ep w.udp_local (
      Net.proxy_tracker_connections c.tracker_connections (
        Net.proxy_peer_connections c.peer_connections (
          Net.proxy_hostnames w.resolve (
            Net.proxy_password w.secret (
              Net.proxy_username w.user (
                Net.proxy_port (pos c.port)
                  (Net.proxy_hostname host (Net.proxy_type w.ty pack)))))))))

unfoldable pub proxy :
    SettingsPack → Option ProxyConfig → SettingsPack → Result SettingsError SettingsPack
proxy defaults none pack = ok (set_defaults defaults proxy_keys pack)
proxy defaults (some c) pack = do
  host ← unbracket_host c.host (strip_prefix b'[' c.host)
  u ← no_stray host
  v ← bare_host_token "proxy" "host" host
  w ← wire c.protocol
  ok (stage c host w pack)

-- The protocol of a type that is not `None`.
abbrev protocol_of : SettingsPack → Credentials → Bool → ProxyType → Option ProxyProtocol
protocol_of pack auth resolve ProxyType.no_proxy = none
protocol_of pack auth resolve ProxyType.socks4 =
    Net.get_proxy_username pack >>=? λ user. some (ProxyProtocol.socks4 user)
protocol_of pack auth resolve ProxyType.socks5 =
    Net.get_socks5_udp_send_local_ep pack >>=? λ b. some (ProxyProtocol.socks5 none resolve b)
protocol_of pack auth resolve ProxyType.socks5_pw = Net.get_socks5_udp_send_local_ep pack >>=? λ b.
    some (ProxyProtocol.socks5 (some auth) resolve b)
protocol_of pack auth resolve ProxyType.http =
    Net.get_proxy_send_host_in_connect pack >>=? λ b. some (ProxyProtocol.http none resolve b)
protocol_of pack auth resolve ProxyType.http_pw = Net.get_proxy_send_host_in_connect pack >>=? λ b.
    some (ProxyProtocol.http (some auth) resolve b)

abbrev config_of : SettingsPack → ProxyType → Option (Option ProxyConfig)
config_of pack ty = Net.get_proxy_port pack >>=? try_u16 >>=? non_zero >>=? λ port.
    Net.get_proxy_username pack >>=? λ username. Net.get_proxy_password pack >>=? λ password.
    Net.get_proxy_hostnames pack >>=? λ resolve.
    protocol_of pack (record { username = username; password = password }) resolve ty
    >>=? λ protocol. Net.get_proxy_hostname pack >>=? λ host.
        Net.get_proxy_peer_connections pack >>=? λ peers.
        Net.get_proxy_tracker_connections pack >>=? λ trackers. some (
          some (record {
            protocol = protocol;
            host = host;
            port = port;
            peer_connections = peers;
            tracker_connections = trackers;
          }))

abbrev configured : SettingsPack → ProxyType → Option (Option ProxyConfig)
configured pack ProxyType.no_proxy = some none
configured pack ProxyType.socks4 = config_of pack ProxyType.socks4
configured pack ProxyType.socks5 = config_of pack ProxyType.socks5
configured pack ProxyType.socks5_pw = config_of pack ProxyType.socks5_pw
configured pack ProxyType.http = config_of pack ProxyType.http
configured pack ProxyType.http_pw = config_of pack ProxyType.http_pw

unfoldable pub get_proxy : SettingsPack → Option (Option ProxyConfig)
get_proxy pack = Net.get_proxy_type pack >>=? configured pack
