-- ===== src/Api/Proxy.antt =====
-- `read_proxy` and `write_proxy` of rsbtd/src/api/settings/structured.rs.
use rsbtd.Base.{ℕ, Bool, true, false, not, ◌&&◌, Option, none, some, if◌then◌else◌}
use rsbtd.Events.{Text}
use rsbtd.Settings.Texts.{is_empty}
use rsbtd.Settings.Enums.{ProxyType}
use rsbtd.Settings.Pack.{SettingsPack, Result, ok, err, map_err, ◌>>=◌}
use rsbtd.Settings.Net
use rsbtd.Settings.Net.Proxy
use rsbtd.Settings.Net.Proxy.{Credentials, ProxyConfig, proxy}
use rsbtd.Api.Input.{
  SettingsError, MaybeUndefined, Nullable, nullable, rb_err, present, port_for, effective_port,
  unused_username, unused_password, socks4_resolves, local_endpoint_not_socks5, hostname_not_http,
}

pub data ProxyProtocol : Type 0 where
  socks4 socks5 socks5_password http http_password : ProxyProtocol

pub record ProxySettings : Type 0 where
  pub protocol : ProxyProtocol
  pub hostname : Text
  pub port : ℕ
  pub username : Text
  pub password : Text
  pub resolve_hostnames : Bool
  pub peer_connections : Bool
  pub tracker_connections : Bool
  pub socks5_udp_send_local_endpoint : Bool
  pub send_hostname_in_connect : Bool

abbrev pub protocol_from_lt : ProxyType → Option ProxyProtocol
protocol_from_lt ProxyType.no_proxy = none
protocol_from_lt ProxyType.socks4 = some socks4
protocol_from_lt ProxyType.socks5 = some socks5
protocol_from_lt ProxyType.socks5_pw = some socks5_password
protocol_from_lt ProxyType.http = some http
protocol_from_lt ProxyType.http_pw = some http_password

-- Everything but the type; the first setting that is not there is the error.
abbrev settings_of : SettingsPack → ProxyProtocol → Result SettingsError (Option ProxySettings)
settings_of pack protocol = do
  hostname ← present "proxy" (Net.get_proxy_hostname pack)
  raw ← present "proxy" (Net.get_proxy_port pack)
  port ← effective_port "proxy.port" raw
  username ← present "proxy" (Net.get_proxy_username pack)
  password ← present "proxy" (Net.get_proxy_password pack)
  resolve ← present "proxy" (Net.get_proxy_hostnames pack)
  peers ← present "proxy" (Net.get_proxy_peer_connections pack)
  trackers ← present "proxy" (Net.get_proxy_tracker_connections pack)
  udp_local ← present "proxy" (Net.get_socks5_udp_send_local_ep pack)
  in_connect ← present "proxy" (Net.get_proxy_send_host_in_connect pack)
  ok (
      some (record {
        protocol = protocol;
        hostname = hostname;
        port = port;
        username = username;
        password = password;
        resolve_hostnames = resolve;
        peer_connections = peers;
        tracker_connections = trackers;
        socks5_udp_send_local_endpoint = udp_local;
        send_hostname_in_connect = in_connect;
      }))

-- `None` is the only type without a protocol, and it is met before the conversion can fail on it.
abbrev read_protocol :
    SettingsPack → Option ProxyProtocol → Result SettingsError (Option ProxySettings)
read_protocol pack none = ok none
read_protocol pack (some protocol) = settings_of pack protocol

unfoldable pub read_proxy : SettingsPack → Result SettingsError (Option ProxySettings)
read_proxy pack = do
  ty ← present "proxy" (Net.get_proxy_type pack)
  read_protocol pack (protocol_from_lt ty)

abbrev pub wants_auth : ProxyProtocol → Bool
wants_auth socks4 = false
wants_auth socks5 = false
wants_auth socks5_password = true
wants_auth http = false
wants_auth http_password = true

abbrev pub is_socks4 : ProxyProtocol → Bool
is_socks4 socks4 = true
is_socks4 socks5 = false
is_socks4 socks5_password = false
is_socks4 http = false
is_socks4 http_password = false

abbrev pub is_socks5 : ProxyProtocol → Bool
is_socks5 socks4 = false
is_socks5 socks5 = true
is_socks5 socks5_password = true
is_socks5 http = false
is_socks5 http_password = false

abbrev pub is_http : ProxyProtocol → Bool
is_http socks4 = false
is_http socks5 = false
is_http socks5_password = false
is_http http = true
is_http http_password = true

-- The combinations that no protocol can express.
unfoldable pub misused : ProxySettings → Option SettingsError
misused p =
    if not (wants_auth p.protocol) && not (is_socks4 p.protocol) && not (is_empty p.username)
    then some unused_username
    else if not (wants_auth p.protocol) && not (is_empty p.password)
    then some unused_password
    else if p.resolve_hostnames && is_socks4 p.protocol
    then some socks4_resolves
    else if p.socks5_udp_send_local_endpoint && not (is_socks5 p.protocol)
    then some local_endpoint_not_socks5
    else if p.send_hostname_in_connect && not (is_http p.protocol)
    then some hostname_not_http
    else none

abbrev pub auth_of : ProxySettings → Option Credentials
auth_of p =
    if wants_auth p.protocol
    then some (record { username = p.username; password = p.password })
    else none

abbrev pub lt_protocol : ProxySettings → ProxyProtocol → Proxy.ProxyProtocol
lt_protocol p socks4 = Proxy.ProxyProtocol.socks4 p.username
lt_protocol p socks5 =
    Proxy.ProxyProtocol.socks5 (auth_of p) p.resolve_hostnames p.socks5_udp_send_local_endpoint
lt_protocol p socks5_password =
    Proxy.ProxyProtocol.socks5 (auth_of p) p.resolve_hostnames p.socks5_udp_send_local_endpoint
lt_protocol p http =
    Proxy.ProxyProtocol.http (auth_of p) p.resolve_hostnames p.send_hostname_in_connect
lt_protocol p http_password =
    Proxy.ProxyProtocol.http (auth_of p) p.resolve_hostnames p.send_hostname_in_connect

abbrev pub config_for : ProxySettings → ℕ → ProxyConfig
config_for p port = record {
  protocol = lt_protocol p p.protocol;
  host = p.hostname;
  port = port;
  peer_connections = p.peer_connections;
  tracker_connections = p.tracker_connections;
}

abbrev pub unless_misused :
    {A : Type 0} → Option SettingsError → Result SettingsError A → Result SettingsError A
unless_misused none r = r
unless_misused (some e) r = err e

abbrev pub write_change :
    SettingsPack → Nullable ProxySettings → SettingsPack → Result SettingsError SettingsPack
write_change defaults Nullable.unchanged delta = ok delta
write_change defaults Nullable.disable delta = map_err (rb_err "proxy") (proxy defaults none delta)
write_change defaults (Nullable.set p) delta = do
  port ← port_for "proxy.port" p.port
  unless_misused (misused p)
      (map_err (rb_err "proxy") (proxy defaults (some (config_for p port)) delta))

-- `defaults` are libtorrent's.
unfoldable pub write_proxy :
    SettingsPack → MaybeUndefined ProxySettings → SettingsPack → Result SettingsError SettingsPack
write_proxy defaults input delta = write_change defaults (nullable input) delta
