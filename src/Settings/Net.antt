-- ===== src/Settings/Net.antt =====
-- The setters and getters of rbtorrent/src/settings/net.rs that touch one setting: proxy, I2P, encryption and web seeds.
-- A `u16` or `u8` is a number; a getter of an enum is empty at a number that the enum has not.
pub mod Keys
pub mod Proxy
pub mod I2p
use rsbtd.Base.{ℕ, Bool, Option}
use rsbtd.Events.{Text}
use rsbtd.Settings.Int.{ℤ, pos, negsuc}
use rsbtd.Settings.Pack.{
  SettingsPack, SettingsError, Result, set_str, set_int, set_bool, get_str, get_int, get_bool,
  ranged, ◌>>=?◌,
}
use rsbtd.Settings.Enums.{
  EncLevel, EncPolicy, ProxyType, enc_level_raw, enc_level_from_raw, enc_policy_raw,
  enc_policy_from_raw, proxy_type_raw, proxy_type_from_raw,
}
use rsbtd.Settings.Net.Keys.{
  ct_set_proxy_hostname, ct_set_proxy_username, ct_set_proxy_password, ct_set_i2p_hostname,
  ct_set_allow_i2p_mixed, ct_set_anonymous_mode, ct_set_report_web_seed_downloads,
  ct_set_ban_web_seeds, ct_set_prefer_rc4, ct_set_proxy_hostnames, ct_set_proxy_peer_connections,
  ct_set_proxy_tracker_connections, ct_set_socks5_udp_send_local_ep,
  ct_set_proxy_send_host_in_connect, ct_set_urlseed_timeout, ct_set_urlseed_wait_retry,
  ct_set_tick_interval, ct_set_alert_queue_size, ct_set_alert_mask, ct_set_out_enc_policy,
  ct_set_in_enc_policy, ct_set_allowed_enc_level, ct_set_proxy_type, ct_set_proxy_port,
  ct_set_i2p_port, ct_set_urlseed_max_request_bytes, ct_set_web_seed_name_lookup_retry,
  ct_set_max_web_seed_connections, ct_set_resolver_cache_timeout, ct_set_i2p_inbound_quantity,
  ct_set_i2p_outbound_quantity, ct_set_i2p_inbound_length, ct_set_i2p_outbound_length,
  ct_set_i2p_inbound_length_variance, ct_set_i2p_outbound_length_variance,
}

abbrev pub proxy_hostname : Text → SettingsPack → SettingsPack
proxy_hostname = set_str ct_set_proxy_hostname

abbrev pub get_proxy_hostname : SettingsPack → Option Text
get_proxy_hostname = get_str ct_set_proxy_hostname

abbrev pub proxy_username : Text → SettingsPack → SettingsPack
proxy_username = set_str ct_set_proxy_username

abbrev pub get_proxy_username : SettingsPack → Option Text
get_proxy_username = get_str ct_set_proxy_username

abbrev pub proxy_password : Text → SettingsPack → SettingsPack
proxy_password = set_str ct_set_proxy_password

abbrev pub get_proxy_password : SettingsPack → Option Text
get_proxy_password = get_str ct_set_proxy_password

abbrev pub i2p_hostname : Text → SettingsPack → SettingsPack
i2p_hostname = set_str ct_set_i2p_hostname

abbrev pub get_i2p_hostname : SettingsPack → Option Text
get_i2p_hostname = get_str ct_set_i2p_hostname

abbrev pub allow_i2p_mixed : Bool → SettingsPack → SettingsPack
allow_i2p_mixed = set_bool ct_set_allow_i2p_mixed

abbrev pub get_allow_i2p_mixed : SettingsPack → Option Bool
get_allow_i2p_mixed = get_bool ct_set_allow_i2p_mixed

abbrev pub anonymous_mode : Bool → SettingsPack → SettingsPack
anonymous_mode = set_bool ct_set_anonymous_mode

abbrev pub get_anonymous_mode : SettingsPack → Option Bool
get_anonymous_mode = get_bool ct_set_anonymous_mode

abbrev pub report_web_seed_downloads : Bool → SettingsPack → SettingsPack
report_web_seed_downloads = set_bool ct_set_report_web_seed_downloads

abbrev pub get_report_web_seed_downloads : SettingsPack → Option Bool
get_report_web_seed_downloads = get_bool ct_set_report_web_seed_downloads

abbrev pub ban_web_seeds : Bool → SettingsPack → SettingsPack
ban_web_seeds = set_bool ct_set_ban_web_seeds

abbrev pub get_ban_web_seeds : SettingsPack → Option Bool
get_ban_web_seeds = get_bool ct_set_ban_web_seeds

abbrev pub prefer_rc4 : Bool → SettingsPack → SettingsPack
prefer_rc4 = set_bool ct_set_prefer_rc4

abbrev pub get_prefer_rc4 : SettingsPack → Option Bool
get_prefer_rc4 = get_bool ct_set_prefer_rc4

abbrev pub proxy_hostnames : Bool → SettingsPack → SettingsPack
proxy_hostnames = set_bool ct_set_proxy_hostnames

abbrev pub get_proxy_hostnames : SettingsPack → Option Bool
get_proxy_hostnames = get_bool ct_set_proxy_hostnames

abbrev pub proxy_peer_connections : Bool → SettingsPack → SettingsPack
proxy_peer_connections = set_bool ct_set_proxy_peer_connections

abbrev pub get_proxy_peer_connections : SettingsPack → Option Bool
get_proxy_peer_connections = get_bool ct_set_proxy_peer_connections

abbrev pub proxy_tracker_connections : Bool → SettingsPack → SettingsPack
proxy_tracker_connections = set_bool ct_set_proxy_tracker_connections

abbrev pub get_proxy_tracker_connections : SettingsPack → Option Bool
get_proxy_tracker_connections = get_bool ct_set_proxy_tracker_connections

abbrev pub socks5_udp_send_local_ep : Bool → SettingsPack → SettingsPack
socks5_udp_send_local_ep = set_bool ct_set_socks5_udp_send_local_ep

abbrev pub get_socks5_udp_send_local_ep : SettingsPack → Option Bool
get_socks5_udp_send_local_ep = get_bool ct_set_socks5_udp_send_local_ep

abbrev pub proxy_send_host_in_connect : Bool → SettingsPack → SettingsPack
proxy_send_host_in_connect = set_bool ct_set_proxy_send_host_in_connect

abbrev pub get_proxy_send_host_in_connect : SettingsPack → Option Bool
get_proxy_send_host_in_connect = get_bool ct_set_proxy_send_host_in_connect

abbrev pub urlseed_timeout : ℤ → SettingsPack → SettingsPack
urlseed_timeout = set_int ct_set_urlseed_timeout

abbrev pub get_urlseed_timeout : SettingsPack → Option ℤ
get_urlseed_timeout = get_int ct_set_urlseed_timeout

abbrev pub urlseed_wait_retry : ℤ → SettingsPack → SettingsPack
urlseed_wait_retry = set_int ct_set_urlseed_wait_retry

abbrev pub get_urlseed_wait_retry : SettingsPack → Option ℤ
get_urlseed_wait_retry = get_int ct_set_urlseed_wait_retry

abbrev pub tick_interval : ℤ → SettingsPack → Result SettingsError SettingsPack
tick_interval = ranged "tick_interval" (pos 1) (pos 1000) ct_set_tick_interval

abbrev pub get_tick_interval : SettingsPack → Option ℤ
get_tick_interval = get_int ct_set_tick_interval

abbrev pub alert_queue_size : ℤ → SettingsPack → Result SettingsError SettingsPack
alert_queue_size = ranged "alert_queue_size" (pos 1) (pos 2147483647) ct_set_alert_queue_size

abbrev pub get_alert_queue_size : SettingsPack → Option ℤ
get_alert_queue_size = get_int ct_set_alert_queue_size

abbrev pub alert_mask : ℤ → SettingsPack → SettingsPack
alert_mask = set_int ct_set_alert_mask

abbrev pub get_alert_mask : SettingsPack → Option ℤ
get_alert_mask = get_int ct_set_alert_mask

abbrev pub out_enc_policy : EncPolicy → SettingsPack → SettingsPack
out_enc_policy = λ value. set_int ct_set_out_enc_policy (enc_policy_raw value)

abbrev pub get_out_enc_policy : SettingsPack → Option EncPolicy
get_out_enc_policy = λ pack. get_int ct_set_out_enc_policy pack >>=? enc_policy_from_raw

abbrev pub in_enc_policy : EncPolicy → SettingsPack → SettingsPack
in_enc_policy = λ value. set_int ct_set_in_enc_policy (enc_policy_raw value)

abbrev pub get_in_enc_policy : SettingsPack → Option EncPolicy
get_in_enc_policy = λ pack. get_int ct_set_in_enc_policy pack >>=? enc_policy_from_raw

abbrev pub allowed_enc_level : EncLevel → SettingsPack → SettingsPack
allowed_enc_level = λ value. set_int ct_set_allowed_enc_level (enc_level_raw value)

abbrev pub get_allowed_enc_level : SettingsPack → Option EncLevel
get_allowed_enc_level = λ pack. get_int ct_set_allowed_enc_level pack >>=? enc_level_from_raw

abbrev pub proxy_type : ProxyType → SettingsPack → SettingsPack
proxy_type = λ value. set_int ct_set_proxy_type (proxy_type_raw value)

abbrev pub get_proxy_type : SettingsPack → Option ProxyType
get_proxy_type = λ pack. get_int ct_set_proxy_type pack >>=? proxy_type_from_raw

abbrev pub proxy_port : ℤ → SettingsPack → SettingsPack
proxy_port = set_int ct_set_proxy_port

abbrev pub get_proxy_port : SettingsPack → Option ℤ
get_proxy_port = get_int ct_set_proxy_port

abbrev pub i2p_port : ℤ → SettingsPack → SettingsPack
i2p_port = set_int ct_set_i2p_port

abbrev pub get_i2p_port : SettingsPack → Option ℤ
get_i2p_port = get_int ct_set_i2p_port

abbrev pub urlseed_max_request_bytes : ℤ → SettingsPack → SettingsPack
urlseed_max_request_bytes = set_int ct_set_urlseed_max_request_bytes

abbrev pub get_urlseed_max_request_bytes : SettingsPack → Option ℤ
get_urlseed_max_request_bytes = get_int ct_set_urlseed_max_request_bytes

abbrev pub web_seed_name_lookup_retry : ℤ → SettingsPack → SettingsPack
web_seed_name_lookup_retry = set_int ct_set_web_seed_name_lookup_retry

abbrev pub get_web_seed_name_lookup_retry : SettingsPack → Option ℤ
get_web_seed_name_lookup_retry = get_int ct_set_web_seed_name_lookup_retry

abbrev pub max_web_seed_connections : ℤ → SettingsPack → SettingsPack
max_web_seed_connections = set_int ct_set_max_web_seed_connections

abbrev pub get_max_web_seed_connections : SettingsPack → Option ℤ
get_max_web_seed_connections = get_int ct_set_max_web_seed_connections

abbrev pub resolver_cache_timeout : ℤ → SettingsPack → SettingsPack
resolver_cache_timeout = set_int ct_set_resolver_cache_timeout

abbrev pub get_resolver_cache_timeout : SettingsPack → Option ℤ
get_resolver_cache_timeout = get_int ct_set_resolver_cache_timeout

abbrev pub i2p_inbound_quantity : ℤ → SettingsPack → SettingsPack
i2p_inbound_quantity = set_int ct_set_i2p_inbound_quantity

abbrev pub get_i2p_inbound_quantity : SettingsPack → Option ℤ
get_i2p_inbound_quantity = get_int ct_set_i2p_inbound_quantity

abbrev pub i2p_outbound_quantity : ℤ → SettingsPack → SettingsPack
i2p_outbound_quantity = set_int ct_set_i2p_outbound_quantity

abbrev pub get_i2p_outbound_quantity : SettingsPack → Option ℤ
get_i2p_outbound_quantity = get_int ct_set_i2p_outbound_quantity

abbrev pub i2p_inbound_length : ℤ → SettingsPack → SettingsPack
i2p_inbound_length = set_int ct_set_i2p_inbound_length

abbrev pub get_i2p_inbound_length : SettingsPack → Option ℤ
get_i2p_inbound_length = get_int ct_set_i2p_inbound_length

abbrev pub i2p_outbound_length : ℤ → SettingsPack → SettingsPack
i2p_outbound_length = set_int ct_set_i2p_outbound_length

abbrev pub get_i2p_outbound_length : SettingsPack → Option ℤ
get_i2p_outbound_length = get_int ct_set_i2p_outbound_length

abbrev pub i2p_inbound_length_variance : ℤ → SettingsPack → SettingsPack
i2p_inbound_length_variance = set_int ct_set_i2p_inbound_length_variance

abbrev pub get_i2p_inbound_length_variance : SettingsPack → Option ℤ
get_i2p_inbound_length_variance = get_int ct_set_i2p_inbound_length_variance

abbrev pub i2p_outbound_length_variance : ℤ → SettingsPack → SettingsPack
i2p_outbound_length_variance = set_int ct_set_i2p_outbound_length_variance

abbrev pub get_i2p_outbound_length_variance : SettingsPack → Option ℤ
get_i2p_outbound_length_variance = get_int ct_set_i2p_outbound_length_variance
