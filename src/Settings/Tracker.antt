-- ===== src/Settings/Tracker.antt =====
-- The setters and getters of rbtorrent/src/settings/tracker.rs that touch one setting: announces, queueing and the identity.
-- A `u16` or `u8` is a number; a getter of an enum is empty at a number that the enum has not.
pub mod Keys
use rsbtd.Base.{ℕ, Bool, Option}
use rsbtd.Events.{Text}
use rsbtd.Settings.Int.{ℤ, pos, negsuc}
use rsbtd.Settings.Pack.{
  SettingsPack, SettingsError, Result, set_str, set_int, set_bool, get_str, get_int, get_bool,
  ranged, ◌>>=?◌,
}
use rsbtd.Settings.Tracker.Keys.{
  ct_set_user_agent, ct_set_announce_ip, ct_set_handshake_client_version,
  ct_set_auto_manage_prefer_seeds, ct_set_dont_count_slow_torrents, ct_set_announce_to_all_tiers,
  ct_set_announce_to_all_trackers, ct_set_prefer_udp_trackers,
  ct_set_incoming_starts_queued_torrents, ct_set_always_send_user_agent,
  ct_set_apply_ip_filter_to_trackers, ct_set_announce_crypto_support,
  ct_set_validate_https_trackers, ct_set_ssrf_mitigation, ct_set_allow_idna,
  ct_set_tracker_completion_timeout, ct_set_tracker_receive_timeout, ct_set_stop_tracker_timeout,
  ct_set_num_want, ct_set_active_downloads, ct_set_active_seeds, ct_set_active_checking,
  ct_set_active_dht_limit, ct_set_active_tracker_limit, ct_set_active_lsd_limit,
  ct_set_active_limit, ct_set_auto_manage_interval, ct_set_seed_time_limit,
  ct_set_auto_scrape_interval, ct_set_auto_scrape_min_interval, ct_set_min_announce_interval,
  ct_set_auto_manage_startup, ct_set_udp_tracker_token_expiry, ct_set_tracker_backoff,
  ct_set_share_ratio_limit, ct_set_seed_time_ratio_limit, ct_set_max_http_recv_buffer_size,
  ct_set_max_concurrent_http_announces, ct_set_announce_port,
}

abbrev pub user_agent : Text → SettingsPack → SettingsPack
user_agent = set_str ct_set_user_agent

abbrev pub get_user_agent : SettingsPack → Option Text
get_user_agent = get_str ct_set_user_agent

abbrev pub announce_ip : Text → SettingsPack → SettingsPack
announce_ip = set_str ct_set_announce_ip

abbrev pub get_announce_ip : SettingsPack → Option Text
get_announce_ip = get_str ct_set_announce_ip

abbrev pub handshake_client_version : Text → SettingsPack → SettingsPack
handshake_client_version = set_str ct_set_handshake_client_version

abbrev pub get_handshake_client_version : SettingsPack → Option Text
get_handshake_client_version = get_str ct_set_handshake_client_version

abbrev pub auto_manage_prefer_seeds : Bool → SettingsPack → SettingsPack
auto_manage_prefer_seeds = set_bool ct_set_auto_manage_prefer_seeds

abbrev pub get_auto_manage_prefer_seeds : SettingsPack → Option Bool
get_auto_manage_prefer_seeds = get_bool ct_set_auto_manage_prefer_seeds

abbrev pub dont_count_slow_torrents : Bool → SettingsPack → SettingsPack
dont_count_slow_torrents = set_bool ct_set_dont_count_slow_torrents

abbrev pub get_dont_count_slow_torrents : SettingsPack → Option Bool
get_dont_count_slow_torrents = get_bool ct_set_dont_count_slow_torrents

abbrev pub announce_to_all_tiers : Bool → SettingsPack → SettingsPack
announce_to_all_tiers = set_bool ct_set_announce_to_all_tiers

abbrev pub get_announce_to_all_tiers : SettingsPack → Option Bool
get_announce_to_all_tiers = get_bool ct_set_announce_to_all_tiers

abbrev pub announce_to_all_trackers : Bool → SettingsPack → SettingsPack
announce_to_all_trackers = set_bool ct_set_announce_to_all_trackers

abbrev pub get_announce_to_all_trackers : SettingsPack → Option Bool
get_announce_to_all_trackers = get_bool ct_set_announce_to_all_trackers

abbrev pub prefer_udp_trackers : Bool → SettingsPack → SettingsPack
prefer_udp_trackers = set_bool ct_set_prefer_udp_trackers

abbrev pub get_prefer_udp_trackers : SettingsPack → Option Bool
get_prefer_udp_trackers = get_bool ct_set_prefer_udp_trackers

abbrev pub incoming_starts_queued_torrents : Bool → SettingsPack → SettingsPack
incoming_starts_queued_torrents = set_bool ct_set_incoming_starts_queued_torrents

abbrev pub get_incoming_starts_queued_torrents : SettingsPack → Option Bool
get_incoming_starts_queued_torrents = get_bool ct_set_incoming_starts_queued_torrents

abbrev pub always_send_user_agent : Bool → SettingsPack → SettingsPack
always_send_user_agent = set_bool ct_set_always_send_user_agent

abbrev pub get_always_send_user_agent : SettingsPack → Option Bool
get_always_send_user_agent = get_bool ct_set_always_send_user_agent

abbrev pub apply_ip_filter_to_trackers : Bool → SettingsPack → SettingsPack
apply_ip_filter_to_trackers = set_bool ct_set_apply_ip_filter_to_trackers

abbrev pub get_apply_ip_filter_to_trackers : SettingsPack → Option Bool
get_apply_ip_filter_to_trackers = get_bool ct_set_apply_ip_filter_to_trackers

abbrev pub announce_crypto_support : Bool → SettingsPack → SettingsPack
announce_crypto_support = set_bool ct_set_announce_crypto_support

abbrev pub get_announce_crypto_support : SettingsPack → Option Bool
get_announce_crypto_support = get_bool ct_set_announce_crypto_support

abbrev pub validate_https_trackers : Bool → SettingsPack → SettingsPack
validate_https_trackers = set_bool ct_set_validate_https_trackers

abbrev pub get_validate_https_trackers : SettingsPack → Option Bool
get_validate_https_trackers = get_bool ct_set_validate_https_trackers

abbrev pub ssrf_mitigation : Bool → SettingsPack → SettingsPack
ssrf_mitigation = set_bool ct_set_ssrf_mitigation

abbrev pub get_ssrf_mitigation : SettingsPack → Option Bool
get_ssrf_mitigation = get_bool ct_set_ssrf_mitigation

abbrev pub allow_idna : Bool → SettingsPack → SettingsPack
allow_idna = set_bool ct_set_allow_idna

abbrev pub get_allow_idna : SettingsPack → Option Bool
get_allow_idna = get_bool ct_set_allow_idna

abbrev pub tracker_completion_timeout : ℤ → SettingsPack → Result SettingsError SettingsPack
tracker_completion_timeout =
    ranged "tracker_completion_timeout" (pos 1) (pos 2147483647) ct_set_tracker_completion_timeout

abbrev pub get_tracker_completion_timeout : SettingsPack → Option ℤ
get_tracker_completion_timeout = get_int ct_set_tracker_completion_timeout

abbrev pub tracker_receive_timeout : ℤ → SettingsPack → Result SettingsError SettingsPack
tracker_receive_timeout =
    ranged "tracker_receive_timeout" (pos 1) (pos 2147483647) ct_set_tracker_receive_timeout

abbrev pub get_tracker_receive_timeout : SettingsPack → Option ℤ
get_tracker_receive_timeout = get_int ct_set_tracker_receive_timeout

abbrev pub stop_tracker_timeout : ℤ → SettingsPack → SettingsPack
stop_tracker_timeout = set_int ct_set_stop_tracker_timeout

abbrev pub get_stop_tracker_timeout : SettingsPack → Option ℤ
get_stop_tracker_timeout = get_int ct_set_stop_tracker_timeout

abbrev pub num_want : ℤ → SettingsPack → SettingsPack
num_want = set_int ct_set_num_want

abbrev pub get_num_want : SettingsPack → Option ℤ
get_num_want = get_int ct_set_num_want

abbrev pub active_downloads : ℤ → SettingsPack → SettingsPack
active_downloads = set_int ct_set_active_downloads

abbrev pub get_active_downloads : SettingsPack → Option ℤ
get_active_downloads = get_int ct_set_active_downloads

abbrev pub active_seeds : ℤ → SettingsPack → SettingsPack
active_seeds = set_int ct_set_active_seeds

abbrev pub get_active_seeds : SettingsPack → Option ℤ
get_active_seeds = get_int ct_set_active_seeds

abbrev pub active_checking : ℤ → SettingsPack → SettingsPack
active_checking = set_int ct_set_active_checking

abbrev pub get_active_checking : SettingsPack → Option ℤ
get_active_checking = get_int ct_set_active_checking

abbrev pub active_dht_limit : ℤ → SettingsPack → SettingsPack
active_dht_limit = set_int ct_set_active_dht_limit

abbrev pub get_active_dht_limit : SettingsPack → Option ℤ
get_active_dht_limit = get_int ct_set_active_dht_limit

abbrev pub active_tracker_limit : ℤ → SettingsPack → SettingsPack
active_tracker_limit = set_int ct_set_active_tracker_limit

abbrev pub get_active_tracker_limit : SettingsPack → Option ℤ
get_active_tracker_limit = get_int ct_set_active_tracker_limit

abbrev pub active_lsd_limit : ℤ → SettingsPack → SettingsPack
active_lsd_limit = set_int ct_set_active_lsd_limit

abbrev pub get_active_lsd_limit : SettingsPack → Option ℤ
get_active_lsd_limit = get_int ct_set_active_lsd_limit

abbrev pub active_limit : ℤ → SettingsPack → SettingsPack
active_limit = set_int ct_set_active_limit

abbrev pub get_active_limit : SettingsPack → Option ℤ
get_active_limit = get_int ct_set_active_limit

abbrev pub auto_manage_interval : ℤ → SettingsPack → SettingsPack
auto_manage_interval = set_int ct_set_auto_manage_interval

abbrev pub get_auto_manage_interval : SettingsPack → Option ℤ
get_auto_manage_interval = get_int ct_set_auto_manage_interval

abbrev pub seed_time_limit : ℤ → SettingsPack → SettingsPack
seed_time_limit = set_int ct_set_seed_time_limit

abbrev pub get_seed_time_limit : SettingsPack → Option ℤ
get_seed_time_limit = get_int ct_set_seed_time_limit

abbrev pub auto_scrape_interval : ℤ → SettingsPack → SettingsPack
auto_scrape_interval = set_int ct_set_auto_scrape_interval

abbrev pub get_auto_scrape_interval : SettingsPack → Option ℤ
get_auto_scrape_interval = get_int ct_set_auto_scrape_interval

abbrev pub auto_scrape_min_interval : ℤ → SettingsPack → SettingsPack
auto_scrape_min_interval = set_int ct_set_auto_scrape_min_interval

abbrev pub get_auto_scrape_min_interval : SettingsPack → Option ℤ
get_auto_scrape_min_interval = get_int ct_set_auto_scrape_min_interval

abbrev pub min_announce_interval : ℤ → SettingsPack → SettingsPack
min_announce_interval = set_int ct_set_min_announce_interval

abbrev pub get_min_announce_interval : SettingsPack → Option ℤ
get_min_announce_interval = get_int ct_set_min_announce_interval

abbrev pub auto_manage_startup : ℤ → SettingsPack → SettingsPack
auto_manage_startup = set_int ct_set_auto_manage_startup

abbrev pub get_auto_manage_startup : SettingsPack → Option ℤ
get_auto_manage_startup = get_int ct_set_auto_manage_startup

abbrev pub udp_tracker_token_expiry : ℤ → SettingsPack → SettingsPack
udp_tracker_token_expiry = set_int ct_set_udp_tracker_token_expiry

abbrev pub get_udp_tracker_token_expiry : SettingsPack → Option ℤ
get_udp_tracker_token_expiry = get_int ct_set_udp_tracker_token_expiry

abbrev pub tracker_backoff : ℤ → SettingsPack → Result SettingsError SettingsPack
tracker_backoff = ranged "tracker_backoff" (pos 0) (pos 26630) ct_set_tracker_backoff

abbrev pub get_tracker_backoff : SettingsPack → Option ℤ
get_tracker_backoff = get_int ct_set_tracker_backoff

abbrev pub share_ratio_limit : ℤ → SettingsPack → SettingsPack
share_ratio_limit = set_int ct_set_share_ratio_limit

abbrev pub get_share_ratio_limit : SettingsPack → Option ℤ
get_share_ratio_limit = get_int ct_set_share_ratio_limit

abbrev pub seed_time_ratio_limit : ℤ → SettingsPack → SettingsPack
seed_time_ratio_limit = set_int ct_set_seed_time_ratio_limit

abbrev pub get_seed_time_ratio_limit : SettingsPack → Option ℤ
get_seed_time_ratio_limit = get_int ct_set_seed_time_ratio_limit

abbrev pub max_http_recv_buffer_size : ℤ → SettingsPack → SettingsPack
max_http_recv_buffer_size = set_int ct_set_max_http_recv_buffer_size

abbrev pub get_max_http_recv_buffer_size : SettingsPack → Option ℤ
get_max_http_recv_buffer_size = get_int ct_set_max_http_recv_buffer_size

abbrev pub max_concurrent_http_announces : ℤ → SettingsPack → Result SettingsError SettingsPack
max_concurrent_http_announces =
    ranged "max_concurrent_http_announces" (pos 1) (pos 2147483647)
      ct_set_max_concurrent_http_announces

abbrev pub get_max_concurrent_http_announces : SettingsPack → Option ℤ
get_max_concurrent_http_announces = get_int ct_set_max_concurrent_http_announces

abbrev pub announce_port : ℕ → SettingsPack → SettingsPack
announce_port = λ value. set_int ct_set_announce_port (pos value)

abbrev pub get_announce_port : SettingsPack → Option ℤ
get_announce_port = get_int ct_set_announce_port
