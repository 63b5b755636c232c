-- ===== src/Settings/Tracker/Keys.antt =====
-- The keys of rbtorrent/src/settings/tracker.rs, as libctorrent/include/ctorrent/ct_settings_generated.h numbers them.
use rsbtd.Base.{ℕ}

abbrev pub ct_set_user_agent : ℕ
ct_set_user_agent = 0x0000

abbrev pub ct_set_announce_ip : ℕ
ct_set_announce_ip = 0x0001

abbrev pub ct_set_handshake_client_version : ℕ
ct_set_handshake_client_version = 0x0003

abbrev pub ct_set_auto_manage_prefer_seeds : ℕ
ct_set_auto_manage_prefer_seeds = 0x800c

abbrev pub ct_set_dont_count_slow_torrents : ℕ
ct_set_dont_count_slow_torrents = 0x800d

abbrev pub ct_set_announce_to_all_tiers : ℕ
ct_set_announce_to_all_tiers = 0x8011

abbrev pub ct_set_announce_to_all_trackers : ℕ
ct_set_announce_to_all_trackers = 0x8012

abbrev pub ct_set_prefer_udp_trackers : ℕ
ct_set_prefer_udp_trackers = 0x8013

abbrev pub ct_set_incoming_starts_queued_torrents : ℕ
ct_set_incoming_starts_queued_torrents = 0x801c

abbrev pub ct_set_always_send_user_agent : ℕ
ct_set_always_send_user_agent = 0x802d

abbrev pub ct_set_apply_ip_filter_to_trackers : ℕ
ct_set_apply_ip_filter_to_trackers = 0x802e

abbrev pub ct_set_announce_crypto_support : ℕ
ct_set_announce_crypto_support = 0x803a

abbrev pub ct_set_validate_https_trackers : ℕ
ct_set_validate_https_trackers = 0x804f

abbrev pub ct_set_ssrf_mitigation : ℕ
ct_set_ssrf_mitigation = 0x8050

abbrev pub ct_set_allow_idna : ℕ
ct_set_allow_idna = 0x8051

abbrev pub ct_set_tracker_completion_timeout : ℕ
ct_set_tracker_completion_timeout = 0x4000

abbrev pub ct_set_tracker_receive_timeout : ℕ
ct_set_tracker_receive_timeout = 0x4001

abbrev pub ct_set_stop_tracker_timeout : ℕ
ct_set_stop_tracker_timeout = 0x4002

abbrev pub ct_set_num_want : ℕ
ct_set_num_want = 0x4016

abbrev pub ct_set_active_downloads : ℕ
ct_set_active_downloads = 0x4029

abbrev pub ct_set_active_seeds : ℕ
ct_set_active_seeds = 0x402a

abbrev pub ct_set_active_checking : ℕ
ct_set_active_checking = 0x402b

abbrev pub ct_set_active_dht_limit : ℕ
ct_set_active_dht_limit = 0x402c

abbrev pub ct_set_active_tracker_limit : ℕ
ct_set_active_tracker_limit = 0x402d

abbrev pub ct_set_active_lsd_limit : ℕ
ct_set_active_lsd_limit = 0x402e

abbrev pub ct_set_active_limit : ℕ
ct_set_active_limit = 0x402f

abbrev pub ct_set_auto_manage_interval : ℕ
ct_set_auto_manage_interval = 0x4031

abbrev pub ct_set_seed_time_limit : ℕ
ct_set_seed_time_limit = 0x4032

abbrev pub ct_set_auto_scrape_interval : ℕ
ct_set_auto_scrape_interval = 0x4033

abbrev pub ct_set_auto_scrape_min_interval : ℕ
ct_set_auto_scrape_min_interval = 0x4034

abbrev pub ct_set_min_announce_interval : ℕ
ct_set_min_announce_interval = 0x4037

abbrev pub ct_set_auto_manage_startup : ℕ
ct_set_auto_manage_startup = 0x4038

abbrev pub ct_set_udp_tracker_token_expiry : ℕ
ct_set_udp_tracker_token_expiry = 0x4045

abbrev pub ct_set_tracker_backoff : ℕ
ct_set_tracker_backoff = 0x406c

abbrev pub ct_set_share_ratio_limit : ℕ
ct_set_share_ratio_limit = 0x406d

abbrev pub ct_set_seed_time_ratio_limit : ℕ
ct_set_seed_time_ratio_limit = 0x406e

abbrev pub ct_set_max_http_recv_buffer_size : ℕ
ct_set_max_http_recv_buffer_size = 0x4073

abbrev pub ct_set_max_concurrent_http_announces : ℕ
ct_set_max_concurrent_http_announces = 0x4088

abbrev pub ct_set_announce_port : ℕ
ct_set_announce_port = 0x409d
