-- ===== src/Settings/Net/Keys.antt =====
-- The keys of rbtorrent/src/settings/net.rs, as libctorrent/include/ctorrent/ct_settings_generated.h numbers them.
use rsbtd.Base.{ℕ}

abbrev pub ct_set_proxy_hostname : ℕ
ct_set_proxy_hostname = 0x0006

abbrev pub ct_set_proxy_username : ℕ
ct_set_proxy_username = 0x0007

abbrev pub ct_set_proxy_password : ℕ
ct_set_proxy_password = 0x0008

abbrev pub ct_set_i2p_hostname : ℕ
ct_set_i2p_hostname = 0x0009

abbrev pub ct_set_allow_i2p_mixed : ℕ
ct_set_allow_i2p_mixed = 0x8017

abbrev pub ct_set_anonymous_mode : ℕ
ct_set_anonymous_mode = 0x8026

abbrev pub ct_set_report_web_seed_downloads : ℕ
ct_set_report_web_seed_downloads = 0x8027

abbrev pub ct_set_ban_web_seeds : ℕ
ct_set_ban_web_seeds = 0x8032

abbrev pub ct_set_prefer_rc4 : ℕ
ct_set_prefer_rc4 = 0x803f

abbrev pub ct_set_proxy_hostnames : ℕ
ct_set_proxy_hostnames = 0x8040

abbrev pub ct_set_proxy_peer_connections : ℕ
ct_set_proxy_peer_connections = 0x8041

abbrev pub ct_set_proxy_tracker_connections : ℕ
ct_set_proxy_tracker_connections = 0x8043

abbrev pub ct_set_socks5_udp_send_local_ep : ℕ
ct_set_socks5_udp_send_local_ep = 0x8053

abbrev pub ct_set_proxy_send_host_in_connect : ℕ
ct_set_proxy_send_host_in_connect = 0x8054

abbrev pub ct_set_urlseed_timeout : ℕ
ct_set_urlseed_timeout = 0x400b

abbrev pub ct_set_urlseed_wait_retry : ℕ
ct_set_urlseed_wait_retry = 0x400d

abbrev pub ct_set_tick_interval : ℕ
ct_set_tick_interval = 0x404c

abbrev pub ct_set_alert_queue_size : ℕ
ct_set_alert_queue_size = 0x4063

abbrev pub ct_set_alert_mask : ℕ
ct_set_alert_mask = 0x4075

abbrev pub ct_set_out_enc_policy : ℕ
ct_set_out_enc_policy = 0x4076

abbrev pub ct_set_in_enc_policy : ℕ
ct_set_in_enc_policy = 0x4077

abbrev pub ct_set_allowed_enc_level : ℕ
ct_set_allowed_enc_level = 0x4078

abbrev pub ct_set_proxy_type : ℕ
ct_set_proxy_type = 0x407b

abbrev pub ct_set_proxy_port : ℕ
ct_set_proxy_port = 0x407c

abbrev pub ct_set_i2p_port : ℕ
ct_set_i2p_port = 0x407d

abbrev pub ct_set_urlseed_max_request_bytes : ℕ
ct_set_urlseed_max_request_bytes = 0x407f

abbrev pub ct_set_web_seed_name_lookup_retry : ℕ
ct_set_web_seed_name_lookup_retry = 0x4080

abbrev pub ct_set_max_web_seed_connections : ℕ
ct_set_max_web_seed_connections = 0x4083

abbrev pub ct_set_resolver_cache_timeout : ℕ
ct_set_resolver_cache_timeout = 0x4084

abbrev pub ct_set_i2p_inbound_quantity : ℕ
ct_set_i2p_inbound_quantity = 0x4099

abbrev pub ct_set_i2p_outbound_quantity : ℕ
ct_set_i2p_outbound_quantity = 0x409a

abbrev pub ct_set_i2p_inbound_length : ℕ
ct_set_i2p_inbound_length = 0x409b

abbrev pub ct_set_i2p_outbound_length : ℕ
ct_set_i2p_outbound_length = 0x409c

abbrev pub ct_set_i2p_inbound_length_variance : ℕ
ct_set_i2p_inbound_length_variance = 0x409e

abbrev pub ct_set_i2p_outbound_length_variance : ℕ
ct_set_i2p_outbound_length_variance = 0x409f
