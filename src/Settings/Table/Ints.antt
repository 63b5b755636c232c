-- ===== src/Settings/Table/Ints.antt =====
-- The integer settings of `ALL_SETTINGS`, in libtorrent's order.
use Prim.Native.String.{String}
use rsbtd.Base.{ℕ, List, [], ◌∷◌}
use rsbtd.Settings.Pack.{SettingKind}
use rsbtd.Settings.Bandwidth.Keys.{
  ct_set_unchoke_interval, ct_set_optimistic_unchoke_interval, ct_set_send_buffer_low_watermark,
  ct_set_send_buffer_watermark, ct_set_send_buffer_watermark_factor, ct_set_choking_algorithm,
  ct_set_seed_choking_algorithm, ct_set_num_optimistic_unchoke_slots, ct_set_upload_rate_limit,
  ct_set_download_rate_limit, ct_set_unchoke_slots_limit, ct_set_utp_target_delay,
  ct_set_utp_gain_factor, ct_set_utp_min_timeout, ct_set_utp_syn_resends, ct_set_utp_fin_resends,
  ct_set_utp_num_resends, ct_set_utp_connect_timeout, ct_set_utp_loss_multiplier,
  ct_set_mixed_mode_algorithm, ct_set_inactive_down_rate, ct_set_inactive_up_rate,
  ct_set_utp_cwnd_reduce_timer, ct_set_send_not_sent_low_watermark,
  ct_set_rate_choker_initial_threshold,
}
use rsbtd.Settings.Connections.Keys.{
  ct_set_peer_timeout, ct_set_max_failcount, ct_set_min_reconnect_time, ct_set_peer_connect_timeout,
  ct_set_connection_speed, ct_set_inactivity_timeout, ct_set_handshake_timeout,
  ct_set_outgoing_port, ct_set_num_outgoing_ports, ct_set_peer_dscp, ct_set_max_peerlist_size,
  ct_set_max_paused_peerlist_size, ct_set_recv_socket_buffer_size, ct_set_send_socket_buffer_size,
  ct_set_max_peer_recv_buffer_size, ct_set_max_pex_peers, ct_set_connections_limit,
  ct_set_connections_slack, ct_set_listen_queue_size, ct_set_torrent_connect_boost,
  ct_set_peer_turnover, ct_set_peer_turnover_cutoff, ct_set_peer_turnover_interval,
  ct_set_connect_seed_every_n_download, ct_set_max_retry_port_bind,
}
use rsbtd.Settings.Dht.Keys.{
  ct_set_local_service_announce_interval, ct_set_dht_announce_interval,
  ct_set_dht_upload_rate_limit, ct_set_upnp_lease_duration, ct_set_dht_max_peers_reply,
  ct_set_dht_search_branching, ct_set_dht_max_fail_count, ct_set_dht_max_torrents,
  ct_set_dht_max_dht_items, ct_set_dht_max_peers, ct_set_dht_block_timeout,
  ct_set_dht_block_ratelimit, ct_set_dht_item_lifetime, ct_set_dht_sample_infohashes_interval,
  ct_set_dht_max_infohashes_sample_count, ct_set_natpmp_lease_duration,
}
use rsbtd.Settings.Net.Keys.{
  ct_set_urlseed_timeout, ct_set_urlseed_wait_retry, ct_set_tick_interval, ct_set_alert_queue_size,
  ct_set_alert_mask, ct_set_out_enc_policy, ct_set_in_enc_policy, ct_set_allowed_enc_level,
  ct_set_proxy_type, ct_set_proxy_port, ct_set_i2p_port, ct_set_urlseed_max_request_bytes,
  ct_set_web_seed_name_lookup_retry, ct_set_max_web_seed_connections, ct_set_resolver_cache_timeout,
  ct_set_i2p_inbound_quantity, ct_set_i2p_outbound_quantity, ct_set_i2p_inbound_length,
  ct_set_i2p_outbound_length, ct_set_i2p_inbound_length_variance,
  ct_set_i2p_outbound_length_variance,
}
use rsbtd.Settings.Storage.Keys.{
  ct_set_piece_timeout, ct_set_request_timeout, ct_set_request_queue_time,
  ct_set_max_allowed_in_request_queue, ct_set_max_out_request_queue, ct_set_whole_pieces_threshold,
  ct_set_file_pool_size, ct_set_initial_picker_threshold, ct_set_allowed_fast_set_size,
  ct_set_suggest_mode, ct_set_max_queued_disk_bytes, ct_set_disk_io_write_mode,
  ct_set_disk_io_read_mode, ct_set_seeding_piece_quota, ct_set_optimistic_disk_retry,
  ct_set_max_suggest_pieces, ct_set_share_mode_target, ct_set_max_metadata_size,
  ct_set_hashing_threads, ct_set_checking_mem_usage, ct_set_predictive_piece_announce,
  ct_set_aio_threads, ct_set_close_file_interval, ct_set_max_piece_count,
  ct_set_metadata_token_limit, ct_set_disk_write_mode, ct_set_mmap_file_size_cutoff,
}
use rsbtd.Settings.Table.Keys.{
  ct_set_tracker_maximum_response_length, ct_set_urlseed_pipeline_size, ct_set_max_rejects,
  ct_set_dht_max_torrent_search_reply, ct_set_min_websocket_announce_interval,
  ct_set_webtorrent_connection_timeout,
}
use rsbtd.Settings.Tracker.Keys.{
  ct_set_tracker_completion_timeout, ct_set_tracker_receive_timeout, ct_set_stop_tracker_timeout,
  ct_set_num_want, ct_set_active_downloads, ct_set_active_seeds, ct_set_active_checking,
  ct_set_active_dht_limit, ct_set_active_tracker_limit, ct_set_active_lsd_limit,
  ct_set_active_limit, ct_set_auto_manage_interval, ct_set_seed_time_limit,
  ct_set_auto_scrape_interval, ct_set_auto_scrape_min_interval, ct_set_min_announce_interval,
  ct_set_auto_manage_startup, ct_set_udp_tracker_token_expiry, ct_set_tracker_backoff,
  ct_set_share_ratio_limit, ct_set_seed_time_ratio_limit, ct_set_max_http_recv_buffer_size,
  ct_set_max_concurrent_http_announces, ct_set_announce_port,
}

abbrev pub request_settings : List (ℕ × String × SettingKind)
request_settings =
    (ct_set_tracker_completion_timeout, "tracker_completion_timeout", SettingKind.int)
    ∷ (ct_set_tracker_receive_timeout, "tracker_receive_timeout", SettingKind.int)
    ∷ (ct_set_stop_tracker_timeout, "stop_tracker_timeout", SettingKind.int)
    ∷ (ct_set_tracker_maximum_response_length, "tracker_maximum_response_length", SettingKind.int)
    ∷ (ct_set_piece_timeout, "piece_timeout", SettingKind.int)
    ∷ (ct_set_request_timeout, "request_timeout", SettingKind.int)
    ∷ (ct_set_request_queue_time, "request_queue_time", SettingKind.int)
    ∷ (ct_set_max_allowed_in_request_queue, "max_allowed_in_request_queue", SettingKind.int)
    ∷ (ct_set_max_out_request_queue, "max_out_request_queue", SettingKind.int)
    ∷ (ct_set_whole_pieces_threshold, "whole_pieces_threshold", SettingKind.int)
    ∷ (ct_set_peer_timeout, "peer_timeout", SettingKind.int)
    ∷ (ct_set_urlseed_timeout, "urlseed_timeout", SettingKind.int)
    ∷ (ct_set_urlseed_pipeline_size, "urlseed_pipeline_size", SettingKind.int)
    ∷ (ct_set_urlseed_wait_retry, "urlseed_wait_retry", SettingKind.int)
    ∷ (ct_set_file_pool_size, "file_pool_size", SettingKind.int)
    ∷ (ct_set_max_failcount, "max_failcount", SettingKind.int)
    ∷ (ct_set_min_reconnect_time, "min_reconnect_time", SettingKind.int)
    ∷ (ct_set_peer_connect_timeout, "peer_connect_timeout", SettingKind.int)
    ∷ (ct_set_connection_speed, "connection_speed", SettingKind.int)
    ∷ (ct_set_inactivity_timeout, "inactivity_timeout", SettingKind.int)
    ∷ (ct_set_unchoke_interval, "unchoke_interval", SettingKind.int)
    ∷ (ct_set_optimistic_unchoke_interval, "optimistic_unchoke_interval", SettingKind.int)
    ∷ (ct_set_num_want, "num_want", SettingKind.int)
    ∷ (ct_set_initial_picker_threshold, "initial_picker_threshold", SettingKind.int)
    ∷ (ct_set_allowed_fast_set_size, "allowed_fast_set_size", SettingKind.int)
    ∷ (ct_set_suggest_mode, "suggest_mode", SettingKind.int)
    ∷ (ct_set_max_queued_disk_bytes, "max_queued_disk_bytes", SettingKind.int)
    ∷ (ct_set_handshake_timeout, "handshake_timeout", SettingKind.int)
    ∷ (ct_set_send_buffer_low_watermark, "send_buffer_low_watermark", SettingKind.int)
    ∷ []

abbrev pub queue_settings : List (ℕ × String × SettingKind)
queue_settings =
    (ct_set_send_buffer_watermark, "send_buffer_watermark", SettingKind.int)
    ∷ (ct_set_send_buffer_watermark_factor, "send_buffer_watermark_factor", SettingKind.int)
    ∷ (ct_set_choking_algorithm, "choking_algorithm", SettingKind.int)
    ∷ (ct_set_seed_choking_algorithm, "seed_choking_algorithm", SettingKind.int)
    ∷ (ct_set_disk_io_write_mode, "disk_io_write_mode", SettingKind.int)
    ∷ (ct_set_disk_io_read_mode, "disk_io_read_mode", SettingKind.int)
    ∷ (ct_set_outgoing_port, "outgoing_port", SettingKind.int)
    ∷ (ct_set_num_outgoing_ports, "num_outgoing_ports", SettingKind.int)
    ∷ (ct_set_peer_dscp, "peer_dscp", SettingKind.int)
    ∷ (ct_set_active_downloads, "active_downloads", SettingKind.int)
    ∷ (ct_set_active_seeds, "active_seeds", SettingKind.int)
    ∷ (ct_set_active_checking, "active_checking", SettingKind.int)
    ∷ (ct_set_active_dht_limit, "active_dht_limit", SettingKind.int)
    ∷ (ct_set_active_tracker_limit, "active_tracker_limit", SettingKind.int)
    ∷ (ct_set_active_lsd_limit, "active_lsd_limit", SettingKind.int)
    ∷ (ct_set_active_limit, "active_limit", SettingKind.int)
    ∷ (ct_set_auto_manage_interval, "auto_manage_interval", SettingKind.int)
    ∷ (ct_set_seed_time_limit, "seed_time_limit", SettingKind.int)
    ∷ (ct_set_auto_scrape_interval, "auto_scrape_interval", SettingKind.int)
    ∷ (ct_set_auto_scrape_min_interval, "auto_scrape_min_interval", SettingKind.int)
    ∷ (ct_set_max_peerlist_size, "max_peerlist_size", SettingKind.int)
    ∷ (ct_set_max_paused_peerlist_size, "max_paused_peerlist_size", SettingKind.int)
    ∷ (ct_set_min_announce_interval, "min_announce_interval", SettingKind.int)
    ∷ (ct_set_auto_manage_startup, "auto_manage_startup", SettingKind.int)
    ∷ (ct_set_seeding_piece_quota, "seeding_piece_quota", SettingKind.int)
    ∷ (ct_set_max_rejects, "max_rejects", SettingKind.int)
    ∷ (ct_set_recv_socket_buffer_size, "recv_socket_buffer_size", SettingKind.int)
    ∷ (ct_set_send_socket_buffer_size, "send_socket_buffer_size", SettingKind.int)
    ∷ (ct_set_max_peer_recv_buffer_size, "max_peer_recv_buffer_size", SettingKind.int)
    ∷ []

abbrev pub rate_settings : List (ℕ × String × SettingKind)
rate_settings =
    (ct_set_optimistic_disk_retry, "optimistic_disk_retry", SettingKind.int)
    ∷ (ct_set_max_suggest_pieces, "max_suggest_pieces", SettingKind.int)
    ∷ (ct_set_local_service_announce_interval, "local_service_announce_interval", SettingKind.int)
    ∷ (ct_set_dht_announce_interval, "dht_announce_interval", SettingKind.int)
    ∷ (ct_set_udp_tracker_token_expiry, "udp_tracker_token_expiry", SettingKind.int)
    ∷ (ct_set_num_optimistic_unchoke_slots, "num_optimistic_unchoke_slots", SettingKind.int)
    ∷ (ct_set_max_pex_peers, "max_pex_peers", SettingKind.int)
    ∷ (ct_set_tick_interval, "tick_interval", SettingKind.int)
    ∷ (ct_set_share_mode_target, "share_mode_target", SettingKind.int)
    ∷ (ct_set_upload_rate_limit, "upload_rate_limit", SettingKind.int)
    ∷ (ct_set_download_rate_limit, "download_rate_limit", SettingKind.int)
    ∷ (ct_set_dht_upload_rate_limit, "dht_upload_rate_limit", SettingKind.int)
    ∷ (ct_set_unchoke_slots_limit, "unchoke_slots_limit", SettingKind.int)
    ∷ (ct_set_connections_limit, "connections_limit", SettingKind.int)
    ∷ (ct_set_connections_slack, "connections_slack", SettingKind.int)
    ∷ (ct_set_utp_target_delay, "utp_target_delay", SettingKind.int)
    ∷ (ct_set_utp_gain_factor, "utp_gain_factor", SettingKind.int)
    ∷ (ct_set_utp_min_timeout, "utp_min_timeout", SettingKind.int)
    ∷ (ct_set_utp_syn_resends, "utp_syn_resends", SettingKind.int)
    ∷ (ct_set_utp_fin_resends, "utp_fin_resends", SettingKind.int)
    ∷ (ct_set_utp_num_resends, "utp_num_resends", SettingKind.int)
    ∷ (ct_set_utp_connect_timeout, "utp_connect_timeout", SettingKind.int)
    ∷ (ct_set_utp_loss_multiplier, "utp_loss_multiplier", SettingKind.int)
    ∷ (ct_set_mixed_mode_algorithm, "mixed_mode_algorithm", SettingKind.int)
    ∷ (ct_set_listen_queue_size, "listen_queue_size", SettingKind.int)
    ∷ (ct_set_torrent_connect_boost, "torrent_connect_boost", SettingKind.int)
    ∷ (ct_set_alert_queue_size, "alert_queue_size", SettingKind.int)
    ∷ (ct_set_max_metadata_size, "max_metadata_size", SettingKind.int)
    ∷ (ct_set_hashing_threads, "hashing_threads", SettingKind.int)
    ∷ []

abbrev pub utp_settings : List (ℕ × String × SettingKind)
utp_settings =
    (ct_set_checking_mem_usage, "checking_mem_usage", SettingKind.int)
    ∷ (ct_set_predictive_piece_announce, "predictive_piece_announce", SettingKind.int)
    ∷ (ct_set_aio_threads, "aio_threads", SettingKind.int)
    ∷ (ct_set_tracker_backoff, "tracker_backoff", SettingKind.int)
    ∷ (ct_set_share_ratio_limit, "share_ratio_limit", SettingKind.int)
    ∷ (ct_set_seed_time_ratio_limit, "seed_time_ratio_limit", SettingKind.int)
    ∷ (ct_set_peer_turnover, "peer_turnover", SettingKind.int)
    ∷ (ct_set_peer_turnover_cutoff, "peer_turnover_cutoff", SettingKind.int)
    ∷ (ct_set_peer_turnover_interval, "peer_turnover_interval", SettingKind.int)
    ∷ (ct_set_connect_seed_every_n_download, "connect_seed_every_n_download", SettingKind.int)
    ∷ (ct_set_max_http_recv_buffer_size, "max_http_recv_buffer_size", SettingKind.int)
    ∷ (ct_set_max_retry_port_bind, "max_retry_port_bind", SettingKind.int)
    ∷ (ct_set_alert_mask, "alert_mask", SettingKind.int)
    ∷ (ct_set_out_enc_policy, "out_enc_policy", SettingKind.int)
    ∷ (ct_set_in_enc_policy, "in_enc_policy", SettingKind.int)
    ∷ (ct_set_allowed_enc_level, "allowed_enc_level", SettingKind.int)
    ∷ (ct_set_inactive_down_rate, "inactive_down_rate", SettingKind.int)
    ∷ (ct_set_inactive_up_rate, "inactive_up_rate", SettingKind.int)
    ∷ (ct_set_proxy_type, "proxy_type", SettingKind.int)
    ∷ (ct_set_proxy_port, "proxy_port", SettingKind.int)
    ∷ (ct_set_i2p_port, "i2p_port", SettingKind.int)
    ∷ (ct_set_urlseed_max_request_bytes, "urlseed_max_request_bytes", SettingKind.int)
    ∷ (ct_set_web_seed_name_lookup_retry, "web_seed_name_lookup_retry", SettingKind.int)
    ∷ (ct_set_close_file_interval, "close_file_interval", SettingKind.int)
    ∷ (ct_set_utp_cwnd_reduce_timer, "utp_cwnd_reduce_timer", SettingKind.int)
    ∷ (ct_set_max_web_seed_connections, "max_web_seed_connections", SettingKind.int)
    ∷ (ct_set_resolver_cache_timeout, "resolver_cache_timeout", SettingKind.int)
    ∷ (ct_set_send_not_sent_low_watermark, "send_not_sent_low_watermark", SettingKind.int)
    ∷ (ct_set_rate_choker_initial_threshold, "rate_choker_initial_threshold", SettingKind.int)
    ∷ []

abbrev pub service_settings : List (ℕ × String × SettingKind)
service_settings =
    (ct_set_upnp_lease_duration, "upnp_lease_duration", SettingKind.int)
    ∷ (ct_set_max_concurrent_http_announces, "max_concurrent_http_announces", SettingKind.int)
    ∷ (ct_set_dht_max_peers_reply, "dht_max_peers_reply", SettingKind.int)
    ∷ (ct_set_dht_search_branching, "dht_search_branching", SettingKind.int)
    ∷ (ct_set_dht_max_fail_count, "dht_max_fail_count", SettingKind.int)
    ∷ (ct_set_dht_max_torrents, "dht_max_torrents", SettingKind.int)
    ∷ (ct_set_dht_max_dht_items, "dht_max_dht_items", SettingKind.int)
    ∷ (ct_set_dht_max_peers, "dht_max_peers", SettingKind.int)
    ∷ (ct_set_dht_max_torrent_search_reply, "dht_max_torrent_search_reply", SettingKind.int)
    ∷ (ct_set_dht_block_timeout, "dht_block_timeout", SettingKind.int)
    ∷ (ct_set_dht_block_ratelimit, "dht_block_ratelimit", SettingKind.int)
    ∷ (ct_set_dht_item_lifetime, "dht_item_lifetime", SettingKind.int)
    ∷ (ct_set_dht_sample_infohashes_interval, "dht_sample_infohashes_interval", SettingKind.int)
    ∷ (ct_set_dht_max_infohashes_sample_count, "dht_max_infohashes_sample_count", SettingKind.int)
    ∷ (ct_set_max_piece_count, "max_piece_count", SettingKind.int)
    ∷ (ct_set_metadata_token_limit, "metadata_token_limit", SettingKind.int)
    ∷ (ct_set_disk_write_mode, "disk_write_mode", SettingKind.int)
    ∷ (ct_set_mmap_file_size_cutoff, "mmap_file_size_cutoff", SettingKind.int)
    ∷ (ct_set_i2p_inbound_quantity, "i2p_inbound_quantity", SettingKind.int)
    ∷ (ct_set_i2p_outbound_quantity, "i2p_outbound_quantity", SettingKind.int)
    ∷ (ct_set_i2p_inbound_length, "i2p_inbound_length", SettingKind.int)
    ∷ (ct_set_i2p_outbound_length, "i2p_outbound_length", SettingKind.int)
    ∷ (ct_set_announce_port, "announce_port", SettingKind.int)
    ∷ (ct_set_i2p_inbound_length_variance, "i2p_inbound_length_variance", SettingKind.int)
    ∷ (ct_set_i2p_outbound_length_variance, "i2p_outbound_length_variance", SettingKind.int)
    ∷ (ct_set_natpmp_lease_duration, "natpmp_lease_duration", SettingKind.int)
    ∷ (ct_set_min_websocket_announce_interval, "min_websocket_announce_interval", SettingKind.int)
    ∷ (ct_set_webtorrent_connection_timeout, "webtorrent_connection_timeout", SettingKind.int)
    ∷ []
