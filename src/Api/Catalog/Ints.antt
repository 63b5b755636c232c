-- ===== src/Api/Catalog/Ints.antt =====
-- The integer fields of `scalar_settings!` of rsbtd/src/api/settings/catalog.rs.
use rsbtd.Base.{List, [], ◌∷◌}
use rsbtd.Settings.Bandwidth.{
  unchoke_interval, optimistic_unchoke_interval, send_buffer_low_watermark, send_buffer_watermark,
  send_buffer_watermark_factor, num_optimistic_unchoke_slots, upload_rate_limit,
  download_rate_limit, unchoke_slots_limit, utp_target_delay, utp_gain_factor, utp_min_timeout,
  utp_syn_resends, utp_fin_resends, utp_num_resends, utp_connect_timeout, utp_loss_multiplier,
  inactive_down_rate, inactive_up_rate, utp_cwnd_reduce_timer, send_not_sent_low_watermark,
  rate_choker_initial_threshold,
}
use rsbtd.Settings.Connections.{
  peer_timeout, max_failcount, min_reconnect_time, peer_connect_timeout, connection_speed,
  inactivity_timeout, handshake_timeout, max_peerlist_size, max_paused_peerlist_size,
  recv_socket_buffer_size, send_socket_buffer_size, max_peer_recv_buffer_size, max_pex_peers,
  connections_limit, connections_slack, listen_queue_size, torrent_connect_boost, peer_turnover,
  peer_turnover_cutoff, peer_turnover_interval, connect_seed_every_n_download, max_retry_port_bind,
}
use rsbtd.Settings.Connections.Interfaces.{peer_dscp}
use rsbtd.Settings.Dht.{
  local_service_announce_interval, dht_announce_interval, dht_upload_rate_limit,
  upnp_lease_duration, dht_max_peers_reply, dht_search_branching, dht_max_fail_count,
  dht_max_torrents, dht_max_dht_items, dht_max_peers, dht_block_timeout, dht_block_ratelimit,
  dht_item_lifetime, dht_sample_infohashes_interval, dht_max_infohashes_sample_count,
  natpmp_lease_duration,
}
use rsbtd.Settings.Net.{
  urlseed_timeout, urlseed_wait_retry, tick_interval, urlseed_max_request_bytes,
  web_seed_name_lookup_retry, max_web_seed_connections, resolver_cache_timeout,
}
use rsbtd.Settings.Storage.{
  piece_timeout, request_timeout, request_queue_time, max_allowed_in_request_queue,
  max_out_request_queue, whole_pieces_threshold, file_pool_size, initial_picker_threshold,
  allowed_fast_set_size, max_queued_disk_bytes, seeding_piece_quota, optimistic_disk_retry,
  max_suggest_pieces, share_mode_target, max_metadata_size, hashing_threads, checking_mem_usage,
  predictive_piece_announce, aio_threads, close_file_interval, max_piece_count,
  metadata_token_limit, mmap_file_size_cutoff,
}
use rsbtd.Settings.Tracker.{
  tracker_completion_timeout, tracker_receive_timeout, stop_tracker_timeout, num_want,
  active_downloads, active_seeds, active_checking, active_dht_limit, active_tracker_limit,
  active_lsd_limit, active_limit, auto_manage_interval, seed_time_limit, auto_scrape_interval,
  auto_scrape_min_interval, min_announce_interval, auto_manage_startup, udp_tracker_token_expiry,
  tracker_backoff, share_ratio_limit, seed_time_ratio_limit, max_http_recv_buffer_size,
  max_concurrent_http_announces, announce_port,
}
use rsbtd.Api.Scalar.{Scalar, checked_int, dscp_field, int_field, u16_field, u8_field}

abbrev pub request_fields : List Scalar
request_fields =
    checked_int "tracker_completion_timeout" tracker_completion_timeout
    ∷ checked_int "tracker_receive_timeout" tracker_receive_timeout
    ∷ int_field "stop_tracker_timeout" stop_tracker_timeout
    ∷ int_field "piece_timeout" piece_timeout
    ∷ int_field "request_timeout" request_timeout
    ∷ int_field "request_queue_time" request_queue_time
    ∷ checked_int "max_allowed_in_request_queue" max_allowed_in_request_queue
    ∷ int_field "max_out_request_queue" max_out_request_queue
    ∷ int_field "whole_pieces_threshold" whole_pieces_threshold
    ∷ checked_int "peer_timeout" peer_timeout
    ∷ int_field "urlseed_timeout" urlseed_timeout
    ∷ int_field "urlseed_wait_retry" urlseed_wait_retry
    ∷ checked_int "file_pool_size" file_pool_size
    ∷ checked_int "max_failcount" max_failcount
    ∷ checked_int "min_reconnect_time" min_reconnect_time
    ∷ checked_int "peer_connect_timeout" peer_connect_timeout
    ∷ int_field "connection_speed" connection_speed
    ∷ int_field "inactivity_timeout" inactivity_timeout
    ∷ int_field "unchoke_interval" unchoke_interval
    ∷ int_field "optimistic_unchoke_interval" optimistic_unchoke_interval
    ∷ int_field "num_want" num_want
    ∷ int_field "initial_picker_threshold" initial_picker_threshold
    ∷ int_field "allowed_fast_set_size" allowed_fast_set_size
    ∷ checked_int "max_queued_disk_bytes" max_queued_disk_bytes
    ∷ checked_int "handshake_timeout" handshake_timeout
    ∷ int_field "send_buffer_low_watermark" send_buffer_low_watermark
    ∷ checked_int "send_buffer_watermark" send_buffer_watermark
    ∷ int_field "send_buffer_watermark_factor" send_buffer_watermark_factor
    ∷ dscp_field "peer_dscp" peer_dscp
    ∷ []

abbrev pub limit_fields : List Scalar
limit_fields =
    int_field "active_downloads" active_downloads
    ∷ int_field "active_seeds" active_seeds
    ∷ int_field "active_checking" active_checking
    ∷ int_field "active_dht_limit" active_dht_limit
    ∷ int_field "active_tracker_limit" active_tracker_limit
    ∷ int_field "active_lsd_limit" active_lsd_limit
    ∷ int_field "active_limit" active_limit
    ∷ int_field "auto_manage_interval" auto_manage_interval
    ∷ int_field "seed_time_limit" seed_time_limit
    ∷ int_field "auto_scrape_interval" auto_scrape_interval
    ∷ int_field "auto_scrape_min_interval" auto_scrape_min_interval
    ∷ checked_int "max_peerlist_size" max_peerlist_size
    ∷ checked_int "max_paused_peerlist_size" max_paused_peerlist_size
    ∷ int_field "min_announce_interval" min_announce_interval
    ∷ int_field "auto_manage_startup" auto_manage_startup
    ∷ int_field "seeding_piece_quota" seeding_piece_quota
    ∷ int_field "recv_socket_buffer_size" recv_socket_buffer_size
    ∷ int_field "send_socket_buffer_size" send_socket_buffer_size
    ∷ checked_int "max_peer_recv_buffer_size" max_peer_recv_buffer_size
    ∷ int_field "optimistic_disk_retry" optimistic_disk_retry
    ∷ checked_int "max_suggest_pieces" max_suggest_pieces
    ∷ checked_int "local_service_announce_interval" local_service_announce_interval
    ∷ checked_int "dht_announce_interval" dht_announce_interval
    ∷ int_field "udp_tracker_token_expiry" udp_tracker_token_expiry
    ∷ u16_field "num_optimistic_unchoke_slots" num_optimistic_unchoke_slots
    ∷ int_field "max_pex_peers" max_pex_peers
    ∷ checked_int "tick_interval" tick_interval
    ∷ int_field "share_mode_target" share_mode_target
    ∷ int_field "upload_rate_limit" upload_rate_limit
    ∷ []

abbrev pub rate_fields : List Scalar
rate_fields =
    int_field "download_rate_limit" download_rate_limit
    ∷ int_field "dht_upload_rate_limit" dht_upload_rate_limit
    ∷ int_field "unchoke_slots_limit" unchoke_slots_limit
    ∷ int_field "connections_limit" connections_limit
    ∷ int_field "connections_slack" connections_slack
    ∷ checked_int "utp_target_delay" utp_target_delay
    ∷ int_field "utp_gain_factor" utp_gain_factor
    ∷ int_field "utp_min_timeout" utp_min_timeout
    ∷ int_field "utp_syn_resends" utp_syn_resends
    ∷ int_field "utp_fin_resends" utp_fin_resends
    ∷ int_field "utp_num_resends" utp_num_resends
    ∷ checked_int "utp_connect_timeout" utp_connect_timeout
    ∷ checked_int "utp_loss_multiplier" utp_loss_multiplier
    ∷ int_field "listen_queue_size" listen_queue_size
    ∷ u8_field "torrent_connect_boost" torrent_connect_boost
    ∷ checked_int "max_metadata_size" max_metadata_size
    ∷ checked_int "hashing_threads" hashing_threads
    ∷ checked_int "checking_mem_usage" checking_mem_usage
    ∷ int_field "predictive_piece_announce" predictive_piece_announce
    ∷ checked_int "aio_threads" aio_threads
    ∷ checked_int "tracker_backoff" tracker_backoff
    ∷ int_field "share_ratio_limit" share_ratio_limit
    ∷ int_field "seed_time_ratio_limit" seed_time_ratio_limit
    ∷ checked_int "peer_turnover" peer_turnover
    ∷ int_field "peer_turnover_cutoff" peer_turnover_cutoff
    ∷ int_field "peer_turnover_interval" peer_turnover_interval
    ∷ int_field "connect_seed_every_n_download" connect_seed_every_n_download
    ∷ int_field "max_http_recv_buffer_size" max_http_recv_buffer_size
    ∷ int_field "max_retry_port_bind" max_retry_port_bind
    ∷ []

abbrev pub service_fields : List Scalar
service_fields =
    int_field "inactive_down_rate" inactive_down_rate
    ∷ int_field "inactive_up_rate" inactive_up_rate
    ∷ int_field "urlseed_max_request_bytes" urlseed_max_request_bytes
    ∷ int_field "web_seed_name_lookup_retry" web_seed_name_lookup_retry
    ∷ int_field "close_file_interval" close_file_interval
    ∷ int_field "utp_cwnd_reduce_timer" utp_cwnd_reduce_timer
    ∷ int_field "max_web_seed_connections" max_web_seed_connections
    ∷ int_field "resolver_cache_timeout" resolver_cache_timeout
    ∷ int_field "send_not_sent_low_watermark" send_not_sent_low_watermark
    ∷ int_field "rate_choker_initial_threshold" rate_choker_initial_threshold
    ∷ checked_int "upnp_lease_duration" upnp_lease_duration
    ∷ checked_int "max_concurrent_http_announces" max_concurrent_http_announces
    ∷ checked_int "dht_max_peers_reply" dht_max_peers_reply
    ∷ checked_int "dht_search_branching" dht_search_branching
    ∷ int_field "dht_max_fail_count" dht_max_fail_count
    ∷ int_field "dht_max_torrents" dht_max_torrents
    ∷ checked_int "dht_max_dht_items" dht_max_dht_items
    ∷ int_field "dht_max_peers" dht_max_peers
    ∷ int_field "dht_block_timeout" dht_block_timeout
    ∷ int_field "dht_block_ratelimit" dht_block_ratelimit
    ∷ int_field "dht_item_lifetime" dht_item_lifetime
    ∷ checked_int "dht_sample_infohashes_interval" dht_sample_infohashes_interval
    ∷ int_field "dht_max_infohashes_sample_count" dht_max_infohashes_sample_count
    ∷ checked_int "max_piece_count" max_piece_count
    ∷ checked_int "metadata_token_limit" metadata_token_limit
    ∷ int_field "mmap_file_size_cutoff" mmap_file_size_cutoff
    ∷ u16_field "announce_port" announce_port
    ∷ int_field "natpmp_lease_duration" natpmp_lease_duration
    ∷ []
