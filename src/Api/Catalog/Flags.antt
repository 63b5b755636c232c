-- ===== src/Api/Catalog/Flags.antt =====
-- The Boolean fields of `scalar_settings!` of rsbtd/src/api/settings/catalog.rs.
use rsbtd.Base.{List, [], ◌∷◌}
use rsbtd.Settings.Bandwidth.{rate_limit_ip_overhead}
use rsbtd.Settings.Connections.{
  allow_multiple_connections_per_ip, use_parole_mode, close_redundant_connections,
  seeding_outgoing_connections, no_connect_privileged_ports, smooth_connects,
  listen_system_port_fallback, allow_multiple_connections_per_pid,
}
use rsbtd.Settings.Dht.{
  use_dht_as_fallback, upnp_ignore_nonrouters, enable_upnp, enable_natpmp, enable_lsd, enable_dht,
  enable_ip_notifier, dht_prefer_verified_node_ids, dht_restrict_routing_ips,
  dht_restrict_search_ips, dht_extended_routing_table, dht_aggressive_lookups, dht_privacy_lookups,
  dht_enforce_node_id, dht_ignore_dark_internet, dht_read_only,
}
use rsbtd.Settings.Net.{anonymous_mode, report_web_seed_downloads, ban_web_seeds}
use rsbtd.Settings.Storage.{
  send_redundant_have, prioritize_partial_pieces, no_atime_storage, report_true_downloaded,
  strict_end_game_mode, no_recheck_incomplete_resume, support_share_mode, report_redundant_bytes,
  auto_sequential, piece_extent_affinity, disk_disable_copy_on_write,
}
use rsbtd.Settings.Tracker.{
  auto_manage_prefer_seeds, dont_count_slow_torrents, announce_to_all_tiers,
  announce_to_all_trackers, prefer_udp_trackers, incoming_starts_queued_torrents,
  always_send_user_agent, apply_ip_filter_to_trackers, validate_https_trackers, ssrf_mitigation,
  allow_idna,
}
use rsbtd.Api.Scalar.{Scalar, bool_field}

abbrev pub flag_fields : List Scalar
flag_fields =
    bool_field "allow_multiple_connections_per_ip" allow_multiple_connections_per_ip
    ∷ bool_field "send_redundant_have" send_redundant_have
    ∷ bool_field "use_dht_as_fallback" use_dht_as_fallback
    ∷ bool_field "upnp_ignore_nonrouters" upnp_ignore_nonrouters
    ∷ bool_field "use_parole_mode" use_parole_mode
    ∷ bool_field "auto_manage_prefer_seeds" auto_manage_prefer_seeds
    ∷ bool_field "dont_count_slow_torrents" dont_count_slow_torrents
    ∷ bool_field "close_redundant_connections" close_redundant_connections
    ∷ bool_field "prioritize_partial_pieces" prioritize_partial_pieces
    ∷ bool_field "rate_limit_ip_overhead" rate_limit_ip_overhead
    ∷ bool_field "announce_to_all_tiers" announce_to_all_tiers
    ∷ bool_field "announce_to_all_trackers" announce_to_all_trackers
    ∷ bool_field "prefer_udp_trackers" prefer_udp_trackers
    ∷ bool_field "no_atime_storage" no_atime_storage
    ∷ bool_field "incoming_starts_queued_torrents" incoming_starts_queued_torrents
    ∷ bool_field "report_true_downloaded" report_true_downloaded
    ∷ bool_field "strict_end_game_mode" strict_end_game_mode
    ∷ bool_field "no_recheck_incomplete_resume" no_recheck_incomplete_resume
    ∷ bool_field "anonymous_mode" anonymous_mode
    ∷ bool_field "report_web_seed_downloads" report_web_seed_downloads
    ∷ bool_field "seeding_outgoing_connections" seeding_outgoing_connections
    ∷ bool_field "no_connect_privileged_ports" no_connect_privileged_ports
    ∷ bool_field "smooth_connects" smooth_connects
    ∷ bool_field "always_send_user_agent" always_send_user_agent
    ∷ bool_field "apply_ip_filter_to_trackers" apply_ip_filter_to_trackers
    ∷ []

abbrev pub more_flag_fields : List Scalar
more_flag_fields =
    bool_field "ban_web_seeds" ban_web_seeds
    ∷ bool_field "support_share_mode" support_share_mode
    ∷ bool_field "report_redundant_bytes" report_redundant_bytes
    ∷ bool_field "listen_system_port_fallback" listen_system_port_fallback
    ∷ bool_field "enable_upnp" enable_upnp
    ∷ bool_field "enable_natpmp" enable_natpmp
    ∷ bool_field "enable_lsd" enable_lsd
    ∷ bool_field "enable_dht" enable_dht
    ∷ bool_field "auto_sequential" auto_sequential
    ∷ bool_field "enable_ip_notifier" enable_ip_notifier
    ∷ bool_field "dht_prefer_verified_node_ids" dht_prefer_verified_node_ids
    ∷ bool_field "dht_restrict_routing_ips" dht_restrict_routing_ips
    ∷ bool_field "dht_restrict_search_ips" dht_restrict_search_ips
    ∷ bool_field "dht_extended_routing_table" dht_extended_routing_table
    ∷ bool_field "dht_aggressive_lookups" dht_aggressive_lookups
    ∷ bool_field "dht_privacy_lookups" dht_privacy_lookups
    ∷ bool_field "dht_enforce_node_id" dht_enforce_node_id
    ∷ bool_field "dht_ignore_dark_internet" dht_ignore_dark_internet
    ∷ bool_field "dht_read_only" dht_read_only
    ∷ bool_field "piece_extent_affinity" piece_extent_affinity
    ∷ bool_field "validate_https_trackers" validate_https_trackers
    ∷ bool_field "ssrf_mitigation" ssrf_mitigation
    ∷ bool_field "allow_idna" allow_idna
    ∷ bool_field "disk_disable_copy_on_write" disk_disable_copy_on_write
    ∷ bool_field "allow_multiple_connections_per_pid" allow_multiple_connections_per_pid
    ∷ []
