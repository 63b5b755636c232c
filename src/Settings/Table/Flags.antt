-- ===== src/Settings/Table/Flags.antt =====
-- The Boolean settings of `ALL_SETTINGS`, in libtorrent's order.
use Prim.Native.String.{String}
use rsbtd.Base.{ℕ, List, [], ◌∷◌}
use rsbtd.Settings.Pack.{SettingKind}
use rsbtd.Settings.Bandwidth.Keys.{ct_set_rate_limit_ip_overhead}
use rsbtd.Settings.Connections.Keys.{
  ct_set_allow_multiple_connections_per_ip, ct_set_use_parole_mode,
  ct_set_close_redundant_connections, ct_set_enable_outgoing_utp, ct_set_enable_incoming_utp,
  ct_set_enable_outgoing_tcp, ct_set_enable_incoming_tcp, ct_set_seeding_outgoing_connections,
  ct_set_no_connect_privileged_ports, ct_set_smooth_connects, ct_set_listen_system_port_fallback,
  ct_set_allow_multiple_connections_per_pid,
}
use rsbtd.Settings.Dht.Keys.{
  ct_set_use_dht_as_fallback, ct_set_upnp_ignore_nonrouters, ct_set_enable_upnp,
  ct_set_enable_natpmp, ct_set_enable_lsd, ct_set_enable_dht, ct_set_enable_ip_notifier,
  ct_set_dht_prefer_verified_node_ids, ct_set_dht_restrict_routing_ips,
  ct_set_dht_restrict_search_ips, ct_set_dht_extended_routing_table, ct_set_dht_aggressive_lookups,
  ct_set_dht_privacy_lookups, ct_set_dht_enforce_node_id, ct_set_dht_ignore_dark_internet,
  ct_set_dht_read_only,
}
use rsbtd.Settings.Net.Keys.{
  ct_set_allow_i2p_mixed, ct_set_anonymous_mode, ct_set_report_web_seed_downloads,
  ct_set_ban_web_seeds, ct_set_prefer_rc4, ct_set_proxy_hostnames, ct_set_proxy_peer_connections,
  ct_set_proxy_tracker_connections, ct_set_socks5_udp_send_local_ep,
  ct_set_proxy_send_host_in_connect,
}
use rsbtd.Settings.Storage.Keys.{
  ct_set_send_redundant_have, ct_set_prioritize_partial_pieces, ct_set_disable_hash_checks,
  ct_set_no_atime_storage, ct_set_report_true_downloaded, ct_set_strict_end_game_mode,
  ct_set_no_recheck_incomplete_resume, ct_set_support_share_mode, ct_set_report_redundant_bytes,
  ct_set_auto_sequential, ct_set_piece_extent_affinity, ct_set_enable_set_file_valid_data,
  ct_set_disk_disable_copy_on_write,
}
use rsbtd.Settings.Tracker.Keys.{
  ct_set_auto_manage_prefer_seeds, ct_set_dont_count_slow_torrents, ct_set_announce_to_all_tiers,
  ct_set_announce_to_all_trackers, ct_set_prefer_udp_trackers,
  ct_set_incoming_starts_queued_torrents, ct_set_always_send_user_agent,
  ct_set_apply_ip_filter_to_trackers, ct_set_announce_crypto_support,
  ct_set_validate_https_trackers, ct_set_ssrf_mitigation, ct_set_allow_idna,
}

abbrev pub flag_settings : List (ℕ × String × SettingKind)
flag_settings =
    (
      ct_set_allow_multiple_connections_per_ip, "allow_multiple_connections_per_ip",
      SettingKind.flag,
    )
    ∷ (ct_set_send_redundant_have, "send_redundant_have", SettingKind.flag)
    ∷ (ct_set_use_dht_as_fallback, "use_dht_as_fallback", SettingKind.flag)
    ∷ (ct_set_upnp_ignore_nonrouters, "upnp_ignore_nonrouters", SettingKind.flag)
    ∷ (ct_set_use_parole_mode, "use_parole_mode", SettingKind.flag)
    ∷ (ct_set_auto_manage_prefer_seeds, "auto_manage_prefer_seeds", SettingKind.flag)
    ∷ (ct_set_dont_count_slow_torrents, "dont_count_slow_torrents", SettingKind.flag)
    ∷ (ct_set_close_redundant_connections, "close_redundant_connections", SettingKind.flag)
    ∷ (ct_set_prioritize_partial_pieces, "prioritize_partial_pieces", SettingKind.flag)
    ∷ (ct_set_rate_limit_ip_overhead, "rate_limit_ip_overhead", SettingKind.flag)
    ∷ (ct_set_announce_to_all_tiers, "announce_to_all_tiers", SettingKind.flag)
    ∷ (ct_set_announce_to_all_trackers, "announce_to_all_trackers", SettingKind.flag)
    ∷ (ct_set_prefer_udp_trackers, "prefer_udp_trackers", SettingKind.flag)
    ∷ (ct_set_disable_hash_checks, "disable_hash_checks", SettingKind.flag)
    ∷ (ct_set_allow_i2p_mixed, "allow_i2p_mixed", SettingKind.flag)
    ∷ (ct_set_no_atime_storage, "no_atime_storage", SettingKind.flag)
    ∷ (ct_set_incoming_starts_queued_torrents, "incoming_starts_queued_torrents", SettingKind.flag)
    ∷ (ct_set_report_true_downloaded, "report_true_downloaded", SettingKind.flag)
    ∷ (ct_set_strict_end_game_mode, "strict_end_game_mode", SettingKind.flag)
    ∷ (ct_set_enable_outgoing_utp, "enable_outgoing_utp", SettingKind.flag)
    ∷ (ct_set_enable_incoming_utp, "enable_incoming_utp", SettingKind.flag)
    ∷ (ct_set_enable_outgoing_tcp, "enable_outgoing_tcp", SettingKind.flag)
    ∷ []

abbrev pub more_flag_settings : List (ℕ × String × SettingKind)
more_flag_settings =
    (ct_set_enable_incoming_tcp, "enable_incoming_tcp", SettingKind.flag)
    ∷ (ct_set_no_recheck_incomplete_resume, "no_recheck_incomplete_resume", SettingKind.flag)
    ∷ (ct_set_anonymous_mode, "anonymous_mode", SettingKind.flag)
    ∷ (ct_set_report_web_seed_downloads, "report_web_seed_downloads", SettingKind.flag)
    ∷ (ct_set_seeding_outgoing_connections, "seeding_outgoing_connections", SettingKind.flag)
    ∷ (ct_set_no_connect_privileged_ports, "no_connect_privileged_ports", SettingKind.flag)
    ∷ (ct_set_smooth_connects, "smooth_connects", SettingKind.flag)
    ∷ (ct_set_always_send_user_agent, "always_send_user_agent", SettingKind.flag)
    ∷ (ct_set_apply_ip_filter_to_trackers, "apply_ip_filter_to_trackers", SettingKind.flag)
    ∷ (ct_set_ban_web_seeds, "ban_web_seeds", SettingKind.flag)
    ∷ (ct_set_support_share_mode, "support_share_mode", SettingKind.flag)
    ∷ (ct_set_report_redundant_bytes, "report_redundant_bytes", SettingKind.flag)
    ∷ (ct_set_listen_system_port_fallback, "listen_system_port_fallback", SettingKind.flag)
    ∷ (ct_set_announce_crypto_support, "announce_crypto_support", SettingKind.flag)
    ∷ (ct_set_enable_upnp, "enable_upnp", SettingKind.flag)
    ∷ (ct_set_enable_natpmp, "enable_natpmp", SettingKind.flag)
    ∷ (ct_set_enable_lsd, "enable_lsd", SettingKind.flag)
    ∷ (ct_set_enable_dht, "enable_dht", SettingKind.flag)
    ∷ (ct_set_prefer_rc4, "prefer_rc4", SettingKind.flag)
    ∷ (ct_set_proxy_hostnames, "proxy_hostnames", SettingKind.flag)
    ∷ (ct_set_proxy_peer_connections, "proxy_peer_connections", SettingKind.flag)
    ∷ (ct_set_auto_sequential, "auto_sequential", SettingKind.flag)
    ∷ []

abbrev pub last_flag_settings : List (ℕ × String × SettingKind)
last_flag_settings =
    (ct_set_proxy_tracker_connections, "proxy_tracker_connections", SettingKind.flag)
    ∷ (ct_set_enable_ip_notifier, "enable_ip_notifier", SettingKind.flag)
    ∷ (ct_set_dht_prefer_verified_node_ids, "dht_prefer_verified_node_ids", SettingKind.flag)
    ∷ (ct_set_dht_restrict_routing_ips, "dht_restrict_routing_ips", SettingKind.flag)
    ∷ (ct_set_dht_restrict_search_ips, "dht_restrict_search_ips", SettingKind.flag)
    ∷ (ct_set_dht_extended_routing_table, "dht_extended_routing_table", SettingKind.flag)
    ∷ (ct_set_dht_aggressive_lookups, "dht_aggressive_lookups", SettingKind.flag)
    ∷ (ct_set_dht_privacy_lookups, "dht_privacy_lookups", SettingKind.flag)
    ∷ (ct_set_dht_enforce_node_id, "dht_enforce_node_id", SettingKind.flag)
    ∷ (ct_set_dht_ignore_dark_internet, "dht_ignore_dark_internet", SettingKind.flag)
    ∷ (ct_set_dht_read_only, "dht_read_only", SettingKind.flag)
    ∷ (ct_set_piece_extent_affinity, "piece_extent_affinity", SettingKind.flag)
    ∷ (ct_set_validate_https_trackers, "validate_https_trackers", SettingKind.flag)
    ∷ (ct_set_ssrf_mitigation, "ssrf_mitigation", SettingKind.flag)
    ∷ (ct_set_allow_idna, "allow_idna", SettingKind.flag)
    ∷ (ct_set_enable_set_file_valid_data, "enable_set_file_valid_data", SettingKind.flag)
    ∷ (ct_set_socks5_udp_send_local_ep, "socks5_udp_send_local_ep", SettingKind.flag)
    ∷ (ct_set_proxy_send_host_in_connect, "proxy_send_host_in_connect", SettingKind.flag)
    ∷ (ct_set_disk_disable_copy_on_write, "disk_disable_copy_on_write", SettingKind.flag)
    ∷ (
      ct_set_allow_multiple_connections_per_pid, "allow_multiple_connections_per_pid",
      SettingKind.flag,
    )
    ∷ []
