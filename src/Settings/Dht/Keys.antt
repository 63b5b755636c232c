-- ===== src/Settings/Dht/Keys.antt =====
-- The keys of rbtorrent/src/settings/dht.rs, as libctorrent/include/ctorrent/ct_settings_generated.h numbers them.
use rsbtd.Base.{ℕ}

abbrev pub ct_set_dht_bootstrap_nodes : ℕ
ct_set_dht_bootstrap_nodes = 0x000b

abbrev pub ct_set_natpmp_gateway : ℕ
ct_set_natpmp_gateway = 0x000c

abbrev pub ct_set_use_dht_as_fallback : ℕ
ct_set_use_dht_as_fallback = 0x8004

abbrev pub ct_set_upnp_ignore_nonrouters : ℕ
ct_set_upnp_ignore_nonrouters = 0x8005

abbrev pub ct_set_enable_upnp : ℕ
ct_set_enable_upnp = 0x803b

abbrev pub ct_set_enable_natpmp : ℕ
ct_set_enable_natpmp = 0x803c

abbrev pub ct_set_enable_lsd : ℕ
ct_set_enable_lsd = 0x803d

abbrev pub ct_set_enable_dht : ℕ
ct_set_enable_dht = 0x803e

abbrev pub ct_set_enable_ip_notifier : ℕ
ct_set_enable_ip_notifier = 0x8044

abbrev pub ct_set_dht_prefer_verified_node_ids : ℕ
ct_set_dht_prefer_verified_node_ids = 0x8045

abbrev pub ct_set_dht_restrict_routing_ips : ℕ
ct_set_dht_restrict_routing_ips = 0x8046

abbrev pub ct_set_dht_restrict_search_ips : ℕ
ct_set_dht_restrict_search_ips = 0x8047

abbrev pub ct_set_dht_extended_routing_table : ℕ
ct_set_dht_extended_routing_table = 0x8048

abbrev pub ct_set_dht_aggressive_lookups : ℕ
ct_set_dht_aggressive_lookups = 0x8049

abbrev pub ct_set_dht_privacy_lookups : ℕ
ct_set_dht_privacy_lookups = 0x804a

abbrev pub ct_set_dht_enforce_node_id : ℕ
ct_set_dht_enforce_node_id = 0x804b

abbrev pub ct_set_dht_ignore_dark_internet : ℕ
ct_set_dht_ignore_dark_internet = 0x804c

abbrev pub ct_set_dht_read_only : ℕ
ct_set_dht_read_only = 0x804d

abbrev pub ct_set_local_service_announce_interval : ℕ
ct_set_local_service_announce_interval = 0x4043

abbrev pub ct_set_dht_announce_interval : ℕ
ct_set_dht_announce_interval = 0x4044

abbrev pub ct_set_dht_upload_rate_limit : ℕ
ct_set_dht_upload_rate_limit = 0x4052

abbrev pub ct_set_upnp_lease_duration : ℕ
ct_set_upnp_lease_duration = 0x4087

abbrev pub ct_set_dht_max_peers_reply : ℕ
ct_set_dht_max_peers_reply = 0x4089

abbrev pub ct_set_dht_search_branching : ℕ
ct_set_dht_search_branching = 0x408a

abbrev pub ct_set_dht_max_fail_count : ℕ
ct_set_dht_max_fail_count = 0x408b

abbrev pub ct_set_dht_max_torrents : ℕ
ct_set_dht_max_torrents = 0x408c

abbrev pub ct_set_dht_max_dht_items : ℕ
ct_set_dht_max_dht_items = 0x408d

abbrev pub ct_set_dht_max_peers : ℕ
ct_set_dht_max_peers = 0x408e

abbrev pub ct_set_dht_block_timeout : ℕ
ct_set_dht_block_timeout = 0x4090

abbrev pub ct_set_dht_block_ratelimit : ℕ
ct_set_dht_block_ratelimit = 0x4091

abbrev pub ct_set_dht_item_lifetime : ℕ
ct_set_dht_item_lifetime = 0x4092

abbrev pub ct_set_dht_sample_infohashes_interval : ℕ
ct_set_dht_sample_infohashes_interval = 0x4093

abbrev pub ct_set_dht_max_infohashes_sample_count : ℕ
ct_set_dht_max_infohashes_sample_count = 0x4094

abbrev pub ct_set_natpmp_lease_duration : ℕ
ct_set_natpmp_lease_duration = 0x40a0
