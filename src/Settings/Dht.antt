-- ===== src/Settings/Dht.antt =====
-- The setters and getters of rbtorrent/src/settings/dht.rs that touch one setting: DHT, local discovery and port mapping.
-- A `u16` or `u8` is a number; a getter of an enum is empty at a number that the enum has not.
pub mod Keys
pub mod Nodes
use rsbtd.Base.{ℕ, Bool, Option}
use rsbtd.Events.{Text}
use rsbtd.Settings.Int.{ℤ, pos, negsuc}
use rsbtd.Settings.Pack.{
  SettingsPack, SettingsError, Result, set_str, set_int, set_bool, get_str, get_int, get_bool,
  ranged, ◌>>=?◌,
}
use rsbtd.Settings.Dht.Keys.{
  ct_set_dht_bootstrap_nodes, ct_set_natpmp_gateway, ct_set_use_dht_as_fallback,
  ct_set_upnp_ignore_nonrouters, ct_set_enable_upnp, ct_set_enable_natpmp, ct_set_enable_lsd,
  ct_set_enable_dht, ct_set_enable_ip_notifier, ct_set_dht_prefer_verified_node_ids,
  ct_set_dht_restrict_routing_ips, ct_set_dht_restrict_search_ips,
  ct_set_dht_extended_routing_table, ct_set_dht_aggressive_lookups, ct_set_dht_privacy_lookups,
  ct_set_dht_enforce_node_id, ct_set_dht_ignore_dark_internet, ct_set_dht_read_only,
  ct_set_local_service_announce_interval, ct_set_dht_announce_interval,
  ct_set_dht_upload_rate_limit, ct_set_upnp_lease_duration, ct_set_dht_max_peers_reply,
  ct_set_dht_search_branching, ct_set_dht_max_fail_count, ct_set_dht_max_torrents,
  ct_set_dht_max_dht_items, ct_set_dht_max_peers, ct_set_dht_block_timeout,
  ct_set_dht_block_ratelimit, ct_set_dht_item_lifetime, ct_set_dht_sample_infohashes_interval,
  ct_set_dht_max_infohashes_sample_count, ct_set_natpmp_lease_duration,
}

abbrev pub get_dht_bootstrap_nodes : SettingsPack → Option Text
get_dht_bootstrap_nodes = get_str ct_set_dht_bootstrap_nodes

abbrev pub natpmp_gateway : Text → SettingsPack → SettingsPack
natpmp_gateway = set_str ct_set_natpmp_gateway

abbrev pub get_natpmp_gateway : SettingsPack → Option Text
get_natpmp_gateway = get_str ct_set_natpmp_gateway

abbrev pub use_dht_as_fallback : Bool → SettingsPack → SettingsPack
use_dht_as_fallback = set_bool ct_set_use_dht_as_fallback

abbrev pub get_use_dht_as_fallback : SettingsPack → Option Bool
get_use_dht_as_fallback = get_bool ct_set_use_dht_as_fallback

abbrev pub upnp_ignore_nonrouters : Bool → SettingsPack → SettingsPack
upnp_ignore_nonrouters = set_bool ct_set_upnp_ignore_nonrouters

abbrev pub get_upnp_ignore_nonrouters : SettingsPack → Option Bool
get_upnp_ignore_nonrouters = get_bool ct_set_upnp_ignore_nonrouters

abbrev pub enable_upnp : Bool → SettingsPack → SettingsPack
enable_upnp = set_bool ct_set_enable_upnp

abbrev pub get_enable_upnp : SettingsPack → Option Bool
get_enable_upnp = get_bool ct_set_enable_upnp

abbrev pub enable_natpmp : Bool → SettingsPack → SettingsPack
enable_natpmp = set_bool ct_set_enable_natpmp

abbrev pub get_enable_natpmp : SettingsPack → Option Bool
get_enable_natpmp = get_bool ct_set_enable_natpmp

abbrev pub enable_lsd : Bool → SettingsPack → SettingsPack
enable_lsd = set_bool ct_set_enable_lsd

abbrev pub get_enable_lsd : SettingsPack → Option Bool
get_enable_lsd = get_bool ct_set_enable_lsd

abbrev pub enable_dht : Bool → SettingsPack → SettingsPack
enable_dht = set_bool ct_set_enable_dht

abbrev pub get_enable_dht : SettingsPack → Option Bool
get_enable_dht = get_bool ct_set_enable_dht

abbrev pub enable_ip_notifier : Bool → SettingsPack → SettingsPack
enable_ip_notifier = set_bool ct_set_enable_ip_notifier

abbrev pub get_enable_ip_notifier : SettingsPack → Option Bool
get_enable_ip_notifier = get_bool ct_set_enable_ip_notifier

abbrev pub dht_prefer_verified_node_ids : Bool → SettingsPack → SettingsPack
dht_prefer_verified_node_ids = set_bool ct_set_dht_prefer_verified_node_ids

abbrev pub get_dht_prefer_verified_node_ids : SettingsPack → Option Bool
get_dht_prefer_verified_node_ids = get_bool ct_set_dht_prefer_verified_node_ids

abbrev pub dht_restrict_routing_ips : Bool → SettingsPack → SettingsPack
dht_restrict_routing_ips = set_bool ct_set_dht_restrict_routing_ips

abbrev pub get_dht_restrict_routing_ips : SettingsPack → Option Bool
get_dht_restrict_routing_ips = get_bool ct_set_dht_restrict_routing_ips

abbrev pub dht_restrict_search_ips : Bool → SettingsPack → SettingsPack
dht_restrict_search_ips = set_bool ct_set_dht_restrict_search_ips

abbrev pub get_dht_restrict_search_ips : SettingsPack → Option Bool
get_dht_restrict_search_ips = get_bool ct_set_dht_restrict_search_ips

abbrev pub dht_extended_routing_table : Bool → SettingsPack → SettingsPack
dht_extended_routing_table = set_bool ct_set_dht_extended_routing_table

abbrev pub get_dht_extended_routing_table : SettingsPack → Option Bool
get_dht_extended_routing_table = get_bool ct_set_dht_extended_routing_table

abbrev pub dht_aggressive_lookups : Bool → SettingsPack → SettingsPack
dht_aggressive_lookups = set_bool ct_set_dht_aggressive_lookups

abbrev pub get_dht_aggressive_lookups : SettingsPack → Option Bool
get_dht_aggressive_lookups = get_bool ct_set_dht_aggressive_lookups

abbrev pub dht_privacy_lookups : Bool → SettingsPack → SettingsPack
dht_privacy_lookups = set_bool ct_set_dht_privacy_lookups

abbrev pub get_dht_privacy_lookups : SettingsPack → Option Bool
get_dht_privacy_lookups = get_bool ct_set_dht_privacy_lookups

abbrev pub dht_enforce_node_id : Bool → SettingsPack → SettingsPack
dht_enforce_node_id = set_bool ct_set_dht_enforce_node_id

abbrev pub get_dht_enforce_node_id : SettingsPack → Option Bool
get_dht_enforce_node_id = get_bool ct_set_dht_enforce_node_id

abbrev pub dht_ignore_dark_internet : Bool → SettingsPack → SettingsPack
dht_ignore_dark_internet = set_bool ct_set_dht_ignore_dark_internet

abbrev pub get_dht_ignore_dark_internet : SettingsPack → Option Bool
get_dht_ignore_dark_internet = get_bool ct_set_dht_ignore_dark_internet

abbrev pub dht_read_only : Bool → SettingsPack → SettingsPack
dht_read_only = set_bool ct_set_dht_read_only

abbrev pub get_dht_read_only : SettingsPack → Option Bool
get_dht_read_only = get_bool ct_set_dht_read_only

abbrev pub local_service_announce_interval : ℤ → SettingsPack → Result SettingsError SettingsPack
local_service_announce_interval =
    ranged "local_service_announce_interval" (pos 1) (pos 2147483)
      ct_set_local_service_announce_interval

abbrev pub get_local_service_announce_interval : SettingsPack → Option ℤ
get_local_service_announce_interval = get_int ct_set_local_service_announce_interval

abbrev pub dht_announce_interval : ℤ → SettingsPack → Result SettingsError SettingsPack
dht_announce_interval =
    ranged "dht_announce_interval" (pos 1) (pos 2147483) ct_set_dht_announce_interval

abbrev pub get_dht_announce_interval : SettingsPack → Option ℤ
get_dht_announce_interval = get_int ct_set_dht_announce_interval

abbrev pub dht_upload_rate_limit : ℤ → SettingsPack → SettingsPack
dht_upload_rate_limit = set_int ct_set_dht_upload_rate_limit

abbrev pub get_dht_upload_rate_limit : SettingsPack → Option ℤ
get_dht_upload_rate_limit = get_int ct_set_dht_upload_rate_limit

abbrev pub upnp_lease_duration : ℤ → SettingsPack → Result SettingsError SettingsPack
upnp_lease_duration =
    ranged "upnp_lease_duration" (pos 0) (pos 715827882) ct_set_upnp_lease_duration

abbrev pub get_upnp_lease_duration : SettingsPack → Option ℤ
get_upnp_lease_duration = get_int ct_set_upnp_lease_duration

abbrev pub dht_max_peers_reply : ℤ → SettingsPack → Result SettingsError SettingsPack
dht_max_peers_reply =
    ranged "dht_max_peers_reply" (pos 0) (pos 2147483647) ct_set_dht_max_peers_reply

abbrev pub get_dht_max_peers_reply : SettingsPack → Option ℤ
get_dht_max_peers_reply = get_int ct_set_dht_max_peers_reply

abbrev pub dht_search_branching : ℤ → SettingsPack → Result SettingsError SettingsPack
dht_search_branching = ranged "dht_search_branching" (pos 1) (pos 127) ct_set_dht_search_branching

abbrev pub get_dht_search_branching : SettingsPack → Option ℤ
get_dht_search_branching = get_int ct_set_dht_search_branching

abbrev pub dht_max_fail_count : ℤ → SettingsPack → SettingsPack
dht_max_fail_count = set_int ct_set_dht_max_fail_count

abbrev pub get_dht_max_fail_count : SettingsPack → Option ℤ
get_dht_max_fail_count = get_int ct_set_dht_max_fail_count

abbrev pub dht_max_torrents : ℤ → SettingsPack → SettingsPack
dht_max_torrents = set_int ct_set_dht_max_torrents

abbrev pub get_dht_max_torrents : SettingsPack → Option ℤ
get_dht_max_torrents = get_int ct_set_dht_max_torrents

abbrev pub dht_max_dht_items : ℤ → SettingsPack → Result SettingsError SettingsPack
dht_max_dht_items = ranged "dht_max_dht_items" (pos 1) (pos 2147483647) ct_set_dht_max_dht_items

abbrev pub get_dht_max_dht_items : SettingsPack → Option ℤ
get_dht_max_dht_items = get_int ct_set_dht_max_dht_items

abbrev pub dht_max_peers : ℤ → SettingsPack → SettingsPack
dht_max_peers = set_int ct_set_dht_max_peers

abbrev pub get_dht_max_peers : SettingsPack → Option ℤ
get_dht_max_peers = get_int ct_set_dht_max_peers

abbrev pub dht_block_timeout : ℤ → SettingsPack → SettingsPack
dht_block_timeout = set_int ct_set_dht_block_timeout

abbrev pub get_dht_block_timeout : SettingsPack → Option ℤ
get_dht_block_timeout = get_int ct_set_dht_block_timeout

abbrev pub dht_block_ratelimit : ℤ → SettingsPack → SettingsPack
dht_block_ratelimit = set_int ct_set_dht_block_ratelimit

abbrev pub get_dht_block_ratelimit : SettingsPack → Option ℤ
get_dht_block_ratelimit = get_int ct_set_dht_block_ratelimit

abbrev pub dht_item_lifetime : ℤ → SettingsPack → SettingsPack
dht_item_lifetime = set_int ct_set_dht_item_lifetime

abbrev pub get_dht_item_lifetime : SettingsPack → Option ℤ
get_dht_item_lifetime = get_int ct_set_dht_item_lifetime

abbrev pub dht_sample_infohashes_interval : ℤ → SettingsPack → Result SettingsError SettingsPack
dht_sample_infohashes_interval =
    ranged "dht_sample_infohashes_interval" (pos 0) (pos 21600)
      ct_set_dht_sample_infohashes_interval

abbrev pub get_dht_sample_infohashes_interval : SettingsPack → Option ℤ
get_dht_sample_infohashes_interval = get_int ct_set_dht_sample_infohashes_interval

abbrev pub dht_max_infohashes_sample_count : ℤ → SettingsPack → SettingsPack
dht_max_infohashes_sample_count = set_int ct_set_dht_max_infohashes_sample_count

abbrev pub get_dht_max_infohashes_sample_count : SettingsPack → Option ℤ
get_dht_max_infohashes_sample_count = get_int ct_set_dht_max_infohashes_sample_count

abbrev pub natpmp_lease_duration : ℤ → SettingsPack → SettingsPack
natpmp_lease_duration = set_int ct_set_natpmp_lease_duration

abbrev pub get_natpmp_lease_duration : SettingsPack → Option ℤ
get_natpmp_lease_duration = get_int ct_set_natpmp_lease_duration
