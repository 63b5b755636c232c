-- ===== src/Api/Whole/Backing.antt =====
-- The tables of rsbtd/src/api/settings: which settings of libtorrent stand behind each public field, and which
-- are kept off the interface.
use Prim.Native.String.{String}
use rsbtd.Base.{
  ℕ, ◌+◌, ◌≡◌, refl, true, Bool, ◌&&◌, arith, List, [], ◌∷◌, ◌++◌, map, All, Option, none, some,
  ◌==◌, if◌then◌else◌,
}
use rsbtd.Events.{Text}
use rsbtd.Settings.Pack.{SettingsPack, SettingKind}
use rsbtd.Settings.Table.{all_settings, lt_setting}
use rsbtd.Api.Scalar.{Scalar, name_of}
use rsbtd.Api.Catalog.{catalog}
use rsbtd.Api.Whole.RoundTrip.{groups}

abbrev pub proxy_backing : List String
proxy_backing =
    "proxy_type" ∷ "proxy_hostname" ∷ "proxy_port" ∷ "proxy_username" ∷ "proxy_password"
    ∷ "proxy_hostnames" ∷ "proxy_peer_connections" ∷ "proxy_tracker_connections"
    ∷ "socks5_udp_send_local_ep" ∷ "proxy_send_host_in_connect" ∷ []

abbrev pub i2p_backing : List String
i2p_backing =
    "i2p_hostname" ∷ "i2p_port" ∷ "allow_i2p_mixed" ∷ "i2p_inbound_quantity"
    ∷ "i2p_outbound_quantity" ∷ "i2p_inbound_length" ∷ "i2p_outbound_length"
    ∷ "i2p_inbound_length_variance" ∷ "i2p_outbound_length_variance" ∷ []

abbrev pub encryption_backing : List String
encryption_backing =
    "out_enc_policy" ∷ "in_enc_policy" ∷ "allowed_enc_level" ∷ "prefer_rc4"
    ∷ "announce_crypto_support" ∷ []

abbrev pub peer_transports_backing : List String
peer_transports_backing =
    "enable_incoming_tcp" ∷ "enable_outgoing_tcp" ∷ "enable_incoming_utp" ∷ "enable_outgoing_utp"
    ∷ []

abbrev pub structured_backing : List (String × List String)
structured_backing =
    ("user_agent", "user_agent" ∷ [])
    ∷ ("proxy", proxy_backing)
    ∷ ("i2p", i2p_backing)
    ∷ ("encryption", encryption_backing)
    ∷ ("peer_transports", peer_transports_backing)
    ∷ ("outgoing_port_range", "outgoing_port" ∷ "num_outgoing_ports" ∷ [])
    ∷ ("disk_io_cache", "disk_io_read_mode" ∷ "disk_io_write_mode" ∷ [])
    ∷ ("mmap_write_mode", "disk_write_mode" ∷ [])
    ∷ ("suggest_mode", "suggest_mode" ∷ [])
    ∷ ("choking_algorithm", "choking_algorithm" ∷ [])
    ∷ ("seed_choking_algorithm", "seed_choking_algorithm" ∷ [])
    ∷ ("mixed_mode_algorithm", "mixed_mode_algorithm" ∷ [])
    ∷ ("outgoing_interfaces", "outgoing_interfaces" ∷ [])
    ∷ ("listen_interfaces", "listen_interfaces" ∷ [])
    ∷ ("dht_bootstrap_nodes", "dht_bootstrap_nodes" ∷ [])
    ∷ []

abbrev pub scalar_backing : List Scalar → List (String × List String)
scalar_backing = map (λ f. (name_of f, name_of f ∷ []))

abbrev pub backing : List (String × List String)
backing = scalar_backing catalog ++ structured_backing

abbrev pub blacklist : List String
blacklist =
    "alert_mask" ∷ "alert_queue_size" ∷ "disable_hash_checks" ∷ "enable_set_file_valid_data"
    ∷ "max_rejects" ∷ "tracker_maximum_response_length" ∷ "urlseed_pipeline_size"
    ∷ "dht_max_torrent_search_reply" ∷ "webtorrent_stun_server" ∷ "min_websocket_announce_interval"
    ∷ "webtorrent_connection_timeout" ∷ []

abbrev key_or_zero : Option (ℕ × SettingKind) → ℕ
key_or_zero none = 0
key_or_zero (some (key, kind)) = key

-- The keys of a list of names.
abbrev pub keys_named : List String → List ℕ
keys_named = map (λ name. key_or_zero (lt_setting name))

abbrev pub all_keys : List (String × List String) → List ℕ
all_keys [] = []
all_keys ((field, names) ∷ fields) = keys_named names ++ all_keys fields

abbrev pub occurrences : ℕ → List ℕ → ℕ
occurrences j [] = 0
occurrences j (k ∷ ks) = let rest = occurrences j ks in if j == k then 1 + rest else rest

abbrev Entries : Type 0
Entries = List (ℕ × String × SettingKind)

all_once : List ℕ → List ℕ → Entries → Bool
all_once public hidden [] = true
all_once public hidden ((key, name, kind) ∷ table) =
    occurrences key public + occurrences key hidden == 1 && all_once public hidden table

all_once-All :
    (public hidden : List ℕ) (table : Entries)
    → all_once public hidden table ≡ true
    → All (λ e. occurrences e.0 public + occurrences e.0 hidden ≡ 1) table
unfolding all_once
all_once-All public hidden [] h = tt
all_once-All public hidden ((key, name, kind) ∷ table) h =
    (ground (arith, h), all_once-All public hidden table (ground (arith, h)))

table-once : all_once (all_keys backing) (keys_named blacklist) all_settings ≡ true
unfolding lt_setting all_once
table-once = refl

-- Every setting of the table of libtorrent stands behind exactly one public field, or it is on the
-- blacklist, once, and behind none.
settings-partition :
    All
      (λ e. occurrences e.0 (all_keys backing) + occurrences e.0 (keys_named blacklist) ≡ 1)
      all_settings
settings-partition = all_once-All (all_keys backing) (keys_named blacklist) all_settings table-once

-- The settings that the tables name behind the scalar fields and behind each structured field are the
-- keys of their groups, in the order of the tables.
structured_backing-keys :
    (libtorrent_version package_version : Text) (defaults : SettingsPack)
    → keys_named (map name_of catalog) ∷ map (λ b. keys_named b.1) structured_backing
      ≡ map (λ g. g.keys) (groups libtorrent_version package_version defaults)
unfolding lt_setting
structured_backing-keys libtorrent_version package_version defaults = refl
