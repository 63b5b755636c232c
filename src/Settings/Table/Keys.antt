-- ===== src/Settings/Table/Keys.antt =====
-- The keys of the settings that have no setter.
use rsbtd.Base.{ℕ}

abbrev pub ct_set_webtorrent_stun_server : ℕ
ct_set_webtorrent_stun_server = 0x000d

abbrev pub ct_set_tracker_maximum_response_length : ℕ
ct_set_tracker_maximum_response_length = 0x4003

abbrev pub ct_set_urlseed_pipeline_size : ℕ
ct_set_urlseed_pipeline_size = 0x400c

abbrev pub ct_set_max_rejects : ℕ
ct_set_max_rejects = 0x403a

abbrev pub ct_set_dht_max_torrent_search_reply : ℕ
ct_set_dht_max_torrent_search_reply = 0x408f

abbrev pub ct_set_min_websocket_announce_interval : ℕ
ct_set_min_websocket_announce_interval = 0x40a1

abbrev pub ct_set_webtorrent_connection_timeout : ℕ
ct_set_webtorrent_connection_timeout = 0x40a2
