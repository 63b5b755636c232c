-- ===== src/Settings/Connections/Keys.antt =====
-- The keys of rbtorrent/src/settings/connections.rs, as libctorrent/include/ctorrent/ct_settings_generated.h numbers them.
use rsbtd.Base.{ℕ}

abbrev pub ct_set_outgoing_interfaces : ℕ
ct_set_outgoing_interfaces = 0x0004

abbrev pub ct_set_listen_interfaces : ℕ
ct_set_listen_interfaces = 0x0005

abbrev pub ct_set_peer_fingerprint : ℕ
ct_set_peer_fingerprint = 0x000a

abbrev pub ct_set_allow_multiple_connections_per_ip : ℕ
ct_set_allow_multiple_connections_per_ip = 0x8000

abbrev pub ct_set_use_parole_mode : ℕ
ct_set_use_parole_mode = 0x8006

abbrev pub ct_set_close_redundant_connections : ℕ
ct_set_close_redundant_connections = 0x800e

abbrev pub ct_set_enable_outgoing_utp : ℕ
ct_set_enable_outgoing_utp = 0x8020

abbrev pub ct_set_enable_incoming_utp : ℕ
ct_set_enable_incoming_utp = 0x8021

abbrev pub ct_set_enable_outgoing_tcp : ℕ
ct_set_enable_outgoing_tcp = 0x8022

abbrev pub ct_set_enable_incoming_tcp : ℕ
ct_set_enable_incoming_tcp = 0x8023

abbrev pub ct_set_seeding_outgoing_connections : ℕ
ct_set_seeding_outgoing_connections = 0x802a

abbrev pub ct_set_no_connect_privileged_ports : ℕ
ct_set_no_connect_privileged_ports = 0x802b

abbrev pub ct_set_smooth_connects : ℕ
ct_set_smooth_connects = 0x802c

abbrev pub ct_set_listen_system_port_fallback : ℕ
ct_set_listen_system_port_fallback = 0x8038

abbrev pub ct_set_allow_multiple_connections_per_pid : ℕ
ct_set_allow_multiple_connections_per_pid = 0x8056

abbrev pub ct_set_peer_timeout : ℕ
ct_set_peer_timeout = 0x400a

abbrev pub ct_set_max_failcount : ℕ
ct_set_max_failcount = 0x400f

abbrev pub ct_set_min_reconnect_time : ℕ
ct_set_min_reconnect_time = 0x4010

abbrev pub ct_set_peer_connect_timeout : ℕ
ct_set_peer_connect_timeout = 0x4011

abbrev pub ct_set_connection_speed : ℕ
ct_set_connection_speed = 0x4012

abbrev pub ct_set_inactivity_timeout : ℕ
ct_set_inactivity_timeout = 0x4013

abbrev pub ct_set_handshake_timeout : ℕ
ct_set_handshake_timeout = 0x401b

abbrev pub ct_set_outgoing_port : ℕ
ct_set_outgoing_port = 0x4026

abbrev pub ct_set_num_outgoing_ports : ℕ
ct_set_num_outgoing_ports = 0x4027

abbrev pub ct_set_peer_dscp : ℕ
ct_set_peer_dscp = 0x4028

abbrev pub ct_set_max_peerlist_size : ℕ
ct_set_max_peerlist_size = 0x4035

abbrev pub ct_set_max_paused_peerlist_size : ℕ
ct_set_max_paused_peerlist_size = 0x4036

abbrev pub ct_set_recv_socket_buffer_size : ℕ
ct_set_recv_socket_buffer_size = 0x403b

abbrev pub ct_set_send_socket_buffer_size : ℕ
ct_set_send_socket_buffer_size = 0x403c

abbrev pub ct_set_max_peer_recv_buffer_size : ℕ
ct_set_max_peer_recv_buffer_size = 0x403d

abbrev pub ct_set_max_pex_peers : ℕ
ct_set_max_pex_peers = 0x404b

abbrev pub ct_set_connections_limit : ℕ
ct_set_connections_limit = 0x4055

abbrev pub ct_set_connections_slack : ℕ
ct_set_connections_slack = 0x4056

abbrev pub ct_set_listen_queue_size : ℕ
ct_set_listen_queue_size = 0x4061

abbrev pub ct_set_torrent_connect_boost : ℕ
ct_set_torrent_connect_boost = 0x4062

abbrev pub ct_set_peer_turnover : ℕ
ct_set_peer_turnover = 0x406f

abbrev pub ct_set_peer_turnover_cutoff : ℕ
ct_set_peer_turnover_cutoff = 0x4070

abbrev pub ct_set_peer_turnover_interval : ℕ
ct_set_peer_turnover_interval = 0x4071

abbrev pub ct_set_connect_seed_every_n_download : ℕ
ct_set_connect_seed_every_n_download = 0x4072

abbrev pub ct_set_max_retry_port_bind : ℕ
ct_set_max_retry_port_bind = 0x4074
