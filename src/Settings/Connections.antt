-- ===== src/Settings/Connections.antt =====
-- The setters and getters of rbtorrent/src/settings/connections.rs that touch one setting: peer connections and listening.
-- A `u16` or `u8` is a number; a getter of an enum is empty at a number that the enum has not.
pub mod Keys
pub mod Interfaces
pub mod Ports
use rsbtd.Base.{ℕ, Bool, Option}
use rsbtd.Events.{Text}
use rsbtd.Settings.Int.{ℤ, pos, negsuc}
use rsbtd.Settings.Pack.{
  SettingsPack, SettingsError, Result, set_str, set_int, set_bool, get_str, get_int, get_bool,
  ranged, ◌>>=?◌,
}
use rsbtd.Settings.Connections.Keys.{
  ct_set_outgoing_interfaces, ct_set_listen_interfaces, ct_set_peer_fingerprint,
  ct_set_allow_multiple_connections_per_ip, ct_set_use_parole_mode,
  ct_set_close_redundant_connections, ct_set_enable_outgoing_utp, ct_set_enable_incoming_utp,
  ct_set_enable_outgoing_tcp, ct_set_enable_incoming_tcp, ct_set_seeding_outgoing_connections,
  ct_set_no_connect_privileged_ports, ct_set_smooth_connects, ct_set_listen_system_port_fallback,
  ct_set_allow_multiple_connections_per_pid, ct_set_peer_timeout, ct_set_max_failcount,
  ct_set_min_reconnect_time, ct_set_peer_connect_timeout, ct_set_connection_speed,
  ct_set_inactivity_timeout, ct_set_handshake_timeout, ct_set_outgoing_port,
  ct_set_num_outgoing_ports, ct_set_max_peerlist_size, ct_set_max_paused_peerlist_size,
  ct_set_recv_socket_buffer_size, ct_set_send_socket_buffer_size, ct_set_max_peer_recv_buffer_size,
  ct_set_max_pex_peers, ct_set_connections_limit, ct_set_connections_slack,
  ct_set_listen_queue_size, ct_set_torrent_connect_boost, ct_set_peer_turnover,
  ct_set_peer_turnover_cutoff, ct_set_peer_turnover_interval, ct_set_connect_seed_every_n_download,
  ct_set_max_retry_port_bind,
}

abbrev pub get_outgoing_interfaces : SettingsPack → Option Text
get_outgoing_interfaces = get_str ct_set_outgoing_interfaces

abbrev pub get_listen_interfaces : SettingsPack → Option Text
get_listen_interfaces = get_str ct_set_listen_interfaces

abbrev pub get_peer_fingerprint : SettingsPack → Option Text
get_peer_fingerprint = get_str ct_set_peer_fingerprint

abbrev pub allow_multiple_connections_per_ip : Bool → SettingsPack → SettingsPack
allow_multiple_connections_per_ip = set_bool ct_set_allow_multiple_connections_per_ip

abbrev pub get_allow_multiple_connections_per_ip : SettingsPack → Option Bool
get_allow_multiple_connections_per_ip = get_bool ct_set_allow_multiple_connections_per_ip

abbrev pub use_parole_mode : Bool → SettingsPack → SettingsPack
use_parole_mode = set_bool ct_set_use_parole_mode

abbrev pub get_use_parole_mode : SettingsPack → Option Bool
get_use_parole_mode = get_bool ct_set_use_parole_mode

abbrev pub close_redundant_connections : Bool → SettingsPack → SettingsPack
close_redundant_connections = set_bool ct_set_close_redundant_connections

abbrev pub get_close_redundant_connections : SettingsPack → Option Bool
get_close_redundant_connections = get_bool ct_set_close_redundant_connections

abbrev pub enable_outgoing_utp : Bool → SettingsPack → SettingsPack
enable_outgoing_utp = set_bool ct_set_enable_outgoing_utp

abbrev pub get_enable_outgoing_utp : SettingsPack → Option Bool
get_enable_outgoing_utp = get_bool ct_set_enable_outgoing_utp

abbrev pub enable_incoming_utp : Bool → SettingsPack → SettingsPack
enable_incoming_utp = set_bool ct_set_enable_incoming_utp

abbrev pub get_enable_incoming_utp : SettingsPack → Option Bool
get_enable_incoming_utp = get_bool ct_set_enable_incoming_utp

abbrev pub enable_outgoing_tcp : Bool → SettingsPack → SettingsPack
enable_outgoing_tcp = set_bool ct_set_enable_outgoing_tcp

abbrev pub get_enable_outgoing_tcp : SettingsPack → Option Bool
get_enable_outgoing_tcp = get_bool ct_set_enable_outgoing_tcp

abbrev pub enable_incoming_tcp : Bool → SettingsPack → SettingsPack
enable_incoming_tcp = set_bool ct_set_enable_incoming_tcp

abbrev pub get_enable_incoming_tcp : SettingsPack → Option Bool
get_enable_incoming_tcp = get_bool ct_set_enable_incoming_tcp

abbrev pub seeding_outgoing_connections : Bool → SettingsPack → SettingsPack
seeding_outgoing_connections = set_bool ct_set_seeding_outgoing_connections

abbrev pub get_seeding_outgoing_connections : SettingsPack → Option Bool
get_seeding_outgoing_connections = get_bool ct_set_seeding_outgoing_connections

abbrev pub no_connect_privileged_ports : Bool → SettingsPack → SettingsPack
no_connect_privileged_ports = set_bool ct_set_no_connect_privileged_ports

abbrev pub get_no_connect_privileged_ports : SettingsPack → Option Bool
get_no_connect_privileged_ports = get_bool ct_set_no_connect_privileged_ports

abbrev pub smooth_connects : Bool → SettingsPack → SettingsPack
smooth_connects = set_bool ct_set_smooth_connects

abbrev pub get_smooth_connects : SettingsPack → Option Bool
get_smooth_connects = get_bool ct_set_smooth_connects

abbrev pub listen_system_port_fallback : Bool → SettingsPack → SettingsPack
listen_system_port_fallback = set_bool ct_set_listen_system_port_fallback

abbrev pub get_listen_system_port_fallback : SettingsPack → Option Bool
get_listen_system_port_fallback = get_bool ct_set_listen_system_port_fallback

abbrev pub allow_multiple_connections_per_pid : Bool → SettingsPack → SettingsPack
allow_multiple_connections_per_pid = set_bool ct_set_allow_multiple_connections_per_pid

abbrev pub get_allow_multiple_connections_per_pid : SettingsPack → Option Bool
get_allow_multiple_connections_per_pid = get_bool ct_set_allow_multiple_connections_per_pid

abbrev pub peer_timeout : ℤ → SettingsPack → Result SettingsError SettingsPack
peer_timeout = ranged "peer_timeout" (pos 1) (pos 536870911) ct_set_peer_timeout

abbrev pub get_peer_timeout : SettingsPack → Option ℤ
get_peer_timeout = get_int ct_set_peer_timeout

abbrev pub max_failcount : ℤ → SettingsPack → Result SettingsError SettingsPack
max_failcount = ranged "max_failcount" (pos 1) (pos 16383) ct_set_max_failcount

abbrev pub get_max_failcount : SettingsPack → Option ℤ
get_max_failcount = get_int ct_set_max_failcount

abbrev pub min_reconnect_time : ℤ → SettingsPack → Result SettingsError SettingsPack
min_reconnect_time = ranged "min_reconnect_time" (pos 0) (pos 65535) ct_set_min_reconnect_time

abbrev pub get_min_reconnect_time : SettingsPack → Option ℤ
get_min_reconnect_time = get_int ct_set_min_reconnect_time

abbrev pub peer_connect_timeout : ℤ → SettingsPack → Result SettingsError SettingsPack
peer_connect_timeout =
    ranged "peer_connect_timeout" (pos 1) (pos 2147482623) ct_set_peer_connect_timeout

abbrev pub get_peer_connect_timeout : SettingsPack → Option ℤ
get_peer_connect_timeout = get_int ct_set_peer_connect_timeout

abbrev pub connection_speed : ℤ → SettingsPack → SettingsPack
connection_speed = set_int ct_set_connection_speed

abbrev pub get_connection_speed : SettingsPack → Option ℤ
get_connection_speed = get_int ct_set_connection_speed

abbrev pub inactivity_timeout : ℤ → SettingsPack → SettingsPack
inactivity_timeout = set_int ct_set_inactivity_timeout

abbrev pub get_inactivity_timeout : SettingsPack → Option ℤ
get_inactivity_timeout = get_int ct_set_inactivity_timeout

abbrev pub handshake_timeout : ℤ → SettingsPack → Result SettingsError SettingsPack
handshake_timeout = ranged "handshake_timeout" (pos 1) (pos 536870911) ct_set_handshake_timeout

abbrev pub get_handshake_timeout : SettingsPack → Option ℤ
get_handshake_timeout = get_int ct_set_handshake_timeout

abbrev pub outgoing_port : ℤ → SettingsPack → SettingsPack
outgoing_port = set_int ct_set_outgoing_port

abbrev pub get_outgoing_port : SettingsPack → Option ℤ
get_outgoing_port = get_int ct_set_outgoing_port

abbrev pub num_outgoing_ports : ℤ → SettingsPack → SettingsPack
num_outgoing_ports = set_int ct_set_num_outgoing_ports

abbrev pub get_num_outgoing_ports : SettingsPack → Option ℤ
get_num_outgoing_ports = get_int ct_set_num_outgoing_ports

abbrev pub max_peerlist_size : ℤ → SettingsPack → Result SettingsError SettingsPack
max_peerlist_size = ranged "max_peerlist_size" (pos 0) (pos 22605091) ct_set_max_peerlist_size

abbrev pub get_max_peerlist_size : SettingsPack → Option ℤ
get_max_peerlist_size = get_int ct_set_max_peerlist_size

abbrev pub max_paused_peerlist_size : ℤ → SettingsPack → Result SettingsError SettingsPack
max_paused_peerlist_size =
    ranged "max_paused_peerlist_size" (pos 0) (pos 22605091) ct_set_max_paused_peerlist_size

abbrev pub get_max_paused_peerlist_size : SettingsPack → Option ℤ
get_max_paused_peerlist_size = get_int ct_set_max_paused_peerlist_size

abbrev pub recv_socket_buffer_size : ℤ → SettingsPack → SettingsPack
recv_socket_buffer_size = set_int ct_set_recv_socket_buffer_size

abbrev pub get_recv_socket_buffer_size : SettingsPack → Option ℤ
get_recv_socket_buffer_size = get_int ct_set_recv_socket_buffer_size

abbrev pub send_socket_buffer_size : ℤ → SettingsPack → SettingsPack
send_socket_buffer_size = set_int ct_set_send_socket_buffer_size

abbrev pub get_send_socket_buffer_size : SettingsPack → Option ℤ
get_send_socket_buffer_size = get_int ct_set_send_socket_buffer_size

abbrev pub max_peer_recv_buffer_size : ℤ → SettingsPack → Result SettingsError SettingsPack
max_peer_recv_buffer_size =
    ranged "max_peer_recv_buffer_size" (pos 16384) (pos 2147483647) ct_set_max_peer_recv_buffer_size

abbrev pub get_max_peer_recv_buffer_size : SettingsPack → Option ℤ
get_max_peer_recv_buffer_size = get_int ct_set_max_peer_recv_buffer_size

abbrev pub max_pex_peers : ℤ → SettingsPack → SettingsPack
max_pex_peers = set_int ct_set_max_pex_peers

abbrev pub get_max_pex_peers : SettingsPack → Option ℤ
get_max_pex_peers = get_int ct_set_max_pex_peers

abbrev pub connections_limit : ℤ → SettingsPack → SettingsPack
connections_limit = set_int ct_set_connections_limit

abbrev pub get_connections_limit : SettingsPack → Option ℤ
get_connections_limit = get_int ct_set_connections_limit

abbrev pub connections_slack : ℤ → SettingsPack → SettingsPack
connections_slack = set_int ct_set_connections_slack

abbrev pub get_connections_slack : SettingsPack → Option ℤ
get_connections_slack = get_int ct_set_connections_slack

abbrev pub listen_queue_size : ℤ → SettingsPack → SettingsPack
listen_queue_size = set_int ct_set_listen_queue_size

abbrev pub get_listen_queue_size : SettingsPack → Option ℤ
get_listen_queue_size = get_int ct_set_listen_queue_size

abbrev pub torrent_connect_boost : ℕ → SettingsPack → SettingsPack
torrent_connect_boost = λ value. set_int ct_set_torrent_connect_boost (pos value)

abbrev pub get_torrent_connect_boost : SettingsPack → Option ℤ
get_torrent_connect_boost = get_int ct_set_torrent_connect_boost

abbrev pub peer_turnover : ℤ → SettingsPack → Result SettingsError SettingsPack
peer_turnover = ranged "peer_turnover" (pos 0) (pos 100) ct_set_peer_turnover

abbrev pub get_peer_turnover : SettingsPack → Option ℤ
get_peer_turnover = get_int ct_set_peer_turnover

abbrev pub peer_turnover_cutoff : ℤ → SettingsPack → SettingsPack
peer_turnover_cutoff = set_int ct_set_peer_turnover_cutoff

abbrev pub get_peer_turnover_cutoff : SettingsPack → Option ℤ
get_peer_turnover_cutoff = get_int ct_set_peer_turnover_cutoff

abbrev pub peer_turnover_interval : ℤ → SettingsPack → SettingsPack
peer_turnover_interval = set_int ct_set_peer_turnover_interval

abbrev pub get_peer_turnover_interval : SettingsPack → Option ℤ
get_peer_turnover_interval = get_int ct_set_peer_turnover_interval

abbrev pub connect_seed_every_n_download : ℤ → SettingsPack → SettingsPack
connect_seed_every_n_download = set_int ct_set_connect_seed_every_n_download

abbrev pub get_connect_seed_every_n_download : SettingsPack → Option ℤ
get_connect_seed_every_n_download = get_int ct_set_connect_seed_every_n_download

abbrev pub max_retry_port_bind : ℤ → SettingsPack → SettingsPack
max_retry_port_bind = set_int ct_set_max_retry_port_bind

abbrev pub get_max_retry_port_bind : SettingsPack → Option ℤ
get_max_retry_port_bind = get_int ct_set_max_retry_port_bind
