-- ===== src/Settings/Table/Strings.antt =====
-- The string settings of `ALL_SETTINGS`, in libtorrent's order.
use Prim.Native.String.{String}
use rsbtd.Base.{ℕ, List, [], ◌∷◌}
use rsbtd.Settings.Pack.{SettingKind}
use rsbtd.Settings.Connections.Keys.{
  ct_set_outgoing_interfaces, ct_set_listen_interfaces, ct_set_peer_fingerprint,
}
use rsbtd.Settings.Dht.Keys.{ct_set_dht_bootstrap_nodes, ct_set_natpmp_gateway}
use rsbtd.Settings.Net.Keys.{
  ct_set_proxy_hostname, ct_set_proxy_username, ct_set_proxy_password, ct_set_i2p_hostname,
}
use rsbtd.Settings.Table.Keys.{ct_set_webtorrent_stun_server}
use rsbtd.Settings.Tracker.Keys.{
  ct_set_user_agent, ct_set_announce_ip, ct_set_handshake_client_version,
}

abbrev pub string_settings : List (ℕ × String × SettingKind)
string_settings =
    (ct_set_user_agent, "user_agent", SettingKind.str)
    ∷ (ct_set_announce_ip, "announce_ip", SettingKind.str)
    ∷ (ct_set_handshake_client_version, "handshake_client_version", SettingKind.str)
    ∷ (ct_set_outgoing_interfaces, "outgoing_interfaces", SettingKind.str)
    ∷ (ct_set_listen_interfaces, "listen_interfaces", SettingKind.str)
    ∷ (ct_set_proxy_hostname, "proxy_hostname", SettingKind.str)
    ∷ (ct_set_proxy_username, "proxy_username", SettingKind.str)
    ∷ (ct_set_proxy_password, "proxy_password", SettingKind.str)
    ∷ (ct_set_i2p_hostname, "i2p_hostname", SettingKind.str)
    ∷ (ct_set_peer_fingerprint, "peer_fingerprint", SettingKind.str)
    ∷ (ct_set_dht_bootstrap_nodes, "dht_bootstrap_nodes", SettingKind.str)
    ∷ (ct_set_natpmp_gateway, "natpmp_gateway", SettingKind.str)
    ∷ (ct_set_webtorrent_stun_server, "webtorrent_stun_server", SettingKind.str)
    ∷ []
