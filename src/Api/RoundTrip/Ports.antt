-- ===== src/Api/RoundTrip/Ports.antt =====
-- The user agent, the peer transports and the outgoing port range.
use rsbtd.Base.{◌≡◌, ◌≤◌, arith, none, some}
use rsbtd.Events.{Text}
use rsbtd.Settings.Texts.{starts_with}
use rsbtd.Settings.Pack.{SettingsPack, ok, merge}
use rsbtd.Settings.Connections.Ports.{outgoing_ports, get_outgoing_ports}
use rsbtd.Api.Input.{value, null}
use rsbtd.Api.Input
use rsbtd.Api.Agent.{UserAgent, write_user_agent, read_user_agent, recognize}
use rsbtd.Api.Transports.{
  PeerTransports, PortRange, write_peer_transports, read_peer_transports, write_outgoing_port_range,
  read_outgoing_port_range,
}

pub write_user_agent-read :
    (libtorrent_version package_version : Text) (choice : UserAgent)
    (delta d effective : SettingsPack)
    → write_user_agent libtorrent_version package_version (value choice) delta ≡ ok d
    → read_user_agent (merge effective d) ≡ ok choice
unfolding write_user_agent read_user_agent Input.defined recognize starts_with
write_user_agent-read libtorrent_version package_version choice delta d effective h =
    ground (arith, h)

pub write_peer_transports-read :
    (t : PeerTransports) (delta d effective : SettingsPack)
    → write_peer_transports (value t) delta ≡ ok d
    → read_peer_transports (merge effective d) ≡ ok t
unfolding write_peer_transports read_peer_transports Input.defined
write_peer_transports-read t delta d effective h = ground (arith, h)

-- A port range that is taken, with a last port of 16 bits, is what is read from any effective pack
-- with the delta applied: the sum of the first port and the count never goes past 65535, and no
-- bound is cut off.
pub write_outgoing_port_range-read :
    (r : PortRange) (delta d effective : SettingsPack)
    → r.last ≤ 65535
    → write_outgoing_port_range (value r) delta ≡ ok d
    → read_outgoing_port_range (merge effective d) ≡ ok (some r)
unfolding write_outgoing_port_range read_outgoing_port_range outgoing_ports get_outgoing_ports
write_outgoing_port_range-read r delta d effective bound h = ground (arith, h)

pub write_outgoing_port_range-null :
    (delta d effective : SettingsPack)
    → write_outgoing_port_range null delta ≡ ok d
    → read_outgoing_port_range (merge effective d) ≡ ok none
unfolding write_outgoing_port_range read_outgoing_port_range outgoing_ports get_outgoing_ports
write_outgoing_port_range-null delta d effective h = ground (arith, h)
