-- ===== src/Api/Transports.antt =====
-- The peer transports and the outgoing port range of rsbtd/src/api/settings/structured.rs.
use rsbtd.Base.{ℕ, Bool, Option, none, some}
use rsbtd.Settings.Pack.{SettingsPack, Result, ok, err, map_err, ◌>>=◌}
use rsbtd.Settings.Connections.{
  enable_incoming_tcp, enable_outgoing_tcp, enable_incoming_utp, enable_outgoing_utp,
  get_enable_incoming_tcp, get_enable_outgoing_tcp, get_enable_incoming_utp,
  get_enable_outgoing_utp,
}
use rsbtd.Settings.Connections.Ports.{outgoing_ports, get_outgoing_ports}
use rsbtd.Api.Input.{
  SettingsError, MaybeUndefined, Nullable, nullable, defined, present, rb_err, unrepresentable,
}

pub record TransportDirections : Type 0 where
  pub incoming : Bool
  pub outgoing : Bool

pub record PeerTransports : Type 0 where
  pub tcp : TransportDirections
  pub utp : TransportDirections

unfoldable pub read_peer_transports : SettingsPack → Result SettingsError PeerTransports
read_peer_transports pack = do
  tcp_in ← present "peer_transports" (get_enable_incoming_tcp pack)
  tcp_out ← present "peer_transports" (get_enable_outgoing_tcp pack)
  utp_in ← present "peer_transports" (get_enable_incoming_utp pack)
  utp_out ← present "peer_transports" (get_enable_outgoing_utp pack)
  ok (record {
    tcp = record { incoming = tcp_in; outgoing = tcp_out };
    utp = record { incoming = utp_in; outgoing = utp_out };
  })

abbrev write_transports : Option PeerTransports → SettingsPack → SettingsPack
write_transports none delta = delta
write_transports (some t) delta = enable_outgoing_utp t.utp.outgoing (
    enable_incoming_utp t.utp.incoming
      (enable_outgoing_tcp t.tcp.outgoing (enable_incoming_tcp t.tcp.incoming delta)))

unfoldable pub write_peer_transports :
    MaybeUndefined PeerTransports → SettingsPack → Result SettingsError SettingsPack
write_peer_transports input delta = do
  t ← defined "peer_transports" input
  ok (write_transports t delta)

pub record PortRange : Type 0 where
  pub first : ℕ
  pub last : ℕ

abbrev range_of : Option (ℕ × ℕ) → Option PortRange
range_of none = none
range_of (some (first, last)) = some (record { first = first; last = last })

abbrev read_range : Option (Option (ℕ × ℕ)) → Result SettingsError (Option PortRange)
read_range none = err (unrepresentable "outgoingPortRange")
read_range (some range) = ok (range_of range)

unfoldable pub read_outgoing_port_range : SettingsPack → Result SettingsError (Option PortRange)
read_outgoing_port_range pack = read_range (get_outgoing_ports pack)

abbrev pub write_range : Nullable PortRange → SettingsPack → Result SettingsError SettingsPack
write_range Nullable.unchanged delta = ok delta
write_range Nullable.disable delta =
    map_err (rb_err "outgoing_port_range") (outgoing_ports none delta)
write_range (Nullable.set r) delta =
    map_err (rb_err "outgoing_port_range") (outgoing_ports (some (r.first, r.last)) delta)

unfoldable pub write_outgoing_port_range :
    MaybeUndefined PortRange → SettingsPack → Result SettingsError SettingsPack
write_outgoing_port_range input delta = write_range (nullable input) delta
