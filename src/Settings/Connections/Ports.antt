-- ===== src/Settings/Connections/Ports.antt =====
-- `outgoing_ports` and `get_outgoing_ports` of rbtorrent/src/settings/connections.rs.
-- A `RangeInclusive<u16>` is its two ends.
use rsbtd.Base.{ℕ, ◌+◌, ◌-◌, Option, none, some, ltb, ◌==◌, if◌then◌else◌}
use rsbtd.Settings.Int.{ℤ, pos, try_u16, at_least_zero, leb_ℤ}
use rsbtd.Settings.Pack.{
  SettingsPack, SettingsError, Result, ok, fail, ◌>>=?◌, port_zero, empty_range,
}
use rsbtd.Settings.Connections.{
  outgoing_port, num_outgoing_ports, get_outgoing_port, get_num_outgoing_ports,
}

unfoldable pub outgoing_ports : Option (ℕ × ℕ) → SettingsPack → Result SettingsError SettingsPack
outgoing_ports none pack = ok (num_outgoing_ports (pos 0) (outgoing_port (pos 0) pack))
outgoing_ports (some (first, last)) pack =
    if first == 0
    then fail "outgoing_ports" port_zero
    else if ltb last first
    then fail "outgoing_ports" (empty_range first last)
    else ok (num_outgoing_ports (pos (last - first)) (outgoing_port (pos first) pack))

abbrev pub at_most : ℕ → ℕ → ℕ
at_most bound n = if ltb bound n then bound else n

abbrev range_from : ℤ → ℤ → Option (Option (ℕ × ℕ))
range_from first count =
    if leb_ℤ first (pos 0)
    then some none
    else try_u16 first >>=? λ n. some (some (n, at_most 65535 (n + at_least_zero count)))

unfoldable pub get_outgoing_ports : SettingsPack → Option (Option (ℕ × ℕ))
get_outgoing_ports pack = get_outgoing_port pack >>=? λ first.
    get_num_outgoing_ports pack >>=? λ count. range_from first count
