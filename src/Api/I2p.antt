-- ===== src/Api/I2p.antt =====
-- `read_i2p` and `write_i2p` of rsbtd/src/api/settings/structured.rs.
use rsbtd.Base.{ℕ, Bool, Option, none, some}
use rsbtd.Events.{Text}
use rsbtd.Settings.Int.{ℤ}
use rsbtd.Settings.Tokens.{bracketed}
use rsbtd.Settings.Pack.{SettingsPack, Result, ok, err, map_err, ◌>>=◌}
use rsbtd.Settings.Net.I2p.{I2pTunnels, I2pConfig, i2p, get_i2p}
use rsbtd.Api.Input.{
  SettingsError, MaybeUndefined, Nullable, nullable, rb_err, port_for, unrepresentable,
}

pub record I2pTunnel : Type 0 where
  pub tunnels : ℕ
  pub hops : ℕ
  pub hop_variance : ℤ

pub record I2pSettings : Type 0 where
  pub hostname : Text
  pub port : ℕ
  pub allow_mixed : Bool
  pub inbound : I2pTunnel
  pub outbound : I2pTunnel

abbrev tunnel : I2pTunnels → I2pTunnel
tunnel t = record { tunnels = t.quantity; hops = t.length; hop_variance = t.variance }

abbrev settings_of : Option I2pConfig → Option I2pSettings
settings_of none = none
settings_of (some c) = some (record {
  hostname = c.sam_host;
  port = c.sam_port;
  allow_mixed = c.allow_mixed;
  inbound = tunnel c.inbound;
  outbound = tunnel c.outbound;
})

abbrev read_config : Option (Option I2pConfig) → Result SettingsError (Option I2pSettings)
read_config none = err (unrepresentable "i2p")
read_config (some config) = ok (settings_of config)

unfoldable pub read_i2p : SettingsPack → Result SettingsError (Option I2pSettings)
read_i2p pack = read_config (get_i2p pack)

abbrev unless_bracketed : Text → Option Text → Text
unless_bracketed host none = host
unless_bracketed host (some inner) = inner

-- The name without the brackets around it.
unfoldable pub bare_hostname : Text → Text
bare_hostname host = unless_bracketed host (bracketed host)

abbrev pub lt_tunnels : I2pTunnel → I2pTunnels
lt_tunnels t = record { quantity = t.tunnels; length = t.hops; variance = t.hop_variance }

abbrev pub config_for : I2pSettings → ℕ → I2pConfig
config_for c port = record {
  sam_host = bare_hostname c.hostname;
  sam_port = port;
  inbound = lt_tunnels c.inbound;
  outbound = lt_tunnels c.outbound;
  allow_mixed = c.allow_mixed;
}

abbrev pub write_change :
    SettingsPack → Nullable I2pSettings → SettingsPack → Result SettingsError SettingsPack
write_change defaults Nullable.unchanged delta = ok delta
write_change defaults Nullable.disable delta = map_err (rb_err "i2p") (i2p defaults none delta)
write_change defaults (Nullable.set c) delta = do
  port ← port_for "i2p.port" c.port
  map_err (rb_err "i2p") (i2p defaults (some (config_for c port)) delta)

-- `defaults` are libtorrent's.
unfoldable pub write_i2p :
    SettingsPack → MaybeUndefined I2pSettings → SettingsPack → Result SettingsError SettingsPack
write_i2p defaults input delta = write_change defaults (nullable input) delta
