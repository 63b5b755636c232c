-- ===== src/Settings/Net/I2p.antt =====
-- `i2p` and `get_i2p` of rbtorrent/src/settings/net.rs: nine settings written and read as one group.
use Prim.Native.String.{String}
use rsbtd.Base.{ℕ, Bool, not, ◌&&◌, List, [], ◌∷◌, Option, none, some, leb, ltb, if◌then◌else◌}
use rsbtd.Events.{Text}
use rsbtd.Errors.{Done}
use rsbtd.Settings.Int.{ℤ, pos, negsuc, within, try_u16, try_u8, try_i8, non_zero}
use rsbtd.Settings.Texts.{is_empty}
use rsbtd.Settings.Tokens.{bare_host_token}
use rsbtd.Settings.Pack.{
  SettingsPack, SettingsError, Result, ok, fail, set_defaults, ◌>>=◌, ◌>>=?◌, tunnel_quantity,
  tunnel_length, tunnel_variance,
}
use rsbtd.Settings.Net
use rsbtd.Settings.Net.Keys.{
  ct_set_i2p_hostname, ct_set_i2p_port, ct_set_allow_i2p_mixed, ct_set_i2p_inbound_quantity,
  ct_set_i2p_outbound_quantity, ct_set_i2p_inbound_length, ct_set_i2p_outbound_length,
  ct_set_i2p_inbound_length_variance, ct_set_i2p_outbound_length_variance,
}

pub record I2pTunnels : Type 0 where
  pub quantity : ℕ
  pub length : ℕ
  pub variance : ℤ

pub record I2pConfig : Type 0 where
  pub sam_host : Text
  pub sam_port : ℕ
  pub inbound : I2pTunnels
  pub outbound : I2pTunnels
  pub allow_mixed : Bool

abbrev pub i2p_keys : List ℕ
i2p_keys =
    ct_set_i2p_hostname ∷ ct_set_i2p_port ∷ ct_set_allow_i2p_mixed ∷ ct_set_i2p_inbound_quantity
    ∷ ct_set_i2p_outbound_quantity ∷ ct_set_i2p_inbound_length ∷ ct_set_i2p_outbound_length
    ∷ ct_set_i2p_inbound_length_variance ∷ ct_set_i2p_outbound_length_variance ∷ []

unfoldable pub check_tunnels : String → I2pTunnels → Result SettingsError Done
check_tunnels dir t =
    if not (leb 1 t.quantity && leb t.quantity 16)
    then fail "i2p" (tunnel_quantity dir t.quantity)
    else if ltb 7 t.length
    then fail "i2p" (tunnel_length dir t.length)
    else if not (within (negsuc 6) (pos 7) t.variance)
    then fail "i2p" (tunnel_variance dir t.variance)
    else ok tt

unfoldable pub stage : I2pConfig → SettingsPack → SettingsPack
stage c pack = Net.i2p_outbound_length_variance c.outbound.variance (
    Net.i2p_outbound_length (pos c.outbound.length) (
      Net.i2p_outbound_quantity (pos c.outbound.quantity) (
        Net.i2p_inbound_length_variance c.inbound.variance (
          Net.i2p_inbound_length (pos c.inbound.length) (
            Net.i2p_inbound_quantity (pos c.inbound.quantity) (
              Net.allow_i2p_mixed c.allow_mixed
                (Net.i2p_port (pos c.sam_port) (Net.i2p_hostname c.sam_host pack))))))))

unfoldable pub i2p :
    SettingsPack → Option I2pConfig → SettingsPack → Result SettingsError SettingsPack
i2p defaults none pack = ok (set_defaults defaults i2p_keys pack)
i2p defaults (some c) pack = do
  u ← bare_host_token "i2p" "SAM host" c.sam_host
  v ← check_tunnels "inbound" c.inbound
  w ← check_tunnels "outbound" c.outbound
  ok (stage c pack)

abbrev pub tunnels : Option ℤ → Option ℤ → Option ℤ → Option I2pTunnels
tunnels quantity length variance = quantity >>=? try_u8 >>=? λ q. length >>=? try_u8 >>=? λ l.
    variance >>=? try_i8 >>=? λ v. some (record { quantity = q; length = l; variance = v })

abbrev config_of : SettingsPack → Text → Option (Option I2pConfig)
config_of pack sam_host = Net.get_i2p_port pack >>=? try_u16 >>=? non_zero >>=? λ port.
    tunnels (Net.get_i2p_inbound_quantity pack) (Net.get_i2p_inbound_length pack)
      (Net.get_i2p_inbound_length_variance pack)
    >>=? λ inbound.
        tunnels (Net.get_i2p_outbound_quantity pack) (Net.get_i2p_outbound_length pack)
          (Net.get_i2p_outbound_length_variance pack)
        >>=? λ outbound. Net.get_allow_i2p_mixed pack >>=? λ mixed. some (
            some (record {
              sam_host = sam_host;
              sam_port = port;
              inbound = inbound;
              outbound = outbound;
              allow_mixed = mixed;
            }))

unfoldable pub get_i2p : SettingsPack → Option (Option I2pConfig)
get_i2p pack = Net.get_i2p_hostname pack >>=? λ sam_host.
    if is_empty sam_host then some none else config_of pack sam_host
