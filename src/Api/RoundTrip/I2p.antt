-- ===== src/Api/RoundTrip/I2p.antt =====
-- The I2P bridge.
use rsbtd.Base.{ℕ, ◌≡◌, ◌≤◌, refl, sym, subst, arith, some, false}
use Prim.Native.String.{String}
use rsbtd.Settings.Int.{pos, try_u16, non_zero}
use rsbtd.Settings.Texts.{is_empty}
use rsbtd.Api.RoundTrip.Entries.{bare_host_token-filled}
use rsbtd.Settings.Tokens.{bare_host_token}
use rsbtd.Settings.Pack.{SettingsPack, ok, merge, ◌>>=?◌}
use rsbtd.Settings.Net.I2p.{I2pTunnels, tunnels, i2p, get_i2p, stage, check_tunnels}
use rsbtd.Api.RoundTrip.{bind-ok, map_err-ok}
use rsbtd.Api.Input.{value, rb_err, port_for}
use rsbtd.Api.I2p.{I2pSettings, write_i2p, read_i2p, bare_hostname, config_for, lt_tunnels}

same_port : (n port : ℕ) → port_for "i2p.port" n ≡ ok port → port ≡ n
same_port n port h = ground (arith, h)

port_back : (n : ℕ) → 1 ≤ n → n ≤ 65535 → (try_u16 (pos n) >>=? non_zero) ≡ some n
port_back n positive bound = ground (arith, positive, bound)

-- An accepted input: its port, host and tunnels are proper, and it is staged whole.
write_i2p-accepted :
    (defaults : SettingsPack) (c : I2pSettings) (delta d : SettingsPack)
    → write_i2p defaults (value c) delta ≡ ok d
    → (1 ≤ c.port)
      × (bare_host_token "i2p" "SAM host" (bare_hostname c.hostname) ≡ ok tt)
      × (check_tunnels "inbound" (lt_tunnels c.inbound) ≡ ok tt)
      × (check_tunnels "outbound" (lt_tunnels c.outbound) ≡ ok tt)
      × (d ≡ stage (config_for c c.port) delta)
unfolding write_i2p i2p
write_i2p-accepted defaults c delta d h =
    let (port, ep, h1) = bind-ok (port_for "i2p.port" c.port) _ d h in
    let k = config_for c port in
    let (u, eu, h2) =
      bind-ok (bare_host_token "i2p" "SAM host" k.sam_host) _ d
        (map_err-ok (rb_err "i2p") _ d h1) in
    let (v, ev, h3) = bind-ok (check_tunnels "inbound" k.inbound) _ d h2 in
    let (w, ew, h4) = bind-ok (check_tunnels "outbound" k.outbound) _ d h3 in
    (ground (arith, ep), eu, ev, ew, cc (h4, same_port c.port port ep))

pub write_i2p-staged :
    (defaults : SettingsPack) (c : I2pSettings) (delta d : SettingsPack)
    → write_i2p defaults (value c) delta ≡ ok d
    → d ≡ stage (config_for c c.port) delta
write_i2p-staged defaults c delta d h =
    let (p, t, i, o, staged) = write_i2p-accepted defaults c delta d h in staged

-- Tunnels that pass the check fit in the types that they are read with.
tunnels-read :
    (dir : String) (t : I2pTunnels)
    → check_tunnels dir t ≡ ok tt
    → tunnels (some (pos t.quantity)) (some (pos t.length)) (some t.variance) ≡ some t
unfolding check_tunnels
tunnels-read dir t h = ground (arith, h)

staged-read :
    (c : I2pSettings) (delta effective : SettingsPack)
    → 1 ≤ c.port
    → c.port ≤ 65535
    → is_empty (bare_hostname c.hostname) ≡ false
    → tunnels
        (some (pos c.inbound.tunnels))
        (some (pos c.inbound.hops))
        (some c.inbound.hop_variance)
      ≡ some (lt_tunnels c.inbound)
    → tunnels
        (some (pos c.outbound.tunnels))
        (some (pos c.outbound.hops))
        (some c.outbound.hop_variance)
      ≡ some (lt_tunnels c.outbound)
    → read_i2p (merge effective (stage (config_for c c.port) delta))
      ≡ ok (some (record c { hostname = bare_hostname c.hostname }))
unfolding read_i2p get_i2p stage
staged-read c delta effective positive bound filled inbound outbound =
    rw (filled, port_back c.port positive bound, inbound, outbound) refl

-- An I2P bridge that is taken is read back, with its host without brackets.
pub write_i2p-read :
    (defaults : SettingsPack) (c : I2pSettings) (delta d effective : SettingsPack)
    → c.port ≤ 65535
    → write_i2p defaults (value c) delta ≡ ok d
    → read_i2p (merge effective d) ≡ ok (some (record c { hostname = bare_hostname c.hostname }))
write_i2p-read defaults c delta d effective bound h =
    let (positive, token, inbound, outbound, staged) = write_i2p-accepted defaults c delta d h in
    subst
      (λ q.
        read_i2p (merge effective q) ≡ ok (some (record c { hostname = bare_hostname c.hostname })))
      (sym staged)
      (staged-read c delta effective positive bound
        (bare_host_token-filled "i2p" "SAM host" (bare_hostname c.hostname) token)
        (tunnels-read "inbound" (lt_tunnels c.inbound) inbound)
        (tunnels-read "outbound" (lt_tunnels c.outbound) outbound))
