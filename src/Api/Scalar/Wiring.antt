-- ===== src/Api/Scalar/Wiring.antt =====
-- The wiring of a field: its name stands for a key of its kind, and its setter stages that key.
use Prim.Native.String.{String}
use rsbtd.Base.{ℕ, ◌≡◌, arith, some}
use rsbtd.Events.{Text}
use rsbtd.Settings.Int.{ℤ, pos}
use rsbtd.Settings.Pack.{
  SettingsPack, SettingKind, SettingsError, Result, ok, set_str, set_int, set_bool, ranged,
  in_range,
}
use rsbtd.Settings.Table.{lt_setting}
use rsbtd.Settings.Connections.Keys.{ct_set_peer_fingerprint, ct_set_peer_dscp}
use rsbtd.Settings.Connections.Interfaces.{peer_fingerprint, peer_dscp, shift_left, code_point}
use rsbtd.Api.Scalar.{Scalar}

-- A setter that may refuse stages the key or nothing.
abbrev pub Puts :
    {A : Type 0}
    → (A → SettingsPack → SettingsPack)
    → (A → SettingsPack → Result SettingsError SettingsPack)
    → Type 0
Puts {A} put set = (v : A) (p d : SettingsPack) → set v p ≡ ok d → d ≡ put v p

abbrev pub Wired : Scalar → Type 0
Wired (Scalar.str_field name set) =
    (key : ℕ) × (lt_setting name ≡ some (key, SettingKind.str))
    × ((v : Text) (p : SettingsPack) → set v p ≡ set_str key v p)
Wired (Scalar.checked_str name set) =
    (key : ℕ) × (lt_setting name ≡ some (key, SettingKind.str)) × Puts (set_str key) set
Wired (Scalar.int_field name set) =
    (key : ℕ) × (lt_setting name ≡ some (key, SettingKind.int))
    × ((v : ℤ) (p : SettingsPack) → set v p ≡ set_int key v p)
Wired (Scalar.checked_int name set) =
    (key : ℕ) × (lt_setting name ≡ some (key, SettingKind.int)) × Puts (set_int key) set
Wired (Scalar.dscp_field name set) =
    (key : ℕ) × (lt_setting name ≡ some (key, SettingKind.int))
    × ((v : ℤ) (p d : SettingsPack)
        → set v p ≡ ok d
        → (d ≡ set_int key (shift_left v) p) × (code_point (shift_left v) ≡ v))
    × (key ≡ ct_set_peer_dscp)
Wired (Scalar.bool_field name set) =
    (key : ℕ) × (lt_setting name ≡ some (key, SettingKind.flag))
    × ((v : _) (p : SettingsPack) → set v p ≡ set_bool key v p)
Wired (Scalar.u16_field name set) =
    (key : ℕ) × (lt_setting name ≡ some (key, SettingKind.int))
    × ((v : ℕ) (p : SettingsPack) → set v p ≡ set_int key (pos v) p)
Wired (Scalar.u8_field name set) =
    (key : ℕ) × (lt_setting name ≡ some (key, SettingKind.int))
    × ((v : ℕ) (p : SettingsPack) → set v p ≡ set_int key (pos v) p)

pub ranged-put :
    (setting : String) (lo hi : ℤ) (key : ℕ) → Puts (set_int key) (ranged setting lo hi key)
unfolding ranged in_range
ranged-put setting lo hi key v p d h = ground (arith, h)

pub peer_fingerprint-put : Puts (set_str ct_set_peer_fingerprint) peer_fingerprint
unfolding peer_fingerprint
peer_fingerprint-put v p d h = ground (arith, h)

pub peer_dscp-put :
    (v : ℤ) (p d : SettingsPack)
    → peer_dscp v p ≡ ok d
    → (d ≡ set_int ct_set_peer_dscp (shift_left v) p) × (code_point (shift_left v) ≡ v)
unfolding peer_dscp in_range
peer_dscp-put v p d h = (ground (arith, h), ground (arith, h))
