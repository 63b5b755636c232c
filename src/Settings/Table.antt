-- ===== src/Settings/Table.antt =====
-- `ALL_SETTINGS` of rbtorrent/src/settings/table.rs, and `lt_setting` of rsbtd/src/api/settings/mod.rs.
pub mod Keys
pub mod Strings
pub mod Flags
pub mod Ints
use Prim.Native.String.{String}
use text.Mathlib.Text.{◌==◌}
use rsbtd.Base.{ℕ, ◌≡◌, refl, List, [], ◌∷◌, ◌++◌, Option, none, some, if◌then◌else◌}
use rsbtd.Settings.Pack.{SettingKind}
use rsbtd.Settings.Table.Strings.{string_settings}
use rsbtd.Settings.Table.Flags.{flag_settings, more_flag_settings, last_flag_settings}
use rsbtd.Settings.Table.Ints.{
  request_settings, queue_settings, rate_settings, utp_settings, service_settings,
}

abbrev pub all_settings : List (ℕ × String × SettingKind)
all_settings =
    string_settings ++ flag_settings ++ more_flag_settings ++ last_flag_settings ++ request_settings
    ++ queue_settings ++ rate_settings ++ utp_settings ++ service_settings

-- The entry under the name; `none` is the panic of a name that is no setting.
abbrev pub find_setting : List (ℕ × String × SettingKind) → String → Option (ℕ × SettingKind)
find_setting [] name = none
find_setting ((key, n, kind) ∷ table) name =
    let rest = find_setting table name in if n == name then some (key, kind) else rest

unfoldable pub lt_setting : String → Option (ℕ × SettingKind)
lt_setting name = find_setting all_settings name

lt_setting-last : lt_setting "natpmp_lease_duration" ≡ some (16544, SettingKind.int)
unfolding lt_setting
lt_setting-last = refl
