-- ===== src/Api/Scalar.antt =====
-- The macros of rsbtd/src/api/settings/catalog.rs: one field of `scalar_settings!`, how it is read and how it
-- is written, and the two loops over the fields.
-- A field carries its name and rbtorrent's setter of that name; its Rust type is the constructor. The struct of
-- the values is a product along the list of fields, and so is the struct of the inputs.
pub mod Wiring
pub mod Kept
use Prim.Native.String.{String}
use rsbtd.Base.{ℕ, Bool, List, [], ◌∷◌, Option, none, some}
use rsbtd.Events.{Text}
use rsbtd.Settings.Int.{ℤ}
use rsbtd.Settings.Pack.{
  SettingsPack, SettingKind, Result, ok, err, map_err, ◌>>=◌, get_str, get_int, get_bool,
}
use rsbtd.Settings.Pack
use rsbtd.Settings.Table.{lt_setting}
use rsbtd.Settings.Connections.Interfaces.{get_peer_dscp}
use rsbtd.Api.Input.{SettingsError, MaybeUndefined, defined, present, rb_err, sat_u16, sat_u8}

abbrev Setter : Type 0 → Type 0
Setter A = A → SettingsPack → SettingsPack

abbrev Checked : Type 0 → Type 0
Checked A = A → SettingsPack → Result Pack.SettingsError SettingsPack

pub data Scalar : Type 0 where
  str_field : String → Setter Text → Scalar
  checked_str : String → Checked Text → Scalar
  int_field : String → Setter ℤ → Scalar
  checked_int : String → Checked ℤ → Scalar
  dscp_field : String → Checked ℤ → Scalar
  bool_field : String → Setter Bool → Scalar
  u16_field : String → Setter ℕ → Scalar
  u8_field : String → Setter ℕ → Scalar

abbrev pub name_of : Scalar → String
name_of (str_field name set) = name
name_of (checked_str name set) = name
name_of (int_field name set) = name
name_of (checked_int name set) = name
name_of (dscp_field name set) = name
name_of (bool_field name set) = name
name_of (u16_field name set) = name
name_of (u8_field name set) = name

-- The type of a field.
abbrev pub FieldType : Scalar → Type 0
FieldType (str_field name set) = Text
FieldType (checked_str name set) = Text
FieldType (int_field name set) = ℤ
FieldType (checked_int name set) = ℤ
FieldType (dscp_field name set) = ℤ
FieldType (bool_field name set) = Bool
FieldType (u16_field name set) = ℕ
FieldType (u8_field name set) = ℕ

-- The getter by name. A name that is not in the table is a panic of `lt_setting`, here the error
-- `not_a_setting`.
abbrev by_name :
    {A : Type 0}
    → String
    → (ℕ → SettingsPack → Option A)
    → Option (ℕ × SettingKind)
    → SettingsPack
    → Result SettingsError A
by_name name get none pack = err (SettingsError.not_a_setting name)
by_name name get (some (key, kind)) pack = present name (get key pack)

unfoldable pub get_str_by_name : String → SettingsPack → Result SettingsError Text
get_str_by_name name = by_name name get_str (lt_setting name)

unfoldable pub get_int_by_name : String → SettingsPack → Result SettingsError ℤ
get_int_by_name name = by_name name get_int (lt_setting name)

unfoldable pub get_bool_by_name : String → SettingsPack → Result SettingsError Bool
get_bool_by_name name = by_name name get_bool (lt_setting name)

unfoldable pub scalar_get : (f : Scalar) → SettingsPack → Result SettingsError (FieldType f)
scalar_get (str_field name set) pack = get_str_by_name name pack
scalar_get (checked_str name set) pack = get_str_by_name name pack
scalar_get (int_field name set) pack = get_int_by_name name pack
scalar_get (checked_int name set) pack = get_int_by_name name pack
scalar_get (dscp_field name set) pack = present name (get_peer_dscp pack)
scalar_get (bool_field name set) pack = get_bool_by_name name pack
scalar_get (u16_field name set) pack = get_int_by_name name pack >>= λ v. ok (sat_u16 v)
scalar_get (u8_field name set) pack = get_int_by_name name pack >>= λ v. ok (sat_u8 v)

unfoldable pub scalar_set :
    (f : Scalar) → FieldType f → SettingsPack → Result SettingsError SettingsPack
scalar_set (str_field name set) v delta = ok (set v delta)
scalar_set (checked_str name set) v delta = map_err (rb_err name) (set v delta)
scalar_set (int_field name set) v delta = ok (set v delta)
scalar_set (checked_int name set) v delta = map_err (rb_err name) (set v delta)
scalar_set (dscp_field name set) v delta = map_err (rb_err name) (set v delta)
scalar_set (bool_field name set) v delta = ok (set v delta)
scalar_set (u16_field name set) v delta = ok (set v delta)
scalar_set (u8_field name set) v delta = ok (set v delta)

-- `ScalarSettings` and `ScalarSettingsInput`.
abbrev pub ScalarSettings : List Scalar → Type 0
ScalarSettings [] = Unit
ScalarSettings (f ∷ fs) = FieldType f × ScalarSettings fs

abbrev pub ScalarSettingsInput : List Scalar → Type 0
ScalarSettingsInput [] = Unit
ScalarSettingsInput (f ∷ fs) = MaybeUndefined (FieldType f) × ScalarSettingsInput fs

unfoldable pub read_scalars :
    (fs : List Scalar) → SettingsPack → Result SettingsError (ScalarSettings fs)
read_scalars [] pack = ok tt
read_scalars (f ∷ fs) pack = do v ← scalar_get f pack; vs ← read_scalars fs pack; ok (v, vs)

-- `if let Some(value) = defined(..)? { scalar_set!(..) }`.
abbrev pub set_defined :
    (f : Scalar) → Option (FieldType f) → SettingsPack → Result SettingsError SettingsPack
set_defined f none delta = ok delta
set_defined f (some v) delta = scalar_set f v delta

unfoldable pub write_scalar :
    (f : Scalar) → MaybeUndefined (FieldType f) → SettingsPack → Result SettingsError SettingsPack
write_scalar f input delta = defined (name_of f) input >>= λ v. set_defined f v delta

unfoldable pub write_scalars :
    (fs : List Scalar) → ScalarSettingsInput fs → SettingsPack → Result SettingsError SettingsPack
write_scalars [] input delta = ok delta
write_scalars (f ∷ fs) (x, input) delta = do d ← write_scalar f x delta; write_scalars fs input d
