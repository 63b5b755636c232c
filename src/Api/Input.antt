-- ===== src/Api/Input.antt =====
-- The helpers of rsbtd/src/api/settings/mod.rs: omitted, null and present inputs, the forms of the error
-- texts, and the narrowing of effective values.
use Prim.Native.String.{String}
use rsbtd.Base.{
  ℕ, ◌-◌, Bool, true, false, ◌&&◌, [], ◌∷◌, Option, none, some, leb, ltb, ◌==◌, if◌then◌else◌,
}
use rsbtd.Events.{Text}
use rsbtd.Settings.Int.{ℤ, pos, negsuc, try_u16, non_zero}
use rsbtd.Settings.Texts.{codes}
use rsbtd.Settings.Pack.{Result, ok, err, Message, ok_or}
use rsbtd.Settings.Pack

pub data SettingsError : Type 0 where
  null_value : Text → SettingsError
  missing : String → SettingsError
  not_a_setting : String → SettingsError
  rejected : Text → Message → SettingsError
  port_range : String → SettingsError
  out_of_range : String → SettingsError
  unrepresentable : String → SettingsError
  unparsable : String → SettingsError
  unrecognized_agent : SettingsError
  unused_username : SettingsError
  unused_password : SettingsError
  socks4_resolves : SettingsError
  local_endpoint_not_socks5 : SettingsError
  hostname_not_http : SettingsError
  no_method : SettingsError
  rc4_not_both : SettingsError

pub data MaybeUndefined (A : Type 0) : Type 0 where
  undefined : MaybeUndefined A
  null : MaybeUndefined A
  value : A → MaybeUndefined A

-- The upper case of an ASCII letter; the field names have no others.
abbrev upper_case : ℕ → ℕ
upper_case c = if leb b'a' c && leb c b'z' then c - 32 else c

abbrev camel_from : Bool → Text → Text
camel_from upper [] = []
camel_from upper (c ∷ s) =
    let capital = camel_from true s in
    let plain = camel_from false s in
    if c == b'_' then capital else if upper then upper_case c ∷ plain else c ∷ plain

-- The loop's flag is set behind an underscore.
unfoldable pub camel : String → Text
camel name = camel_from false (codes name)

unfoldable pub defined : {A : Type 0} → String → MaybeUndefined A → Result SettingsError (Option A)
defined field MaybeUndefined.undefined = ok none
defined field MaybeUndefined.null = err (null_value (camel field))
defined field (MaybeUndefined.value v) = ok (some v)

pub data Nullable (A : Type 0) : Type 0 where
  unchanged : Nullable A
  disable : Nullable A
  set : A → Nullable A

abbrev pub nullable : {A : Type 0} → MaybeUndefined A → Nullable A
nullable MaybeUndefined.undefined = unchanged
nullable MaybeUndefined.null = disable
nullable (MaybeUndefined.value v) = set v

unfoldable pub rb_err : String → Pack.SettingsError → SettingsError
rb_err field e = rejected (camel field) e.message

abbrev pub present : {A : Type 0} → String → Option A → Result SettingsError A
present name = ok_or (missing name)

-- `sat_u16` and `sat_u8`: clamped to the type.
abbrev saturate : ℕ → ℤ → ℕ
saturate bound (pos n) = if ltb bound n then bound else n
saturate bound (negsuc n) = 0

unfoldable pub sat_u16 : ℤ → ℕ
sat_u16 = saturate 65535

unfoldable pub sat_u8 : ℤ → ℕ
sat_u8 = saturate 255

-- `port_for` and `effective_port` of structured.rs.
abbrev pub port_for : String → ℕ → Result SettingsError ℕ
port_for place port = ok_or (port_range place) (non_zero port)

abbrev pub effective_port : String → ℤ → Result SettingsError ℕ
effective_port name v = ok_or (out_of_range name) (try_u16 v)
