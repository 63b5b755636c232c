-- ===== src/Settings/Pack.antt =====
-- `SettingsPack` of rbtorrent/src/settings/mod.rs and `SettingsError` of error.rs.
use rsbtd.Base.{ℕ, Bool, false, List, [], ◌∷◌, Option, none, some, ◌==◌, ◌/◌, ◌%◌, if◌then◌else◌}
use Prim.Native.String.{String}
use rsbtd.Events.{Text}
use rsbtd.Errors.{Done}
use rsbtd.Settings.Int.{ℤ, pos, within}

-- What a rejected value is told: the texts of the messages by their forms.
pub data Message : Type 0 where
  outside : ℤ → ℤ → ℤ → Message
  empty : String → Message
  delimiter : String → Message
  not_ipv6 : String → Message
  colon_unbracketed : String → Message
  not_bare : String → Message
  unbalanced_brackets : Message
  stray_brackets : Message
  socks4_userid : Message
  auth_username : Message
  auth_password : Message
  credentials_length : ℕ → Message
  tunnel_quantity : String → ℕ → Message
  tunnel_length : String → ℕ → Message
  tunnel_variance : String → ℤ → Message
  port_zero : Message
  empty_range : ℕ → ℕ → Message
  whole_peer_id : ℕ → Message

pub record SettingsError : Type 0 where
  pub setting : String
  pub message : Message

pub data Result (E A : Type 0) : Type 0 where
  ok : A → Result E A
  err : E → Result E A

-- `?`.
infixl 5 ◌>>=◌
abbrev pub ◌>>=◌ : {E A B : Type 0} → Result E A → (A → Result E B) → Result E B
ok a >>= f = f a
err e >>= f = err e

abbrev pub map_err : {E F A : Type 0} → (E → F) → Result E A → Result F A
map_err f (ok a) = ok a
map_err f (err e) = err (f e)

abbrev pub ok_or : {E A : Type 0} → E → Option A → Result E A
ok_or e none = err e
ok_or e (some a) = ok a

pub data SettingKind : Type 0 where
  str int flag : SettingKind

-- `SettingKey::kind`: the two top bits of the sixteen.
unfoldable pub kind : ℕ → Option SettingKind
kind key =
    let base = key / 0x4000 % 4 in
    if base == 0
    then some SettingKind.str
    else if base == 1
    then some SettingKind.int
    else if base == 2
    then some SettingKind.flag
    else none

pub record SettingsPack : Type 0 where
  pub strs : ℕ → Option Text
  pub ints : ℕ → Option ℤ
  pub bools : ℕ → Option Bool

abbrev pub new_pack : SettingsPack
new_pack = record { strs = λ k. none; ints = λ k. none; bools = λ k. none }

-- A map with one more value.
abbrev pub put : {A : Type 0} → ℕ → A → (ℕ → Option A) → ℕ → Option A
put key value m k = if k == key then some value else m k

abbrev pub set_str : ℕ → Text → SettingsPack → SettingsPack
set_str key value pack = record pack { strs = put key value pack.strs }

abbrev pub set_int : ℕ → ℤ → SettingsPack → SettingsPack
set_int key value pack = record pack { ints = put key value pack.ints }

abbrev pub set_bool : ℕ → Bool → SettingsPack → SettingsPack
set_bool key value pack = record pack { bools = put key value pack.bools }

abbrev pub get_str : ℕ → SettingsPack → Option Text
get_str key pack = pack.strs key

abbrev pub get_int : ℕ → SettingsPack → Option ℤ
get_int key pack = pack.ints key

abbrev pub get_bool : ℕ → SettingsPack → Option Bool
get_bool key pack = pack.bools key

-- The value of the delta, or the pack's own.
abbrev pub or_else : {A : Type 0} → Option A → Option A → Option A
or_else none own = own
or_else (some a) own = some a

-- `Option::and_then`.
infixl 5 ◌>>=?◌
abbrev pub ◌>>=?◌ : {A B : Type 0} → Option A → (A → Option B) → Option B
none >>=? f = none
some a >>=? f = f a

-- `SettingsPack::apply`.
abbrev pub merge : SettingsPack → SettingsPack → SettingsPack
merge pack delta = record {
  strs = λ k. or_else (delta.strs k) (pack.strs k);
  ints = λ k. or_else (delta.ints k) (pack.ints k);
  bools = λ k. or_else (delta.bools k) (pack.bools k);
}

abbrev unwrap_or : {A : Type 0} → A → Option A → A
unwrap_or d none = d
unwrap_or d (some a) = a

abbrev set_kind : Option SettingKind → SettingsPack → ℕ → SettingsPack → SettingsPack
set_kind (some SettingKind.str) defaults key pack =
    set_str key (unwrap_or [] (get_str key defaults)) pack
set_kind (some SettingKind.int) defaults key pack =
    set_int key (unwrap_or (pos 0) (get_int key defaults)) pack
set_kind (some SettingKind.flag) defaults key pack =
    set_bool key (unwrap_or false (get_bool key defaults)) pack
set_kind none defaults key pack = pack

-- `defaults` are libtorrent's own.
unfoldable pub set_default : SettingsPack → ℕ → SettingsPack → SettingsPack
set_default defaults key pack = set_kind (kind key) defaults key pack

unfoldable pub set_defaults : SettingsPack → List ℕ → SettingsPack → SettingsPack
set_defaults defaults [] pack = pack
set_defaults defaults (key ∷ keys) pack = set_defaults defaults keys (set_default defaults key pack)

abbrev pub fail : {A : Type 0} → String → Message → Result SettingsError A
fail setting message = err (record { setting = setting; message = message })

unfoldable pub in_range : String → ℤ → ℤ → ℤ → Result SettingsError Done
in_range setting lo hi value =
    if within lo hi value then ok tt else fail setting (outside value lo hi)

-- A setter that checks its range first.
unfoldable pub ranged : String → ℤ → ℤ → ℕ → ℤ → SettingsPack → Result SettingsError SettingsPack
ranged setting lo hi key value pack =
    in_range setting lo hi value >>= λ u. ok (set_int key value pack)
