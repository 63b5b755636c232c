-- ===== src/Settings/Connections/Interfaces.antt =====
-- The settings of rbtorrent/src/settings/connections.rs that hold several values in one text: the interfaces
-- to bind and to listen on, with the peer fingerprint and the DSCP code point, which are recoded or checked.
use rsbtd.Base.{
  ℕ, ◌+◌, ◌-◌, ◌*◌, ◌/◌, ◌%◌, Bool, ◌||◌, List, [], ◌∷◌, ◌++◌, Option, some, leb, ◌==◌,
  if◌then◌else◌,
}
use rsbtd.Events.{Text}
use rsbtd.Errors.{Done}
use rsbtd.Settings.Int.{ℤ, pos, negsuc}
use rsbtd.Settings.Texts.{is_empty, byte_len, contains}
use rsbtd.Settings.Texts.Split.{split, join, rsplit_once, trim_end, behind}
use rsbtd.Settings.Texts.Decimal.{format, parse_u16}
use rsbtd.Settings.Tokens.{host_token, bare_host_token}
use rsbtd.Settings.Pack.{
  SettingsPack, SettingsError, Result, ok, fail, set_str, set_int, get_int, in_range, ◌>>=◌, ◌>>=?◌,
  whole_peer_id,
}
use rsbtd.Settings.Connections.{get_listen_interfaces}
use rsbtd.Settings.Connections.Keys.{
  ct_set_outgoing_interfaces, ct_set_listen_interfaces, ct_set_peer_fingerprint, ct_set_peer_dscp,
}

-- Each entry is checked, in order.
unfoldable pub check_entries : List Text → Result SettingsError Done
check_entries [] = ok tt
check_entries (entry ∷ entries) = do
  u ← bare_host_token "outgoing_interfaces" "entry" entry
  check_entries entries

unfoldable pub outgoing_interfaces : List Text → SettingsPack → Result SettingsError SettingsPack
outgoing_interfaces entries pack = do
  u ← check_entries entries
  ok (set_str ct_set_outgoing_interfaces (join b',' entries) pack)

pub record ListenEndpoint : Type 0 where
  pub addr : Text
  pub port : ℕ
  pub ssl : Bool
  pub local : Bool

-- `ListenEndpoint::new`.
abbrev pub new_endpoint : Text → ℕ → ListenEndpoint
new_endpoint addr port = record { addr = addr; port = port; ssl = Bool.false; local = Bool.false }

abbrev pub flags_of : ListenEndpoint → Text
flags_of e = (if e.ssl then b's' ∷ [] else []) ++ (if e.local then b'l' ∷ [] else [])

unfoldable pub endpoint_text : ListenEndpoint → Text
endpoint_text e = e.addr ++ b':' ∷ (format e.port ++ flags_of e)

unfoldable pub endpoint_texts : List ListenEndpoint → Result SettingsError (List Text)
endpoint_texts [] = ok []
endpoint_texts (e ∷ es) = do
  u ← host_token "listen_interfaces" "address" e.addr
  parts ← endpoint_texts es
  ok (endpoint_text e ∷ parts)

unfoldable pub listen_interfaces :
    List ListenEndpoint → SettingsPack → Result SettingsError SettingsPack
listen_interfaces endpoints pack = do
  parts ← endpoint_texts endpoints
  ok (set_str ct_set_listen_interfaces (join b',' parts) pack)

abbrev pub is_flag : ℕ → Bool
is_flag c = c == b's' || c == b'l'

abbrev pub endpoint_from : Text × Text → Option ListenEndpoint
endpoint_from (addr, rest) =
    let port_str = trim_end is_flag rest in
    let flags = behind port_str rest in
    parse_u16 port_str >>=? λ port.
    some
      (record { addr = addr; port = port; ssl = contains b's' flags; local = contains b'l' flags })

unfoldable pub parse_endpoint : Text → Option ListenEndpoint
parse_endpoint entry = rsplit_once b':' entry >>=? endpoint_from

-- A loop over the entries that are not empty; it stops at the first one that does not parse.
unfoldable pub parse_entries : {A : Type 0} → (Text → Option A) → List Text → Option (List A)
parse_entries parse [] = some []
parse_entries parse (entry ∷ entries) =
    let rest = parse_entries parse entries in
    if is_empty entry then rest else parse entry >>=? λ e. rest >>=? λ es. some (e ∷ es)

unfoldable pub get_listen_interfaces_parsed : SettingsPack → Option (List ListenEndpoint)
get_listen_interfaces_parsed pack =
    get_listen_interfaces pack >>=? λ raw. parse_entries parse_endpoint (split b',' raw)

unfoldable pub peer_fingerprint : Text → SettingsPack → Result SettingsError SettingsPack
peer_fingerprint value pack =
    if leb 20 (byte_len value)
    then fail "peer_fingerprint" (whole_peer_id (byte_len value))
    else ok (set_str ct_set_peer_fingerprint value pack)

-- `<< 2`, and `(raw & 0xfc) >> 2` on two's complement.
abbrev pub shift_left : ℤ → ℤ
shift_left (pos n) = pos (4 * n)
shift_left (negsuc n) = negsuc (4 * n + 3)

abbrev pub code_point : ℤ → ℤ
code_point (pos n) = pos (n / 4 % 64)
code_point (negsuc n) = pos (63 - n / 4 % 64)

unfoldable pub peer_dscp : ℤ → SettingsPack → Result SettingsError SettingsPack
peer_dscp value pack = do
  u ← in_range "peer_dscp" (pos 0) (pos 63) value
  ok (set_int ct_set_peer_dscp (shift_left value) pack)

unfoldable pub get_peer_dscp : SettingsPack → Option ℤ
get_peer_dscp pack = get_int ct_set_peer_dscp pack >>=? λ raw. some (code_point raw)
