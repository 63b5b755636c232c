-- ===== src/Settings/Tokens.antt =====
-- rbtorrent/src/settings/tokens.rs: which tokens the comma-delimited settings take.
use Prim.Native.String.{String}
use rsbtd.Base.{Bool, ◌&&◌, ◌||◌, not, Option, none, some, if◌then◌else◌}
use rsbtd.Events.{Text}
use rsbtd.Errors.{Done}
use rsbtd.Settings.Texts.{is_empty, any, contains, is_whitespace, strip_prefix, strip_suffix}
use rsbtd.Settings.Texts.Split.{before}
use rsbtd.Settings.Ipv6.{is_ipv6}
use rsbtd.Settings.Pack.{
  Result, ok, SettingsError, fail, empty, delimiter, not_ipv6, colon_unbracketed, not_bare, ◌>>=?◌,
}

-- The scope behind a `%` is not looked at.
unfoldable pub ipv6_literal : Text → Bool
ipv6_literal s = is_ipv6 (before b'%' s)

unfoldable pub bracketed : Text → Option Text
bracketed s = strip_prefix b'[' s >>=? strip_suffix b']'

abbrev pub has_delimiter : Text → Bool
has_delimiter s = contains b',' s || any is_whitespace s

abbrev pub address_shape : String → String → Text → Option Text → Result SettingsError Done
address_shape setting field s (some inner) =
    if not (ipv6_literal inner) then fail setting (not_ipv6 field) else ok tt
address_shape setting field s none =
    if contains b':' s then fail setting (colon_unbracketed field) else ok tt

unfoldable pub host_token : String → String → Text → Result SettingsError Done
host_token setting field s =
    if is_empty s
    then fail setting (empty field)
    else if has_delimiter s
    then fail setting (delimiter field)
    else address_shape setting field s (bracketed s)

unfoldable pub bare_host_token : String → String → Text → Result SettingsError Done
bare_host_token setting field s =
    if is_empty s
    then fail setting (empty field)
    else if has_delimiter s
    then fail setting (delimiter field)
    else if contains b':' s && not (ipv6_literal s)
    then fail setting (not_bare field)
    else ok tt
