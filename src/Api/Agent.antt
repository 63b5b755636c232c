-- ===== src/Api/Agent.antt =====
-- `read_user_agent` and `write_user_agent` of rsbtd/src/api/settings/structured.rs. The versions of
-- libtorrent and of the daemon are known when it is built.
use rsbtd.Base.{Option, none, some, ◌++◌, [], if◌then◌else◌}
use rsbtd.Events.{Text}
use rsbtd.Settings.Texts.{codes, is_empty, starts_with}
use rsbtd.Settings.Pack.{SettingsPack, Result, ok, err, ◌>>=◌}
use rsbtd.Settings.Tracker.{user_agent, get_user_agent}
use rsbtd.Api.Input.{SettingsError, MaybeUndefined, defined, present, unrecognized_agent}

pub data UserAgent : Type 0 where
  no_agent libtorrent rsbtd_agent qbittorrent unrecognized : UserAgent

abbrev pub qbittorrent_compat_version : Text
qbittorrent_compat_version = codes "5.2.3"

-- By prefix, so that a version does not matter.
unfoldable pub recognize : Text → UserAgent
recognize raw =
    if is_empty raw
    then no_agent
    else if starts_with (codes "libtorrent/") raw
    then libtorrent
    else if starts_with (codes "rsbtd/") raw
    then rsbtd_agent
    else if starts_with (codes "qBittorrent/") raw
    then qbittorrent
    else unrecognized

unfoldable pub read_user_agent : SettingsPack → Result SettingsError UserAgent
read_user_agent pack = do raw ← present "user_agent" (get_user_agent pack); ok (recognize raw)

module _ (libtorrent_version package_version : Text) where
  abbrev pub agent_text : UserAgent → Result SettingsError Text
  agent_text no_agent = ok []
  agent_text libtorrent = ok (codes "libtorrent/" ++ libtorrent_version)
  agent_text rsbtd_agent = ok (codes "rsbtd/" ++ package_version)
  agent_text qbittorrent = ok (codes "qBittorrent/" ++ qbittorrent_compat_version)
  agent_text unrecognized = err unrecognized_agent

  abbrev write_choice : Option UserAgent → SettingsPack → Result SettingsError SettingsPack
  write_choice none delta = ok delta
  write_choice (some choice) delta = do text ← agent_text choice; ok (user_agent text delta)

  unfoldable pub write_user_agent :
      MaybeUndefined UserAgent → SettingsPack → Result SettingsError SettingsPack
  write_user_agent input delta = do choice ← defined "user_agent" input; write_choice choice delta
