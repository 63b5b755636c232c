-- ===== src/Api/Whole/Guarded.antt =====
-- The settings that the interface must not reach.
use rsbtd.Base.{◌≡◌, refl, true, none}
use rsbtd.Events.{Text}
use rsbtd.Settings.Pack.{SettingsPack, ok}
use rsbtd.Settings.Table.{lt_setting}
use rsbtd.Api.Proxy.{read_proxy}
use rsbtd.Api.I2p.{read_i2p}
use rsbtd.Api.Groups.{SameOn, write_groups, disjoint_all}
use rsbtd.Api.Groups.Frame.{writes-SameOn}
use rsbtd.Api.Whole.{SettingsInput, write}
use rsbtd.Api.Whole.RoundTrip.{groups, inputs_of, groups-Lawful}
use rsbtd.Api.Whole.Backing.{blacklist, keys_named}

module _ (libtorrent_version package_version : Text) (defaults : SettingsPack) where
  blacklist-disjoint :
      disjoint_all (keys_named blacklist) (groups libtorrent_version package_version defaults)
      ≡ true
  unfolding lt_setting
  blacklist-disjoint = refl

  -- A write that succeeds stages nothing for a blacklisted setting: the delta holds for each of
  -- them what it held before. It is assumed that the defaults of libtorrent set no proxy and no
  -- I2P bridge.
  pub write-blacklist :
      (input : SettingsInput) (delta d : SettingsPack)
      → read_proxy defaults ≡ ok none
      → read_i2p defaults ≡ ok none
      → write libtorrent_version package_version defaults delta input ≡ ok d
      → SameOn (keys_named blacklist) delta d
  unfolding write write_groups
  write-blacklist input delta d no_proxy no_i2p h =
      writes-SameOn (groups libtorrent_version package_version defaults)
        (groups-Lawful libtorrent_version package_version defaults no_proxy no_i2p)
        (inputs_of libtorrent_version package_version defaults input) delta d (keys_named blacklist)
        blacklist-disjoint h
