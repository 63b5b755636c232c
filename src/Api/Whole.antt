-- ===== src/Api/Whole.antt =====
-- `Settings`, `SettingsInput`, `read` and `write` of rsbtd/src/api/settings/mod.rs.
-- A delta that a failed write leaves behind is discarded by the caller, so the result is the new delta or the error.
pub mod RoundTrip
pub mod Backing
pub mod Guarded
pub mod Reach
use rsbtd.Base.{List, Option}
use rsbtd.Events.{Text}
use rsbtd.Settings.Pack.{SettingsPack, Result, ok, ◌>>=◌}
use rsbtd.Api.Input.{SettingsError, MaybeUndefined}
use rsbtd.Api.Scalar.{ScalarSettings, ScalarSettingsInput, read_scalars, write_scalars}
use rsbtd.Api.Catalog.{catalog}
use rsbtd.Api.Agent.{UserAgent, read_user_agent, write_user_agent}
use rsbtd.Api.Proxy.{ProxySettings, read_proxy, write_proxy}
use rsbtd.Api.I2p.{I2pSettings, read_i2p, write_i2p}
use rsbtd.Api.Encryption.{EncryptionSettings, read_encryption, write_encryption}
use rsbtd.Api.Transports.{
  PeerTransports, read_peer_transports, write_peer_transports, PortRange, read_outgoing_port_range,
  write_outgoing_port_range,
}
use rsbtd.Api.Modes.{
  DiskIoCache, read_disk_io_cache, write_disk_io_cache, MmapWriteMode, read_mmap_write_mode,
  write_mmap_write_mode, SuggestMode, read_suggest_mode, write_suggest_mode, ChokingAlgorithm,
  read_choking_algorithm, write_choking_algorithm, SeedChokingAlgorithm,
  read_seed_choking_algorithm, write_seed_choking_algorithm, MixedModeAlgorithm,
  read_mixed_mode_algorithm, write_mixed_mode_algorithm,
}
use rsbtd.Api.Lists.{
  read_outgoing_interfaces, write_outgoing_interfaces, ListenInterface, read_listen_interfaces,
  write_listen_interfaces, HostPort, read_dht_bootstrap_nodes, write_dht_bootstrap_nodes,
}

pub record Settings : Type 0 where
  pub scalars : ScalarSettings catalog
  pub user_agent : UserAgent
  pub proxy : Option ProxySettings
  pub i2p : Option I2pSettings
  pub encryption : EncryptionSettings
  pub peer_transports : PeerTransports
  pub outgoing_port_range : Option PortRange
  pub disk_io_cache : DiskIoCache
  pub mmap_write_mode : MmapWriteMode
  pub suggest_mode : SuggestMode
  pub choking_algorithm : ChokingAlgorithm
  pub seed_choking_algorithm : SeedChokingAlgorithm
  pub mixed_mode_algorithm : MixedModeAlgorithm
  pub outgoing_interfaces : List Text
  pub listen_interfaces : List ListenInterface
  pub dht_bootstrap_nodes : List HostPort

pub record SettingsInput : Type 0 where
  pub scalars : ScalarSettingsInput catalog
  pub user_agent : MaybeUndefined UserAgent
  pub proxy : MaybeUndefined ProxySettings
  pub i2p : MaybeUndefined I2pSettings
  pub encryption : MaybeUndefined EncryptionSettings
  pub peer_transports : MaybeUndefined PeerTransports
  pub outgoing_port_range : MaybeUndefined PortRange
  pub disk_io_cache : MaybeUndefined DiskIoCache
  pub mmap_write_mode : MaybeUndefined MmapWriteMode
  pub suggest_mode : MaybeUndefined SuggestMode
  pub choking_algorithm : MaybeUndefined ChokingAlgorithm
  pub seed_choking_algorithm : MaybeUndefined SeedChokingAlgorithm
  pub mixed_mode_algorithm : MaybeUndefined MixedModeAlgorithm
  pub outgoing_interfaces : MaybeUndefined (List Text)
  pub listen_interfaces : MaybeUndefined (List ListenInterface)
  pub dht_bootstrap_nodes : MaybeUndefined (List HostPort)

unfoldable pub read : SettingsPack → Result SettingsError Settings
read effective = do
  scalars ← read_scalars catalog effective
  user_agent ← read_user_agent effective
  proxy ← read_proxy effective
  i2p ← read_i2p effective
  encryption ← read_encryption effective
  peer_transports ← read_peer_transports effective
  outgoing_port_range ← read_outgoing_port_range effective
  disk_io_cache ← read_disk_io_cache effective
  mmap_write_mode ← read_mmap_write_mode effective
  suggest_mode ← read_suggest_mode effective
  choking_algorithm ← read_choking_algorithm effective
  seed_choking_algorithm ← read_seed_choking_algorithm effective
  mixed_mode_algorithm ← read_mixed_mode_algorithm effective
  outgoing_interfaces ← read_outgoing_interfaces effective
  listen_interfaces ← read_listen_interfaces effective
  dht_bootstrap_nodes ← read_dht_bootstrap_nodes effective
  ok (record {
    scalars = scalars;
    user_agent = user_agent;
    proxy = proxy;
    i2p = i2p;
    encryption = encryption;
    peer_transports = peer_transports;
    outgoing_port_range = outgoing_port_range;
    disk_io_cache = disk_io_cache;
    mmap_write_mode = mmap_write_mode;
    suggest_mode = suggest_mode;
    choking_algorithm = choking_algorithm;
    seed_choking_algorithm = seed_choking_algorithm;
    mixed_mode_algorithm = mixed_mode_algorithm;
    outgoing_interfaces = outgoing_interfaces;
    listen_interfaces = listen_interfaces;
    dht_bootstrap_nodes = dht_bootstrap_nodes;
  })

-- The versions are the build's; `defaults` are libtorrent's.
unfoldable pub write :
    Text → Text → SettingsPack → SettingsPack → SettingsInput → Result SettingsError SettingsPack
write libtorrent_version package_version defaults delta input = do
  delta ← write_scalars catalog input.scalars delta
  delta ← write_user_agent libtorrent_version package_version input.user_agent delta
  delta ← write_proxy defaults input.proxy delta
  delta ← write_i2p defaults input.i2p delta
  delta ← write_encryption input.encryption delta
  delta ← write_peer_transports input.peer_transports delta
  delta ← write_outgoing_port_range input.outgoing_port_range delta
  delta ← write_disk_io_cache input.disk_io_cache delta
  delta ← write_mmap_write_mode input.mmap_write_mode delta
  delta ← write_suggest_mode input.suggest_mode delta
  delta ← write_choking_algorithm input.choking_algorithm delta
  delta ← write_seed_choking_algorithm input.seed_choking_algorithm delta
  delta ← write_mixed_mode_algorithm input.mixed_mode_algorithm delta
  delta ← write_outgoing_interfaces input.outgoing_interfaces delta
  delta ← write_listen_interfaces input.listen_interfaces delta
  delta ← write_dht_bootstrap_nodes input.dht_bootstrap_nodes delta
  ok delta
