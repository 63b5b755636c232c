-- ===== src/Api/Modes.antt =====
-- The settings of rsbtd/src/api/settings/structured.rs that are one of a few modes.
use rsbtd.Base.{Option, none, some}
use rsbtd.Settings.Enums
use rsbtd.Settings.Enums.{IoBufferMode, BandwidthMixedAlgo}
use rsbtd.Settings.Pack.{SettingsPack, Result, ok, ◌>>=◌}
use rsbtd.Settings.Storage
use rsbtd.Settings.Bandwidth
use rsbtd.Api.Input.{SettingsError, MaybeUndefined, defined, present}

pub data IoReadMode : Type 0 where
  enable_os_cache disable_os_cache : IoReadMode

abbrev pub read_mode_to_lt : IoReadMode → IoBufferMode
read_mode_to_lt IoReadMode.enable_os_cache = IoBufferMode.enable_os_cache
read_mode_to_lt IoReadMode.disable_os_cache = IoBufferMode.disable_os_cache

abbrev pub read_mode_from_lt : IoBufferMode → IoReadMode
read_mode_from_lt IoBufferMode.enable_os_cache = IoReadMode.enable_os_cache
read_mode_from_lt IoBufferMode.disable_os_cache = IoReadMode.disable_os_cache
read_mode_from_lt IoBufferMode.write_through = IoReadMode.enable_os_cache

pub data IoWriteMode : Type 0 where
  enable_os_cache disable_os_cache write_through : IoWriteMode

abbrev pub write_mode_to_lt : IoWriteMode → IoBufferMode
write_mode_to_lt IoWriteMode.enable_os_cache = IoBufferMode.enable_os_cache
write_mode_to_lt IoWriteMode.disable_os_cache = IoBufferMode.disable_os_cache
write_mode_to_lt IoWriteMode.write_through = IoBufferMode.write_through

abbrev pub write_mode_from_lt : IoBufferMode → IoWriteMode
write_mode_from_lt IoBufferMode.enable_os_cache = IoWriteMode.enable_os_cache
write_mode_from_lt IoBufferMode.disable_os_cache = IoWriteMode.disable_os_cache
write_mode_from_lt IoBufferMode.write_through = IoWriteMode.write_through

pub record DiskIoCache : Type 0 where
  pub reading : IoReadMode
  pub writing : IoWriteMode

unfoldable pub read_disk_io_cache : SettingsPack → Result SettingsError DiskIoCache
read_disk_io_cache pack = do
  r ← present "disk_io_cache" (Storage.get_disk_io_read_mode pack)
  w ← present "disk_io_cache" (Storage.get_disk_io_write_mode pack)
  ok (record { reading = read_mode_from_lt r; writing = write_mode_from_lt w })

abbrev write_cache : Option DiskIoCache → SettingsPack → SettingsPack
write_cache none delta = delta
write_cache (some c) delta =
    Storage.disk_io_write_mode (write_mode_to_lt c.writing)
      (Storage.disk_io_read_mode (read_mode_to_lt c.reading) delta)

unfoldable pub write_disk_io_cache :
    MaybeUndefined DiskIoCache → SettingsPack → Result SettingsError SettingsPack
write_disk_io_cache input delta = do c ← defined "disk_io_cache" input; ok (write_cache c delta)

-- A setter called with the value, if there is one.
abbrev pub write_mode :
    {A : Type 0} → (A → SettingsPack → SettingsPack) → Option A → SettingsPack → SettingsPack
write_mode setter none delta = delta
write_mode setter (some a) delta = setter a delta

pub data MmapWriteMode : Type 0 where
  always_pwrite always_mmap_write auto_mmap_write : MmapWriteMode

abbrev pub mmap_to_lt : MmapWriteMode → Enums.MmapWriteMode
mmap_to_lt MmapWriteMode.always_pwrite = Enums.MmapWriteMode.always_pwrite
mmap_to_lt MmapWriteMode.always_mmap_write = Enums.MmapWriteMode.always_mmap_write
mmap_to_lt MmapWriteMode.auto_mmap_write = Enums.MmapWriteMode.auto_mmap_write

abbrev pub mmap_from_lt : Enums.MmapWriteMode → MmapWriteMode
mmap_from_lt Enums.MmapWriteMode.always_pwrite = MmapWriteMode.always_pwrite
mmap_from_lt Enums.MmapWriteMode.always_mmap_write = MmapWriteMode.always_mmap_write
mmap_from_lt Enums.MmapWriteMode.auto_mmap_write = MmapWriteMode.auto_mmap_write

unfoldable pub read_mmap_write_mode : SettingsPack → Result SettingsError MmapWriteMode
read_mmap_write_mode pack = do
  m ← present "mmap_write_mode" (Storage.get_disk_write_mode pack)
  ok (mmap_from_lt m)

unfoldable pub write_mmap_write_mode :
    MaybeUndefined MmapWriteMode → SettingsPack → Result SettingsError SettingsPack
write_mmap_write_mode input delta = do
  m ← defined "mmap_write_mode" input
  ok (write_mode (λ a. Storage.disk_write_mode (mmap_to_lt a)) m delta)

pub data SuggestMode : Type 0 where
  no_suggestions read_cache : SuggestMode

abbrev pub suggest_to_lt : SuggestMode → Enums.SuggestMode
suggest_to_lt SuggestMode.no_suggestions = Enums.SuggestMode.no_piece_suggestions
suggest_to_lt SuggestMode.read_cache = Enums.SuggestMode.suggest_read_cache

abbrev pub suggest_from_lt : Enums.SuggestMode → SuggestMode
suggest_from_lt Enums.SuggestMode.no_piece_suggestions = SuggestMode.no_suggestions
suggest_from_lt Enums.SuggestMode.suggest_read_cache = SuggestMode.read_cache

unfoldable pub read_suggest_mode : SettingsPack → Result SettingsError SuggestMode
read_suggest_mode pack = do
  m ← present "suggest_mode" (Storage.get_suggest_mode pack)
  ok (suggest_from_lt m)

unfoldable pub write_suggest_mode :
    MaybeUndefined SuggestMode → SettingsPack → Result SettingsError SettingsPack
write_suggest_mode input delta = do
  m ← defined "suggest_mode" input
  ok (write_mode (λ a. Storage.suggest_mode (suggest_to_lt a)) m delta)

pub data ChokingAlgorithm : Type 0 where
  fixed_slots rate_based : ChokingAlgorithm

abbrev pub choking_to_lt : ChokingAlgorithm → Enums.ChokingAlgorithm
choking_to_lt ChokingAlgorithm.fixed_slots = Enums.ChokingAlgorithm.fixed_slots_choker
choking_to_lt ChokingAlgorithm.rate_based = Enums.ChokingAlgorithm.rate_based_choker

abbrev pub choking_from_lt : Enums.ChokingAlgorithm → ChokingAlgorithm
choking_from_lt Enums.ChokingAlgorithm.fixed_slots_choker = ChokingAlgorithm.fixed_slots
choking_from_lt Enums.ChokingAlgorithm.rate_based_choker = ChokingAlgorithm.rate_based

unfoldable pub read_choking_algorithm : SettingsPack → Result SettingsError ChokingAlgorithm
read_choking_algorithm pack = do
  m ← present "choking_algorithm" (Bandwidth.get_choking_algorithm pack)
  ok (choking_from_lt m)

unfoldable pub write_choking_algorithm :
    MaybeUndefined ChokingAlgorithm → SettingsPack → Result SettingsError SettingsPack
write_choking_algorithm input delta = do
  m ← defined "choking_algorithm" input
  ok (write_mode (λ a. Bandwidth.choking_algorithm (choking_to_lt a)) m delta)

pub data SeedChokingAlgorithm : Type 0 where
  round_robin fastest_upload anti_leech : SeedChokingAlgorithm

abbrev pub seed_choking_to_lt : SeedChokingAlgorithm → Enums.SeedChokingAlgorithm
seed_choking_to_lt SeedChokingAlgorithm.round_robin = Enums.SeedChokingAlgorithm.round_robin
seed_choking_to_lt SeedChokingAlgorithm.fastest_upload = Enums.SeedChokingAlgorithm.fastest_upload
seed_choking_to_lt SeedChokingAlgorithm.anti_leech = Enums.SeedChokingAlgorithm.anti_leech

abbrev pub seed_choking_from_lt : Enums.SeedChokingAlgorithm → SeedChokingAlgorithm
seed_choking_from_lt Enums.SeedChokingAlgorithm.round_robin = SeedChokingAlgorithm.round_robin
seed_choking_from_lt Enums.SeedChokingAlgorithm.fastest_upload = SeedChokingAlgorithm.fastest_upload
seed_choking_from_lt Enums.SeedChokingAlgorithm.anti_leech = SeedChokingAlgorithm.anti_leech

unfoldable pub read_seed_choking_algorithm :
    SettingsPack → Result SettingsError SeedChokingAlgorithm
read_seed_choking_algorithm pack = do
  m ← present "seed_choking_algorithm" (Bandwidth.get_seed_choking_algorithm pack)
  ok (seed_choking_from_lt m)

unfoldable pub write_seed_choking_algorithm :
    MaybeUndefined SeedChokingAlgorithm → SettingsPack → Result SettingsError SettingsPack
write_seed_choking_algorithm input delta = do
  m ← defined "seed_choking_algorithm" input
  ok (write_mode (λ a. Bandwidth.seed_choking_algorithm (seed_choking_to_lt a)) m delta)

pub data MixedModeAlgorithm : Type 0 where
  prefer_tcp peer_proportional : MixedModeAlgorithm

abbrev pub mixed_to_lt : MixedModeAlgorithm → BandwidthMixedAlgo
mixed_to_lt MixedModeAlgorithm.prefer_tcp = BandwidthMixedAlgo.prefer_tcp
mixed_to_lt MixedModeAlgorithm.peer_proportional = BandwidthMixedAlgo.peer_proportional

abbrev pub mixed_from_lt : BandwidthMixedAlgo → MixedModeAlgorithm
mixed_from_lt BandwidthMixedAlgo.prefer_tcp = MixedModeAlgorithm.prefer_tcp
mixed_from_lt BandwidthMixedAlgo.peer_proportional = MixedModeAlgorithm.peer_proportional

unfoldable pub read_mixed_mode_algorithm : SettingsPack → Result SettingsError MixedModeAlgorithm
read_mixed_mode_algorithm pack = do
  m ← present "mixed_mode_algorithm" (Bandwidth.get_mixed_mode_algorithm pack)
  ok (mixed_from_lt m)

unfoldable pub write_mixed_mode_algorithm :
    MaybeUndefined MixedModeAlgorithm → SettingsPack → Result SettingsError SettingsPack
write_mixed_mode_algorithm input delta = do
  m ← defined "mixed_mode_algorithm" input
  ok (write_mode (λ a. Bandwidth.mixed_mode_algorithm (mixed_to_lt a)) m delta)
