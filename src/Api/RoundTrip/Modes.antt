-- ===== src/Api/RoundTrip/Modes.antt =====
-- The groups without texts.
use rsbtd.Base.{◌≡◌, arith}
use rsbtd.Settings.Pack.{SettingsPack, ok, merge}
use rsbtd.Api.Input.{value}
use rsbtd.Api.Input
use rsbtd.Api.Encryption.{EncryptionSettings, write_encryption, read_encryption}
use rsbtd.Api.Modes.{
  DiskIoCache, write_disk_io_cache, read_disk_io_cache, MmapWriteMode, write_mmap_write_mode,
  read_mmap_write_mode, SuggestMode, write_suggest_mode, read_suggest_mode, ChokingAlgorithm,
  write_choking_algorithm, read_choking_algorithm, SeedChokingAlgorithm,
  write_seed_choking_algorithm, read_seed_choking_algorithm, MixedModeAlgorithm,
  write_mixed_mode_algorithm, read_mixed_mode_algorithm,
}

pub write_disk_io_cache-read :
    (c : DiskIoCache) (delta d effective : SettingsPack)
    → write_disk_io_cache (value c) delta ≡ ok d
    → read_disk_io_cache (merge effective d) ≡ ok c
unfolding write_disk_io_cache read_disk_io_cache Input.defined
write_disk_io_cache-read c delta d effective h = ground (arith, h)

pub write_encryption-read :
    (e : EncryptionSettings) (delta d effective : SettingsPack)
    → write_encryption (value e) delta ≡ ok d
    → read_encryption (merge effective d) ≡ ok e
unfolding write_encryption read_encryption Input.defined
write_encryption-read e delta d effective h = ground (arith, h)

pub write_mmap_write_mode-read :
    (m : MmapWriteMode) (delta d effective : SettingsPack)
    → write_mmap_write_mode (value m) delta ≡ ok d
    → read_mmap_write_mode (merge effective d) ≡ ok m
unfolding write_mmap_write_mode read_mmap_write_mode Input.defined
write_mmap_write_mode-read m delta d effective h = ground (arith, h)

pub write_suggest_mode-read :
    (m : SuggestMode) (delta d effective : SettingsPack)
    → write_suggest_mode (value m) delta ≡ ok d
    → read_suggest_mode (merge effective d) ≡ ok m
unfolding write_suggest_mode read_suggest_mode Input.defined
write_suggest_mode-read m delta d effective h = ground (arith, h)

pub write_choking_algorithm-read :
    (m : ChokingAlgorithm) (delta d effective : SettingsPack)
    → write_choking_algorithm (value m) delta ≡ ok d
    → read_choking_algorithm (merge effective d) ≡ ok m
unfolding write_choking_algorithm read_choking_algorithm Input.defined
write_choking_algorithm-read m delta d effective h = ground (arith, h)

pub write_seed_choking_algorithm-read :
    (m : SeedChokingAlgorithm) (delta d effective : SettingsPack)
    → write_seed_choking_algorithm (value m) delta ≡ ok d
    → read_seed_choking_algorithm (merge effective d) ≡ ok m
unfolding write_seed_choking_algorithm read_seed_choking_algorithm Input.defined
write_seed_choking_algorithm-read m delta d effective h = ground (arith, h)

pub write_mixed_mode_algorithm-read :
    (m : MixedModeAlgorithm) (delta d effective : SettingsPack)
    → write_mixed_mode_algorithm (value m) delta ≡ ok d
    → read_mixed_mode_algorithm (merge effective d) ≡ ok m
unfolding write_mixed_mode_algorithm read_mixed_mode_algorithm Input.defined
write_mixed_mode_algorithm-read m delta d effective h = ground (arith, h)
