-- ===== src/Settings/Enums.antt =====
-- rbtorrent/src/settings/enums.rs: the enums of the settings, with `as i32` and `from_raw`. The numbers are
-- those of libctorrent/include/ctorrent/ct_settings_generated.h.
use rsbtd.Base.{Option, none, some, ◌==◌, if◌then◌else◌}
use rsbtd.Settings.Int.{ℤ, pos, negsuc}

pub data MmapWriteMode : Type 0 where
  always_pwrite always_mmap_write auto_mmap_write : MmapWriteMode

abbrev pub mmap_write_mode_raw : MmapWriteMode → ℤ
mmap_write_mode_raw MmapWriteMode.always_pwrite = pos 0
mmap_write_mode_raw MmapWriteMode.always_mmap_write = pos 1
mmap_write_mode_raw MmapWriteMode.auto_mmap_write = pos 2

abbrev pub mmap_write_mode_from_raw : ℤ → Option MmapWriteMode
mmap_write_mode_from_raw (negsuc raw) = none
mmap_write_mode_from_raw (pos raw) =
    if raw == 0
    then some MmapWriteMode.always_pwrite
    else if raw == 1
    then some MmapWriteMode.always_mmap_write
    else if raw == 2
    then some MmapWriteMode.auto_mmap_write
    else none

pub data SuggestMode : Type 0 where
  no_piece_suggestions suggest_read_cache : SuggestMode

abbrev pub suggest_mode_raw : SuggestMode → ℤ
suggest_mode_raw SuggestMode.no_piece_suggestions = pos 0
suggest_mode_raw SuggestMode.suggest_read_cache = pos 1

abbrev pub suggest_mode_from_raw : ℤ → Option SuggestMode
suggest_mode_from_raw (negsuc raw) = none
suggest_mode_from_raw (pos raw) =
    if raw == 0
    then some SuggestMode.no_piece_suggestions
    else if raw == 1
    then some SuggestMode.suggest_read_cache
    else none

pub data ChokingAlgorithm : Type 0 where
  fixed_slots_choker rate_based_choker : ChokingAlgorithm

abbrev pub choking_algorithm_raw : ChokingAlgorithm → ℤ
choking_algorithm_raw ChokingAlgorithm.fixed_slots_choker = pos 0
choking_algorithm_raw ChokingAlgorithm.rate_based_choker = pos 2

abbrev pub choking_algorithm_from_raw : ℤ → Option ChokingAlgorithm
choking_algorithm_from_raw (negsuc raw) = none
choking_algorithm_from_raw (pos raw) =
    if raw == 0
    then some ChokingAlgorithm.fixed_slots_choker
    else if raw == 2
    then some ChokingAlgorithm.rate_based_choker
    else none

pub data SeedChokingAlgorithm : Type 0 where
  round_robin fastest_upload anti_leech : SeedChokingAlgorithm

abbrev pub seed_choking_algorithm_raw : SeedChokingAlgorithm → ℤ
seed_choking_algorithm_raw SeedChokingAlgorithm.round_robin = pos 0
seed_choking_algorithm_raw SeedChokingAlgorithm.fastest_upload = pos 1
seed_choking_algorithm_raw SeedChokingAlgorithm.anti_leech = pos 2

abbrev pub seed_choking_algorithm_from_raw : ℤ → Option SeedChokingAlgorithm
seed_choking_algorithm_from_raw (negsuc raw) = none
seed_choking_algorithm_from_raw (pos raw) =
    if raw == 0
    then some SeedChokingAlgorithm.round_robin
    else if raw == 1
    then some SeedChokingAlgorithm.fastest_upload
    else if raw == 2
    then some SeedChokingAlgorithm.anti_leech
    else none

pub data IoBufferMode : Type 0 where
  enable_os_cache disable_os_cache write_through : IoBufferMode

abbrev pub io_buffer_mode_raw : IoBufferMode → ℤ
io_buffer_mode_raw IoBufferMode.enable_os_cache = pos 0
io_buffer_mode_raw IoBufferMode.disable_os_cache = pos 2
io_buffer_mode_raw IoBufferMode.write_through = pos 3

abbrev pub io_buffer_mode_from_raw : ℤ → Option IoBufferMode
io_buffer_mode_from_raw (negsuc raw) = none
io_buffer_mode_from_raw (pos raw) =
    if raw == 0
    then some IoBufferMode.enable_os_cache
    else if raw == 2
    then some IoBufferMode.disable_os_cache
    else if raw == 3
    then some IoBufferMode.write_through
    else none

pub data BandwidthMixedAlgo : Type 0 where
  prefer_tcp peer_proportional : BandwidthMixedAlgo

abbrev pub bandwidth_mixed_algo_raw : BandwidthMixedAlgo → ℤ
bandwidth_mixed_algo_raw BandwidthMixedAlgo.prefer_tcp = pos 0
bandwidth_mixed_algo_raw BandwidthMixedAlgo.peer_proportional = pos 1

abbrev pub bandwidth_mixed_algo_from_raw : ℤ → Option BandwidthMixedAlgo
bandwidth_mixed_algo_from_raw (negsuc raw) = none
bandwidth_mixed_algo_from_raw (pos raw) =
    if raw == 0
    then some BandwidthMixedAlgo.prefer_tcp
    else if raw == 1
    then some BandwidthMixedAlgo.peer_proportional
    else none

pub data EncPolicy : Type 0 where
  pe_forced pe_enabled pe_disabled : EncPolicy

abbrev pub enc_policy_raw : EncPolicy → ℤ
enc_policy_raw EncPolicy.pe_forced = pos 0
enc_policy_raw EncPolicy.pe_enabled = pos 1
enc_policy_raw EncPolicy.pe_disabled = pos 2

abbrev pub enc_policy_from_raw : ℤ → Option EncPolicy
enc_policy_from_raw (negsuc raw) = none
enc_policy_from_raw (pos raw) =
    if raw == 0
    then some EncPolicy.pe_forced
    else if raw == 1
    then some EncPolicy.pe_enabled
    else if raw == 2
    then some EncPolicy.pe_disabled
    else none

pub data EncLevel : Type 0 where
  pe_plaintext pe_rc4 pe_both : EncLevel

abbrev pub enc_level_raw : EncLevel → ℤ
enc_level_raw EncLevel.pe_plaintext = pos 1
enc_level_raw EncLevel.pe_rc4 = pos 2
enc_level_raw EncLevel.pe_both = pos 3

abbrev pub enc_level_from_raw : ℤ → Option EncLevel
enc_level_from_raw (negsuc raw) = none
enc_level_from_raw (pos raw) =
    if raw == 1
    then some EncLevel.pe_plaintext
    else if raw == 2
    then some EncLevel.pe_rc4
    else if raw == 3
    then some EncLevel.pe_both
    else none

pub data ProxyType : Type 0 where
  no_proxy socks4 socks5 socks5_pw http http_pw : ProxyType

abbrev pub proxy_type_raw : ProxyType → ℤ
proxy_type_raw ProxyType.no_proxy = pos 0
proxy_type_raw ProxyType.socks4 = pos 1
proxy_type_raw ProxyType.socks5 = pos 2
proxy_type_raw ProxyType.socks5_pw = pos 3
proxy_type_raw ProxyType.http = pos 4
proxy_type_raw ProxyType.http_pw = pos 5

abbrev pub proxy_type_from_raw : ℤ → Option ProxyType
proxy_type_from_raw (negsuc raw) = none
proxy_type_from_raw (pos raw) =
    if raw == 0
    then some ProxyType.no_proxy
    else if raw == 1
    then some ProxyType.socks4
    else if raw == 2
    then some ProxyType.socks5
    else if raw == 3
    then some ProxyType.socks5_pw
    else if raw == 4
    then some ProxyType.http
    else if raw == 5
    then some ProxyType.http_pw
    else none
