-- ===== src/Settings/Storage.antt =====
-- The setters and getters of rbtorrent/src/settings/storage.rs that touch one setting: disk and piece requests.
-- A `u16` or `u8` is a number; a getter of an enum is empty at a number that the enum has not.
pub mod Keys
use rsbtd.Base.{ℕ, Bool, Option}
use rsbtd.Events.{Text}
use rsbtd.Settings.Int.{ℤ, pos, negsuc}
use rsbtd.Settings.Pack.{
  SettingsPack, SettingsError, Result, set_str, set_int, set_bool, get_str, get_int, get_bool,
  ranged, ◌>>=?◌,
}
use rsbtd.Settings.Enums.{
  IoBufferMode, MmapWriteMode, SuggestMode, io_buffer_mode_raw, io_buffer_mode_from_raw,
  mmap_write_mode_raw, mmap_write_mode_from_raw, suggest_mode_raw, suggest_mode_from_raw,
}
use rsbtd.Settings.Storage.Keys.{
  ct_set_send_redundant_have, ct_set_prioritize_partial_pieces, ct_set_disable_hash_checks,
  ct_set_no_atime_storage, ct_set_report_true_downloaded, ct_set_strict_end_game_mode,
  ct_set_no_recheck_incomplete_resume, ct_set_support_share_mode, ct_set_report_redundant_bytes,
  ct_set_auto_sequential, ct_set_piece_extent_affinity, ct_set_enable_set_file_valid_data,
  ct_set_disk_disable_copy_on_write, ct_set_piece_timeout, ct_set_request_timeout,
  ct_set_request_queue_time, ct_set_max_allowed_in_request_queue, ct_set_max_out_request_queue,
  ct_set_whole_pieces_threshold, ct_set_file_pool_size, ct_set_initial_picker_threshold,
  ct_set_allowed_fast_set_size, ct_set_suggest_mode, ct_set_max_queued_disk_bytes,
  ct_set_disk_io_write_mode, ct_set_disk_io_read_mode, ct_set_seeding_piece_quota,
  ct_set_optimistic_disk_retry, ct_set_max_suggest_pieces, ct_set_share_mode_target,
  ct_set_max_metadata_size, ct_set_hashing_threads, ct_set_checking_mem_usage,
  ct_set_predictive_piece_announce, ct_set_aio_threads, ct_set_close_file_interval,
  ct_set_max_piece_count, ct_set_metadata_token_limit, ct_set_disk_write_mode,
  ct_set_mmap_file_size_cutoff,
}

abbrev pub send_redundant_have : Bool → SettingsPack → SettingsPack
send_redundant_have = set_bool ct_set_send_redundant_have

abbrev pub get_send_redundant_have : SettingsPack → Option Bool
get_send_redundant_have = get_bool ct_set_send_redundant_have

abbrev pub prioritize_partial_pieces : Bool → SettingsPack → SettingsPack
prioritize_partial_pieces = set_bool ct_set_prioritize_partial_pieces

abbrev pub get_prioritize_partial_pieces : SettingsPack → Option Bool
get_prioritize_partial_pieces = get_bool ct_set_prioritize_partial_pieces

abbrev pub disable_hash_checks : Bool → SettingsPack → SettingsPack
disable_hash_checks = set_bool ct_set_disable_hash_checks

abbrev pub get_disable_hash_checks : SettingsPack → Option Bool
get_disable_hash_checks = get_bool ct_set_disable_hash_checks

abbrev pub no_atime_storage : Bool → SettingsPack → SettingsPack
no_atime_storage = set_bool ct_set_no_atime_storage

abbrev pub get_no_atime_storage : SettingsPack → Option Bool
get_no_atime_storage = get_bool ct_set_no_atime_storage

abbrev pub report_true_downloaded : Bool → SettingsPack → SettingsPack
report_true_downloaded = set_bool ct_set_report_true_downloaded

abbrev pub get_report_true_downloaded : SettingsPack → Option Bool
get_report_true_downloaded = get_bool ct_set_report_true_downloaded

abbrev pub strict_end_game_mode : Bool → SettingsPack → SettingsPack
strict_end_game_mode = set_bool ct_set_strict_end_game_mode

abbrev pub get_strict_end_game_mode : SettingsPack → Option Bool
get_strict_end_game_mode = get_bool ct_set_strict_end_game_mode

abbrev pub no_recheck_incomplete_resume : Bool → SettingsPack → SettingsPack
no_recheck_incomplete_resume = set_bool ct_set_no_recheck_incomplete_resume

abbrev pub get_no_recheck_incomplete_resume : SettingsPack → Option Bool
get_no_recheck_incomplete_resume = get_bool ct_set_no_recheck_incomplete_resume

abbrev pub support_share_mode : Bool → SettingsPack → SettingsPack
support_share_mode = set_bool ct_set_support_share_mode

abbrev pub get_support_share_mode : SettingsPack → Option Bool
get_support_share_mode = get_bool ct_set_support_share_mode

abbrev pub report_redundant_bytes : Bool → SettingsPack → SettingsPack
report_redundant_bytes = set_bool ct_set_report_redundant_bytes

abbrev pub get_report_redundant_bytes : SettingsPack → Option Bool
get_report_redundant_bytes = get_bool ct_set_report_redundant_bytes

abbrev pub auto_sequential : Bool → SettingsPack → SettingsPack
auto_sequential = set_bool ct_set_auto_sequential

abbrev pub get_auto_sequential : SettingsPack → Option Bool
get_auto_sequential = get_bool ct_set_auto_sequential

abbrev pub piece_extent_affinity : Bool → SettingsPack → SettingsPack
piece_extent_affinity = set_bool ct_set_piece_extent_affinity

abbrev pub get_piece_extent_affinity : SettingsPack → Option Bool
get_piece_extent_affinity = get_bool ct_set_piece_extent_affinity

abbrev pub enable_set_file_valid_data : Bool → SettingsPack → SettingsPack
enable_set_file_valid_data = set_bool ct_set_enable_set_file_valid_data

abbrev pub get_enable_set_file_valid_data : SettingsPack → Option Bool
get_enable_set_file_valid_data = get_bool ct_set_enable_set_file_valid_data

abbrev pub disk_disable_copy_on_write : Bool → SettingsPack → SettingsPack
disk_disable_copy_on_write = set_bool ct_set_disk_disable_copy_on_write

abbrev pub get_disk_disable_copy_on_write : SettingsPack → Option Bool
get_disk_disable_copy_on_write = get_bool ct_set_disk_disable_copy_on_write

abbrev pub piece_timeout : ℤ → SettingsPack → SettingsPack
piece_timeout = set_int ct_set_piece_timeout

abbrev pub get_piece_timeout : SettingsPack → Option ℤ
get_piece_timeout = get_int ct_set_piece_timeout

abbrev pub request_timeout : ℤ → SettingsPack → SettingsPack
request_timeout = set_int ct_set_request_timeout

abbrev pub get_request_timeout : SettingsPack → Option ℤ
get_request_timeout = get_int ct_set_request_timeout

abbrev pub request_queue_time : ℤ → SettingsPack → SettingsPack
request_queue_time = set_int ct_set_request_queue_time

abbrev pub get_request_queue_time : SettingsPack → Option ℤ
get_request_queue_time = get_int ct_set_request_queue_time

abbrev pub max_allowed_in_request_queue : ℤ → SettingsPack → Result SettingsError SettingsPack
max_allowed_in_request_queue =
    ranged "max_allowed_in_request_queue" (pos 0) (pos 2147483647)
      ct_set_max_allowed_in_request_queue

abbrev pub get_max_allowed_in_request_queue : SettingsPack → Option ℤ
get_max_allowed_in_request_queue = get_int ct_set_max_allowed_in_request_queue

abbrev pub max_out_request_queue : ℤ → SettingsPack → SettingsPack
max_out_request_queue = set_int ct_set_max_out_request_queue

abbrev pub get_max_out_request_queue : SettingsPack → Option ℤ
get_max_out_request_queue = get_int ct_set_max_out_request_queue

abbrev pub whole_pieces_threshold : ℤ → SettingsPack → SettingsPack
whole_pieces_threshold = set_int ct_set_whole_pieces_threshold

abbrev pub get_whole_pieces_threshold : SettingsPack → Option ℤ
get_whole_pieces_threshold = get_int ct_set_whole_pieces_threshold

abbrev pub file_pool_size : ℤ → SettingsPack → Result SettingsError SettingsPack
file_pool_size = ranged "file_pool_size" (pos 1) (pos 2147483647) ct_set_file_pool_size

abbrev pub get_file_pool_size : SettingsPack → Option ℤ
get_file_pool_size = get_int ct_set_file_pool_size

abbrev pub initial_picker_threshold : ℤ → SettingsPack → SettingsPack
initial_picker_threshold = set_int ct_set_initial_picker_threshold

abbrev pub get_initial_picker_threshold : SettingsPack → Option ℤ
get_initial_picker_threshold = get_int ct_set_initial_picker_threshold

abbrev pub allowed_fast_set_size : ℤ → SettingsPack → SettingsPack
allowed_fast_set_size = set_int ct_set_allowed_fast_set_size

abbrev pub get_allowed_fast_set_size : SettingsPack → Option ℤ
get_allowed_fast_set_size = get_int ct_set_allowed_fast_set_size

abbrev pub suggest_mode : SuggestMode → SettingsPack → SettingsPack
suggest_mode = λ value. set_int ct_set_suggest_mode (suggest_mode_raw value)

abbrev pub get_suggest_mode : SettingsPack → Option SuggestMode
get_suggest_mode = λ pack. get_int ct_set_suggest_mode pack >>=? suggest_mode_from_raw

abbrev pub max_queued_disk_bytes : ℤ → SettingsPack → Result SettingsError SettingsPack
max_queued_disk_bytes =
    ranged "max_queued_disk_bytes" (pos 0) (pos 2147483647) ct_set_max_queued_disk_bytes

abbrev pub get_max_queued_disk_bytes : SettingsPack → Option ℤ
get_max_queued_disk_bytes = get_int ct_set_max_queued_disk_bytes

abbrev pub disk_io_write_mode : IoBufferMode → SettingsPack → SettingsPack
disk_io_write_mode = λ value. set_int ct_set_disk_io_write_mode (io_buffer_mode_raw value)

abbrev pub get_disk_io_write_mode : SettingsPack → Option IoBufferMode
get_disk_io_write_mode = λ pack. get_int ct_set_disk_io_write_mode pack >>=? io_buffer_mode_from_raw

abbrev pub disk_io_read_mode : IoBufferMode → SettingsPack → SettingsPack
disk_io_read_mode = λ value. set_int ct_set_disk_io_read_mode (io_buffer_mode_raw value)

abbrev pub get_disk_io_read_mode : SettingsPack → Option IoBufferMode
get_disk_io_read_mode = λ pack. get_int ct_set_disk_io_read_mode pack >>=? io_buffer_mode_from_raw

abbrev pub seeding_piece_quota : ℤ → SettingsPack → SettingsPack
seeding_piece_quota = set_int ct_set_seeding_piece_quota

abbrev pub get_seeding_piece_quota : SettingsPack → Option ℤ
get_seeding_piece_quota = get_int ct_set_seeding_piece_quota

abbrev pub optimistic_disk_retry : ℤ → SettingsPack → SettingsPack
optimistic_disk_retry = set_int ct_set_optimistic_disk_retry

abbrev pub get_optimistic_disk_retry : SettingsPack → Option ℤ
get_optimistic_disk_retry = get_int ct_set_optimistic_disk_retry

abbrev pub max_suggest_pieces : ℤ → SettingsPack → Result SettingsError SettingsPack
max_suggest_pieces = ranged "max_suggest_pieces" (pos 1) (pos 2147483647) ct_set_max_suggest_pieces

abbrev pub get_max_suggest_pieces : SettingsPack → Option ℤ
get_max_suggest_pieces = get_int ct_set_max_suggest_pieces

abbrev pub share_mode_target : ℤ → SettingsPack → SettingsPack
share_mode_target = set_int ct_set_share_mode_target

abbrev pub get_share_mode_target : SettingsPack → Option ℤ
get_share_mode_target = get_int ct_set_share_mode_target

abbrev pub max_metadata_size : ℤ → SettingsPack → Result SettingsError SettingsPack
max_metadata_size = ranged "max_metadata_size" (pos 1) (pos 2147483647) ct_set_max_metadata_size

abbrev pub get_max_metadata_size : SettingsPack → Option ℤ
get_max_metadata_size = get_int ct_set_max_metadata_size

abbrev pub hashing_threads : ℤ → SettingsPack → Result SettingsError SettingsPack
hashing_threads = ranged "hashing_threads" (pos 0) (pos 1073741823) ct_set_hashing_threads

abbrev pub get_hashing_threads : SettingsPack → Option ℤ
get_hashing_threads = get_int ct_set_hashing_threads

abbrev pub checking_mem_usage : ℤ → SettingsPack → Result SettingsError SettingsPack
checking_mem_usage = ranged "checking_mem_usage" (pos 1) (pos 131071) ct_set_checking_mem_usage

abbrev pub get_checking_mem_usage : SettingsPack → Option ℤ
get_checking_mem_usage = get_int ct_set_checking_mem_usage

abbrev pub predictive_piece_announce : ℤ → SettingsPack → SettingsPack
predictive_piece_announce = set_int ct_set_predictive_piece_announce

abbrev pub get_predictive_piece_announce : SettingsPack → Option ℤ
get_predictive_piece_announce = get_int ct_set_predictive_piece_announce

abbrev pub aio_threads : ℤ → SettingsPack → Result SettingsError SettingsPack
aio_threads = ranged "aio_threads" (pos 1) (pos 2147483647) ct_set_aio_threads

abbrev pub get_aio_threads : SettingsPack → Option ℤ
get_aio_threads = get_int ct_set_aio_threads

abbrev pub close_file_interval : ℤ → SettingsPack → SettingsPack
close_file_interval = set_int ct_set_close_file_interval

abbrev pub get_close_file_interval : SettingsPack → Option ℤ
get_close_file_interval = get_int ct_set_close_file_interval

abbrev pub max_piece_count : ℤ → SettingsPack → Result SettingsError SettingsPack
max_piece_count = ranged "max_piece_count" (pos 1) (pos 1073741823) ct_set_max_piece_count

abbrev pub get_max_piece_count : SettingsPack → Option ℤ
get_max_piece_count = get_int ct_set_max_piece_count

abbrev pub metadata_token_limit : ℤ → SettingsPack → Result SettingsError SettingsPack
metadata_token_limit =
    ranged "metadata_token_limit" (pos 1) (pos 2147483647) ct_set_metadata_token_limit

abbrev pub get_metadata_token_limit : SettingsPack → Option ℤ
get_metadata_token_limit = get_int ct_set_metadata_token_limit

abbrev pub disk_write_mode : MmapWriteMode → SettingsPack → SettingsPack
disk_write_mode = λ value. set_int ct_set_disk_write_mode (mmap_write_mode_raw value)

abbrev pub get_disk_write_mode : SettingsPack → Option MmapWriteMode
get_disk_write_mode = λ pack. get_int ct_set_disk_write_mode pack >>=? mmap_write_mode_from_raw

abbrev pub mmap_file_size_cutoff : ℤ → SettingsPack → SettingsPack
mmap_file_size_cutoff = set_int ct_set_mmap_file_size_cutoff

abbrev pub get_mmap_file_size_cutoff : SettingsPack → Option ℤ
get_mmap_file_size_cutoff = get_int ct_set_mmap_file_size_cutoff
