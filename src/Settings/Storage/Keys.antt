-- ===== src/Settings/Storage/Keys.antt =====
-- The keys of rbtorrent/src/settings/storage.rs, as libctorrent/include/ctorrent/ct_settings_generated.h numbers them.
use rsbtd.Base.{ℕ}

abbrev pub ct_set_send_redundant_have : ℕ
ct_set_send_redundant_have = 0x8002

abbrev pub ct_set_prioritize_partial_pieces : ℕ
ct_set_prioritize_partial_pieces = 0x800f

abbrev pub ct_set_disable_hash_checks : ℕ
ct_set_disable_hash_checks = 0x8016

abbrev pub ct_set_no_atime_storage : ℕ
ct_set_no_atime_storage = 0x801b

abbrev pub ct_set_report_true_downloaded : ℕ
ct_set_report_true_downloaded = 0x801d

abbrev pub ct_set_strict_end_game_mode : ℕ
ct_set_strict_end_game_mode = 0x801e

abbrev pub ct_set_no_recheck_incomplete_resume : ℕ
ct_set_no_recheck_incomplete_resume = 0x8025

abbrev pub ct_set_support_share_mode : ℕ
ct_set_support_share_mode = 0x8035

abbrev pub ct_set_report_redundant_bytes : ℕ
ct_set_report_redundant_bytes = 0x8037

abbrev pub ct_set_auto_sequential : ℕ
ct_set_auto_sequential = 0x8042

abbrev pub ct_set_piece_extent_affinity : ℕ
ct_set_piece_extent_affinity = 0x804e

abbrev pub ct_set_enable_set_file_valid_data : ℕ
ct_set_enable_set_file_valid_data = 0x8052

abbrev pub ct_set_disk_disable_copy_on_write : ℕ
ct_set_disk_disable_copy_on_write = 0x8055

abbrev pub ct_set_piece_timeout : ℕ
ct_set_piece_timeout = 0x4004

abbrev pub ct_set_request_timeout : ℕ
ct_set_request_timeout = 0x4005

abbrev pub ct_set_request_queue_time : ℕ
ct_set_request_queue_time = 0x4006

abbrev pub ct_set_max_allowed_in_request_queue : ℕ
ct_set_max_allowed_in_request_queue = 0x4007

abbrev pub ct_set_max_out_request_queue : ℕ
ct_set_max_out_request_queue = 0x4008

abbrev pub ct_set_whole_pieces_threshold : ℕ
ct_set_whole_pieces_threshold = 0x4009

abbrev pub ct_set_file_pool_size : ℕ
ct_set_file_pool_size = 0x400e

abbrev pub ct_set_initial_picker_threshold : ℕ
ct_set_initial_picker_threshold = 0x4017

abbrev pub ct_set_allowed_fast_set_size : ℕ
ct_set_allowed_fast_set_size = 0x4018

abbrev pub ct_set_suggest_mode : ℕ
ct_set_suggest_mode = 0x4019

abbrev pub ct_set_max_queued_disk_bytes : ℕ
ct_set_max_queued_disk_bytes = 0x401a

abbrev pub ct_set_disk_io_write_mode : ℕ
ct_set_disk_io_write_mode = 0x4024

abbrev pub ct_set_disk_io_read_mode : ℕ
ct_set_disk_io_read_mode = 0x4025

abbrev pub ct_set_seeding_piece_quota : ℕ
ct_set_seeding_piece_quota = 0x4039

abbrev pub ct_set_optimistic_disk_retry : ℕ
ct_set_optimistic_disk_retry = 0x4041

abbrev pub ct_set_max_suggest_pieces : ℕ
ct_set_max_suggest_pieces = 0x4042

abbrev pub ct_set_share_mode_target : ℕ
ct_set_share_mode_target = 0x404d

abbrev pub ct_set_max_metadata_size : ℕ
ct_set_max_metadata_size = 0x4064

abbrev pub ct_set_hashing_threads : ℕ
ct_set_hashing_threads = 0x4065

abbrev pub ct_set_checking_mem_usage : ℕ
ct_set_checking_mem_usage = 0x4066

abbrev pub ct_set_predictive_piece_announce : ℕ
ct_set_predictive_piece_announce = 0x4067

abbrev pub ct_set_aio_threads : ℕ
ct_set_aio_threads = 0x4068

abbrev pub ct_set_close_file_interval : ℕ
ct_set_close_file_interval = 0x4081

abbrev pub ct_set_max_piece_count : ℕ
ct_set_max_piece_count = 0x4095

abbrev pub ct_set_metadata_token_limit : ℕ
ct_set_metadata_token_limit = 0x4096

abbrev pub ct_set_disk_write_mode : ℕ
ct_set_disk_write_mode = 0x4097

abbrev pub ct_set_mmap_file_size_cutoff : ℕ
ct_set_mmap_file_size_cutoff = 0x4098
