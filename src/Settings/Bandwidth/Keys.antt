-- ===== src/Settings/Bandwidth/Keys.antt =====
-- The keys of rbtorrent/src/settings/bandwidth.rs, as libctorrent/include/ctorrent/ct_settings_generated.h numbers them.
use rsbtd.Base.{ℕ}

abbrev pub ct_set_rate_limit_ip_overhead : ℕ
ct_set_rate_limit_ip_overhead = 0x8010

abbrev pub ct_set_unchoke_interval : ℕ
ct_set_unchoke_interval = 0x4014

abbrev pub ct_set_optimistic_unchoke_interval : ℕ
ct_set_optimistic_unchoke_interval = 0x4015

abbrev pub ct_set_send_buffer_low_watermark : ℕ
ct_set_send_buffer_low_watermark = 0x401c

abbrev pub ct_set_send_buffer_watermark : ℕ
ct_set_send_buffer_watermark = 0x401d

abbrev pub ct_set_send_buffer_watermark_factor : ℕ
ct_set_send_buffer_watermark_factor = 0x401e

abbrev pub ct_set_choking_algorithm : ℕ
ct_set_choking_algorithm = 0x401f

abbrev pub ct_set_seed_choking_algorithm : ℕ
ct_set_seed_choking_algorithm = 0x4020

abbrev pub ct_set_num_optimistic_unchoke_slots : ℕ
ct_set_num_optimistic_unchoke_slots = 0x4047

abbrev pub ct_set_upload_rate_limit : ℕ
ct_set_upload_rate_limit = 0x404e

abbrev pub ct_set_download_rate_limit : ℕ
ct_set_download_rate_limit = 0x404f

abbrev pub ct_set_unchoke_slots_limit : ℕ
ct_set_unchoke_slots_limit = 0x4053

abbrev pub ct_set_utp_target_delay : ℕ
ct_set_utp_target_delay = 0x4057

abbrev pub ct_set_utp_gain_factor : ℕ
ct_set_utp_gain_factor = 0x4058

abbrev pub ct_set_utp_min_timeout : ℕ
ct_set_utp_min_timeout = 0x4059

abbrev pub ct_set_utp_syn_resends : ℕ
ct_set_utp_syn_resends = 0x405a

abbrev pub ct_set_utp_fin_resends : ℕ
ct_set_utp_fin_resends = 0x405b

abbrev pub ct_set_utp_num_resends : ℕ
ct_set_utp_num_resends = 0x405c

abbrev pub ct_set_utp_connect_timeout : ℕ
ct_set_utp_connect_timeout = 0x405d

abbrev pub ct_set_utp_loss_multiplier : ℕ
ct_set_utp_loss_multiplier = 0x405f

abbrev pub ct_set_mixed_mode_algorithm : ℕ
ct_set_mixed_mode_algorithm = 0x4060

abbrev pub ct_set_inactive_down_rate : ℕ
ct_set_inactive_down_rate = 0x4079

abbrev pub ct_set_inactive_up_rate : ℕ
ct_set_inactive_up_rate = 0x407a

abbrev pub ct_set_utp_cwnd_reduce_timer : ℕ
ct_set_utp_cwnd_reduce_timer = 0x4082

abbrev pub ct_set_send_not_sent_low_watermark : ℕ
ct_set_send_not_sent_low_watermark = 0x4085

abbrev pub ct_set_rate_choker_initial_threshold : ℕ
ct_set_rate_choker_initial_threshold = 0x4086
