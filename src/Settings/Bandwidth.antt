-- ===== src/Settings/Bandwidth.antt =====
-- The setters and getters of rbtorrent/src/settings/bandwidth.rs that touch one setting: choking, rate limits, send buffers and uTP.
-- A `u16` or `u8` is a number; a getter of an enum is empty at a number that the enum has not.
pub mod Keys
use rsbtd.Base.{ℕ, Bool, Option}
use rsbtd.Events.{Text}
use rsbtd.Settings.Int.{ℤ, pos, negsuc}
use rsbtd.Settings.Pack.{
  SettingsPack, SettingsError, Result, set_str, set_int, set_bool, get_str, get_int, get_bool,
  ranged, ◌>>=?◌,
}
use rsbtd.Settings.Enums.{
  BandwidthMixedAlgo, ChokingAlgorithm, SeedChokingAlgorithm, bandwidth_mixed_algo_raw,
  bandwidth_mixed_algo_from_raw, choking_algorithm_raw, choking_algorithm_from_raw,
  seed_choking_algorithm_raw, seed_choking_algorithm_from_raw,
}
use rsbtd.Settings.Bandwidth.Keys.{
  ct_set_rate_limit_ip_overhead, ct_set_unchoke_interval, ct_set_optimistic_unchoke_interval,
  ct_set_send_buffer_low_watermark, ct_set_send_buffer_watermark,
  ct_set_send_buffer_watermark_factor, ct_set_choking_algorithm, ct_set_seed_choking_algorithm,
  ct_set_num_optimistic_unchoke_slots, ct_set_upload_rate_limit, ct_set_download_rate_limit,
  ct_set_unchoke_slots_limit, ct_set_utp_target_delay, ct_set_utp_gain_factor,
  ct_set_utp_min_timeout, ct_set_utp_syn_resends, ct_set_utp_fin_resends, ct_set_utp_num_resends,
  ct_set_utp_connect_timeout, ct_set_utp_loss_multiplier, ct_set_mixed_mode_algorithm,
  ct_set_inactive_down_rate, ct_set_inactive_up_rate, ct_set_utp_cwnd_reduce_timer,
  ct_set_send_not_sent_low_watermark, ct_set_rate_choker_initial_threshold,
}

abbrev pub rate_limit_ip_overhead : Bool → SettingsPack → SettingsPack
rate_limit_ip_overhead = set_bool ct_set_rate_limit_ip_overhead

abbrev pub get_rate_limit_ip_overhead : SettingsPack → Option Bool
get_rate_limit_ip_overhead = get_bool ct_set_rate_limit_ip_overhead

abbrev pub unchoke_interval : ℤ → SettingsPack → SettingsPack
unchoke_interval = set_int ct_set_unchoke_interval

abbrev pub get_unchoke_interval : SettingsPack → Option ℤ
get_unchoke_interval = get_int ct_set_unchoke_interval

abbrev pub optimistic_unchoke_interval : ℤ → SettingsPack → SettingsPack
optimistic_unchoke_interval = set_int ct_set_optimistic_unchoke_interval

abbrev pub get_optimistic_unchoke_interval : SettingsPack → Option ℤ
get_optimistic_unchoke_interval = get_int ct_set_optimistic_unchoke_interval

abbrev pub send_buffer_low_watermark : ℤ → SettingsPack → SettingsPack
send_buffer_low_watermark = set_int ct_set_send_buffer_low_watermark

abbrev pub get_send_buffer_low_watermark : SettingsPack → Option ℤ
get_send_buffer_low_watermark = get_int ct_set_send_buffer_low_watermark

abbrev pub send_buffer_watermark : ℤ → SettingsPack → Result SettingsError SettingsPack
send_buffer_watermark =
    ranged "send_buffer_watermark" (pos 1) (pos 2147483647) ct_set_send_buffer_watermark

abbrev pub get_send_buffer_watermark : SettingsPack → Option ℤ
get_send_buffer_watermark = get_int ct_set_send_buffer_watermark

abbrev pub send_buffer_watermark_factor : ℤ → SettingsPack → SettingsPack
send_buffer_watermark_factor = set_int ct_set_send_buffer_watermark_factor

abbrev pub get_send_buffer_watermark_factor : SettingsPack → Option ℤ
get_send_buffer_watermark_factor = get_int ct_set_send_buffer_watermark_factor

abbrev pub choking_algorithm : ChokingAlgorithm → SettingsPack → SettingsPack
choking_algorithm = λ value. set_int ct_set_choking_algorithm (choking_algorithm_raw value)

abbrev pub get_choking_algorithm : SettingsPack → Option ChokingAlgorithm
get_choking_algorithm =
    λ pack. get_int ct_set_choking_algorithm pack >>=? choking_algorithm_from_raw

abbrev pub seed_choking_algorithm : SeedChokingAlgorithm → SettingsPack → SettingsPack
seed_choking_algorithm =
    λ value. set_int ct_set_seed_choking_algorithm (seed_choking_algorithm_raw value)

abbrev pub get_seed_choking_algorithm : SettingsPack → Option SeedChokingAlgorithm
get_seed_choking_algorithm =
    λ pack. get_int ct_set_seed_choking_algorithm pack >>=? seed_choking_algorithm_from_raw

abbrev pub num_optimistic_unchoke_slots : ℕ → SettingsPack → SettingsPack
num_optimistic_unchoke_slots = λ value. set_int ct_set_num_optimistic_unchoke_slots (pos value)

abbrev pub get_num_optimistic_unchoke_slots : SettingsPack → Option ℤ
get_num_optimistic_unchoke_slots = get_int ct_set_num_optimistic_unchoke_slots

abbrev pub upload_rate_limit : ℤ → SettingsPack → SettingsPack
upload_rate_limit = set_int ct_set_upload_rate_limit

abbrev pub get_upload_rate_limit : SettingsPack → Option ℤ
get_upload_rate_limit = get_int ct_set_upload_rate_limit

abbrev pub download_rate_limit : ℤ → SettingsPack → SettingsPack
download_rate_limit = set_int ct_set_download_rate_limit

abbrev pub get_download_rate_limit : SettingsPack → Option ℤ
get_download_rate_limit = get_int ct_set_download_rate_limit

abbrev pub unchoke_slots_limit : ℤ → SettingsPack → SettingsPack
unchoke_slots_limit = set_int ct_set_unchoke_slots_limit

abbrev pub get_unchoke_slots_limit : SettingsPack → Option ℤ
get_unchoke_slots_limit = get_int ct_set_unchoke_slots_limit

abbrev pub utp_target_delay : ℤ → SettingsPack → Result SettingsError SettingsPack
utp_target_delay = ranged "utp_target_delay" (pos 1) (pos 2147483) ct_set_utp_target_delay

abbrev pub get_utp_target_delay : SettingsPack → Option ℤ
get_utp_target_delay = get_int ct_set_utp_target_delay

abbrev pub utp_gain_factor : ℤ → SettingsPack → SettingsPack
utp_gain_factor = set_int ct_set_utp_gain_factor

abbrev pub get_utp_gain_factor : SettingsPack → Option ℤ
get_utp_gain_factor = get_int ct_set_utp_gain_factor

abbrev pub utp_min_timeout : ℤ → SettingsPack → SettingsPack
utp_min_timeout = set_int ct_set_utp_min_timeout

abbrev pub get_utp_min_timeout : SettingsPack → Option ℤ
get_utp_min_timeout = get_int ct_set_utp_min_timeout

abbrev pub utp_syn_resends : ℤ → SettingsPack → SettingsPack
utp_syn_resends = set_int ct_set_utp_syn_resends

abbrev pub get_utp_syn_resends : SettingsPack → Option ℤ
get_utp_syn_resends = get_int ct_set_utp_syn_resends

abbrev pub utp_fin_resends : ℤ → SettingsPack → SettingsPack
utp_fin_resends = set_int ct_set_utp_fin_resends

abbrev pub get_utp_fin_resends : SettingsPack → Option ℤ
get_utp_fin_resends = get_int ct_set_utp_fin_resends

abbrev pub utp_num_resends : ℤ → SettingsPack → SettingsPack
utp_num_resends = set_int ct_set_utp_num_resends

abbrev pub get_utp_num_resends : SettingsPack → Option ℤ
get_utp_num_resends = get_int ct_set_utp_num_resends

abbrev pub utp_connect_timeout : ℤ → SettingsPack → Result SettingsError SettingsPack
utp_connect_timeout =
    ranged "utp_connect_timeout" (pos 1) (pos 2147483647) ct_set_utp_connect_timeout

abbrev pub get_utp_connect_timeout : SettingsPack → Option ℤ
get_utp_connect_timeout = get_int ct_set_utp_connect_timeout

abbrev pub utp_loss_multiplier : ℤ → SettingsPack → Result SettingsError SettingsPack
utp_loss_multiplier = ranged "utp_loss_multiplier" (pos 0) (pos 100) ct_set_utp_loss_multiplier

abbrev pub get_utp_loss_multiplier : SettingsPack → Option ℤ
get_utp_loss_multiplier = get_int ct_set_utp_loss_multiplier

abbrev pub mixed_mode_algorithm : BandwidthMixedAlgo → SettingsPack → SettingsPack
mixed_mode_algorithm = λ value. set_int ct_set_mixed_mode_algorithm (bandwidth_mixed_algo_raw value)

abbrev pub get_mixed_mode_algorithm : SettingsPack → Option BandwidthMixedAlgo
get_mixed_mode_algorithm =
    λ pack. get_int ct_set_mixed_mode_algorithm pack >>=? bandwidth_mixed_algo_from_raw

abbrev pub inactive_down_rate : ℤ → SettingsPack → SettingsPack
inactive_down_rate = set_int ct_set_inactive_down_rate

abbrev pub get_inactive_down_rate : SettingsPack → Option ℤ
get_inactive_down_rate = get_int ct_set_inactive_down_rate

abbrev pub inactive_up_rate : ℤ → SettingsPack → SettingsPack
inactive_up_rate = set_int ct_set_inactive_up_rate

abbrev pub get_inactive_up_rate : SettingsPack → Option ℤ
get_inactive_up_rate = get_int ct_set_inactive_up_rate

abbrev pub utp_cwnd_reduce_timer : ℤ → SettingsPack → SettingsPack
utp_cwnd_reduce_timer = set_int ct_set_utp_cwnd_reduce_timer

abbrev pub get_utp_cwnd_reduce_timer : SettingsPack → Option ℤ
get_utp_cwnd_reduce_timer = get_int ct_set_utp_cwnd_reduce_timer

abbrev pub send_not_sent_low_watermark : ℤ → SettingsPack → SettingsPack
send_not_sent_low_watermark = set_int ct_set_send_not_sent_low_watermark

abbrev pub get_send_not_sent_low_watermark : SettingsPack → Option ℤ
get_send_not_sent_low_watermark = get_int ct_set_send_not_sent_low_watermark

abbrev pub rate_choker_initial_threshold : ℤ → SettingsPack → SettingsPack
rate_choker_initial_threshold = set_int ct_set_rate_choker_initial_threshold

abbrev pub get_rate_choker_initial_threshold : SettingsPack → Option ℤ
get_rate_choker_initial_threshold = get_int ct_set_rate_choker_initial_threshold
