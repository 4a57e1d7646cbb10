-- ===== src/Cmds/SetFeatures.antt =====
-- `Cmds/setFeatures.cpp` and `Cmds/baseFeatures.cpp`: the Set Features command, whose features
-- share DWORD 11.
use tnvme.Base.{
  ℕ, ◌%◌, ◌^◌, bit_and, bit_or, ◌-◌, Bool, Result, ok, ◌>>=◌, ◌>>◌, throw_if, ltb, ◌==◌, not,
}
use tnvme.Cmds.Cmd.{
  Cmd, DataDir, init, get_dword, set_bit, get_bit, set_word, get_word, set_byte, get_byte, update,
}
pub mod Layout
pub mod Roundtrip
pub mod Pairs

-- `SetFeatures::SetFeatures`; which PRP slots it may use is the payload's concern.
unfoldable pub new_set_features : Result Cmd
new_set_features = init 0x09 DataDir.to_device 64

unfoldable pub set_fid : ℕ → Cmd → Result Cmd
set_fid fid c = set_byte fid 10 0 c

unfoldable pub get_fid : Cmd → Result ℕ
get_fid c = get_byte 10 0 c

unfoldable pub set_arbitration_hpw : ℕ → Cmd → Result Cmd
set_arbitration_hpw hpw c = set_byte hpw 11 3 c

unfoldable pub get_arbitration_hpw : Cmd → Result ℕ
get_arbitration_hpw c = get_byte 11 3 c

unfoldable pub set_arbitration_mpw : ℕ → Cmd → Result Cmd
set_arbitration_mpw mpw c = set_byte mpw 11 2 c

unfoldable pub get_arbitration_mpw : Cmd → Result ℕ
get_arbitration_mpw c = get_byte 11 2 c

unfoldable pub set_arbitration_lpw : ℕ → Cmd → Result Cmd
set_arbitration_lpw lpw c = set_byte lpw 11 1 c

unfoldable pub get_arbitration_lpw : Cmd → Result ℕ
get_arbitration_lpw c = get_byte 11 1 c

-- The masked `work` is computed and `ab` is written.
unfoldable pub set_arbitration_ab : ℕ → Cmd → Result Cmd
set_arbitration_ab ab c = get_byte 11 0 c >>= λ work.
    let masked = bit_or (bit_and work (2 ^ 8 - 1 - 0x7)) (bit_and ab 0x7) in set_byte ab 11 0 c

unfoldable pub set_arbitration : ℕ → ℕ → ℕ → ℕ → Cmd → Result Cmd
set_arbitration hpw mpw lpw ab c = set_arbitration_hpw hpw c >>= λ d.
    set_arbitration_mpw mpw d >>= λ e. set_arbitration_lpw lpw e >>= λ f. set_arbitration_ab ab f

unfoldable pub get_arbitration_ab : Cmd → Result ℕ
get_arbitration_ab c = get_byte 11 0 c >>= λ b. ok (bit_and b 0x7)

unfoldable pub get_arbitration : Cmd → Result ℕ
get_arbitration c = get_dword 11 c

-- `npss` is the controller's NPSS, read from its identify data into a `uint8_t`.
unfoldable pub set_power_management_ps : ℕ → ℕ → Cmd → Result Cmd
set_power_management_ps npss ps c =
    throw_if (ltb (npss % 2 ^ 8) ps) >> update 8 0x1f (bit_and ps 0x1f) 11 0 c

unfoldable pub get_power_management_ps : Cmd → Result ℕ
get_power_management_ps c = get_byte 11 0 c >>= λ b. ok (bit_and b 0x1f)

unfoldable pub set_lba_range_type_num : ℕ → Cmd → Result Cmd
set_lba_range_type_num num c = update 8 0x3f (bit_and num 0x3f) 11 0 c

unfoldable pub get_lba_range_type_num : Cmd → Result ℕ
get_lba_range_type_num c = get_byte 11 0 c >>= λ b. ok (bit_and b 0x3f)

unfoldable pub set_temp_threshold_tmpth : ℕ → Cmd → Result Cmd
set_temp_threshold_tmpth tmpth c = set_word tmpth 11 0 c

unfoldable pub get_temp_threshold_tmpth : Cmd → Result ℕ
get_temp_threshold_tmpth c = get_word 11 0 c

unfoldable pub set_err_recovery_tler : ℕ → Cmd → Result Cmd
set_err_recovery_tler tler c = set_word tler 11 0 c

unfoldable pub get_err_recovery_tler : Cmd → Result ℕ
get_err_recovery_tler c = get_word 11 0 c

unfoldable pub set_err_recovery_dulbe : Bool → Cmd → Result Cmd
set_err_recovery_dulbe dulbe c = set_bit dulbe 11 16 c

unfoldable pub get_err_recovery_dulbe : Cmd → Result Bool
get_err_recovery_dulbe c = get_bit 11 16 c

unfoldable pub set_volatile_write_cache_wce : ℕ → Cmd → Result Cmd
set_volatile_write_cache_wce wce c = update 8 0x1 (bit_and wce 0x1) 11 0 c

unfoldable pub get_volatile_write_cache_wce : Cmd → Result ℕ
get_volatile_write_cache_wce c = get_byte 11 0 c >>= λ b. ok (bit_and b 0x1)

unfoldable pub set_number_of_queues_ncqr : ℕ → Cmd → Result Cmd
set_number_of_queues_ncqr ncqr c = set_word ncqr 11 1 c

unfoldable pub get_number_of_queues_ncqr : Cmd → Result ℕ
get_number_of_queues_ncqr c = get_word 11 1 c

unfoldable pub set_number_of_queues_nsqr : ℕ → Cmd → Result Cmd
set_number_of_queues_nsqr nsqr c = set_word nsqr 11 0 c

unfoldable pub get_number_of_queues_nsqr : Cmd → Result ℕ
get_number_of_queues_nsqr c = get_word 11 0 c

unfoldable pub set_number_of_queues : ℕ → ℕ → Cmd → Result Cmd
set_number_of_queues ncqr nsqr c =
    set_number_of_queues_ncqr ncqr c >>= λ d. set_number_of_queues_nsqr nsqr d

unfoldable pub get_number_of_queues : Cmd → Result ℕ
get_number_of_queues c = get_dword 11 c

unfoldable pub set_int_coalescing_time : ℕ → Cmd → Result Cmd
set_int_coalescing_time time c = set_byte time 11 1 c

unfoldable pub get_int_coalescing_time : Cmd → Result ℕ
get_int_coalescing_time c = get_byte 11 1 c

unfoldable pub set_int_coalescing_thr : ℕ → Cmd → Result Cmd
set_int_coalescing_thr thr c = set_byte thr 11 0 c

unfoldable pub get_int_coalescing_thr : Cmd → Result ℕ
get_int_coalescing_thr c = get_byte 11 0 c

unfoldable pub set_int_coalescing : ℕ → ℕ → Cmd → Result Cmd
set_int_coalescing time thr c = set_int_coalescing_time time c >>= λ d. set_int_coalescing_thr thr d

unfoldable pub get_int_coalescing : Cmd → Result ℕ
get_int_coalescing c = get_dword 11 c

unfoldable pub set_int_vec_config_iv : ℕ → Cmd → Result Cmd
set_int_vec_config_iv iv c = set_word iv 11 0 c

unfoldable pub get_int_vec_config_iv : Cmd → Result ℕ
get_int_vec_config_iv c = get_word 11 0 c

unfoldable pub set_int_vec_config_cd : ℕ → Cmd → Result Cmd
set_int_vec_config_cd cd c = update 8 0x1 (bit_and cd 0x1) 11 2 c

unfoldable pub get_int_vec_config_cd : Cmd → Result ℕ
get_int_vec_config_cd c = get_byte 11 2 c >>= λ b. ok (bit_and b 0x1)

unfoldable pub set_int_vec_config : ℕ → ℕ → Cmd → Result Cmd
set_int_vec_config cd iv c = set_int_vec_config_cd cd c >>= λ d. set_int_vec_config_iv iv d

unfoldable pub get_int_vec_config : Cmd → Result ℕ
get_int_vec_config c = get_dword 11 c

unfoldable pub set_write_atomicity_dn : ℕ → Cmd → Result Cmd
set_write_atomicity_dn dn c = update 8 0x1 (bit_and dn 0x1) 11 0 c

unfoldable pub get_write_atomicity_dn : Cmd → Result ℕ
get_write_atomicity_dn c = get_byte 11 0 c >>= λ b. ok (bit_and b 0x1)

unfoldable pub set_async_event_config_smart : ℕ → Cmd → Result Cmd
set_async_event_config_smart crit_warn c = set_word crit_warn 11 0 c

unfoldable pub get_async_event_config_smart : Cmd → Result ℕ
get_async_event_config_smart c = get_word 11 0 c

unfoldable pub set_sw_progress_marker_pbslc : ℕ → Cmd → Result Cmd
set_sw_progress_marker_pbslc pbslc c = set_byte pbslc 11 0 c

unfoldable pub get_sw_progress_marker_pbslc : Cmd → Result ℕ
get_sw_progress_marker_pbslc c = get_byte 11 0 c

unfoldable pub set_auto_ps_trans_apste : Bool → Cmd → Result Cmd
set_auto_ps_trans_apste enable c = set_bit enable 11 0 c

unfoldable pub get_auto_ps_trans_apste : Cmd → Result Bool
get_auto_ps_trans_apste c = get_bit 11 0 c

unfoldable pub set_save : Bool → Cmd → Result Cmd
set_save save c = set_bit save 10 31 c

unfoldable pub set_unsafe_ps : ℕ → Cmd → Result Cmd
set_unsafe_ps ps c = update 8 0x1f (bit_and ps 0x1f) 11 0 c
