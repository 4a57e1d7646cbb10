-- ===== src/Cmds/SetFeatures/Layout.antt =====
-- The layout of the Set Features command: which bits each accessor of `Cmds/setFeatures.cpp`
-- reads and writes.
use tnvme.Base.{
  ℕ, ◌+◌, ◌*◌, ◌%◌, ◌^◌, ◌≤◌, ◌<◌, ◌≡◌, refl, ap, ◌∙◌, subst, bit_and, Bool, length, ok, ◌>>=◌,
  arith, le→ltb, ◌==◌,
}
use tnvme.Cmds.Field.{mask_of}
use tnvme.Cmds.Cmd.{Cmd, bit_of, update, get_bits}
use tnvme.Cmds.Writes.{IsValid, Wrote, field, get_bits_ok, set_bits-Wrote}
use tnvme.Cmds.Update.{masked, update-Wrote}
use tnvme.Cmds.Fields.{field_low}
use tnvme.Cmds.SetFeatures.{
  set_fid, get_fid, set_arbitration_hpw, get_arbitration_hpw, set_arbitration_mpw,
  get_arbitration_mpw, set_arbitration_lpw, get_arbitration_lpw, set_arbitration_ab,
  get_arbitration_ab, set_power_management_ps, get_power_management_ps, set_lba_range_type_num,
  get_lba_range_type_num, set_temp_threshold_tmpth, get_temp_threshold_tmpth, set_err_recovery_tler,
  get_err_recovery_tler, set_err_recovery_dulbe, get_err_recovery_dulbe,
  set_volatile_write_cache_wce, get_volatile_write_cache_wce, set_number_of_queues_ncqr,
  get_number_of_queues_ncqr, set_number_of_queues_nsqr, get_number_of_queues_nsqr,
  set_int_coalescing_time, get_int_coalescing_time, set_int_coalescing_thr, get_int_coalescing_thr,
  set_int_vec_config_iv, get_int_vec_config_iv, set_int_vec_config_cd, get_int_vec_config_cd,
  set_write_atomicity_dn, get_write_atomicity_dn, set_async_event_config_smart,
  get_async_event_config_smart, set_sw_progress_marker_pbslc, get_sw_progress_marker_pbslc,
  set_auto_ps_trans_apste, get_auto_ps_trans_apste, set_save, set_unsafe_ps,
}

module _ (c : Cmd) (V : IsValid c) (sized : length c.dwords ≡ 16) where
  pub byte_masked :
      (off n mask v : ℕ)
      → off ≤ 3
      → n ≤ 8
      → mask ≡ mask_of n
      → mask < 2 ^ 8
      → Wrote (update 8 mask (bit_and v mask) 11 off c) c 11 (off * 8) n v
  byte_masked off n mask v o h e m =
      let e0 : off * 8 + 0 ≡ off * 8 = omega arith in
      let e1 : mask_of n ≡ mask_of n * 2 ^ 0 = omega arith in
      subst (λ k. Wrote (update 8 mask (bit_and v mask) 11 off c) c 11 k n v) e0
        (update-Wrote c V 11 off 8 (omega arith) (omega arith) 0 n v mask (bit_and v mask) (e ∙ e1)
          m (omega arith) (masked v n mask e))

  pub features_setters :
      (flag : Bool) (v ps npss : ℕ)
      → ps ≤ npss % 2 ^ 8
      → Wrote (set_fid v c) c 10 0 8 v
        × Wrote (set_save flag c) c 10 31 1 (bit_of flag)
        × Wrote (set_arbitration_hpw v c) c 11 24 8 v
        × Wrote (set_arbitration_mpw v c) c 11 16 8 v
        × Wrote (set_arbitration_lpw v c) c 11 8 8 v
        × Wrote (set_power_management_ps npss ps c) c 11 0 5 ps
        × Wrote (set_unsafe_ps v c) c 11 0 5 v
        × Wrote (set_lba_range_type_num v c) c 11 0 6 v
        × Wrote (set_temp_threshold_tmpth v c) c 11 0 16 v
        × Wrote (set_err_recovery_tler v c) c 11 0 16 v
        × Wrote (set_err_recovery_dulbe flag c) c 11 16 1 (bit_of flag)
        × Wrote (set_volatile_write_cache_wce v c) c 11 0 1 v
        × Wrote (set_number_of_queues_ncqr v c) c 11 16 16 v
        × Wrote (set_number_of_queues_nsqr v c) c 11 0 16 v
        × Wrote (set_int_coalescing_time v c) c 11 8 8 v
        × Wrote (set_int_coalescing_thr v c) c 11 0 8 v
        × Wrote (set_int_vec_config_iv v c) c 11 0 16 v
        × Wrote (set_int_vec_config_cd v c) c 11 16 1 v
        × Wrote (set_write_atomicity_dn v c) c 11 0 1 v
        × Wrote (set_async_event_config_smart v c) c 11 0 16 v
        × Wrote (set_sw_progress_marker_pbslc v c) c 11 0 8 v
        × Wrote (set_auto_ps_trans_apste flag c) c 11 0 1 (bit_of flag)
  unfolding set_fid set_save set_arbitration_hpw set_arbitration_mpw set_arbitration_lpw
      set_power_management_ps set_unsafe_ps set_lba_range_type_num set_temp_threshold_tmpth
      set_err_recovery_tler set_err_recovery_dulbe set_volatile_write_cache_wce
      set_number_of_queues_ncqr set_number_of_queues_nsqr set_int_coalescing_time
      set_int_coalescing_thr set_int_vec_config_iv set_int_vec_config_cd set_write_atomicity_dn
      set_async_event_config_smart set_sw_progress_marker_pbslc set_auto_ps_trans_apste mask_of
  features_setters flag v ps npss p = (
    set_bits-Wrote c V 10 0 8 (omega arith) (omega arith) v,
    set_bits-Wrote c V 10 31 1 (omega arith) (omega arith) (bit_of flag),
    set_bits-Wrote c V 11 3 8 (omega arith) (omega arith) v,
    set_bits-Wrote c V 11 2 8 (omega arith) (omega arith) v,
    set_bits-Wrote c V 11 1 8 (omega arith) (omega arith) v,
    rw (le→ltb (npss % 2 ^ 8) ps p)
        (byte_masked 0 5 0x1f ps (omega arith) (omega arith) refl (omega arith)),
    byte_masked 0 5 0x1f v (omega arith) (omega arith) refl (omega arith),
    byte_masked 0 6 0x3f v (omega arith) (omega arith) refl (omega arith),
    set_bits-Wrote c V 11 0 16 (omega arith) (omega arith) v,
    set_bits-Wrote c V 11 0 16 (omega arith) (omega arith) v,
    set_bits-Wrote c V 11 16 1 (omega arith) (omega arith) (bit_of flag),
    byte_masked 0 1 0x1 v (omega arith) (omega arith) refl (omega arith),
    set_bits-Wrote c V 11 1 16 (omega arith) (omega arith) v,
    set_bits-Wrote c V 11 0 16 (omega arith) (omega arith) v,
    set_bits-Wrote c V 11 1 8 (omega arith) (omega arith) v,
    set_bits-Wrote c V 11 0 8 (omega arith) (omega arith) v,
    set_bits-Wrote c V 11 0 16 (omega arith) (omega arith) v,
    byte_masked 2 1 0x1 v (omega arith) (omega arith) refl (omega arith),
    byte_masked 0 1 0x1 v (omega arith) (omega arith) refl (omega arith),
    set_bits-Wrote c V 11 0 16 (omega arith) (omega arith) v,
    set_bits-Wrote c V 11 0 8 (omega arith) (omega arith) v,
    set_bits-Wrote c V 11 0 1 (omega arith) (omega arith) (bit_of flag),
  )

  -- SetArbitrationAB writes the whole low byte, its value unmasked.
  pub set_arbitration_ab-Wrote : (ab : ℕ) → Wrote (set_arbitration_ab ab c) c 11 0 8 ab
  unfolding set_arbitration_ab
  set_arbitration_ab-Wrote ab =
      rw (get_bits_ok c V 11 0 8 (omega arith) (omega arith))
        (set_bits-Wrote c V 11 0 8 (omega arith) (omega arith) ab)

  byte_low :
      (off n mask : ℕ)
      → off ≤ 3
      → n ≤ 8
      → mask ≡ mask_of n
      → (get_bits 11 off 8 c >>= λ b. ok (bit_and b mask)) ≡ ok (field c 11 (off * 8) n)
  byte_low off n mask o h e =
      rw (get_bits_ok c V 11 off 8 (omega arith) (omega arith))
        (ap ok (field_low c V 11 (off * 8) 8 n mask e h))

  -- On a valid command of 16 DWORDs each single getter of the Set Features command returns its
  -- field of DWORD 10 or 11, the masked ones only as many bits as their mask has.
  pub features_getters :
      (get_fid c ≡ ok (field c 10 0 8))
      × (get_arbitration_hpw c ≡ ok (field c 11 24 8))
      × (get_arbitration_mpw c ≡ ok (field c 11 16 8))
      × (get_arbitration_lpw c ≡ ok (field c 11 8 8))
      × (get_arbitration_ab c ≡ ok (field c 11 0 3))
      × (get_power_management_ps c ≡ ok (field c 11 0 5))
      × (get_lba_range_type_num c ≡ ok (field c 11 0 6))
      × (get_temp_threshold_tmpth c ≡ ok (field c 11 0 16))
      × (get_err_recovery_tler c ≡ ok (field c 11 0 16))
      × (get_err_recovery_dulbe c ≡ ok (field c 11 16 1 == 1))
      × (get_volatile_write_cache_wce c ≡ ok (field c 11 0 1))
      × (get_number_of_queues_ncqr c ≡ ok (field c 11 16 16))
      × (get_number_of_queues_nsqr c ≡ ok (field c 11 0 16))
      × (get_int_coalescing_time c ≡ ok (field c 11 8 8))
      × (get_int_coalescing_thr c ≡ ok (field c 11 0 8))
      × (get_int_vec_config_iv c ≡ ok (field c 11 0 16))
      × (get_int_vec_config_cd c ≡ ok (field c 11 16 1))
      × (get_write_atomicity_dn c ≡ ok (field c 11 0 1))
      × (get_async_event_config_smart c ≡ ok (field c 11 0 16))
      × (get_sw_progress_marker_pbslc c ≡ ok (field c 11 0 8))
      × (get_auto_ps_trans_apste c ≡ ok (field c 11 0 1 == 1))
  unfolding get_fid get_arbitration_hpw get_arbitration_mpw get_arbitration_lpw get_arbitration_ab
      get_power_management_ps get_lba_range_type_num get_temp_threshold_tmpth get_err_recovery_tler
      get_err_recovery_dulbe get_volatile_write_cache_wce get_number_of_queues_ncqr
      get_number_of_queues_nsqr get_int_coalescing_time get_int_coalescing_thr get_int_vec_config_iv
      get_int_vec_config_cd get_write_atomicity_dn get_async_event_config_smart
      get_sw_progress_marker_pbslc get_auto_ps_trans_apste mask_of
  features_getters = (
    get_bits_ok c V 10 0 8 (omega arith) (omega arith),
    get_bits_ok c V 11 3 8 (omega arith) (omega arith),
    get_bits_ok c V 11 2 8 (omega arith) (omega arith),
    get_bits_ok c V 11 1 8 (omega arith) (omega arith),
    byte_low 0 3 0x7 (omega arith) (omega arith) refl,
    byte_low 0 5 0x1f (omega arith) (omega arith) refl,
    byte_low 0 6 0x3f (omega arith) (omega arith) refl,
    get_bits_ok c V 11 0 16 (omega arith) (omega arith),
    get_bits_ok c V 11 0 16 (omega arith) (omega arith),
    rw (get_bits_ok c V 11 16 1 (omega arith) (omega arith)) refl,
    byte_low 0 1 0x1 (omega arith) (omega arith) refl,
    get_bits_ok c V 11 1 16 (omega arith) (omega arith),
    get_bits_ok c V 11 0 16 (omega arith) (omega arith),
    get_bits_ok c V 11 1 8 (omega arith) (omega arith),
    get_bits_ok c V 11 0 8 (omega arith) (omega arith),
    get_bits_ok c V 11 0 16 (omega arith) (omega arith),
    byte_low 2 1 0x1 (omega arith) (omega arith) refl,
    byte_low 0 1 0x1 (omega arith) (omega arith) refl,
    get_bits_ok c V 11 0 16 (omega arith) (omega arith),
    get_bits_ok c V 11 0 8 (omega arith) (omega arith),
    rw (get_bits_ok c V 11 0 1 (omega arith) (omega arith)) refl,
  )
