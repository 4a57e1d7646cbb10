-- ===== src/Cmds/SetFeatures/Pairs.antt =====
-- The features of `Cmds/setFeatures.cpp` that several fields make up.
use tnvme.Base.{ℕ, ◌%◌, ◌^◌, ◌≡◌, ◌≤◌, Bool, length, ok}
use tnvme.Cmds.Cmd.{Cmd, bit_of}
use tnvme.Cmds.Writes.{IsValid, Wrote, field}
use tnvme.Cmds.SetFeatures
use tnvme.Cmds.SetFeatures.Layout.{features_setters}
use tnvme.Cmds.SetFeatures.Roundtrip.{
  features_arbitration, features_number_of_queues, features_int_coalescing, features_int_vec_config,
}

features_back :
    (c : Cmd) (a b hpw mpw lpw ab : ℕ)
    → IsValid c
    → length c.dwords ≡ 16
    → ((r : Cmd) × (SetFeatures.set_arbitration hpw mpw lpw ab c ≡ ok r)
        × (SetFeatures.get_arbitration_hpw r ≡ ok (hpw % 2 ^ 8))
        × (SetFeatures.get_arbitration_mpw r ≡ ok (mpw % 2 ^ 8))
        × (SetFeatures.get_arbitration_lpw r ≡ ok (lpw % 2 ^ 8))
        × (SetFeatures.get_arbitration_ab r ≡ ok (ab % 2 ^ 3))
        × (field r 11 0 8 ≡ ab % 2 ^ 8))
      × ((r : Cmd) × (SetFeatures.set_number_of_queues a b c ≡ ok r)
          × (SetFeatures.get_number_of_queues_ncqr r ≡ ok (a % 2 ^ 16))
          × (SetFeatures.get_number_of_queues_nsqr r ≡ ok (b % 2 ^ 16)))
      × ((r : Cmd) × (SetFeatures.set_int_coalescing a b c ≡ ok r)
          × (SetFeatures.get_int_coalescing_time r ≡ ok (a % 2 ^ 8))
          × (SetFeatures.get_int_coalescing_thr r ≡ ok (b % 2 ^ 8)))
      × ((r : Cmd) × (SetFeatures.set_int_vec_config a b c ≡ ok r)
          × (SetFeatures.get_int_vec_config_cd r ≡ ok (a % 2))
          × (SetFeatures.get_int_vec_config_iv r ≡ ok (b % 2 ^ 16)))
features_back c a b hpw mpw lpw ab V sized = (
  features_arbitration c hpw mpw lpw ab V sized,
  features_number_of_queues c V sized a b,
  features_int_coalescing c V sized a b,
  features_int_vec_config c V sized a b,
)

-- On a valid command of 16 DWORDs each single setter of the Set Features command but
-- SetArbitrationAB succeeds, SetPowerManagementPS for a power state of at most NPSS, and writes
-- exactly its field of DWORD 10 or 11, the masked ones only as many bits as their mask has; every
-- other bit, the size and the direction are kept. SetArbitration succeeds, its getters then return
-- the three weights modulo 2^8 and the burst modulo 2^3, and the lowest byte of DWORD 11 holds the
-- argument ab modulo 2^8, its five reserved bits included; SetNumberOfQueues, SetIntCoalescing and
-- SetIntVecConfig succeed, and their two getters then return the arguments: both modulo 2^16, both
-- modulo 2^8, and the lowest bit of the first with the second modulo 2^16.
pub features_fields :
    (c : Cmd) (flag : Bool) (v ps npss a b hpw mpw lpw ab : ℕ)
    → IsValid c
    → length c.dwords ≡ 16
    → ps ≤ npss % 2 ^ 8
    → (Wrote (SetFeatures.set_fid v c) c 10 0 8 v
        × Wrote (SetFeatures.set_save flag c) c 10 31 1 (bit_of flag)
        × Wrote (SetFeatures.set_arbitration_hpw v c) c 11 24 8 v
        × Wrote (SetFeatures.set_arbitration_mpw v c) c 11 16 8 v
        × Wrote (SetFeatures.set_arbitration_lpw v c) c 11 8 8 v
        × Wrote (SetFeatures.set_power_management_ps npss ps c) c 11 0 5 ps
        × Wrote (SetFeatures.set_unsafe_ps v c) c 11 0 5 v
        × Wrote (SetFeatures.set_lba_range_type_num v c) c 11 0 6 v
        × Wrote (SetFeatures.set_temp_threshold_tmpth v c) c 11 0 16 v
        × Wrote (SetFeatures.set_err_recovery_tler v c) c 11 0 16 v
        × Wrote (SetFeatures.set_err_recovery_dulbe flag c) c 11 16 1 (bit_of flag)
        × Wrote (SetFeatures.set_volatile_write_cache_wce v c) c 11 0 1 v
        × Wrote (SetFeatures.set_number_of_queues_ncqr v c) c 11 16 16 v
        × Wrote (SetFeatures.set_number_of_queues_nsqr v c) c 11 0 16 v
        × Wrote (SetFeatures.set_int_coalescing_time v c) c 11 8 8 v
        × Wrote (SetFeatures.set_int_coalescing_thr v c) c 11 0 8 v
        × Wrote (SetFeatures.set_int_vec_config_iv v c) c 11 0 16 v
        × Wrote (SetFeatures.set_int_vec_config_cd v c) c 11 16 1 v
        × Wrote (SetFeatures.set_write_atomicity_dn v c) c 11 0 1 v
        × Wrote (SetFeatures.set_async_event_config_smart v c) c 11 0 16 v
        × Wrote (SetFeatures.set_sw_progress_marker_pbslc v c) c 11 0 8 v
        × Wrote (SetFeatures.set_auto_ps_trans_apste flag c) c 11 0 1 (bit_of flag))
      × (((r : Cmd) × (SetFeatures.set_arbitration hpw mpw lpw ab c ≡ ok r)
            × (SetFeatures.get_arbitration_hpw r ≡ ok (hpw % 2 ^ 8))
            × (SetFeatures.get_arbitration_mpw r ≡ ok (mpw % 2 ^ 8))
            × (SetFeatures.get_arbitration_lpw r ≡ ok (lpw % 2 ^ 8))
            × (SetFeatures.get_arbitration_ab r ≡ ok (ab % 2 ^ 3))
            × (field r 11 0 8 ≡ ab % 2 ^ 8))
          × ((r : Cmd) × (SetFeatures.set_number_of_queues a b c ≡ ok r)
              × (SetFeatures.get_number_of_queues_ncqr r ≡ ok (a % 2 ^ 16))
              × (SetFeatures.get_number_of_queues_nsqr r ≡ ok (b % 2 ^ 16)))
          × ((r : Cmd) × (SetFeatures.set_int_coalescing a b c ≡ ok r)
              × (SetFeatures.get_int_coalescing_time r ≡ ok (a % 2 ^ 8))
              × (SetFeatures.get_int_coalescing_thr r ≡ ok (b % 2 ^ 8)))
          × ((r : Cmd) × (SetFeatures.set_int_vec_config a b c ≡ ok r)
              × (SetFeatures.get_int_vec_config_cd r ≡ ok (a % 2))
              × (SetFeatures.get_int_vec_config_iv r ≡ ok (b % 2 ^ 16))))
features_fields c flag v ps npss a b hpw mpw lpw ab V sized p =
    (features_setters c V sized flag v ps npss p, features_back c a b hpw mpw lpw ab V sized)
