-- ===== src/Cmds/Write/Layout.antt =====
-- The layout of the write command: which bits each accessor of `Cmds/write.cpp` reads and writes.
use tnvme.Base.{
  ℕ, ◌*◌, ◌^◌, ◌≤◌, ◌<◌, ◌≡◌, refl, ap, Bool, length, ok, thrown, arith, le→ltb, lt→ltb, ◌==◌,
}
use tnvme.Cmds.Field.{mask_of}
use tnvme.Cmds.Cmd.{Cmd, bit_of}
use tnvme.Cmds.Writes.{IsValid, Wrote, field, get_bits_ok, set_bits-Wrote, set_dword-Wrote}
use tnvme.Cmds.Update.{shifted, update-Wrote}
use tnvme.Cmds.Fields.{field_inner}
use tnvme.Cmds.Write.{
  set_lr, set_fua, set_prinfo, set_nlb, set_dsm_incompress, set_dsm_seq_request,
  set_dsm_access_latent, set_dsm_access_freq, set_ilbrt, set_lbatm, set_lbat, get_lr, get_fua,
  get_nlb, get_dsm_incompress, get_dsm_seq_request, get_dsm_access_latent, get_dsm_access_freq,
  get_lbatm, get_lbat,
}

module _ (c : Cmd) (V : IsValid c) (sized : length c.dwords ≡ 16) where
  pub set_prinfo-Wrote : (v : ℕ) → v ≤ 15 → Wrote (set_prinfo v c) c 12 26 4 v
  unfolding set_prinfo mask_of
  set_prinfo-Wrote v h = rw (le→ltb 15 v h) (
      update-Wrote c V 12 1 16 (omega arith) (omega arith) 10 4 v 0x3c00 (v * 2 ^ 10) refl
        (omega arith) (omega arith) (shifted v 10 4 (omega arith)))

  set_latent-Wrote : (v : ℕ) → v ≤ 3 → Wrote (set_dsm_access_latent v c) c 13 4 2 v
  unfolding set_dsm_access_latent mask_of
  set_latent-Wrote v h = rw (le→ltb 3 v h) (
      update-Wrote c V 13 0 8 (omega arith) (omega arith) 4 2 v 0x30 (v * 2 ^ 4) refl (omega arith)
        (omega arith) (shifted v 4 2 (omega arith)))

  set_freq-Wrote : (v : ℕ) → v ≤ 15 → Wrote (set_dsm_access_freq v c) c 13 0 4 v
  unfolding set_dsm_access_freq mask_of
  set_freq-Wrote v h = rw (le→ltb 15 v h) (
      update-Wrote c V 13 0 8 (omega arith) (omega arith) 0 4 v 0x0f (v * 2 ^ 0) refl (omega arith)
        (omega arith) (shifted v 0 4 (omega arith)))

  pub write_setters :
      (flag : Bool) (prinfo latent freq word ilbrt : ℕ)
      → prinfo ≤ 15
      → latent ≤ 3
      → freq ≤ 15
      → ilbrt < 2 ^ 32
      → Wrote (set_lr flag c) c 12 31 1 (bit_of flag)
        × Wrote (set_fua flag c) c 12 30 1 (bit_of flag)
        × Wrote (set_prinfo prinfo c) c 12 26 4 prinfo
        × Wrote (set_nlb word c) c 12 0 16 word
        × Wrote (set_dsm_incompress flag c) c 13 7 1 (bit_of flag)
        × Wrote (set_dsm_seq_request flag c) c 13 6 1 (bit_of flag)
        × Wrote (set_dsm_access_latent latent c) c 13 4 2 latent
        × Wrote (set_dsm_access_freq freq c) c 13 0 4 freq
        × Wrote (set_ilbrt ilbrt c) c 14 0 32 ilbrt
        × Wrote (set_lbatm word c) c 15 16 16 word
        × Wrote (set_lbat word c) c 15 0 16 word
  unfolding set_lr set_fua set_nlb set_dsm_incompress set_dsm_seq_request set_ilbrt set_lbatm
      set_lbat
  write_setters flag prinfo latent freq word ilbrt p l f i = (
    set_bits-Wrote c V 12 31 1 (omega arith) (omega arith) (bit_of flag),
    set_bits-Wrote c V 12 30 1 (omega arith) (omega arith) (bit_of flag),
    set_prinfo-Wrote prinfo p,
    set_bits-Wrote c V 12 0 16 (omega arith) (omega arith) word,
    set_bits-Wrote c V 13 7 1 (omega arith) (omega arith) (bit_of flag),
    set_bits-Wrote c V 13 6 1 (omega arith) (omega arith) (bit_of flag),
    set_latent-Wrote latent l,
    set_freq-Wrote freq f,
    set_dword-Wrote c V 14 (omega arith) ilbrt i,
    set_bits-Wrote c V 15 1 16 (omega arith) (omega arith) word,
    set_bits-Wrote c V 15 0 16 (omega arith) (omega arith) word,
  )

  -- On a valid command of 16 DWORDs the getters of LR, FUA, NLB, the four DSM fields, LBATM and
  -- LBAT of the write command return the fields of DWORDs 12, 13 and 15 that their setters write.
  pub write_getters :
      (get_lr c ≡ ok (field c 12 31 1 == 1))
      × (get_fua c ≡ ok (field c 12 30 1 == 1))
      × (get_nlb c ≡ ok (field c 12 0 16))
      × (get_dsm_incompress c ≡ ok (field c 13 7 1 == 1))
      × (get_dsm_seq_request c ≡ ok (field c 13 6 1 == 1))
      × (get_dsm_access_latent c ≡ ok (field c 13 4 2))
      × (get_dsm_access_freq c ≡ ok (field c 13 0 4))
      × (get_lbatm c ≡ ok (field c 15 16 16))
      × (get_lbat c ≡ ok (field c 15 0 16))
  unfolding get_lr get_fua get_nlb get_dsm_incompress get_dsm_seq_request get_dsm_access_latent
      get_dsm_access_freq get_lbatm get_lbat mask_of
  write_getters = (
    rw (get_bits_ok c V 12 31 1 (omega arith) (omega arith)) refl,
    rw (get_bits_ok c V 12 30 1 (omega arith) (omega arith)) refl,
    get_bits_ok c V 12 0 16 (omega arith) (omega arith),
    rw (get_bits_ok c V 13 7 1 (omega arith) (omega arith)) refl,
    rw (get_bits_ok c V 13 6 1 (omega arith) (omega arith)) refl,
    rw (get_bits_ok c V 13 0 8 (omega arith) (omega arith))
        (ap ok (field_inner c V 13 0 8 4 2 3 refl (omega arith))),
    rw (get_bits_ok c V 13 0 8 (omega arith) (omega arith))
        (ap ok (field_inner c V 13 0 8 0 4 0x0f refl (omega arith))),
    get_bits_ok c V 15 1 16 (omega arith) (omega arith),
    get_bits_ok c V 15 0 16 (omega arith) (omega arith),
  )

-- Of a write command, SetPRINFO of a value above 15, SetDSMAccessLatent of one above 3 and
-- SetDSMAccessFreq of one above 15 throw, whatever the command holds.
write_limits :
    (c : Cmd) (prinfo latent freq : ℕ)
    → 15 < prinfo
    → 3 < latent
    → 15 < freq
    → (set_prinfo prinfo c ≡ thrown)
      × (set_dsm_access_latent latent c ≡ thrown)
      × (set_dsm_access_freq freq c ≡ thrown)
unfolding set_prinfo set_dsm_access_latent set_dsm_access_freq
write_limits c prinfo latent freq p l f =
    (rw (lt→ltb 15 prinfo p) refl, rw (lt→ltb 3 latent l) refl, rw (lt→ltb 15 freq f) refl)
