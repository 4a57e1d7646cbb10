-- ===== src/Cmds/ReadWrite.antt =====
-- What `Cmds/read.cpp` and `Cmds/write.cpp` have in common.
use tnvme.Base.{ℕ, ◌%◌, ◌^◌, ◌≤◌, ◌<◌, ◌≡◌, Bool, length, ok, ◌>>=◌}
use tnvme.Cmds.Cmd.{Cmd, bit_of}
use tnvme.Cmds.Writes.{IsValid, Wrote, dword, field}
use tnvme.Cmds.Read
use tnvme.Cmds.Write
use tnvme.Cmds.Read.Layout.{read_setters}
use tnvme.Cmds.Write.Layout.{write_setters}
use tnvme.Cmds.Read.Roundtrip.{read_slba, read_dword12, read_prinfo_reads, read_ilbrt}
use tnvme.Cmds.Write.Roundtrip.{write_slba, write_dword12, write_prinfo_reads, write_ilbrt}

module _ (c : Cmd) (V : IsValid c) (sized : length c.dwords ≡ 16) where
  fields_back :
      (lba nlb prinfo : ℕ) (fua lr : Bool)
      → lba < 2 ^ 64
      → prinfo ≤ 15
      → (((r : Cmd) × (Read.set_slba lba c ≡ ok r) × (Read.get_slba r ≡ ok lba))
          × ((r : Cmd) × (Write.set_slba lba c ≡ ok r) × (Write.get_slba r ≡ ok lba)))
        × ((r : Cmd) × ((Read.set_nlb nlb c >>= λ d.
                Read.set_prinfo prinfo d >>= λ e. Read.set_fua fua e >>= λ f. Read.set_lr lr f)
              ≡ ok r)
            × (Read.get_nlb r ≡ ok (nlb % 2 ^ 16))
            × (field r 12 26 4 ≡ prinfo)
            × (Read.get_fua r ≡ ok fua)
            × (Read.get_lr r ≡ ok lr))
        × ((r : Cmd) × ((Write.set_nlb nlb c >>= λ d.
                Write.set_prinfo prinfo d >>= λ e. Write.set_fua fua e >>= λ f. Write.set_lr lr f)
              ≡ ok r)
            × (Write.get_nlb r ≡ ok (nlb % 2 ^ 16))
            × (field r 12 26 4 ≡ prinfo)
            × (Write.get_fua r ≡ ok fua)
            × (Write.get_lr r ≡ ok lr))
  fields_back lba nlb prinfo fua lr small_lba small = (
    (read_slba c V sized lba small_lba, write_slba c V sized lba small_lba),
    read_dword12 c V sized nlb prinfo fua lr small,
    write_dword12 c V sized nlb prinfo fua lr small,
  )

  getters_read :
      (ilbrt : ℕ)
      → ilbrt < 2 ^ 32
      → (Read.get_prinfo c ≡ ok (field c 12 26 6))
        × (Write.get_prinfo c ≡ ok (field c 12 26 6))
        × ((r : Cmd) × (Read.set_eilbrt ilbrt c ≡ ok r) × (Read.get_eilbrt r ≡ ok (dword c 13)))
        × ((r : Cmd) × (Write.set_ilbrt ilbrt c ≡ ok r) × (Write.get_ilbrt r ≡ ok (dword c 13)))
  getters_read ilbrt small = (
    read_prinfo_reads c V sized,
    write_prinfo_reads c V sized,
    read_ilbrt c V sized ilbrt small,
    write_ilbrt c V sized ilbrt small,
  )

  -- On a valid command of 16 DWORDs each of these setters of a read and of a write command
  -- succeeds and writes exactly its field: LR is bit 31 of DWORD 12, FUA bit 30, PRINFO (at most
  -- 15) bits 26 to 29, NLB bits 0 to 15; of DWORD 13, incompressible is bit 7, sequential request
  -- bit 6, access latency (at most 3) bits 4 and 5, access frequency (at most 15) bits 0 to 3;
  -- EILBRT or ILBRT (of 32 bits) is DWORD 14, ELBATM or LBATM the upper and ELBAT or LBAT the
  -- lower word of DWORD 15. Every other bit, the size and the direction are kept.
  pub data_setters :
      (flag : Bool) (prinfo latent freq word ilbrt : ℕ)
      → prinfo ≤ 15
      → latent ≤ 3
      → freq ≤ 15
      → ilbrt < 2 ^ 32
      → (Wrote (Read.set_lr flag c) c 12 31 1 (bit_of flag)
          × Wrote (Read.set_fua flag c) c 12 30 1 (bit_of flag)
          × Wrote (Read.set_prinfo prinfo c) c 12 26 4 prinfo
          × Wrote (Read.set_nlb word c) c 12 0 16 word
          × Wrote (Read.set_dsm_incompress flag c) c 13 7 1 (bit_of flag)
          × Wrote (Read.set_dsm_seq_request flag c) c 13 6 1 (bit_of flag)
          × Wrote (Read.set_dsm_access_latent latent c) c 13 4 2 latent
          × Wrote (Read.set_dsm_access_freq freq c) c 13 0 4 freq
          × Wrote (Read.set_eilbrt ilbrt c) c 14 0 32 ilbrt
          × Wrote (Read.set_elbatm word c) c 15 16 16 word
          × Wrote (Read.set_elbat word c) c 15 0 16 word)
        × (Wrote (Write.set_lr flag c) c 12 31 1 (bit_of flag)
            × Wrote (Write.set_fua flag c) c 12 30 1 (bit_of flag)
            × Wrote (Write.set_prinfo prinfo c) c 12 26 4 prinfo
            × Wrote (Write.set_nlb word c) c 12 0 16 word
            × Wrote (Write.set_dsm_incompress flag c) c 13 7 1 (bit_of flag)
            × Wrote (Write.set_dsm_seq_request flag c) c 13 6 1 (bit_of flag)
            × Wrote (Write.set_dsm_access_latent latent c) c 13 4 2 latent
            × Wrote (Write.set_dsm_access_freq freq c) c 13 0 4 freq
            × Wrote (Write.set_ilbrt ilbrt c) c 14 0 32 ilbrt
            × Wrote (Write.set_lbatm word c) c 15 16 16 word
            × Wrote (Write.set_lbat word c) c 15 0 16 word)
  data_setters flag prinfo latent freq word ilbrt p l f i = (
    read_setters c V sized flag prinfo latent freq word ilbrt p l f i,
    write_setters c V sized flag prinfo latent freq word ilbrt p l f i,
  )

  -- On a valid command of 16 DWORDs SetSLBA of a 64-bit address of a read or of a write command
  -- succeeds, and GetSLBA then returns the address; setting NLB, PRINFO (at most 15), FUA and LR
  -- one after another succeeds, the getters of NLB (modulo 2^16), FUA and LR then return what was
  -- set, and the four bits of PRINFO hold its value. But GetPRINFO returns the six upper bits of
  -- DWORD 12, FUA and LR above the four bits of PRINFO; and SetEILBRT of a read and SetILBRT of a
  -- write command, of a 32-bit value, succeed, and GetEILBRT and GetILBRT then return what DWORD
  -- 13 held before.
  pub data_fields :
      (lba nlb prinfo ilbrt : ℕ) (fua lr : Bool)
      → lba < 2 ^ 64
      → prinfo ≤ 15
      → ilbrt < 2 ^ 32
      → ((((r : Cmd) × (Read.set_slba lba c ≡ ok r) × (Read.get_slba r ≡ ok lba))
            × ((r : Cmd) × (Write.set_slba lba c ≡ ok r) × (Write.get_slba r ≡ ok lba)))
          × ((r : Cmd) × ((Read.set_nlb nlb c >>= λ d.
                  Read.set_prinfo prinfo d >>= λ e. Read.set_fua fua e >>= λ f. Read.set_lr lr f)
                ≡ ok r)
              × (Read.get_nlb r ≡ ok (nlb % 2 ^ 16))
              × (field r 12 26 4 ≡ prinfo)
              × (Read.get_fua r ≡ ok fua)
              × (Read.get_lr r ≡ ok lr))
          × ((r : Cmd) × ((Write.set_nlb nlb c >>= λ d.
                  Write.set_prinfo prinfo d >>= λ e. Write.set_fua fua e >>= λ f. Write.set_lr lr f)
                ≡ ok r)
              × (Write.get_nlb r ≡ ok (nlb % 2 ^ 16))
              × (field r 12 26 4 ≡ prinfo)
              × (Write.get_fua r ≡ ok fua)
              × (Write.get_lr r ≡ ok lr)))
        × ((Read.get_prinfo c ≡ ok (field c 12 26 6))
            × (Write.get_prinfo c ≡ ok (field c 12 26 6))
            × ((r : Cmd) × (Read.set_eilbrt ilbrt c ≡ ok r) × (Read.get_eilbrt r ≡ ok (dword c 13)))
            × ((r : Cmd) × (Write.set_ilbrt ilbrt c ≡ ok r)
                × (Write.get_ilbrt r ≡ ok (dword c 13))))
  data_fields lba nlb prinfo ilbrt fua lr small_lba small small_ilbrt =
      (fields_back lba nlb prinfo fua lr small_lba small, getters_read ilbrt small_ilbrt)
