-- ===== src/Cmds/Read/Roundtrip.antt =====
-- What the getters of `Cmds/read.cpp` return after its setters.
use tnvme.Base.{ℕ, ◌/◌, ◌%◌, ◌^◌, ◌≤◌, ◌<◌, ◌≡◌, ap, ◌∙◌, Bool, length, ok, ◌>>=◌, arith, ◌==◌}
use tnvme.Cmds.Cmd.{Cmd, bit_of}
use tnvme.Cmds.Writes.{
  IsValid, Wrote, dword, field, get_dword_ok, get_bits_ok, set_bits-Wrote, set_dword-Wrote,
}
use tnvme.Cmds.Dword12.{four_writes}
use tnvme.Cmds.Fields.{bool_back, field_rest, dword_written, halves}
use tnvme.Cmds.Read.{
  set_slba, get_slba, set_lr, get_lr, set_fua, get_fua, set_prinfo, get_prinfo, set_nlb, get_nlb,
  set_eilbrt, get_eilbrt,
}
use tnvme.Cmds.Read.Layout.{set_prinfo-Wrote, read_getters}

module _ (c : Cmd) (V : IsValid c) (sized : length c.dwords ≡ 16) where
  -- On a valid command of 16 DWORDs SetSLBA of a 64-bit address of a read command succeeds, and
  -- GetSLBA then returns the address.
  pub read_slba :
      (lba : ℕ) → lba < 2 ^ 64 → (r : Cmd) × (set_slba lba c ≡ ok r) × (get_slba r ≡ ok lba)
  unfolding set_slba get_slba Wrote
  read_slba lba small =
      let s = set_dword-Wrote c V 10 (omega arith) (lba % 2 ^ 32) (omega arith) in
      let d = s.0 in
      let W = s.2 in
      let t =
        set_dword-Wrote d W.valid 11 (omega (arith, W.same_size)) (lba / 2 ^ 32 % 2 ^ 32)
          (omega arith) in
      let r = t.0 in
      let U = t.2 in
      let low : dword r 10 ≡ lba % 2 ^ 32 =
        U.other 10 (λ e. omega arith) ∙ dword_written c 10 (lba % 2 ^ 32) d W (omega arith) in
      let high : dword r 11 ≡ lba / 2 ^ 32 % 2 ^ 32 =
        dword_written d 11 (lba / 2 ^ 32 % 2 ^ 32) r U (omega arith) in
      (
        r,
        rw s.1 t.1,
        rw
            (
              get_dword_ok r U.valid 10 (omega (arith, U.same_size, W.same_size)),
              get_dword_ok r U.valid 11 (omega (arith, U.same_size, W.same_size)),
              low,
              high,
            )
            (ap ok (halves lba small)),
      )

  -- On a valid command of 16 DWORDs, setting NLB, PRINFO (at most 15), FUA and LR of a read
  -- command one after another succeeds; the getters of NLB (modulo 2^16), FUA and LR then return
  -- what was set, and the four bits of PRINFO hold its value.
  pub read_dword12 :
      (nlb prinfo : ℕ) (fua lr : Bool)
      → prinfo ≤ 15
      → (r : Cmd) × ((set_nlb nlb c >>= λ d.
            set_prinfo prinfo d >>= λ e. set_fua fua e >>= λ f. set_lr lr f)
          ≡ ok r)
        × (get_nlb r ≡ ok (nlb % 2 ^ 16))
        × (field r 12 26 4 ≡ prinfo)
        × (get_fua r ≡ ok fua)
        × (get_lr r ≡ ok lr)
  unfolding set_nlb set_fua set_lr
  read_dword12 nlb prinfo fua lr small =
      let x =
        four_writes (set_nlb nlb) (set_prinfo prinfo) (set_fua fua) (set_lr lr) nlb prinfo
          (bit_of fua) (bit_of lr)
          (λ d U z. set_bits-Wrote d U 12 0 16 (omega arith) (omega arith) nlb)
          (λ d U z. set_prinfo-Wrote d U z prinfo small)
          (λ d U z. set_bits-Wrote d U 12 30 1 (omega arith) (omega arith) (bit_of fua))
          (λ d U z. set_bits-Wrote d U 12 31 1 (omega arith) (omega arith) (bit_of lr)) c V sized in
      let g = read_getters x.0 x.2 x.3 in
      (
        x.0,
        x.1,
        g.2 ∙ ap ok x.4,
        x.5 ∙ omega arith,
        g.1 ∙ (ap (λ y. ok (y == 1)) x.6 ∙ ap ok (bool_back fua)),
        g.0 ∙ (ap (λ y. ok (y == 1)) x.7 ∙ ap ok (bool_back lr)),
      )

  -- On a valid command of 16 DWORDs GetPRINFO of the read command returns the six upper bits of
  -- DWORD 12: the four bits of PRINFO with FUA and LR above them.
  pub read_prinfo_reads : get_prinfo c ≡ ok (field c 12 26 6)
  unfolding get_prinfo
  read_prinfo_reads =
      rw (get_bits_ok c V 12 1 16 (omega arith) (omega arith))
        (ap ok (field_rest c V 12 16 10 6 (omega arith)))

  -- On a valid command of 16 DWORDs, SetEILBRT of a 32-bit value succeeds, and GetEILBRT then
  -- returns what DWORD 13 held before.
  pub read_ilbrt :
      (ilbrt : ℕ)
      → ilbrt < 2 ^ 32
      → (r : Cmd) × (set_eilbrt ilbrt c ≡ ok r) × (get_eilbrt r ≡ ok (dword c 13))
  unfolding set_eilbrt get_eilbrt Wrote
  read_ilbrt ilbrt small =
      let s = set_dword-Wrote c V 14 (omega arith) ilbrt small in
      let W = s.2 in
      (
        s.0,
        s.1,
        get_dword_ok s.0 W.valid 13 (omega (arith, W.same_size))
            ∙ ap ok (W.other 13 (λ e. omega arith)),
      )
