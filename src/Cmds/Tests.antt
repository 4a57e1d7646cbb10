-- ===== src/Cmds/Tests.antt =====
-- The theorems about commands at the command that the framework builds: 64 bytes, all 0 but for
-- the opcode.
use tnvme.Base.{
  ℕ, ◌*◌, ◌≡◌, ◌≤◌, inl, inr, refl, true, false, zero, suc, get_or, replicate, ◌∷◌, ok, arith,
}
use tnvme.Cmds.Cmd.{Cmd, DataDir, set_bits, get_bits}
use tnvme.Cmds.Writes.{IsValid, Wrote, dword, field}
use tnvme.Cmds.Roundtrip.{set_bits-get_bits}
use tnvme.Cmds.Fields.{Apart}
use tnvme.Cmds.Read
use tnvme.Cmds.Write
use tnvme.Cmds.SetFeatures
use tnvme.Cmds.ReadWrite.{data_setters, data_fields}
use tnvme.Cmds.SetFeatures.Pairs.{features_fields}

abbrev cmd : Cmd
cmd = record { dwords = 2 ∷ replicate 15 0; data_dir = DataDir.from_device }

zeros_small : (n w : ℕ) → get_or (replicate n 0) w 0 ≤ 2
zeros_small zero w = omega arith
zeros_small (suc n) zero = omega arith
zeros_small (suc n) (suc w) = zeros_small n w

dword-cmd : (w : ℕ) → dword cmd w ≤ 2
unfolding dword
dword-cmd zero = omega arith
dword-cmd (suc w) = zeros_small 15 w

cmd-IsValid : IsValid cmd
cmd-IsValid = record { small = omega arith; word32 = λ w. omega (arith, dword-cmd w) }

apart : Apart 12 (1 * 8) 8 12 (0 * 8) 8
unfolding Apart
apart = inr (inl (omega arith))

set_bits-get_bits_example :
    (r : Cmd) × (set_bits 300 12 1 8 cmd ≡ ok r)
    × IsValid r
    × (get_bits 12 1 8 r ≡ ok 44)
    × (get_bits 12 0 8 r ≡ get_bits 12 0 8 cmd)
set_bits-get_bits_example =
    set_bits-get_bits cmd 300 12 1 8 12 0 8 cmd-IsValid (omega arith) (omega arith) (omega arith)
      (omega arith) apart

data_setters_example :
    Wrote (Read.set_prinfo 5 cmd) cmd 12 26 4 5 × Wrote (Write.set_prinfo 5 cmd) cmd 12 26 4 5
data_setters_example =
    let all =
      data_setters cmd cmd-IsValid refl true 5 3 15 70000 9 (omega arith) (omega arith)
        (omega arith) (omega arith) in
    (all.0.2, all.1.2)

data_fields_example :
    ((r : Cmd) × (Read.set_slba 0x123456789a cmd ≡ ok r) × (Read.get_slba r ≡ ok 0x123456789a))
    × (Read.get_prinfo cmd ≡ ok (field cmd 12 26 6))
data_fields_example =
    let all =
      data_fields cmd cmd-IsValid refl 0x123456789a 7 9 5 true false (omega arith) (omega arith)
        (omega arith) in
    (all.0.0.0, all.1.0)

features_fields_example :
    Wrote (SetFeatures.set_power_management_ps 4 3 cmd) cmd 11 0 5 3
    × Wrote (SetFeatures.set_temp_threshold_tmpth 60000 cmd) cmd 11 0 16 60000
    × ((r : Cmd) × (SetFeatures.set_arbitration 1 2 3 255 cmd ≡ ok r)
        × (SetFeatures.get_arbitration_hpw r ≡ ok 1)
        × (SetFeatures.get_arbitration_mpw r ≡ ok 2)
        × (SetFeatures.get_arbitration_lpw r ≡ ok 3)
        × (SetFeatures.get_arbitration_ab r ≡ ok 7)
        × (field r 11 0 8 ≡ 255))
features_fields_example =
    let all = features_fields cmd true 60000 3 4 4 5 1 2 3 255 cmd-IsValid refl (omega arith) in
    (all.0.5, all.0.8, all.1.0)
