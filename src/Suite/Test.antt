-- ===== src/Suite/Test.antt =====
-- test.h and test.cpp: how a test object is run, and what the status registers say about it.
use tnvme.Base.{
  ℕ, ◌-◌, ◌^◌, bit_and, Bool, true, false, Option, none, some, List, [], ◌∷◌, ◌==◌, if◌then◌else◌,
}
use tnvme.Suite.Results.{TestResult, fail}

-- `Test::RunType`
pub data RunType : Type 0 where
  run_true run_false run_fail : RunType

-- The registers that test.cpp touches, and the capabilities that say which exist.
pub data StatusReg : Type 0 where
  pci_sts pci_pxds pci_aeruces ctl_csts : StatusReg

pub data PciCapability : Type 0 where
  pm_cap msi_cap msix_cap px_cap aer_cap : PciCapability

-- `struct ErrorRegs`: the error bits of each register that fail a test
pub record ErrorRegs : Type 0 where
  pub sts : ℕ
  pub pxds : ℕ
  pub aeruces : ℕ
  pub csts : ℕ

-- What a test class supplies (`T` holds its objects) and what the framework asks of the device
-- and the file system (`D` is their state).
pub record TestEnv {ℓ κ} (T : Type ℓ) (D : Type κ) : Type (ℓ ⊔ κ) where
  -- `RunCoreTest`: true if it returns, false if it throws
  pub run_core_test : T → D → Bool × T × D
  -- `RunnableCoreTest`: `none` if it throws
  pub runnable_core_test : T → Bool → D → Option RunType × T × D
  -- `mResult`
  pub result : T → TestResult
  pub clone : T → T
  -- `gRegisters->Read` and `Write`; `none` for a read that fails
  pub read_reg : StatusReg → D → Option ℕ × D
  pub write_reg : StatusReg → ℕ → D → D
  pub capabilities : List PciCapability
  pub error_regs : ErrorRegs
  -- `KernelAPI::DumpKernelMetrics` into the file of `PrepDumpFile`: false if it throws
  pub dump_kernel_metrics : T → D → Bool × D

module _ {ℓ κ} {T : Type ℓ} {D : Type κ} (env : TestEnv T D) where
  open env use {write_reg, read_reg, error_regs, capabilities}

  reset_capabilities : List PciCapability → D → D
  reset_capabilities [] d = d
  reset_capabilities (px_cap ∷ r) d = reset_capabilities r (write_reg pci_pxds 0xffff d)
  reset_capabilities (aer_cap ∷ r) d = reset_capabilities r (write_reg pci_aeruces 0xffffffff d)
  reset_capabilities (_ ∷ r) d = reset_capabilities r d

  -- `Test::ResetStatusRegErrors`
  unfoldable pub reset_status_reg_errors : D → D
  unfolding reset_capabilities
  reset_status_reg_errors d = reset_capabilities capabilities (write_reg pci_sts 0xffff d)

  -- One read: the value must keep all its bits outside the error mask, `value & ~mask`.
  unfoldable pub status_ok : StatusReg → ℕ → D → Bool × D
  status_ok reg mask d =
      let (r, d') = read_reg reg d in
      (elim r [ none ↦ false | some v ↦ v == bit_and v (2 ^ 64 - 1 - mask) ], d')

  -- The loop over the optional capabilities, which returns at the first error.
  unfoldable pub capabilities_ok : List PciCapability → D → Bool × D
  unfolding status_ok
  capabilities_ok [] d = (true, d)
  capabilities_ok (px_cap ∷ r) d =
      let (good, d') = status_ok pci_pxds error_regs.pxds d in
      elim good [ true ↦ capabilities_ok r d' | false ↦ (false, d') ]
  capabilities_ok (aer_cap ∷ r) d =
      let (good, d') = status_ok pci_aeruces error_regs.aeruces d in
      elim good [ true ↦ capabilities_ok r d' | false ↦ (false, d') ]
  capabilities_ok (_ ∷ r) d = capabilities_ok r d

  -- `Test::GetStatusRegErrors`
  unfoldable pub get_status_reg_errors : D → Bool × D
  unfolding capabilities_ok
  get_status_reg_errors d =
      let (sts_good, d1) = status_ok pci_sts error_regs.sts d in
      let (caps_good, d2) = capabilities_ok capabilities d1 in
      if sts_good
      then (if caps_good then status_ok ctl_csts error_regs.csts d2 else (false, d2))
      else (false, d1)

  -- `Test::Run`
  unfoldable pub run : T → D → TestResult × T × D
  run t d =
      let (dumped, d1) = env.dump_kernel_metrics t (reset_status_reg_errors d) in
      let (returned, t', d2) = env.run_core_test t d1 in
      let (clean, d3) = get_status_reg_errors d2 in
      if dumped
      then (if returned
          then (if clean then (env.result t', t', d3) else (fail, t', d3))
          else (fail, t', d2))
      else (fail, t, d1)

  -- `Test::Runnable`
  unfoldable pub runnable : T → Bool → D → RunType × T × D
  runnable t preserve d =
      let (r, t', d') = env.runnable_core_test t preserve d in
      (elim r [ none ↦ run_fail | some k ↦ k ], t', d')
