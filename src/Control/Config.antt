-- ===== src/Control/Config.antt =====
-- `Singletons/ctrlrConfig.cpp`: the controller configuration register CC with its fields, and the
-- interrupts that the device is capable of.
pub mod Fields
pub mod Apart
pub mod Device
pub mod Setters
use tnvme.Base.{
  ℕ, ◌+◌, ◌-◌, ◌*◌, ◌/◌, ◌%◌, ◌^◌, bit_and, Bool, true, false, ◌&&◌, not, List, [], ◌∷◌, ◌==◌,
  if◌then◌else◌,
}
use tnvme.Suite.Test.{PciCapability}
use tnvme.Control.Merge.{merge}
use tnvme.Control.Registers.{Ioctl, Registers, read_pci, read_ctl, write_ctl}
use tnvme.Control.Registers.Tables.{pcispc_mc, pcispc_mxc, ctlspc_cc, ctlspc_csts}

-- The fields of CC by their masks; `tmp` is what the variable that a register is read into holds
-- before, which is seen only when the read fails.
module _ {ℓ} {D : Type ℓ} (io : Ioctl D) (tmp : ℕ) where
  -- `ReadRegCC`
  unfoldable pub read_reg_cc : Registers D → Bool × ℕ × Registers D
  read_reg_cc s = let (good, v, s1) = read_ctl io ctlspc_cc tmp s in (good, v % 2 ^ 32, s1)

  -- `WriteRegCC`
  unfoldable pub write_reg_cc : ℕ → Registers D → Bool × Registers D
  write_reg_cc v s = write_ctl io ctlspc_cc v s

  -- `GetRegValue`
  unfoldable pub get_reg_value : ℕ → ℕ → Registers D → Bool × ℕ × Registers D
  get_reg_value mask shift s =
      let (good, v, s1) = read_reg_cc s in (good, bit_and v mask / 2 ^ shift % 2 ^ 8, s1)

  -- `SetRegValue`
  unfoldable pub set_reg_value : ℕ → ℕ → ℕ → ℕ → Registers D → Bool × Registers D
  set_reg_value value value_mask mask shift s =
      let (good, v, s1) = read_reg_cc s in
      if not (bit_and value (2 ^ 8 - 1 - value_mask) == 0)
      then (false, s)
      else if not good
      then (false, s1)
      else write_reg_cc (merge v mask (value * 2 ^ shift % 2 ^ 32)) s1

  unfoldable pub get_iocqes : Registers D → Bool × ℕ × Registers D
  get_iocqes s = get_reg_value 0x00f00000 20 s

  unfoldable pub set_iocqes : ℕ → Registers D → Bool × Registers D
  set_iocqes value s = set_reg_value value 0x0f 0x00f00000 20 s

  unfoldable pub get_iosqes : Registers D → Bool × ℕ × Registers D
  get_iosqes s = get_reg_value 0x000f0000 16 s

  unfoldable pub set_iosqes : ℕ → Registers D → Bool × Registers D
  set_iosqes value s = set_reg_value value 0x0f 0x000f0000 16 s

  unfoldable pub get_shn : Registers D → Bool × ℕ × Registers D
  get_shn s = get_reg_value 0x0000c000 14 s

  unfoldable pub set_shn : ℕ → Registers D → Bool × Registers D
  set_shn value s = set_reg_value value 0x03 0x0000c000 14 s

  unfoldable pub get_ams : Registers D → Bool × ℕ × Registers D
  get_ams s = get_reg_value 0x00003800 11 s

  unfoldable pub set_ams : ℕ → Registers D → Bool × Registers D
  set_ams value s = set_reg_value value 0x07 0x00003800 11 s

  unfoldable pub get_mps : Registers D → Bool × ℕ × Registers D
  get_mps s = get_reg_value 0x00000780 7 s

  -- `SetMPS`, on a system with pages of this size
  unfoldable pub set_mps : ℕ → Registers D → Bool × Registers D
  set_mps page_size s =
      if page_size == 4096 then set_reg_value 0 0x0f 0x00000780 7 s else (false, s)

  unfoldable pub get_css : Registers D → Bool × ℕ × Registers D
  get_css s = get_reg_value 0x00000070 4 s

  unfoldable pub set_css : ℕ → Registers D → Bool × Registers D
  set_css value s = set_reg_value value 0x07 0x00000070 4 s

  unfoldable pub get_en : Registers D → Bool × ℕ × Registers D
  get_en s = get_reg_value 0x00000001 0 s

-- `IsStateEnabled`
unfoldable pub is_state_enabled {ℓ} : {D : Type ℓ} → Ioctl D → Registers D → Bool × Registers D
is_state_enabled io s =
    let (good, v, s1) = read_ctl io ctlspc_csts 0 s in (good && not (bit_and v 1 == 0), s1)

-- `pciCap->at(i) == cap` for some `i`
unfoldable pub has_cap : PciCapability → List PciCapability → Bool
has_cap PciCapability.msi_cap (PciCapability.msi_cap ∷ r) = true
has_cap PciCapability.msix_cap (PciCapability.msix_cap ∷ r) = true
has_cap c [] = false
has_cap c (_ ∷ r) = has_cap c r

module _ {ℓ} {D : Type ℓ} (io : Ioctl D) (tmp : ℕ) where
  -- `IsMSICapable`: its result, `capable` and `numIrqs`
  unfoldable pub is_msi_capable : Registers D → Bool × Bool × ℕ × Registers D
  is_msi_capable s =
      let (good, v, s1) = read_pci io pcispc_mc tmp s in
      if not (has_cap PciCapability.msi_cap s.pci_cap)
      then (true, false, 0, s)
      else if good
      then (true, true, 2 ^ (bit_and v 0x000e / 2 % 2 ^ 16) % 2 ^ 16, s1)
      else (false, false, 0, s1)

  -- `IsMSIXCapable`
  unfoldable pub is_msix_capable : Registers D → Bool × Bool × ℕ × Registers D
  is_msix_capable s =
      let (good, v, s1) = read_pci io pcispc_mxc tmp s in
      if not (has_cap PciCapability.msix_cap s.pci_cap)
      then (true, false, 0, s)
      else if good
      then (true, true, (bit_and v 0x07ff + 1) % 2 ^ 16, s1)
      else (false, false, 0, s1)
