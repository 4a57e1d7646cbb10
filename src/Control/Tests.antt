-- ===== src/Control/Tests.antt =====
-- The theorems about the controller's registers on a small device: PCI space is a constant
-- function, and the state of the device is what CC holds.
use tnvme.Base.{
  ℕ, ◌+◌, ◌*◌, ◌/◌, ◌%◌, ◌^◌, ◌≡◌, ◌≢◌, ◌≤◌, ◌<◌, ◌⊎◌, refl, true, false, none, some, [], ◌∷◌, ok,
  thrown, ◌==◌, if◌then◌else◌, get_or, length, arith,
}
use tnvme.Suite.Test.{PciCapability}
use tnvme.Control.Registers.{
  SpecRev, IoSpace, Ioctl, Registers, no_metric, rev_eq, regmask, valid_spec_rev, read_at, read_pci,
  read_ctl,
}
use tnvme.Control.Registers.Tables.{pci_table, ctl_table}
use tnvme.Control.Registers.Access.{AsRead, register_access}
use tnvme.Control.Registers.Discover.{decode, cap_eq, found, discover_pci_capabilities}
use tnvme.Control.Registers.Discover.Chain.{Still, Chain, last, link}
use tnvme.Control.Registers.Discover.Metrics.{found-PlacedAt, PlacedAt}
use tnvme.Control.Registers.Discover.Result.{
  discover_pci_capabilities_lem, discover_pci_capabilities-none,
}
use tnvme.Control.Config.Fields.{ams, css}
use tnvme.Control.Config.Device.{HoldsCc, HasCc, getter, setter}
use tnvme.Control.Config.Setters.{cc_fields}
use tnvme.Control.Cap.{CtrlrCap, get_resvd2, get_resvd1, get_nssrs}
use tnvme.Control.Cap.Partition.{cap_partition, common, flag}

-- The list is 0x40 (power management), 0x50 (MSI-X), end.
abbrev dword : ℕ → ℕ
dword p =
    if p == 0x40 then 0x5001 else if p == 0x50 then 0x0011 else if p == 0x100 then 1 else 0x0010

-- One capability that points to itself.
abbrev ring : ℕ → ℕ
ring p = if p == 0x40 then 0x4001 else 0x0010

abbrev device : (ℕ → ℕ) → Ioctl ℕ
device space = record {
  read_generic = λ spc n offset buf d. (
    true,
    elim spc [
      | IoSpace.pci_hdr ↦
          if n == 4
          then buf / 2 ^ 32 * 2 ^ 32 + space offset % 2 ^ 32
          else if n == 2
          then 0x10
          else 0x40
      | IoSpace.bar01 ↦ buf / 2 ^ 32 * 2 ^ 32 + d % 2 ^ 32
    ],
    d,
  );
  write_generic = λ spc n offset v d. (true, v % 2 ^ 32);
}

abbrev registers : Registers ℕ
registers = record {
  device = 0x00460001;
  spec_rev = SpecRev.rev_12;
  pci_spc = pci_table;
  ctl_spc = ctl_table;
  pci_cap = [];
}

device-Still : (space : ℕ → ℕ) → Still (device space) space
device-Still space = record { reads = λ offset buf d. refl }

register_access_example :
    AsRead
      (device dword)
      0
      registers
      true
      IoSpace.bar01
      (get_or ctl_table 6 no_metric)
      (read_ctl (device dword) 6 0 registers)
unfolding pci_table valid_spec_rev rev_eq
register_access_example = (register_access (device dword) 0 registers 6).1

dword-Chain : Chain dword 0x40 (0x40 ∷ 0x50 ∷ [])
dword-Chain = link (λ e. omega arith) (link (λ e. omega arith) (last refl))

discover_pci_capabilities_lem_example :
    (t : Registers ℕ) × (discover_pci_capabilities (device dword) 255 registers ≡ some t)
    × (t.pci_cap ≡ PciCapability.pm_cap ∷ PciCapability.msix_cap ∷ PciCapability.aer_cap ∷ [])
unfolding read_pci read_at pci_table valid_spec_rev rev_eq regmask decode
discover_pci_capabilities_lem_example =
    discover_pci_capabilities_lem (device dword) dword (device-Still dword) registers refl
      (λ e. omega arith) refl (0x40 ∷ 0x50 ∷ []) 255 dword-Chain (omega arith)

discover_pci_capabilities-none_example :
    discover_pci_capabilities (device ring) 255 registers ≡ none
unfolding read_pci read_at pci_table valid_spec_rev rev_eq regmask
discover_pci_capabilities-none_example =
    discover_pci_capabilities-none (device ring) ring (device-Still ring) registers refl
      (λ e. omega arith) refl (λ p. p ≡ 0x40) (λ p e. ring_step p e) refl 255
  where
    ring_step : (p : ℕ) → p ≡ 0x40 → (p ≢ 0) × (ring p / 2 ^ 8 % 2 ^ 8 ≡ 0x40)
    ring_step p e = rw e ((λ q. omega arith), refl)

found-PlacedAt_example :
    (length (found 0x05 0x60 registers).pci_spc ≡ length pci_table)
    × PlacedAt
        (λ m. cap_eq m.cap PciCapability.msi_cap)
        0x60
        26
        pci_table
        (found 0x05 0x60 registers).pci_spc
        28
unfolding pci_table decode
found-PlacedAt_example = found-PlacedAt 0x05 0x60 registers 28 refl (omega arith)

device-HoldsCc : HoldsCc (device dword) (λ d. d)
device-HoldsCc = record {
  read_cc = λ buf d. refl;
  write_cc = λ v d. refl;
  written_cc = λ v d. refl;
}

registers-HasCc : HasCc registers
unfolding pci_table ctl_table valid_spec_rev rev_eq
registers-HasCc = record { at = refl; of_size = refl; in_rev = refl }

cc_fields_example :
    ((8 ≤ 5) × (setter (device dword) 0 ams 5 registers ≡ (false, registers)))
    ⊎ ((5 < 8)
        × ((setter (device dword) 0 ams 5 registers).0 ≡ true)
        × HasCc (setter (device dword) 0 ams 5 registers).1
        × (((ams ≡ css)
              × (getter (device dword) 0 css (setter (device dword) 0 ams 5 registers).1
                  ≡ (true, 5, (setter (device dword) 0 ams 5 registers).1)))
            ⊎ ((ams ≢ css)
                × (getter (device dword) 0 css (setter (device dword) 0 ams 5 registers).1 ≡ (
                  true,
                  (getter (device dword) 0 css registers).1,
                  (setter (device dword) 0 ams 5 registers).1,
                )))))
cc_fields_example =
    cc_fields (device dword) (λ d. d) device-HoldsCc 0 ams css 5 registers (λ e. absurd (cc))
      (omega arith) registers-HasCc

abbrev ctrlr : CtrlrCap
ctrlr = record { spec_rev = SpecRev.rev_10b; read_success = true; reg_cap = 0x0010002014010fff }

cap_partition_example :
    ((rev_eq ctrlr.spec_rev SpecRev.rev_10b ≡ true)
      × ((v : ℕ) × (get_resvd2 0 ctrlr ≡ ok (true, v))
          × (common 0 ctrlr + v * 2 ^ 36 + (get_resvd1 0 ctrlr).1 * 2 ^ 41 ≡ 0x0010002014010fff)))
    ⊎ ((rev_eq ctrlr.spec_rev SpecRev.rev_10b ≡ false)
        × (get_resvd2 0 ctrlr ≡ thrown)
        × (common 0 ctrlr + flag (get_nssrs 0 ctrlr).1 36 + (get_resvd1 0 ctrlr).1 * 2 ^ 45
            ≡ 0x0010002014010fff))
cap_partition_example = cap_partition 0 ctrlr refl (omega arith)
