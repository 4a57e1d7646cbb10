-- ===== src/Control/Registers/Discover/Result.antt =====
-- What `Registers::DiscoverPciCapabilities` finds in a device whose PCI space does not change, and
-- when it never ends.
use tnvme.Base.{
  ℕ, ◌+◌, ◌*◌, ◌/◌, ◌%◌, ◌^◌, ◌≤◌, ◌≡◌, ◌≢◌, refl, ap, ◌∙◌, bit_and, Bool, true, none, some, List,
  [], ◌∷◌, ◌++◌, append-nil, length, ◌==◌, if◌then◌else◌, arith,
}
use tnvme.Suite.Test.{PciCapability}
use tnvme.Control.Registers.{Ioctl, Registers, regmask, read_pci}
use tnvme.Control.Registers.Tables.{pcispc_sts, pcispc_cap}
use tnvme.Control.Registers.Access.{regmask_lem, pci_cap-read_pci}
use tnvme.Control.Registers.Discover.{
  found_extended, traverse, extended, after_loop, discover_pci_capabilities,
}
use tnvme.Control.Registers.Discover.Chain.{
  Still, Chain, pointer, known, found_all, found_all-cap, traverse-Chain, traverse_loops,
}

module _ {ℓ} {D : Type ℓ} (io : Ioctl D) (dword : ℕ → ℕ) (still : Still io dword)
    (s : Registers D) where
  -- The two registers that the class reads before the list.
  abbrev pub sts : Bool × ℕ × Registers D
  sts = read_pci io pcispc_sts 0 (record s { pci_cap = [] })

  abbrev pub cap : Bool × ℕ × Registers D
  cap = read_pci io pcispc_cap 0 sts.2

  -- The extended capability, which is no part of the list.
  abbrev pub known_extended : List PciCapability
  known_extended = if dword 0x100 % 2 ^ 16 == 1 then PciCapability.aer_cap ∷ [] else []

  extended_cap :
      (next : ℕ) (t : Registers D) → (extended io next t).pci_cap ≡ t.pci_cap ++ known_extended
  unfolding extended found_extended
  extended_cap next t =
      rw (still.reads 0x100 next t.device, id) (ground (arith, append-nil t.pci_cap))
    where
      id : regmask (next / 2 ^ 32 * 2 ^ 32 + dword 0x100 % 2 ^ 32) 2 ≡ dword 0x100 % 2 ^ 16
      id = regmask_lem _ 2 (omega arith) ∙ omega arith

  module _ (has_sts : sts.0 ≡ true) (has_list : bit_and sts.1 0x10 ≢ 0)
      (has_cap : cap.0 ≡ true) where
    cleared : cap.2.pci_cap ≡ []
    cleared = pci_cap-read_pci io 0 sts.2 pcispc_cap ∙ pci_cap-read_pci io 0 _ pcispc_sts

    behind_reads :
        (n : ℕ)
        → discover_pci_capabilities io n s
          ≡ after_loop io (traverse io n (cap.1 * 2 ^ 8 % 2 ^ 64) cap.2)
    unfolding discover_pci_capabilities
    behind_reads n = ground arith

    -- In a device whose PCI space does not change, if the status register can be read and says
    -- that there is a list, and the first pointer can be read: when the pointers from there reach
    -- 0 after at most as many capabilities as the loop has rounds, DiscoverPciCapabilities ends,
    -- and the capabilities that it lists are the known ones of that chain, in its order, with the
    -- extended one behind them if the dword at 0x100 has its identifier.
    pub discover_pci_capabilities_lem :
        (offsets : List ℕ) (n : ℕ)
        → Chain dword (cap.1 % 2 ^ 8) offsets
        → length offsets ≤ n
        → (t : Registers D) × (discover_pci_capabilities io n s ≡ some t)
          × (t.pci_cap ≡ known dword offsets ++ known_extended)
    unfolding after_loop
    discover_pci_capabilities_lem offsets n c h =
        let (v, e) =
          traverse-Chain io dword still offsets n (cap.1 * 2 ^ 8 % 2 ^ 64) cap.2 c (omega arith)
            h in
        (
          extended io v (found_all dword offsets cap.2),
          behind_reads n ∙ rw e refl,
          extended_cap v _
              ∙ ap (λ r. r ++ known_extended)
                  (found_all-cap dword offsets cap.2 ∙ ap (λ r. r ++ known dword offsets) cleared),
        )

    -- In a device whose PCI space does not change, if the status register can be read and says
    -- that there is a list, and the first pointer is one from which the pointers never reach 0, no
    -- number of rounds lets the loop of DiscoverPciCapabilities end.
    pub discover_pci_capabilities-none :
        (Loop : ℕ → Type 0)
        → ((p : ℕ) → Loop p → (p ≢ 0) × Loop (pointer (dword p)))
        → Loop (cap.1 % 2 ^ 8)
        → (n : ℕ) → discover_pci_capabilities io n s ≡ none
    unfolding after_loop
    discover_pci_capabilities-none Loop closed l n =
        behind_reads n
        ∙ rw
            (traverse_loops io dword still Loop closed n (cap.1 * 2 ^ 8 % 2 ^ 64) cap.2
              (omega arith) l)
            refl
