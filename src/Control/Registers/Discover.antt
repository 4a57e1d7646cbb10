-- ===== src/Control/Registers/Discover.antt =====
-- `Registers::DiscoverPciCapabilities`: the linked list of capabilities in PCI space, along which
-- the class learns the offsets of the registers in each of them.
pub mod Chain
pub mod Result
pub mod Metrics
use tnvme.Base.{
  ℕ, zero, suc, ◌+◌, ◌*◌, ◌/◌, ◌%◌, ◌^◌, bit_and, Bool, true, false, ◌&&◌, not, Option, none, some,
  List, [], ◌∷◌, ◌++◌, ltb, leb, ◌==◌, if◌then◌else◌,
}
use tnvme.Suite.Test.{PciCapability}
use tnvme.Control.Registers.{Metric, IoSpace, Ioctl, Registers, regmask, read_pci}
use tnvme.Control.Registers.Tables.{
  pcispc_sts, pcispc_cap, pcispc_pid, pcispc_mid, pcispc_pxid, pcispc_mxid, pcispc_aerid,
  pcispc_aertlp,
}

unfoldable pub cap_eq : Option PciCapability → PciCapability → Bool
cap_eq (some PciCapability.pm_cap) PciCapability.pm_cap = true
cap_eq (some PciCapability.msi_cap) PciCapability.msi_cap = true
cap_eq (some PciCapability.msix_cap) PciCapability.msix_cap = true
cap_eq (some PciCapability.px_cap) PciCapability.px_cap = true
cap_eq (some PciCapability.aer_cap) PciCapability.aer_cap = true
cap_eq _ _ = false

-- The capability of an identifier, and the index of its first register.
unfoldable pub decode : ℕ → Option (PciCapability × ℕ)
decode id =
    if id == 0x01
    then some (PciCapability.pm_cap, pcispc_pid)
    else if id == 0x05
    then some (PciCapability.msi_cap, pcispc_mid)
    else if id == 0x10
    then some (PciCapability.px_cap, pcispc_pxid)
    else if id == 0x11
    then some (PciCapability.msix_cap, pcispc_mxid)
    else none

-- Whatever follows the register before it, among those that `p` picks.
unfoldable pub follow : (Metric → Bool) → Metric → List Metric → List Metric
follow p prev [] = []
follow p prev (m ∷ r) =
    let m' = if p m then record m { offset = (prev.offset + prev.size) % 2 ^ 16 } else m in
    m' ∷ follow p m' r

-- The first `n` follow the register before the first of them.
unfoldable pub follow_n : ℕ → Metric → List Metric → List Metric
follow_n zero prev r = r
follow_n (suc n) prev [] = []
follow_n (suc n) prev (m ∷ r) =
    let m' = record m { offset = (prev.offset + prev.size) % 2 ^ 16 } in m' ∷ follow_n n m' r

-- The register at index `i` gets its offset, and `rest` is what becomes of those behind it.
unfoldable pub relocate : (Metric → List Metric → List Metric) → ℕ → ℕ → List Metric → List Metric
relocate rest base i [] = []
relocate rest base zero (m ∷ r) = let m' : Metric = record m { offset = base } in m' ∷ rest m' r
relocate rest base (suc i) (m ∷ r) = m ∷ relocate rest base i r

module _ {ℓ} {D : Type ℓ} where
  -- The capability at `offset` whose identifier is decoded.
  unfoldable pub decoded : Option (PciCapability × ℕ) → ℕ → Registers D → Registers D
  decoded none offset s = s
  decoded (some (c, i)) offset s = record s {
    pci_spc = relocate (follow (λ m. cap_eq m.cap c)) offset i s.pci_spc;
    pci_cap = s.pci_cap ++ (c ∷ []);
  }

  -- The capability with identifier `id` at `offset`, in the loop.
  unfoldable pub found : ℕ → ℕ → Registers D → Registers D
  found id offset s = decoded (decode id) offset s

  -- The extended capability with identifier `id` at `offset`; AERTLP does not follow AERHL.
  unfoldable pub found_extended : ℕ → ℕ → Registers D → Registers D
  found_extended id offset s =
      if id == 1
      then record s {
        pci_spc =
            relocate (λ m r. r) (offset + 0x38) pcispc_aertlp
              (relocate (follow_n 7) offset pcispc_aerid s.pci_spc);
        pci_cap = s.pci_cap ++ (PciCapability.aer_cap ∷ []);
      }
      else s

module _ {ℓ} {D : Type ℓ} (io : Ioctl D) where
  -- A round of the `while` loop, by what the rest of the loop makes of the next dword and state:
  -- whether no read failed, the last dword, and the state.
  unfoldable pub round :
      (ℕ → Registers D → Option (Bool × ℕ × Registers D))
      → ℕ
      → Registers D
      → Option (Bool × ℕ × Registers D)
  round rest next s =
      let offset = regmask (next / 2 ^ 8) 1 in
      let (got, next', d) = io.read_generic IoSpace.pci_hdr 4 offset next s.device in
      let s' : Registers D = record s { device = d } in
      if offset == 0
      then some (true, next, s)
      else if not got
      then some (false, next', s')
      else rest next' (found (regmask next' 1) offset s')

  -- The loop, by the rounds that it may take past its test; `none` if they are too few.
  unfoldable pub traverse : ℕ → ℕ → Registers D → Option (Bool × ℕ × Registers D)
  traverse zero next s = if regmask (next / 2 ^ 8) 1 == 0 then some (true, next, s) else none
  traverse (suc n) next s = round (traverse n) next s

  -- The part behind the loop.
  unfoldable pub extended : ℕ → Registers D → Registers D
  extended next s =
      let (got, next', d) = io.read_generic IoSpace.pci_hdr 4 0x100 next s.device in
      let s' : Registers D = record s { device = d } in
      if got then found_extended (regmask next' 2) 0x100 s' else s'

  unfoldable pub after_loop : Option (Bool × ℕ × Registers D) → Option (Registers D)
  after_loop none = none
  after_loop (some (false, next, s)) = some s
  after_loop (some (true, next, s)) = some (extended next s)

  -- `DiscoverPciCapabilities` with a loop of at most `fuel` rounds.
  unfoldable pub discover_pci_capabilities : ℕ → Registers D → Option (Registers D)
  discover_pci_capabilities fuel s =
      let (got_sts, work, s1) = read_pci io pcispc_sts 0 (record s { pci_cap = [] }) in
      let (got_cap, next, s2) = read_pci io pcispc_cap 0 s1 in
      let result = after_loop (traverse fuel (next * 2 ^ 8 % 2 ^ 64) s2) in
      if not got_sts
      then some s1
      else if bit_and work 0x10 == 0
      then some s1
      else if not got_cap
      then some s2
      else result
