-- ===== src/Control/Registers.antt =====
-- `Singletons/registers.cpp`: named access to the registers of PCI space and of the controller,
-- by tables of their metrics, of which `Singletons/regDefs.h` defines the first contents.
pub mod Tables
pub mod Access
pub mod Discover
pub mod Layout
use tnvme.Base.{
  ℕ, zero, suc, ◌+◌, ◌-◌, ◌*◌, ◌/◌, ◌%◌, ◌^◌, bit_and, Bool, true, false, ◌||◌, not, Option, none,
  some, List, [], ◌∷◌, ltb, ◌==◌, get_or, if◌then◌else◌,
}
use tnvme.Suite.Test.{PciCapability}

-- `SpecRev`
pub data SpecRev : Type 0 where
  rev_10b rev_11 rev_12 rev_121 rev_13 : SpecRev

unfoldable pub rev_eq : SpecRev → SpecRev → Bool
rev_eq rev_10b rev_10b = true
rev_eq rev_11 rev_11 = true
rev_eq rev_12 rev_12 = true
rev_eq rev_121 rev_121 = true
rev_eq rev_13 rev_13 = true
rev_eq _ _ = false

-- `nvme_io_space`, of which the class uses two.
pub data IoSpace : Type 0 where
  pci_hdr bar01 : IoSpace

-- `PciSpcType` and `CtlSpcType`, of which only the first has a capability (`none` stands for
-- PCICAP_FENCE); the description is left out.
pub record Metric : Type 0 where
  pub cap : Option PciCapability
  pub offset : ℕ
  pub size : ℕ
  pub spec_rev : List SpecRev
  pub mask_ro : ℕ
  pub imp_spec : ℕ
  pub dflt_value : ℕ

-- What stands past the end of a table: a register of unknown offset that no revision has.
abbrev pub no_metric : Metric
no_metric = record {
  cap = none;
  offset = 65535;
  size = 0;
  spec_rev = [];
  mask_ro = 0;
  imp_spec = 0;
  dflt_value = 0;
}

-- `NVME_IOCTL_READ_GENERIC` and `NVME_IOCTL_WRITE_GENERIC` with a buffer of 8 bytes, which is a
-- number: space, size, offset and what the buffer holds; whether no error was returned, and for a
-- read what the buffer then holds.
pub record Ioctl {ℓ} (D : Type ℓ) : Type ℓ where
  pub read_generic : IoSpace → ℕ → ℕ → ℕ → D → Bool × ℕ × D
  pub write_generic : IoSpace → ℕ → ℕ → ℕ → D → Bool × D

-- The members, with the state of the device.
pub record Registers {ℓ} (D : Type ℓ) : Type ℓ where
  pub device : D
  pub spec_rev : SpecRev
  pub pci_spc : List Metric
  pub ctl_spc : List Metric
  pub pci_cap : List PciCapability

-- `REGMASK`
unfoldable pub regmask : ℕ → ℕ → ℕ
regmask v bytes = bit_and v ((2 ^ 64 - 1) / 2 ^ (64 - bytes * 8))

-- `ValidSpecRev` on a list of revisions
unfoldable pub valid_spec_rev : List SpecRev → SpecRev → Bool
unfolding rev_eq
valid_spec_rev [] test = false
valid_spec_rev (r ∷ rs) test = rev_eq r test || valid_spec_rev rs test

module _ {ℓ} {D : Type ℓ} (io : Ioctl D) where
  -- The private `Read` of a register by size and offset into a variable that holds `value`: its
  -- result, and what the variable then holds.
  unfoldable pub read_at : IoSpace → Metric → ℕ → Registers D → Bool × ℕ × Registers D
  unfolding regmask
  read_at spc m value s =
      let (got, v, d) = io.read_generic spc m.size m.offset value s.device in
      if m.offset == 65535
      then (false, value, s)
      else if ltb 8 m.size
      then (false, value, s)
      else if not got
      then (false, v, record s { device = d })
      else (true, regmask v m.size, record s { device = d })

  -- `Read(PciSpc reg, uint64_t &value)`
  unfoldable pub read_pci : ℕ → ℕ → Registers D → Bool × ℕ × Registers D
  unfolding valid_spec_rev read_at
  read_pci reg value s =
      let m = get_or s.pci_spc reg no_metric in
      if valid_spec_rev m.spec_rev s.spec_rev then read_at pci_hdr m value s else (false, value, s)

  -- `Read(CtlSpc reg, uint64_t &value)`, which looks the revisions up in the table of PCI space.
  unfoldable pub read_ctl : ℕ → ℕ → Registers D → Bool × ℕ × Registers D
  unfolding valid_spec_rev read_at
  read_ctl reg value s =
      if valid_spec_rev (get_or s.pci_spc reg no_metric).spec_rev s.spec_rev
      then read_at bar01 (get_or s.ctl_spc reg no_metric) value s
      else (false, value, s)

  -- The private `Write` of a register by size and offset; the caller does not use the value that
  -- it masks afterwards.
  unfoldable pub write_at : IoSpace → Metric → ℕ → Registers D → Bool × Registers D
  write_at spc m value s =
      let (put, d) = io.write_generic spc m.size m.offset value s.device in
      if m.offset == 65535
      then (false, s)
      else if ltb 8 m.size
      then (false, s)
      else (put, record s { device = d })

  -- `Write(PciSpc reg, uint64_t value)`
  unfoldable pub write_pci : ℕ → ℕ → Registers D → Bool × Registers D
  unfolding valid_spec_rev write_at
  write_pci reg value s =
      let m = get_or s.pci_spc reg no_metric in
      if valid_spec_rev m.spec_rev s.spec_rev then write_at pci_hdr m value s else (false, s)

  -- `Write(CtlSpc reg, uint64_t value)`, with the same look-up.
  unfoldable pub write_ctl : ℕ → ℕ → Registers D → Bool × Registers D
  unfolding valid_spec_rev write_at
  write_ctl reg value s =
      if valid_spec_rev (get_or s.pci_spc reg no_metric).spec_rev s.spec_rev
      then write_at bar01 (get_or s.ctl_spc reg no_metric) value s
      else (false, s)
