-- ===== src/Control/Registers/Access.antt =====
-- What a read and a write of a register do on every branch, and the values that a read gives.
use native.Mathlib.Nat.{mod-lt, one-le-pow}
use tnvme.Base.{
  dec_lt, ℕ_discrete, ℕ, zero, suc, ◌-◌, ◌*◌, ◌/◌, ◌%◌, ◌^◌, ◌≤◌, ◌<◌, ◌≡◌, ◌≢◌, ◌⊎◌, if◌then◌else◌,
  refl, ap, ◌∙◌, bit_and, Bool, true, false, get_or, arith, Bool-cases, inl, inr,
}
use tnvme.Base.Bits.{bit_and_low}
use tnvme.Control.Registers.{
  IoSpace, pci_hdr, bar01, Metric, Ioctl, Registers, no_metric, regmask, valid_spec_rev, read_at,
  read_pci, read_ctl, write_at, write_pci, write_ctl,
}

-- `REGMASK` of up to 8 bytes
pub regmask_lem : (v n : ℕ) → n ≤ 8 → regmask v n ≡ v % 2 ^ (n * 8)
unfolding regmask
regmask_lem v n h = ap (bit_and v) (low n h) ∙ bit_and_low (n * 8) v
  where
    low : (n : ℕ) → n ≤ 8 → (2 ^ 64 - 1) / 2 ^ (64 - n * 8) ≡ 2 ^ (n * 8) - 1
    low zero _ = refl
    low (suc zero) _ = refl
    low (suc (suc zero)) _ = refl
    low (suc (suc (suc zero))) _ = refl
    low (suc (suc (suc (suc zero)))) _ = refl
    low (suc (suc (suc (suc (suc zero))))) _ = refl
    low (suc (suc (suc (suc (suc (suc zero)))))) _ = refl
    low (suc (suc (suc (suc (suc (suc (suc zero))))))) _ = refl
    low (suc (suc (suc (suc (suc (suc (suc (suc zero)))))))) _ = refl
    low (suc (suc (suc (suc (suc (suc (suc (suc (suc n))))))))) q = absurd (omega arith)

-- A register that the class can reach: its offset is known and it fits the variable.
abbrev pub Reachable : Metric → Type 0
Reachable m = (m.offset ≢ 65535) × (m.size ≤ 8)

module _ {ℓ} {D : Type ℓ} (io : Ioctl D) (value : ℕ) (s : Registers D) where
  -- The driver's answer to a read and to a write.
  abbrev pub answer : IoSpace → Metric → Bool × ℕ × D
  answer spc m = io.read_generic spc m.size m.offset value s.device

  abbrev pub put_answer : IoSpace → Metric → Bool × D
  put_answer spc m = io.write_generic spc m.size m.offset value s.device

  -- The class does not ask the driver: the look-up of the revision gave false, or the register
  -- cannot be reached.
  abbrev pub Refused : Bool → Metric → Type 0
  Refused valid m = (valid ≡ false) ⊎ ((m.offset ≡ 65535) ⊎ (8 < m.size))

  -- What a read is whose look-up of the revision gives `valid`: refused with nothing touched, or
  -- the driver's answer, cut to the width of the register if there was no error.
  abbrev pub AsRead : Bool → IoSpace → Metric → Bool × ℕ × Registers D → Type ℓ
  AsRead valid spc m r =
      (Refused valid m × (r ≡ (false, value, s)))
      ⊎ ((valid ≡ true)
          × Reachable m
          × (r.0 ≡ (answer spc m).0)
          × (r.1 ≡ (if r.0 then (answer spc m).1 % 2 ^ (m.size * 8) else (answer spc m).1))
          × (r.2 ≡ record s { device = (answer spc m).2 }))

  -- What a write is: refused with nothing touched, or the driver's answer.
  abbrev pub AsWrite : Bool → IoSpace → Metric → Bool × Registers D → Type ℓ
  AsWrite valid spc m r =
      (Refused valid m × (r ≡ (false, s)))
      ⊎ ((valid ≡ true)
          × Reachable m
          × (r ≡ ((put_answer spc m).0, record s { device = (put_answer spc m).1 })))

  reach : (m : Metric) → ((m.offset ≡ 65535) ⊎ (8 < m.size)) ⊎ Reachable m
  reach m = elim (dec_lt 8 m.size) [
    | yes p ↦ inl (inr p)
    | no p ↦ elim (ℕ_discrete m.offset 65535) [ yes q ↦ inl (inl q) | no q ↦ inr (q, omega arith) ]
  ]

  read_asked :
      (spc : IoSpace) (m : Metric)
      → Reachable m
      → let r = read_at io spc m value s in
        (r.0 ≡ (answer spc m).0)
        × (r.1 ≡ (if r.0 then (answer spc m).1 % 2 ^ (m.size * 8) else (answer spc m).1))
        × (r.2 ≡ record s { device = (answer spc m).2 })
  unfolding read_at
  read_asked spc m p =
      (ground arith, ground (arith, regmask_lem (answer spc m).1 m.size), ground arith)

  guarded_read :
      (valid : Bool) (spc : IoSpace) (m : Metric)
      → AsRead valid spc m (if valid then read_at io spc m value s else (false, value, s))
  unfolding read_at
  guarded_read true spc m = elim (reach m) [
    | inl p ↦ inl (inr p, ground arith)
    | inr p ↦ let r = read_asked spc m p in inr (refl, p, r.0, r.1, r.2)
  ]
  guarded_read false spc m = inl (inl refl, refl)

  guarded_write :
      (valid : Bool) (spc : IoSpace) (m : Metric)
      → AsWrite valid spc m (if valid then write_at io spc m value s else (false, s))
  unfolding write_at
  guarded_write true spc m = elim (reach m) [
    | inl p ↦ inl (inr p, ground arith)
    | inr p ↦ inr (refl, p, ground arith)
  ]
  guarded_write false spc m = inl (inl refl, refl)

  module _ (reg : ℕ) where
    abbrev pub pci_metric : Metric
    pci_metric = get_or s.pci_spc reg no_metric

    abbrev pub ctl_metric : Metric
    ctl_metric = get_or s.ctl_spc reg no_metric

    abbrev pub pci_valid : Bool
    pci_valid = valid_spec_rev pci_metric.spec_rev s.spec_rev

    -- For each of Read and Write of a register of PCI space and of the controller: if the
    -- revisions of the register with that index in the table of PCI space do not include the
    -- targeted one, or the offset of the register is unknown, or it has more than 8 bytes, it
    -- returns false and touches nothing; otherwise its result is that of the driver, a read value
    -- is cut to the width of the register if there was no error, and nothing but the device
    -- changes.
    pub register_access :
        AsRead pci_valid pci_hdr pci_metric (read_pci io reg value s)
        × AsRead pci_valid bar01 ctl_metric (read_ctl io reg value s)
        × AsWrite pci_valid pci_hdr pci_metric (write_pci io reg value s)
        × AsWrite pci_valid bar01 ctl_metric (write_ctl io reg value s)
    unfolding read_pci read_ctl write_pci write_ctl
    register_access = (
      guarded_read _ pci_hdr pci_metric,
      guarded_read _ bar01 ctl_metric,
      guarded_write _ pci_hdr pci_metric,
      guarded_write _ bar01 ctl_metric,
    )

    -- A value that Read returns with true, of PCI space or of the controller, has no more bits
    -- than the bytes of its register.
    read_values-lt :
        (((read_pci io reg value s).0 ≡ false)
          ⊎ ((read_pci io reg value s).1 < 2 ^ (pci_metric.size * 8)))
        × (((read_ctl io reg value s).0 ≡ false)
            ⊎ ((read_ctl io reg value s).1 < 2 ^ (ctl_metric.size * 8)))
    read_values-lt = (
      narrow pci_valid pci_metric pci_hdr _ register_access.0,
      narrow pci_valid ctl_metric bar01 _ register_access.1,
    )
      where
        below : (w n : ℕ) → w % 2 ^ (n * 8) < 2 ^ (n * 8)
        below w n = mod-lt w (omega (arith, one-le-pow (n * 8) 2 (omega arith)))

        narrow :
            (valid : Bool) (m : Metric) (spc : IoSpace) (r : Bool × ℕ × Registers D)
            → AsRead valid spc m r
            → (r.0 ≡ false) ⊎ (r.1 < 2 ^ (m.size * 8))
        narrow valid m spc r (inl (_, e)) = inl (ap (λ t. t.0) e)
        narrow valid m spc r (inr (_, _, _, e, _)) = elim (Bool-cases r.0) [
          | inl t ↦ inr (ground (arith, below (answer spc m).1 m.size))
          | inr f ↦ inl f
        ]

-- A read keeps the list of capabilities.
pub pci_cap-read_pci {ℓ} :
    {D : Type ℓ} (io : Ioctl D) (value : ℕ) (s : Registers D) (reg : ℕ)
    → (read_pci io reg value s).2.pci_cap ≡ s.pci_cap
pci_cap-read_pci io value s reg = elim (register_access io value s reg).0 [
  | inl (_, e) ↦ ap (λ r. r.2.pci_cap) e
  | inr (_, _, _, _, e) ↦ ap (λ t. t.pci_cap) e
]
