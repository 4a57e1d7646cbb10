-- ===== src/Control/Registers/Discover/Metrics.antt =====
-- What the discovery of a capability does to the metrics of the registers.
use tnvme.Base.{
  ℕ, zero, suc, ◌+◌, ◌-◌, ◌%◌, ◌^◌, ◌<◌, ◌≡◌, ◌⊎◌, inl, inr, refl, ap, Bool, some, List, [], ◌∷◌,
  length, get_or, if◌then◌else◌, arith,
}
use tnvme.Suite.Test.{PciCapability}
use tnvme.Control.Registers.{Metric, Registers, no_metric}
use tnvme.Control.Registers.Discover.{cap_eq, decode, follow, relocate, decoded, found}

-- A register that starts where the one before it ends.
abbrev pub behind : Metric → Metric → Metric
behind prev m = record m { offset = (prev.offset + prev.size) % 2 ^ 16 }

module _ (p : Metric → Bool) where
  length-follow : (prev : Metric) (r : List Metric) → length (follow p prev r) ≡ length r
  unfolding follow
  length-follow prev [] = refl
  length-follow prev (m ∷ r) = ap suc (length-follow (if p m then behind prev m else m) r)

  follow_at :
      (prev : Metric) (r : List Metric) (j : ℕ)
      → j < length r
      → let m = get_or r j no_metric in
        get_or (follow p prev r) j no_metric
        ≡ (if p m then behind (get_or (prev ∷ follow p prev r) j no_metric) m else m)
  unfolding follow
  follow_at prev [] j h = absurd (omega arith)
  follow_at prev (m ∷ r) zero h = refl
  follow_at prev (m ∷ r) (suc j) h = follow_at (if p m then behind prev m else m) r j (omega arith)

  -- The register at index `j` of `out`, which was that of `ms`: `base` is the offset of the one
  -- at index `i`, and those behind it that `p` picks follow each other.
  abbrev pub PlacedAt : ℕ → ℕ → List Metric → List Metric → ℕ → Type 0
  PlacedAt base i ms out j =
      let m = get_or ms j no_metric in
      let m' = get_or out j no_metric in
      ((j < i) × (m' ≡ m))
      ⊎ (((j ≡ i) × (m' ≡ record m { offset = base }))
          ⊎ ((i < j) × (m' ≡ (if p m then behind (get_or out (j - 1) no_metric) m else m))))

  relocate_at :
      (base i : ℕ) (ms : List Metric) (j : ℕ)
      → j < length ms
      → PlacedAt base i ms (relocate (follow p) base i ms) j
  unfolding relocate
  relocate_at base i [] j h = absurd (omega arith)
  relocate_at base zero (m ∷ r) zero h = inr (inl (refl, refl))
  relocate_at base zero (m ∷ r) (suc j) h =
      let e : suc j - 1 ≡ j = omega arith in
      inr (inr (omega arith, rw e (follow_at _ r j (omega arith))))
  relocate_at base (suc i) (m ∷ r) zero h = inl (omega arith, refl)
  relocate_at base (suc i) (m ∷ r) (suc j) h = elim (relocate_at base i r j (omega arith)) [
    | inl (l, e) ↦ inl (omega arith, e)
    | inr (inl (l, e)) ↦ inr (inl (ap suc l, e))
    | inr (inr (l, e)) ↦
        let k : suc j - 1 ≡ suc (j - 1) = omega arith in inr (inr (omega arith, rw k e))
  ]

  length-relocate :
      (base i : ℕ) (ms : List Metric) → length (relocate (follow p) base i ms) ≡ length ms
  unfolding relocate
  length-relocate base i [] = refl
  length-relocate base zero (m ∷ r) = ap suc (length-follow _ r)
  length-relocate base (suc i) (m ∷ r) = ap suc (length-relocate base i r)

-- When the discovery finds a known capability at an offset, the table keeps its length, every
-- register before the first one of the capability is kept, that one gets the offset, and of those
-- behind it each one of the capability starts where the register before it ends, modulo 2^16, and
-- each other one is kept.
pub found-PlacedAt {ℓ} :
    {D : Type ℓ} (id base : ℕ) (s : Registers D) {c : PciCapability} {i : ℕ} (j : ℕ)
    → decode id ≡ some (c, i)
    → j < length s.pci_spc
    → (length (found id base s).pci_spc ≡ length s.pci_spc)
      × PlacedAt (λ m. cap_eq m.cap c) base i s.pci_spc (found id base s).pci_spc j
unfolding found decoded
found-PlacedAt id base s {c} {i} j e h =
    rw e
      (length-relocate _ base i s.pci_spc, relocate_at (λ m. cap_eq m.cap c) base i s.pci_spc j h)
