-- ===== src/Control/Registers/Discover/Chain.antt =====
-- The traversal of the list of capabilities, against the chain of pointers in a device whose PCI
-- space does not change.
use tnvme.Base.{
  ℕ, zero, suc, ◌+◌, ◌*◌, ◌/◌, ◌%◌, ◌^◌, ◌≤◌, ◌≡◌, ◌≢◌, refl, sym, ◌∙◌, Bool, true, Option, none,
  some, List, [], ◌∷◌, ◌++◌, append_assoc, append-nil, length, arith,
}
use tnvme.Suite.Test.{PciCapability}
use tnvme.Control.Registers.{IoSpace, Ioctl, Registers, regmask}
use tnvme.Control.Registers.Access.{regmask_lem}
use tnvme.Control.Registers.Discover.{decode, decoded, found, round, traverse}

-- `dword` is what PCI space holds, and no read changes the device.
pub record Still {ℓ} {D : Type ℓ} (io : Ioctl D) (dword : ℕ → ℕ) : Type ℓ where
  pub reads :
      (offset buf : ℕ) (d : D)
      → io.read_generic IoSpace.pci_hdr 4 offset buf d
        ≡ (true, buf / 2 ^ 32 * 2 ^ 32 + dword offset % 2 ^ 32, d)

-- The pointer in the second byte of a dword
abbrev pub pointer : ℕ → ℕ
pointer v = v / 2 ^ 8 % 2 ^ 8

-- The offsets of the capabilities from a pointer on, to the pointer 0.
pub data Chain (dword : ℕ → ℕ) : ℕ → List ℕ → Type 0 where
  last : {p : ℕ} → p ≡ 0 → Chain dword p []
  link : {p : ℕ} {r : List ℕ} → p ≢ 0 → Chain dword (pointer (dword p)) r → Chain dword p (p ∷ r)

-- The capabilities at these offsets that the framework knows.
abbrev pub known : (ℕ → ℕ) → List ℕ → List PciCapability
known dword [] = []
known dword (p ∷ r) = elim (decode (dword p % 2 ^ 8)) [
  | none ↦ known dword r
  | some c ↦ c.0 ∷ known dword r
]

module _ {ℓ} {D : Type ℓ} where
  -- The state behind them.
  abbrev pub found_all : (ℕ → ℕ) → List ℕ → Registers D → Registers D
  found_all dword [] s = s
  found_all dword (p ∷ r) s = found_all dword r (found (dword p % 2 ^ 8) p s)

  found_cap :
      (id p : ℕ) (s : Registers D) (r : List PciCapability)
      → (found id p s).pci_cap ++ r ≡ s.pci_cap ++ elim (decode id) [ none ↦ r | some c ↦ c.0 ∷ r ]
  unfolding found decoded
  found_cap id p s r = decoded_cap (decode id)
    where
      decoded_cap :
          (o : Option (PciCapability × ℕ))
          → (decoded o p s).pci_cap ++ r ≡ s.pci_cap ++ elim o [ none ↦ r | some c ↦ c.0 ∷ r ]
      decoded_cap none = refl
      decoded_cap (some (c, i)) = append_assoc s.pci_cap (c ∷ []) r

pub found_all-cap {ℓ} :
    {D : Type ℓ} (dword : ℕ → ℕ) (offsets : List ℕ) (s : Registers D)
    → (found_all dword offsets s).pci_cap ≡ s.pci_cap ++ known dword offsets
found_all-cap dword [] s = sym (append-nil s.pci_cap)
found_all-cap dword (p ∷ r) s =
    found_all-cap dword r (found (dword p % 2 ^ 8) p s)
    ∙ found_cap (dword p % 2 ^ 8) p s (known dword r)

module _ {ℓ} {D : Type ℓ} (io : Ioctl D) (dword : ℕ → ℕ) (still : Still io dword) where
  module _ (p next : ℕ) (at : p ≡ pointer next) where
    abbrev next' : ℕ
    next' = next / 2 ^ 32 * 2 ^ 32 + dword p % 2 ^ 32

    regmask-next : regmask (next / 2 ^ 8) 1 ≡ p
    regmask-next = regmask_lem (next / 2 ^ 8) 1 (omega arith) ∙ sym at

    regmask-next' : regmask next' 1 ≡ dword p % 2 ^ 8
    regmask-next' = regmask_lem next' 1 (omega arith) ∙ omega arith

    pointer-next' : pointer (dword p) ≡ pointer next'
    pointer-next' = omega arith

    round_step :
        (rest : ℕ → Registers D → Option (Bool × ℕ × Registers D)) (s : Registers D)
        → p ≢ 0
        → round io rest next s ≡ rest next' (found (dword p % 2 ^ 8) p s)
    unfolding round
    round_step rest s h =
        rw (regmask-next, still.reads p next s.device, regmask-next') (ground arith)

    step :
        (n : ℕ) (s : Registers D)
        → p ≢ 0
        → traverse io (suc n) next s ≡ traverse io n next' (found (dword p % 2 ^ 8) p s)
    unfolding traverse
    step n s h = round_step (traverse io n) s h

    stop : (n : ℕ) (s : Registers D) → p ≡ 0 → traverse io n next s ≡ some (true, next, s)
    unfolding traverse round
    stop zero s h = rw (regmask-next, h) refl
    stop (suc n) s h = rw (regmask-next, h) refl

  pub traverse-Chain :
      {p : ℕ} (offsets : List ℕ) (n next : ℕ) (s : Registers D)
      → Chain dword p offsets
      → p ≡ pointer next
      → length offsets ≤ n
      → (v : ℕ) × (traverse io n next s ≡ some (true, v, found_all dword offsets s))
  traverse-Chain offsets n next s (last z) e h = (next, stop _ next e n s z)
  traverse-Chain (p ∷ r) zero next s (link q c) e h = absurd (omega arith)
  traverse-Chain (p ∷ r) (suc n) next s (link q c) e h =
      let (v, f) =
        traverse-Chain r n (next' p next e) (found (dword p % 2 ^ 8) p s) c (pointer-next' p next e)
          (omega arith) in
      (v, step p next e n s q ∙ f)

  -- A pointer from which 0 is never reached keeps the loop going.
  pub traverse_loops :
      (Loop : ℕ → Type 0)
      → ((p : ℕ) → Loop p → (p ≢ 0) × Loop (pointer (dword p)))
      → (n : ℕ) {p : ℕ} (next : ℕ) (s : Registers D) → p ≡ pointer next
      → Loop p
      → traverse io n next s ≡ none
  unfolding traverse
  traverse_loops Loop closed zero {p} next s e l =
      let z = (closed p l).0 in rw (regmask-next p next e) (ground arith)
  traverse_loops Loop closed (suc n) {p} next s e l =
      let c = closed p l in
      step p next e n s c.0
      ∙ traverse_loops Loop closed n (next' p next e) _ (pointer-next' p next e) c.1
