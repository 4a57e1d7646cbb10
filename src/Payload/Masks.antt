-- ===== src/Payload/Masks.antt =====
-- The masks of `Cmds/prpData.cpp`: `fields & ~allowed`.
use tnvme.Base.{
  ℕ, ◌-◌, ◌^◌, ◌<◌, ◌≤◌, ◌≡◌, refl, ◌⊎◌, inl, inr, bit_and, Bool-cases, true, false, arith, ◌==◌,
}
use tnvme.Base.Bits.{bit, bit-le, bit-and, bit_not, bit_of_zero, bits_ext, bit_and-lt}
use tnvme.Payload.{disallowed}

-- Every bit of `a` is one of `b`.
abbrev pub Subset : ℕ → ℕ → Type 0
Subset a b = (i : ℕ) → i < 32 → bit a i ≤ bit b i

module _ (fields allowed : ℕ) (small : fields < 2 ^ 32) (fits : allowed < 2 ^ 32) where
  none-Subset : bit_and fields (2 ^ 32 - 1 - allowed) ≡ 0 → Subset fields allowed
  none-Subset e i h =
      let both = bit-and fields (2 ^ 32 - 1 - allowed) i in
      let flipped = bit_not 32 allowed i fits h in
      let zero_bit = bit_of_zero i in
      omega (arith, rw e at both, flipped, zero_bit, bit-le fields i, bit-le allowed i)

  Subset-none : Subset fields allowed → bit_and fields (2 ^ 32 - 1 - allowed) ≡ 0
  Subset-none s = bits_ext 32 _ 0 (bit_and-lt 32 fields _ small) (omega arith) (λ i h. omega (
    arith,
    bit-and fields (2 ^ 32 - 1 - allowed) i,
    bit_not 32 allowed i fits h,
    bit_of_zero i,
    s i h,
    bit-le fields i,
    bit-le allowed i,
  ))

  -- A mask is refused exactly if it has a bit that is not allowed.
  pub disallowed_lem :
      (Subset fields allowed × (disallowed fields allowed ≡ false))
      ⊎ ((¬ Subset fields allowed) × (disallowed fields allowed ≡ true))
  unfolding disallowed
  disallowed_lem = elim (Bool-cases (bit_and fields (2 ^ 32 - 1 - allowed) == 0)) [
    | inl t ↦ inl (none-Subset (ground arith), rw t refl)
    | inr f ↦ inr ((λ s. absurd (ground (arith, Subset-none s))), rw f refl)
  ]
