-- ===== src/Control/Cap/Partition.antt =====
-- The getters of `CtrlrCap` take CAP apart: every bit of it is in one field.
use tnvme.Base.{
  ℕ, ◌+◌, ◌-◌, ◌*◌, ◌/◌, ◌%◌, ◌^◌, ◌<◌, ◌≡◌, ◌⊎◌, inl, inr, Bool-cases, refl, ap, ◌∙◌, bit_and,
  Bool, true, false, ok, thrown, if◌then◌else◌, arith,
}
use tnvme.Base.Bits.{bit_and_low}
use tnvme.Cmds.Field.{mask_of, get_field}
use tnvme.Control.Merge.{masked_shift}
use tnvme.Control.Registers.{SpecRev, rev_eq}
use tnvme.Control.Cap.{
  CtrlrCap, read_reg_cap, get_cap_value, get_resvd0, get_mpsmax, get_mpsmin, get_resvd1,
  get_cap_css, get_resvd2, get_nssrs, get_dstrd, get_to, get_resvd3, get_cap_ams, get_cqr, get_mqes,
}

-- The weight of a flag at bit `k`
abbrev pub flag : Bool → ℕ → ℕ
flag b k = if b then 2 ^ k else 0

-- What the fields that all revisions have add up to, each at its place.
abbrev pub common : ℕ → CtrlrCap → ℕ
common tmp c =
    (get_mqes tmp c).1
    + flag (get_cqr tmp c).1 16
    + (get_cap_ams tmp c).1 * 2 ^ 17
    + (get_resvd3 tmp c).1 * 2 ^ 19
    + (get_to tmp c).1 * 2 ^ 24
    + (get_dstrd tmp c).1 * 2 ^ 32
    + (get_cap_css tmp c).1 * 2 ^ 37
    + (get_mpsmin tmp c).1 * 2 ^ 48
    + (get_mpsmax tmp c).1 * 2 ^ 52
    + (get_resvd0 tmp c).1 * 2 ^ 56

module _ (tmp : ℕ) (c : CtrlrCap) (success : c.read_success ≡ true)
    (wide : c.reg_cap < 2 ^ 64) where
  value_lem :
      (mask lo n : ℕ)
      → mask ≡ mask_of n * 2 ^ lo
      → mask_of n ≡ 2 ^ n - 1
      → get_cap_value tmp c mask lo ≡ (true, c.reg_cap / 2 ^ lo % 2 ^ n % 2 ^ 16)
  unfolding get_cap_value read_reg_cap get_field
  value_lem mask lo n e m = rw success (
      ap (λ t. (true, t % 2 ^ 16))
        (masked_shift c.reg_cap mask lo n e wide
          ∙ (ap (bit_and (c.reg_cap / 2 ^ lo)) m ∙ bit_and_low n (c.reg_cap / 2 ^ lo))))

  get_resvd0_lem : get_resvd0 tmp c ≡ (true, c.reg_cap / 2 ^ 56 % 2 ^ 8)
  unfolding get_resvd0 mask_of
  get_resvd0_lem =
      rw (value_lem 0xff00000000000000 56 8 refl refl) (ap (λ t. (true, t)) (omega arith))

  get_mpsmax_lem : get_mpsmax tmp c ≡ (true, c.reg_cap / 2 ^ 52 % 2 ^ 4)
  unfolding get_mpsmax mask_of
  get_mpsmax_lem =
      rw (value_lem 0x00f0000000000000 52 4 refl refl) (ap (λ t. (true, t)) (omega arith))

  get_mpsmin_lem : get_mpsmin tmp c ≡ (true, c.reg_cap / 2 ^ 48 % 2 ^ 4)
  unfolding get_mpsmin mask_of
  get_mpsmin_lem =
      rw (value_lem 0x000f000000000000 48 4 refl refl) (ap (λ t. (true, t)) (omega arith))

  get_dstrd_lem : get_dstrd tmp c ≡ (true, c.reg_cap / 2 ^ 32 % 2 ^ 4)
  unfolding get_dstrd mask_of
  get_dstrd_lem =
      rw (value_lem 0x0000000f00000000 32 4 refl refl) (ap (λ t. (true, t)) (omega arith))

  get_to_lem : get_to tmp c ≡ (true, c.reg_cap / 2 ^ 24 % 2 ^ 8)
  unfolding get_to mask_of
  get_to_lem = rw (value_lem 0x00000000ff000000 24 8 refl refl) (ap (λ t. (true, t)) (omega arith))

  get_resvd3_lem : get_resvd3 tmp c ≡ (true, c.reg_cap / 2 ^ 19 % 2 ^ 5)
  unfolding get_resvd3 mask_of
  get_resvd3_lem =
      rw (value_lem 0x0000000000f80000 19 5 refl refl) (ap (λ t. (true, t)) (omega arith))

  get_cap_ams_lem : get_cap_ams tmp c ≡ (true, c.reg_cap / 2 ^ 17 % 2 ^ 2)
  unfolding get_cap_ams mask_of
  get_cap_ams_lem =
      rw (value_lem 0x0000000000060000 17 2 refl refl) (ap (λ t. (true, t)) (omega arith))

  get_mqes_lem : get_mqes tmp c ≡ (true, c.reg_cap / 2 ^ 0 % 2 ^ 16)
  unfolding get_mqes mask_of
  get_mqes_lem =
      rw (value_lem 0x000000000000ffff 0 16 refl refl) (ap (λ t. (true, t)) (omega arith))

  get_nssrs_lem : flag (get_nssrs tmp c).1 36 ≡ c.reg_cap / 2 ^ 36 % 2 * 2 ^ 36
  unfolding get_nssrs mask_of
  get_nssrs_lem = rw (value_lem 0x0000001000000000 36 1 refl refl) (ground arith)

  get_cqr_lem : flag (get_cqr tmp c).1 16 ≡ c.reg_cap / 2 ^ 16 % 2 * 2 ^ 16
  unfolding get_cqr mask_of
  get_cqr_lem = rw (value_lem 0x0000000000010000 16 1 refl refl) (ground arith)

  module _ (old : rev_eq c.spec_rev SpecRev.rev_10b ≡ true) where
    css_old : get_cap_css tmp c ≡ (true, c.reg_cap / 2 ^ 37 % 2 ^ 4)
    unfolding get_cap_css mask_of
    css_old =
        rw (old, value_lem 0x000001e000000000 37 4 refl refl) (ap (λ t. (true, t)) (omega arith))

    resvd1_old : get_resvd1 tmp c ≡ (true, c.reg_cap / 2 ^ 41 % 2 ^ 7)
    unfolding get_resvd1 mask_of
    resvd1_old =
        rw (old, value_lem 0x0000fe0000000000 41 7 refl refl) (ap (λ t. (true, t)) (omega arith))

    resvd2_old : get_resvd2 tmp c ≡ ok (true, c.reg_cap / 2 ^ 36 % 2 ^ 1)
    unfolding get_resvd2 mask_of
    resvd2_old =
        rw (old, value_lem 0x0000001000000000 36 1 refl refl) (ap (λ t. ok (true, t)) (omega arith))

  module _ (new : rev_eq c.spec_rev SpecRev.rev_10b ≡ false) where
    css_new : get_cap_css tmp c ≡ (true, c.reg_cap / 2 ^ 37 % 2 ^ 8)
    unfolding get_cap_css mask_of
    css_new =
        rw (new, value_lem 0x00001fe000000000 37 8 refl refl) (ap (λ t. (true, t)) (omega arith))

    resvd1_new : get_resvd1 tmp c ≡ (true, c.reg_cap / 2 ^ 45 % 2 ^ 3)
    unfolding get_resvd1 mask_of
    resvd1_new =
        rw (new, value_lem 0x0000e00000000000 45 3 refl refl) (ap (λ t. (true, t)) (omega arith))

    resvd2_new : get_resvd2 tmp c ≡ thrown
    unfolding get_resvd2
    resvd2_new = rw new refl

  -- If CAP was read as a 64-bit value, its fields as the getters return them, each at its place,
  -- add up to it: for revision 1.0b those of that revision, with RESVD2 at bit 36; for any later
  -- revision those of the later ones, with NSSRS at bit 36, and GetRESVD2 throws.
  pub cap_partition :
      ((rev_eq c.spec_rev SpecRev.rev_10b ≡ true)
        × ((v : ℕ) × (get_resvd2 tmp c ≡ ok (true, v))
            × (common tmp c + v * 2 ^ 36 + (get_resvd1 tmp c).1 * 2 ^ 41 ≡ c.reg_cap)))
      ⊎ ((rev_eq c.spec_rev SpecRev.rev_10b ≡ false)
          × (get_resvd2 tmp c ≡ thrown)
          × (common tmp c + flag (get_nssrs tmp c).1 36 + (get_resvd1 tmp c).1 * 2 ^ 45
              ≡ c.reg_cap))
  cap_partition = elim (Bool-cases (rev_eq c.spec_rev SpecRev.rev_10b)) [
    | inl old ↦ inl (
      old,
      (
        c.reg_cap / 2 ^ 36 % 2 ^ 1,
        resvd2_old old,
        rw
            (
              get_resvd0_lem,
              get_mpsmax_lem,
              get_mpsmin_lem,
              get_dstrd_lem,
              get_to_lem,
              get_resvd3_lem,
              get_cap_ams_lem,
              get_mqes_lem,
              get_cqr_lem,
              css_old old,
              resvd1_old old,
            )
            (omega arith),
      ),
    )
    | inr new ↦ inr (
      new,
      resvd2_new new,
      rw
          (
            get_resvd0_lem,
            get_mpsmax_lem,
            get_mpsmin_lem,
            get_dstrd_lem,
            get_to_lem,
            get_resvd3_lem,
            get_cap_ams_lem,
            get_mqes_lem,
            get_cqr_lem,
            get_nssrs_lem,
            css_new new,
            resvd1_new new,
          )
          (omega arith),
    )
  ]
