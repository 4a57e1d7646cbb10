-- ===== src/Control/Config/Setters.antt =====
-- The fields of CC: what a setter writes, what it refuses, and what the getters read after it, on
-- a device that holds what is written to CC.
use tnvme.Base.{
  ℕ, ◌-◌, ◌*◌, ◌%◌, ◌^◌, ◌≤◌, ◌<◌, ◌≡◌, ◌≢◌, ◌⊎◌, inl, inr, refl, sym, ap, ◌∙◌, subst, bit_and,
  true, false, ◌==◌, lt→ltb, le→ltb, arith, dec_lt,
}
use tnvme.Cmds.Update.{shifted}
use tnvme.Control.Merge.{merge, merge_field, merge_apart}
use tnvme.Control.Registers.{Ioctl, Registers}
use tnvme.Control.Config
use tnvme.Control.Config.Apart.{apart, CcField_discrete}
use tnvme.Control.Config.Fields.{
  CcField, iocqes, iosqes, shn, ams, mps, css, en, low, width, cc_field, mask, argument,
  every-IsField, get_field-cc_field, shifted_small, cc_field_mod, value_fits,
}
use tnvme.Control.Config.Device.{
  getter, setter, HoldsCc, HasCc, read_reg_cc_lem, write_reg_cc_lem, getter_lem, setter_lem,
}

module _ {ℓ} {D : Type ℓ} (io : Ioctl D) (cc : D → ℕ) (holds : HoldsCc io cc) (tmp : ℕ) where
  -- What CC then holds.
  module _ (f : CcField) (v : ℕ) (s : Registers D) (h : HasCc s) (fits : v < 2 ^ width f) where
    after : ℕ
    after = merge (cc s.device % 2 ^ 32) (mask f) (v * 2 ^ low f % 2 ^ 32)

    bits : v * 2 ^ low f % 2 ^ 32 ≡ v * 2 ^ low f
    bits = omega (arith, shifted_small f v fits)

    after_same : cc_field f (after % 2 ^ 32) ≡ v
    unfolding after
    after_same =
        let F = every-IsField f in
        cc_field_mod f after
        ∙ (sym (get_field-cc_field f after)
            ∙ rw bits (
                merge_field (cc s.device % 2 ^ 32) (mask f) (v * 2 ^ low f) (low f) (width f) v
                  F.shape (omega (arith, F.inside)) F.narrow (omega arith)
                  (shifted v (low f) (width f) fits) (omega (arith, shifted_small f v fits)) fits))

    after_apart :
        (g : CcField) → f ≢ g → cc_field g (after % 2 ^ 32) ≡ cc_field g (cc s.device % 2 ^ 32)
    unfolding after
    after_apart g n =
        let F = every-IsField f in
        cc_field_mod g after
        ∙ (sym (get_field-cc_field g after)
            ∙ (rw bits (
                  merge_apart (cc s.device % 2 ^ 32) (mask f) (v * 2 ^ low f) (low f) (width f) v
                    F.shape (omega (arith, F.inside)) F.narrow (omega arith)
                    (shifted v (low f) (width f) fits) (omega (arith, shifted_small f v fits))
                    (low g) (width g) (omega (arith, (every-IsField g).inside)) (apart f g n))
                ∙ get_field-cc_field g (cc s.device % 2 ^ 32)))

  -- A setter with a value of the field's width, and one with a wider value.
  set_fits :
      (f : CcField) (v : ℕ) (s : Registers D) (h : HasCc s) (fits : v < 2 ^ width f)
      → let r = Config.set_reg_value io tmp v (2 ^ width f - 1) (mask f) (low f) s in
        (r.0 ≡ true) × (cc r.1.device ≡ after f v s h fits % 2 ^ 32) × HasCc r.1
  unfolding Config.set_reg_value after
  set_fits f v s h fits =
      let F = every-IsField f in
      let t : (bit_and v (2 ^ 8 - 1 - (2 ^ width f - 1)) == 0) ≡ true =
        value_fits (width f) v F.short (omega (arith, F.tall)) ∙ lt→ltb v (2 ^ width f) fits in
      rw (t, read_reg_cc_lem io cc holds tmp s h) (write_reg_cc_lem io cc holds tmp _ s h)

  set_wide :
      (f : CcField) (v : ℕ) (s : Registers D)
      → v < 2 ^ 8
      → 2 ^ width f ≤ v
      → Config.set_reg_value io tmp v (2 ^ width f - 1) (mask f) (low f) s ≡ (false, s)
  unfolding Config.set_reg_value
  set_wide f v s l wide =
      let t : (bit_and v (2 ^ 8 - 1 - (2 ^ width f - 1)) == 0) ≡ false =
        value_fits (width f) v (every-IsField f).short l ∙ le→ltb v (2 ^ width f) wide in
      rw t refl

  argument-lt : (f : CcField) (v : ℕ) → v < 2 ^ 8 → argument f v < 2 ^ 8
  argument-lt iocqes v h = h
  argument-lt iosqes v h = h
  argument-lt shn v h = h
  argument-lt ams v h = h
  argument-lt mps v h = omega arith
  argument-lt css v h = h
  argument-lt en v h = h

  read_after :
      (f g : CcField) (v : ℕ) (s : Registers D) (h : HasCc s) (fits : v < 2 ^ width f)
      → let r = Config.set_reg_value io tmp v (2 ^ width f - 1) (mask f) (low f) s in
        getter io tmp g r.1 ≡ (true, cc_field g (after f v s h fits % 2 ^ 32), r.1)
  read_after f g v s h fits =
      let (good, held, has) = set_fits f v s h fits in
      let r = Config.set_reg_value io tmp v (2 ^ width f - 1) (mask f) (low f) s in
      getter_lem io cc holds tmp g r.1 has
      ∙ ap (λ t. (true, t, r.1)) (cc_field_mod g (cc r.1.device) ∙ ap (cc_field g) held)

  -- On a device in which CC holds what was last written to it, with CC in the tables and in the
  -- compliance revision: a setter of a field of CC (SetMPS, which writes 0, on a system with pages
  -- of 4096 bytes) refuses a byte wider than its field and changes nothing; otherwise it succeeds,
  -- and every getter then succeeds and returns the value for that field and what it returned
  -- before for any other.
  pub cc_fields :
      (f g : CcField) (v : ℕ) (s : Registers D)
      → f ≢ en
      → v < 2 ^ 8
      → HasCc s
      → let r = setter io tmp f v s in
        let w = argument f v in
        ((2 ^ width f ≤ w) × (r ≡ (false, s)))
        ⊎ ((w < 2 ^ width f)
            × (r.0 ≡ true)
            × HasCc r.1
            × (((f ≡ g) × (getter io tmp g r.1 ≡ (true, w, r.1)))
                ⊎ ((f ≢ g) × (getter io tmp g r.1 ≡ (true, (getter io tmp g s).1, r.1)))))
  cc_fields f g v s n l h =
      rw (setter_lem io cc holds tmp f v s n) (elim (dec_lt (argument f v) (2 ^ width f)) [
        | no p ↦ inl (omega arith, set_wide f (argument f v) s (argument-lt f v l) (omega arith))
        | yes p ↦
            let w = argument f v in
            let r = Config.set_reg_value io tmp w (2 ^ width f - 1) (mask f) (low f) s in
            let (good, held, has) = set_fits f w s h p in
            inr (
              p,
              good,
              has,
              elim (CcField_discrete f g) [
                | inl e ↦ inl (
                  e,
                  subst (λ t. getter io tmp t r.1 ≡ (true, w, r.1)) e
                      (read_after f f w s h p ∙ ap (λ t. (true, t, r.1)) (after_same f w s h p)),
                )
                | inr e ↦ inr (
                  e,
                  read_after f g w s h p
                      ∙ ap (λ t. (true, t, r.1))
                          (after_apart f w s h p g e
                            ∙ sym (ap (λ t. t.1) (getter_lem io cc holds tmp g s h))),
                )
              ],
            )
      ])
