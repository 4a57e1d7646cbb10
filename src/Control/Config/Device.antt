-- ===== src/Control/Config/Device.antt =====
-- A device with the register CC: what its accessors, getters and setters read and write.
use tnvme.Base.{
  ℕ, ◌+◌, ◌-◌, ◌*◌, ◌/◌, ◌%◌, ◌^◌, ◌≡◌, ◌≢◌, refl, ap, ◌∙◌, bit_and, Bool, true, false, get_or,
  arith,
}
use tnvme.Control.Merge.{masked_shift}
use tnvme.Control.Registers.{
  IoSpace, Ioctl, Registers, no_metric, valid_spec_rev, read_ctl, write_ctl, read_at, write_at,
}
use tnvme.Control.Registers.Access.{regmask_lem}
use tnvme.Control.Registers.Tables.{ctlspc_cc}
use tnvme.Control.Config
use tnvme.Control.Config.Fields.{
  CcField, iocqes, iosqes, shn, ams, mps, css, en, low, width, cc_field, mask, argument,
  every-IsField, get_field-cc_field, cc_field-lt,
}

module _ {ℓ} {D : Type ℓ} (io : Ioctl D) (tmp : ℕ) where
  abbrev pub getter : CcField → Registers D → Bool × ℕ × Registers D
  getter iocqes = Config.get_iocqes io tmp
  getter iosqes = Config.get_iosqes io tmp
  getter shn = Config.get_shn io tmp
  getter ams = Config.get_ams io tmp
  getter mps = Config.get_mps io tmp
  getter css = Config.get_css io tmp
  getter en = Config.get_en io tmp

  -- A setter of a field; there is none for EN, and `SetMPS` has no argument: it writes 0 on a
  -- system with pages of 4096 bytes.
  abbrev pub setter : CcField → ℕ → Registers D → Bool × Registers D
  setter iocqes v = Config.set_iocqes io tmp v
  setter iosqes v = Config.set_iosqes io tmp v
  setter shn v = Config.set_shn io tmp v
  setter ams v = Config.set_ams io tmp v
  setter mps v = Config.set_mps io tmp 4096
  setter css v = Config.set_css io tmp v
  setter en v = λ s. (false, s)

-- A device in which CC holds what was written to it, and of which a read changes nothing.
pub record HoldsCc {ℓ} {D : Type ℓ} (io : Ioctl D) (cc : D → ℕ) : Type ℓ where
  pub read_cc :
      (buf : ℕ) (d : D)
      → io.read_generic IoSpace.bar01 4 0x14 buf d
        ≡ (true, buf / 2 ^ 32 * 2 ^ 32 + cc d % 2 ^ 32, d)
  pub write_cc : (v : ℕ) (d : D) → (io.write_generic IoSpace.bar01 4 0x14 v d).0 ≡ true
  pub written_cc : (v : ℕ) (d : D) → cc (io.write_generic IoSpace.bar01 4 0x14 v d).1 ≡ v % 2 ^ 32

-- CC is where the tables say, and the compliance revision has it.
pub record HasCc {ℓ} {D : Type ℓ} (s : Registers D) : Type ℓ where
  pub at : (get_or s.ctl_spc ctlspc_cc no_metric).offset ≡ 0x14
  pub of_size : (get_or s.ctl_spc ctlspc_cc no_metric).size ≡ 4
  pub in_rev : valid_spec_rev (get_or s.pci_spc ctlspc_cc no_metric).spec_rev s.spec_rev ≡ true

module _ {ℓ} {D : Type ℓ} (io : Ioctl D) (cc : D → ℕ) (holds : HoldsCc io cc) (tmp : ℕ) where
  pub read_reg_cc_lem :
      (s : Registers D) → HasCc s → Config.read_reg_cc io tmp s ≡ (true, cc s.device % 2 ^ 32, s)
  unfolding Config.read_reg_cc read_ctl read_at
  read_reg_cc_lem s h =
      rw (h.in_rev, h.of_size, h.at, holds.read_cc tmp s.device)
        (ap (λ t. (true, t % 2 ^ 32, s)) (regmask_lem _ 4 (omega arith))
          ∙ ap (λ t. (true, t, s)) whole)
    where
      whole :
          (tmp / 2 ^ 32 * 2 ^ 32 + cc s.device % 2 ^ 32) % 2 ^ 32 % 2 ^ 32 ≡ cc s.device % 2 ^ 32
      whole = omega arith

  pub write_reg_cc_lem :
      (v : ℕ) (s : Registers D)
      → HasCc s
      → let r = Config.write_reg_cc io tmp v s in
        (r.0 ≡ true) × (cc r.1.device ≡ v % 2 ^ 32) × HasCc r.1
  unfolding Config.write_reg_cc write_ctl write_at
  write_reg_cc_lem v s h =
      rw (h.in_rev, h.of_size, h.at)
        (
          holds.write_cc v s.device,
          holds.written_cc v s.device,
          record { at = h.at; of_size = h.of_size; in_rev = h.in_rev },
        )

  get_reg_value_lem :
      (f : CcField) (s : Registers D)
      → HasCc s
      → Config.get_reg_value io tmp (mask f) (low f) s
        ≡ (true, cc_field f (cc s.device % 2 ^ 32), s)
  unfolding Config.get_reg_value
  get_reg_value_lem f s h = rw (read_reg_cc_lem s h) (ap (λ t. (true, t, s)) value)
    where
      v : ℕ
      v = cc s.device % 2 ^ 32

      value : bit_and v (mask f) / 2 ^ low f % 2 ^ 8 ≡ cc_field f v
      value =
          let e : bit_and v (mask f) / 2 ^ low f ≡ cc_field f v =
            masked_shift v (mask f) (low f) (width f) (every-IsField f).shape (omega arith)
            ∙ get_field-cc_field f v in
          rw e (omega (arith, cc_field-lt f v))

  pub getter_lem :
      (f : CcField) (s : Registers D)
      → HasCc s
      → getter io tmp f s ≡ (true, cc_field f (cc s.device % 2 ^ 32), s)
  unfolding Config.get_iocqes Config.get_iosqes Config.get_shn Config.get_ams Config.get_mps
      Config.get_css Config.get_en
  getter_lem iocqes s h = get_reg_value_lem iocqes s h
  getter_lem iosqes s h = get_reg_value_lem iosqes s h
  getter_lem shn s h = get_reg_value_lem shn s h
  getter_lem ams s h = get_reg_value_lem ams s h
  getter_lem mps s h = get_reg_value_lem mps s h
  getter_lem css s h = get_reg_value_lem css s h
  getter_lem en s h = get_reg_value_lem en s h

  pub setter_lem :
      (f : CcField) (v : ℕ) (s : Registers D)
      → f ≢ en
      → setter io tmp f v s
        ≡ Config.set_reg_value io tmp (argument f v) (2 ^ width f - 1) (mask f) (low f) s
  unfolding Config.set_iocqes Config.set_iosqes Config.set_shn Config.set_ams Config.set_mps
      Config.set_css
  setter_lem iocqes v s h = refl
  setter_lem iosqes v s h = refl
  setter_lem shn v s h = refl
  setter_lem ams v s h = refl
  setter_lem mps v s h = refl
  setter_lem css v s h = refl
  setter_lem en v s h = absurd (h refl)
