-- ===== src/Control/Cap.antt =====
-- `Singletons/ctrlrCap.cpp`: the capabilities register CAP, which is read once, and its fields.
pub mod Partition
use tnvme.Base.{
  ℕ, ◌+◌, ◌*◌, ◌/◌, ◌%◌, ◌^◌, bit_and, Bool, true, false, not, Result, ok, thrown, ◌==◌,
  if◌then◌else◌,
}
use tnvme.Control.Registers.{SpecRev, Ioctl, Registers, rev_eq, read_ctl}
use tnvme.Control.Registers.Tables.{ctlspc_cap}

-- The members of `CtrlrCap`.
pub record CtrlrCap : Type 0 where
  pub spec_rev : SpecRev
  pub read_success : Bool
  pub reg_cap : ℕ

-- `CtrlrCap::CtrlrCap`; `garbage` is what the member holds if the read fails.
unfoldable pub ctrlr_cap {ℓ} :
    {D : Type ℓ} → Ioctl D → ℕ → SpecRev → Registers D → CtrlrCap × Registers D
ctrlr_cap io garbage rev s =
    let (good, v, s1) = read_ctl io ctlspc_cap garbage s in
    (record { spec_rev = rev; read_success = good; reg_cap = v }, s1)

-- The getters give their result and a value; `tmp` is what their variable holds if CAP could not be
-- read.
module _ (tmp : ℕ) (c : CtrlrCap) where
  -- `ReadRegCAP`
  unfoldable pub read_reg_cap : Bool × ℕ
  read_reg_cap = (c.read_success, if c.read_success then c.reg_cap else tmp)

  -- `GetRegValue`
  unfoldable pub get_cap_value : ℕ → ℕ → Bool × ℕ
  get_cap_value mask shift =
      let (good, v) = read_reg_cap in (good, bit_and v mask / 2 ^ shift % 2 ^ 16)

  -- The value as `uint8_t`
  abbrev pub narrow : Bool × ℕ → Bool × ℕ
  narrow (good, v) = (good, v % 2 ^ 8)

  -- `GetRESVD0`
  unfoldable pub get_resvd0 : Bool × ℕ
  get_resvd0 = narrow (get_cap_value 0xff00000000000000 56)

  -- `GetMPSMAX`
  unfoldable pub get_mpsmax : Bool × ℕ
  get_mpsmax = narrow (get_cap_value 0x00f0000000000000 52)

  -- `GetMPSMIN`
  unfoldable pub get_mpsmin : Bool × ℕ
  get_mpsmin = narrow (get_cap_value 0x000f000000000000 48)

  -- `GetRESVD1`
  unfoldable pub get_resvd1 : Bool × ℕ
  get_resvd1 =
      if rev_eq c.spec_rev SpecRev.rev_10b
      then narrow (get_cap_value 0x0000fe0000000000 41)
      else narrow (get_cap_value 0x0000e00000000000 45)

  -- `GetCSS`
  unfoldable pub get_cap_css : Bool × ℕ
  get_cap_css =
      if rev_eq c.spec_rev SpecRev.rev_10b
      then narrow (get_cap_value 0x000001e000000000 37)
      else narrow (get_cap_value 0x00001fe000000000 37)

  -- `GetNVMCSS`
  unfoldable pub get_nvmcss : Bool × Bool
  get_nvmcss = let (good, v) = get_cap_css in (good, not (bit_and v 0x01 == 0))

  -- `GetRESVD2`
  unfoldable pub get_resvd2 : Result (Bool × ℕ)
  get_resvd2 =
      if rev_eq c.spec_rev SpecRev.rev_10b
      then ok (narrow (get_cap_value 0x0000001000000000 36))
      else thrown

  -- `GetNSSRS`
  unfoldable pub get_nssrs : Bool × Bool
  get_nssrs = let (good, v) = get_cap_value 0x0000001000000000 36 in (good, not (v == 0))

  -- `GetDSTRD`
  unfoldable pub get_dstrd : Bool × ℕ
  get_dstrd = narrow (get_cap_value 0x0000000f00000000 32)

  -- `GetTO`
  unfoldable pub get_to : Bool × ℕ
  get_to = narrow (get_cap_value 0x00000000ff000000 24)

  -- `GetRESVD3`
  unfoldable pub get_resvd3 : Bool × ℕ
  get_resvd3 = narrow (get_cap_value 0x0000000000f80000 19)

  -- `GetAMS`
  unfoldable pub get_cap_ams : Bool × ℕ
  get_cap_ams = narrow (get_cap_value 0x0000000000060000 17)

  -- `GetCQR`
  unfoldable pub get_cqr : Bool × Bool
  get_cqr = let (good, v) = get_cap_value 0x0000000000010000 16 in (good, not (v == 0))

  -- `GetMQES`
  unfoldable pub get_mqes : Bool × ℕ
  get_mqes = get_cap_value 0x000000000000ffff 0
