-- ===== src/Control/State.antt =====
-- `CtrlrConfig` of `Singletons/ctrlrConfig.cpp`: the state of the controller, of which observers are
-- told (`subject.h`), and the interrupt scheme.
-- pub mod Transitions
use tnvme.Base.{
  ℕ, Bool, true, false, ◌&&◌, not, Option, none, some, List, [], ◌∷◌, Result, ok, thrown,
  if◌then◌else◌,
}
use tnvme.Control.Registers.{Ioctl, Registers}
use tnvme.Control.Config.{is_state_enabled, set_mps}

-- `enum nvme_state`
pub data NvmeState : Type 0 where
  enable disable disable_completely : NvmeState

unfoldable pub state_eq : NvmeState → NvmeState → Bool
state_eq enable enable = true
state_eq disable disable = true
state_eq disable_completely disable_completely = true
state_eq _ _ = false

-- `enum nvme_irq_type`
pub data IrqType : Type 0 where
  msi_single msi_multi msix no_irq irq_fence : IrqType

-- What the class asks of the driver beside the registers, and `sysconf(_SC_PAGESIZE)`.
pub record ConfigIoctl {ℓ} (D : Type ℓ) : Type ℓ where
  pub io : Ioctl D
  pub get_device_metrics : D → Option (IrqType × ℕ) × D
  pub set_irq : IrqType → ℕ → D → Bool × D
  pub device_state : NvmeState → D → Bool × D
  pub page_size : ℕ

-- The members, and the state of the observers, whose `Update` may throw.
pub record CtrlrConfig {ℓ κ} (D : Type ℓ) (O : Type κ) : Type (ℓ ⊔ κ) where
  pub registers : Registers D
  pub cur_state : NvmeState
  pub first_time : Bool
  pub delta_check : Bool
  pub observers : List (NvmeState → O → Result (Unit {0}) × O)
  pub observed : O

module _ {κ} {O : Type κ} where
  -- What follows the call of an observer, if it did not throw.
  unfoldable pub unless_thrown :
      Result (Unit {0}) → O → Result (Unit {0}) × O → Result (Unit {0}) × O
  unless_thrown (ok _) o rest = rest
  unless_thrown thrown o rest = (thrown, o)

  -- The calls of the observers in order, until one throws.
  unfoldable pub update_all :
      List (NvmeState → O → Result (Unit {0}) × O) → NvmeState → O → Result (Unit {0}) × O
  update_all [] st o = (ok tt, o)
  update_all (f ∷ r) st o =
      let (result, o1) = f st o in
      let rest = update_all r st o1 in elim result [ ok _ ↦ rest | thrown ↦ (thrown, o1) ]

  -- `Subject::Notify`
  unfoldable pub notify {ℓ} :
      {D : Type ℓ} → NvmeState → CtrlrConfig D O → Result (Unit {0}) × CtrlrConfig D O
  notify st s =
      let (result, o) = update_all s.observers st s.observed in
      if s.delta_check && (state_eq s.cur_state st && not s.first_time)
      then (ok tt, record s { first_time = false })
      else (result, record s { first_time = false; cur_state = st; observed = o })

-- `DecodeIrqScheme`, its result
unfoldable pub decode_irq_scheme : IrqType → Bool
decode_irq_scheme irq_fence = false
decode_irq_scheme _ = true

unfoldable pub is_irq : IrqType → Bool
is_irq msi_single = true
is_irq msi_multi = true
is_irq msix = true
is_irq _ = false

-- `return true;`, if nothing was thrown before it.
unfoldable pub return_true : Result (Unit {0}) → Result Bool
return_true (ok _) = ok true
return_true thrown = thrown

module _ {ℓ} {D : Type ℓ} (k : ConfigIoctl D) where
  -- `SetState` behind its switch: the driver's call, and the observers.
  unfoldable pub enter_state {κ} :
      {O : Type κ} → NvmeState → CtrlrConfig D O → Result Bool × CtrlrConfig D O
  enter_state st s =
      let (done, d) = k.device_state st s.registers.device in
      let s1 = record s { registers = record s.registers { device = d } } in
      let (told, s2) = notify st s1 in
      if done
      then (return_true told, s2)
      else (ok false, record s1 { registers = (is_state_enabled k.io s1.registers).1 })

  -- `SetState`; the page size goes to CC.MPS first. `tmp` is what the variable that CC is read into
  -- holds before.
  unfoldable pub set_state {κ} :
      {O : Type κ} → ℕ → NvmeState → CtrlrConfig D O → Result Bool × CtrlrConfig D O
  set_state tmp enable s =
      let (good, r) = set_mps k.io tmp k.page_size s.registers in
      let s1 = record s { registers = r } in if good then enter_state enable s1 else (ok false, s1)
  set_state tmp disable s = enter_state disable s
  set_state tmp disable_completely s = enter_state disable_completely s

  -- `GetIrqScheme`
  unfoldable pub get_irq_scheme : D → Option (IrqType × ℕ) × D
  get_irq_scheme d =
      let (r, d1) = k.get_device_metrics d in
      (elim r [ none ↦ none | some p ↦ if decode_irq_scheme p.0 then some p else none ], d1)

  -- `SetIrqScheme`
  unfoldable pub set_irq_scheme : IrqType → ℕ → Registers D → Bool × Registers D
  set_irq_scheme irq num_irqs s =
      let (enabled, s1) = is_state_enabled k.io s in
      let (set, d) = k.set_irq irq num_irqs s1.device in
      if enabled
      then (false, s1)
      else if decode_irq_scheme irq
      then (set, record s1 { device = d })
      else (false, s1)

  -- `IrqsEnabled`
  unfoldable pub irqs_enabled : D → Bool × D
  irqs_enabled d =
      let (r, d1) = get_irq_scheme d in (elim r [ none ↦ false | some p ↦ is_irq p.0 ], d1)
