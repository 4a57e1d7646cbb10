-- ===== src/Resources/Update.antt =====
-- What a change of the controller's state does to the resources, when the resource manager observes
-- the controller as `tnvme.cpp` attaches it.
use tnvme.Base.{
  ℕ, ◌≡◌, ◌⊎◌, inl, inr, refl, Bool, true, false, some, [], ◌∷◌, Result, ok, Bool-cases, arith,
}
use tnvme.Meta.{Kernel}
use tnvme.Meta.Free.{Mapped, free_all_meta_buf_lem}
use tnvme.Control.State.{
  NvmeState, ConfigIoctl, CtrlrConfig, update_all, unless_thrown, return_true, notify, enter_state,
  set_state,
}
use tnvme.Resources.{RsrcMngr, any_cannot_end, free_all_obj, free_metadata, update}

-- No object and no metadata buffer is left.
pub record Freed {ℓ} {D : Type ℓ} (s : RsrcMngr D) : Type ℓ where
  pub no_object : s.objects.obj_grp_life ≡ []
  pub no_reserved : s.metadata.reserved ≡ []
  pub no_released : s.metadata.released ≡ []
  pub no_size : s.metadata.meta_alloc_size ≡ 0

module _ {ℓ} {D : Type ℓ} (k : Kernel D) (s : RsrcMngr D) (mapped : Mapped s.metadata.reserved)
    (can_end : any_cannot_end s.objects.obj_grp_life ≡ false) where
  freed_objects : free_all_obj s.objects ≡ some (record s.objects { obj_grp_life = [] })
  unfolding free_all_obj
  freed_objects = rw can_end refl

  update-Freed :
      ((update k NvmeState.disable_completely s).0 ≡ ok tt)
      × Freed (update k NvmeState.disable_completely s).1
      × ((update k NvmeState.disable_completely s).1.defined ≡ s.defined)
  unfolding update free_metadata
  update-Freed =
      rw (freed_objects, update, free_all_meta_buf_lem k s.metadata mapped)
        (
          refl,
          record { no_object = refl; no_reserved = refl; no_released = refl; no_size = refl },
          refl,
        )

update_all-one {κ} :
    {O : Type κ} (f : NvmeState → O → Result (Unit {0}) × O) (st : NvmeState) (o : O)
    → (f st o).0 ≡ ok tt
    → update_all (f ∷ []) st o ≡ (ok tt, (f st o).1)
unfolding update_all unless_thrown
update_all-one f st o e = rw e refl

-- `SetState(ST_DISABLE_COMPLETELY)` with the resource manager as the only observer.
module _ {ℓ κ} {C : Type ℓ} {D : Type κ} (c : ConfigIoctl C) (k : Kernel D) (tmp : ℕ)
    (s : CtrlrConfig C (RsrcMngr D)) (attached : s.observers ≡ update k ∷ [])
    (always : s.delta_check ≡ false) (mapped : Mapped s.observed.metadata.reserved)
    (can_end : any_cannot_end s.observed.objects.obj_grp_life ≡ false) where
  abbrev pub outcome : Result Bool × CtrlrConfig C (RsrcMngr D)
  outcome = set_state c tmp NvmeState.disable_completely s

  -- With the resource manager as the only observer, which is told of every state, all reserved
  -- metadata buffers mapped, and no queue among the objects that is not set up:
  -- SetState(ST_DISABLE_COMPLETELY) either succeeds with the new state recorded, no object left,
  -- no metadata buffer reserved or released, and the behaviour as well defined as before, or
  -- returns false with the recorded state and all resources as they were.
  pub set_state-Freed :
      ((outcome.0 ≡ ok true)
        × (outcome.1.cur_state ≡ NvmeState.disable_completely)
        × Freed outcome.1.observed
        × (outcome.1.observed.defined ≡ s.observed.defined))
      ⊎ ((outcome.0 ≡ ok false)
          × (outcome.1.cur_state ≡ s.cur_state)
          × (outcome.1.observed ≡ s.observed))
  unfolding set_state enter_state notify return_true
  set_state-Freed =
      elim (Bool-cases (c.device_state NvmeState.disable_completely s.registers.device).0) [
        | inl t ↦
            let (e, f, g) = update-Freed k s.observed mapped can_end in
            inl (
              rw
                (
                  t,
                  always,
                  attached,
                  update_all-one (update k) NvmeState.disable_completely s.observed e,
                )
                (refl, refl, f, g))
        | inr f ↦ inr (ground arith, ground arith, ground arith)
      ]
