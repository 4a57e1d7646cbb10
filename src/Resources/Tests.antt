-- ===== src/Resources/Tests.antt =====
-- The theorems about the resource manager with a driver that accepts every call.
use tnvme.Base.{ℕ, ◌+◌, ◌≡◌, ◌⊎◌, refl, true, false, none, [], ◌∷◌, ok, arith}
use tnvme.Meta.{Kernel}
use tnvme.Control.Registers.{SpecRev}
use tnvme.Control.State.{NvmeState, ConfigIoctl, CtrlrConfig, set_state}
use tnvme.Resources.{
  ObjType, ObjRsrc, RsrcMngr, any_cannot_end, cannot_end, is_queue, alloc_obj, update,
}
use tnvme.Resources.Objects.{Allocated, alloc_obj-Allocated}
use tnvme.Resources.Update.{Freed, set_state-Freed}

abbrev kernel : Kernel ℕ
kernel = record {
  metabuf_create = λ s d. (true, d + 1);
  metabuf_alloc = λ i d. (true, d + 1);
  metabuf_delete = λ i d. (true, d + 1);
  mmap = λ s i d. (4096 + i, d);
  munmap = λ a s d. d;
  disable_completely = λ d. (true, d);
}

abbrev config : ConfigIoctl ℕ
config = record {
  io = record {
    read_generic = λ spc n offset buf d. (true, d, d);
    write_generic = λ spc n offset v d. (true, d);
  };
  get_device_metrics = λ d. (none, d);
  set_irq = λ irq n d. (true, d);
  device_state = λ st d. (true, d + 1);
  page_size = 4096;
}

-- A queue of the administrator and another object.
abbrev objects : ObjRsrc
objects = record {
  obj_grp_life =
      ((1 ∷ []), record { obj_type = ObjType.acq; identity = 0; set_up = true })
      ∷ (((2 ∷ []), record { obj_type = ObjType.iocq; identity = 1; set_up = true }) ∷ []);
  next_identity = 2;
}

abbrev manager : RsrcMngr ℕ
manager = record {
  objects = objects;
  metadata = record {
    device = 1;
    meta_alloc_size = 64;
    reserved = record { buf = 4096; size = 64; id = 0 } ∷ [];
    released = [];
  };
  defined = true;
}

abbrev ctrlr : CtrlrConfig ℕ (RsrcMngr ℕ)
ctrlr = record {
  registers = record {
    device = 0;
    spec_rev = SpecRev.rev_12;
    pci_spc = [];
    ctl_spc = [];
    pci_cap = [];
  };
  cur_state = NvmeState.enable;
  first_time = false;
  delta_check = false;
  observers = update kernel ∷ [];
  observed = manager;
}

alloc_obj-Allocated_example :
    Allocated kernel ObjType.identify
      (3 ∷ [])
      manager
      (2 ∷ [])
      (alloc_obj kernel ObjType.identify (3 ∷ []) manager)
alloc_obj-Allocated_example = alloc_obj-Allocated kernel ObjType.identify (3 ∷ []) (2 ∷ []) manager

set_state-Freed_example :
    let r = set_state config 0 NvmeState.disable_completely ctrlr in
    ((r.0 ≡ ok true)
      × (r.1.cur_state ≡ NvmeState.disable_completely)
      × Freed r.1.observed
      × (r.1.observed.defined ≡ true))
    ⊎ ((r.0 ≡ ok false) × (r.1.cur_state ≡ NvmeState.enable) × (r.1.observed ≡ manager))
unfolding any_cannot_end cannot_end is_queue
set_state-Freed_example =
    set_state-Freed config kernel 0 ctrlr refl refl ((λ e. omega arith), tt) refl
