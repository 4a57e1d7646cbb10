-- ===== src/Resources.antt =====
-- `Singletons/objRsrc.cpp` and `Singletons/rsrcMngr.cpp`: the objects that live as long as a group of
-- tests, by their names, and what a change of the controller's state frees.
pub mod Objects
pub mod Update
mod Tests
use tnvme.Base.{
  ℕ, zero, suc, ◌+◌, Bool, true, false, ◌&&◌, ◌||◌, not, Option, none, some, List, [], ◌∷◌, Result,
  ok, thrown, ◌==◌, if◌then◌else◌,
}
use tnvme.Meta.{Kernel, MetaRsrc, free_all_meta_buf}
use tnvme.Control.State.{NvmeState}

-- `Trackable::ObjType`
pub data ObjType : Type 0 where
  membuffer acq asq iocq iosq admincmd identify createiocq createiosq deleteiocq deleteiosq :
      ObjType
  getfeatures setfeatures getlogpage fwactivate fwimgdnld formatnvm asynceventreq : ObjType
  securitysend securityrcv nvmcmd write read flush datasetmgmt writezeroes : ObjType
  reservationregister reservationreport reservationacquire reservationrelease : ObjType
  namespaceattach namespacemanagement objtype_fence : ObjType

-- The types without a case in the switch of `AllocWorker`
unfoldable pub unknown_type : ObjType → Bool
unknown_type writezeroes = true
unknown_type objtype_fence = true
unknown_type _ = false

-- An object, told apart by a number; `set_up` says that `Init` of a queue was called on it and
-- succeeded.
pub record Object : Type 0 where
  pub obj_type : ObjType
  pub identity : ℕ
  pub set_up : Bool

unfoldable pub is_queue : ObjType → Bool
is_queue acq = true
is_queue asq = true
is_queue iocq = true
is_queue iosq = true
is_queue _ = false

-- The destructor of a queue that is not set up throws, since its `GetIsContig` does; this ends the
-- program, since no destructor may throw.
unfoldable pub cannot_end : Object → Bool
cannot_end o = is_queue o.obj_type && not o.set_up

-- A name as its characters
abbrev pub Name : Type 0
Name = List ℕ

unfoldable pub name_eq : Name → Name → Bool
name_eq [] [] = true
name_eq (a ∷ x) (b ∷ y) = let rest = name_eq x y in a == b && rest
name_eq _ _ = false

-- `mObjGrpLife`, and the identity of the next object.
pub record ObjRsrc : Type 0 where
  pub obj_grp_life : List (Name × Object)
  pub next_identity : ℕ

unfoldable pub find : Name → List (Name × Object) → Option Object
find name [] = none
find name ((k, o) ∷ r) = let rest = find name r in if name_eq k name then some o else rest

-- `GetObj`
unfoldable pub get_obj : Name → ObjRsrc → Option Object
get_obj name s = find name s.obj_grp_life

unfoldable pub any_cannot_end : List (Name × Object) → Bool
any_cannot_end [] = false
any_cannot_end ((k, o) ∷ r) = let rest = any_cannot_end r in cannot_end o || rest

-- `FreeAllObj`, where nothing else holds a pointer to the objects; `none` if a destructor throws. The
-- destructor of a command releases its metadata buffer as well, which `FreeAllMetaBuf` would release
-- after it: that only changes the order of the calls of the driver and is left out.
unfoldable pub free_all_obj : ObjRsrc → Option ObjRsrc
free_all_obj s =
    if any_cannot_end s.obj_grp_life then none else some (record s { obj_grp_life = [] })

unfoldable pub is_acq_asq : ObjType → Bool
is_acq_asq acq = true
is_acq_asq asq = true
is_acq_asq _ = false

-- The loop of `FreeAllObjNotASQACQ` from an entry on: what is left, and false once it has erased one,
-- since it then increments the iterator of what was erased, which has no defined behaviour.
unfoldable pub erase_loop : List (Name × Object) → List (Name × Object) × Bool
erase_loop [] = ([], true)
erase_loop ((k, o) ∷ r) =
    let (left, fine) = erase_loop r in
    if is_acq_asq o.obj_type then ((k, o) ∷ left, fine) else (r, false)

-- `RsrcMngr`: both base classes, and whether the program still runs with a defined behaviour; where
-- it does not, nothing is known of the rest.
pub record RsrcMngr {ℓ} (D : Type ℓ) : Type ℓ where
  pub objects : ObjRsrc
  pub metadata : MetaRsrc D
  pub defined : Bool

module _ {ℓ} {D : Type ℓ} (k : Kernel D) where
  unfoldable pub free_metadata : RsrcMngr D → Result (Unit {0}) × RsrcMngr D
  free_metadata s =
      let (result, m) = free_all_meta_buf k s.metadata in (result, record s { metadata = m })

  -- `RsrcMngr::Update`
  unfoldable pub update : NvmeState → RsrcMngr D → Result (Unit {0}) × RsrcMngr D
  update NvmeState.disable_completely s = elim (free_all_obj s.objects) [
    | none ↦ (ok tt, record s { defined = false })
    | some o ↦ free_metadata (record s { objects = o })
  ]
  update NvmeState.disable s =
      let (left, fine) = erase_loop s.objects.obj_grp_life in
      free_metadata (record s {
        objects = record s.objects { obj_grp_life = left };
        defined = s.defined && fine;
      })
  update NvmeState.enable s = (ok tt, s)

  -- What the constructor of an exception does to the resources, without the option --postfail.
  unfoldable pub ex_update : RsrcMngr D → RsrcMngr D
  ex_update s =
      let (done, d) = k.disable_completely s.metadata.device in
      let s1 : RsrcMngr D = record s { metadata = record s.metadata { device = d } } in
      let told = (update NvmeState.disable_completely s1).1 in if done then told else s1

  -- `AllocWorker`
  unfoldable pub alloc_worker : ObjType → RsrcMngr D → Result Object × RsrcMngr D
  alloc_worker type s = if unknown_type type then (thrown, ex_update s) else (
    ok (record { obj_type = type; identity = s.objects.next_identity; set_up = false }),
    record s { objects = record s.objects { next_identity = s.objects.next_identity + 1 } },
  )

  -- The insertion into the map, by what is found under the name; it fails if there is anything, and
  -- the new object is destroyed.
  unfoldable pub store : Option Object → Object → Name → RsrcMngr D → Option Object × RsrcMngr D
  store none o name s =
      let objects : ObjRsrc = record s.objects {
        obj_grp_life = (name, o) ∷ s.objects.obj_grp_life;
      } in
      (get_obj name objects, record s { objects = objects })
  store (some _) o name s = (none, record s { defined = s.defined && not (cannot_end o) })

  unfoldable pub alloc_with :
      Result Object → Name → RsrcMngr D → Result (Option Object) × RsrcMngr D
  alloc_with thrown name s = (thrown, s)
  alloc_with (ok o) name s =
      let (stored, s1) = store (find name s.objects.obj_grp_life) o name s in (ok stored, s1)

  unfoldable pub alloc_named : ObjType → Name → RsrcMngr D → Result (Option Object) × RsrcMngr D
  alloc_named type name s = let (made, s1) = alloc_worker type s in alloc_with made name s1

  -- `AllocObj`; `none` is the null pointer.
  unfoldable pub alloc_obj : ObjType → Name → RsrcMngr D → Result (Option Object) × RsrcMngr D
  alloc_obj type [] s = (ok none, s)
  alloc_obj type (c ∷ name) s = alloc_named type (c ∷ name) s
