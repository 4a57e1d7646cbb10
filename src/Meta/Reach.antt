-- ===== src/Meta/Reach.antt =====
-- The metadata buffers over any sequence of operations.
use tnvme.Base.{ℕ, refl, []}
use tnvme.Meta.{
  MetaDataBuf, Kernel, MetaRsrc, set_meta_alloc_size, reserve_meta_buf, release_meta_buf,
  free_all_meta_buf,
}
use tnvme.Meta.Invariant.{IsValid}
use tnvme.Meta.Free.{set_meta_alloc_size_lem}
use tnvme.Meta.Reserve.{reserve_meta_buf-IsValid}
use tnvme.Meta.Freed.{same_lists, free_all-IsValid}
use tnvme.Meta.Release.{release_meta_buf-IsValid}

module _ {ℓ} {D : Type ℓ} (k : Kernel D) where
  -- One operation; what happens to the driver between two of them is any change of its state.
  pub data Step : MetaRsrc D → MetaRsrc D → Type ℓ where
    set_size : (size : ℕ) (s : MetaRsrc D) → Step s (set_meta_alloc_size k size s).1
    reserve : (s : MetaRsrc D) → Step s (reserve_meta_buf k s).1
    release : (b : MetaDataBuf) (s : MetaRsrc D) → Step s (release_meta_buf k b s)
    free_all : (s : MetaRsrc D) → Step s (free_all_meta_buf k s).1
    other : (d : D) (s : MetaRsrc D) → Step s (record s { device = d })

  pub data Reach (s : MetaRsrc D) : MetaRsrc D → Type ℓ where
    here : Reach s s
    next : {t u : MetaRsrc D} → Reach s t → Step t u → Reach s u

  abbrev pub started : D → MetaRsrc D
  started d = record { device = d; meta_alloc_size = 0; reserved = []; released = [] }

  started-IsValid : (d : D) → IsValid (started d)
  started-IsValid d = record {
    sorted = tt;
    unique = tt;
    disjoint = tt;
    reserved_within = tt;
    released_within = tt;
  }

  set_size-IsValid :
      (size : ℕ) (s : MetaRsrc D) → IsValid s → IsValid (set_meta_alloc_size k size s).1
  set_size-IsValid size s V =
      let kept = set_meta_alloc_size_lem k size s in same_lists s _ kept.0 kept.1 V

  Step-IsValid : {s t : MetaRsrc D} → Step s t → IsValid s → IsValid t
  Step-IsValid (set_size size s) V = set_size-IsValid size s V
  Step-IsValid (reserve s) V = reserve_meta_buf-IsValid k s V
  Step-IsValid (release b s) V = release_meta_buf-IsValid k b s V
  Step-IsValid (free_all s) V = free_all-IsValid k s V
  Step-IsValid (other d s) V = same_lists s _ refl refl V

  -- After any sequence of SetMetaAllocSize, ReserveMetaBuf, ReleaseMetaBuf (of any buffer) and
  -- FreeAllMetaBuf from the empty state, exceptions included, and whatever happens to the driver
  -- between them, the state is valid: the reserved buffers are in ascending order of distinct
  -- identifiers, the released ones have distinct identifiers that no reserved one has, and all are
  -- in the range of the driver.
  pub Reach-IsValid : {d : D} {s : MetaRsrc D} → Reach (started d) s → IsValid s
  Reach-IsValid here = started-IsValid _
  Reach-IsValid (next r st) = Step-IsValid st (Reach-IsValid r)
