-- ===== src/Payload/Metadata.antt =====
-- `MetaData::AllocMetaBuffer` and `~MetaData` with the manager of metadata buffers.
use tnvme.Base.{ℕ, ◌≡◌, ◌≢◌, ◌⊎◌, [], ◌∷◌, ◌++◌, ok, thrown}
use tnvme.Meta.{Kernel, MetaRsrc}
use tnvme.Meta.Invariant.{Absent}
use tnvme.Payload.{Payload, get_meta_bitmask, alloc_meta_buffer, destroy}
use tnvme.Meta.Freed.{AfterEx}

module _ {ℓ} {D : Type ℓ} (k : Kernel D) where
  -- The command holds a mapped buffer of its own, MASK_MPTR is set, and its destruction gives back
  -- exactly this buffer.
  pub record Allocated (p : Payload) (s : MetaRsrc D) (q : Payload) (t : MetaRsrc D) : Type ℓ where
    pub only_meta : q ≡ record p { meta_data = q.meta_data }
    pub mapped : q.meta_data.buf ≢ 0
    pub fresh : Absent q.meta_data.id s.reserved
    pub bitmask : (mptr : ℕ) → get_meta_bitmask mptr q ≡ mptr
    pub origin : ((s.released ≡ []) × (t.released ≡ [])) ⊎ (s.released ≡ q.meta_data ∷ t.released)
    pub given_back :
        destroy k q t
        ≡ record t { reserved = s.reserved; released = t.released ++ (q.meta_data ∷ []) }

  pub record Failed (p : Payload) (s : MetaRsrc D) (q : Payload) (t : MetaRsrc D) : Type ℓ where
    pub only_meta : q ≡ record p { meta_data = q.meta_data }
    pub none_released : s.released ≡ []
    pub after_ex : (d : D) × AfterEx k d s t

  abbrev pub Outcome : Payload → MetaRsrc D → Type ℓ
  Outcome p s =
      let (r, q, t) = alloc_meta_buffer k p s in
      ((r ≡ ok tt) × Allocated p s q t) ⊎ ((r ≡ thrown) × Failed p s q t)
