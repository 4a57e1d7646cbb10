-- ===== src/Meta/Free.antt =====
-- `MetaRsrc::FreeAllMetaBuf`: its loops end, and nothing is left.
use tnvme.Base.{
  ℕ, ◌≡◌, ◌≢◌, ◌⊎◌, refl, sym, ap, ◌∙◌, true, false, List, [], ◌∷◌, ◌++◌, length, append_assoc,
  append-nil, arith, ◌==◌, ok, thrown,
}
use tnvme.Meta.{
  MetaDataBuf, Kernel, MetaRsrc, set_meta_alloc_size, take_out, release_meta_buf, release_all,
  free_back, free_all_meta_buf, is_default,
}

-- Buffers that are mapped, as `ReserveMetaBuf` sees to.
abbrev pub Mapped : List MetaDataBuf → Type 0
Mapped [] = Unit {0}
Mapped (b ∷ r) = (b.buf ≢ 0) × Mapped r

module _ {ℓ} {D : Type ℓ} (k : Kernel D) (d : D) (size : ℕ) where
  members : List MetaDataBuf → List MetaDataBuf → MetaRsrc D
  members res rel = record { device = d; meta_alloc_size = size; reserved = res; released = rel }

  release_first :
      (b : MetaDataBuf) (r rel : List MetaDataBuf)
      → b.buf ≢ 0
      → release_meta_buf k b (members (b ∷ r) rel) ≡ members r (rel ++ (b ∷ []))
  unfolding release_meta_buf members take_out is_default
  release_first b r rel h =
      let e : (b.buf == 0) ≡ false = ground arith in
      let f : (b.id == b.id) ≡ true = ground arith in rw (e, f) refl

  release_all_lem :
      (l rel : List MetaDataBuf)
      → Mapped l
      → release_all k (length l) (members l rel) ≡ members [] (rel ++ l)
  unfolding release_all members
  release_all_lem [] rel m = ap (members []) (sym (append-nil rel))
  release_all_lem (b ∷ r) rel m =
      ap (release_all k (length r)) (release_first b r rel m.0)
      ∙ (release_all_lem r (rel ++ (b ∷ [])) m.1 ∙ ap (members []) (append_assoc rel (b ∷ []) r))

-- If every reserved buffer has an address that is not NULL, FreeAllMetaBuf ends without its
-- exception, with the size 0 and no buffer reserved or released; the driver has unmapped and
-- deleted the released buffers with the reserved ones behind them, from the last to the first.
pub free_all_meta_buf_lem {ℓ} :
    {D : Type ℓ} (k : Kernel D) (s : MetaRsrc D)
    → Mapped s.reserved
    → free_all_meta_buf k s ≡ (
      ok tt,
      record {
        device = free_back k (s.released ++ s.reserved) s.device;
        meta_alloc_size = 0;
        reserved = [];
        released = [];
      },
    )
unfolding free_all_meta_buf members
free_all_meta_buf_lem k s m =
    ap
      (λ s1. (
        elim s1.reserved [ [] ↦ ok tt | _ ∷ _ ↦ thrown ],
        record s1 {
          device = free_back k s1.released s1.device;
          released = [];
          meta_alloc_size = 0;
        },
      ))
      (release_all_lem k s.device s.meta_alloc_size s.reserved s.released m)

-- SetMetaAllocSize keeps both lists of buffers, and either returns true with the requested size
-- set or returns false with the size as it was.
pub set_meta_alloc_size_lem {ℓ} :
    {D : Type ℓ} (k : Kernel D) (size : ℕ) (s : MetaRsrc D)
    → let (set, s') = set_meta_alloc_size k size s in
      (s'.reserved ≡ s.reserved)
      × (s'.released ≡ s.released)
      × (((set ≡ true) × (s'.meta_alloc_size ≡ size))
          ⊎ ((set ≡ false) × (s'.meta_alloc_size ≡ s.meta_alloc_size)))
unfolding set_meta_alloc_size
set_meta_alloc_size_lem k size s = ground arith
