-- ===== src/Payload/Allocation.antt =====
-- `MetaData::AllocMetaBuffer` by the answers of the kernel driver.
use tnvme.Base.{
  ℕ, ◌≡◌, ◌≢◌, ◌⊎◌, inl, inr, refl, Bool-cases, true, false, Bool, ◌&&◌, Result, Option, none, some,
  List, [], ◌∷◌, ok, thrown, ltb, ◌==◌,
}
use tnvme.Meta.{
  MetaDataBuf, Kernel, MetaRsrc, id_limit, insert_released, unique_id, frmwk_ex, reserve_new,
  reserve_from, reserve_meta_buf,
}
use tnvme.Meta.Invariant.{inserted}
use tnvme.Payload.{Payload, no_direction, reserved_into, alloc_meta_buffer}
use tnvme.Payload.Buffers.{zero_cases}

-- What `AllocMetaBuffer` makes of the result of `ReserveMetaBuf`.
abbrev outcome_of : Result (Option MetaDataBuf) → Result (Unit {0})
outcome_of (ok (some _)) = ok tt
outcome_of (ok none) = thrown
outcome_of thrown = thrown

module _ {ℓ} {D : Type ℓ} (k : Kernel D) where
  -- If there is no identifier left, it throws by itself.
  abbrev left_by : Result (Option MetaDataBuf) → MetaRsrc D → MetaRsrc D
  left_by (ok none) t = frmwk_ex k t
  left_by _ t = t

  abbrev pub none_released : MetaRsrc D → MetaRsrc D
  none_released s = record s { released = [] }

  alloc_by :
      (p : Payload) (s t : MetaRsrc D) (m : MetaDataBuf) (r : Result (Option MetaDataBuf))
      → no_direction p.data_dir ≡ false
      → reserve_meta_buf k s ≡ (r, t)
      → reserved_into k s.released p.meta_data s ≡ m
      → alloc_meta_buffer k p s ≡ (outcome_of r, record p { meta_data = m }, left_by r t)
  unfolding alloc_meta_buffer
  alloc_by p s t m (ok none) d e f = rw (d, e, e, f) refl
  alloc_by p s t m (ok (some b)) d e f = rw (d, e, e, f) refl
  alloc_by p s t m thrown d e f = rw (d, e, e, f) refl

  module _ (s : MetaRsrc D) where
    abbrev new_id : ℕ
    new_id = (unique_id 0 s.reserved).0

    abbrev allocation : Bool × D
    allocation = k.metabuf_alloc new_id s.device

    abbrev mapping : ℕ × D
    mapping = k.mmap s.meta_alloc_size new_id allocation.1

    abbrev new_buffer : ℕ → MetaDataBuf
    new_buffer a = record { buf = a; size = s.meta_alloc_size; id = new_id }

    into_mapped :
        (m : MetaDataBuf)
        → ltb new_id id_limit ≡ true
        → allocation.0 ≡ true
        → reserved_into k [] m s ≡ new_buffer mapping.0
    unfolding reserved_into
    into_mapped m f g = rw (f, g) refl

    into_denied :
        (m : MetaDataBuf)
        → (ltb new_id id_limit && allocation.0) ≡ false
        → reserved_into k [] m s ≡ new_buffer m.buf
    unfolding reserved_into
    into_denied m f = rw f refl

    reserve_mapped :
        ltb new_id id_limit ≡ true
        → allocation.0 ≡ true
        → (mapping.0 == 0) ≡ false
        → reserve_new k s ≡ (
          ok (some (new_buffer mapping.0)),
          record s { device = mapping.1; reserved = inserted 0 s.reserved (new_buffer mapping.0) },
        )
    unfolding reserve_new inserted
    reserve_mapped f g h = rw (f, g, h) refl

    reserve_unmapped :
        ltb new_id id_limit ≡ true
        → allocation.0 ≡ true
        → (mapping.0 == 0) ≡ true
        → reserve_new k s
          ≡ (thrown, frmwk_ex k (record s { device = (k.metabuf_delete new_id mapping.1).1 }))
    unfolding reserve_new
    reserve_unmapped f g h = rw (f, g, h) refl

    reserve_denied :
        ltb new_id id_limit ≡ true
        → allocation.0 ≡ false
        → reserve_new k s ≡ (thrown, frmwk_ex k (record s { device = allocation.1 }))
    unfolding reserve_new
    reserve_denied f g = rw (f, g) refl

    reserve_full : ltb new_id id_limit ≡ false → reserve_new k s ≡ (ok none, s)
    unfolding reserve_new
    reserve_full f = rw f refl

  pub alloc_new-cases :
      (p : Payload) (s : MetaRsrc D)
      → no_direction p.data_dir ≡ false
      → ((b : MetaDataBuf) × (d : D) × (b.buf ≢ 0)
          × (b.id ≡ (unique_id 0 s.reserved).0)
          × (alloc_meta_buffer k p (none_released s) ≡ (
            ok tt,
            record p { meta_data = b },
            record (none_released s) { device = d; reserved = inserted 0 s.reserved b },
          )))
        ⊎ ((m : MetaDataBuf) × (d : D) × (m.id ≡ (unique_id 0 s.reserved).0)
            × (m.size ≡ s.meta_alloc_size)
            × (alloc_meta_buffer k p (none_released s) ≡ (
              thrown,
              record p { meta_data = m },
              frmwk_ex k (record (none_released s) { device = d }),
            )))
  unfolding reserve_meta_buf reserve_from
  alloc_new-cases p s d =
      let t = none_released s in
      let m = p.meta_data in
      elim (Bool-cases (ltb (new_id t) id_limit)) [
        | inl f ↦ elim (Bool-cases (allocation t).0) [
          | inl g ↦ elim (zero_cases (mapping t).0) [
            | inl (z, h) ↦ inr (
              _,
              _,
              refl,
              refl,
              alloc_by p t _ _ _ d (reserve_unmapped t f g h) (into_mapped t m f g),
            )
            | inr (z, h) ↦
                inl (
                  _,
                  _,
                  z,
                  refl,
                  alloc_by p t _ _ _ d (reserve_mapped t f g h) (into_mapped t m f g),
                )
          ]
          | inr g ↦ inr (
            _,
            _,
            refl,
            refl,
            alloc_by p t _ _ _ d (reserve_denied t f g) (into_denied t m (rw (f, g) refl)),
          )
        ]
        | inr f ↦ inr (
          _,
          _,
          refl,
          refl,
          alloc_by p t _ _ _ d (reserve_full t f) (into_denied t m (rw f refl)),
        )
      ]

  pub alloc_released :
      (p : Payload) (s : MetaRsrc D) (b : MetaDataBuf) (rest : List MetaDataBuf)
      → no_direction p.data_dir ≡ false
      → alloc_meta_buffer k p (record s { released = b ∷ rest }) ≡ (
        ok tt,
        record p { meta_data = b },
        record s { reserved = insert_released b s.reserved; released = rest },
      )
  unfolding alloc_meta_buffer reserve_meta_buf reserve_from reserved_into
  alloc_released p s b rest d = rw d refl
