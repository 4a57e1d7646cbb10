-- ===== src/Meta/Reserve.antt =====
-- `MetaRsrc::ReserveMetaBuf`: the identifier of a reserved buffer is in use nowhere else.
use tnvme.Base.{
  ◌≡◌, ◌≢◌, ◌<◌, inl, inr, refl, sym, ◌∙◌, subst, Bool-cases, none, some, List, [], ◌∷◌, arith, ltb,
  ltb→lt, ◌==◌, ok, thrown,
}
use tnvme.Meta.{
  MetaDataBuf, Kernel, MetaRsrc, id_limit, unique_id, frmwk_ex, reserve_new, reserve_from,
  reserve_meta_buf,
}
use tnvme.Meta.Freed.{same_lists, frmwk_ex-IsValid}
use tnvme.Meta.Invariant.{
  Absent, Unique, Disjoint, Within, IsValid, insert_released-Sorted, insert_released-Within,
  insert_released-Disjoint, unique_id-Sorted, unique_id-Absent, unique_id-Within, inserted,
  AtLeast-zero,
}

not_some : (b : MetaDataBuf) → thrown ≢ ok (some b)
not_some b e = cc

none_some : (b : MetaDataBuf) → ok none ≢ ok (some b)
none_some b e = cc

module _ {ℓ} {D : Type ℓ} (k : Kernel D) where
  reserve_new-IsValid : (s : MetaRsrc D) → s.released ≡ [] → IsValid s → IsValid (reserve_new k s).1
  unfolding reserve_new inserted
  reserve_new-IsValid s none_released V =
      let i = (unique_id 0 s.reserved).0 in
      let (allocated, d1) = k.metabuf_alloc i s.device in
      let (address, d2) = k.mmap s.meta_alloc_size i d1 in
      let b : MetaDataBuf = record { buf = address; size = s.meta_alloc_size; id = i } in
      elim (Bool-cases (ltb i id_limit)) [
        | inl e ↦ elim (Bool-cases allocated) [
          | inl f ↦ elim (Bool-cases (address == 0)) [
            | inl g ↦ rw (e, f, g) (after _ V)
            | inr g ↦
                rw (e, f, g)
                  (record {
                    sorted =
                        (unique_id-Sorted 0 s.reserved b refl (AtLeast-zero s.reserved) V.sorted).1;
                    unique = V.unique;
                    disjoint =
                        subst (λ l. Disjoint l (inserted 0 s.reserved b)) (sym none_released) tt;
                    reserved_within =
                        unique_id-Within 0 s.reserved b (ltb→lt i id_limit e) V.reserved_within;
                    released_within = V.released_within;
                  })
          ]
          | inr f ↦ rw (e, f) (after _ V)
        ]
        | inr e ↦ rw e V
      ]
    where
      after : (d : D) → IsValid s → IsValid (frmwk_ex k (record s { device = d }))
      after d V = frmwk_ex-IsValid k (record s { device = d }) (same_lists s _ refl refl V)

  reserve_from-IsValid :
      (l : List MetaDataBuf) (s : MetaRsrc D)
      → s.released ≡ l
      → IsValid s
      → IsValid (reserve_from k l s).1
  unfolding reserve_from
  reserve_from-IsValid [] s e V = reserve_new-IsValid s e V
  reserve_from-IsValid (b ∷ rest) s e V =
      let u : Unique (b ∷ rest) = subst Unique e V.unique in
      let d : Disjoint (b ∷ rest) s.reserved = subst (λ l. Disjoint l s.reserved) e V.disjoint in
      let w : Within (b ∷ rest) = subst Within e V.released_within in
      record {
        sorted = insert_released-Sorted b s.reserved d.0 V.sorted;
        unique = u.1;
        disjoint = insert_released-Disjoint b rest s.reserved u.0 d.1;
        reserved_within = insert_released-Within b s.reserved w.0 V.reserved_within;
        released_within = w.1;
      }

  pub reserve_meta_buf-IsValid : (s : MetaRsrc D) → IsValid s → IsValid (reserve_meta_buf k s).1
  unfolding reserve_meta_buf
  reserve_meta_buf-IsValid s V = reserve_from-IsValid s.released s refl V

  reserve_new-Absent :
      (s : MetaRsrc D) (b : MetaDataBuf)
      → IsValid s
      → (reserve_new k s).0 ≡ ok (some b)
      → (b.id < id_limit) × Absent b.id s.reserved × ((reserve_new k s).1.released ≡ s.released)
  unfolding reserve_new
  reserve_new-Absent s b V h =
      let i = (unique_id 0 s.reserved).0 in
      let fresh = unique_id-Absent 0 s.reserved (AtLeast-zero s.reserved) V.sorted in
      let (allocated, d1) = k.metabuf_alloc i s.device in
      let (address, d2) = k.mmap s.meta_alloc_size i d1 in
      elim (Bool-cases (ltb i id_limit)) [
        | inl e ↦ elim (Bool-cases allocated) [
          | inl f ↦ elim (Bool-cases (address == 0)) [
            | inl g ↦ absurd (not_some b (rw (e, f, g) at h))
            | inr g ↦
                let same : i ≡ b.id = ground (arith, rw (e, f, g) at h) in
                rw (e, f, g)
                  (
                    ground (arith, ltb→lt i id_limit e),
                    subst (λ n. Absent n s.reserved) same fresh,
                    refl,
                  )
          ]
          | inr f ↦ absurd (not_some b (rw (e, f) at h))
        ]
        | inr e ↦ absurd (none_some b (rw e at h))
      ]

  reserve_from-Absent :
      (l : List MetaDataBuf) (s : MetaRsrc D) (b : MetaDataBuf)
      → s.released ≡ l
      → IsValid s
      → (reserve_from k l s).0 ≡ ok (some b)
      → (b.id < id_limit) × Absent b.id s.reserved × Absent b.id (reserve_from k l s).1.released
  unfolding reserve_from
  reserve_from-Absent [] s b e V h =
      let (p, q, r) = reserve_new-Absent s b V h in (p, q, subst (Absent b.id) (sym (r ∙ e)) tt)
  reserve_from-Absent (x ∷ rest) s b e V h =
      let u : Unique (x ∷ rest) = subst Unique e V.unique in
      let d : Disjoint (x ∷ rest) s.reserved = subst (λ l. Disjoint l s.reserved) e V.disjoint in
      let w : Within (x ∷ rest) = subst Within e V.released_within in
      let same : x.id ≡ b.id = ground (arith, h) in
      (
        ground (arith, w.0),
        subst (λ n. Absent n s.reserved) same d.0,
        subst (λ n. Absent n rest) same u.0,
      )

  -- In a valid state, the identifier of a buffer that ReserveMetaBuf returns is in the range of
  -- the driver, was that of no reserved buffer, and is that of no buffer that is still released,
  -- whatever the driver answers.
  reserve_meta_buf-Absent :
      (s : MetaRsrc D) (b : MetaDataBuf)
      → IsValid s
      → (reserve_meta_buf k s).0 ≡ ok (some b)
      → (b.id < id_limit) × Absent b.id s.reserved × Absent b.id (reserve_meta_buf k s).1.released
  unfolding reserve_meta_buf
  reserve_meta_buf-Absent s b V h = reserve_from-Absent s.released s b refl V h
