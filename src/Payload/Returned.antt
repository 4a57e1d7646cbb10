-- ===== src/Payload/Returned.antt =====
-- The release of a metadata buffer that `MetaRsrc::ReserveMetaBuf` has handed out.
use tnvme.Base.{
  ℕ, ◌+◌, ◌≡◌, ◌≢◌, inl, inr, refl, sym, subst, Bool-cases, true, false, some, List, [], ◌∷◌, ◌++◌,
  ltb, ◌==◌, arith,
}
use tnvme.Meta.{
  MetaDataBuf, Kernel, MetaRsrc, is_default, insert_released, unique_id, take_out, release_meta_buf,
}
use tnvme.Meta.Invariant.{Absent, inserted}

-- A buffer that was inserted is found again, and taking it out leaves what there was.
take_out-first : (b : MetaDataBuf) (l : List MetaDataBuf) → take_out b.id (b ∷ l) ≡ some (b, l)
unfolding take_out
take_out-first b l = let e : (b.id == b.id) ≡ true = ground arith in rw e refl

take_out-later :
    (b x : MetaDataBuf) (l m : List MetaDataBuf)
    → x.id ≢ b.id
    → take_out b.id l ≡ some (b, m)
    → take_out b.id (x ∷ l) ≡ some (b, x ∷ m)
unfolding take_out
take_out-later b x l m n h = let e : (x.id == b.id) ≡ false = ground arith in rw (e, h) refl

pub take_out-insert_released :
    (b : MetaDataBuf) (l : List MetaDataBuf)
    → Absent b.id l
    → take_out b.id (insert_released b l) ≡ some (b, l)
unfolding insert_released
take_out-insert_released b [] a = take_out-first b []
take_out-insert_released b (x ∷ r) a = elim (Bool-cases (ltb b.id x.id)) [
  | inl e ↦ rw e (take_out-first b (x ∷ r))
  | inr e ↦ rw e (take_out-later b x _ r a.0 (take_out-insert_released b r a.1))
]

pub take_out-inserted :
    (id : ℕ) (b : MetaDataBuf) (l : List MetaDataBuf)
    → Absent b.id l
    → take_out b.id (inserted id l b) ≡ some (b, l)
unfolding inserted unique_id
take_out-inserted id b [] a = take_out-first b []
take_out-inserted id b (x ∷ r) a = elim (Bool-cases (x.id == id)) [
  | inl p ↦ rw p (take_out-later b x _ r a.0 (take_out-inserted (id + 1) b r a.1))
  | inr p ↦ elim (Bool-cases (ltb id x.id)) [
    | inl q ↦ rw (p, q) (take_out-first b (x ∷ r))
    | inr q ↦ rw (p, q) (take_out-later b x _ r a.0 (take_out-inserted id b r a.1))
  ]
]

pub mapped-is_default : (b : MetaDataBuf) → b.buf ≢ 0 → is_default b ≡ false
unfolding is_default
mapped-is_default b n = let e : (b.buf == 0) ≡ false = ground arith in rw e refl

pub sized-is_default : (b : MetaDataBuf) → b.size ≢ 0 → is_default b ≡ false
unfolding is_default
sized-is_default b n = ground arith

module _ {ℓ} {D : Type ℓ} (k : Kernel D) where
  -- Releasing a buffer whose identifier is that of a reserved one.
  pub release_meta_buf_lem :
      (m b : MetaDataBuf) (l : List MetaDataBuf) (s : MetaRsrc D)
      → is_default m ≡ false
      → m.id ≡ b.id
      → take_out b.id s.reserved ≡ some (b, l)
      → release_meta_buf k m s ≡ record s { reserved = l; released = s.released ++ (b ∷ []) }
  unfolding release_meta_buf
  release_meta_buf_lem m b l s n same e =
      let f : take_out m.id s.reserved ≡ some (b, l) =
        subst (λ i. take_out i s.reserved ≡ some (b, l)) (sym same) e in
      rw (n, f) refl
