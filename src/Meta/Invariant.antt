-- ===== src/Meta/Invariant.antt =====
-- The identifiers that `Singletons/metaRsrc.cpp` hands out.
use tnvme.Base.{
  ℕ, ◌+◌, ◌≡◌, ◌≢◌, ◌<◌, ◌≤◌, inl, inr, refl, sym, subst, Bool-cases, List, [], ◌∷◌, ◌++◌, arith,
  ltb, ◌==◌,
}
use tnvme.Meta.{MetaDataBuf, MetaRsrc, id_limit, insert_released, unique_id}

abbrev pub AtLeast : ℕ → List MetaDataBuf → Type 0
AtLeast n [] = Unit {0}
AtLeast n (b ∷ r) = (n ≤ b.id) × AtLeast n r

-- In ascending order of distinct identifiers.
abbrev pub Sorted : List MetaDataBuf → Type 0
Sorted [] = Unit {0}
Sorted (b ∷ r) = AtLeast (b.id + 1) r × Sorted r

abbrev pub Absent : ℕ → List MetaDataBuf → Type 0
Absent n [] = Unit {0}
Absent n (b ∷ r) = (b.id ≢ n) × Absent n r

abbrev pub Unique : List MetaDataBuf → Type 0
Unique [] = Unit {0}
Unique (b ∷ r) = Absent b.id r × Unique r

abbrev pub Disjoint : List MetaDataBuf → List MetaDataBuf → Type 0
Disjoint [] l = Unit {0}
Disjoint (b ∷ r) l = Absent b.id l × Disjoint r l

abbrev pub Within : List MetaDataBuf → Type 0
Within [] = Unit {0}
Within (b ∷ r) = (b.id < id_limit) × Within r

-- The reserved buffers are in ascending order, no identifier belongs to two buffers, and all are in
-- the range of the driver.
pub record IsValid {ℓ} {D : Type ℓ} (s : MetaRsrc D) : Type 0 where
  pub sorted : Sorted s.reserved
  pub unique : Unique s.released
  pub disjoint : Disjoint s.released s.reserved
  pub reserved_within : Within s.reserved
  pub released_within : Within s.released

AtLeast-mono : (m n : ℕ) (l : List MetaDataBuf) → m ≤ n → AtLeast n l → AtLeast m l
AtLeast-mono m n [] h a = tt
AtLeast-mono m n (b ∷ r) h (p, a) = (omega arith, AtLeast-mono m n r h a)

pub AtLeast-Absent : (n : ℕ) (l : List MetaDataBuf) → AtLeast (n + 1) l → Absent n l
AtLeast-Absent n [] a = tt
AtLeast-Absent n (b ∷ r) (p, a) = ((λ e. omega arith), AtLeast-Absent n r a)

-- Inserting a buffer that is absent.
insert_released-AtLeast :
    (n : ℕ) (b : MetaDataBuf) (l : List MetaDataBuf)
    → n ≤ b.id
    → AtLeast n l
    → AtLeast n (insert_released b l)
unfolding insert_released
insert_released-AtLeast n b [] h a = (h, tt)
insert_released-AtLeast n b (x ∷ r) h a = elim (Bool-cases (ltb b.id x.id)) [
  | inl e ↦ rw e (h, a)
  | inr e ↦ rw e (a.0, insert_released-AtLeast n b r h a.1)
]

pub insert_released-Sorted :
    (b : MetaDataBuf) (l : List MetaDataBuf)
    → Absent b.id l
    → Sorted l
    → Sorted (insert_released b l)
unfolding insert_released
insert_released-Sorted b [] p h = (tt, tt)
insert_released-Sorted b (x ∷ r) p h = elim (Bool-cases (ltb b.id x.id)) [
  | inl e ↦ rw e ((ground arith, AtLeast-mono (b.id + 1) (x.id + 1) r (ground arith) h.0), h)
  | inr e ↦
      let ne : x.id ≢ b.id = p.0 in
      rw e (
        insert_released-AtLeast (x.id + 1) b r (ground arith) h.0,
        insert_released-Sorted b r p.1 h.1,
      )
]

insert_released-Absent :
    (n : ℕ) (b : MetaDataBuf) (l : List MetaDataBuf)
    → b.id ≢ n
    → Absent n l
    → Absent n (insert_released b l)
unfolding insert_released
insert_released-Absent n b [] h a = (h, tt)
insert_released-Absent n b (x ∷ r) h a = elim (Bool-cases (ltb b.id x.id)) [
  | inl e ↦ rw e (h, a)
  | inr e ↦ rw e (a.0, insert_released-Absent n b r h a.1)
]

pub insert_released-Within :
    (b : MetaDataBuf) (l : List MetaDataBuf)
    → b.id < id_limit
    → Within l
    → Within (insert_released b l)
unfolding insert_released
insert_released-Within b [] h a = (h, tt)
insert_released-Within b (x ∷ r) h a = elim (Bool-cases (ltb b.id x.id)) [
  | inl e ↦ rw e (h, a)
  | inr e ↦ rw e (a.0, insert_released-Within b r h a.1)
]

pub insert_released-Disjoint :
    (b : MetaDataBuf) (rest l : List MetaDataBuf)
    → Absent b.id rest
    → Disjoint rest l
    → Disjoint rest (insert_released b l)
insert_released-Disjoint b [] l h d = tt
insert_released-Disjoint b (x ∷ r) l h d =
    (insert_released-Absent x.id b l (λ e. h.0 (sym e)) d.0, insert_released-Disjoint b r l h.1 d.1)

-- The search for a unique identifier.
unique_id-le : (id : ℕ) (l : List MetaDataBuf) → id ≤ (unique_id id l).0
unfolding unique_id
unique_id-le id [] = omega arith
unique_id-le id (x ∷ r) = ground (arith, unique_id-le (id + 1) r, unique_id-le id r)

unfoldable pub inserted : ℕ → List MetaDataBuf → MetaDataBuf → List MetaDataBuf
inserted id l b = let (i, before, after) = unique_id id l in before ++ (b ∷ after)

pub unique_id-Sorted :
    (id : ℕ) (l : List MetaDataBuf) (b : MetaDataBuf)
    → b.id ≡ (unique_id id l).0
    → AtLeast id l
    → Sorted l
    → AtLeast id (inserted id l b) × Sorted (inserted id l b)
unfolding unique_id inserted
unique_id-Sorted id [] b e a h = ((omega arith, tt), (tt, tt))
unique_id-Sorted id (x ∷ r) b e a h = elim (Bool-cases (x.id == id)) [
  | inl p ↦
      let same : x.id ≡ id = ground arith in
      let ahead : AtLeast (id + 1) r = AtLeast-mono (id + 1) (x.id + 1) r (omega arith) h.0 in
      let (u, v) = unique_id-Sorted (id + 1) r b (rw p at e) ahead h.1 in
      rw p (
        (a.0, AtLeast-mono id (id + 1) _ (omega arith) u),
        (AtLeast-mono (x.id + 1) (id + 1) _ (omega arith) u, v),
      )
  | inr p ↦ elim (Bool-cases (ltb id x.id)) [
    | inl q ↦
        let here : b.id ≡ id = rw (p, q) at e in
        rw (p, q)
          (
            (omega arith, a),
            ((ground arith, AtLeast-mono (b.id + 1) (x.id + 1) r (ground arith) h.0), h),
          )
    | inr q ↦ absurd (ground (arith, a.0))
  ]
]

pub unique_id-Absent :
    (id : ℕ) (l : List MetaDataBuf) → AtLeast id l → Sorted l → Absent (unique_id id l).0 l
unfolding unique_id
unique_id-Absent id [] a h = tt
unique_id-Absent id (x ∷ r) a h = elim (Bool-cases (x.id == id)) [
  | inl p ↦
      let same : x.id ≡ id = ground arith in
      let ahead : AtLeast (id + 1) r = AtLeast-mono (id + 1) (x.id + 1) r (omega arith) h.0 in
      let value : (unique_id id (x ∷ r)).0 ≡ (unique_id (id + 1) r).0 = rw p refl in
      subst (λ n. Absent n (x ∷ r)) (sym value)
        ((λ e. omega (arith, unique_id-le (id + 1) r)), unique_id-Absent (id + 1) r ahead h.1)
  | inr p ↦ elim (Bool-cases (ltb id x.id)) [
    | inl q ↦
        let value : (unique_id id (x ∷ r)).0 ≡ id = rw (p, q) refl in
        subst (λ n. Absent n (x ∷ r)) (sym value)
          (
            (λ e. ground arith),
            AtLeast-Absent id r (AtLeast-mono (id + 1) (x.id + 1) r (ground arith) h.0),
          )
    | inr q ↦ absurd (ground (arith, a.0))
  ]
]

pub unique_id-Within :
    (id : ℕ) (l : List MetaDataBuf) (b : MetaDataBuf)
    → b.id < id_limit
    → Within l
    → Within (inserted id l b)
unfolding unique_id inserted
unique_id-Within id [] b e h = (e, tt)
unique_id-Within id (x ∷ r) b e h = elim (Bool-cases (x.id == id)) [
  | inl p ↦ rw p (h.0, unique_id-Within (id + 1) r b e h.1)
  | inr p ↦ elim (Bool-cases (ltb id x.id)) [
    | inl q ↦ rw (p, q) (e, h)
    | inr q ↦ rw (p, q) (h.0, unique_id-Within id r b e h.1)
  ]
]

pub AtLeast-zero : (l : List MetaDataBuf) → AtLeast 0 l
AtLeast-zero [] = tt
AtLeast-zero (b ∷ r) = (omega arith, AtLeast-zero r)
