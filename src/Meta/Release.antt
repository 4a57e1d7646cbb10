-- ===== src/Meta/Release.antt =====
-- `MetaRsrc::ReleaseMetaBuf`: a buffer moves from the reserved to the released ones.
use tnvme.Base.{
  ℕ, ◌+◌, ◌≢◌, ◌<◌, inl, inr, sym, Bool-cases, Option, none, some, Option-cases, List, [], ◌∷◌,
  ◌++◌, ◌==◌,
}
use tnvme.Meta.{MetaDataBuf, Kernel, MetaRsrc, id_limit, take_out, release_meta_buf, is_default}
use tnvme.Meta.Invariant.{
  AtLeast, Sorted, Absent, Unique, Disjoint, Within, IsValid, AtLeast-Absent,
}

-- Taking a buffer out.
record TakenOut (l : List MetaDataBuf) (x : MetaDataBuf) (r : List MetaDataBuf) : Type 0 where
  at_least : (n : ℕ) → AtLeast n l → AtLeast n r
  absent : (n : ℕ) → Absent n l → Absent n r × (x.id ≢ n)
  stays_sorted : Sorted l → Sorted r × Absent x.id r
  within : Within l → Within r × (x.id < id_limit)

Taken : List MetaDataBuf → Option (MetaDataBuf × List MetaDataBuf) → Type 0
Taken l none = Unit {0}
Taken l (some p) = TakenOut l p.0 p.1

head-TakenOut : (x : MetaDataBuf) (r : List MetaDataBuf) → TakenOut (x ∷ r) x r
head-TakenOut x r = record {
  at_least = λ n a. a.1;
  absent = λ n a. (a.1, a.0);
  stays_sorted = λ h. (h.1, AtLeast-Absent x.id r h.0);
  within = λ h. (h.1, h.0);
}

tail-TakenOut :
    (y : MetaDataBuf) (l : List MetaDataBuf) (x : MetaDataBuf) (r : List MetaDataBuf)
    → TakenOut l x r
    → TakenOut (y ∷ l) x (y ∷ r)
tail-TakenOut y l x r t = record {
  at_least = λ n a. (a.0, t.at_least n a.1);
  absent = λ n a. ((a.0, (t.absent n a.1).0), (t.absent n a.1).1);
  stays_sorted = λ h.
      let apart = (t.absent y.id (AtLeast-Absent y.id l h.0)).1 in
      (
        (t.at_least (y.id + 1) h.0, (t.stays_sorted h.1).0),
        ((λ e. apart (sym e)), (t.stays_sorted h.1).1),
      );
  within = λ h. ((h.0, (t.within h.1).0), (t.within h.1).1);
}

take_out-Taken : (id : ℕ) (l : List MetaDataBuf) → Taken l (take_out id l)
unfolding take_out Taken
take_out-Taken id [] = tt
take_out-Taken id (y ∷ l) = elim (Bool-cases (y.id == id)) [
  | inl p ↦ rw p (head-TakenOut y l)
  | inr p ↦ elim (Option-cases (take_out id l)) [
    | inl e ↦ rw (p, e) tt
    | inr (q, e) ↦ rw (p, e) (tail-TakenOut y l q.0 q.1 (rw e at (take_out-Taken id l)))
  ]
]

-- The released buffers with one more that was reserved.
Disjoint-taken :
    (released l : List MetaDataBuf) (x : MetaDataBuf) (r : List MetaDataBuf)
    → TakenOut l x r
    → Disjoint released l
    → Absent x.id released × Disjoint released r
Disjoint-taken [] l x r t d = (tt, tt)
Disjoint-taken (b ∷ rest) l x r t d =
    let (a, ne) = t.absent b.id d.0 in
    let (u, v) = Disjoint-taken rest l x r t d.1 in (((λ e. ne (sym e)), u), (a, v))

Absent-snoc :
    (n : ℕ) (l : List MetaDataBuf) (x : MetaDataBuf)
    → Absent n l
    → x.id ≢ n
    → Absent n (l ++ (x ∷ []))
Absent-snoc n [] x a h = (h, tt)
Absent-snoc n (b ∷ r) x a h = (a.0, Absent-snoc n r x a.1 h)

Unique-snoc :
    (l : List MetaDataBuf) (x : MetaDataBuf) → Unique l → Absent x.id l → Unique (l ++ (x ∷ []))
Unique-snoc [] x u a = (tt, tt)
Unique-snoc (b ∷ r) x u a = (Absent-snoc b.id r x u.0 (λ e. a.0 (sym e)), Unique-snoc r x u.1 a.1)

Disjoint-snoc :
    (m l : List MetaDataBuf) (x : MetaDataBuf)
    → Disjoint m l
    → Absent x.id l
    → Disjoint (m ++ (x ∷ [])) l
Disjoint-snoc [] l x d a = (a, tt)
Disjoint-snoc (b ∷ r) l x d a = (d.0, Disjoint-snoc r l x d.1 a)

Within-snoc :
    (l : List MetaDataBuf) (x : MetaDataBuf) → Within l → x.id < id_limit → Within (l ++ (x ∷ []))
Within-snoc [] x h p = (p, tt)
Within-snoc (b ∷ r) x h p = (h.0, Within-snoc r x h.1 p)

module _ {ℓ} {D : Type ℓ} (k : Kernel D) where
  pub release_meta_buf-IsValid :
      (b : MetaDataBuf) (s : MetaRsrc D) → IsValid s → IsValid (release_meta_buf k b s)
  unfolding release_meta_buf Taken
  release_meta_buf-IsValid b s V = elim (Bool-cases (is_default b)) [
    | inl e ↦ rw e V
    | inr e ↦ elim (Option-cases (take_out b.id s.reserved)) [
      | inl f ↦ rw (e, f) V
      | inr (p, f) ↦
          let t : TakenOut s.reserved p.0 p.1 = rw f at (take_out-Taken b.id s.reserved) in
          let (absent, disjoint) = Disjoint-taken s.released s.reserved p.0 p.1 t V.disjoint in
          rw (e, f)
            (record {
              sorted = (t.stays_sorted V.sorted).0;
              unique = Unique-snoc s.released p.0 V.unique absent;
              disjoint = Disjoint-snoc s.released p.1 p.0 disjoint (t.stays_sorted V.sorted).1;
              reserved_within = (t.within V.reserved_within).0;
              released_within =
                  Within-snoc s.released p.0 V.released_within (t.within V.reserved_within).1;
            })
    ]
  ]
