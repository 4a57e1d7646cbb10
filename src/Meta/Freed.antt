-- ===== src/Meta/Freed.antt =====
-- Freeing all metadata buffers, and what the constructor of an exception does, keep the state valid.
use tnvme.Base.{
  ◌⊎◌, inl, inr, ℕ, zero, suc, ◌≡◌, refl, List, [], ◌∷◌, length, Bool-cases, true, false,
}
use tnvme.Meta.{Kernel, MetaRsrc, release_meta_buf, release_all, free_all_meta_buf, frmwk_ex}
use tnvme.Meta.Invariant.{IsValid}
use tnvme.Meta.Free.{Mapped, free_all_meta_buf_lem}
use tnvme.Meta.Release.{release_meta_buf-IsValid}

pub same_lists {ℓ} :
    {D : Type ℓ} (s t : MetaRsrc D)
    → t.reserved ≡ s.reserved
    → t.released ≡ s.released
    → IsValid s
    → IsValid t
same_lists s t e f V = record {
  sorted = rw e V.sorted;
  unique = rw f V.unique;
  disjoint = rw (e, f) V.disjoint;
  reserved_within = rw e V.reserved_within;
  released_within = rw f V.released_within;
}

List-cases {ℓ} : {A : Type ℓ} (l : List A) → (l ≡ []) ⊎ ((a : A) × (r : List A) × (l ≡ a ∷ r))
List-cases [] = inl refl
List-cases (a ∷ r) = inr (a, r, refl)

module _ {ℓ} {D : Type ℓ} (k : Kernel D) where
  release_all-IsValid : (n : ℕ) (s : MetaRsrc D) → IsValid s → IsValid (release_all k n s)
  unfolding release_all
  release_all-IsValid zero s V = V
  release_all-IsValid (suc n) s V = elim (List-cases s.reserved) [
    | inl e ↦ rw (e, release_all) V
    | inr (b, r, e) ↦
        rw (e, release_all)
          (release_all-IsValid n (release_meta_buf k b s) (release_meta_buf-IsValid k b s V))
  ]

  pub free_all-IsValid : (s : MetaRsrc D) → IsValid s → IsValid (free_all_meta_buf k s).1
  unfolding free_all_meta_buf
  free_all-IsValid s V =
      let W = release_all-IsValid (length s.reserved) s V in
      record {
        sorted = W.sorted;
        unique = tt;
        disjoint = tt;
        reserved_within = W.reserved_within;
        released_within = tt;
      }

  pub frmwk_ex-IsValid : (s : MetaRsrc D) → IsValid s → IsValid (frmwk_ex k s)
  unfolding frmwk_ex
  frmwk_ex-IsValid s V =
      let (done, d) = k.disable_completely s.device in
      let s1 : MetaRsrc D = record s { device = d } in
      let W = same_lists s s1 refl refl V in
      elim (Bool-cases done) [ inl e ↦ rw e (free_all-IsValid s1 W) | inr e ↦ rw e W ]

  -- After the exception: all buffers are freed and the size is forgotten if the controller could be
  -- disabled, and the members are as they were if not.
  abbrev pub AfterEx : D → MetaRsrc D → MetaRsrc D → Type 0
  AfterEx d s t =
      (((k.disable_completely d).0 ≡ true)
        × (t.reserved ≡ [])
        × (t.released ≡ [])
        × (t.meta_alloc_size ≡ 0))
      ⊎ (((k.disable_completely d).0 ≡ false)
          × (t.reserved ≡ s.reserved)
          × (t.released ≡ s.released)
          × (t.meta_alloc_size ≡ s.meta_alloc_size))

  pub frmwk_ex-AfterEx : (s : MetaRsrc D) → Mapped s.reserved → AfterEx s.device s (frmwk_ex k s)
  unfolding frmwk_ex
  frmwk_ex-AfterEx s M =
      let (done, d) = k.disable_completely s.device in
      let s1 : MetaRsrc D = record s { device = d } in
      elim (Bool-cases done) [
        | inl e ↦
            let at_once = free_all_meta_buf_lem k s1 M in
            inl (e, rw (e, at_once) refl, rw (e, at_once) refl, rw (e, at_once) refl)
        | inr e ↦ inr (e, rw e refl, rw e refl, rw e refl)
      ]
