-- ===== src/Suite/Group/Enumerate.antt =====
-- The walk of `IteraterToTestRef` visits the tests of a group row by row, in the order in which
-- the matrix holds them.
use tnvme.Base.{
  ℕ, zero, suc, ◌-◌, ◌≤◌, ◌<◌, ◌≡◌, ap, ◌∙◌, ◌⊎◌, inl, inr, true, none, some, List, [], ◌∷◌, ◌++◌,
  length, get_elem?, drop, drop_of_lt, drop_of_ge, arith, append_assoc, dec_lt,
}
use tnvme.Suite.Ref.{TestRef, ref}
use tnvme.Suite.Group.{Group, row, cell, test_exists, next_test, walk, iterator_to_test_ref}
use tnvme.Suite.Group.Refs.{
  z_refs, y_refs, x_refs, FullRow-get, FullMatrix-get, y_refs_head, x_refs_head, tests_of, IsFull,
  InGroup,
}

module _ {ℓ} {T : Type ℓ} (g : Group T) where
  -- The refs from one that is there to the end of the matrix.
  abbrev pub refs_from : ℕ → ℕ → ℕ → List TestRef
  refs_from x y z =
      z_refs g.grp_num x y z (length (cell g.tests x y) - z)
      ++ (y_refs g.grp_num x (suc y) (drop (suc y) (row g.tests x))
          ++ x_refs g.grp_num (suc x) (drop (suc x) g.tests))

  pub InGroup-exists : (x y z : ℕ) → InGroup g x y z → test_exists g (ref g.grp_num x y z) ≡ true
  unfolding test_exists
  InGroup-exists x y z h = ground arith

  exists-InGroup : (x y z : ℕ) → test_exists g (ref g.grp_num x y z) ≡ true → InGroup g x y z
  unfolding test_exists
  exists-InGroup x y z h = ground arith

  sub_zero : (n : ℕ) → n - 0 ≡ n
  sub_zero n = omega arith

  z_refs_step :
      (x y z n : ℕ)
      → z < n
      → z_refs g.grp_num x y z (n - z)
        ≡ ref g.grp_num x y z ∷ z_refs g.grp_num x y (suc z) (n - suc z)
  z_refs_step x y z n h =
      let e : n - z ≡ suc (n - suc z) = omega arith in ap (z_refs g.grp_num x y z) e

  module _ (x y z : ℕ) (h : InGroup g x y z) where
    next_in_cell :
        suc z < length (cell g.tests x y)
        → next_test g (ref g.grp_num x y z) ≡ some (ref g.grp_num x y (suc z))
    unfolding next_test
    next_in_cell p = ground arith

    next_in_row :
        length (cell g.tests x y) ≤ suc z
        → suc y < length (row g.tests x)
        → 0 < length (cell g.tests x (suc y))
        → next_test g (ref g.grp_num x y z) ≡ some (ref g.grp_num x (suc y) 0)
    unfolding next_test
    next_in_row p q r = ground arith

    next_row :
        length (cell g.tests x y) ≤ suc z
        → length (row g.tests x) ≤ suc y
        → suc x < length g.tests
        → 0 < length (row g.tests (suc x))
        → 0 < length (cell g.tests (suc x) 0)
        → next_test g (ref g.grp_num x y z) ≡ some (ref g.grp_num (suc x) 0 0)
    unfolding next_test
    next_row p q r s t = ground arith

    next_none :
        length (cell g.tests x y) ≤ suc z
        → length (row g.tests x) ≤ suc y
        → length g.tests ≤ suc x
        → next_test g (ref g.grp_num x y z) ≡ none
    unfolding next_test
    next_none p q r = ground arith

    refs_in_cell : refs_from x y z ≡ ref g.grp_num x y z ∷ refs_from x y (suc z)
    refs_in_cell = rw (z_refs_step x y z (length (cell g.tests x y)) h.z_in)

    last_of_cell :
        length (cell g.tests x y) ≤ suc z
        → z_refs g.grp_num x y (suc z) (length (cell g.tests x y) - suc z) ≡ []
    last_of_cell p =
        let e : length (cell g.tests x y) - suc z ≡ 0 = omega arith in
        ap (z_refs g.grp_num x y (suc z)) e

    refs_in_row :
        length (cell g.tests x y) ≤ suc z
        → suc y < length (row g.tests x)
        → refs_from x y z ≡ ref g.grp_num x y z ∷ refs_from x (suc y) 0
    refs_in_row p q = rw (
      refs_in_cell,
      last_of_cell p,
      drop_of_lt (suc y) (row g.tests x) [] q,
      sub_zero,
      append_assoc,
    )

    refs_next_row :
        length (cell g.tests x y) ≤ suc z
        → length (row g.tests x) ≤ suc y
        → suc x < length g.tests
        → 0 < length (row g.tests (suc x))
        → refs_from x y z ≡ ref g.grp_num x y z ∷ refs_from (suc x) 0 0
    refs_next_row p q r s = rw (
      refs_in_cell,
      last_of_cell p,
      drop_of_ge (suc y) (row g.tests x) q,
      drop_of_lt (suc x) g.tests [] r,
      y_refs_head g.grp_num (suc x) (row g.tests (suc x)) s,
      sub_zero,
      append_assoc,
    )

    refs_last :
        length (cell g.tests x y) ≤ suc z
        → length (row g.tests x) ≤ suc y
        → length g.tests ≤ suc x
        → refs_from x y z ≡ ref g.grp_num x y z ∷ []
    refs_last p q r = rw (
      refs_in_cell,
      last_of_cell p,
      drop_of_ge (suc y) (row g.tests x) q,
      drop_of_ge (suc x) g.tests r,
    )

  -- What the walk does from a test that is there: it goes on in the cell, in the row, to the next
  -- row, or stops.
  pub refs_from_step :
      IsFull g
      → (x y z : ℕ) → InGroup g x y z
      → ((next_test g (ref g.grp_num x y z) ≡ none) × (refs_from x y z ≡ ref g.grp_num x y z ∷ []))
        ⊎ ((x' : ℕ) × (y' : ℕ) × (z' : ℕ) × InGroup g x' y' z'
            × (next_test g (ref g.grp_num x y z) ≡ some (ref g.grp_num x' y' z'))
            × (refs_from x y z ≡ ref g.grp_num x y z ∷ refs_from x' y' z'))
  refs_from_step f x y z h = elim (dec_lt (suc z) (length (cell g.tests x y))) [
    | yes p ↦ inr (
      x,
      y,
      suc z,
      record { x_in = h.x_in; y_in = h.y_in; z_in = p },
      next_in_cell x y z h p,
      refs_in_cell x y z h,
    )
    | no p ↦ elim (dec_lt (suc y) (length (row g.tests x))) [
      | yes q ↦
          let c =
            FullRow-get (row g.tests x) (suc y) (FullMatrix-get g.tests x f.full h.x_in).1 q in
          inr (
            x,
            suc y,
            0,
            record { x_in = h.x_in; y_in = q; z_in = c },
            next_in_row x y z h (omega arith) q c,
            refs_in_row x y z h (omega arith) q,
          )
      | no q ↦ elim (dec_lt (suc x) (length g.tests)) [
        | yes r ↦
            let (a, b) = FullMatrix-get g.tests (suc x) f.full r in
            let c = FullRow-get (row g.tests (suc x)) 0 b a in
            inr (
              suc x,
              0,
              0,
              record { x_in = r; y_in = a; z_in = c },
              next_row x y z h (omega arith) (omega arith) r a c,
              refs_next_row x y z h (omega arith) (omega arith) r a,
            )
        | no r ↦ inl (
          next_none x y z h (omega arith) (omega arith) (omega arith),
          refs_last x y z h (omega arith) (omega arith) (omega arith),
        )
      ]
    ]
  ]

  -- From a test that is there, `n` rounds of the walk lead to the `n`-th ref behind it.
  pub walk-refs_from :
      IsFull g
      → (n x y z : ℕ) → InGroup g x y z
      → walk g n (ref g.grp_num x y z) ≡ get_elem? (refs_from x y z) n
  unfolding walk
  walk-refs_from f zero x y z h = elim (refs_from_step f x y z h) [
    | inl (_, e) ↦ rw e
    | inr (_, _, _, _, _, e) ↦ rw e
  ]
  walk-refs_from f (suc n) x y z h = elim (refs_from_step f x y z h) [
    | inl (none_next, e) ↦ rw (e, none_next, walk)
    | inr (x', y', z', h', next, e) ↦ rw (e, next, walk) (walk-refs_from f n x' y' z' h')
  ]

  -- In a group whose cells all have tests, IteraterToTestRef finds for n the n-th test of the
  -- group in order of x, y and z, and fails past the last one.
  pub iterator-tests_of : IsFull g → (n : ℕ) → iterator_to_test_ref g n ≡ get_elem? (tests_of g) n
  unfolding iterator_to_test_ref
  iterator-tests_of f n =
      let (a, b) = FullMatrix-get g.tests 0 f.full f.some_test in
      let c = FullRow-get (row g.tests 0) 0 b a in
      walk-refs_from f n 0 0 0 (record { x_in = f.some_test; y_in = a; z_in = c })
      ∙ ap (λ l. get_elem? l n) (refs_from_first a)
    where
      refs_from_first : 0 < length (row g.tests 0) → refs_from 0 0 0 ≡ tests_of g
      refs_from_first a = rw (
        x_refs_head g.grp_num g.tests f.some_test,
        y_refs_head g.grp_num 0 (row g.tests 0) a,
        sub_zero,
        append_assoc,
      )
