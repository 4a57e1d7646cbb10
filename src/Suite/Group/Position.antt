-- ===== src/Suite/Group/Position.antt =====
-- Where a test stands in the walk of its group, and that no two indices name one test.
use tnvme.Base.{
  ℕ, zero, suc, ◌+◌, ◌-◌, ◌<◌, ◌≡◌, sym, ap, ◌∙◌, ◌⊎◌, inl, inr, ◌≢◌, some, List, [], ◌∷◌, length,
  get_elem?, get_or, get_elem?-append_left, get_elem?-append_right, get_elem?_of_ge, arith, dec_lt,
  Option-cases,
}
use tnvme.Suite.Ref.{TestRef, ref}
use tnvme.Suite.Group.{Group, Matrix, row, cell, next_test, walk, iterator_to_test_ref, count_tests}
use tnvme.Suite.Group.Refs.{z_refs, y_refs, x_refs, tests_of, IsFull, InGroup, length-x_refs}
use tnvme.Suite.Group.Enumerate.{walk-refs_from, iterator-tests_of}

-- The order of the walk.
abbrev pub Before : TestRef → TestRef → Type 0
Before a b =
    (a.x_lev < b.x_lev)
    ⊎ ((a.x_lev ≡ b.x_lev) × ((a.y_lev < b.y_lev) ⊎ ((a.y_lev ≡ b.y_lev) × (a.z_lev < b.z_lev))))

Before-trans : (a b c : TestRef) → Before a b → Before b c → Before a c
Before-trans a b c p q = ground arith

Before-irrefl : (a : TestRef) → ¬ Before a a
Before-irrefl a p = ground arith

module _ {ℓ} {T : Type ℓ} (g : Group T) where
  next-Before : (r r' : TestRef) → next_test g r ≡ some r' → Before r r'
  unfolding next_test
  next-Before r r' h = ground arith

  walk-suc :
      (n : ℕ) (r : TestRef) {t : TestRef}
      → walk g (suc n) r ≡ some t
      → (s : TestRef) × (next_test g r ≡ some s) × (walk g n s ≡ some t)
  unfolding walk
  walk-suc n r h = elim (Option-cases (next_test g r)) [
    | inl e ↦ absurd (ground arith)
    | inr (s, e) ↦ (s, e, ground arith)
  ]

  walk-Before : (n : ℕ) (r t : TestRef) → walk g (suc n) r ≡ some t → Before r t
  unfolding walk
  walk-Before zero r t h = let (s, e, k) = walk-suc zero r h in ground (arith, next-Before r s e)
  walk-Before (suc n) r t h =
      let (s, e, k) = walk-suc (suc n) r h in
      Before-trans r s t (next-Before r s e) (walk-Before n s t k)

  walk-add : (n m : ℕ) (r s : TestRef) → walk g n r ≡ some s → walk g (n + m) r ≡ walk g m s
  unfolding walk
  walk-add zero m r s h = ground arith
  walk-add (suc n) m r s h =
      let (t, e, k) = walk-suc n r h in
      let step : suc n + m ≡ suc (n + m) = omega arith in rw (step, e, walk) (walk-add n m t s k)

  iterator-add :
      (n m : ℕ) (r : TestRef)
      → iterator_to_test_ref g n ≡ some r
      → iterator_to_test_ref g (n + m) ≡ walk g m r
  unfolding iterator_to_test_ref
  iterator-add n m r h = walk-add n m (ref g.grp_num 0 0 0) r h

  later_differs :
      (n k : ℕ) (r : TestRef)
      → iterator_to_test_ref g n ≡ some r
      → iterator_to_test_ref g (n + suc k) ≢ some r
  later_differs n k r h e =
      Before-irrefl r (walk-Before k r r (sym (iterator-add n (suc k) r h) ∙ e))

  -- IteraterToTestRef finds no test reference at two indices.
  pub iterator-injective :
      (i j : ℕ) {r : TestRef}
      → iterator_to_test_ref g i ≡ some r
      → iterator_to_test_ref g j ≡ some r
      → i ≡ j
  iterator-injective i j {r} h k = elim (dec_lt i j) [
    | yes p ↦
        let e : j ≡ i + suc (j - i - 1) = omega arith in
        absurd (later_differs i (j - i - 1) r h (rw (← e) k))
    | no p ↦ elim (dec_lt j i) [
      | yes q ↦
          let e : i ≡ j + suc (i - j - 1) = omega arith in
          absurd (later_differs j (i - j - 1) r k (rw (← e) h))
      | no q ↦ omega arith
    ]
  ]

z_refs_at : (g x y z0 n z : ℕ) → z < n → get_elem? (z_refs g x y z0 n) z ≡ some (ref g x y (z0 + z))
z_refs_at g x y z0 zero z h = absurd (omega arith)
z_refs_at g x y z0 (suc n) zero h = ground arith
z_refs_at g x y z0 (suc n) (suc z) h = ground (arith, z_refs_at g x y (suc z0) n z)

module _ {ℓ} {T : Type ℓ} where
  y_refs_at :
      (g x y0 : ℕ) (ys : List (List T)) (y z : ℕ)
      → y < length ys
      → z < length (get_or ys y [])
      → (i : ℕ) × (get_elem? (y_refs g x y0 ys) i ≡ some (ref g x (y0 + y) z))
  y_refs_at g x y0 [] y z h k = absurd (omega arith)
  y_refs_at g x y0 (zs ∷ r) zero z h k = (
    z,
    get_elem?-append_left (z_refs g x y0 0 (length zs)) (y_refs g x (suc y0) r) z
        (ground (arith, z_refs_at g x y0 0 (length zs) z)),
  )
  y_refs_at g x y0 (zs ∷ r) (suc y) z h k =
      let (i, e) = y_refs_at g x (suc y0) r y z (omega arith) k in
      let step : suc y0 + y ≡ y0 + suc y = omega arith in
      (
        length (z_refs g x y0 0 (length zs)) + i,
        get_elem?-append_right (z_refs g x y0 0 (length zs)) (y_refs g x (suc y0) r) i
            ∙ (e ∙ ap (λ t. some (ref g x t z)) step),
      )

  x_refs_at :
      (g x0 : ℕ) (m : Matrix T) (x y z : ℕ)
      → x < length m
      → y < length (row m x)
      → z < length (cell m x y)
      → (i : ℕ) × (get_elem? (x_refs g x0 m) i ≡ some (ref g (x0 + x) y z))
  x_refs_at g x0 [] x y z h k l = absurd (omega arith)
  x_refs_at g x0 (ys ∷ r) zero y z h k l =
      let (i, e) = y_refs_at g x0 0 ys y z k l in
      (i, get_elem?-append_left (y_refs g x0 0 ys) (x_refs g (suc x0) r) i (e ∙ ground arith))
  x_refs_at g x0 (ys ∷ r) (suc x) y z h k l =
      let (i, e) = x_refs_at g (suc x0) r x y z (omega arith) k l in
      let step : suc x0 + x ≡ x0 + suc x = omega arith in
      (
        length (y_refs g x0 0 ys) + i,
        get_elem?-append_right (y_refs g x0 0 ys) (x_refs g (suc x0) r) i
            ∙ (e ∙ ap (λ t. some (ref g t y z)) step),
      )

module _ {ℓ} {T : Type ℓ} (g : Group T) (f : IsFull g) where
  -- Every test that is there has an index.
  pub InGroup-iterator :
      (x y z : ℕ)
      → InGroup g x y z
      → (i : ℕ) × (iterator_to_test_ref g i ≡ some (ref g.grp_num x y z))
  InGroup-iterator x y z h =
      let (i, e) = x_refs_at g.grp_num 0 g.tests x y z h.x_in h.y_in h.z_in in
      (i, iterator-tests_of g f i ∙ (e ∙ ground arith))

  -- The indices are those below the number of tests.
  pub iterator_bound :
      (i : ℕ) {r : TestRef} → iterator_to_test_ref g i ≡ some r → i < count_tests g.tests
  iterator_bound i h = elim (dec_lt i (count_tests g.tests)) [
    | yes p ↦ p
    | no p ↦ absurd (
        ground (
          arith,
          iterator-tests_of g f i,
          length-x_refs g.grp_num 0 g.tests,
          get_elem?_of_ge (tests_of g) i,
        ))
  ]

  -- Rounds inside one cell.
  pub iterator_in_cell :
      (i x y z n : ℕ)
      → iterator_to_test_ref g i ≡ some (ref g.grp_num x y z)
      → InGroup g x y (z + n)
      → iterator_to_test_ref g (i + n) ≡ some (ref g.grp_num x y (z + n))
  iterator_in_cell i x y z n e h =
      let k = length (cell g.tests x y) in
      let here : InGroup g x y z = record {
        x_in = h.x_in;
        y_in = h.y_in;
        z_in = omega (arith, h.z_in);
      } in
      iterator-add g i n (ref g.grp_num x y z) e
      ∙ (walk-refs_from g f n x y z here
          ∙ get_elem?-append_left (z_refs g.grp_num x y z (k - z)) _ n
              (z_refs_at g.grp_num x y z (k - z) n (omega (arith, h.z_in))))
