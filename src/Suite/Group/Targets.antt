-- ===== src/Suite/Group/Targets.antt =====
-- The test sets that `GetTestSet` returns: the whole group, or a test with what it depends on.
use tnvme.Base.{
  ℕ, zero, suc, ◌+◌, ◌-◌, ◌≤◌, ◌<◌, ◌≡◌, refl, sym, ap, ◌∙◌, ◌⊎◌, inl, inr, ◌≢◌, ◌==◌, true, false,
  if◌then◌else◌, none, some, List, [], ◌∷◌, ◌++◌, length, get_or, drop, drop_of_lt, drop_of_ge,
  get_elem?_of_lt, get_elem?_of_ge, arith, dec_lt, Bool-cases,
}
use tnvme.Suite.Ref.{TestRef, ref, ref_eq}
use tnvme.Suite.Group.{
  Group, uint_max, row, test_exists, iterator_to_test_ref, count_tests, search_from,
  test_ref_to_iterator, sequence_deps, collect_from, with_sequence, get_test_set,
}
use tnvme.Suite.Group.Refs.{
  z_refs, tests_of, IsFull, InGroup, length-x_refs, FullRow-get, FullMatrix-get,
}
use tnvme.Suite.Group.Enumerate.{iterator-tests_of, InGroup-exists}
use tnvme.Suite.Group.Position.{
  iterator-injective, InGroup-iterator, iterator_bound, iterator_in_cell,
}

ref_eq_refl : (r : TestRef) → ref_eq r r ≡ true
unfolding ref_eq
ref_eq_refl r = ground arith

ref_eq-eq : (a b : TestRef) → ref_eq a b ≡ true → a ≡ b
unfolding ref_eq
ref_eq-eq a b h = ground arith

module _ {ℓ} {T : Type ℓ} (g : Group T) where
  search_step :
      (fuel i : ℕ) (tr p : TestRef)
      → iterator_to_test_ref g i ≡ some p
      → ref_eq tr p ≡ false
      → search_from g (suc fuel) tr i ≡ search_from g fuel tr (i + 1)
  unfolding search_from
  search_step fuel i tr p h e = rw (h, search_from, e)

  search_hit :
      (fuel i : ℕ) (tr p : TestRef)
      → iterator_to_test_ref g i ≡ some p
      → ref_eq tr p ≡ true
      → search_from g (suc fuel) tr i ≡ some i
  unfolding search_from
  search_hit fuel i tr p h e = rw (h, search_from, e)

  search_end :
      (fuel i : ℕ) (tr : TestRef)
      → iterator_to_test_ref g i ≡ none
      → search_from g (suc fuel) tr i ≡ none
  unfolding search_from
  search_end fuel i tr h = rw (h, search_from)

module _ {ℓ} {T : Type ℓ} (g : Group T) (f : IsFull g) where
  iterator_some :
      (i : ℕ) → i < count_tests g.tests → (r : TestRef) × (iterator_to_test_ref g i ≡ some r)
  iterator_some i h = (
    get_or (tests_of g) i (ref 0 0 0 0),
    iterator-tests_of g f i
        ∙ get_elem?_of_lt (tests_of g) i (ref 0 0 0 0)
            (omega (arith, length-x_refs g.grp_num 0 g.tests)),
  )

  -- The search finds the index of a test, if that lies ahead and within the fuel.
  search_finds :
      (fuel i j : ℕ) (tr : TestRef)
      → iterator_to_test_ref g j ≡ some tr
      → i ≤ j
      → j < i + fuel
      → search_from g fuel tr i ≡ some j
  search_finds zero i j tr h p q = absurd (omega arith)
  search_finds (suc fuel) i j tr h p q =
      let (r, e) = iterator_some i (omega (arith, iterator_bound g f j h)) in
      elim (Bool-cases (ref_eq tr r)) [
        | inl hit ↦
            let same : i ≡ j =
              iterator-injective g i j (e ∙ ap some (sym (ref_eq-eq tr r hit))) h in
            search_hit g fuel i tr r e hit ∙ ap some same
        | inr miss ↦ elim (dec_lt i j) [
          | yes lt ↦
              search_step g fuel i tr r e miss
              ∙ search_finds fuel (i + 1) j tr h (omega arith) (omega arith)
          | no ge ↦ let same : i ≡ j = omega arith in absurd (cc (same, e, h, miss, ref_eq_refl tr))
        ]
      ]

  -- In a group whose cells all have tests, TestRefToIterator returns the index at which
  -- IteraterToTestRef finds the test.
  test_ref_to_iterator_lem :
      (j : ℕ) (tr : TestRef)
      → iterator_to_test_ref g j ≡ some tr
      → test_ref_to_iterator g tr ≡ some j
  unfolding test_ref_to_iterator
  test_ref_to_iterator_lem j tr h =
      search_finds (count_tests g.tests + 1) 0 j tr h (omega arith)
        (omega (arith, iterator_bound g f j h))

  -- The loop over a sequence collects the refs of one cell.
  sequence_deps_lem :
      (n i x y z : ℕ)
      → iterator_to_test_ref g i ≡ some (ref g.grp_num x y z)
      → InGroup g x y (z + n)
      → sequence_deps g n i ≡ (true, z_refs g.grp_num x y z n)
  unfolding sequence_deps
  sequence_deps_lem zero i x y z h k = refl
  sequence_deps_lem (suc n) i x y z h k =
      let up : InGroup g x y (z + 1) = record {
        x_in = k.x_in;
        y_in = k.y_in;
        z_in = omega (arith, k.z_in);
      } in
      let e : z + 1 ≡ suc z = omega arith in
      let shift : z + suc n ≡ suc z + n = omega arith in
      let next : iterator_to_test_ref g (i + 1) ≡ some (ref g.grp_num x y (suc z)) =
        iterator_in_cell g f i x y z 1 h up ∙ ap (λ t. some (ref g.grp_num x y t)) e in
      rw (h, sequence_deps, sequence_deps_lem n (i + 1) x y (suc z) next (rw (← shift) k))

  -- The loop over the whole group collects every test.
  collect_from_lem :
      (fuel i : ℕ) → length (tests_of g) < i + fuel → collect_from g fuel i ≡ drop i (tests_of g)
  unfolding collect_from
  collect_from_lem zero i h = sym (drop_of_ge i (tests_of g) (omega arith))
  collect_from_lem (suc fuel) i h = elim (dec_lt i (length (tests_of g))) [
    | yes p ↦
        let e : i + 1 ≡ suc i = omega arith in
        rw
          (
            iterator-tests_of g f i,
            get_elem?_of_lt (tests_of g) i (ref 0 0 0 0) p,
            collect_from,
            collect_from_lem fuel (i + 1) (omega arith),
            drop_of_lt i (tests_of g) (ref 0 0 0 0) p,
          )
          (ap (λ n. get_or (tests_of g) i (ref 0 0 0 0) ∷ drop n (tests_of g)) e)
    | no p ↦ rw (
      iterator-tests_of g f i,
      get_elem?_of_ge (tests_of g) i (omega arith),
      collect_from,
      drop_of_ge i (tests_of g) (omega arith),
    )
  ]

module _ {ℓ} {T : Type ℓ} (g : Group T) (f : IsFull g) where
  config_exists : (x y z : ℕ) → InGroup g x y z → test_exists g (ref g.grp_num x 0 0) ≡ true
  config_exists x y z h =
      let (a, b) = FullMatrix-get g.tests x f.full h.x_in in
      InGroup-exists g x 0 0
        (record { x_in = h.x_in; y_in = a; z_in = FullRow-get (row g.tests x) 0 b a })

-- What running one test takes: the configuration test x.0.0 of its row unless that heads its own
-- cell, the tests before it in its cell, and itself.
abbrev pub dependencies_of : ℕ → ℕ → ℕ → ℕ → List TestRef
dependencies_of g x y z =
    (if y == 0 then [] else (ref g x 0 0 ∷ [])) ++ (z_refs g x y 0 z ++ (ref g x y z ∷ []))

abbrev pub IsAll : TestRef → Type 0
IsAll t = (t.x_lev ≡ uint_max) ⊎ ((t.y_lev ≡ uint_max) ⊎ (t.z_lev ≡ uint_max))

module _ {ℓ} {T : Type ℓ} (g : Group T) (f : IsFull g) where
  with_sequence_lem :
      (x y z : ℕ) (deps : List TestRef)
      → InGroup g x y z
      → with_sequence g (ref g.grp_num x y z) deps ≡ record {
        found = true;
        dependencies = deps ++ (z_refs g.grp_num x y 0 z ++ (ref g.grp_num x y z ∷ []));
        tst_idx = some 0;
      }
  unfolding with_sequence
  with_sequence_lem x y z deps h =
      let root : InGroup g x y 0 = record {
        x_in = h.x_in;
        y_in = h.y_in;
        z_in = omega (arith, h.z_in);
      } in
      let (i, e) = InGroup-iterator g f x y 0 root in
      let z_add : 0 + z ≡ z = omega arith in
      let last : iterator_to_test_ref g (i + z) ≡ some (ref g.grp_num x y z) =
        iterator_in_cell g f i x y 0 z e (rw z_add h)
        ∙ ap (λ t. some (ref g.grp_num x y t)) z_add in
      let rounds : i + z - i ≡ z = omega arith in
      rw (
        test_ref_to_iterator_lem g f i (ref g.grp_num x y 0) e,
        test_ref_to_iterator_lem g f (i + z) (ref g.grp_num x y z) last,
        with_sequence,
        rounds,
        sequence_deps_lem g f z i x y 0 e (rw z_add h),
      )

  -- In a group whose cells all have tests, targeting a test that is there, with no level UINT_MAX,
  -- yields exactly its dependencies, in order: the configuration test x.0.0 (unless the target is
  -- in the cell x.0), the tests of its cell before it, and the test itself, with the index at 0.
  pub get_test_set_target :
      (x y z : ℕ)
      → InGroup g x y z
      → x ≢ uint_max
      → y ≢ uint_max
      → z ≢ uint_max
      → get_test_set g (ref g.grp_num x y z)
        ≡ record { found = true; dependencies = dependencies_of g.grp_num x y z; tst_idx = some 0 }
  unfolding get_test_set
  get_test_set_target x zero zero h p q r = ground arith
  get_test_set_target x (suc y) zero h p q r = ground (arith, config_exists g f x (suc y) 0 h)
  get_test_set_target x zero (suc z) h p q r = ground (arith, with_sequence_lem x 0 (suc z) [] h)
  get_test_set_target x (suc y) (suc z) h p q r = ground (
    arith,
    config_exists g f x (suc y) (suc z) h,
    with_sequence_lem x (suc y) (suc z) (ref g.grp_num x 0 0 ∷ []) h,
  )

  -- In a group whose cells all have tests, a target of the group with UINT_MAX at some level
  -- yields every test of the group, each once and in order of x, y and z, with the index at 0.
  pub get_test_set_group :
      (target : TestRef)
      → target.group ≡ g.grp_num
      → IsAll target
      → get_test_set g target ≡ record { found = true; dependencies = tests_of g; tst_idx = some 0 }
  unfolding get_test_set
  get_test_set_group target e a = ground (
    arith,
    collect_from_lem g f (count_tests g.tests + 1) 0
        (omega (arith, length-x_refs g.grp_num 0 g.tests)),
  )
