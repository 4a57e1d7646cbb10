-- ===== src/Suite/Group.antt =====
-- group.h and group.cpp: the matrix of test objects of a group, how its tests are numbered and
-- walked, and the set of tests that a target asks for.
pub mod Refs
pub mod Enumerate
pub mod Position
pub mod Targets
use tnvme.Base.{
  ℕ, zero, suc, ◌+◌, ◌-◌, ◌^◌, Bool, true, false, not, ◌&&◌, ◌||◌, Option, none, some, List, [],
  ◌∷◌, ◌++◌, length, get_or, ltb, ◌==◌, if◌then◌else◌,
}
use tnvme.Suite.Ref.{TestRef, ref, ref_eq}

-- UINT_MAX, which stands for "all" in a target
abbrev pub uint_max : ℕ
uint_max = 2 ^ 32 - 1

-- `deque<deque<deque<Test *> > > mTests`
abbrev pub Matrix {ℓ} : Type ℓ → Type ℓ
Matrix T = List (List (List T))

-- `d.back()` becomes `f(d.back())`; on an empty deque the code's behaviour is undefined, and
-- here nothing changes
pub on_back {ℓ} : {A : Type ℓ} → (A → A) → List A → List A
on_back f [] = []
on_back f (x ∷ []) = f x ∷ []
on_back f (x ∷ y ∷ r) = x ∷ on_back f (y ∷ r)

module _ {ℓ} {T : Type ℓ} where
  -- `mTests[x]` and `mTests[x][y]`; read only where the index was tested
  abbrev pub row : Matrix T → ℕ → List (List T)
  row m x = get_or m x []

  abbrev pub cell : Matrix T → ℕ → ℕ → List T
  cell m x y = get_or (row m x) y []

  -- The tests of `TestExists` but for the group's number.
  unfoldable pub in_matrix : Matrix T → ℕ → ℕ → ℕ → Bool
  in_matrix m x y z = ltb x (length m) && ltb y (length (row m x)) && ltb z (length (cell m x y))

  -- As many tests as there are pointers in the matrix.
  abbrev pub count_row : List (List T) → ℕ
  count_row [] = 0
  count_row (zs ∷ r) = length zs + count_row r

  abbrev pub count_tests : Matrix T → ℕ
  count_tests [] = 0
  count_tests (ys ∷ r) = count_row ys + count_tests r

  -- APPEND_TEST_AT_XLEVEL
  unfoldable pub append_at_x_level : T → Matrix T → Matrix T
  append_at_x_level t m = m ++ (((t ∷ []) ∷ []) ∷ [])

  -- APPEND_TEST_AT_YLEVEL
  unfoldable pub append_at_y_level : T → Matrix T → Matrix T
  unfolding on_back
  append_at_y_level t = on_back (λ ys. ys ++ ((t ∷ []) ∷ []))

  -- APPEND_TEST_AT_ZLEVEL
  unfoldable pub append_at_z_level : T → Matrix T → Matrix T
  unfolding on_back
  append_at_z_level t = on_back (on_back (λ zs. zs ++ (t ∷ [])))

pub record Group {ℓ} (T : Type ℓ) : Type ℓ where
  pub grp_num : ℕ
  pub tests : Matrix T

-- `tstIdx`: an index, or `none` for -1
abbrev pub TstIdx : Type 0
TstIdx = Option ℕ

-- What `GetTestSet` returns, with its two output parameters.
pub record TestSet : Type 0 where
  pub found : Bool
  pub dependencies : List TestRef
  pub tst_idx : TstIdx

module _ {ℓ} {T : Type ℓ} (g : Group T) where
  -- `Group::TestExists`
  unfoldable pub test_exists : TestRef → Bool
  unfolding in_matrix
  test_exists tr = tr.group == g.grp_num && in_matrix g.tests tr.x_lev tr.y_lev tr.z_lev

  -- One round of the loop of `IteraterToTestRef`, which breaks off at `none`.
  unfoldable pub next_test : TestRef → Option TestRef
  unfolding test_exists
  next_test r =
      let z' = ref g.grp_num r.x_lev r.y_lev (r.z_lev + 1) in
      let y' = ref g.grp_num r.x_lev (r.y_lev + 1) 0 in
      let x' = ref g.grp_num (r.x_lev + 1) 0 0 in
      if test_exists z'
      then some z'
      else if test_exists y'
      then some y'
      else if test_exists x'
      then some x'
      else none

  -- The loop, by the rounds that are left.
  unfoldable pub walk : ℕ → TestRef → Option TestRef
  unfolding next_test
  walk zero r = some r
  walk (suc n) r = elim (next_test r) [ none ↦ none | some r' ↦ walk n r' ]

  -- `Group::IteraterToTestRef`
  unfoldable pub iterator_to_test_ref : ℕ → Option TestRef
  unfolding walk
  iterator_to_test_ref iter = walk iter (ref g.grp_num 0 0 0)

  -- The loop of `TestRefToIterator`, from `iter` on; `none` is its result false.
  unfoldable pub search_from : ℕ → TestRef → ℕ → Option ℕ
  unfolding iterator_to_test_ref ref_eq
  search_from zero tr iter = none
  search_from (suc fuel) tr iter = elim (iterator_to_test_ref iter) [
    | none ↦ none
    | some proposed ↦ elim (ref_eq tr proposed) [
      | true ↦ some iter
      | false ↦ search_from fuel tr (iter + 1)
    ]
  ]

  -- `Group::TestRefToIterator`; the walk ends within this many rounds.
  unfoldable pub test_ref_to_iterator : TestRef → Option ℕ
  unfolding search_from
  test_ref_to_iterator tr = search_from (count_tests g.tests + 1) tr 0

  -- `for (i = seqIter; i < targetIter; i++)`, by the rounds left: whether every index was found,
  -- and the refs that were pushed.
  unfoldable pub sequence_deps : ℕ → ℕ → Bool × List TestRef
  unfolding iterator_to_test_ref
  sequence_deps zero i = (true, [])
  sequence_deps (suc n) i = elim (iterator_to_test_ref i) [
    | none ↦ (false, [])
    | some r ↦ let (all_found, rs) = sequence_deps n (i + 1) in (all_found, r ∷ rs)
  ]

  -- `while (IteraterToTestRef(tstIter++, thisTest))`
  unfoldable pub collect_from : ℕ → ℕ → List TestRef
  unfolding iterator_to_test_ref
  collect_from zero iter = []
  collect_from (suc fuel) iter = elim (iterator_to_test_ref iter) [
    | none ↦ []
    | some r ↦ r ∷ collect_from fuel (iter + 1)
  ]

  abbrev refused : List TestRef → TestSet
  refused deps = record { found = false; dependencies = deps; tst_idx = none }

  abbrev accepted : List TestRef → TestSet
  accepted deps = record { found = true; dependencies = deps; tst_idx = some 0 }

  -- The sequence tests from x.y.0 up to the target, behind the dependencies found so far.
  unfoldable pub with_sequence : TestRef → List TestRef → TestSet
  unfolding test_ref_to_iterator sequence_deps
  with_sequence target deps =
      elim (test_ref_to_iterator (ref target.group target.x_lev target.y_lev 0)) [
        | none ↦ refused deps
        | some seq ↦ elim (test_ref_to_iterator target) [
          | none ↦ refused deps
          | some last ↦
              let (all_found, rs) = sequence_deps (last - seq) seq in
              if all_found then accepted (deps ++ (rs ++ (target ∷ []))) else refused (deps ++ rs)
        ]
      ]

  -- `Group::GetTestSet`
  unfoldable pub get_test_set : TestRef → TestSet
  unfolding with_sequence collect_from
  get_test_set target =
      let config = ref target.group target.x_lev 0 0 in
      if not (target.group == g.grp_num)
      then refused []
      else if target.x_lev == uint_max || target.y_lev == uint_max || target.z_lev == uint_max
      then accepted (collect_from (count_tests g.tests + 1) 0)
      else if target.y_lev == 0 && target.z_lev == 0
      then accepted (target ∷ [])
      else if target.z_lev == 0
      then (if test_exists config then accepted (config ∷ target ∷ []) else refused [])
      else if not (target.y_lev == 0)
      then (if test_exists config then with_sequence target (config ∷ []) else refused [])
      else with_sequence target []
