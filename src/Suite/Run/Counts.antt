-- ===== src/Suite/Run/Counts.antt =====
-- What a call of `RunTest` counts: what `AdvanceDependencies` moves past, and what a result costs.
use tnvme.Base.{
  ℕ, suc, ◌+◌, ◌-◌, ◌≡◌, ◌⊎◌, inl, inr, ◌<◌, ◌≤◌, Bool, true, none, some, List, length, get_elem?,
  get_elem?-lt, drop, take_while, length-append, length-drop, length-take_while-le, arith, ltb,
  ltb→lt, ltb→le, Bool-cases,
}
use tnvme.Suite.Ref.{TestRef}
use tnvme.Suite.Results.{TestResult, success, fail, skipping, informative}
use tnvme.Suite.Group.{Group, cell, TstIdx, test_exists}
use tnvme.Suite.Advance.{
  Advanced, skip_to, depends_on, advance_dependencies, advance_dependencies_lem,
}

-- How many tests of the set still lie ahead of an index.
abbrev pub left : List TestRef → TstIdx → ℕ
left deps none = 0
left deps (some i) = length deps - i

abbrev pub InSet : List TestRef → TstIdx → Type 0
InSet deps none = Unit {0}
InSet deps (some i) = i < length deps

-- What `AdvanceDependencies` counts is what it moves past, and what it lists.
pub record Counts (deps skipped : List TestRef) (i : ℕ) (a : Advanced) : Type 0 where
  pub moved : a.count + 1 + left deps a.tst_idx ≡ length deps - i
  pub in_set : InSet deps a.tst_idx
  pub listed : length a.skipped_tests ≡ length skipped + a.count

skip_to-Counts :
    (deps : List TestRef) (i : ℕ) (skipped out : List TestRef)
    → i < length deps
    → length out ≤ length deps - suc i
    → Counts deps skipped i (skip_to deps i skipped out)
skip_to-Counts deps i skipped out h k = elim (Bool-cases (ltb (i + 1 + length out) (length deps))) [
  | inl e ↦ rw e (record {
    moved = omega (arith, ltb→lt _ _ e);
    in_set = ltb→lt _ _ e;
    listed = length-append skipped out;
  })
  | inr e ↦ rw e (record {
    moved = omega (arith, ltb→le _ _ e);
    in_set = tt;
    listed = length-append skipped out;
  })
]

pub advance-Counts :
    (deps : List TestRef) (i : ℕ) (failed : Bool) (skipped : List TestRef) {dt : TestRef}
    → get_elem? deps i ≡ some dt
    → Counts deps skipped i (advance_dependencies deps (some i) failed skipped)
advance-Counts deps i failed skipped {dt} h =
    let rest = drop (suc i) deps in
    let out = take_while (depends_on failed dt) rest in
    let bound : length out ≤ length deps - suc i =
      omega (arith, length-take_while-le (depends_on failed dt) rest, length-drop (suc i) deps) in
    rw (advance_dependencies_lem deps i failed skipped h)
      (skip_to-Counts deps i skipped out (get_elem?-lt deps i h) bound)

-- What one call of `RunTest` adds to the counters of the run: one for the test itself, and the
-- tests that it skipped.
abbrev pub cost : TestResult → ℕ → ℕ
cost skipping n = n
cost fail n = 1 + n
cost _ n = 1

abbrev pub skips : TestResult → ℕ → ℕ
skips skipping n = n
skips fail n = n
skips _ n = 0

abbrev pub fails : TestResult → ℕ
fails fail = 1
fails _ = 0

-- The results that a test object sets as its own.
abbrev pub IsVerdict : TestResult → Type 0
IsVerdict r = (r ≡ success) ⊎ ((r ≡ fail) ⊎ (r ≡ informative))

abbrev pub IsCounted : TestResult → Type 0
IsCounted r = IsVerdict r ⊎ (r ≡ skipping)

pub exists-in_cell {ℓ} :
    {T : Type ℓ} (g : Group T) (tr : TestRef)
    → test_exists g tr ≡ true
    → tr.z_lev < length (cell g.tests tr.x_lev tr.y_lev)
unfolding test_exists
exists-in_cell g tr h = ground arith

-- The same tests are there.
abbrev pub SameTests {ℓ} : {T : Type ℓ} → Group T → Group T → Type 0
SameTests g h = (tr : TestRef) → test_exists h tr ≡ test_exists g tr
