-- ===== src/Suite/Run.antt =====
-- group.cpp, `Group::RunTest`: one test of a test set, with the state of the device saved before
-- the first test and restored after the last or after a failure.
pub mod Shape
pub mod Counts
pub mod Accounting
pub mod Failures
pub mod Recorded
pub mod Stable
use tnvme.Base.{
  ℕ, zero, suc, ◌+◌, ◌≡◌, Bool, true, false, ◌&&◌, ◌||◌, Option, none, some, List, [], ◌∷◌, ◌++◌,
  length, get_elem?, get_or, set, ltb, ◌==◌, if◌then◌else◌,
}
use tnvme.Suite.Ref.{TestRef}
use tnvme.Suite.Results.{TestResult, success, fail, skipping, informative, not_found, fence}
use tnvme.Suite.Test.{TestEnv, RunType, run_true, run_false, run_fail, run, runnable}
use tnvme.Suite.Group.{Group, Matrix, row, cell, TstIdx, test_exists}
use tnvme.Suite.Advance.{Advanced, advance_dependencies, skipping_test}

-- The group object, the device, and the in-out parameters of `RunTest`.
pub record RunState {ℓ κ} (T : Type ℓ) (D : Type κ) : Type (ℓ ⊔ κ) where
  pub group : Group T
  pub device : D
  pub tst_idx : TstIdx
  pub num_skipped : ℕ
  pub failed_tests : List TestRef
  pub skipped_tests : List TestRef

-- The other parameters of `RunTest`, and what it reads of the command line and of the group's
-- class: `gCmdLine.restore`, and the virtual `SaveState` and `RestoreState`.
pub record RunConfig {κ} (D : Type κ) : Type κ where
  pub dependencies : List TestRef
  pub skip_test : List TestRef
  pub preserve : Bool
  pub restore : Bool
  pub save_state : D → Bool × D
  pub restore_state : D → Bool × D

-- `mTests[x][y][z] = t`
unfoldable pub put_test {ℓ} : {T : Type ℓ} → Matrix T → TestRef → T → Matrix T
put_test m tr t =
    set m tr.x_lev (set (row m tr.x_lev) tr.y_lev (set (cell m tr.x_lev tr.y_lev) tr.z_lev t))

-- `mTests[x][y]` gets this cell.
unfoldable pub put_cell {ℓ} : {T : Type ℓ} → Matrix T → TestRef → List T → Matrix T
put_cell m tr c = set m tr.x_lev (set (row m tr.x_lev) tr.y_lev c)

-- `erase` and `insert` of a deque, at a position in it
unfoldable pub erase_at {ℓ} : {T : Type ℓ} → ℕ → List T → List T
erase_at n [] = []
erase_at zero (x ∷ r) = r
erase_at (suc n) (x ∷ r) = x ∷ erase_at n r

unfoldable pub insert_at {ℓ} : {T : Type ℓ} → ℕ → T → List T → List T
insert_at zero t l = t ∷ l
insert_at (suc n) t [] = t ∷ []
insert_at (suc n) t (x ∷ r) = x ∷ insert_at n t r

unfoldable pub is_fail : TestResult → Bool
is_fail fail = true
is_fail _ = false

unfoldable pub is_last : TstIdx → Bool
is_last none = true
is_last (some _) = false

module _ {ℓ κ} {T : Type ℓ} {D : Type κ} (env : TestEnv T D) (cfg : RunConfig D) where
  abbrev with_test : RunState T D → TestRef → T → RunState T D
  with_test s tr t = record s {
    group = record { grp_num = s.group.grp_num; tests = put_test s.group.tests tr t };
  }

  -- The test at index `i` is not run: it and what depends on it are skipped.
  unfoldable pub skip_this : RunState T D → ℕ → TestRef → RunState T D
  skip_this s i tr =
      let adv =
        advance_dependencies cfg.dependencies (some i) false (s.skipped_tests ++ (tr ∷ [])) in
      record s {
        tst_idx = adv.tst_idx;
        num_skipped = adv.count + 1;
        skipped_tests = adv.skipped_tests;
      }

  -- The test at index `i` failed: what depends on it is skipped.
  unfoldable pub fail_this : RunState T D → ℕ → TestRef → RunState T D
  fail_this s i tr =
      let adv = advance_dependencies cfg.dependencies (some i) true s.skipped_tests in
      record s {
        tst_idx = adv.tst_idx;
        num_skipped = adv.count;
        failed_tests = s.failed_tests ++ (tr ∷ []);
        skipped_tests = adv.skipped_tests;
      }

  -- `++tstIdx`
  unfoldable pub pass_this : RunState T D → ℕ → RunState T D
  pass_this s i = record s {
    tst_idx = if ltb (i + 1) (length cfg.dependencies) then some (i + 1) else none;
    num_skipped = 0;
  }

  -- `Run` was called on the test at index `i`.
  unfoldable pub after_run : TestResult → RunState T D → ℕ → TestRef → TestResult × RunState T D
  unfolding fail_this pass_this
  after_run fail s i tr = (fail, fail_this s i tr)
  after_run r s i tr = (r, pass_this s i)

  -- The switch over `Runnable`.
  unfoldable pub dispatch : RunType → RunState T D → ℕ → TestRef → T → TestResult × RunState T D
  unfolding skip_this after_run
  dispatch run_true s i tr t =
      let (r, t', d) = run env t s.device in
      after_run r (with_test (record s { device = d }) tr t') i tr
  dispatch run_false s i tr t = (skipping, skip_this s i tr)
  dispatch run_fail s i tr t = (fail, fail_this s i tr)

  -- From SkippingTest to the end of the test.
  unfoldable pub execute : RunState T D → ℕ → TestRef → T → TestResult × RunState T D
  unfolding dispatch
  execute s i tr t =
      let (kind, t', d) = runnable env t cfg.preserve s.device in
      if skipping_test tr cfg.skip_test
      then (skipping, skip_this s i tr)
      else dispatch kind (with_test (record s { device = d }) tr t') i tr t'

  -- The object of the test is erased, and a clone of it inserted where it was.
  unfoldable pub clean_up : RunState T D → TestRef → RunState T D
  clean_up s tr = elim (get_elem? (cell s.group.tests tr.x_lev tr.y_lev) tr.z_lev) [
    | none ↦ s
    | some t ↦
        let erased = erase_at tr.z_lev (cell s.group.tests tr.x_lev tr.y_lev) in
        let inserted = insert_at tr.z_lev (env.clone t) erased in
        record s {
          group = record { grp_num = s.group.grp_num; tests = put_cell s.group.tests tr inserted };
        }
  ]

  -- Restoring after the last test or a failure, and the cleanup.
  unfoldable pub finish : TestResult → RunState T D → TestRef → TestResult × RunState T D
  unfolding clean_up is_last is_fail
  finish result s tr =
      let (restored, d) = cfg.restore_state s.device in
      if cfg.restore && (is_last s.tst_idx || is_fail result)
      then (if restored
          then (result, clean_up (record s { device = d }) tr)
          else (fail, record s { device = d; tst_idx = none }))
      else (result, clean_up s tr)

  -- Behind the checks: saving the state before the first test, the test itself, the rest.
  unfoldable pub run_at : RunState T D → ℕ → TestRef → T → TestResult × RunState T D
  unfolding execute finish
  run_at s i tr t =
      let (saved, d) = cfg.save_state s.device in
      let start = λ (s' : RunState T D). (let (r, s'') = execute s' i tr t in finish r s'' tr) in
      if cfg.restore && i == 0
      then (if saved
          then start (record s { device = d })
          else (fail, record s { device = d; tst_idx = none }))
      else start s

  abbrev nothing_to_run : RunState T D → TestResult × RunState T D
  nothing_to_run s = (not_found, record s { tst_idx = none; num_skipped = 0 })

  -- The checks of `RunTest` and the pointer to its test.
  unfoldable pub run_ref : RunState T D → ℕ → TestRef → TestResult × RunState T D
  unfolding run_at
  run_ref s i tr =
      let found : TestResult × RunState T D =
        elim (get_elem? (cell s.group.tests tr.x_lev tr.y_lev) tr.z_lev) [
          | none ↦ nothing_to_run s
          | some t ↦ run_at (record s { num_skipped = 0 }) i tr t
        ] in
      if test_exists s.group tr then found else nothing_to_run s

  unfoldable pub run_idx : RunState T D → TstIdx → TestResult × RunState T D
  unfolding run_ref
  run_idx s none = nothing_to_run s
  run_idx s (some i) = elim (get_elem? cfg.dependencies i) [
    | none ↦ nothing_to_run s
    | some this ↦ run_ref s i this
  ]

  -- `Group::RunTest`
  unfoldable pub run_test : RunState T D → TestResult × RunState T D
  unfolding run_idx
  run_test s = run_idx s s.tst_idx
