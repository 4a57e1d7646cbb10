-- ===== src/Suite/Run/Failures.antt =====
-- No call of `RunTest` puts a test on the list of failed ones without returning TR_FAIL.
use tnvme.Base.{
  ℕ, ◌+◌, ◌≤◌, ◌≡◌, ap, inl, inr, ◌&&◌, ◌||◌, ◌==◌, none, some, [], ◌∷◌, length, length-append,
  get_elem?, arith, Bool-cases, Option-cases,
}
use tnvme.Suite.Ref.{TestRef}
use tnvme.Suite.Results.{TestResult, success, fail, skipping, informative, not_found, fence}
use tnvme.Suite.Test.{TestEnv, RunType, run_true, run_false, run_fail, run}
use tnvme.Suite.Group.{cell, TstIdx, test_exists}
use tnvme.Suite.Advance.{skipping_test}
use tnvme.Suite.Run.{
  RunState, RunConfig, is_fail, is_last, fail_this, after_run, dispatch, execute, clean_up, finish,
  run_at, run_ref, run_idx, run_test,
}
use tnvme.Suite.Run.Counts.{fails}

fails-le : (r : TestResult) → fails r ≤ 1
fails-le success = omega arith
fails-le fail = omega arith
fails-le skipping = omega arith
fails-le informative = omega arith
fails-le not_found = omega arith
fails-le fence = omega arith

module _ {ℓ κ} {T : Type ℓ} {D : Type κ} (env : TestEnv T D) (cfg : RunConfig D) where
  -- At most one test was listed, and then the result says so.
  abbrev pub Listed : RunState T D → TestResult × RunState T D → Type 0
  Listed s out = length out.1.failed_tests ≤ length s.failed_tests + fails out.0

  fail_this-Listed :
      (s : RunState T D) (i : ℕ) (tr : TestRef) → Listed s (fail, fail_this env cfg s i tr)
  unfolding fail_this
  fail_this-Listed s i tr = omega (arith, length-append s.failed_tests (tr ∷ []))

  after_run-Listed :
      (r : TestResult) (s : RunState T D) (i : ℕ) (tr : TestRef)
      → Listed s (after_run env cfg r s i tr)
  unfolding after_run
  after_run-Listed fail s i tr = fail_this-Listed s i tr
  after_run-Listed success s i tr = omega arith
  after_run-Listed skipping s i tr = omega arith
  after_run-Listed informative s i tr = omega arith
  after_run-Listed not_found s i tr = omega arith
  after_run-Listed fence s i tr = omega arith

  dispatch-Listed :
      (k : RunType) (s : RunState T D) (i : ℕ) (tr : TestRef) (t : T)
      → Listed s (dispatch env cfg k s i tr t)
  unfolding dispatch
  dispatch-Listed run_true s i tr t = after_run-Listed (run env t s.device).0 _ i tr
  dispatch-Listed run_false s i tr t = omega arith
  dispatch-Listed run_fail s i tr t = fail_this-Listed s i tr

  execute-Listed :
      (s : RunState T D) (i : ℕ) (tr : TestRef) (t : T) → Listed s (execute env cfg s i tr t)
  unfolding execute
  execute-Listed s i tr t = elim (Bool-cases (skipping_test tr cfg.skip_test)) [
    | inl e ↦ rw e (omega arith)
    | inr e ↦ rw e (dispatch-Listed _ _ i tr _)
  ]

  failed-clean_up :
      (s : RunState T D) (tr : TestRef) → (clean_up env cfg s tr).failed_tests ≡ s.failed_tests
  unfolding clean_up
  failed-clean_up s tr = ground arith

  finish-Listed :
      (s : RunState T D) (r : TestResult) (u : RunState T D) (tr : TestRef)
      → Listed s (r, u)
      → Listed s (finish env cfg r u tr)
  unfolding finish
  finish-Listed s r u tr h = elim (Bool-cases (cfg.restore && (is_last u.tst_idx || is_fail r))) [
    | inl e ↦ elim (Bool-cases (cfg.restore_state u.device).0) [
      | inl f ↦
          let u' : RunState T D = record u { device = (cfg.restore_state u.device).1 } in
          rw (e, f, ap length (failed-clean_up u' tr)) h
      | inr f ↦ rw (e, f) (omega (arith, fails-le r))
    ]
    | inr e ↦ rw (e, ap length (failed-clean_up u tr)) h
  ]

  run_at-Listed :
      (s : RunState T D) (i : ℕ) (tr : TestRef) (t : T) → Listed s (run_at env cfg s i tr t)
  unfolding run_at
  run_at-Listed s i tr t = elim (Bool-cases (cfg.restore && i == 0)) [
    | inl e ↦ elim (Bool-cases (cfg.save_state s.device).0) [
      | inl f ↦
          let s' : RunState T D = record s { device = (cfg.save_state s.device).1 } in
          let out = execute env cfg s' i tr t in
          rw (e, f) (finish-Listed s out.0 out.1 tr (execute-Listed s' i tr t))
      | inr f ↦ rw (e, f) (omega arith)
    ]
    | inr e ↦
        let out = execute env cfg s i tr t in
        rw e (finish-Listed s out.0 out.1 tr (execute-Listed s i tr t))
  ]

  run_ref-Listed : (s : RunState T D) (i : ℕ) (tr : TestRef) → Listed s (run_ref env cfg s i tr)
  unfolding run_ref
  run_ref-Listed s i tr = elim (Bool-cases (test_exists s.group tr)) [
    | inl e ↦ elim (Option-cases (get_elem? (cell s.group.tests tr.x_lev tr.y_lev) tr.z_lev)) [
      | inl k ↦ rw (e, k, run_ref) (omega arith)
      | inr (t, k) ↦ rw (e, k, run_ref) (run_at-Listed (record s { num_skipped = 0 }) i tr t)
    ]
    | inr e ↦ rw e (omega arith)
  ]

  run_idx-Listed : (s : RunState T D) (idx : TstIdx) → Listed s (run_idx env cfg s idx)
  unfolding run_idx
  run_idx-Listed s none = omega arith
  run_idx-Listed s (some i) = elim (Option-cases (get_elem? cfg.dependencies i)) [
    | inl e ↦ rw (e, run_idx) (omega arith)
    | inr (tr, e) ↦ rw (e, run_idx) (run_ref-Listed s i tr)
  ]

  pub run_test-Listed : (s : RunState T D) → Listed s (run_test env cfg s)
  unfolding run_test
  run_test-Listed s = run_idx-Listed s s.tst_idx
