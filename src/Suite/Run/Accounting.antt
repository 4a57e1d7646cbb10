-- ===== src/Suite/Run/Accounting.antt =====
-- Every call of `RunTest` accounts for the tests that it moves past.
use tnvme.Base.{
  ℕ, ◌+◌, ◌-◌, ◌≡◌, refl, sym, inl, inr, ◌<◌, ◌≤◌, ◌&&◌, ◌||◌, ◌==◌, Bool, true, false, none, some,
  List, [], ◌∷◌, ◌++◌, length, get_elem?, get_elem?-lt, get_elem?-exists, subst, length-append,
  arith, ltb, ltb→lt, Bool-cases, Option-cases, if◌then◌else◌,
}
use tnvme.Suite.Ref.{TestRef}
use tnvme.Suite.Results.{TestResult, success, fail, skipping, informative, not_found, fence}
use tnvme.Suite.Test.{TestEnv, RunType, run_true, run_false, run_fail, run, reset_status_reg_errors}
use tnvme.Suite.Group.{cell, test_exists}
use tnvme.Suite.Advance.{skipping_test}
use tnvme.Suite.Run.{
  RunState, RunConfig, is_fail, is_last, skip_this, fail_this, pass_this, after_run, dispatch,
  execute, clean_up, finish, run_at, run_ref, run_idx, run_test,
}
use tnvme.Suite.Run.Counts.{
  left, InSet, advance-Counts, cost, skips, fails, IsVerdict, IsCounted, exists-in_cell,
}

module _ {ℓ κ} {T : Type ℓ} {D : Type κ} (deps : List TestRef) (failed skipped i : ℕ) where
  -- A call at index `i`, with so many tests on the lists of failed and skipped ones, accounts
  -- for all that it moves past, in its result and on the lists.
  pub record Accounted (out : TestResult × RunState T D) : Type 0 where
    pub counted : IsCounted out.0
    pub spent : cost out.0 out.1.num_skipped + left deps out.1.tst_idx ≡ length deps - i
    pub moves : 1 ≤ cost out.0 out.1.num_skipped
    pub in_set : InSet deps out.1.tst_idx
    pub failed_listed : length out.1.failed_tests ≡ failed + fails out.0
    pub skipped_listed : length out.1.skipped_tests ≡ skipped + skips out.0 out.1.num_skipped

module _ {ℓ κ} {T : Type ℓ} {D : Type κ} (env : TestEnv T D) (cfg : RunConfig D) where
  abbrev deps : List TestRef
  deps = cfg.dependencies

  abbrev pub AccountedAt : RunState T D → ℕ → TestResult × RunState T D → Type 0
  AccountedAt s i out = Accounted deps (length s.failed_tests) (length s.skipped_tests) i out

  skip_this-Accounted :
      (s : RunState T D) (i : ℕ) (tr : TestRef)
      → get_elem? deps i ≡ some tr
      → AccountedAt s i (skipping, skip_this env cfg s i tr)
  unfolding skip_this
  skip_this-Accounted s i tr h =
      let c = advance-Counts deps i false (s.skipped_tests ++ (tr ∷ [])) h in
      record {
        counted = inr refl;
        spent = omega (arith, c.moved);
        moves = omega arith;
        in_set = c.in_set;
        failed_listed = omega arith;
        skipped_listed = omega (arith, c.listed, length-append s.skipped_tests (tr ∷ []));
      }

  fail_this-Accounted :
      (s : RunState T D) (i : ℕ) (tr : TestRef)
      → get_elem? deps i ≡ some tr
      → AccountedAt s i (fail, fail_this env cfg s i tr)
  unfolding fail_this
  fail_this-Accounted s i tr h =
      let c = advance-Counts deps i true s.skipped_tests h in
      record {
        counted = inl (inr (inl refl));
        spent = omega (arith, c.moved);
        moves = omega arith;
        in_set = c.in_set;
        failed_listed = omega (arith, length-append s.failed_tests (tr ∷ []));
        skipped_listed = c.listed;
      }

  InSet-next :
      (i : ℕ) (b : Bool)
      → ltb (i + 1) (length deps) ≡ b
      → InSet deps (if b then some (i + 1) else none)
  InSet-next i true e = ltb→lt _ _ e
  InSet-next i false e = tt

  pass_this-Accounted :
      (s : RunState T D) (i : ℕ) (r : TestResult)
      → i < length deps
      → IsCounted r
      → cost r 0 ≡ 1
      → fails r ≡ 0
      → skips r 0 ≡ 0
      → AccountedAt s i (r, pass_this env cfg s i)
  unfolding pass_this
  pass_this-Accounted s i r h counted c f k = record {
    counted = counted;
    spent = ground arith;
    moves = omega arith;
    in_set = InSet-next i (ltb (i + 1) (length deps)) refl;
    failed_listed = omega arith;
    skipped_listed = omega arith;
  }

  after_run-Accounted :
      (r : TestResult) (s : RunState T D) (i : ℕ) (tr : TestRef)
      → IsVerdict r
      → get_elem? deps i ≡ some tr
      → AccountedAt s i (after_run env cfg r s i tr)
  unfolding after_run
  after_run-Accounted fail s i tr v h = fail_this-Accounted s i tr h
  after_run-Accounted success s i tr v h =
      pass_this-Accounted s i success (get_elem?-lt deps i h) (inl v) refl refl refl
  after_run-Accounted informative s i tr v h =
      pass_this-Accounted s i informative (get_elem?-lt deps i h) (inl v) refl refl refl
  after_run-Accounted skipping s i tr v h = absurd (ground arith)
  after_run-Accounted not_found s i tr v h = absurd (ground arith)
  after_run-Accounted fence s i tr v h = absurd (ground arith)

  -- Test objects set no other result than a pass, a failure or an informative one.
  abbrev pub SetsVerdicts : Type ℓ
  SetsVerdicts = (t : T) → IsVerdict (env.result t)

  module _ (verdicts : SetsVerdicts) where
    run-IsVerdict : (t : T) (d : D) → IsVerdict (run env t d).0
    unfolding run
    run-IsVerdict t d =
        let d1 = (env.dump_kernel_metrics t (reset_status_reg_errors env d)).1 in
        ground (arith, verdicts (env.run_core_test t d1).1)

    dispatch-Accounted :
        (k : RunType) (s : RunState T D) (i : ℕ) (tr : TestRef) (t : T)
        → get_elem? deps i ≡ some tr
        → AccountedAt s i (dispatch env cfg k s i tr t)
    unfolding dispatch
    dispatch-Accounted run_true s i tr t h =
        after_run-Accounted (run env t s.device).0 _ i tr (run-IsVerdict t s.device) h
    dispatch-Accounted run_false s i tr t h = skip_this-Accounted s i tr h
    dispatch-Accounted run_fail s i tr t h = fail_this-Accounted s i tr h

    execute-Accounted :
        (s : RunState T D) (i : ℕ) (tr : TestRef) (t : T)
        → get_elem? deps i ≡ some tr
        → AccountedAt s i (execute env cfg s i tr t)
    unfolding execute
    execute-Accounted s i tr t h = elim (Bool-cases (skipping_test tr cfg.skip_test)) [
      | inl e ↦ rw e (skip_this-Accounted s i tr h)
      | inr e ↦ rw e (dispatch-Accounted _ _ i tr _ h)
    ]

    clean_up-Accounted :
        (s : RunState T D) (i : ℕ) (tr : TestRef) (r : TestResult) (u : RunState T D)
        → AccountedAt s i (r, u)
        → AccountedAt s i (r, clean_up env cfg u tr)
    unfolding clean_up
    clean_up-Accounted s i tr r u a =
        elim (Option-cases (get_elem? (cell u.group.tests tr.x_lev tr.y_lev) tr.z_lev)) [
          | inl e ↦ rw (e, clean_up) a
          | inr (t, e) ↦
              rw (e, clean_up)
                (record {
                  counted = a.counted;
                  spent = a.spent;
                  moves = a.moves;
                  in_set = a.in_set;
                  failed_listed = a.failed_listed;
                  skipped_listed = a.skipped_listed;
                })
        ]

    -- Saving and restoring the state of the device succeeds, as `Group`'s own versions do.
    abbrev pub KeepsState : Type κ
    KeepsState = (d : D) → ((cfg.save_state d).0 ≡ true) × ((cfg.restore_state d).0 ≡ true)

    module _ (keeps : KeepsState) where
      finish-Accounted :
          (s : RunState T D) (i : ℕ) (tr : TestRef) (r : TestResult) (u : RunState T D)
          → AccountedAt s i (r, u)
          → AccountedAt s i (finish env cfg r u tr)
      unfolding finish
      finish-Accounted s i tr r u a =
          elim (Bool-cases (cfg.restore && (is_last u.tst_idx || is_fail r))) [
            | inl e ↦
                rw (e, (keeps u.device).1)
                  (clean_up-Accounted s i tr r
                    (record u { device = (cfg.restore_state u.device).1 })
                    (record {
                      counted = a.counted;
                      spent = a.spent;
                      moves = a.moves;
                      in_set = a.in_set;
                      failed_listed = a.failed_listed;
                      skipped_listed = a.skipped_listed;
                    }))
            | inr e ↦ rw e (clean_up-Accounted s i tr r u a)
          ]

      run_at-Accounted :
          (s : RunState T D) (i : ℕ) (tr : TestRef) (t : T)
          → get_elem? deps i ≡ some tr
          → AccountedAt s i (run_at env cfg s i tr t)
      unfolding run_at
      run_at-Accounted s i tr t h = elim (Bool-cases (cfg.restore && i == 0)) [
        | inl e ↦
            let s' : RunState T D = record s { device = (cfg.save_state s.device).1 } in
            let out = execute env cfg s' i tr t in
            rw (e, (keeps s.device).0)
              (finish-Accounted s i tr out.0 out.1 (execute-Accounted s' i tr t h))
        | inr e ↦
            let out = execute env cfg s i tr t in
            rw e (finish-Accounted s i tr out.0 out.1 (execute-Accounted s i tr t h))
      ]

      run_ref-Accounted :
          (s : RunState T D) (i : ℕ) (tr : TestRef)
          → get_elem? deps i ≡ some tr
          → test_exists s.group tr ≡ true
          → AccountedAt s i (run_ref env cfg s i tr)
      unfolding run_ref
      run_ref-Accounted s i tr h k =
          let (t, e) =
            get_elem?-exists (cell s.group.tests tr.x_lev tr.y_lev) tr.z_lev
              (exists-in_cell s.group tr k) in
          rw (k, e) (run_at-Accounted (record s { num_skipped = 0 }) i tr t h)

      -- With test objects whose result is always passed, failed or informative and a device whose
      -- state can always be saved and restored, a call of RunTest whose index names a test that is
      -- there returns passed, failed, informative or skipping; the tests it moves past are the one
      -- it tried and the skipped ones it counts; the index stays inside the set or becomes -1; and
      -- the two lists grow by the failures and the skips that it returns.
      pub run_test-Accounted :
          (s : RunState T D) (i : ℕ) (tr : TestRef)
          → s.tst_idx ≡ some i
          → get_elem? deps i ≡ some tr
          → test_exists s.group tr ≡ true
          → AccountedAt s i (run_test env cfg s)
      unfolding run_test
      run_test-Accounted s i tr e h k =
          subst (λ idx. AccountedAt s i (run_idx env cfg s idx)) (sym e)
            (rw (h, run_idx) (run_ref-Accounted s i tr h k))
