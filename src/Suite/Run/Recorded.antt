-- ===== src/Suite/Run/Recorded.antt =====
-- What a call of `RunTest` adds to the list of failed tests.
use tnvme.Base.{
  ℕ, ◌≡◌, ◌⊎◌, refl, Bool, true, false, inl, inr, ◌&&◌, ◌||◌, ◌==◌, Option, none, some, List, [],
  ◌∷◌, ◌++◌, get_elem?, get_elem?-exists, sym, subst, arith, Bool-cases, Option-cases,
}
use tnvme.Suite.Ref.{TestRef}
use tnvme.Suite.Results.{TestResult, success, fail, skipping, informative, not_found, fence}
use tnvme.Suite.Test.{TestEnv, RunType, run_true, run_false, run_fail, run}
use tnvme.Suite.Group.{cell, TstIdx, test_exists}
use tnvme.Suite.Advance.{skipping_test}
use tnvme.Suite.Run.{
  RunState, RunConfig, is_fail, is_last, fail_this, after_run, dispatch, execute, clean_up, finish,
  run_at, run_ref, run_idx, run_test,
}
use tnvme.Suite.Run.Counts.{exists-in_cell}

no_entry {ℓ ℓ'} : {A : Type ℓ} {P : Type ℓ'} {o : Option A} {a : A} → o ≡ none → o ≡ some a → P
no_entry e f = cc

module _ {ℓ κ} {T : Type ℓ} {D : Type κ} (cfg : RunConfig D) where
  -- What was listed of a test: nothing, and it did not fail; the test, and it failed; or nothing, as
  -- the state of the device could not be saved or restored and no test is next.
  abbrev pub Recorded : List TestRef → TestRef → TestResult × RunState T D → Type 0
  Recorded old tr out =
      ((is_fail out.0 ≡ false) × (out.1.failed_tests ≡ old))
      ⊎ (((out.0 ≡ fail) × (out.1.failed_tests ≡ old ++ (tr ∷ [])))
          ⊎ ((out.0 ≡ fail)
              × (out.1.failed_tests ≡ old)
              × (cfg.restore ≡ true)
              × (out.1.tst_idx ≡ none)))

  -- For the test at the current index, if the group has it; otherwise nothing is listed.
  abbrev pub Records : RunState T D → TestResult × RunState T D → Type 0
  Records s out =
      ((i : ℕ) × (tr : TestRef) × (s.tst_idx ≡ some i)
        × (get_elem? cfg.dependencies i ≡ some tr)
        × (test_exists s.group tr ≡ true)
        × Recorded s.failed_tests tr out)
      ⊎ ((out.0 ≡ not_found)
          × (out.1.failed_tests ≡ s.failed_tests)
          × (((i : ℕ)
              → s.tst_idx ≡ some i
              → (tr : TestRef) → get_elem? cfg.dependencies i ≡ some tr
              → test_exists s.group tr ≡ false)))

  module _ (env : TestEnv T D) where
    after_run-Recorded :
        (r : TestResult) (s : RunState T D) (i : ℕ) (tr : TestRef)
        → Recorded s.failed_tests tr (after_run env cfg r s i tr)
    unfolding after_run is_fail fail_this
    after_run-Recorded fail s i tr = inr (inl (refl, refl))
    after_run-Recorded success s i tr = inl (refl, refl)
    after_run-Recorded skipping s i tr = inl (refl, refl)
    after_run-Recorded informative s i tr = inl (refl, refl)
    after_run-Recorded not_found s i tr = inl (refl, refl)
    after_run-Recorded fence s i tr = inl (refl, refl)

    dispatch-Recorded :
        (k : RunType) (s : RunState T D) (i : ℕ) (tr : TestRef) (t : T)
        → Recorded s.failed_tests tr (dispatch env cfg k s i tr t)
    unfolding dispatch is_fail fail_this
    dispatch-Recorded run_true s i tr t = after_run-Recorded (run env t s.device).0 _ i tr
    dispatch-Recorded run_false s i tr t = inl (refl, refl)
    dispatch-Recorded run_fail s i tr t = inr (inl (refl, refl))

    execute-Recorded :
        (s : RunState T D) (i : ℕ) (tr : TestRef) (t : T)
        → Recorded s.failed_tests tr (execute env cfg s i tr t)
    unfolding execute is_fail
    execute-Recorded s i tr t = elim (Bool-cases (skipping_test tr cfg.skip_test)) [
      | inl e ↦ rw e (inl (refl, refl))
      | inr e ↦ rw e (dispatch-Recorded _ _ i tr _)
    ]

    failed-clean_up :
        (s : RunState T D) (tr : TestRef) → (clean_up env cfg s tr).failed_tests ≡ s.failed_tests
    unfolding clean_up
    failed-clean_up s tr = ground arith

    idx-clean_up : (s : RunState T D) (tr : TestRef) → (clean_up env cfg s tr).tst_idx ≡ s.tst_idx
    unfolding clean_up
    idx-clean_up s tr = ground arith

    clean_up-Recorded :
        (old : List TestRef) (r : TestResult) (u : RunState T D) (tr : TestRef)
        → Recorded old tr (r, u)
        → Recorded old tr (r, clean_up env cfg u tr)
    clean_up-Recorded old r u tr h = rw (failed-clean_up u tr, idx-clean_up u tr) h

    -- A state that could not be restored.
    unrestored-Recorded :
        (old : List TestRef) (r : TestResult) (u : RunState T D) (d : D) (tr : TestRef)
        → cfg.restore ≡ true
        → Recorded old tr (r, u)
        → Recorded old tr (fail, record u { device = d; tst_idx = none })
    unrestored-Recorded old r u d tr c (inl (_, e)) = inr (inr (refl, e, c, refl))
    unrestored-Recorded old r u d tr c (inr (inl (_, e))) = inr (inl (refl, e))
    unrestored-Recorded old r u d tr c (inr (inr (_, e, _, _))) = inr (inr (refl, e, c, refl))

    restores : (b c : Bool) → (b && c) ≡ true → b ≡ true
    restores b c e = ground arith

    finish-Recorded :
        (old : List TestRef) (r : TestResult) (u : RunState T D) (tr : TestRef)
        → Recorded old tr (r, u)
        → Recorded old tr (finish env cfg r u tr)
    unfolding finish
    finish-Recorded old r u tr h =
        elim (Bool-cases (cfg.restore && (is_last u.tst_idx || is_fail r))) [
          | inl e ↦ elim (Bool-cases (cfg.restore_state u.device).0) [
            | inl f ↦
                let u' : RunState T D = record u { device = (cfg.restore_state u.device).1 } in
                rw (e, f) (clean_up-Recorded old r u' tr h)
            | inr f ↦
                rw (e, f)
                  (unrestored-Recorded old r u (cfg.restore_state u.device).1 tr (restores _ _ e) h)
          ]
          | inr e ↦ rw e (clean_up-Recorded old r u tr h)
        ]

    run_at-Recorded :
        (s : RunState T D) (i : ℕ) (tr : TestRef) (t : T)
        → Recorded s.failed_tests tr (run_at env cfg s i tr t)
    unfolding run_at
    run_at-Recorded s i tr t = elim (Bool-cases (cfg.restore && i == 0)) [
      | inl e ↦ elim (Bool-cases (cfg.save_state s.device).0) [
        | inl f ↦
            let s' : RunState T D = record s { device = (cfg.save_state s.device).1 } in
            let out = execute env cfg s' i tr t in
            rw (e, f) (finish-Recorded s.failed_tests out.0 out.1 tr (execute-Recorded s' i tr t))
        | inr f ↦ rw (e, f) (inr (inr (refl, refl, restores _ _ e, refl)))
      ]
      | inr e ↦
          let out = execute env cfg s i tr t in
          rw e (finish-Recorded s.failed_tests out.0 out.1 tr (execute-Recorded s i tr t))
    ]

    run_ref-Records :
        (s : RunState T D) (i : ℕ) (tr : TestRef)
        → s.tst_idx ≡ some i
        → get_elem? cfg.dependencies i ≡ some tr
        → Records s (run_ref env cfg s i tr)
    unfolding run_ref
    run_ref-Records s i tr at_i at_tr = elim (Bool-cases (test_exists s.group tr)) [
      | inl e ↦
          let (t, k) =
            get_elem?-exists (cell s.group.tests tr.x_lev tr.y_lev) tr.z_lev
              (exists-in_cell s.group tr e) in
          inl (
            i,
            tr,
            at_i,
            at_tr,
            e,
            rw (e, k) (run_at-Recorded (record s { num_skipped = 0 }) i tr t),
          )
      | inr e ↦ inr (
        rw e refl,
        rw e refl,
        λ j at_j tr' at_tr'. let same : i ≡ j = cc in let same' : tr ≡ tr' = cc in rw⁻¹ same' e,
      )
    ]

    run_idx-Records :
        (s : RunState T D) (idx : TstIdx) → s.tst_idx ≡ idx → Records s (run_idx env cfg s idx)
    unfolding run_idx
    run_idx-Records s none e = inr (refl, refl, λ i f. no_entry e f)
    run_idx-Records s (some i) e = elim (Option-cases (get_elem? cfg.dependencies i)) [
      | inl k ↦ inr (
        rw (run_idx, k) refl,
        rw (run_idx, k) refl,
        λ j f p g.
            let same : i ≡ j = cc in
            no_entry k (subst (λ n. get_elem? cfg.dependencies n ≡ some p) (sym same) g),
      )
      | inr (p, k) ↦ rw (run_idx, k) (run_ref-Records s i p e k)
    ]

    pub run_test-Records : (s : RunState T D) → Records s (run_test env cfg s)
    unfolding run_test
    run_test-Records s = run_idx-Records s s.tst_idx refl
