-- ===== src/Suite/Run/Stable.antt =====
-- `RunTest` leaves the numbers of the tests of its group as they are.
use tnvme.Base.{
  ℕ, zero, suc, ◌≡◌, refl, ap, ◌∙◌, inl, inr, ◌&&◌, ◌||◌, ◌==◌, none, some, List, [], ◌∷◌, set,
  get_elem?, Bool-cases, Option-cases,
}
use tnvme.Suite.Ref.{TestRef}
use tnvme.Suite.Results.{TestResult, fail}
use tnvme.Suite.Test.{TestEnv, RunType, run_true, run_false, run_fail, run}
use tnvme.Suite.Group.{Group, cell, TstIdx, test_exists}
use tnvme.Suite.Advance.{skipping_test}
use tnvme.Suite.Run.{
  RunState, RunConfig, put_test, put_cell, erase_at, insert_at, is_fail, is_last, after_run,
  dispatch, execute, clean_up, finish, run_at, run_ref, run_idx, run_test,
}
use tnvme.Suite.Run.Shape.{in_matrix-put_test}
use tnvme.Suite.Run.Recorded.{Records, run_test-Records}
use tnvme.Suite.Run.Counts.{SameTests}

-- To erase an element and to insert another where it was is to set it.
insert_at-erase_at {ℓ} :
    {T : Type ℓ} (l : List T) (n : ℕ) (x t : T)
    → get_elem? l n ≡ some x
    → insert_at n t (erase_at n l) ≡ set l n t
unfolding insert_at erase_at
insert_at-erase_at [] n x t e = absurd (cc)
insert_at-erase_at (y ∷ l) zero x t e = refl
insert_at-erase_at (y ∷ l) (suc n) x t e = ap (λ r. y ∷ r) (insert_at-erase_at l n x t e)

module _ {ℓ κ} {T : Type ℓ} {D : Type κ} (env : TestEnv T D) (cfg : RunConfig D) (g : Group T) where
  put_test-SameTests :
      (h : Group T) (tr : TestRef) (t : T)
      → SameTests g h
      → SameTests g (record { grp_num = h.grp_num; tests = put_test h.tests tr t })
  unfolding test_exists
  put_test-SameTests h tr t s p =
      ap (λ b. p.group == h.grp_num && b) (in_matrix-put_test h.tests tr t p.x_lev p.y_lev p.z_lev)
      ∙ s p

  -- The cell with a clone in place of the test has the same numbers.
  put_cell-SameTests :
      (h : Group T) (tr : TestRef) (x t : T)
      → get_elem? (cell h.tests tr.x_lev tr.y_lev) tr.z_lev ≡ some x
      → SameTests g h
      → let erased = erase_at tr.z_lev (cell h.tests tr.x_lev tr.y_lev) in
        SameTests g (record {
          grp_num = h.grp_num;
          tests = put_cell h.tests tr (insert_at tr.z_lev t erased);
        })
  unfolding put_cell put_test
  put_cell-SameTests h tr x t e s =
      rw (insert_at-erase_at (cell h.tests tr.x_lev tr.y_lev) tr.z_lev x t e)
        (put_test-SameTests h tr t s)

  after_run-SameTests :
      (r : TestResult) (s : RunState T D) (i : ℕ) (tr : TestRef)
      → SameTests g s.group
      → SameTests g (after_run env cfg r s i tr).1.group
  unfolding after_run
  after_run-SameTests fail s i tr h = h
  after_run-SameTests _ s i tr h = h

  dispatch-SameTests :
      (k : RunType) (s : RunState T D) (i : ℕ) (tr : TestRef) (t : T)
      → SameTests g s.group
      → SameTests g (dispatch env cfg k s i tr t).1.group
  unfolding dispatch
  dispatch-SameTests run_true s i tr t h =
      after_run-SameTests (run env t s.device).0 _ i tr (put_test-SameTests s.group tr _ h)
  dispatch-SameTests run_false s i tr t h = h
  dispatch-SameTests run_fail s i tr t h = h

  execute-SameTests :
      (s : RunState T D) (i : ℕ) (tr : TestRef) (t : T)
      → SameTests g s.group
      → SameTests g (execute env cfg s i tr t).1.group
  unfolding execute
  execute-SameTests s i tr t h = elim (Bool-cases (skipping_test tr cfg.skip_test)) [
    | inl e ↦ rw e h
    | inr e ↦ rw e (dispatch-SameTests _ _ i tr _ (put_test-SameTests s.group tr _ h))
  ]

  clean_up-SameTests :
      (s : RunState T D) (tr : TestRef)
      → SameTests g s.group
      → SameTests g (clean_up env cfg s tr).group
  unfolding clean_up
  clean_up-SameTests s tr h =
      elim (Option-cases (get_elem? (cell s.group.tests tr.x_lev tr.y_lev) tr.z_lev)) [
        | inl e ↦ rw (e, clean_up) h
        | inr (t, e) ↦ rw (e, clean_up) (put_cell-SameTests s.group tr t _ e h)
      ]

  finish-SameTests :
      (r : TestResult) (s : RunState T D) (tr : TestRef)
      → SameTests g s.group
      → SameTests g (finish env cfg r s tr).1.group
  unfolding finish
  finish-SameTests r s tr h = elim (Bool-cases (cfg.restore && (is_last s.tst_idx || is_fail r))) [
    | inl e ↦ elim (Bool-cases (cfg.restore_state s.device).0) [
      | inl f ↦
          rw (e, f) (clean_up-SameTests (record s { device = (cfg.restore_state s.device).1 }) tr h)
      | inr f ↦ rw (e, f) h
    ]
    | inr e ↦ rw e (clean_up-SameTests s tr h)
  ]

  run_at-SameTests :
      (s : RunState T D) (i : ℕ) (tr : TestRef) (t : T)
      → SameTests g s.group
      → SameTests g (run_at env cfg s i tr t).1.group
  unfolding run_at
  run_at-SameTests s i tr t h = elim (Bool-cases (cfg.restore && i == 0)) [
    | inl e ↦ elim (Bool-cases (cfg.save_state s.device).0) [
      | inl f ↦
          let s' : RunState T D = record s { device = (cfg.save_state s.device).1 } in
          rw (e, f) (finish-SameTests _ _ tr (execute-SameTests s' i tr t h))
      | inr f ↦ rw (e, f) h
    ]
    | inr e ↦ rw e (finish-SameTests _ _ tr (execute-SameTests s i tr t h))
  ]

  run_ref-SameTests :
      (s : RunState T D) (i : ℕ) (tr : TestRef)
      → SameTests g s.group
      → SameTests g (run_ref env cfg s i tr).1.group
  unfolding run_ref
  run_ref-SameTests s i tr h = elim (Bool-cases (test_exists s.group tr)) [
    | inl e ↦ elim (Option-cases (get_elem? (cell s.group.tests tr.x_lev tr.y_lev) tr.z_lev)) [
      | inl k ↦ rw (e, k, run_ref) h
      | inr (t, k) ↦ rw (e, k, run_ref) (run_at-SameTests (record s { num_skipped = 0 }) i tr t h)
    ]
    | inr e ↦ rw e h
  ]

  run_idx-SameTests :
      (s : RunState T D) (idx : TstIdx)
      → SameTests g s.group
      → SameTests g (run_idx env cfg s idx).1.group
  unfolding run_idx
  run_idx-SameTests s none h = h
  run_idx-SameTests s (some i) h = elim (Option-cases (get_elem? cfg.dependencies i)) [
    | inl e ↦ rw (e, run_idx) h
    | inr (tr, e) ↦ rw (e, run_idx) (run_ref-SameTests s i tr h)
  ]

pub run_test-SameTests {ℓ κ} :
    {T : Type ℓ} {D : Type κ} (env : TestEnv T D) (cfg : RunConfig D) (s : RunState T D)
    → SameTests s.group (run_test env cfg s).1.group
unfolding run_test
run_test-SameTests env cfg s = run_idx-SameTests env cfg s.group s s.tst_idx (λ tr. refl)

-- Whatever the test objects and the device do in a call of RunTest, TestExists then answers for
-- every test reference as it did before. If the index names a test that the group has, the failed
-- tests are the ones before and, exactly if RunTest returns TR_FAIL, this test at their end; but
-- where the state of the device is to be saved and restored, TR_FAIL with the index -1 may also
-- list nothing. Otherwise it returns TR_NOTFOUND and lists nothing.
pub run_test_keeps {ℓ κ} :
    {T : Type ℓ} {D : Type κ} (env : TestEnv T D) (cfg : RunConfig D) (s : RunState T D)
    → SameTests s.group (run_test env cfg s).1.group × Records cfg s (run_test env cfg s)
run_test_keeps env cfg s = (run_test-SameTests env cfg s, run_test-Records cfg env s)
