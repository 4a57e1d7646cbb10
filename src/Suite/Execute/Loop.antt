-- ===== src/Suite/Execute/Loop.antt =====
-- The loop over a test set runs to its end, and its counters account for every test.
use tnvme.Base.{
  ℕ, zero, suc, ◌+◌, ◌-◌, ◌≡◌, refl, ap, ◌∙◌, inl, inr, ◌<◌, true, none, some, List, length,
  get_elem?, get_elem?-exists, subst, arith, Option-cases,
}
use tnvme.Suite.Ref.{TestRef}
use tnvme.Suite.Results.{
  TestResult, success, fail, skipping, informative, not_found, fence, TestResults, total_tests,
}
use tnvme.Suite.Test.{TestEnv}
use tnvme.Suite.Group.{Group, test_exists}
use tnvme.Suite.Run.{RunState, RunConfig, run_test, run_idx}
use tnvme.Suite.Run.Counts.{left, InSet, cost, skips, fails, IsCounted}
use tnvme.Suite.Run.Accounting.{Accounted, SetsVerdicts, KeepsState, run_test-Accounted}
use tnvme.Suite.Run.Stable.{run_test-SameTests}
use tnvme.Suite.Execute.{Ending, completed, tally, loop_next, run_loop}

-- Every test of the set is in the group.
abbrev pub AllThere {ℓ} : {T : Type ℓ} → List TestRef → Group T → Type 0
AllThere deps g = (i : ℕ) (tr : TestRef) → get_elem? deps i ≡ some tr → test_exists g tr ≡ true

-- The counters after one result: the pairs are equations for the total and for each counter that
-- the lists must agree with.
tally_counts :
    (res : TestResult) (n : ℕ) (r : TestResults)
    → IsCounted res
    → (total_tests (tally res n r) ≡ total_tests r + cost res n)
      × ((tally res n r).missing ≡ r.missing)
      × ((tally res n r).failed ≡ r.failed + fails res)
      × ((tally res n r).skipped ≡ r.skipped + skips res n)
unfolding tally total_tests
tally_counts success n r h = omega arith
tally_counts fail n r h = omega arith
tally_counts skipping n r h = omega arith
tally_counts informative n r h = omega arith
tally_counts not_found n r h = absurd (ground arith)
tally_counts fence n r h = absurd (ground arith)

module _ {ℓ κ} {T : Type ℓ} {D : Type κ} (deps : List TestRef) where
  -- The loop from `s` with the counters `r` ended at `out`: every test that was left is in one of
  -- the counters, and the counters of failures and skips grew as the two lists did.
  pub record Complete (s : RunState T D) (r : TestResults)
      (out : Ending × RunState T D × TestResults) : Type 0 where
    pub done : out.0 ≡ completed
    pub total : total_tests out.2 ≡ total_tests r + left deps s.tst_idx
    pub one_miss : out.2.missing ≡ r.missing + 1
    pub failed_agree : out.2.failed + length s.failed_tests ≡ r.failed + length out.1.failed_tests
    pub skipped_agree :
        out.2.skipped + length s.skipped_tests ≡ r.skipped + length out.1.skipped_tests

  continue-Complete :
      (s s' : RunState T D) (i : ℕ) (res : TestResult) (r : TestResults)
      (out : Ending × RunState T D × TestResults)
      → s.tst_idx ≡ some i
      → Accounted deps (length s.failed_tests) (length s.skipped_tests) i (res, s')
      → Complete s' (tally res s'.num_skipped r) out
      → Complete s r out
  continue-Complete s s' i res r out e a c =
      let (total, missing, failed, skipped) = tally_counts res s'.num_skipped r a.counted in
      let ahead : left deps s.tst_idx ≡ length deps - i = ap (left deps) e in
      record {
        done = c.done;
        total = omega (arith, c.total, a.spent);
        one_miss = omega (arith, c.one_miss);
        failed_agree = omega (arith, c.failed_agree, a.failed_listed);
        skipped_agree = omega (arith, c.skipped_agree, a.skipped_listed);
      }

loop_next-counted {ℓ κ} :
    {S : Type ℓ} {R : Type κ} (again : S → R → Ending × S × R) (res : TestResult) (s : S) (r : R)
    → IsCounted res
    → loop_next true again res s r ≡ again s r
unfolding loop_next
loop_next-counted again success s r c = refl
loop_next-counted again fail s r c = refl
loop_next-counted again skipping s r c = refl
loop_next-counted again informative s r c = refl
loop_next-counted again not_found s r c = absurd (ground arith)
loop_next-counted again fence s r c = absurd (ground arith)

module _ {ℓ κ} {T : Type ℓ} {D : Type κ} (env : TestEnv T D) (cfg : RunConfig D) where
  abbrev deps : List TestRef
  deps = cfg.dependencies

  end_of_set_test :
      (s : RunState T D)
      → s.tst_idx ≡ none
      → run_test env cfg s ≡ (not_found, record s { tst_idx = none; num_skipped = 0 })
  unfolding run_test run_idx
  end_of_set_test s e = ap (run_idx env cfg s) e

  end_of_set :
      (fuel : ℕ) (s : RunState T D) (r : TestResults)
      → s.tst_idx ≡ none
      → Complete deps s r (run_loop env cfg true (suc fuel) s r)
  unfolding run_loop total_tests
  end_of_set fuel s r e =
      let ahead : left deps s.tst_idx ≡ 0 = ap (left deps) e in
      rw (end_of_set_test s e) (record {
        done = refl;
        total = omega arith;
        one_miss = refl;
        failed_agree = refl;
        skipped_agree = refl;
      })

  AllThere-after :
      (s : RunState T D) → AllThere deps s.group → AllThere deps (run_test env cfg s).1.group
  AllThere-after s h i tr e = run_test-SameTests env cfg s tr ∙ h i tr e

  module _ (verdicts : SetsVerdicts env cfg) (keeps : KeepsState env cfg verdicts) where
    -- With errors ignored, a loop from an index of the set, with one round more than there are tests
    -- ahead, ends by its condition and accounts for each of them.
    pub run_loop-Complete :
        (fuel : ℕ) (s : RunState T D) (r : TestResults)
        → left deps s.tst_idx < fuel
        → InSet deps s.tst_idx
        → AllThere deps s.group
        → Complete deps s r (run_loop env cfg true fuel s r)
    unfolding run_loop
    run_loop-Complete zero s r h k t = absurd (omega arith)
    run_loop-Complete (suc fuel) s r h k t = elim (Option-cases s.tst_idx) [
      | inl e ↦ end_of_set fuel s r e
      | inr (i, e) ↦
          let inside : i < length deps = subst (InSet deps) e k in
          let (tr, f) = get_elem?-exists deps i inside in
          let a = run_test-Accounted env cfg verdicts keeps s i tr e f (t i tr f) in
          let ahead : left deps s.tst_idx ≡ length deps - i = ap (left deps) e in
          let (res, s') = run_test env cfg s in
          let r' = tally res s'.num_skipped r in
          let out = run_loop env cfg true fuel s' r' in
          rw (loop_next-counted (run_loop env cfg true fuel) res s' r' a.counted) (
            continue-Complete deps s s' i res r out e a (
              run_loop-Complete fuel s' r' (omega (arith, a.spent, a.moves)) a.in_set
                (AllThere-after s t)))
    ]
