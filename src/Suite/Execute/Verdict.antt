-- ===== src/Suite/Execute/Verdict.antt =====
-- What a true result of `ExecuteTests` rules out.
use tnvme.Base.{
  ℕ, zero, suc, ◌+◌, ◌≤◌, ◌<◌, ◌⊎◌, ◌≡◌, refl, inl, inr, ◌&&◌, not, Bool, true, false, List, [],
  length, get_elem?, nil_of_length, leb, ◌==◌, arith, Bool-cases, Option-cases,
}
use mathlib.Core.Bool.{false≢true}
use tnvme.Suite.Ref.{TestRef}
use tnvme.Suite.Results.{
  TestResult, success, fail, skipping, informative, not_found, fence, TestResults,
}
use tnvme.Suite.Test.{TestEnv}
use tnvme.Suite.Group.{Group, TestSet, uint_max, get_test_set}
use tnvme.Suite.Run.{RunState, RunConfig, run_test}
use tnvme.Suite.Run.Counts.{fails}
use tnvme.Suite.Run.Failures.{run_test-Listed}
use tnvme.Suite.Execute.{
  Ending, completed, early_out, abort_out, out_of_fuel, ExecConfig, ExecState, tally, loop_next,
  run_loop, target_in, exec_test_set, exec_target, exec_group, exec_groups, exec_loops, verdict,
  first_state, execute_tests,
}

tally-failed :
    (res : TestResult) (n : ℕ) (r : TestResults) → (tally res n r).failed ≡ r.failed + fails res
unfolding tally
tally-failed success n r = omega arith
tally-failed fail n r = refl
tally-failed skipping n r = omega arith
tally-failed informative n r = omega arith
tally-failed not_found n r = omega arith
tally-failed fence n r = omega arith

-- The counter of failures covers the list of failed tests.
module _ {ℓ κ} {T : Type ℓ} {D : Type κ} where
  abbrev Covers : Ending × RunState T D × TestResults → Type 0
  Covers out = length out.1.failed_tests ≤ out.2.failed

  abbrev CoversState : ExecState T D → Type 0
  CoversState e = length e.failed_tests ≤ e.results.failed

  loop_next-Covers :
      (ignore : Bool) (again : RunState T D → TestResults → Ending × RunState T D × TestResults)
      (res : TestResult) (s : RunState T D) (r : TestResults)
      → length s.failed_tests ≤ r.failed
      → Covers (again s r)
      → Covers (loop_next ignore again res s r)
  unfolding loop_next
  loop_next-Covers ignore again not_found s r h k = h
  loop_next-Covers true again fail s r h k = k
  loop_next-Covers false again fail s r h k = h
  loop_next-Covers ignore again success s r h k = k
  loop_next-Covers ignore again skipping s r h k = k
  loop_next-Covers ignore again informative s r h k = k
  loop_next-Covers ignore again fence s r h k = k

module _ {ℓ κ} {T : Type ℓ} {D : Type κ} (env : TestEnv T D) where
  run_loop-Covers :
      (cfg : RunConfig D) (ignore : Bool) (fuel : ℕ) (s : RunState T D) (r : TestResults)
      → length s.failed_tests ≤ r.failed
      → Covers (run_loop env cfg ignore fuel s r)
  unfolding run_loop
  run_loop-Covers cfg ignore zero s r h = h
  run_loop-Covers cfg ignore (suc fuel) s r h =
      let (res, s') = run_test env cfg s in
      let r' = tally res s'.num_skipped r in
      let covered : length s'.failed_tests ≤ r'.failed =
        omega (arith, run_test-Listed env cfg s, tally-failed res s'.num_skipped r) in
      loop_next-Covers ignore (run_loop env cfg ignore fuel) res s' r' covered
        (run_loop-Covers cfg ignore fuel s' r' covered)

  module _ (cl : ExecConfig D) where
    exec_test_set-Covers :
        (i : ℕ) (g : Group T) (ts : TestSet) (e : ExecState T D)
        → CoversState e
        → CoversState (exec_test_set env cl i g ts e).1
    unfolding exec_test_set
    exec_test_set-Covers i g ts e h = run_loop-Covers _ cl.ignore _ _ e.results h

    exec_target-Covers :
        (i : ℕ) (g : Group T) (target : TestRef) (e : ExecState T D)
        → CoversState e
        → CoversState (exec_target env cl i g target e).1
    unfolding exec_target
    exec_target-Covers i g target e h = elim (Bool-cases (cl.disable_completely e.device).0) [
      | inl p ↦ elim (Bool-cases (get_test_set g target).found) [
        | inl q ↦
            rw (p, q)
              (exec_test_set-Covers i g (get_test_set g target)
                (record e { device = (cl.disable_completely e.device).1 }) h)
        | inr q ↦ rw (p, q) h
      ]
      | inr p ↦ rw p h
    ]

    exec_group-Covers :
        (i : ℕ) (e : ExecState T D) → CoversState e → CoversState (exec_group env cl i e).1
    unfolding exec_group
    exec_group-Covers i e h = elim (Option-cases (target_in env cl i)) [
      | inl p ↦ rw (p, exec_group) h
      | inr (target, p) ↦ elim (Option-cases (get_elem? e.groups i)) [
        | inl q ↦ rw (p, q, exec_group) h
        | inr (g, q) ↦ rw (p, q, exec_group) (exec_target-Covers i g target e h)
      ]
    ]

    exec_groups-Covers :
        (n i : ℕ) (e : ExecState T D) → CoversState e → CoversState (exec_groups env cl n i e).1
    unfolding exec_groups
    exec_groups-Covers zero i e h = h
    exec_groups-Covers (suc n) i e h =
        ground
          (arith, exec_groups-Covers n (i + 1) (exec_group env cl i e).1, exec_group-Covers i e h)

    exec_loops-Covers :
        (n : ℕ) (e : ExecState T D) → CoversState e → CoversState (exec_loops env cl n e).1
    unfolding exec_loops
    exec_loops-Covers zero e h = h
    exec_loops-Covers (suc n) e h =
        let e' = (exec_groups env cl (length e.groups) 0 e).1 in
        ground (arith, exec_loops-Covers n e', exec_groups-Covers (length e.groups) 0 e h)

    verdict-failed :
        (ending : Ending) (r : TestResults) → verdict env cl ending r ≡ true → r.failed ≡ 0
    unfolding verdict
    verdict-failed completed r h = ground arith
    verdict-failed early_out r h = ground arith
    verdict-failed abort_out r h = absurd (ground arith)
    verdict-failed out_of_fuel r h = absurd (ground arith)

    -- For all test objects, devices and command lines: if ExecuteTests returns true, then the
    -- target group is UINT_MAX or exists, the compliance revision was accepted, no failure was
    -- counted, and the list of failed tests is empty.
    pub execute_tests-true :
        (groups : List (Group T)) (d : D)
        → (execute_tests env cl groups d).0 ≡ true
        → ((cl.target.group ≡ uint_max) ⊎ (cl.target.group < length groups))
          × (cl.spec_compatible d ≡ true)
          × ((execute_tests env cl groups d).1.results.failed ≡ 0)
          × ((execute_tests env cl groups d).1.failed_tests ≡ [])
    unfolding execute_tests
    execute_tests-true groups d h =
        elim (Bool-cases
          (not (cl.target.group == uint_max) && leb (length groups) cl.target.group)) [
            | inl e ↦ absurd (false≢true (rw e at h))
            | inr e ↦ elim (Bool-cases (not (cl.spec_compatible d))) [
              | inl f ↦ absurd (false≢true (rw (e, f) at h))
              | inr f ↦
                  let out = exec_loops env cl cl.loop (first_state groups d) in
                  let k : verdict env cl out.0 out.1.results ≡ true = rw (e, f) at h in
                  let none_failed = verdict-failed out.0 out.1.results k in
                  let covered = exec_loops-Covers cl.loop (first_state groups d) (omega arith) in
                  rw (e, f)
                    (
                      ground arith,
                      ground arith,
                      none_failed,
                      nil_of_length out.1.failed_tests (omega (arith, covered)),
                    )
            ]
          ]
