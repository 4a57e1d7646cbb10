-- ===== src/Suite/Execute.antt =====
-- tnvme.cpp, `ExecuteTests`: the loops over the iterations, the groups and the tests of each
-- group's test set.
pub mod Loop
pub mod Verdict
pub mod Groups
use tnvme.Base.{
  ℕ, zero, suc, ◌+◌, ◌≡◌, Bool, true, false, not, ◌&&◌, Option, none, some, List, [], length,
  get_elem?, set, leb, ◌==◌, if◌then◌else◌,
}
use tnvme.Suite.Ref.{TestRef, ref}
use tnvme.Suite.Results.{
  TestResult, success, fail, skipping, informative, not_found, fence, TestResults, add_result,
  all_tests_pass, no_results,
}
use tnvme.Suite.Test.{TestEnv}
use tnvme.Suite.Group.{Group, TestSet, uint_max, get_test_set}
use tnvme.Suite.Run.{RunState, RunConfig, run_test}

-- How a loop ends: by its condition, at `goto EARLY_OUT`, at `goto ABORT_OUT`; the last is a loop
-- of the model whose rounds do not suffice.
pub data Ending : Type 0 where
  completed early_out abort_out out_of_fuel : Ending

-- What `ExecuteTests` reads of the command line, and what it asks of the device.
pub record ExecConfig {κ} (D : Type κ) : Type κ where
  pub target : TestRef
  pub loop : ℕ
  pub skip_test : List TestRef
  pub preserve : Bool
  pub restore : Bool
  pub ignore : Bool
  -- `VerifySpecCompatibility(cl.rev)`
  pub spec_compatible : D → Bool
  -- `gCtrlrConfig->SetState(ST_DISABLE_COMPLETELY)`
  pub disable_completely : D → Bool × D
  -- the virtual `SaveState` and `RestoreState` of each group
  pub save_state : ℕ → D → Bool × D
  pub restore_state : ℕ → D → Bool × D

pub record ExecState {ℓ κ} (T : Type ℓ) (D : Type κ) : Type (ℓ ⊔ κ) where
  pub groups : List (Group T)
  pub device : D
  pub results : TestResults
  pub num_grps : ℕ
  pub failed_tests : List TestRef
  pub skipped_tests : List TestRef

-- The local variables at the start.
abbrev pub first_state {ℓ κ} : {T : Type ℓ} {D : Type κ} → List (Group T) → D → ExecState T D
first_state groups d = record {
  groups = groups;
  device = d;
  results = no_results;
  num_grps = 0;
  failed_tests = [];
  skipped_tests = [];
}

-- What the loop over a test set does with the result of one call of `RunTest`.
unfoldable pub tally : TestResult → ℕ → TestResults → TestResults
unfolding add_result
tally skipping n r = add_result skipping n r
tally fail n r = add_result skipping n (add_result fail 1 r)
tally res n r = add_result res 1 r

-- The end of a round of the loop over a test set, whose next round is `again`.
unfoldable pub loop_next {ℓ κ} :
    {S : Type ℓ} {R : Type κ}
    → Bool
    → (S → R → Ending × S × R)
    → TestResult
    → S
    → R
    → Ending × S × R
loop_next ignore again not_found s r = (completed, s, r)
loop_next ignore again fail s r = elim ignore [ true ↦ again s r | false ↦ (early_out, s, r) ]
loop_next ignore again _ s r = again s r

module _ {ℓ κ} {T : Type ℓ} {D : Type κ} (env : TestEnv T D) where
  -- `while (result != TR_NOTFOUND)`
  unfoldable pub run_loop :
      RunConfig D → Bool → ℕ → RunState T D → TestResults → Ending × RunState T D × TestResults
  unfolding tally loop_next
  run_loop cfg ignore zero s r = (out_of_fuel, s, r)
  run_loop cfg ignore (suc fuel) s r =
      let (res, s') = run_test env cfg s in
      loop_next ignore (run_loop cfg ignore fuel) res s' (tally res s'.num_skipped r)

  module _ (cl : ExecConfig D) where
    -- The target in group `i`, if that group is to run.
    unfoldable pub target_in : ℕ → Option TestRef
    target_in i =
        if cl.target.group == uint_max
        then some (ref i uint_max uint_max uint_max)
        else if i == cl.target.group
        then some (ref i cl.target.x_lev cl.target.y_lev cl.target.z_lev)
        else none

    unfoldable pub run_config : ℕ → List TestRef → RunConfig D
    run_config i deps = record {
      dependencies = deps;
      skip_test = cl.skip_test;
      preserve = cl.preserve;
      restore = cl.restore;
      save_state = cl.save_state i;
      restore_state = cl.restore_state i;
    }

    -- The tests of a test set; one round more than there are tests finds the end.
    unfoldable pub exec_test_set : ℕ → Group T → TestSet → ExecState T D → Ending × ExecState T D
    unfolding run_config run_loop
    exec_test_set i g ts e =
        let start : RunState T D = record {
          group = g;
          device = e.device;
          tst_idx = ts.tst_idx;
          num_skipped = 0;
          failed_tests = e.failed_tests;
          skipped_tests = e.skipped_tests;
        } in
        let (ending, s, r) =
          run_loop (run_config i ts.dependencies) cl.ignore (length ts.dependencies + 2) start
            e.results in
        (
          ending,
          record {
            groups = set e.groups i s.group;
            device = s.device;
            results = r;
            num_grps = e.num_grps + 1;
            failed_tests = s.failed_tests;
            skipped_tests = s.skipped_tests;
          },
        )

    -- Group `i` under a target of its own, from a disabled controller.
    unfoldable pub exec_target : ℕ → Group T → TestRef → ExecState T D → Ending × ExecState T D
    unfolding exec_test_set
    exec_target i g target e =
        let (disabled, d) = cl.disable_completely e.device in
        let ts = get_test_set g target in
        if disabled
        then (if ts.found
            then exec_test_set i g ts (record e { device = d })
            else (abort_out, record e { device = d }))
        else (abort_out, record e { device = d })

    -- One round of the loop over the groups.
    unfoldable pub exec_group : ℕ → ExecState T D → Ending × ExecState T D
    unfolding target_in exec_target
    exec_group i e = elim (target_in i) [
      | none ↦ (completed, e)
      | some target ↦ elim (get_elem? e.groups i) [
        | none ↦ (completed, e)
        | some g ↦ exec_target i g target e
      ]
    ]

    -- The loop over the groups, by the rounds that are left.
    unfoldable pub exec_groups : ℕ → ℕ → ExecState T D → Ending × ExecState T D
    unfolding exec_group
    exec_groups zero i e = (completed, e)
    exec_groups (suc n) i e =
        let (ending, e') = exec_group i e in
        elim ending [ completed ↦ exec_groups n (i + 1) e' | other ↦ (other, e') ]

    -- The loop over the iterations.
    unfoldable pub exec_loops : ℕ → ExecState T D → Ending × ExecState T D
    unfolding exec_groups
    exec_loops zero e = (completed, e)
    exec_loops (suc n) e =
        let (ending, e') = exec_groups (length e.groups) 0 e in
        elim ending [ completed ↦ exec_loops n e' | other ↦ (other, e') ]

    -- The value returned at each label.
    unfoldable pub verdict : Ending → TestResults → Bool
    unfolding all_tests_pass
    verdict completed r = all_tests_pass r
    verdict early_out r = all_tests_pass r
    verdict abort_out r = false
    verdict out_of_fuel r = false

    -- `ExecuteTests`, from the groups and the device as they are.
    unfoldable pub execute_tests : List (Group T) → D → Bool × ExecState T D
    unfolding exec_loops verdict
    execute_tests groups d =
        let (ending, e) = exec_loops cl.loop (first_state groups d) in
        if not (cl.target.group == uint_max) && leb (length groups) cl.target.group
        then (false, first_state groups d)
        else if not (cl.spec_compatible d)
        then (false, first_state groups d)
        else (verdict ending e.results, e)
