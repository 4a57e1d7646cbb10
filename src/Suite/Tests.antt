-- ===== src/Suite/Tests.antt =====
-- The theorems about running tests at a small group: three cells with one or two tests each, a
-- test class whose test number 2 fails, and a device that counts what is done to it.
use tnvme.Base.{
  ℕ, ◌+◌, ◌≡◌, ◌<◌, ◌⊎◌, length, refl, inl, true, false, some, List, [], ◌∷◌, ◌==◌, if◌then◌else◌,
  arith,
}
use tnvme.Suite.Ref.{TestRef, ref}
use tnvme.Suite.Results.{TestResult, success, fail, no_results, total_tests}
use tnvme.Suite.Test.{run_true, TestEnv, runnable, run, get_status_reg_errors}
use tnvme.Suite.Group.{uint_max, Group, count_tests, get_test_set, iterator_to_test_ref}
use tnvme.Suite.Group.Refs.{IsFull, InGroup}
use tnvme.Suite.Group.Enumerate.{iterator-tests_of}
use tnvme.Suite.Group.Targets.{IsAll, get_test_set_target, get_test_set_group}
use tnvme.Suite.Advance.{depends_on, skipping_test, advance_dependencies, advance_dependencies_lem}
use tnvme.Suite.Run.{RunState, RunConfig, run_test, put_test, put_cell, insert_at, erase_at}
use tnvme.Suite.Run.Counts.{SameTests}
use tnvme.Suite.Run.Accounting.{SetsVerdicts, KeepsState, AccountedAt, run_test-Accounted}
use tnvme.Suite.Run.Recorded.{Records}
use tnvme.Suite.Run.Stable.{run_test_keeps}
use tnvme.Suite.Execute.{ExecConfig, completed, run_loop, execute_tests}
use tnvme.Suite.Execute.Groups.{run_group_accounts}
use tnvme.Suite.Execute.Verdict.{execute_tests-true}

abbrev verdict_of : ℕ → TestResult
verdict_of t = if t == 2 then fail else success

abbrev env : TestEnv ℕ ℕ
env = record {
  run_core_test = λ t d. (true, t, d + 1);
  runnable_core_test = λ t p d. (some run_true, t, d);
  result = verdict_of;
  clone = λ t. t;
  read_reg = λ r d. (some 0, d);
  write_reg = λ r v d. d + 1;
  capabilities = [];
  error_regs = record { sts = 0; pxds = 0; aeruces = 0; csts = 0 };
  dump_kernel_metrics = λ t d. (true, d);
}

abbrev small_group : Group ℕ
small_group = record {
  grp_num = 1;
  tests = ((0 ∷ 1 ∷ []) ∷ (2 ∷ 3 ∷ []) ∷ []) ∷ ((4 ∷ []) ∷ []) ∷ [];
}

abbrev whole : TestRef
whole = ref 1 uint_max uint_max uint_max

abbrev small_refs : List TestRef
small_refs = ref 1 0 0 0 ∷ ref 1 0 0 1 ∷ ref 1 0 1 0 ∷ ref 1 0 1 1 ∷ ref 1 1 0 0 ∷ []

abbrev cfg : RunConfig ℕ
cfg = record {
  dependencies = (get_test_set small_group whole).dependencies;
  skip_test = [];
  preserve = false;
  restore = true;
  save_state = λ d. (true, d);
  restore_state = λ d. (true, d);
}

abbrev start : RunState ℕ ℕ
start = record {
  group = small_group;
  device = 0;
  tst_idx = (get_test_set small_group whole).tst_idx;
  num_skipped = 0;
  failed_tests = [];
  skipped_tests = [];
}

small_group-IsFull : IsFull small_group
small_group-IsFull = record {
  some_test = omega arith;
  full = (omega arith, (omega arith, (omega arith, tt)), (omega arith, (omega arith, tt), tt));
}

env-SetsVerdicts : SetsVerdicts env cfg
env-SetsVerdicts t = ground arith

cfg-KeepsState : KeepsState env cfg env-SetsVerdicts
cfg-KeepsState d = (refl, refl)

whole-IsAll : IsAll whole
whole-IsAll = inl refl

run_group_accounts_example :
    let (ending, s', r') = run_loop env cfg true (length cfg.dependencies + 2) start no_results in
    (ending ≡ completed)
    × (total_tests r' ≡ total_tests no_results + count_tests small_group.tests)
    × (r'.missing ≡ 0 + 1)
    × (r'.failed + 0 ≡ 0 + length s'.failed_tests)
    × (r'.skipped + 0 ≡ 0 + length s'.skipped_tests)
run_group_accounts_example =
    run_group_accounts env cfg env-SetsVerdicts cfg-KeepsState start whole no_results
      small_group-IsFull refl whole-IsAll refl refl

-- One group that passes, by a command line that asks for all of it twice.
abbrev good_group : Group ℕ
good_group = record { grp_num = 0; tests = ((0 ∷ 1 ∷ []) ∷ []) ∷ [] }

abbrev command_line : ExecConfig ℕ
command_line = record {
  target = ref uint_max uint_max uint_max uint_max;
  loop = 2;
  skip_test = [];
  preserve = false;
  restore = false;
  ignore = false;
  spec_compatible = λ d. true;
  disable_completely = λ d. (true, d);
  save_state = λ i d. (true, d);
  restore_state = λ i d. (true, d);
}

execute_tests-true_example :
    ((command_line.target.group ≡ uint_max) ⊎ (command_line.target.group < 1))
    × (command_line.spec_compatible 0 ≡ true)
    × ((execute_tests env command_line (good_group ∷ []) 0).1.results.failed ≡ 0)
    × ((execute_tests env command_line (good_group ∷ []) 0).1.failed_tests ≡ [])
unfolding execute_tests get_test_set run_test skipping_test runnable run get_status_reg_errors
    put_test put_cell insert_at erase_at
execute_tests-true_example = execute_tests-true env command_line (good_group ∷ []) 0 refl

there : InGroup small_group 0 1 1
there = record { x_in = omega arith; y_in = omega arith; z_in = omega arith }

get_test_set_target_example : get_test_set small_group (ref 1 0 1 1) ≡ record {
  found = true;
  dependencies = ref 1 0 0 0 ∷ ref 1 0 1 0 ∷ ref 1 0 1 1 ∷ [];
  tst_idx = some 0;
}
get_test_set_target_example =
    get_test_set_target small_group small_group-IsFull 0 1 1 there (λ e. omega arith)
      (λ e. omega arith) (λ e. omega arith)

get_test_set_group_example :
    get_test_set small_group whole
    ≡ record { found = true; dependencies = small_refs; tst_idx = some 0 }
get_test_set_group_example =
    get_test_set_group small_group small_group-IsFull whole refl whole-IsAll

iterator-tests_of_example : iterator_to_test_ref small_group 3 ≡ some (ref 1 0 1 1)
iterator-tests_of_example = iterator-tests_of small_group small_group-IsFull 3

third : iterator_to_test_ref small_group 3 ≡ some (ref 1 0 1 1)
third = iterator-tests_of small_group small_group-IsFull 3

abbrev index : ℕ
index = 3

-- Test 1:0.1.0 failed: 1:0.1.1 behind it depends on it, 1:1.0.0 does not.
advance_dependencies_lem_example :
    advance_dependencies small_refs (some 2) true []
    ≡ record { count = 1; tst_idx = some 4; skipped_tests = ref 1 0 1 1 ∷ [] }
unfolding depends_on
advance_dependencies_lem_example = advance_dependencies_lem small_refs 2 true [] refl

run_test-Accounted_example : AccountedAt env cfg start 0 (run_test env cfg start)
unfolding get_test_set
run_test-Accounted_example =
    run_test-Accounted env cfg env-SetsVerdicts cfg-KeepsState start 0 (ref 1 0 0 0) refl refl refl

run_test_keeps_example :
    SameTests small_group (run_test env cfg start).1.group
    × Records cfg start (run_test env cfg start)
run_test_keeps_example = run_test_keeps env cfg start
