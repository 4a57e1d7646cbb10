-- ===== src/Suite/Execute/Groups.antt =====
-- A whole group: the test set of `GetTestSet` run to its end.
use tnvme.Base.{
  ℕ, zero, suc, ◌+◌, ◌≡◌, sym, ap, ◌∙◌, inl, inr, ◌<◌, true, some, length, get_elem?-lt, ◌-◌, subst,
  arith,
}
use tnvme.Suite.Ref.{TestRef, ref}
use tnvme.Suite.Results.{TestResults, total_tests}
use tnvme.Suite.Test.{TestEnv}
use tnvme.Suite.Group.{
  Group, TestSet, get_test_set, test_exists, walk, iterator_to_test_ref, count_tests, row,
}
use tnvme.Suite.Group.Refs.{tests_of, IsFull, InGroup, FullMatrix-get, FullRow-get, length-x_refs}
use tnvme.Suite.Group.Enumerate.{InGroup-exists, refs_from_step, iterator-tests_of}
use tnvme.Suite.Group.Targets.{IsAll, get_test_set_group}
use tnvme.Suite.Run.{RunState, RunConfig}
use tnvme.Suite.Run.Counts.{left, InSet}
use tnvme.Suite.Run.Accounting.{SetsVerdicts, KeepsState}
use tnvme.Suite.Execute.{completed, run_loop}
use tnvme.Suite.Execute.Loop.{AllThere, run_loop-Complete}

module _ {ℓ} {T : Type ℓ} (g : Group T) (f : IsFull g) where
  walk-exists :
      (n x y z : ℕ) {r : TestRef}
      → InGroup g x y z
      → walk g n (ref g.grp_num x y z) ≡ some r
      → test_exists g r ≡ true
  unfolding walk
  walk-exists zero x y z {r} h e =
      subst (λ t. test_exists g t ≡ true) (ground arith) (InGroup-exists g x y z h)
  walk-exists (suc n) x y z h e = elim (refs_from_step g f x y z h) [
    | inl (q, _) ↦ absurd (ground (arith, q))
    | inr (x', y', z', h', q, _) ↦ walk-exists n x' y' z' h' (rw (q, walk) at e)
  ]

  tests_of-AllThere : AllThere (tests_of g) g
  unfolding iterator_to_test_ref
  tests_of-AllThere i tr e =
      let (a, b) = FullMatrix-get g.tests 0 f.full f.some_test in
      let c = FullRow-get (row g.tests 0) 0 b a in
      walk-exists i 0 0 0 (record { x_in = f.some_test; y_in = a; z_in = c })
        (iterator-tests_of g f i ∙ e)

  nonempty : 0 < length (tests_of g)
  unfolding iterator_to_test_ref walk
  nonempty = get_elem?-lt (tests_of g) 0 (sym (iterator-tests_of g f 0))

-- The whole group, asked for with UINT_MAX at some level: for a group whose cells all have tests,
-- with errors ignored, with test objects whose result is always passed, failed or informative, and
-- with a device whose state can always be saved and restored, the loop of ExecuteTests over the
-- set of GetTestSet, given two rounds more than the set has tests, runs to its end. The counters
-- of the report (total_tests) grow by the number of the group's tests, TR_NOTFOUND is counted
-- once, and the counters of failed and skipped tests grow as much as the two lists do.
pub run_group_accounts {ℓ κ} :
    {T : Type ℓ} {D : Type κ} (env : TestEnv T D) (cfg : RunConfig D)
    (verdicts : SetsVerdicts env cfg) (keeps : KeepsState env cfg verdicts) (s : RunState T D)
    (target : TestRef) (r : TestResults)
    → IsFull s.group
    → target.group ≡ s.group.grp_num
    → IsAll target
    → cfg.dependencies ≡ (get_test_set s.group target).dependencies
    → s.tst_idx ≡ (get_test_set s.group target).tst_idx
    → let (ending, s', r') = run_loop env cfg true (length cfg.dependencies + 2) s r in
      (ending ≡ completed)
      × (total_tests r' ≡ total_tests r + count_tests s.group.tests)
      × (r'.missing ≡ r.missing + 1)
      × (r'.failed + length s.failed_tests ≡ r.failed + length s'.failed_tests)
      × (r'.skipped + length s.skipped_tests ≡ r.skipped + length s'.skipped_tests)
run_group_accounts env cfg verdicts keeps s target r f e a d i =
    let set_eq = get_test_set_group s.group f target e a in
    let deps_eq : cfg.dependencies ≡ tests_of s.group =
      d ∙ ap (λ (t : TestSet). t.dependencies) set_eq in
    let idx_eq : s.tst_idx ≡ some 0 = i ∙ ap (λ (t : TestSet). t.tst_idx) set_eq in
    let size : length cfg.dependencies ≡ count_tests s.group.tests =
      ap length deps_eq ∙ length-x_refs s.group.grp_num 0 s.group.tests in
    let start : 0 < length cfg.dependencies = rw deps_eq (nonempty s.group f) in
    let ahead : left cfg.dependencies s.tst_idx ≡ length cfg.dependencies - 0 =
      ap (left cfg.dependencies) idx_eq in
    let there : AllThere cfg.dependencies s.group =
      subst (λ l. AllThere l s.group) (sym deps_eq) (tests_of-AllThere s.group f) in
    let c =
      run_loop-Complete env cfg verdicts keeps (length cfg.dependencies + 2) s r (omega arith)
        (subst (InSet cfg.dependencies) (sym idx_eq) start) there in
    (c.done, omega (arith, c.total), c.one_miss, c.failed_agree, c.skipped_agree)
