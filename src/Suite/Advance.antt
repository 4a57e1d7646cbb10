-- ===== src/Suite/Advance.antt =====
-- group.cpp: which tests a failed or skipped test takes with it (`AdvanceDependencies`), and the
-- tests that the user asked to skip (`SkippingTest`).
use tnvme.Base.{
  ℕ, suc, ◌+◌, ◌-◌, ◌<◌, inl, inr, ◌≡◌, refl, ap, ◌∙◌, Bool, true, false, ◌&&◌, ◌||◌, none, some,
  List, [], ◌∷◌, ◌++◌, length, get_elem?, drop, get_elem?-lt, take_while, length-drop, ltb, ◌==◌,
  if◌then◌else◌, arith, append_assoc, append-nil, Bool-cases,
}
use tnvme.Suite.Ref.{TestRef}
use tnvme.Suite.Group.{uint_max, TstIdx}

-- The conditions of the three loops: what runs after `dt` and depends on it.
unfoldable pub depends_on : Bool → TestRef → TestRef → Bool
depends_on failed dt st =
    if failed
    then dt.x_lev == st.x_lev
    else if dt.y_lev == 0 && dt.z_lev == 0
    then dt.x_lev == st.x_lev
    else dt.x_lev == st.x_lev && dt.y_lev == st.y_lev

-- What `AdvanceDependencies` returns, with its two output parameters.
pub record Advanced : Type 0 where
  pub count : ℕ
  pub tst_idx : TstIdx
  pub skipped_tests : List TestRef

-- The loops: `st` is the head of what is left of the test set, at index `idx`.
unfoldable pub advance_while : (TestRef → Bool) → ℕ → ℕ → List TestRef → List TestRef → Advanced
advance_while dependent orig idx skipped [] = record {
  count = 0;
  tst_idx = none;
  skipped_tests = skipped;
}
advance_while dependent orig idx skipped (st ∷ []) =
    if dependent st
    then record { count = idx + 1 - orig - 1; tst_idx = none; skipped_tests = skipped ++ (st ∷ []) }
    else record { count = idx - orig - 1; tst_idx = some idx; skipped_tests = skipped }
advance_while dependent orig idx skipped (st ∷ next ∷ rest) =
    let more = advance_while dependent orig (idx + 1) (skipped ++ (st ∷ [])) (next ∷ rest) in
    if dependent st
    then more
    else record { count = idx - orig - 1; tst_idx = some idx; skipped_tests = skipped }

-- `Group::AdvanceDependencies`
unfoldable pub advance_dependencies : List TestRef → TstIdx → Bool → List TestRef → Advanced
unfolding advance_while depends_on
advance_dependencies deps none failed skipped = record {
  count = 0;
  tst_idx = none;
  skipped_tests = skipped;
}
advance_dependencies deps (some i) failed skipped = elim (get_elem? deps i) [
  | none ↦ record { count = 0; tst_idx = none; skipped_tests = skipped }
  | some dt ↦ advance_while (depends_on failed dt) i (i + 1) skipped (drop (suc i) deps)
]

-- `Group::SkippingTest`: a test is skipped by its own number, or with its whole group.
unfoldable pub skipping_test : TestRef → List TestRef → Bool
skipping_test tr [] = false
skipping_test tr (s ∷ r) =
    if tr.group == s.group && tr.x_lev == s.x_lev && tr.y_lev == s.y_lev && tr.z_lev == s.z_lev
    then true
    else if tr.group == s.group
        && (uint_max == s.x_lev || uint_max == s.y_lev || uint_max == s.z_lev)
    then true
    else skipping_test tr r

-- The state of the set when the tests at `i + 1 .. i + n` were skipped.
abbrev pub skip_to : List TestRef → ℕ → List TestRef → List TestRef → Advanced
skip_to deps i skipped out = record {
  count = length out;
  tst_idx = if ltb (i + 1 + length out) (length deps) then some (i + 1 + length out) else none;
  skipped_tests = skipped ++ out;
}

-- The loop skips the longest run of dependents.
advance_while_lem :
    (dependent : TestRef → Bool) (orig idx : ℕ) (skipped : List TestRef) (st : TestRef)
    (rest : List TestRef)
    → orig < idx
    → let out = take_while dependent (st ∷ rest) in
      advance_while dependent orig idx skipped (st ∷ rest) ≡ record {
        count = idx + length out - orig - 1;
        tst_idx = if ltb (length out) (suc (length rest)) then some (idx + length out) else none;
        skipped_tests = skipped ++ out;
      }
unfolding advance_while
advance_while_lem dependent orig idx skipped st [] h = elim (Bool-cases (dependent st)) [
  | inl e ↦ rw (e, take_while) (ground arith)
  | inr e ↦ rw (e, take_while) (ground (arith, append-nil skipped))
]
advance_while_lem dependent orig idx skipped st (next ∷ rest) h = elim (Bool-cases (dependent st)) [
  | inl e ↦
      let out = take_while dependent (next ∷ rest) in
      rw (e, take_while)
        (ground (
          arith,
          advance_while_lem dependent orig (idx + 1) (skipped ++ (st ∷ [])) next rest,
          append_assoc skipped (st ∷ []) out,
        ))
  | inr e ↦ rw (e, take_while) (ground (arith, append-nil skipped))
]

advance_while_all :
    (dependent : TestRef → Bool) (deps : List TestRef) (i : ℕ) (skipped rest : List TestRef)
    → i < length deps
    → drop (suc i) deps ≡ rest
    → advance_while dependent i (i + 1) skipped rest
      ≡ skip_to deps i skipped (take_while dependent rest)
unfolding advance_while
advance_while_all dependent deps i skipped [] h e =
    let short : length deps - suc i ≡ 0 = omega (arith, ap length e, length-drop (suc i) deps) in
    ground (arith, short, append-nil skipped)
advance_while_all dependent deps i skipped (st ∷ rest) h e =
    let out = take_while dependent (st ∷ rest) in
    let size : length deps ≡ i + 2 + length rest =
      omega (arith, ap length e, length-drop (suc i) deps) in
    advance_while_lem dependent i (i + 1) skipped st rest (omega arith) ∙ ground (arith, size)

-- From an index inside the set, AdvanceDependencies skips exactly the tests behind the current one
-- up to the first that does not depend on it: it appends them in order to the skipped tests,
-- counts them, and leaves the index at that first independent test, or at -1 if there is none.
pub advance_dependencies_lem :
    (deps : List TestRef) (i : ℕ) (failed : Bool) (skipped : List TestRef) {dt : TestRef}
    → get_elem? deps i ≡ some dt
    → advance_dependencies deps (some i) failed skipped
      ≡ skip_to deps i skipped (take_while (depends_on failed dt) (drop (suc i) deps))
unfolding advance_dependencies
advance_dependencies_lem deps i failed skipped {dt} h =
    rw (h, advance_dependencies)
      (advance_while_all (depends_on failed dt) deps i skipped (drop (suc i) deps)
        (get_elem?-lt deps i h) refl)
