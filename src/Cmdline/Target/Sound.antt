-- ===== src/Cmdline/Target/Sound.antt =====
-- What `ParseTargetCmdLine` never accepts.
use tnvme.Base.{
  ℕ, zero, suc, ◌≤◌, ◌≡◌, ◌⊎◌, inl, inr, Bool, true, false, some, arith, Option-cases, Bool-cases,
}
use mathlib.Core.Bool.{false≢true}
use tnvme.Cmdline.Text.{
  Text, pos, to_long, sign, skip_space, scan, strtol, find, after, starts, ends_at, is_empty,
  long_max,
}
use tnvme.Cmdline.Target.{
  TestTarget, uint_max, level, check, parse_group, parse_group_test, parse_x, parse_y, parse_z,
  parse_target_cmd_line, all_targets, with_group, with_x, with_y, with_z,
}
use tnvme.Cmdline.Target.Print.{IsLevel, with_colon, without_colon}

-- A target of a whole group, or of one test.
abbrev pub IsTarget : TestTarget → Type 0
IsTarget target =
    IsLevel target.t.group
    × (((target.t.x_lev ≡ uint_max) × (target.t.y_lev ≡ uint_max) × (target.t.z_lev ≡ uint_max))
        ⊎ (IsLevel target.t.x_lev × IsLevel target.t.y_lev × IsLevel target.t.z_lev))

-- All levels that were read so far fit a `long`.
abbrev Fits : TestTarget → Type 0
Fits target =
    (target.t.group ≤ long_max)
    × (target.t.x_lev ≤ long_max)
    × (target.t.y_lev ≤ long_max)
    × (target.t.z_lev ≤ long_max)

abbrev Accepts : Bool × TestTarget → Type 0
Accepts r = r.0 ≡ true → IsTarget r.1

to_long-le : (negative : Bool) (n m : ℕ) → to_long negative n ≡ pos m → m ≤ long_max
unfolding to_long
to_long-le false n m h = ground arith
to_long-le true zero m h = ground arith
to_long-le true (suc n) m h = cc

strtol-le : (s : Text) (n : ℕ) → (strtol s).0 ≡ pos n → n ≤ long_max
unfolding strtol
strtol-le s n h =
    let (negative, t) = sign (skip_space s) in
    elim (Bool-cases (starts 10 t)) [
      | inl e ↦ to_long-le negative (scan 10 0 t).0 n (rw e at h)
      | inr f ↦ ground (arith, rw f at h)
    ]

level-le : (ends : Text → Bool) (s : Text) (n : ℕ) → level ends s ≡ some n → n ≤ long_max
unfolding level
level-le ends s n h = ground (arith, strtol-le s n)

check-Accepts : (target : TestTarget) → Fits target → Accepts (check target)
unfolding check
check-Accepts target fits h = ground arith

refused : (target : TestTarget) → Accepts (false, target)
refused target h = absurd (false≢true h)

parse_z-Accepts : (s : Text) (target : TestTarget) → Fits target → Accepts (parse_z s target)
unfolding parse_z
parse_z-Accepts s target fits = elim (Bool-cases (is_empty s)) [
  | inl e ↦ rw e (refused target)
  | inr f ↦ elim (Option-cases (level is_empty s)) [
    | inl e ↦ rw (f, e, parse_z) (refused target)
    | inr (n, e) ↦
        rw (f, e, parse_z)
          (check-Accepts (with_z n target) (fits.0, fits.1, fits.2, level-le is_empty s n e))
  ]
]

parse_y-Accepts : (s : Text) (target : TestTarget) → Fits target → Accepts (parse_y s target)
unfolding parse_y
parse_y-Accepts s target fits = elim (Bool-cases (is_empty s)) [
  | inl e ↦ rw e (refused target)
  | inr f ↦ elim (Option-cases (level (ends_at b'.') s)) [
    | inl e ↦ rw (f, e, parse_y) (refused target)
    | inr (n, e) ↦
        rw (f, e, parse_y)
          (parse_z-Accepts (after b'.' s) (with_y n target)
            (fits.0, fits.1, level-le _ s n e, fits.3))
  ]
]

parse_x-Accepts : (s : Text) (target : TestTarget) → Fits target → Accepts (parse_x s target)
unfolding parse_x
parse_x-Accepts s target fits = elim (Bool-cases (is_empty s)) [
  | inl e ↦ rw e (refused target)
  | inr f ↦ elim (Option-cases (level (ends_at b'.') s)) [
    | inl e ↦ rw (f, e, parse_x) (refused target)
    | inr (n, e) ↦
        rw (f, e, parse_x)
          (parse_y-Accepts (after b'.' s) (with_x n target)
            (fits.0, level-le _ s n e, fits.2, fits.3))
  ]
]

parse_group_test-Accepts : (s : Text) → Accepts (parse_group_test s all_targets)
unfolding parse_group_test
parse_group_test-Accepts s = elim (Option-cases (level (ends_at b':') s)) [
  | inl e ↦ rw (e, parse_group_test) (refused all_targets)
  | inr (n, e) ↦
      rw (e, parse_group_test)
        (parse_x-Accepts (after b':' s) (with_group n all_targets)
          (level-le _ s n e, omega arith, omega arith, omega arith))
]

parse_group-Accepts : (s : Text) → Accepts (parse_group s all_targets)
unfolding parse_group
parse_group-Accepts s = elim (Option-cases (level is_empty s)) [
  | inl e ↦ rw (e, parse_group) (refused all_targets)
  | inr (n, e) ↦
      rw (e, parse_group)
        (check-Accepts (with_group n all_targets)
          (level-le _ s n e, omega arith, omega arith, omega arith))
]

-- Whatever the text: if ParseTargetCmdLine accepts it, the group fits a long and is not UINT_MAX,
-- and the levels are either all UINT_MAX or all fit a long and are not UINT_MAX.
pub parse_target_cmd_line-IsTarget :
    (s : Text)
    → (parse_target_cmd_line (some s)).0 ≡ true
    → IsTarget (parse_target_cmd_line (some s)).1
parse_target_cmd_line-IsTarget s = elim (Option-cases (find b':' s)) [
  | inl e ↦ rw (without_colon s e) (parse_group-Accepts s)
  | inr (t, e) ↦ rw (with_colon s t e) (parse_group_test-Accepts s)
]
