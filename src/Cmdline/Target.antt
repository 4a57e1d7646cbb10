-- ===== src/Cmdline/Target.antt =====
-- `ParseTargetCmdLine`: the target of a run, a group or a test.
pub mod Print
pub mod Sound
use tnvme.Base.{
  ℕ, ◌-◌, ◌^◌, Bool, true, false, not, ◌&&◌, ◌||◌, Option, none, some, ◌==◌, if◌then◌else◌,
}
use tnvme.Suite.Ref.{TestRef, ref}
use tnvme.Cmdline.Text.{Text, ℤ, pos, negsuc, strtol, find, after, ends_at, is_empty}

-- `struct TestTarget`
pub record TestTarget : Type 0 where
  pub req : Bool
  pub t : TestRef

abbrev pub uint_max : ℕ
uint_max = 2 ^ 32 - 1

-- A number of one level, up to the separator or the end that `ends` wants; `none` is an error.
unfoldable pub level : (Text → Bool) → Text → Option ℕ
level ends s =
    let (tmp, endptr) = strtol s in
    if not (ends endptr) then none else elim tmp [ pos n ↦ some n | negsuc _ ↦ none ]

-- The checks behind the parsing.
unfoldable pub check : TestTarget → Bool × TestTarget
check target =
    let x = target.t.x_lev == uint_max in
    let y = target.t.y_lev == uint_max in
    let z = target.t.z_lev == uint_max in
    if target.t.group == uint_max
    then (false, target)
    else if not (x && y && z || not x && not y && not z)
    then (false, target)
    else (true, target)

abbrev pub with_group : ℕ → TestTarget → TestTarget
with_group n target = record target { t = record target.t { group = n } }

abbrev pub with_x : ℕ → TestTarget → TestTarget
with_x n target = record target { t = record target.t { x_lev = n } }

abbrev pub with_y : ℕ → TestTarget → TestTarget
with_y n target = record target { t = record target.t { y_lev = n } }

abbrev pub with_z : ℕ → TestTarget → TestTarget
with_z n target = record target { t = record target.t { z_lev = n } }

-- What is left of the text from each level on.
unfoldable pub parse_z : Text → TestTarget → Bool × TestTarget
parse_z s target =
    if is_empty s
    then (false, target)
    else elim (level is_empty s) [ none ↦ (false, target) | some n ↦ check (with_z n target) ]

unfoldable pub parse_y : Text → TestTarget → Bool × TestTarget
parse_y s target = if is_empty s then (false, target) else elim (level (ends_at b'.') s) [
  | none ↦ (false, target)
  | some n ↦ parse_z (after b'.' s) (with_y n target)
]

unfoldable pub parse_x : Text → TestTarget → Bool × TestTarget
parse_x s target = if is_empty s then (false, target) else elim (level (ends_at b'.') s) [
  | none ↦ (false, target)
  | some n ↦ parse_y (after b'.' s) (with_x n target)
]

unfoldable pub parse_group_test : Text → TestTarget → Bool × TestTarget
parse_group_test s target = elim (level (ends_at b':') s) [
  | none ↦ (false, target)
  | some n ↦ parse_x (after b':' s) (with_group n target)
]

unfoldable pub parse_group : Text → TestTarget → Bool × TestTarget
parse_group s target = elim (level is_empty s) [
  | none ↦ (false, target)
  | some n ↦ check (with_group n target)
]

abbrev pub all_targets : TestTarget
all_targets = record { req = true; t = ref uint_max uint_max uint_max uint_max }

-- `ParseTargetCmdLine`; no text (NULL) asks for all tests.
unfoldable pub parse_target_cmd_line : Option Text → Bool × TestTarget
parse_target_cmd_line none = (true, all_targets)
parse_target_cmd_line (some s) = elim (find b':' s) [
  | none ↦ parse_group s all_targets
  | some _ ↦ parse_group_test s all_targets
]
