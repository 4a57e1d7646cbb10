-- ===== src/Cmdline/Target/Print.antt =====
-- What `ParseTargetCmdLine` reads from a printed target.
use tnvme.Base.{ℕ, ◌≤◌, ◌≡◌, ◌≢◌, refl, ◌∙◌, true, false, none, some, [], ◌∷◌, ◌==◌, arith}
use tnvme.Suite.Ref.{TestRef, ref}
use tnvme.Cmdline.Text.{Text, digit_value, find, digit, starts, ends_at, is_empty, long_max}
use tnvme.Cmdline.Digits.{print_dec}
use tnvme.Cmdline.Printed.{strtol-print_dec, find-print_dec, after-print_dec, is_empty-print_dec}
use tnvme.Cmdline.Target.{
  TestTarget, uint_max, level, check, parse_group, parse_group_test, parse_x, parse_y, parse_z,
  parse_target_cmd_line, all_targets, with_group, with_x, with_y, with_z,
}

-- A test as `group:x.y.z`, with a text behind it.
abbrev pub print_test : TestRef → Text → Text
print_test r out =
    print_dec r.group
      (b':' ∷ print_dec r.x_lev (b'.' ∷ print_dec r.y_lev (b'.' ∷ print_dec r.z_lev out)))

-- A number that a `long` holds, and that is not taken for "all".
abbrev pub IsLevel : ℕ → Type 0
IsLevel n = (n ≤ long_max) × (n ≢ uint_max)

abbrev pub IsTest : TestRef → Type 0
IsTest r = IsLevel r.group × IsLevel r.x_lev × IsLevel r.y_lev × IsLevel r.z_lev

level_at :
    (c n : ℕ) (out : Text)
    → n ≤ long_max
    → starts 10 (c ∷ []) ≡ false
    → level (ends_at c) (print_dec n (c ∷ out)) ≡ some n
unfolding level ends_at starts
level_at c n out fits h =
    let self : (c == c) ≡ true = ground arith in rw (strtol-print_dec n (c ∷ out) fits h, self) refl

level_end : (n : ℕ) → n ≤ long_max → level is_empty (print_dec n []) ≡ some n
unfolding level is_empty starts
level_end n fits = rw (strtol-print_dec n [] fits refl) refl

dot : starts 10 (b'.' ∷ []) ≡ false
unfolding starts digit
dot = refl

colon : starts 10 (b':' ∷ []) ≡ false
unfolding starts digit
colon = refl

check_group :
    (target : TestTarget)
    → IsLevel target.t.group
    → target.t.x_lev ≡ uint_max
    → target.t.y_lev ≡ uint_max
    → target.t.z_lev ≡ uint_max
    → check target ≡ (true, target)
unfolding check
check_group target h x y z = ground arith

check_test : (target : TestTarget) → IsTest target.t → check target ≡ (true, target)
unfolding check
check_test target h = ground arith

no_dot : digit_value b'.' ≡ none
unfolding digit_value
no_dot = refl

no_colon : digit_value b':' ≡ none
unfolding digit_value
no_colon = refl

parse_z-print_dec :
    (n : ℕ) (target : TestTarget)
    → n ≤ long_max
    → parse_z (print_dec n []) target ≡ check (with_z n target)
unfolding parse_z
parse_z-print_dec n target h = rw (is_empty-print_dec n [], level_end n h, parse_z) refl

parse_y-print_dec :
    (n : ℕ) (out : Text) (target : TestTarget)
    → n ≤ long_max
    → parse_y (print_dec n (b'.' ∷ out)) target ≡ parse_z out (with_y n target)
unfolding parse_y
parse_y-print_dec n out target h =
    rw
      (
        is_empty-print_dec n (b'.' ∷ out),
        level_at b'.' n out h dot,
        after-print_dec b'.' n out no_dot,
        parse_y,
      )
      refl

parse_x-print_dec :
    (n : ℕ) (out : Text) (target : TestTarget)
    → n ≤ long_max
    → parse_x (print_dec n (b'.' ∷ out)) target ≡ parse_y out (with_x n target)
unfolding parse_x
parse_x-print_dec n out target h =
    rw
      (
        is_empty-print_dec n (b'.' ∷ out),
        level_at b'.' n out h dot,
        after-print_dec b'.' n out no_dot,
        parse_x,
      )
      refl

parse_group_test-print_dec :
    (n : ℕ) (out : Text) (target : TestTarget)
    → n ≤ long_max
    → parse_group_test (print_dec n (b':' ∷ out)) target ≡ parse_x out (with_group n target)
unfolding parse_group_test
parse_group_test-print_dec n out target h =
    rw (level_at b':' n out h colon, after-print_dec b':' n out no_colon, parse_group_test) refl

parse_group-print_dec :
    (n : ℕ) (target : TestTarget)
    → n ≤ long_max
    → parse_group (print_dec n []) target ≡ check (with_group n target)
unfolding parse_group
parse_group-print_dec n target h = rw (level_end n h, parse_group) refl

-- The text has a colon, or has none.
pub with_colon :
    (s t : Text)
    → find b':' s ≡ some t
    → parse_target_cmd_line (some s) ≡ parse_group_test s all_targets
unfolding parse_target_cmd_line
with_colon s t e = rw (e, parse_target_cmd_line) refl

pub without_colon :
    (s : Text) → find b':' s ≡ none → parse_target_cmd_line (some s) ≡ parse_group s all_targets
unfolding parse_target_cmd_line
without_colon s e = rw (e, parse_target_cmd_line) refl

-- For a test whose group and levels each fit a long and are not UINT_MAX, ParseTargetCmdLine
-- accepts the text group:x.y.z in decimal digits and returns the test, and accepts the digits of
-- the group alone and returns the group with UINT_MAX at every level.
pub parse_target_cmd_line-print :
    (r : TestRef)
    → IsTest r
    → (parse_target_cmd_line (some (print_test r [])) ≡ (true, record { req = true; t = r }))
      × (parse_target_cmd_line (some (print_dec r.group []))
          ≡ (true, record { req = true; t = ref r.group uint_max uint_max uint_max }))
unfolding find
parse_target_cmd_line-print r (g, x, y, z) = (
  with_colon (print_test r []) _ (find-print_dec b':' r.group _ no_colon)
      ∙ parse_group_test-print_dec r.group _ all_targets g.0
      ∙ parse_x-print_dec r.x_lev _ _ x.0
      ∙ parse_y-print_dec r.y_lev _ _ y.0
      ∙ parse_z-print_dec r.z_lev _ z.0
      ∙ check_test _ (g, x, y, z),
  without_colon (print_dec r.group []) (find-print_dec b':' r.group [] no_colon)
      ∙ parse_group-print_dec r.group all_targets g.0
      ∙ check_group (with_group r.group all_targets) g refl refl refl,
)
