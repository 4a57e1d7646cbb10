-- ===== src/Cmdline/Skip.antt =====
-- `ParseSkipTestCmdLine`: a file of tests to skip, one on a line, with comments. What it reports
-- afterwards is output and is left out.
pub mod Last
pub mod Lines
use tnvme.Base.{
  ℕ, Bool, true, false, ◌&&◌, ◌||◌, Option, none, some, List, [], ◌∷◌, ◌++◌, ◌==◌, if◌then◌else◌,
}
use tnvme.Suite.Ref.{TestRef}
use tnvme.Cmdline.Text.{Text, is_alnum, is_empty}
use tnvme.Cmdline.Target.{TestTarget, parse_target_cmd_line}

unfoldable pub is_eol : ℕ → Bool
is_eol c = c == 10 || c == 13

unfoldable pub has_eol : Text → Bool
has_eol [] = false
has_eol (c ∷ s) = is_eol c || has_eol s

-- The characters that a line keeps.
unfoldable pub keeps : ℕ → Bool
keeps c = is_alnum c || c == b'.' || c == b':'

-- The variables of the loop: whether it is behind a `#`, before the end of that line, the line so far,
-- and the tests so far.
pub record Reader : Type 0 where
  pub in_comment : Bool
  pub line : Text
  pub skip_test : List TestRef

-- A line that is not empty is parsed; the flag is false if that fails.
unfoldable pub add_test : Bool × TestTarget → Reader → Bool × Reader
add_test (false, tmp) r = (false, r)
add_test (true, tmp) r = (true, record r { line = []; skip_test = r.skip_test ++ tmp.t ∷ [] })

unfoldable pub end_line : Reader → Bool × Reader
end_line r =
    let r' : Reader = record r { in_comment = false } in
    if is_empty r.line then (true, r') else add_test (parse_target_cmd_line (some r.line)) r'

-- One character, with the text behind it. A comment that no line end follows is not skipped: its
-- characters are read on.
unfoldable pub read_char : ℕ → Text → Reader → Bool × Reader
read_char c rest r =
    if r.in_comment
    then (if is_eol c then end_line r else (true, r))
    else if c == b'#'
    then (true, record r { in_comment = has_eol rest })
    else if is_eol c
    then end_line r
    else if keeps c
    then (true, record r { line = r.line ++ c ∷ [] })
    else (true, r)

unfoldable pub read_chars : Text → Reader → Bool × Reader
read_chars [] r = (true, r)
read_chars (c ∷ s) r =
    let (good, r') = read_char c s r in
    let rest = read_chars s r' in if good then rest else (false, r')

-- `ParseSkipTestCmdLine` on what the file holds (`none` if it cannot be opened or read), which is added
-- to the tests so far.
unfoldable pub parse_skip_test_cmd_line : Option Text → List TestRef → Bool × List TestRef
parse_skip_test_cmd_line none skip_test = (false, skip_test)
parse_skip_test_cmd_line (some contents) skip_test =
    let (good, r) =
      read_chars contents (record { in_comment = false; line = []; skip_test = skip_test }) in
    (good, r.skip_test)
