-- ===== src/Cmdline/Skip/Last.antt =====
-- What `ParseSkipTestCmdLine` makes of a last line that no line end closes.
use tnvme.Base.{
  ℕ, ◌≡◌, inl, inr, refl, ◌∙◌, Bool, true, false, some, List, [], ◌∷◌, ◌++◌, arith, Bool-cases,
}
use tnvme.Suite.Ref.{TestRef}
use tnvme.Cmdline.Text.{Text}
use tnvme.Cmdline.Skip.{is_eol, has_eol, Reader, read_char, read_chars, parse_skip_test_cmd_line}

-- No character of these ends a line.
abbrev pub OneLine : Text → Type 0
OneLine [] = Unit {0}
OneLine (c ∷ s) = (is_eol c ≡ false) × OneLine s

-- A character that ends no line changes neither the flag nor the tests.
read_char-mid :
    (c : ℕ) (s : Text) (r : Reader)
    → is_eol c ≡ false
    → ((read_char c s r).0 ≡ true) × ((read_char c s r).1.skip_test ≡ r.skip_test)
unfolding read_char
read_char-mid c s r h = ground arith

-- Text behind the last line end is not looked at, whatever it holds.
tail_ignored :
    (s : Text) (r : Reader)
    → OneLine s
    → ((read_chars s r).0 ≡ true) × ((read_chars s r).1.skip_test ≡ r.skip_test)
unfolding read_chars
tail_ignored [] r h = (refl, refl)
tail_ignored (c ∷ s) r (h, t) =
    let (good, same) = read_char-mid c s r h in
    let (good', same') = tail_ignored s (read_char c s r).1 t in rw good (good', same' ∙ same)

lf_ends : is_eol 10 ≡ true
unfolding is_eol
lf_ends = refl

pub has_eol-append : (s t : Text) → has_eol (s ++ 10 ∷ t) ≡ true
unfolding has_eol
has_eol-append [] t = rw lf_ends refl
has_eol-append (c ∷ s) t = rw (has_eol-append s t) (ground arith)

-- What is behind a line end makes no difference to the characters before it.
read_char-rest :
    (c : ℕ) (s t u : Text) (r : Reader) → read_char c (s ++ 10 ∷ t) r ≡ read_char c (s ++ 10 ∷ u) r
unfolding read_char
read_char-rest c s t u r = rw (has_eol-append s t, has_eol-append s u) refl

read_char-lf : (t u : Text) (r : Reader) → read_char 10 t r ≡ read_char 10 u r
unfolding read_char
read_char-lf t u r = refl

abbrev Same : Bool × Reader → Bool × Reader → Type 0
Same a b = (a.0 ≡ b.0) × (a.1.skip_test ≡ b.1.skip_test)

last_line :
    (s tail : Text) (r : Reader)
    → OneLine tail
    → Same (read_chars (s ++ 10 ∷ tail) r) (read_chars (s ++ 10 ∷ []) r)
unfolding read_chars
last_line [] tail r h = rw (read_char-lf tail [] r) (elim (Bool-cases (read_char 10 [] r).0) [
  | inl e ↦ rw e (tail_ignored tail (read_char 10 [] r).1 h)
  | inr f ↦ rw f (refl, refl)
])
last_line (c ∷ s) tail r h =
    rw (read_char-rest c s tail [] r) (elim (Bool-cases (read_char c (s ++ 10 ∷ []) r).0) [
      | inl e ↦ rw e (last_line s tail (read_char c (s ++ 10 ∷ []) r).1 h)
      | inr f ↦ rw f (refl, refl)
    ])

-- Text behind the last line end of a file, with no line end of its own, makes no difference to the
-- result of ParseSkipTestCmdLine or to the tests that it adds, whatever the text is.
pub parse_skip_test_cmd_line-last :
    (s tail : Text) (skip_test : List TestRef)
    → OneLine tail
    → parse_skip_test_cmd_line (some (s ++ 10 ∷ tail)) skip_test
      ≡ parse_skip_test_cmd_line (some (s ++ 10 ∷ [])) skip_test
unfolding parse_skip_test_cmd_line
parse_skip_test_cmd_line-last s tail skip_test h =
    let same =
      last_line s tail (record { in_comment = false; line = []; skip_test = skip_test }) h in
    rw (same.0, same.1) refl
