-- ===== src/Cmdline/Skip/Lines.antt =====
-- What `ParseSkipTestCmdLine` reads from the lines of a file.
use tnvme.Base.{
  ℕ, ◌<◌, ◌≡◌, refl, sym, ap, ◌∙◌, Bool, true, false, some, List, [], ◌∷◌, ◌++◌, map, append_assoc,
  append-nil, ◌==◌, arith,
}
use tnvme.Suite.Ref.{TestRef}
use tnvme.Cmdline.Text.{Text, is_alnum}
use tnvme.Cmdline.Digits.{AllDigits, digit_char}
use tnvme.Cmdline.Printed.{print_dec-AllDigits, is_empty-print_dec}
use tnvme.Cmdline.Target.Print.{print_test, IsTest, parse_target_cmd_line-print}
use tnvme.Cmdline.Skip.{
  is_eol, keeps, Reader, add_test, end_line, read_char, read_chars, parse_skip_test_cmd_line,
}
use tnvme.Cmdline.Skip.Last.{OneLine, has_eol-append}

-- The characters of a printed test are all kept.
abbrev AllKept : Text → Type 0
AllKept [] = Unit {0}
AllKept (c ∷ s) = ((keeps c ≡ true) × (is_eol c ≡ false) × ((c == b'#') ≡ false)) × AllKept s

AllKept-append : (s t : Text) → AllKept s → AllKept t → AllKept (s ++ t)
AllKept-append [] t h k = k
AllKept-append (c ∷ s) t (here, h) k = (here, AllKept-append s t h k)

digit_char-kept :
    (d : ℕ)
    → d < 10
    → (keeps (digit_char d) ≡ true)
      × (is_eol (digit_char d) ≡ false)
      × ((digit_char d == b'#') ≡ false)
unfolding keeps is_alnum is_eol
digit_char-kept d h = ground arith

AllDigits-AllKept : (s : Text) → AllDigits 10 s → AllKept s
AllDigits-AllKept [] h = tt
AllDigits-AllKept (c ∷ s) ((d, below, e), h) =
    (rw e (digit_char-kept d below), AllDigits-AllKept s h)

colon_kept : (keeps b':' ≡ true) × (is_eol b':' ≡ false) × ((b':' == b'#') ≡ false)
unfolding keeps is_alnum is_eol
colon_kept = (refl, refl, refl)

dot_kept : (keeps b'.' ≡ true) × (is_eol b'.' ≡ false) × ((b'.' == b'#') ≡ false)
unfolding keeps is_alnum is_eol
dot_kept = (refl, refl, refl)

read_char-kept :
    (c : ℕ) (s : Text) (r : Reader)
    → r.in_comment ≡ false
    → keeps c ≡ true
    → is_eol c ≡ false
    → (c == b'#') ≡ false
    → read_char c s r ≡ (true, record r { line = r.line ++ c ∷ [] })
unfolding read_char
read_char-kept c s r m k e n = ground arith

read_kept :
    (s out : Text) (r : Reader)
    → r.in_comment ≡ false
    → AllKept s
    → read_chars (s ++ out) r ≡ read_chars out (record r { line = r.line ++ s })
unfolding read_chars
read_kept [] out r m h = rw append-nil refl
read_kept (c ∷ s) out r m ((k, e, n), h) =
    rw (read_char-kept c (s ++ out) r m k e n)
      (read_kept s out (record r { line = r.line ++ c ∷ [] }) m h ∙ rw append_assoc refl)

-- A comment up to its line end, and what is behind it.
read_comment :
    (s out : Text) (r : Reader)
    → r.in_comment ≡ true
    → OneLine s
    → read_chars (s ++ out) r ≡ read_chars out r
unfolding read_chars read_char
read_comment [] out r m h = refl
read_comment (c ∷ s) out r m (e, h) =
    let skipped : read_char c (s ++ out) r ≡ (true, r) = ground arith in
    rw skipped (read_comment s out r m h)

print_test-AllKept :
    (r : TestRef) → (s : Text) × AllKept s × ((out : Text) → print_test r out ≡ s ++ out)
print_test-AllKept r =
    let (g, kg, eg) = print_dec-AllDigits r.group in
    let (x, kx, ex) = print_dec-AllDigits r.x_lev in
    let (y, ky, ey) = print_dec-AllDigits r.y_lev in
    let (z, kz, ez) = print_dec-AllDigits r.z_lev in
    (
      g ++ b':' ∷ (x ++ b'.' ∷ (y ++ b'.' ∷ z)),
      AllKept-append g _ (AllDigits-AllKept g kg) (
        colon_kept,
        AllKept-append x _ (AllDigits-AllKept x kx) (
          dot_kept,
          AllKept-append y _ (AllDigits-AllKept y ky) (dot_kept, AllDigits-AllKept z kz),
        ),
      ),
      λ out. rw (eg, ex, ey, ez) (simp append_assoc),
    )

read_on :
    (c : ℕ) (s : Text) (r r' : Reader)
    → read_char c s r ≡ (true, r')
    → read_chars (c ∷ s) r ≡ read_chars s r'
unfolding read_chars
read_on c s r r' e = rw e refl

abbrev reader : Bool → Text → List TestRef → Reader
reader in_comment line skip_test = record {
  in_comment = in_comment;
  line = line;
  skip_test = skip_test;
}

read_char-space :
    (s line : Text) (ts : List TestRef)
    → read_char b' ' s (reader false line ts) ≡ (true, reader false line ts)
unfolding read_char is_eol keeps is_alnum
read_char-space s line ts = refl

read_char-comment :
    (s out line : Text) (ts : List TestRef)
    → read_char b'#' (s ++ 10 ∷ out) (reader false line ts) ≡ (true, reader true line ts)
unfolding read_char
read_char-comment s out line ts = rw (has_eol-append s out) refl

read_char-end :
    (t : TestRef) (out line : Text) (ts : List TestRef)
    → IsTest t
    → line ≡ print_test t []
    → read_char 10 out (reader true line ts) ≡ (true, reader false [] (ts ++ t ∷ []))
unfolding read_char end_line add_test is_eol
read_char-end t out line ts h e =
    rw (e, is_empty-print_dec, (parse_target_cmd_line-print t h).0, add_test) refl

-- A line with a test and a comment.
read_line :
    (t : TestRef) (comment out : Text) (ts : List TestRef)
    → IsTest t
    → OneLine comment
    → read_chars (print_test t (b' ' ∷ b'#' ∷ (comment ++ 10 ∷ out))) (reader false [] ts)
      ≡ read_chars out (reader false [] (ts ++ t ∷ []))
read_line t comment out ts h one =
    let (s, kept, e) = print_test-AllKept t in
    let behind = comment ++ 10 ∷ out in
    ap (λ u. read_chars u (reader false [] ts)) (e (b' ' ∷ b'#' ∷ behind))
    ∙ read_kept s (b' ' ∷ b'#' ∷ behind) (reader false [] ts) refl kept
    ∙ read_on b' ' (b'#' ∷ behind) _ _ (read_char-space (b'#' ∷ behind) s ts)
    ∙ read_on b'#' behind _ _ (read_char-comment comment out s ts)
    ∙ read_comment comment (10 ∷ out) (reader true s ts) refl one
    ∙ read_on 10 out _ _ (read_char-end t out s ts h (sym (e [] ∙ append-nil s)))

-- A file with one test and one comment on each line.
abbrev pub file_of : List (TestRef × Text) → Text
file_of [] = []
file_of ((t, comment) ∷ ls) = print_test t (b' ' ∷ b'#' ∷ (comment ++ 10 ∷ file_of ls))

abbrev pub AreLines : List (TestRef × Text) → Type 0
AreLines [] = Unit {0}
AreLines ((t, comment) ∷ ls) = (IsTest t × OneLine comment) × AreLines ls

read_lines :
    (ls : List (TestRef × Text)) (ts : List TestRef)
    → AreLines ls
    → read_chars (file_of ls) (reader false [] ts)
      ≡ (true, reader false [] (ts ++ map (λ l. l.0) ls))
unfolding read_chars
read_lines [] ts h = rw append-nil refl
read_lines ((t, comment) ∷ ls) ts ((test, one), h) =
    read_line t comment (file_of ls) ts test one
    ∙ read_lines ls (ts ++ t ∷ []) h
    ∙ rw append_assoc refl

-- For a file that has on each line a test, as group:x.y.z with levels that each fit a long and are
-- not UINT_MAX, a blank, a number sign and a comment with no line end in it: ParseSkipTestCmdLine
-- accepts the file and appends exactly these tests, in order.
pub parse_skip_test_cmd_line-file_of :
    (ls : List (TestRef × Text)) (skip_test : List TestRef)
    → AreLines ls
    → parse_skip_test_cmd_line (some (file_of ls)) skip_test
      ≡ (true, skip_test ++ map (λ l. l.0) ls)
unfolding parse_skip_test_cmd_line
parse_skip_test_cmd_line-file_of ls skip_test h = rw (read_lines ls skip_test h) refl
