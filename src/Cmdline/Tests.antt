-- ===== src/Cmdline/Tests.antt =====
-- The theorems about the command line at concrete arguments.
use tnvme.Base.{ℕ, ◌<◌, ◌≤◌, ◌≡◌, ◌⊎◌, refl, true, false, some, List, [], ◌∷◌, ◌++◌, arith}
use tnvme.Suite.Ref.{TestRef, ref}
use tnvme.Cmdline.Text.{Text}
use tnvme.Cmdline.Digits.{print_dec, print_hex, digits}
use tnvme.Cmdline.Target.{uint_max, parse_target_cmd_line}
use tnvme.Cmdline.Target.Print.{IsLevel, IsTest, print_test, parse_target_cmd_line-print}
use tnvme.Cmdline.Target.Sound.{IsTarget, parse_target_cmd_line-IsTarget}
use tnvme.Cmdline.Words.{parse_error_cmd_line, parse_queues_cmd_line}
use tnvme.Cmdline.Words.Back.{Narrow, Wide, printed_errors, words_back}
use tnvme.Cmdline.Mmap.{
  bar01, dword_len, parse_rmmap_cmd_line, parse_wmmap_cmd_line, max_supported_reg_size,
}
use tnvme.Cmdline.Mmap.Back.{read_text, write_text, mmap_back}
use tnvme.Cmdline.Skip.{is_eol, parse_skip_test_cmd_line}
use tnvme.Cmdline.Skip.Last.{OneLine, parse_skip_test_cmd_line-last}
use tnvme.Cmdline.Skip.Lines.{file_of, parse_skip_test_cmd_line-file_of}

-- The text "12:0.3.4"
printed : print_test (ref 12 0 3 4) [] ≡ b'1' ∷ b'2' ∷ b':' ∷ b'0' ∷ b'.' ∷ b'3' ∷ b'.' ∷ b'4' ∷ []
unfolding print_dec digits
printed = refl

small-IsLevel : (n : ℕ) → n ≤ 100 → IsLevel n
small-IsLevel n h = (omega arith, λ e. omega arith)

ref-IsTest : IsTest (ref 12 0 3 4)
ref-IsTest = (
  small-IsLevel 12 (omega arith),
  small-IsLevel 0 (omega arith),
  small-IsLevel 3 (omega arith),
  small-IsLevel 4 (omega arith),
)

accepted : (parse_target_cmd_line (some (print_dec 12 []))).0 ≡ true
accepted = rw (parse_target_cmd_line-print (ref 12 0 3 4) ref-IsTest).1 refl

comment-OneLine : OneLine (b'7' ∷ b'#' ∷ [])
unfolding is_eol
comment-OneLine = (refl, (refl, tt))

parse_target_cmd_line-print_example :
    (parse_target_cmd_line (some (print_test (ref 12 0 3 4) []))
      ≡ (true, record { req = true; t = ref 12 0 3 4 }))
    × (parse_target_cmd_line (some (print_dec 12 []))
        ≡ (true, record { req = true; t = ref 12 uint_max uint_max uint_max }))
parse_target_cmd_line-print_example = parse_target_cmd_line-print (ref 12 0 3 4) ref-IsTest

parse_target_cmd_line-IsTarget_example : IsTarget (parse_target_cmd_line (some (print_dec 12 []))).1
parse_target_cmd_line-IsTarget_example = parse_target_cmd_line-IsTarget (print_dec 12 []) accepted

words_back_example :
    ((Narrow (1 ∷ 2 ∷ 3 ∷ 65536 ∷ [])
        × (parse_error_cmd_line (printed_errors 1 2 3 65536)
            ≡ (true, record { sts = 1; pxds = 2; aeruces = 3; csts = 65536 })))
      ⊎ (Wide (1 ∷ 2 ∷ 3 ∷ 65536 ∷ [])
          × ((parse_error_cmd_line (printed_errors 1 2 3 65536)).0 ≡ false)))
    × ((Narrow (16 ∷ 255 ∷ [])
          × (parse_queues_cmd_line (print_hex 16 (b':' ∷ print_hex 255 []))
              ≡ (true, record { req = true; ncqr = 16; nsqr = 255 })))
        ⊎ (Wide (16 ∷ 255 ∷ [])
            × ((parse_queues_cmd_line (print_hex 16 (b':' ∷ print_hex 255 []))).0 ≡ false)))
words_back_example = words_back 1 2 3 65536 16 255 (omega arith)

mmap_back_example :
    (parse_rmmap_cmd_line (read_text bar01 28 4 dword_len)
      ≡ (true, record { req = true; space = bar01; offset = 28; size = 4; acc = dword_len }))
    × (((4 ≤ max_supported_reg_size)
          × (parse_wmmap_cmd_line (write_text bar01 28 4 255 dword_len) ≡ (
            true,
            record {
              req = true;
              space = bar01;
              offset = 28;
              size = 4;
              value = 255;
              acc = dword_len;
            },
          )))
        ⊎ ((max_supported_reg_size < 4)
            × ((parse_wmmap_cmd_line (write_text bar01 28 4 255 dword_len)).0 ≡ false)))
mmap_back_example =
    mmap_back bar01 28 4 255 dword_len tt tt (omega arith) (omega arith) (omega arith)

abbrev lines : List (TestRef × Text)
lines = (ref 12 0 3 4, b'7' ∷ b'#' ∷ []) ∷ (ref 12 0 3 4, []) ∷ []

parse_skip_test_cmd_line-file_of_example :
    parse_skip_test_cmd_line (some (file_of lines)) [] ≡ (true, ref 12 0 3 4 ∷ ref 12 0 3 4 ∷ [])
parse_skip_test_cmd_line-file_of_example =
    parse_skip_test_cmd_line-file_of lines []
      ((ref-IsTest, comment-OneLine), ((ref-IsTest, tt), tt))

parse_skip_test_cmd_line-last_example :
    parse_skip_test_cmd_line (some (print_test (ref 1 0 2 3) [] ++ 10 ∷ b'7' ∷ b'#' ∷ [])) []
    ≡ parse_skip_test_cmd_line (some (print_test (ref 1 0 2 3) [] ++ 10 ∷ [])) []
parse_skip_test_cmd_line-last_example =
    parse_skip_test_cmd_line-last (print_test (ref 1 0 2 3) []) (b'7' ∷ b'#' ∷ []) []
      comment-OneLine
