-- ===== src/Cmdline/Mmap/Back.antt =====
-- What `ParseRmmapCmdLine` and `ParseWmmapCmdLine` read from a printed access.
use tnvme.Base.{
  ℕ, ◌^◌, ◌≤◌, ◌<◌, ◌≡◌, ◌⊎◌, inl, inr, refl, ◌∙◌, true, false, none, some, [], ◌∷◌, ◌++◌,
  if◌then◌else◌, ltb, ltb→lt, ltb→le, arith, Bool-cases,
}
use tnvme.Cmdline.Text.{
  Text, strtoul, digit_value, digit, starts, skip_space, sign, skip_0x, find, before, ends_at,
  is_empty, text_eq,
}
use tnvme.Cmdline.Digits.{print_hex}
use tnvme.Cmdline.Printed.{strtoul-print_hex, after-print_hex, is_empty-print_hex}
use tnvme.Cmdline.Mmap.{
  IoSpace, pci_hdr, bar01, io_fence, AccType, byte_len, word_len, dword_len, quad_len, acc_fence,
  RmmapIo, WmmapIo, pci, bar, io_space, number, behind_first, acc_type, read_acc, read_size,
  read_offset, no_read, parse_rmmap_cmd_line, max_supported_reg_size, write_acc, write_value,
  write_size, write_offset, no_write, parse_wmmap_cmd_line,
}

-- How the spaces and widths are written; the fences are not.
abbrev pub space_text : IoSpace → Text
space_text pci_hdr = pci
space_text bar01 = bar
space_text io_fence = []

abbrev pub acc_text : AccType → Text
acc_text byte_len = b'b' ∷ []
acc_text word_len = b'w' ∷ []
acc_text dword_len = b'l' ∷ []
acc_text quad_len = b'q' ∷ []
acc_text acc_fence = []

abbrev pub IsSpace : IoSpace → Type 0
IsSpace io_fence = ⊥
IsSpace _ = Unit {0}

abbrev pub IsWidth : AccType → Type 0
IsWidth acc_fence = ⊥
IsWidth _ = Unit {0}

colon : starts 16 (b':' ∷ []) ≡ false
unfolding starts digit
colon = refl

no_colon : digit_value b':' ≡ none
unfolding digit_value
no_colon = refl

number_at : (n : ℕ) (out : Text) → n < 2 ^ 64 → number (print_hex n (b':' ∷ out)) ≡ some n
unfolding number ends_at starts digit
number_at n out h = rw (strtoul-print_hex n (b':' ∷ out) h refl (omega arith, omega arith)) refl

acc_type-acc_text : (acc : AccType) → IsWidth acc → acc_type (acc_text acc) ≡ some acc
unfolding acc_type behind_first strtoul skip_space sign skip_0x starts is_empty text_eq
acc_type-acc_text byte_len h = refl
acc_type-acc_text word_len h = refl
acc_type-acc_text dword_len h = refl
acc_type-acc_text quad_len h = refl
acc_type-acc_text acc_fence h = elim h [ ]

acc_text-some : (acc : AccType) → IsWidth acc → is_empty (acc_text acc) ≡ false
unfolding is_empty
acc_text-some byte_len h = refl
acc_text-some word_len h = refl
acc_text-some dword_len h = refl
acc_text-some quad_len h = refl
acc_text-some acc_fence h = elim h [ ]

space_found :
    (space : IoSpace) (out : Text)
    → IsSpace space
    → (find b':' (space_text space ++ b':' ∷ out) ≡ some out)
      × (io_space (before b':' (space_text space ++ b':' ∷ out)) ≡ some space)
unfolding find before io_space text_eq
space_found pci_hdr out h = (refl, refl)
space_found bar01 out h = (refl, refl)
space_found io_fence out h = elim h [ ]

module _ (n : ℕ) (out : Text) (h : n < 2 ^ 64) where
  module _ (io : RmmapIo) where
    read_offset_step :
        read_offset (print_hex n (b':' ∷ out)) io ≡ read_size out (record io { offset = n })
    unfolding read_offset
    read_offset_step =
        rw (number_at n out h, read_offset) (rw (after-print_hex b':' n out no_colon) refl)

    read_size_step : read_size (print_hex n (b':' ∷ out)) io ≡ read_acc out (record io { size = n })
    unfolding read_size
    read_size_step =
        rw (is_empty-print_hex n (b':' ∷ out), number_at n out h, read_size)
          (rw (after-print_hex b':' n out no_colon) refl)

  module _ (io : WmmapIo) where
    write_offset_step :
        write_offset (print_hex n (b':' ∷ out)) io ≡ write_size out (record io { offset = n })
    unfolding write_offset
    write_offset_step =
        rw (number_at n out h, write_offset) (rw (after-print_hex b':' n out no_colon) refl)

    write_value_step :
        write_value (print_hex n (b':' ∷ out)) io ≡ write_acc out (record io { value = n })
    unfolding write_value
    write_value_step =
        rw (is_empty-print_hex n (b':' ∷ out), number_at n out h, write_value)
          (rw (after-print_hex b':' n out no_colon) refl)

    write_size_step : write_size (print_hex n (b':' ∷ out)) io ≡ (
        if ltb max_supported_reg_size n
        then (false, io)
        else write_value out (record io { size = n }))
    unfolding write_size
    write_size_step =
        rw (number_at n out h, write_size) (rw (after-print_hex b':' n out no_colon) refl)

module _ (acc : AccType) (W : IsWidth acc) where
  read_acc_step : (io : RmmapIo) → read_acc (acc_text acc) io ≡ (true, record io { acc = acc })
  unfolding read_acc
  read_acc_step io = rw (acc_text-some acc W, acc_type-acc_text acc W, read_acc) refl

  write_acc_step : (io : WmmapIo) → write_acc (acc_text acc) io ≡ (true, record io { acc = acc })
  unfolding write_acc
  write_acc_step io = rw (acc_text-some acc W, acc_type-acc_text acc W, write_acc) refl

module _ (space : IoSpace) (S : IsSpace space) (out : Text) where
  read_space_step :
      parse_rmmap_cmd_line (space_text space ++ b':' ∷ out)
      ≡ read_offset out (record no_read { space = space })
  unfolding parse_rmmap_cmd_line
  read_space_step =
      rw ((space_found space out S).0, (space_found space out S).1, parse_rmmap_cmd_line) refl

  write_space_step :
      parse_wmmap_cmd_line (space_text space ++ b':' ∷ out)
      ≡ write_offset out (record no_write { space = space })
  unfolding parse_wmmap_cmd_line
  write_space_step =
      rw ((space_found space out S).0, (space_found space out S).1, parse_wmmap_cmd_line) refl

abbrev pub read_text : IoSpace → ℕ → ℕ → AccType → Text
read_text space offset size acc =
    space_text space ++ b':' ∷ print_hex offset (b':' ∷ print_hex size (b':' ∷ acc_text acc))

abbrev pub write_text : IoSpace → ℕ → ℕ → ℕ → AccType → Text
write_text space offset size value acc =
    space_text space
    ++ b':'
      ∷ print_hex offset (b':' ∷ print_hex size (b':' ∷ print_hex value (b':' ∷ acc_text acc)))

-- For an address space PCI or BAR01, 64-bit numbers in hexadecimal digits and a width b, w, l or
-- q: ParseRmmapCmdLine accepts space:offset:size:width and returns the four; ParseWmmapCmdLine of
-- space:offset:size:value:width returns the five if the size is at most 8, and refuses a larger
-- size.
pub mmap_back :
    (space : IoSpace) (offset size value : ℕ) (acc : AccType)
    → IsSpace space
    → IsWidth acc
    → offset < 2 ^ 64
    → size < 2 ^ 64
    → value < 2 ^ 64
    → (parse_rmmap_cmd_line (read_text space offset size acc)
        ≡ (true, record { req = true; space = space; offset = offset; size = size; acc = acc }))
      × (((size ≤ max_supported_reg_size)
            × (parse_wmmap_cmd_line (write_text space offset size value acc) ≡ (
              true,
              record {
                req = true;
                space = space;
                offset = offset;
                size = size;
                value = value;
                acc = acc;
              },
            )))
          ⊎ ((max_supported_reg_size < size)
              × ((parse_wmmap_cmd_line (write_text space offset size value acc)).0 ≡ false)))
mmap_back space offset size value acc S W o z v = (
  read_space_step space S (print_hex offset (b':' ∷ print_hex size (b':' ∷ acc_text acc)))
      ∙ read_offset_step offset (print_hex size (b':' ∷ acc_text acc)) o _
      ∙ read_size_step size (acc_text acc) z _
      ∙ read_acc_step acc W _,
  let started : WmmapIo = record no_write { space = space; offset = offset } in
      let begun =
        write_space_step space S
          (print_hex offset (b':' ∷ print_hex size (b':' ∷ print_hex value (b':' ∷ acc_text acc))))
        ∙ write_offset_step offset (print_hex size (b':' ∷ print_hex value (b':' ∷ acc_text acc))) o
            (record no_write { space = space })
        ∙ write_size_step size (print_hex value (b':' ∷ acc_text acc)) z started in
      elim (Bool-cases (ltb max_supported_reg_size size)) [
        | inl t ↦ inr (ltb→lt _ _ t, rw begun (rw t refl))
        | inr f ↦ inl (
          ltb→le _ _ f,
          begun
              ∙ rw f (
                  write_value_step value (acc_text acc) v (record started { size = size })
                  ∙ write_acc_step acc W _),
        )
      ],
)
