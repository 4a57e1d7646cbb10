-- ===== src/Cmdline/Mmap.antt =====
-- `ParseRmmapCmdLine` and `ParseWmmapCmdLine`: an access to a register, with its address space,
-- offset, size, value and width. Each function is what is left of the text from one part on.

pub mod Back
use tnvme.Base.{ℕ, Bool, true, false, not, Option, none, some, List, [], ◌∷◌, ltb, if◌then◌else◌}
use tnvme.Cmdline.Text.{Text, strtoul, find, before, after, ends_at, is_empty, text_eq}

-- `nvme_io_space` and `nvme_acc_type`, whose values the driver's header declares
pub data IoSpace : Type 0 where
  pci_hdr bar01 io_fence : IoSpace

pub data AccType : Type 0 where
  byte_len word_len dword_len quad_len acc_fence : AccType

-- `struct RmmapIo`
pub record RmmapIo : Type 0 where
  pub req : Bool
  pub space : IoSpace
  pub offset : ℕ
  pub size : ℕ
  pub acc : AccType

-- `struct WmmapIo`
pub record WmmapIo : Type 0 where
  pub req : Bool
  pub space : IoSpace
  pub offset : ℕ
  pub size : ℕ
  pub value : ℕ
  pub acc : AccType

abbrev pub pci : Text
pci = b'P' ∷ b'C' ∷ b'I' ∷ []

abbrev pub bar : Text
bar = b'B' ∷ b'A' ∷ b'R' ∷ b'0' ∷ b'1' ∷ []

unfoldable pub io_space : Text → Option IoSpace
io_space s = if text_eq pci s then some pci_hdr else if text_eq bar s then some bar01 else none

-- A number in front of a colon.
unfoldable pub number : Text → Option ℕ
number s = let (tmp, endptr) = strtoul s in if not (ends_at b':' endptr) then none else some tmp

-- `s.substr(1, ...)` of a text that is not empty
unfoldable pub behind_first : Text → Text
behind_first [] = []
behind_first (c ∷ t) = t

-- The text behind the first character of the width is also read as a number.
unfoldable pub acc_type : Text → Option AccType
acc_type s =
    if not (is_empty (strtoul (behind_first s)).1)
    then none
    else if text_eq s (b'b' ∷ [])
    then some byte_len
    else if text_eq s (b'w' ∷ [])
    then some word_len
    else if text_eq s (b'l' ∷ [])
    then some dword_len
    else if text_eq s (b'q' ∷ [])
    then some quad_len
    else none

unfoldable pub read_acc : Text → RmmapIo → Bool × RmmapIo
read_acc s rmmap =
    if is_empty s
    then (false, rmmap)
    else elim (acc_type s) [ none ↦ (false, rmmap) | some acc ↦ (true, record rmmap { acc = acc }) ]

unfoldable pub read_size : Text → RmmapIo → Bool × RmmapIo
read_size s rmmap = if is_empty s then (false, rmmap) else elim (number s) [
  | none ↦ (false, rmmap)
  | some n ↦ read_acc (after b':' s) (record rmmap { size = n })
]

unfoldable pub read_offset : Text → RmmapIo → Bool × RmmapIo
read_offset s rmmap = elim (number s) [
  | none ↦ (false, rmmap)
  | some n ↦ read_size (after b':' s) (record rmmap { offset = n })
]

abbrev pub no_read : RmmapIo
no_read = record { req = true; space = io_fence; offset = 0; size = 0; acc = acc_fence }

-- `ParseRmmapCmdLine`, "<space:off:size:acc>"
unfoldable pub parse_rmmap_cmd_line : Text → Bool × RmmapIo
parse_rmmap_cmd_line s = elim (find b':' s) [
  | none ↦ (false, no_read)
  | some rest ↦ elim (io_space (before b':' s)) [
    | none ↦ (false, no_read)
    | some space ↦ read_offset rest (record no_read { space = space })
  ]
]

abbrev pub max_supported_reg_size : ℕ
max_supported_reg_size = 8

unfoldable pub write_acc : Text → WmmapIo → Bool × WmmapIo
write_acc s wmmap =
    if is_empty s
    then (false, wmmap)
    else elim (acc_type s) [ none ↦ (false, wmmap) | some acc ↦ (true, record wmmap { acc = acc }) ]

unfoldable pub write_value : Text → WmmapIo → Bool × WmmapIo
write_value s wmmap = if is_empty s then (false, wmmap) else elim (number s) [
  | none ↦ (false, wmmap)
  | some n ↦ write_acc (after b':' s) (record wmmap { value = n })
]

unfoldable pub write_size : Text → WmmapIo → Bool × WmmapIo
write_size s wmmap = elim (number s) [
  | none ↦ (false, wmmap)
  | some n ↦
      if ltb max_supported_reg_size n
      then (false, wmmap)
      else write_value (after b':' s) (record wmmap { size = n })
]

unfoldable pub write_offset : Text → WmmapIo → Bool × WmmapIo
write_offset s wmmap = elim (number s) [
  | none ↦ (false, wmmap)
  | some n ↦ write_size (after b':' s) (record wmmap { offset = n })
]

abbrev pub no_write : WmmapIo
no_write = record { req = true; space = io_fence; offset = 0; size = 0; value = 0; acc = acc_fence }

-- `ParseWmmapCmdLine`, "<space:off:size:val:acc>"
unfoldable pub parse_wmmap_cmd_line : Text → Bool × WmmapIo
parse_wmmap_cmd_line s = elim (find b':' s) [
  | none ↦ (false, no_write)
  | some rest ↦ elim (io_space (before b':' s)) [
    | none ↦ (false, no_write)
    | some space ↦ write_offset rest (record no_write { space = space })
  ]
]
