-- ===== src/Cmds/Cmd.antt =====
-- `Cmds/cmd.cpp`: a command is a buffer of DWORDs and a data direction, and every accessor reads
-- or writes a field of one DWORD, or throws.
use tnvme.Base.{
  ℕ, ◌+◌, ◌-◌, ◌*◌, ◌/◌, ◌%◌, ◌^◌, bit_and, bit_or, Bool, true, false, List, length, get_or, set,
  replicate, Result, ok, ◌>>=◌, ◌>>◌, throw_if, if◌then◌else◌, leb, ltb, ◌==◌,
}
use tnvme.Cmds.Field.{put_field, get_field}

-- `DataDir`
pub data DataDir : Type 0 where
  none from_device to_device bidirectional : DataDir

-- `mCmdBuf`, 4 bytes to an element, and `mDataDir`.
pub record Cmd : Type 0 where
  pub dwords : List ℕ
  pub data_dir : DataDir

-- `GetCmdSizeDW`, which returns a `uint8_t`.
unfoldable pub size_dw : Cmd → ℕ
size_dw c = length c.dwords % 2 ^ 8

unfoldable pub get_dword : ℕ → Cmd → Result ℕ
get_dword which_dw c = throw_if (leb (size_dw c) which_dw) >> ok (get_or c.dwords which_dw 0)

unfoldable pub set_dword : ℕ → ℕ → Cmd → Result Cmd
set_dword new_val which_dw c =
    throw_if (leb (size_dw c) which_dw) >> ok (record c { dwords = set c.dwords which_dw new_val })

-- `dwOffset > 32 / numBits - 1` is computed by `int`s, so `32 / numBits` may be 0.
unfoldable pub set_bits : ℕ → ℕ → ℕ → ℕ → Cmd → Result Cmd
set_bits new_val which_dw dw_offset num_bits c =
    throw_if (leb (size_dw c) which_dw)
    >> (throw_if (ltb (32 / num_bits) (dw_offset + 1))
        >> (get_dword which_dw c >>= λ dw.
            set_dword (put_field dw new_val (dw_offset * num_bits) num_bits) which_dw c))

unfoldable pub get_bits : ℕ → ℕ → ℕ → Cmd → Result ℕ
get_bits which_dw dw_offset num_bits c =
    throw_if (leb (size_dw c) which_dw)
    >> (throw_if (ltb (32 / num_bits) (dw_offset + 1))
        >> (get_dword which_dw c >>= λ dw. ok (get_field dw (dw_offset * num_bits) num_bits)))

abbrev pub set_word : ℕ → ℕ → ℕ → Cmd → Result Cmd
set_word new_val which_dw dw_offset c = set_bits new_val which_dw dw_offset 16 c

abbrev pub set_byte : ℕ → ℕ → ℕ → Cmd → Result Cmd
set_byte new_val which_dw dw_offset c = set_bits new_val which_dw dw_offset 8 c

abbrev pub set_nibble : ℕ → ℕ → ℕ → Cmd → Result Cmd
set_nibble new_val which_dw dw_offset c = set_bits new_val which_dw dw_offset 4 c

abbrev pub bit_of : Bool → ℕ
bit_of b = if b then 1 else 0

abbrev pub set_bit : Bool → ℕ → ℕ → Cmd → Result Cmd
set_bit new_val which_dw dw_offset c = set_bits (bit_of new_val) which_dw dw_offset 1 c

abbrev pub get_word : ℕ → ℕ → Cmd → Result ℕ
get_word which_dw dw_offset c = get_bits which_dw dw_offset 16 c

abbrev pub get_byte : ℕ → ℕ → Cmd → Result ℕ
get_byte which_dw dw_offset c = get_bits which_dw dw_offset 8 c

abbrev pub get_nibble : ℕ → ℕ → Cmd → Result ℕ
get_nibble which_dw dw_offset c = get_bits which_dw dw_offset 4 c

abbrev pub get_bit : ℕ → ℕ → Cmd → Result Bool
get_bit which_dw dw_offset c = get_bits which_dw dw_offset 1 c >>= λ b. ok (b == 1)

-- `Init`; `MemBuffer::InitAlignment` gives `cmdSize` bytes, all 0.
unfoldable pub init_dir : DataDir → Bool
init_dir DataDir.none = true
init_dir DataDir.to_device = true
init_dir DataDir.from_device = true
init_dir DataDir.bidirectional = false

unfoldable pub init : ℕ → DataDir → ℕ → Result Cmd
init opcode data_dir cmd_size =
    throw_if (if init_dir data_dir then false else true)
    >> (throw_if (if cmd_size % 4 == 0 then false else true)
        >> set_byte opcode 0 0
            (record { dwords = replicate (cmd_size / 4) 0; data_dir = data_dir }))

-- `work = Get(...); work &= ~mask; work |= bits; Set(work, ...)` on a field of `width` bits.
abbrev pub update : ℕ → ℕ → ℕ → ℕ → ℕ → Cmd → Result Cmd
update width mask bits which_dw dw_offset c = get_bits which_dw dw_offset width c >>= λ work.
    set_bits (bit_or (bit_and work (2 ^ width - 1 - mask)) bits) which_dw dw_offset width c

unfoldable pub set_fuse : ℕ → Cmd → Result Cmd
set_fuse new_val c = update 8 0x3 (bit_and new_val 0x3) 0 1 c

unfoldable pub get_fuse : Cmd → Result ℕ
get_fuse c = get_byte 0 1 c >>= λ b. ok (bit_and b 0x3)

unfoldable pub set_nsid : ℕ → Cmd → Result Cmd
set_nsid new_val c = set_dword new_val 1 c

unfoldable pub get_nsid : Cmd → Result ℕ
get_nsid c = get_dword 1 c

unfoldable pub set_cid : ℕ → Cmd → Result Cmd
set_cid cid c = set_word cid 0 1 c

unfoldable pub get_cid : Cmd → Result ℕ
get_cid c = get_word 0 1 c
