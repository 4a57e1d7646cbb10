-- ===== src/Cmds/Header.antt =====
-- The fields that every command has: the fused bits, the command and the namespace identifier of
-- `Cmds/cmd.cpp`.
use tnvme.Base.{ℕ, ◌^◌, ◌≤◌, ◌<◌, ◌%◌, ◌/◌, ◌≡◌, true, length, arith, ok, refl, ap}
use tnvme.Cmds.Roundtrip.{init_lem}
use tnvme.Cmds.Field.{mask_of}
use tnvme.Cmds.Cmd.{
  Cmd, DataDir, init, init_dir, set_fuse, get_fuse, set_nsid, get_nsid, set_cid, get_cid,
}
use tnvme.Cmds.Writes.{
  IsValid, Wrote, field, dword, get_bits_ok, get_dword_ok, set_bits-Wrote, set_dword-Wrote,
}
use tnvme.Cmds.Update.{masked, update-Wrote}
use tnvme.Cmds.Fields.{field_low}

module _ (c : Cmd) (V : IsValid c) (sized : 2 ≤ length c.dwords) where
  header_fields :
      (fuse cid nsid : ℕ)
      → nsid < 2 ^ 32
      → Wrote (set_fuse fuse c) c 0 8 2 fuse
        × Wrote (set_cid cid c) c 0 16 16 cid
        × Wrote (set_nsid nsid c) c 1 0 32 nsid
        × (get_fuse c ≡ ok (field c 0 8 2))
        × (get_cid c ≡ ok (field c 0 16 16))
        × (get_nsid c ≡ ok (dword c 1))
  unfolding set_fuse set_cid set_nsid get_fuse get_cid get_nsid mask_of
  header_fields fuse cid nsid h = (
    update-Wrote c V 0 1 8 (omega arith) (omega arith) 0 2 fuse 0x3 _ refl (omega arith)
        (omega arith) (masked fuse 2 0x3 refl),
    set_bits-Wrote c V 0 1 16 (omega arith) (omega arith) cid,
    set_dword-Wrote c V 1 (omega arith) nsid h,
    rw (get_bits_ok c V 0 1 8 (omega arith) (omega arith))
        (ap ok (field_low c V 0 8 8 2 0x3 refl (omega arith))),
    get_bits_ok c V 0 1 16 (omega arith) (omega arith),
    get_dword_ok c V 1 (omega arith),
  )

-- On a valid command of at least two DWORDs SetFUSE, SetCID and SetNSID (of a 32-bit value)
-- succeed and write exactly their fields, bits 8 and 9 of DWORD 0, the upper word of DWORD 0 and
-- DWORD 1, and the getters return these fields. For an accepted data direction and a size that is
-- a multiple of 4, at least 4 and less than 1024, Init succeeds: the command is valid, has size /
-- 4 DWORDs and the direction, its lowest byte is the opcode modulo 2^8, and the rest of DWORD 0
-- and every other DWORD are 0.
command_header :
    (c : Cmd) (fuse cid nsid opcode size w : ℕ) (dir : DataDir)
    → IsValid c
    → 2 ≤ length c.dwords
    → nsid < 2 ^ 32
    → init_dir dir ≡ true
    → size % 4 ≡ 0
    → 4 ≤ size
    → size < 1024
    → 0 < w
    → (Wrote (set_fuse fuse c) c 0 8 2 fuse
        × Wrote (set_cid cid c) c 0 16 16 cid
        × Wrote (set_nsid nsid c) c 1 0 32 nsid
        × (get_fuse c ≡ ok (field c 0 8 2))
        × (get_cid c ≡ ok (field c 0 16 16))
        × (get_nsid c ≡ ok (dword c 1)))
      × ((r : Cmd) × (init opcode dir size ≡ ok r)
          × IsValid r
          × (length r.dwords ≡ size / 4)
          × (r.data_dir ≡ dir)
          × (field r 0 0 8 ≡ opcode % 2 ^ 8)
          × (field r 0 8 24 ≡ 0)
          × (dword r w ≡ 0))
command_header c fuse cid nsid opcode size w dir V sized h d q lo hi p =
    (header_fields c V sized fuse cid nsid h, init_lem opcode size w dir d q lo hi p)
