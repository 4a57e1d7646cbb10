-- ===== src/Cmds/Write.antt =====
-- `Cmds/write.cpp`: the fields of the NVM write command, DWORDs 10 to 15.
use tnvme.Base.{
  ℕ, ◌+◌, ◌*◌, ◌/◌, ◌%◌, ◌^◌, bit_and, bit_or, Bool, Result, ok, ◌>>=◌, ◌>>◌, throw_if, ltb,
}
use tnvme.Cmds.Cmd.{
  Cmd, DataDir, init, get_dword, set_dword, set_bit, get_bit, set_word, get_word, set_byte,
  get_byte, update,
}
pub mod Layout
pub mod Roundtrip

-- `Write::Write`; which PRP slots a write may use is the payload's concern.
unfoldable pub new_write : Result Cmd
new_write = init 0x01 DataDir.to_device 64

unfoldable pub set_slba : ℕ → Cmd → Result Cmd
set_slba lba c = set_dword (lba % 2 ^ 32) 10 c >>= λ d. set_dword (lba / 2 ^ 32 % 2 ^ 32) 11 d

unfoldable pub get_slba : Cmd → Result ℕ
get_slba c =
    get_dword 10 c >>= λ low. get_dword 11 c >>= λ high. ok (bit_or low (high * 2 ^ 32 % 2 ^ 64))

unfoldable pub set_lr : Bool → Cmd → Result Cmd
set_lr lr c = set_bit lr 12 31 c

unfoldable pub get_lr : Cmd → Result Bool
get_lr c = get_bit 12 31 c

unfoldable pub set_fua : Bool → Cmd → Result Cmd
set_fua fua c = set_bit fua 12 30 c

unfoldable pub get_fua : Cmd → Result Bool
get_fua c = get_bit 12 30 c

unfoldable pub set_prinfo : ℕ → Cmd → Result Cmd
set_prinfo prinfo c = throw_if (ltb 0x0f prinfo) >> update 16 0x3c00 (prinfo * 2 ^ 10) 12 1 c

unfoldable pub get_prinfo : Cmd → Result ℕ
get_prinfo c = get_word 12 1 c >>= λ w. ok (w / 2 ^ 10 % 2 ^ 8)

unfoldable pub set_nlb : ℕ → Cmd → Result Cmd
set_nlb nlb c = set_word nlb 12 0 c

unfoldable pub get_nlb : Cmd → Result ℕ
get_nlb c = get_word 12 0 c

unfoldable pub set_dsm_incompress : Bool → Cmd → Result Cmd
set_dsm_incompress incompress c = set_bit incompress 13 7 c

unfoldable pub get_dsm_incompress : Cmd → Result Bool
get_dsm_incompress c = get_bit 13 7 c

unfoldable pub set_dsm_seq_request : Bool → Cmd → Result Cmd
set_dsm_seq_request seq_req c = set_bit seq_req 13 6 c

unfoldable pub get_dsm_seq_request : Cmd → Result Bool
get_dsm_seq_request c = get_bit 13 6 c

unfoldable pub set_dsm_access_latent : ℕ → Cmd → Result Cmd
set_dsm_access_latent access_lat c =
    throw_if (ltb 0x03 access_lat) >> update 8 0x30 (access_lat * 2 ^ 4) 13 0 c

unfoldable pub get_dsm_access_latent : Cmd → Result ℕ
get_dsm_access_latent c = get_byte 13 0 c >>= λ b. ok (bit_and (b / 2 ^ 4) 0x03)

unfoldable pub set_dsm_access_freq : ℕ → Cmd → Result Cmd
set_dsm_access_freq access_freq c =
    throw_if (ltb 0x0f access_freq) >> update 8 0x0f (access_freq * 2 ^ 0) 13 0 c

unfoldable pub get_dsm_access_freq : Cmd → Result ℕ
get_dsm_access_freq c = get_byte 13 0 c >>= λ b. ok (bit_and (b / 2 ^ 0) 0x0f)

unfoldable pub set_ilbrt : ℕ → Cmd → Result Cmd
set_ilbrt ilbrt c = set_dword ilbrt 14 c

unfoldable pub get_ilbrt : Cmd → Result ℕ
get_ilbrt c = get_dword 13 c

unfoldable pub set_lbatm : ℕ → Cmd → Result Cmd
set_lbatm lbatm c = set_word lbatm 15 1 c

unfoldable pub get_lbatm : Cmd → Result ℕ
get_lbatm c = get_word 15 1 c

unfoldable pub set_lbat : ℕ → Cmd → Result Cmd
set_lbat lbat c = set_word lbat 15 0 c

unfoldable pub get_lbat : Cmd → Result ℕ
get_lbat c = get_word 15 0 c
