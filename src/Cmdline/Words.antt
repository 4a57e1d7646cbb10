-- ===== src/Cmdline/Words.antt =====
-- `ParseErrorCmdLine` and `ParseQueuesCmdLine`: hexadecimal numbers of 16 bits between colons.
pub mod Back
use tnvme.Base.{ℕ, ◌-◌, ◌^◌, ◌%◌, Bool, true, false, not, Option, none, some, ltb, if◌then◌else◌}
use tnvme.Suite.Test.{ErrorRegs}
use tnvme.Cmdline.Text.{Text, strtoul, after, ends_at, is_empty}

-- `struct NumQueues`
pub record NumQueues : Type 0 where
  pub req : Bool
  pub ncqr : ℕ
  pub nsqr : ℕ

-- A number up to the separator or the end that `ends` wants, of at most 16 bits; `none` is an error.
unfoldable pub word : (Text → Bool) → Text → Option ℕ
word ends s =
    let (tmp, endptr) = strtoul s in
    if not (ends endptr) then none else if ltb (2 ^ 16 - 1) tmp then none else some (tmp % 2 ^ 16)

unfoldable pub error_csts : Text → ErrorRegs → Bool × ErrorRegs
error_csts s regs = elim (word is_empty s) [
  | none ↦ (false, regs)
  | some n ↦ (true, record regs { csts = n })
]

unfoldable pub error_aeruces : Text → ErrorRegs → Bool × ErrorRegs
error_aeruces s regs = elim (word (ends_at b':') s) [
  | none ↦ (false, regs)
  | some n ↦ error_csts (after b':' s) (record regs { aeruces = n })
]

unfoldable pub error_pxds : Text → ErrorRegs → Bool × ErrorRegs
error_pxds s regs = elim (word (ends_at b':') s) [
  | none ↦ (false, regs)
  | some n ↦ error_aeruces (after b':' s) (record regs { pxds = n })
]

abbrev pub no_errors : ErrorRegs
no_errors = record { sts = 0; pxds = 0; aeruces = 0; csts = 0 }

-- `ParseErrorCmdLine`, "<STS:PXDS:AERUCES:CSTS>"
unfoldable pub parse_error_cmd_line : Text → Bool × ErrorRegs
parse_error_cmd_line s = elim (word (ends_at b':') s) [
  | none ↦ (false, no_errors)
  | some n ↦ error_pxds (after b':' s) (record no_errors { sts = n })
]

unfoldable pub queues_nsqr : Text → NumQueues → Bool × NumQueues
queues_nsqr s queues = if is_empty s then (false, queues) else elim (word is_empty s) [
  | none ↦ (false, queues)
  | some n ↦ (true, record queues { nsqr = n })
]

abbrev pub no_queues : NumQueues
no_queues = record { req = true; ncqr = 0; nsqr = 0 }

-- `ParseQueuesCmdLine`, "<ncqr:nsqr>"
unfoldable pub parse_queues_cmd_line : Text → Bool × NumQueues
parse_queues_cmd_line s = elim (word (ends_at b':') s) [
  | none ↦ (false, no_queues)
  | some n ↦ queues_nsqr (after b':' s) (record no_queues { ncqr = n })
]
