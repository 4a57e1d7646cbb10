-- ===== src/Queues/Tests.antt =====
-- The theorems about queues, with a driver that accepts every call and a clock that only sleeping moves.
use tnvme.Base.{
  ℕ, ◌+◌, ◌*◌, ◌≤◌, ◌<◌, ◌≡◌, ◌⊎◌, ◌↔◌, inr, refl, Bool, true, false, none, some, Result, ok,
  thrown, ◌==◌, arith,
}
use tnvme.Queues.{
  QueueBuffer, Queue, QueueIoctl, QueueMemory, get_is_contig, peek, peek_with_cid, do_reap_inquiry,
}
use tnvme.Queues.Wait.{Ticks, Waited, do_reap_inquiry-Waited}
use tnvme.Queues.Entry.{
  StatByBits, stat_by_bits, validate_peek, validate, invalidate_peek, validate_detailed, find_codes,
  get_ce_stat,
}
use tnvme.Queues.Entry.Lookup.{LookedUp, Clean, validations}
use tnvme.Queues.Peek.{FirstOf, EntriesOf, peek_lem}

abbrev driver : QueueIoctl ℕ
driver = record {
  create_admn_q = λ n d. (true, d);
  prepare_creation = λ id cq n contig d. (true, d);
  mmap = λ size id d. (4096 + id, d);
  is_state_enabled = λ d. (false, d);
  read_cap = λ d. (true, d);
  reap_inquiry = λ id d. (some (0, 0), d);
  gettimeofday = λ d. (some d, d);
  usleep = λ us d. d + us;
  page_size = 4096;
  frmwk_ex = λ d. d + 1000;
}

ticking : Ticks driver (λ d. d)
ticking = record {
  tells = λ d. inr refl;
  told = λ d. omega arith;
  inquired = λ id d. omega arith;
  slept = λ us d. omega arith;
}

abbrev blank_queue : Queue
blank_queue = record {
  is_admin = false;
  q_id = 0;
  entry_size = 0;
  num_entries = 0;
  discontig_buf = none;
  contig_buf = 0;
  irq_enabled = false;
  irq_vec = 0;
  cq_id = 0;
}

abbrev mapped_queue : Queue
mapped_queue = record blank_queue { num_entries = 8; contig_buf = 4096 }

abbrev pages : QueueBuffer
pages = record { buf_size = 8192; alignment = 4096; zeroed = false }

do_reap_inquiry-Waited_example :
    (r : Result Bool × ℕ × ℕ) × (do_reap_inquiry driver 101 4 1 2 0 700 ≡ some r)
    × Waited (λ d. d) 2 (700 + 1 * 1000) r
do_reap_inquiry-Waited_example =
    do_reap_inquiry-Waited driver (λ d. d) 4 1 2 0 101 700 ticking (omega arith)

-- The entries at an address are its multiples; those of a buffer are the sums with its size.
abbrev memory : QueueMemory ℕ
memory = record { at_address = λ a i. a * i; in_buffer = λ b i. b.buf_size + i }

peek_lem_example :
    ((get_is_contig mapped_queue ≡ thrown)
      × (peek memory 5 mapped_queue ≡ thrown)
      × (peek_with_cid (λ e. e) memory 8192 mapped_queue ≡ thrown))
    ⊎ ((entry : ℕ → ℕ) × EntriesOf memory mapped_queue entry
        × (((5 < 8) × (peek memory 5 mapped_queue ≡ ok (entry 5)))
            ⊎ ((8 ≤ 5) × (peek memory 5 mapped_queue ≡ thrown)))
        × FirstOf
            (λ i. entry i == 8192)
            entry
            0
            8
            (peek_with_cid (λ e. e) memory 8192 mapped_queue))
peek_lem_example = peek_lem memory (λ e. e) 5 8192 mapped_queue

-- An invalid queue identifier, with the bit DNR.
abbrev invalid_qid : StatByBits
invalid_qid = stat_by_bits 0x8202

validations_example :
    LookedUp invalid_qid
    × ((t : ℕ)
        → (validate t invalid_qid ≡ some (ok tt)) ↔ (validate_peek t invalid_qid ≡ some true))
    × ((t : ℕ) → (invalidate_peek t invalid_qid ≡ false) ↔ (get_ce_stat invalid_qid ≡ ok 0))
    × ((e : StatByBits)
        → (validate_detailed e invalid_qid ≡ ok tt) ↔ ((e ≡ invalid_qid) × Clean invalid_qid))
validations_example = validations invalid_qid

looked_up : get_ce_stat invalid_qid ≡ ok 27
unfolding stat_by_bits get_ce_stat find_codes
looked_up = refl
