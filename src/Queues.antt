-- ===== src/Queues.antt =====
-- `Queues/queue.cpp`, `Queues/cq.cpp` and `Queues/sq.cpp`: how queues are set up, and how completions
-- are waited for, looked at and reaped.
pub mod Wait
pub mod Create
pub mod Setup
pub mod Peek
pub mod Entry
mod Tests
use tnvme.Base.{
  ℕ, zero, suc, ◌+◌, ◌-◌, ◌*◌, ◌/◌, ◌%◌, ◌^◌, Bool, true, false, ◌&&◌, not, Option, none, some,
  List, [], ◌∷◌, Result, ok, thrown, ltb, leb, ◌==◌, if◌then◌else◌,
}

-- A buffer of memory that a discontiguous queue is given, by its size and alignment.
pub record QueueBuffer : Type 0 where
  pub buf_size : ℕ
  pub alignment : ℕ
  pub zeroed : Bool

-- The members of `Queue` and of its subclasses: a completion queue has the interrupt, a submission
-- queue the id of its completion queue. The pointer `mContigBuf` is a number, NULL is 0. `is_admin` is
-- what `GetIsAdmin` of the subclass returns.
pub record Queue : Type 0 where
  pub is_admin : Bool
  pub q_id : ℕ
  pub entry_size : ℕ
  pub num_entries : ℕ
  pub discontig_buf : Option QueueBuffer
  pub contig_buf : ℕ
  pub irq_enabled : Bool
  pub irq_vec : ℕ
  pub cq_id : ℕ

-- What the classes ask of the kernel driver, the clock and the controller, on a state `D`; `none` and
-- false stand for an error. `prepare_creation` gets the queue's id, the one of its completion queue,
-- the entries and whether it is contiguous. `frmwk_ex` is what the constructor of the exception does:
-- `FrmwkEx::DumpStateOfTheSystem` disables the controller, of which the resource manager is told.
pub record QueueIoctl {ℓ} (D : Type ℓ) : Type ℓ where
  pub create_admn_q : ℕ → D → Bool × D
  pub prepare_creation : ℕ → ℕ → ℕ → Bool → D → Bool × D
  pub mmap : ℕ → ℕ → D → ℕ × D
  pub is_state_enabled : D → Bool × D
  pub read_cap : D → Bool × D
  pub reap_inquiry : ℕ → D → Option (ℕ × ℕ) × D
  pub gettimeofday : D → Option ℕ × D
  pub usleep : ℕ → D → D
  pub page_size : ℕ
  pub frmwk_ex : D → D

-- `GetIsContig`
unfoldable pub get_is_contig : Queue → Result Bool
get_is_contig q = elim q.discontig_buf [
  | none ↦ if q.contig_buf == 0 then thrown else ok true
  | some _ ↦ if q.contig_buf == 0 then ok false else thrown
]

-- `GetQSize`
unfoldable pub get_q_size : Queue → ℕ
get_q_size q = q.num_entries * q.entry_size % 2 ^ 32

unfoldable pub is_initialised : Queue → Bool
is_initialised q = elim q.discontig_buf [ none ↦ not (q.contig_buf == 0) | some _ ↦ true ]

-- `Queue::Init`, if the queue is not initialised yet.
unfoldable pub with_sizes : ℕ → ℕ → ℕ → Queue → Queue
with_sizes q_id entry_size num_entries q = record q {
  q_id = q_id;
  entry_size = entry_size;
  num_entries = num_entries;
}

module _ {ℓ} {D : Type ℓ} (k : QueueIoctl D) where
  -- The mapping of a contiguous queue that the driver made, at the end of `Init`.
  unfoldable pub mapped : Bool → Queue → D → Result (Unit {0}) × Queue × D
  mapped false q d = (thrown, q, k.frmwk_ex d)
  mapped true q d =
      let (address, d1) = k.mmap (get_q_size q) q.q_id d in
      let q1 : Queue = record q { contig_buf = address } in
      if address == 0 then (thrown, q1, k.frmwk_ex d1) else (ok tt, q1, d1)

  -- The creation of a contiguous queue.
  unfoldable pub create_contig : Queue → D → Result (Unit {0}) × Queue × D
  create_contig q d =
      let (enabled, d1) = k.is_state_enabled d in
      let (made, d2) = k.create_admn_q q.num_entries d1 in
      let (prepared, d3) = k.prepare_creation q.q_id q.cq_id q.num_entries true d in
      if q.is_admin
      then (if enabled then (thrown, q, k.frmwk_ex d1) else mapped made q d2)
      else mapped prepared q d3

  -- The creation of a discontiguous queue in a buffer.
  unfoldable pub create_discontig : Option QueueBuffer → Queue → D → Result (Unit {0}) × Queue × D
  create_discontig none q d = (thrown, q, k.frmwk_ex d)
  create_discontig (some b) q d =
      let q1 : Queue = record q { discontig_buf = some (record b { zeroed = true }) } in
      let (prepared, d1) = k.prepare_creation q.q_id q.cq_id q.num_entries false d in
      if q.is_admin
      then (thrown, q, k.frmwk_ex d)
      else if ltb b.buf_size (get_q_size q)
      then (thrown, q, k.frmwk_ex d)
      else if not (b.alignment == k.page_size)
      then (thrown, q, k.frmwk_ex d)
      else if prepared
      then (ok tt, q1, d1)
      else (thrown, q1, k.frmwk_ex d1)

  -- `CQ::Init`, both versions
  unfoldable pub cq_init : ℕ → ℕ → ℕ → Bool → ℕ → Queue → D → Result (Unit {0}) × Queue × D
  cq_init q_id entry_size num_entries irq_enabled irq_vec q d =
      let q1 : Queue = record (with_sizes q_id entry_size num_entries q) {
        irq_enabled = irq_enabled;
        irq_vec = irq_vec;
      } in
      if is_initialised q
      then (thrown, q, k.frmwk_ex d)
      else if ltb num_entries 2
      then (thrown, q1, k.frmwk_ex d)
      else create_contig q1 d

  unfoldable pub cq_init_discontig :
      ℕ → ℕ → ℕ → Option QueueBuffer → Bool → ℕ → Queue → D → Result (Unit {0}) × Queue × D
  cq_init_discontig q_id entry_size num_entries b irq_enabled irq_vec q d =
      let q1 : Queue = record (with_sizes q_id entry_size num_entries q) {
        irq_enabled = irq_enabled;
        irq_vec = irq_vec;
      } in
      if is_initialised q
      then (thrown, q, k.frmwk_ex d)
      else if ltb num_entries 2
      then (thrown, q1, k.frmwk_ex d)
      else create_discontig b q1 d

  -- `SQ::Init`, both versions: they note the completion queue before anything is checked. The
  -- warning that they log if CAP allows fewer entries is left out.
  unfoldable pub sq_init : ℕ → ℕ → ℕ → ℕ → Queue → D → Result (Unit {0}) × Queue × D
  sq_init q_id entry_size num_entries cq_id q d =
      let q0 : Queue = record q { cq_id = cq_id } in
      let q1 = with_sizes q_id entry_size num_entries q0 in
      let (good, d1) = k.read_cap d in
      if is_initialised q0
      then (thrown, q0, k.frmwk_ex d)
      else if ltb num_entries 2
      then (thrown, q1, k.frmwk_ex d)
      else if not good
      then (thrown, q1, k.frmwk_ex d1)
      else create_contig q1 d1

  unfoldable pub sq_init_discontig :
      ℕ → ℕ → ℕ → Option QueueBuffer → ℕ → Queue → D → Result (Unit {0}) × Queue × D
  sq_init_discontig q_id entry_size num_entries b cq_id q d =
      let q0 : Queue = record q { cq_id = cq_id } in
      let q1 = with_sizes q_id entry_size num_entries q0 in
      let (good, d1) = k.read_cap d in
      if is_initialised q0
      then (thrown, q0, k.frmwk_ex d)
      else if ltb num_entries 2
      then (thrown, q1, k.frmwk_ex d)
      else if not good
      then (thrown, q1, k.frmwk_ex d1)
      else create_discontig b q1 d1

  -- The loop of `DoReapInquiry`, one round, by what the rest of it does: its result and `numCE`.
  unfoldable pub after_inquiry :
      (ℕ → D → Option (Result Bool × ℕ × D))
      → ℕ
      → ℕ
      → Option (ℕ × ℕ)
      → D
      → Option (Result Bool × ℕ × D)
  after_inquiry rest num_til num_ce none d = some (thrown, num_ce, k.frmwk_ex d)
  after_inquiry rest num_til num_ce (some (remaining, isr_count)) d =
      if not (remaining == 0) && leb num_til remaining
      then some (ok true, remaining, d)
      else rest remaining (k.usleep 10 d)

  unfoldable pub wait_round :
      (ℕ → D → Option (Result Bool × ℕ × D))
      → ℕ
      → ℕ
      → ℕ
      → ℕ
      → ℕ
      → Option ℕ
      → D
      → Option (Result Bool × ℕ × D)
  wait_round rest id ms initial num_til num_ce none d = some (thrown, num_ce, k.frmwk_ex d)
  wait_round rest id ms initial num_til num_ce (some current) d =
      let (inquiry, d1) = k.reap_inquiry id d in
      if leb (initial + ms * 1000) current
      then some (ok false, num_ce, d)
      else after_inquiry rest num_til num_ce inquiry d1

  -- The loop by its rounds; `none` if they are too few.
  unfoldable pub wait_loop : ℕ → ℕ → ℕ → ℕ → ℕ → ℕ → D → Option (Result Bool × ℕ × D)
  wait_loop zero id ms initial num_til num_ce d = none
  wait_loop (suc n) id ms initial num_til num_ce d =
      let (current, d1) = k.gettimeofday d in
      wait_round (wait_loop n id ms initial num_til) id ms initial num_til num_ce current d1

  unfoldable pub started : ℕ → ℕ → ℕ → ℕ → ℕ → Option ℕ → D → Option (Result Bool × ℕ × D)
  started fuel id ms num_til num_ce none d = some (thrown, num_ce, k.frmwk_ex d)
  started fuel id ms num_til num_ce (some initial) d = wait_loop fuel id ms initial num_til num_ce d

  -- `DoReapInquiry`, which `ReapInquiryWaitSpecifyQ` calls
  unfoldable pub do_reap_inquiry : ℕ → ℕ → ℕ → ℕ → ℕ → D → Option (Result Bool × ℕ × D)
  do_reap_inquiry fuel id ms num_til num_ce d =
      let (initial, d1) = k.gettimeofday d in
      if ltb 86400000 ms
      then some (thrown, num_ce, k.frmwk_ex d)
      else started fuel id ms num_til num_ce initial d1

-- The memory of a queue: at an address, or that of a buffer; each as its entries.
pub record QueueMemory {ℓ} (E : Type ℓ) : Type ℓ where
  pub at_address : ℕ → ℕ → E
  pub in_buffer : QueueBuffer → ℕ → E

-- `dataPtr`: the entries of the queue, by whether it is contiguous.
unfoldable pub data_ptr {ℓ} : {E : Type ℓ} → QueueMemory E → Queue → Result (ℕ → E)
data_ptr mem q = elim (get_is_contig q) [
  | thrown ↦ thrown
  | ok true ↦ ok (mem.at_address q.contig_buf)
  | ok false ↦ elim q.discontig_buf [ none ↦ thrown | some b ↦ ok (mem.in_buffer b) ]
]

-- The loop of `PeekCE`, `PeekSE` and `PeekCEwithCID`: the first entry from `i` on that passes the
-- test, by the entries that are left.
unfoldable pub peek_from {ℓ} : {E : Type ℓ} → (ℕ → Bool) → (ℕ → E) → ℕ → ℕ → Result E
peek_from test entry i zero = thrown
peek_from test entry i (suc left) =
    let rest = peek_from test entry (i + 1) left in if test i then ok (entry i) else rest

unfoldable pub peek_at {ℓ} : {E : Type ℓ} → (E → ℕ → Bool) → QueueMemory E → Queue → Result E
peek_at test mem q = elim (data_ptr mem q) [
  | thrown ↦ thrown
  | ok entry ↦ peek_from (λ i. test (entry i) i) entry 0 q.num_entries
]

-- `PeekCE` and `PeekSE`
unfoldable pub peek {ℓ} : {E : Type ℓ} → QueueMemory E → ℕ → Queue → Result E
peek mem index q = peek_at (λ e i. i == index) mem q

-- `PeekCEwithCID`, by the CID of an entry
unfoldable pub peek_with_cid {ℓ} : {E : Type ℓ} → (E → ℕ) → QueueMemory E → ℕ → Queue → Result E
peek_with_cid cid mem wanted q = peek_at (λ e i. cid e == wanted) mem q
