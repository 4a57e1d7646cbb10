-- ===== src/Queues/Setup.antt =====
-- What the setup of a queue leaves, on every branch.
use tnvme.Base.{ℕ, ◌≡◌, ◌⊎◌, Bool, true, false, Option, thrown}
use tnvme.Queues.{
  QueueBuffer, Queue, QueueIoctl, is_initialised, with_sizes, cq_init, cq_init_discontig, sq_init,
  sq_init_discontig,
}
use tnvme.Queues.Create.{SetContig, SetDiscontig, Alike, prepared}

module _ {ℓ} {D : Type ℓ} (k : QueueIoctl D) (q_id entry_size num_entries : ℕ) (q : Queue)
    (d : D) where
  abbrev asked_cq : Bool → ℕ → Queue
  asked_cq irq_enabled irq_vec = record (with_sizes q_id entry_size num_entries q) {
    irq_enabled = irq_enabled;
    irq_vec = irq_vec;
  }

  abbrev asked_sq : ℕ → Queue
  asked_sq cq_id = with_sizes q_id entry_size num_entries (record q { cq_id = cq_id })

  -- A second setup throws, with what that does to the device, and changes nothing of the queue, but
  -- that a submission queue has noted another completion queue; a first one leaves a queue of the sizes, interrupt and completion queue it was asked for,
  -- which is set up or counts as not initialised.
  abbrev pub Inits : Option QueueBuffer → Bool → ℕ → ℕ → Type ℓ
  Inits b irq_enabled irq_vec cq_id =
      let cq = cq_init k q_id entry_size num_entries irq_enabled irq_vec q d in
      let cq' = cq_init_discontig k q_id entry_size num_entries b irq_enabled irq_vec q d in
      let sq = sq_init k q_id entry_size num_entries cq_id q d in
      let sq' = sq_init_discontig k q_id entry_size num_entries b cq_id q d in
      let noted = record q { cq_id = cq_id } in
      ((is_initialised q ≡ true)
        × (cq ≡ (thrown, q, k.frmwk_ex d))
        × (cq' ≡ (thrown, q, k.frmwk_ex d))
        × (sq ≡ (thrown, noted, k.frmwk_ex d))
        × (sq' ≡ (thrown, noted, k.frmwk_ex d)))
      ⊎ ((is_initialised q ≡ false)
          × (SetContig cq × Alike (asked_cq irq_enabled irq_vec) cq.1)
          × (SetDiscontig k.page_size b (prepared k (asked_cq irq_enabled irq_vec) d) cq'
              × Alike (asked_cq irq_enabled irq_vec) cq'.1)
          × (SetContig sq × Alike (asked_sq cq_id) sq.1)
          × (SetDiscontig k.page_size b (prepared k (asked_sq cq_id) (k.read_cap d).1) sq'
              × Alike (asked_sq cq_id) sq'.1))
