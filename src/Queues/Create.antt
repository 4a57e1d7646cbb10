-- ===== src/Queues/Create.antt =====
-- What the creation of a queue's memory leaves, on every branch.
use tnvme.Base.{
  ℕ, ◌≤◌, ◌≡◌, ◌⊎◌, inl, inr, refl, ◌∙◌, Bool, true, false, not, Option, none, some, Result, ok,
  thrown, ltb, ltb→le, ◌==◌, if◌then◌else◌, arith, Option-cases,
}
use tnvme.Queues.{
  QueueBuffer, Queue, QueueIoctl, get_is_contig, get_q_size, is_initialised, mapped, create_contig,
  create_discontig,
}

-- Two states of a queue that agree on all but the queue's memory.
pub record Alike (q q' : Queue) : Type 0 where
  pub same_id : q'.q_id ≡ q.q_id
  pub same_size : q'.entry_size ≡ q.entry_size
  pub same_entries : q'.num_entries ≡ q.num_entries
  pub same_irq : (q'.irq_enabled ≡ q.irq_enabled) × (q'.irq_vec ≡ q.irq_vec)
  pub same_cq : q'.cq_id ≡ q.cq_id

alike : (q : Queue) → Alike q q
alike q = record {
  same_id = refl;
  same_size = refl;
  same_entries = refl;
  same_irq = (refl, refl);
  same_cq = refl;
}

-- A contiguous queue after its setup: it is contiguous, or the setup threw and it still counts as not
-- initialised.
abbrev pub SetContig {ℓ} : {D : Type ℓ} → Result (Unit {0}) × Queue × D → Type 0
SetContig r =
    ((r.0 ≡ ok tt) × (get_is_contig r.1 ≡ ok true))
    ⊎ ((r.0 ≡ thrown) × (get_is_contig r.1 ≡ thrown))

-- A discontiguous one: its buffer is large enough and aligned to pages, and the setup succeeded or
-- threw as the driver answered; or it threw before, and the queue still counts as not initialised.
abbrev pub SetDiscontig {ℓ} :
    {D : Type ℓ} → ℕ → Option QueueBuffer → Bool → Result (Unit {0}) × Queue × D → Type 0
SetDiscontig page b prepared r =
    ((b' : QueueBuffer) × (b ≡ some b')
      × (get_q_size r.1 ≤ b'.buf_size)
      × (b'.alignment ≡ page)
      × (r.1.discontig_buf ≡ some (record b' { zeroed = true }))
      × (get_is_contig r.1 ≡ ok false)
      × (r.0 ≡ (if prepared then ok tt else thrown)))
    ⊎ ((r.0 ≡ thrown) × (get_is_contig r.1 ≡ thrown))

-- A property of both branches of an if holds of it.
pub if_either {ℓ ℓ'} :
    {A : Type ℓ} (P : A → Type ℓ') (c : Bool) {x y : A}
    → (c ≡ true → P x)
    → (c ≡ false → P y)
    → P (if c then x else y)
if_either P true then_P else_P = then_P refl
if_either P false then_P else_P = else_P refl

module _ (q : Queue) (none_yet : is_initialised q ≡ false) where
  blank : (q.discontig_buf ≡ none) × (q.contig_buf ≡ 0)
  unfolding is_initialised
  blank = elim (Option-cases q.discontig_buf) [
    | inl e ↦ (e, ground (arith, e))
    | inr (b, e) ↦ absurd (ground (arith, e))
  ]

  unset : get_is_contig q ≡ thrown
  unfolding get_is_contig
  unset = rw (blank.0, blank.1) refl

unmapped_lem :
    (q : Queue)
    → q.discontig_buf ≡ none
    → get_is_contig q ≡ (if q.contig_buf == 0 then thrown else ok true)
unfolding get_is_contig
unmapped_lem q e = rw e refl

buffered_lem :
    (q : Queue) (b : QueueBuffer)
    → q.discontig_buf ≡ some b
    → get_is_contig q ≡ (if q.contig_buf == 0 then ok false else thrown)
unfolding get_is_contig
buffered_lem q b e = rw e refl

abbrev mapped_at : ℕ → Queue → Queue
mapped_at address q = record q { contig_buf = address }

-- A mapping changes nothing else of the queue.
mapped_at-Alike : (address : ℕ) (q : Queue) → Alike q (mapped_at address q)
mapped_at-Alike address q = record {
  same_id = refl;
  same_size = refl;
  same_entries = refl;
  same_irq = (refl, refl);
  same_cq = refl;
}

aligned→≡ : (a b : ℕ) → not (a == b) ≡ false → a ≡ b
aligned→≡ a b h = ground arith

-- Whether the driver accepts a discontiguous queue.
abbrev pub prepared {ℓ} : {D : Type ℓ} → QueueIoctl D → Queue → D → Bool
prepared k q d = (k.prepare_creation q.q_id q.cq_id q.num_entries false d).0

module _ {ℓ} {D : Type ℓ} (k : QueueIoctl D) (q : Queue) (none_yet : is_initialised q ≡ false)
    (d : D) where
  abbrev Contig : Result (Unit {0}) × Queue × D → Type 0
  Contig r = SetContig r × Alike q r.1

  abbrev Discontig : Option QueueBuffer → Result (Unit {0}) × Queue × D → Type 0
  Discontig b r = SetDiscontig k.page_size b (prepared k q d) r × Alike q r.1

  pub fails-Contig : (d : D) → Contig (thrown, q, d)
  fails-Contig d = (inr (refl, unset q none_yet), alike q)

  pub fails-Discontig : (b : Option QueueBuffer) (d : D) → Discontig b (thrown, q, d)
  fails-Discontig b d = (inr (refl, unset q none_yet), alike q)

  mapped-Contig : (made : Bool) (d : D) → Contig (mapped k made q d)
  unfolding mapped
  mapped-Contig false d = fails-Contig d
  mapped-Contig true d =
      let address = (k.mmap (get_q_size q) q.q_id d).0 in
      let to_address = unmapped_lem (mapped_at address q) (blank q none_yet).0 in
      if_either Contig (address == 0)
        (λ z. (inr (refl, to_address ∙ rw z refl), mapped_at-Alike address q))
        (λ p. (inl (refl, to_address ∙ rw p refl), mapped_at-Alike address q))

  pub create_contig-Contig : Contig (create_contig k q d)
  unfolding create_contig
  create_contig-Contig =
      if_either Contig q.is_admin
        (λ _.
          if_either Contig (k.is_state_enabled d).0 (λ _. fails-Contig (k.is_state_enabled d).1)
            (λ _. mapped-Contig (k.create_admn_q q.num_entries (k.is_state_enabled d).1).0 _))
        (λ _. mapped-Contig (k.prepare_creation q.q_id q.cq_id q.num_entries true d).0 _)

  -- A buffer that is large enough and aligned is kept, whatever the driver answers.
  buffered-Discontig :
      (b : QueueBuffer)
      → ltb b.buf_size (get_q_size q) ≡ false
      → not (b.alignment == k.page_size) ≡ false
      → (r : Result (Unit {0})) (d1 : D) → r ≡ (if prepared k q d then ok tt else thrown)
      → Discontig (some b) (r, record q { discontig_buf = some (record b { zeroed = true }) }, d1)
  unfolding get_q_size
  buffered-Discontig b large aligned r d1 e = (
    inl (
      b,
      refl,
      ltb→le _ _ large,
      aligned→≡ _ _ aligned,
      refl,
      buffered_lem _ _ refl ∙ rw (blank q none_yet).1 refl,
      e,
    ),
    record {
      same_id = refl;
      same_size = refl;
      same_entries = refl;
      same_irq = (refl, refl);
      same_cq = refl;
    },
  )

  pub create_discontig-Discontig : (b : Option QueueBuffer) → Discontig b (create_discontig k b q d)
  unfolding create_discontig
  create_discontig-Discontig none = fails-Discontig none d
  create_discontig-Discontig (some b) =
      if_either (Discontig (some b)) q.is_admin (λ _. fails-Discontig (some b) d)
        (λ _.
          if_either (Discontig (some b)) (ltb b.buf_size (get_q_size q))
            (λ _. fails-Discontig (some b) d)
            (λ large.
              if_either (Discontig (some b)) (not (b.alignment == k.page_size))
                (λ _. fails-Discontig (some b) d)
                (λ aligned.
                  if_either (Discontig (some b)) (prepared k q d)
                    (λ t. buffered-Discontig b large aligned _ d (rw t refl))
                    (λ f. buffered-Discontig b large aligned _ d (rw f refl)))))
