-- ===== src/Queues/Peek.antt =====
-- The entry of a queue that a peek finds.
use tnvme.Base.{
  ℕ, zero, suc, ◌+◌, ◌≤◌, ◌<◌, ◌≡◌, ◌⊎◌, inl, inr, refl, sym, ap, ◌∙◌, Bool, true, false, some,
  Result, ok, thrown, Option-cases, ◌==◌, arith, dec_lt, Bool-cases,
}
use mathlib.Core.Bool.{false≢true}
use tnvme.Queues.{
  QueueBuffer, Queue, QueueMemory, get_is_contig, data_ptr, peek_from, peek_at, peek, peek_with_cid,
}

-- The first of the entries from `i` up to `last` that passes the test, or none of them.
abbrev pub FirstOf {ℓ} : {E : Type ℓ} → (ℕ → Bool) → (ℕ → E) → ℕ → ℕ → Result E → Type ℓ
FirstOf test entry i last r =
    ((j : ℕ) × (i ≤ j)
      × (j < last)
      × (test j ≡ true)
      × ((m : ℕ) → i ≤ m → m < j → test m ≡ false)
      × (r ≡ ok (entry j)))
    ⊎ (((m : ℕ) → i ≤ m → m < last → test m ≡ false) × (r ≡ thrown))

Result-cases {ℓ} : {A : Type ℓ} (r : Result A) → (r ≡ thrown) ⊎ ((a : A) × (r ≡ ok a))
Result-cases thrown = inl refl
Result-cases (ok a) = inr (a, refl)

module _ {ℓ} {E : Type ℓ} (test : ℕ → Bool) (entry : ℕ → E) where
  -- All from `i` on fail the test, if `i` and all behind it do.
  fails_from :
      (i last : ℕ)
      → test i ≡ false
      → ((m : ℕ) → i + 1 ≤ m → m < last → test m ≡ false)
      → (m : ℕ) → i ≤ m
      → m < last
      → test m ≡ false
  fails_from i last at_i behind m i≤m m<last = elim (dec_lt i m) [
    | yes i<m ↦ behind m (omega arith) m<last
    | no i≮m ↦ let same : m ≡ i = omega arith in rw same at_i
  ]

  peek_from-FirstOf :
      (i left last : ℕ) → last ≡ i + left → FirstOf test entry i last (peek_from test entry i left)
  unfolding peek_from
  peek_from-FirstOf i zero last e = inr ((λ m l r. absurd (omega arith)), refl)
  peek_from-FirstOf i (suc left) last e = elim (Bool-cases (test i)) [
    | inl t ↦ inl (i, omega arith, omega arith, t, (λ m l r. absurd (omega arith)), rw t refl)
    | inr f ↦ elim (peek_from-FirstOf (i + 1) left last (omega arith)) [
      | inl (j, i≤j, j<last, passes, before, r) ↦
          inl (j, omega arith, j<last, passes, fails_from i j f before, rw f r)
      | inr (none_of, r) ↦ inr (fails_from i last f none_of, rw f r)
    ]
  ]

-- The entries of a queue's memory, by whether it is contiguous: those at its address, or those of the
-- buffer it has then.
abbrev pub EntriesOf {ℓ} : {E : Type ℓ} → QueueMemory E → Queue → (ℕ → E) → Type ℓ
EntriesOf mem q entry =
    ((get_is_contig q ≡ ok true) × (entry ≡ mem.at_address q.contig_buf))
    ⊎ ((b : QueueBuffer) × (get_is_contig q ≡ ok false)
        × (q.discontig_buf ≡ some b)
        × (entry ≡ mem.in_buffer b))

module _ {ℓ} {E : Type ℓ} (mem : QueueMemory E) (q : Queue) where
  data_ptr-thrown : get_is_contig q ≡ thrown → data_ptr mem q ≡ thrown
  unfolding data_ptr
  data_ptr-thrown e = rw (e, data_ptr) refl

  data_ptr-contig : get_is_contig q ≡ ok true → data_ptr mem q ≡ ok (mem.at_address q.contig_buf)
  unfolding data_ptr
  data_ptr-contig e = rw (e, data_ptr) refl

  data_ptr-discontig :
      (b : QueueBuffer)
      → get_is_contig q ≡ ok false
      → q.discontig_buf ≡ some b
      → data_ptr mem q ≡ ok (mem.in_buffer b)
  unfolding data_ptr
  data_ptr-discontig b e f = rw (e, data_ptr, f) refl

  -- A queue that is not contiguous has a buffer.
  has_buffer : get_is_contig q ≡ ok false → (b : QueueBuffer) × (q.discontig_buf ≡ some b)
  unfolding get_is_contig
  has_buffer e = elim (Option-cases q.discontig_buf) [
    | inl n ↦ absurd (ground (arith, e, n))
    | inr found ↦ found
  ]

  data_ptr-EntriesOf :
      (contig : Bool)
      → get_is_contig q ≡ ok contig
      → (entry : ℕ → E) × EntriesOf mem q entry × (data_ptr mem q ≡ ok entry)
  data_ptr-EntriesOf true e = (mem.at_address q.contig_buf, inl (e, refl), data_ptr-contig e)
  data_ptr-EntriesOf false e =
      let (b, f) = has_buffer e in (mem.in_buffer b, inr (b, e, f, refl), data_ptr-discontig b e f)

  module _ (test : E → ℕ → Bool) where
    peek_at-thrown : get_is_contig q ≡ thrown → peek_at test mem q ≡ thrown
    unfolding peek_at
    peek_at-thrown e = rw (data_ptr-thrown e, peek_at) refl

    peek_at-FirstOf :
        (entry : ℕ → E)
        → data_ptr mem q ≡ ok entry
        → FirstOf (λ i. test (entry i) i) entry 0 q.num_entries (peek_at test mem q)
    unfolding peek_at
    peek_at-FirstOf entry e =
        rw (e, peek_at)
          (peek_from-FirstOf (λ i. test (entry i) i) entry 0 q.num_entries _ (omega arith))

-- The first entry with an index is the one at it.
at_index {ℓ} :
    {E : Type ℓ} (entry : ℕ → E) (index n : ℕ) (r : Result E)
    → FirstOf (λ i. i == index) entry 0 n r
    → ((index < n) × (r ≡ ok (entry index))) ⊎ ((n ≤ index) × (r ≡ thrown))
at_index entry index n r (inl (j, _, j<n, t, _, e)) =
    let same : j ≡ index = ground arith in inl (omega arith, e ∙ ap (λ i. ok (entry i)) same)
at_index entry index n r (inr (none_of, e)) = elim (dec_lt index n) [
  | yes l ↦ absurd (false≢true (sym (none_of index (omega arith) l) ∙ ground arith))
  | no g ↦ inr (omega arith, e)
]

-- On a queue on which GetIsContig throws, PeekCE, PeekSE and PeekCEwithCID throw. On any other the
-- entries are those at the address of the contiguous memory if GetIsContig returns true, and those
-- of the buffer that the queue has if it returns false; PeekCE and PeekSE return the entry at the
-- index if it is below the number of entries, and throw otherwise; PeekCEwithCID returns the first
-- of the entries with that CID, and throws if none has it.
pub peek_lem {ℓ} :
    {E : Type ℓ} (mem : QueueMemory E) (cid : E → ℕ) (index wanted : ℕ) (q : Queue)
    → ((get_is_contig q ≡ thrown)
        × (peek mem index q ≡ thrown)
        × (peek_with_cid cid mem wanted q ≡ thrown))
      ⊎ ((entry : ℕ → E) × EntriesOf mem q entry
          × (((index < q.num_entries) × (peek mem index q ≡ ok (entry index)))
              ⊎ ((q.num_entries ≤ index) × (peek mem index q ≡ thrown)))
          × FirstOf
              (λ i. cid (entry i) == wanted)
              entry
              0
              q.num_entries
              (peek_with_cid cid mem wanted q))
unfolding peek peek_with_cid
peek_lem mem cid index wanted q = elim (Result-cases (get_is_contig q)) [
  | inl e ↦ inl (e, peek_at-thrown mem q _ e, peek_at-thrown mem q _ e)
  | inr (c, e) ↦
      let (entry, entries, ptr) = data_ptr-EntriesOf mem q c e in
      inr (
        entry,
        entries,
        at_index entry index _ _ (peek_at-FirstOf mem q _ entry ptr),
        peek_at-FirstOf mem q _ entry ptr,
      )
]
