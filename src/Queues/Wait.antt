-- ===== src/Queues/Wait.antt =====
-- The wait for completions ends, and what it then says.
use tnvme.Base.{
  ℕ, zero, suc, ◌+◌, ◌*◌, ◌≤◌, ◌<◌, ◌≡◌, ◌≢◌, ◌⊎◌, inl, inr, refl, Bool, true, false, ◌&&◌, not,
  Option, none, some, Result, ok, thrown, ltb, leb, ◌==◌, arith, Bool-cases,
}
use tnvme.Queues.{QueueIoctl, after_inquiry, wait_round, wait_loop, started, do_reap_inquiry}

-- A clock in microseconds that never goes back, and that a sleep moves on.
pub record Ticks {ℓ} {D : Type ℓ} (k : QueueIoctl D) (time : D → ℕ) : Type ℓ where
  pub tells : (d : D) → ((k.gettimeofday d).0 ≡ none) ⊎ ((k.gettimeofday d).0 ≡ some (time d))
  pub told : (d : D) → time d ≤ time (k.gettimeofday d).1
  pub inquired : (id : ℕ) (d : D) → time d ≤ time (k.reap_inquiry id d).1
  pub slept : (us : ℕ) (d : D) → time d + us ≤ time (k.usleep us d)

-- What a wait says: that enough completions are there, or that the time is over.
abbrev pub Waited {ℓ} : {D : Type ℓ} → (D → ℕ) → ℕ → ℕ → Result Bool × ℕ × D → Type 0
Waited time num_til limit r =
    (r.0 ≡ thrown)
    ⊎ (((r.0 ≡ ok true) × (r.1 ≢ 0) × (num_til ≤ r.1)) ⊎ ((r.0 ≡ ok false) × (limit ≤ time r.2)))

leb→le : (a b : ℕ) → leb a b ≡ true → a ≤ b
leb→le a b h = ground arith

leb→lt : (a b : ℕ) → leb a b ≡ false → b < a
leb→lt a b h = ground arith

module _ {ℓ} {D : Type ℓ} (k : QueueIoctl D) (time : D → ℕ) (ticks : Ticks k time)
    (id ms num_til initial : ℕ) where
  limit : ℕ
  limit = initial + ms * 1000

  abbrev Ends : Option (Result Bool × ℕ × D) → Type ℓ
  Ends o = (r : Result Bool × ℕ × D) × (o ≡ some r) × Waited time num_til limit r

  inquiry-Ends :
      (rest : ℕ → D → Option (Result Bool × ℕ × D)) (num_ce : ℕ) (o : Option (ℕ × ℕ)) (d : D)
      → ((c : ℕ) → Ends (rest c (k.usleep 10 d)))
      → Ends (after_inquiry k rest num_til num_ce o d)
  unfolding after_inquiry
  inquiry-Ends rest num_ce none d h = ((thrown, num_ce, k.frmwk_ex d), refl, inl refl)
  inquiry-Ends rest num_ce (some (c, isr)) d h = elim (Bool-cases (not (c == 0) && leb num_til c)) [
    | inl t ↦ ((ok true, c, d), rw t refl, inr (inl (refl, ground arith, ground arith)))
    | inr f ↦ let (r, e, w) = h c in (r, rw f e, w)
  ]

  -- A round that begins in the state `d`.
  round-Ends :
      (rest : ℕ → D → Option (Result Bool × ℕ × D)) (num_ce : ℕ) (d : D)
      → (time d < limit
          → (c : ℕ) → Ends (rest c (k.usleep 10 (k.reap_inquiry id (k.gettimeofday d).1).1)))
      → Ends
          (wait_round k rest id ms initial num_til num_ce (k.gettimeofday d).0 (k.gettimeofday d).1)
  unfolding wait_round limit
  round-Ends rest num_ce d h = elim (ticks.tells d) [
    | inl e ↦ ((thrown, num_ce, k.frmwk_ex (k.gettimeofday d).1), rw e refl, inl refl)
    | inr e ↦ elim (Bool-cases (leb (initial + ms * 1000) (time d))) [
      | inl t ↦ (
        (ok false, num_ce, (k.gettimeofday d).1),
        rw (e, t) refl,
        inr (inr (refl, omega (arith, leb→le _ _ t, ticks.told d))),
      )
      | inr f ↦
          rw (e, f)
            (inquiry-Ends rest num_ce (k.reap_inquiry id (k.gettimeofday d).1).0
              (k.reap_inquiry id (k.gettimeofday d).1).1 (h (leb→lt _ _ f)))
    ]
  ]

  loop-Ends :
      (n num_ce : ℕ) (d : D)
      → limit ≤ time d + n * 10
      → Ends (wait_loop k (suc n) id ms initial num_til num_ce d)
  unfolding wait_loop
  loop-Ends zero num_ce d h =
      round-Ends (wait_loop k zero id ms initial num_til) num_ce d (λ l c. absurd (omega arith))
  loop-Ends (suc n) num_ce d h =
      let d1 = (k.gettimeofday d).1 in
      let d2 = (k.reap_inquiry id d1).1 in
      round-Ends (wait_loop k (suc n) id ms initial num_til) num_ce d (λ l c.
        loop-Ends n c (k.usleep 10 d2)
          (omega (arith, ticks.told d, ticks.inquired id d1, ticks.slept 10 d2)))

-- With a clock in microseconds that never goes back and that a sleep of 10 moves on by at least
-- 10: if the loop of DoReapInquiry may take more than 100 rounds for each millisecond, it ends
-- within them, whatever the driver answers. It then throws, or returns true with a number of
-- completions that is not 0 and is at least the one that was waited for, or returns false at a
-- time no earlier than the milliseconds after the call.
pub do_reap_inquiry-Waited {ℓ} :
    {D : Type ℓ} (k : QueueIoctl D) (time : D → ℕ) (id ms num_til num_ce fuel : ℕ) (d : D)
    → Ticks k time
    → ms * 100 < fuel
    → (r : Result Bool × ℕ × D) × (do_reap_inquiry k fuel id ms num_til num_ce d ≡ some r)
      × Waited time num_til (time d + ms * 1000) r
unfolding do_reap_inquiry started limit
do_reap_inquiry-Waited k time id ms num_til num_ce zero d ticks h = absurd (omega arith)
do_reap_inquiry-Waited k time id ms num_til num_ce (suc n) d ticks h =
    elim (Bool-cases (ltb 86400000 ms)) [
      | inl t ↦ ((thrown, num_ce, k.frmwk_ex d), rw t refl, inl refl)
      | inr f ↦ elim (ticks.tells d) [
        | inl e ↦ ((thrown, num_ce, k.frmwk_ex (k.gettimeofday d).1), rw (f, e) refl, inl refl)
        | inr e ↦
            rw (f, e)
              (loop-Ends k time ticks id ms num_til (time d) n num_ce (k.gettimeofday d).1
                (omega (arith, ticks.told d)))
      ]
    ]
