-- ===== src/Cmdline/Words/Back.antt =====
-- What `ParseErrorCmdLine` and `ParseQueuesCmdLine` read from printed numbers.
use tnvme.Base.{
  ℕ, ◌-◌, ◌^◌, ◌≤◌, ◌<◌, ◌≡◌, ◌⊎◌, inl, inr, refl, ◌∙◌, true, false, Option, none, some, List, [],
  ◌∷◌, if◌then◌else◌, ltb, arith, Bool-cases,
}
use tnvme.Suite.Test.{ErrorRegs}
use tnvme.Cmdline.Text.{Text, digit_value, digit, starts, after, ends_at, is_empty}
use tnvme.Cmdline.Digits.{print_hex}
use tnvme.Cmdline.Printed.{strtoul-print_hex, after-print_hex, is_empty-print_hex}
use tnvme.Cmdline.Words.{
  NumQueues, word, error_csts, error_aeruces, error_pxds, no_errors, parse_error_cmd_line,
  queues_nsqr, no_queues, parse_queues_cmd_line,
}

-- The number, if it has 16 bits.
abbrev pub narrow : ℕ → Option ℕ
narrow n = if ltb (2 ^ 16 - 1) n then none else some n

colon : starts 16 (b':' ∷ []) ≡ false
unfolding starts digit
colon = refl

no_colon : digit_value b':' ≡ none
unfolding digit_value
no_colon = refl

word_at :
    (n : ℕ) (out : Text) → n < 2 ^ 64 → word (ends_at b':') (print_hex n (b':' ∷ out)) ≡ narrow n
unfolding word ends_at starts digit
word_at n out h =
    rw (strtoul-print_hex n (b':' ∷ out) h refl (omega arith, omega arith)) (ground arith)

word_end : (n : ℕ) → n < 2 ^ 64 → word is_empty (print_hex n []) ≡ narrow n
unfolding word is_empty starts
word_end n h = rw (strtoul-print_hex n [] h refl tt) (ground arith)

-- What is done with a number that may not fit.
narrow_cases {ℓ} :
    {A : Type ℓ} (n : ℕ) (x : A) (f : ℕ → A)
    → (let r : A = elim (narrow n) [ none ↦ x | some m ↦ f m ] in r)
      ≡ (if ltb (2 ^ 16 - 1) n then x else f n)
narrow_cases n x f = elim (Bool-cases (ltb (2 ^ 16 - 1) n)) [
  | inl t ↦ rw t refl
  | inr e ↦ rw e refl
]

module _ (n : ℕ) (out : Text) (h : n < 2 ^ 64) where
  sts_step : parse_error_cmd_line (print_hex n (b':' ∷ out)) ≡ (
      if ltb (2 ^ 16 - 1) n
      then (false, no_errors)
      else error_pxds out (record no_errors { sts = n }))
  unfolding parse_error_cmd_line
  sts_step =
      rw (word_at n out h, parse_error_cmd_line)
        (narrow_cases n (false, no_errors)
            (λ m. error_pxds (after b':' (print_hex n (b':' ∷ out))) (record no_errors { sts = m }))
          ∙ rw (after-print_hex b':' n out no_colon) refl)

  module _ (regs : ErrorRegs) where
    pxds_step : error_pxds (print_hex n (b':' ∷ out)) regs ≡ (
        if ltb (2 ^ 16 - 1) n then (false, regs) else error_aeruces out (record regs { pxds = n }))
    unfolding error_pxds
    pxds_step =
        rw (word_at n out h, error_pxds)
          (narrow_cases n (false, regs)
              (λ m.
                error_aeruces (after b':' (print_hex n (b':' ∷ out))) (record regs { pxds = m }))
            ∙ rw (after-print_hex b':' n out no_colon) refl)

    aeruces_step : error_aeruces (print_hex n (b':' ∷ out)) regs ≡ (
        if ltb (2 ^ 16 - 1) n then (false, regs) else error_csts out (record regs { aeruces = n }))
    unfolding error_aeruces
    aeruces_step =
        rw (word_at n out h, error_aeruces)
          (narrow_cases n (false, regs)
              (λ m.
                error_csts (after b':' (print_hex n (b':' ∷ out))) (record regs { aeruces = m }))
            ∙ rw (after-print_hex b':' n out no_colon) refl)

  ncqr_step : parse_queues_cmd_line (print_hex n (b':' ∷ out)) ≡ (
      if ltb (2 ^ 16 - 1) n
      then (false, no_queues)
      else queues_nsqr out (record no_queues { ncqr = n }))
  unfolding parse_queues_cmd_line
  ncqr_step =
      rw (word_at n out h, parse_queues_cmd_line)
        (narrow_cases n (false, no_queues)
            (λ m.
              queues_nsqr (after b':' (print_hex n (b':' ∷ out))) (record no_queues { ncqr = m }))
          ∙ rw (after-print_hex b':' n out no_colon) refl)

csts_step :
    (n : ℕ) (regs : ErrorRegs)
    → n < 2 ^ 64
    → error_csts (print_hex n []) regs
      ≡ (if ltb (2 ^ 16 - 1) n then (false, regs) else (true, record regs { csts = n }))
unfolding error_csts
csts_step n regs h =
    rw (word_end n h, error_csts)
      (narrow_cases n (false, regs) (λ m. (true, record regs { csts = m })))

nsqr_step :
    (n : ℕ) (queues : NumQueues)
    → n < 2 ^ 64
    → queues_nsqr (print_hex n []) queues
      ≡ (if ltb (2 ^ 16 - 1) n then (false, queues) else (true, record queues { nsqr = n }))
unfolding queues_nsqr
nsqr_step n queues h =
    rw (is_empty-print_hex n [], word_end n h, queues_nsqr)
      (narrow_cases n (false, queues) (λ m. (true, record queues { nsqr = m })))

-- All fit in 16 bits, or one does not.
abbrev pub Narrow : List ℕ → Type 0
Narrow [] = Unit {0}
Narrow (n ∷ ns) = (n < 2 ^ 16) × Narrow ns

-- All are 64-bit numbers.
abbrev pub Long : List ℕ → Type 0
Long [] = Unit {0}
Long (n ∷ ns) = (n < 2 ^ 64) × Long ns

abbrev pub Wide : List ℕ → Type 0
Wide [] = ⊥
Wide (n ∷ ns) = (2 ^ 16 ≤ n) ⊎ Wide ns

abbrev pub printed_errors : ℕ → ℕ → ℕ → ℕ → Text
printed_errors sts pxds aeruces csts =
    print_hex sts (b':' ∷ print_hex pxds (b':' ∷ print_hex aeruces (b':' ∷ print_hex csts [])))

module _ (sts pxds aeruces csts : ℕ) (a : sts < 2 ^ 64) (b : pxds < 2 ^ 64) (c : aeruces < 2 ^ 64)
    (d : csts < 2 ^ 64) where
  pub parse_error_cmd_line-print :
      (Narrow (sts ∷ pxds ∷ aeruces ∷ csts ∷ [])
        × (parse_error_cmd_line (printed_errors sts pxds aeruces csts)
            ≡ (true, record { sts = sts; pxds = pxds; aeruces = aeruces; csts = csts })))
      ⊎ (Wide (sts ∷ pxds ∷ aeruces ∷ csts ∷ [])
          × ((parse_error_cmd_line (printed_errors sts pxds aeruces csts)).0 ≡ false))
  parse_error_cmd_line-print =
      let regs : ErrorRegs = record no_errors { sts = sts } in
      let regs' : ErrorRegs = record regs { pxds = pxds } in
      let regs'' : ErrorRegs = record regs' { aeruces = aeruces } in
      ground (
        arith,
        sts_step sts (print_hex pxds (b':' ∷ print_hex aeruces (b':' ∷ print_hex csts []))) a,
        pxds_step pxds (print_hex aeruces (b':' ∷ print_hex csts [])) b regs,
        aeruces_step aeruces (print_hex csts []) c regs',
        csts_step csts regs'' d,
      )

pub parse_queues_cmd_line-print :
    (ncqr nsqr : ℕ)
    → ncqr < 2 ^ 64
    → nsqr < 2 ^ 64
    → (Narrow (ncqr ∷ nsqr ∷ [])
        × (parse_queues_cmd_line (print_hex ncqr (b':' ∷ print_hex nsqr []))
            ≡ (true, record { req = true; ncqr = ncqr; nsqr = nsqr })))
      ⊎ (Wide (ncqr ∷ nsqr ∷ [])
          × ((parse_queues_cmd_line (print_hex ncqr (b':' ∷ print_hex nsqr []))).0 ≡ false))
parse_queues_cmd_line-print ncqr nsqr a b = ground (
  arith,
  ncqr_step ncqr (print_hex nsqr []) a,
  nsqr_step nsqr (record no_queues { ncqr = ncqr }) b,
)

-- For 64-bit numbers printed in hexadecimal digits with colons between them: ParseErrorCmdLine of
-- four, and ParseQueuesCmdLine of two, accept them and return them if all are below 2^16, and
-- refuse them if one is not.
pub words_back :
    (sts pxds aeruces csts ncqr nsqr : ℕ)
    → Long (sts ∷ pxds ∷ aeruces ∷ csts ∷ ncqr ∷ nsqr ∷ [])
    → ((Narrow (sts ∷ pxds ∷ aeruces ∷ csts ∷ [])
          × (parse_error_cmd_line (printed_errors sts pxds aeruces csts)
              ≡ (true, record { sts = sts; pxds = pxds; aeruces = aeruces; csts = csts })))
        ⊎ (Wide (sts ∷ pxds ∷ aeruces ∷ csts ∷ [])
            × ((parse_error_cmd_line (printed_errors sts pxds aeruces csts)).0 ≡ false)))
      × ((Narrow (ncqr ∷ nsqr ∷ [])
            × (parse_queues_cmd_line (print_hex ncqr (b':' ∷ print_hex nsqr []))
                ≡ (true, record { req = true; ncqr = ncqr; nsqr = nsqr })))
          ⊎ (Wide (ncqr ∷ nsqr ∷ [])
              × ((parse_queues_cmd_line (print_hex ncqr (b':' ∷ print_hex nsqr []))).0 ≡ false)))
words_back sts pxds aeruces csts ncqr nsqr (a, (b, (c, (d, (e, (f, _)))))) = (
  parse_error_cmd_line-print sts pxds aeruces csts a b c d,
  parse_queues_cmd_line-print ncqr nsqr e f,
)
