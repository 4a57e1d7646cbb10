-- ===== src/Cmdline/Digits.antt =====
-- The digits of a number in front of a text, as `%ld` and `%lx` print them.
use tnvme.Base.{
  ℕ, zero, suc, ◌+◌, ◌-◌, ◌*◌, ◌/◌, ◌%◌, ◌≤◌, ◌<◌, ◌≡◌, inl, inr, refl, sym, ap, ◌∙◌, some, [], ◌∷◌,
  ◌++◌, append_assoc, ltb, ltb→lt, ltb→le, lt→ltb, if◌then◌else◌, arith, Bool-cases,
}
use tnvme.Cmdline.Text.{Text, digit_value, digit, scan}

abbrev pub digit_char : ℕ → ℕ
digit_char d = if ltb d 10 then b'0' + d else b'a' + d - 10

-- One round for each digit; the number itself is enough rounds.
unfoldable pub digits : ℕ → ℕ → ℕ → Text → Text
digits base zero n out = out
digits base (suc rounds) n out =
    let more = digits base rounds (n / base) (digit_char (n % base) ∷ out) in
    if ltb n base then digit_char n ∷ out else more

unfoldable pub print_dec : ℕ → Text → Text
print_dec n = digits 10 (suc n) n

unfoldable pub print_hex : ℕ → Text → Text
print_hex n = digits 16 (suc n) n

-- A base in which every number is made of its last digit and the ones before it.
pub record IsBase (base : ℕ) : Type 0 where
  pub at_most : base ≤ 16
  pub last : (n : ℕ) → (n % base < base) × (n / base * base + n % base ≡ n)
  pub fewer : (n r : ℕ) → base ≤ n → n < suc r → n / base < r

pub decimal-IsBase : IsBase 10
decimal-IsBase = record {
  at_most = omega arith;
  last = λ n. omega arith;
  fewer = λ n r h k. omega arith;
}

pub hexadecimal-IsBase : IsBase 16
hexadecimal-IsBase = record {
  at_most = omega arith;
  last = λ n. omega arith;
  fewer = λ n r h k. omega arith;
}

pub digit_value-digit_char : (d : ℕ) → d < 16 → digit_value (digit_char d) ≡ some d
unfolding digit_value
digit_value-digit_char d h = ground arith

pub digit-digit_char : (base d : ℕ) → base ≤ 16 → d < base → digit base (digit_char d) ≡ some d
unfolding digit
digit-digit_char base d small h =
    rw (digit_value-digit_char d (omega arith), digit, lt→ltb d base h) refl

abbrev pub AllDigits : ℕ → Text → Type 0
AllDigits base [] = Unit {0}
AllDigits base (c ∷ s) = ((d : ℕ) × (d < base) × (c ≡ digit_char d)) × AllDigits base s

AllDigits-snoc :
    (base : ℕ) (s : Text) (d : ℕ)
    → AllDigits base s
    → d < base
    → AllDigits base (s ++ digit_char d ∷ [])
AllDigits-snoc base [] d all h = ((d, h, refl), tt)
AllDigits-snoc base (c ∷ s) d (here, all) h = (here, AllDigits-snoc base s d all h)

module _ (base : ℕ) (B : IsBase base) where
  scan_step :
      (n d : ℕ) (s : Text) → d < base → scan base n (digit_char d ∷ s) ≡ scan base (n * base + d) s
  unfolding scan
  scan_step n d s h = rw (digit-digit_char base d B.at_most h, scan) refl

  -- Scanning the digits is reading their number.
  pub scan-digits :
      (rounds n : ℕ) (out : Text)
      → n < rounds
      → scan base 0 (digits base rounds n out) ≡ scan base n out
  unfolding digits
  scan-digits zero n out h = absurd (omega arith)
  scan-digits (suc r) n out h = elim (Bool-cases (ltb n base)) [
    | inl t ↦ rw t (scan_step 0 n out (ltb→lt n base t) ∙ ap (λ k. scan base k out) (omega arith))
    | inr f ↦ rw f (
        scan-digits r (n / base) _ (B.fewer n r (ltb→le n base f) h)
        ∙ scan_step (n / base) (n % base) out (B.last n).0
        ∙ ap (λ k. scan base k out) (B.last n).1)
  ]

  -- The digits are at least one, and none of them depends on what follows.
  pub digits_shape :
      (rounds n : ℕ)
      → n < rounds
      → (d : ℕ) × (s : Text) × (d < base)
        × AllDigits base s
        × ((out : Text) → digits base rounds n out ≡ (digit_char d ∷ s) ++ out)
  unfolding digits
  digits_shape zero n h = absurd (omega arith)
  digits_shape (suc r) n h = elim (Bool-cases (ltb n base)) [
    | inl t ↦ (n, [], ltb→lt n base t, tt, λ out. rw t refl)
    | inr f ↦
        let (d, s, below, all, e) = digits_shape r (n / base) (B.fewer n r (ltb→le n base f) h) in
        (
          d,
          s ++ digit_char (n % base) ∷ [],
          below,
          AllDigits-snoc base s (n % base) all (B.last n).0,
          λ out. rw f (
              e (digit_char (n % base) ∷ out)
              ∙ sym (append_assoc (digit_char d ∷ s) (digit_char (n % base) ∷ []) out)),
        )
  ]
