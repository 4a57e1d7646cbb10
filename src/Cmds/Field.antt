-- ===== src/Cmds/Field.antt =====
-- The arithmetic of `Cmd::SetBits` and `Cmd::GetBits` on one DWORD: a field of `n` bits at bit
-- `k`, digit by digit.
use tnvme.Base.{
  ℕ, zero, suc, ◌+◌, ◌-◌, ◌*◌, ◌/◌, ◌%◌, ◌^◌, ◌≤◌, ◌<◌, ◌≡◌, sym, ap, ◌∙◌, min, max, bit_and,
  bit_or, arith, dec_lt,
}
use tnvme.Base.Bits.{
  bit, bit-le, bit-and, bit-or, bits_ext, bit_above, bit-shl, bit-shl_below, bit-shr, bit_not,
  bit_mod, bit_or-lt, bit_and-lt, shr-lt, bit_pow_self,
}
use native.Mathlib.Nat.{pow-suc}

-- `for (i = 0; i < numBits; i++) mask |= (0x1 << i);`
unfoldable pub mask_of : ℕ → ℕ
mask_of zero = 0
mask_of (suc i) = bit_or (mask_of i) (2 ^ i)

-- `dw &= ~(mask << k); dw |= ((uint32_t)(newVal & mask) << k);`
unfoldable pub put_field : ℕ → ℕ → ℕ → ℕ → ℕ
unfolding mask_of
put_field dw v k n =
    bit_or (bit_and dw (2 ^ 32 - 1 - (mask_of n * 2 ^ k) % 2 ^ 32))
      ((bit_and v (mask_of n) * 2 ^ k) % 2 ^ 32)

-- `(dw >> k) & mask`
unfoldable pub get_field : ℕ → ℕ → ℕ → ℕ
unfolding mask_of
get_field dw k n = bit_and (dw / 2 ^ k) (mask_of n)

mask-lt : (n : ℕ) → mask_of n < 2 ^ n
unfolding mask_of
mask-lt zero = omega arith
mask-lt (suc n) =
    let twice : 2 ^ suc n ≡ 2 * 2 ^ n = omega (arith, pow-suc 2 n) in
    bit_or-lt (suc n) (mask_of n) (2 ^ n) (omega (arith, mask-lt n)) (omega (arith, mask-lt n))

pub mask_in : (n i : ℕ) → i < n → bit (mask_of n) i ≡ 1
unfolding mask_of
mask_in zero i h = absurd (omega arith)
mask_in (suc n) i h = elim (dec_lt i n) [
  | yes p ↦ omega (arith, bit-or (mask_of n) (2 ^ n) i, mask_in n i p, bit-le (2 ^ n) i)
  | no p ↦
      let e : i ≡ n = omega arith in
      rw e (omega (arith, bit-or (mask_of n) (2 ^ n) n, bit_pow_self n, bit-le (mask_of n) n))
]

pub mask_out : (n i : ℕ) → n ≤ i → bit (mask_of n) i ≡ 0
mask_out n i h = bit_above n (mask_of n) i (mask-lt n) h

-- The digits of the DWORD after a write: those of the value inside the field, the old ones
-- outside.
module _ (dw v k n : ℕ) (fits : k + n ≤ 32) where
  hole : ℕ → ℕ
  hole i = bit (2 ^ 32 - 1 - (mask_of n * 2 ^ k) % 2 ^ 32) i

  hole_lem : (i : ℕ) → i < 32 → hole i ≡ 1 - bit (mask_of n * 2 ^ k) i
  unfolding hole
  hole_lem i h =
      bit_not 32 ((mask_of n * 2 ^ k) % 2 ^ 32) i (omega arith) h
      ∙ ap (λ t. 1 - t) (bit_mod 32 (mask_of n * 2 ^ k) i h)

  put_digit :
      (i : ℕ)
      → i < 32
      → bit (put_field dw v k n) i
        ≡ max
            (min (bit dw i) (1 - bit (mask_of n * 2 ^ k) i))
            (bit (bit_and v (mask_of n) * 2 ^ k) i)
  unfolding put_field hole
  put_digit i h = omega (
    arith,
    bit-or (bit_and dw (2 ^ 32 - 1 - (mask_of n * 2 ^ k) % 2 ^ 32))
        ((bit_and v (mask_of n) * 2 ^ k) % 2 ^ 32) i,
    bit-and dw (2 ^ 32 - 1 - (mask_of n * 2 ^ k) % 2 ^ 32) i,
    hole_lem i h,
    bit_mod 32 (bit_and v (mask_of n) * 2 ^ k) i h,
  )

  pub bit-put_inside : (j : ℕ) → j < n → bit (put_field dw v k n) (k + j) ≡ bit v j
  bit-put_inside j h = omega (
    arith,
    put_digit (k + j) (omega arith),
    bit-shl k (mask_of n) j,
    bit-shl k (bit_and v (mask_of n)) j,
    bit-and v (mask_of n) j,
    mask_in n j h,
    bit-le v j,
  )

  pub bit-put_below : (i : ℕ) → i < k → bit (put_field dw v k n) i ≡ bit dw i
  bit-put_below i h = omega (
    arith,
    put_digit i (omega arith),
    bit-shl_below k (mask_of n) i h,
    bit-shl_below k (bit_and v (mask_of n)) i h,
    bit-le dw i,
  )

  pub bit-put_above :
      (j : ℕ) → n ≤ j → k + j < 32 → bit (put_field dw v k n) (k + j) ≡ bit dw (k + j)
  bit-put_above j h l = omega (
    arith,
    put_digit (k + j) l,
    bit-shl k (mask_of n) j,
    bit-shl k (bit_and v (mask_of n)) j,
    bit-and v (mask_of n) j,
    mask_out n j h,
    bit-le dw (k + j),
  )

  pub put_field-lt : dw < 2 ^ 32 → put_field dw v k n < 2 ^ 32
  unfolding put_field
  put_field-lt h = bit_or-lt 32 _ _ (bit_and-lt 32 dw _ h) (omega arith)

-- The digits of a field.
pub bit-get_inside : (dw k n j : ℕ) → j < n → bit (get_field dw k n) j ≡ bit dw (k + j)
unfolding get_field
bit-get_inside dw k n j h =
    omega
      (arith, bit-and (dw / 2 ^ k) (mask_of n) j, bit-shr k dw j, mask_in n j h, bit-le dw (k + j))

pub bit-get_above : (dw k n j : ℕ) → n ≤ j → bit (get_field dw k n) j ≡ 0
unfolding get_field
bit-get_above dw k n j h = omega (arith, bit-and (dw / 2 ^ k) (mask_of n) j, mask_out n j h)

pub get_field-lt : (dw k n : ℕ) → dw < 2 ^ 32 → get_field dw k n < 2 ^ 32
unfolding get_field
get_field-lt dw k n h = bit_and-lt 32 _ _ (shr-lt 32 k dw h)

-- Fields are equal when the digits that they stand for are.
pub get_field_ext :
    (a b k l n : ℕ)
    → a < 2 ^ 32
    → b < 2 ^ 32
    → ((j : ℕ) → j < n → bit a (k + j) ≡ bit b (l + j))
    → get_field a k n ≡ get_field b l n
get_field_ext a b k l n p q h = bits_ext 32 _ _ (get_field-lt a k n p) (get_field-lt b l n q) digit
  where
    digit : (i : ℕ) → i < 32 → bit (get_field a k n) i ≡ bit (get_field b l n) i
    digit i _ = elim (dec_lt i n) [
      | yes r ↦ bit-get_inside a k n i r ∙ (h i r ∙ sym (bit-get_inside b l n i r))
      | no r ↦ bit-get_above a k n i (omega arith) ∙ sym (bit-get_above b l n i (omega arith))
    ]
