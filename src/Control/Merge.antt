-- ===== src/Control/Merge.antt =====
-- The bits of a register of at most 64 bits: a field that is read, and one that is written over.
use native.Mathlib.Nat.{pow-le-pow_right}
use tnvme.Base.{
  ℕ, ◌+◌, ◌-◌, ◌*◌, ◌/◌, ◌^◌, ◌≤◌, ◌<◌, ◌≡◌, sym, ◌∙◌, ◌⊎◌, inl, inr, min, max, bit_and, bit_or,
  arith, dec_lt,
}
use tnvme.Base.Bits.{
  bit, bit-le, bit-and, bit-or, bits_ext, bit_above, bit-shl, bit-shl_below, bit-shr, bit_not,
  bit_or-lt, bit_and-lt, shr-lt,
}
use tnvme.Cmds.Field.{mask_of, mask_in, mask_out, get_field, bit-get_inside, bit-get_above}
use tnvme.Cmds.Update.{Placed}

-- `(reg & ~mask) | bits`
unfoldable pub merge : ℕ → ℕ → ℕ → ℕ
merge reg mask bits = bit_or (bit_and reg (2 ^ 64 - 1 - mask)) bits

get_field-lt64 : (r k n : ℕ) → r < 2 ^ 64 → get_field r k n < 2 ^ 64
unfolding get_field
get_field-lt64 r k n h = bit_and-lt 64 (r / 2 ^ k) (mask_of n) (shr-lt 64 k r h)

-- Fields with the same digits are equal.
field_ext64 :
    (a b k l n : ℕ)
    → a < 2 ^ 64
    → b < 2 ^ 64
    → ((j : ℕ) → j < n → bit a (k + j) ≡ bit b (l + j))
    → get_field a k n ≡ get_field b l n
field_ext64 a b k l n p q h =
    bits_ext 64 (get_field a k n) (get_field b l n) (get_field-lt64 a k n p)
      (get_field-lt64 b l n q) digit
  where
    digit : (i : ℕ) → i < 64 → bit (get_field a k n) i ≡ bit (get_field b l n) i
    digit i _ = elim (dec_lt i n) [
      | yes r ↦ bit-get_inside a k n i r ∙ (h i r ∙ sym (bit-get_inside b l n i r))
      | no r ↦ bit-get_above a k n i (omega arith) ∙ sym (bit-get_above b l n i (omega arith))
    ]

module _ (reg mask bits lo n v : ℕ) (is_mask : mask ≡ mask_of n * 2 ^ lo) (fits : lo + n ≤ 64)
    (narrow : mask < 2 ^ 64) (wide : reg < 2 ^ 64) (P : Placed bits lo n v) where
  merge_digit :
      (i : ℕ)
      → i < 64
      → bit (merge reg mask bits) i ≡ max (min (bit reg i) (1 - bit mask i)) (bit bits i)
  unfolding merge
  merge_digit i h = omega (
    arith,
    bit-or (bit_and reg (2 ^ 64 - 1 - mask)) bits i,
    bit-and reg (2 ^ 64 - 1 - mask) i,
    bit_not 64 mask i narrow h,
  )

  mask_digit : (j : ℕ) → bit mask (lo + j) ≡ bit (mask_of n) j
  mask_digit j = rw is_mask (bit-shl lo (mask_of n) j)

  mask_low : (i : ℕ) → i < lo → bit mask i ≡ 0
  mask_low i h = rw is_mask (bit-shl_below lo (mask_of n) i h)

  merge_in : (j : ℕ) → j < n → bit (merge reg mask bits) (lo + j) ≡ bit v j
  merge_in j h = omega (
    arith,
    merge_digit (lo + j) (omega arith),
    mask_digit j,
    mask_in n j h,
    P.placed j h,
    bit-le v j,
  )

  merge_below : (i : ℕ) → i < lo → bit (merge reg mask bits) i ≡ bit reg i
  merge_below i h =
      omega (arith, merge_digit i (omega arith), mask_low i h, P.low i h, bit-le reg i)

  merge_above :
      (j : ℕ) → n ≤ j → lo + j < 64 → bit (merge reg mask bits) (lo + j) ≡ bit reg (lo + j)
  merge_above j h l =
      omega (
        arith,
        merge_digit (lo + j) l,
        mask_digit j,
        mask_out n j h,
        P.high j h,
        bit-le reg (lo + j),
      )

  module _ (small : bits < 2 ^ 64) where
    merge-lt : merge reg mask bits < 2 ^ 64
    unfolding merge
    merge-lt = bit_or-lt 64 (bit_and reg (2 ^ 64 - 1 - mask)) bits (bit_and-lt 64 reg _ wide) small

    -- The field that was written over is the value.
    pub merge_field : v < 2 ^ n → get_field (merge reg mask bits) lo n ≡ v
    merge_field h =
        bits_ext 64 (get_field (merge reg mask bits) lo n) v (get_field-lt64 _ lo n merge-lt) tall
          digit
      where
        tall : v < 2 ^ 64
        tall =
            let le : n ≤ 64 = omega arith in
            let pos : 0 < 2 = omega arith in omega (arith, pow-le-pow_right pos le)

        digit : (i : ℕ) → i < 64 → bit (get_field (merge reg mask bits) lo n) i ≡ bit v i
        digit i _ = elim (dec_lt i n) [
          | yes p ↦ bit-get_inside (merge reg mask bits) lo n i p ∙ merge_in i p
          | no p ↦
              bit-get_above (merge reg mask bits) lo n i (omega arith)
              ∙ sym (bit_above n v i h (omega arith))
        ]

    -- A field apart from it is what it was.
    pub merge_apart :
        (k m : ℕ)
        → k + m ≤ 64
        → (k + m ≤ lo) ⊎ (lo + n ≤ k)
        → get_field (merge reg mask bits) k m ≡ get_field reg k m
    merge_apart k m h q = field_ext64 (merge reg mask bits) reg k k m merge-lt wide (digit q)
      where
        digit :
            ((k + m ≤ lo) ⊎ (lo + n ≤ k))
            → (j : ℕ) → j < m
            → bit (merge reg mask bits) (k + j) ≡ bit reg (k + j)
        digit (inl l) j p = merge_below (k + j) (omega arith)
        digit (inr l) j p =
            let e : k + j ≡ lo + (k + j - lo) = omega arith in
            rw e (merge_above (k + j - lo) (omega arith) (omega arith))

-- `(reg & mask) >> lo`
pub masked_shift :
    (reg mask lo n : ℕ)
    → mask ≡ mask_of n * 2 ^ lo
    → reg < 2 ^ 64
    → bit_and reg mask / 2 ^ lo ≡ get_field reg lo n
masked_shift reg mask lo n e wide =
    bits_ext 64 (bit_and reg mask / 2 ^ lo) (get_field reg lo n)
      (shr-lt 64 lo (bit_and reg mask) (bit_and-lt 64 reg mask wide)) (get_field-lt64 reg lo n wide)
      digit
  where
    mask_at : (j : ℕ) → bit mask (lo + j) ≡ bit (mask_of n) j
    mask_at j = rw e (bit-shl lo (mask_of n) j)

    digit : (i : ℕ) → i < 64 → bit (bit_and reg mask / 2 ^ lo) i ≡ bit (get_field reg lo n) i
    digit i _ = elim (dec_lt i n) [
      | yes p ↦ omega (
        arith,
        bit-shr lo (bit_and reg mask) i,
        bit-and reg mask (lo + i),
        mask_at i,
        mask_in n i p,
        bit-get_inside reg lo n i p,
        bit-le reg (lo + i),
      )
      | no p ↦ omega (
        arith,
        bit-shr lo (bit_and reg mask) i,
        bit-and reg mask (lo + i),
        mask_at i,
        mask_out n i (omega arith),
        bit-get_above reg lo n i (omega arith),
      )
    ]
