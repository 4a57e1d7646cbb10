-- ===== src/Cmds/Update.antt =====
-- Fields inside a byte or a word: a read, a mask and a write change the masked bits only, and the
-- fields that a write changes and leaves.
use tnvme.Base.{
  ℕ, ◌+◌, ◌-◌, ◌*◌, ◌/◌, ◌^◌, ◌≤◌, ◌<◌, ◌≡◌, ◌∙◌, bit_and, bit_or, min, max, length, arith, dec_lt,
}
use tnvme.Base.Bits.{bit, bit-le, bit-and, bit-or, bit_above, bit-shl, bit-shl_below, bit_not}
use tnvme.Cmds.Field.{mask_of, mask_in, mask_out, bit-get_inside}
use tnvme.Cmds.Cmd.{Cmd, update}
use tnvme.Cmds.Writes.{IsValid, Writes, Wrote, dword, field, get_bits_ok, set_bits-Wrote}

-- The bits of `bits` are `n` digits of `v` at bit `lo`.
pub record Placed (bits lo n v : ℕ) : Type 0 where
  pub placed : (j : ℕ) → j < n → bit bits (lo + j) ≡ bit v j
  pub low : (i : ℕ) → i < lo → bit bits i ≡ 0
  pub high : (j : ℕ) → n ≤ j → bit bits (lo + j) ≡ 0

-- `v << lo` for a value of `n` bits
pub shifted : (v lo n : ℕ) → v < 2 ^ n → Placed (v * 2 ^ lo) lo n v
shifted v lo n p = record {
  placed = λ j h. bit-shl lo v j;
  low = λ i h. bit-shl_below lo v i h;
  high = λ j h. bit-shl lo v j ∙ bit_above n v j p h;
}

-- `v & mask`
pub masked : (v n mask : ℕ) → mask ≡ mask_of n → Placed (bit_and v mask) 0 n v
masked v n mask e = record {
  placed = λ j h. rw e (digit_in j h);
  low = λ i h. absurd (omega arith);
  high = λ j h. rw e (digit_out j h);
}
  where
    start : (j : ℕ) → 0 + j ≡ j
    start j = omega arith

    digit_in : (j : ℕ) → j < n → bit (bit_and v (mask_of n)) (0 + j) ≡ bit v j
    digit_in j h = rw (start j) (omega (arith, bit-and v (mask_of n) j, mask_in n j h, bit-le v j))

    digit_out : (j : ℕ) → n ≤ j → bit (bit_and v (mask_of n)) (0 + j) ≡ 0
    digit_out j h = rw (start j) (omega (arith, bit-and v (mask_of n) j, mask_out n j h))

module _ (c : Cmd) (V : IsValid c) (w off m : ℕ) (big : w < length c.dwords)
    (fit : off + 1 ≤ 32 / m) (lo n v mask bits : ℕ) (is_mask : mask ≡ mask_of n * 2 ^ lo)
    (narrow : mask < 2 ^ m) (inner : lo + n ≤ m) (P : Placed bits lo n v) where
  work : ℕ
  work = field c w (off * m) m

  updated : ℕ
  updated = bit_or (bit_and work (2 ^ m - 1 - mask)) bits

  updated_digit :
      (i : ℕ) → i < m → bit updated i ≡ max (min (bit work i) (1 - bit mask i)) (bit bits i)
  unfolding updated
  updated_digit i h = omega (
    arith,
    bit-or (bit_and work (2 ^ m - 1 - mask)) bits i,
    bit-and work (2 ^ m - 1 - mask) i,
    bit_not m mask i narrow h,
  )

  work_digit : (i : ℕ) → i < m → bit work i ≡ bit (dword c w) (off * m + i)
  unfolding work field
  work_digit i h = bit-get_inside (dword c w) (off * m) m i h

  mask_digit : (j : ℕ) → bit mask (lo + j) ≡ bit (mask_of n) j
  mask_digit j = rw is_mask (bit-shl lo (mask_of n) j)

  mask_low : (i : ℕ) → i < lo → bit mask i ≡ 0
  mask_low i h = rw is_mask (bit-shl_below lo (mask_of n) i h)

  updated_in : (j : ℕ) → j < n → bit updated (lo + j) ≡ bit v j
  updated_in j h = omega (
    arith,
    updated_digit (lo + j) (omega arith),
    mask_digit j,
    mask_in n j h,
    P.placed j h,
    bit-le v j,
  )

  updated_low : (i : ℕ) → i < lo → bit updated i ≡ bit (dword c w) (off * m + i)
  updated_low i h = omega (
    arith,
    updated_digit i (omega arith),
    work_digit i (omega arith),
    mask_low i h,
    P.low i h,
    bit-le work i,
  )

  updated_high :
      (j : ℕ) → n ≤ j → lo + j < m → bit updated (lo + j) ≡ bit (dword c w) (off * m + (lo + j))
  updated_high j h l = omega (
    arith,
    updated_digit (lo + j) l,
    work_digit (lo + j) l,
    mask_digit j,
    mask_out n j h,
    P.high j h,
    bit-le work (lo + j),
  )

  narrower : (r : Cmd) → Writes c w (off * m) m updated r → Writes c w (off * m + lo) n v r
  narrower r W = record {
    valid = W.valid;
    same_size = W.same_size;
    same_dir = W.same_dir;
    other = W.other;
    inside = λ j h.
        let e : off * m + lo + j ≡ off * m + (lo + j) = omega arith in
        rw e (W.inside (lo + j) (omega arith) ∙ updated_in j h);
    below = low_part;
    above = high_part;
  }
    where
      low_part : (i : ℕ) → i < off * m + lo → bit (dword r w) i ≡ bit (dword c w) i
      low_part i h = elim (dec_lt i (off * m)) [
        | yes p ↦ W.below i p
        | no p ↦
            let e : i ≡ off * m + (i - off * m) = omega arith in
            rw e (W.inside (i - off * m) (omega arith) ∙ updated_low (i - off * m) (omega arith))
      ]

      high_part :
          (j : ℕ)
          → n ≤ j
          → off * m + lo + j < 32
          → bit (dword r w) (off * m + lo + j) ≡ bit (dword c w) (off * m + lo + j)
      high_part j h l =
          let e : off * m + lo + j ≡ off * m + (lo + j) = omega arith in
          rw e (elim (dec_lt (lo + j) m) [
            | yes p ↦ W.inside (lo + j) p ∙ updated_high j h p
            | no p ↦ W.above (lo + j) (omega arith) (omega arith)
          ])

  pub update-Wrote : Wrote (update m mask bits w off c) c w (off * m + lo) n v
  unfolding Wrote work updated
  update-Wrote =
      let s = set_bits-Wrote c V w off m big fit updated in
      (s.0, rw (get_bits_ok c V w off m big fit) s.1, narrower s.0 s.2)
