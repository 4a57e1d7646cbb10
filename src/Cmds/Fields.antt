-- ===== src/Cmds/Fields.antt =====
-- What the getters of `Cmds/cmd.cpp` return after a write: the value in the field that was
-- written, and the old value in every field apart from it.
use native.Mathlib.Nat.{pow-le-pow_right, mod-lt}
use tnvme.Base.{
  ℕ, ◌+◌, ◌-◌, ◌*◌, ◌/◌, ◌%◌, ◌^◌, ◌≤◌, ◌<◌, ◌≡◌, ◌≢◌, refl, sym, ap, ◌∙◌, ◌⊎◌, inl, inr, bit_and,
  bit_or, arith, dec_lt, ℕ_discrete, Bool, true, false, ◌==◌,
}
use tnvme.Base.Bits.{
  bit, bit-le, bit-and, bit-or, bits_ext, bit_above, bit_mod, bit-shl, bit-shl_below, bit-shr,
  bit_and-lt, bit_or-lt, shr-lt,
}
use tnvme.Cmds.Field.{
  mask_of, mask_in, mask_out, get_field, bit-get_inside, bit-get_above, get_field-lt, get_field_ext,
}
use tnvme.Cmds.Cmd.{Cmd, bit_of}
use tnvme.Cmds.Writes.{IsValid, Writes, dword, field}

-- Two fields with no bit in common.
unfoldable pub Apart : ℕ → ℕ → ℕ → ℕ → ℕ → ℕ → Type 0
Apart w lo n u k m = (w ≢ u) ⊎ (k + m ≤ lo) ⊎ (lo + n ≤ k)

module _ (c : Cmd) (V : IsValid c) (w lo n v : ℕ) (r : Cmd) (W : Writes c w lo n v r) where
  -- The field that was written holds the low digits of the value, and so does its lower part.
  pub field_part : (k : ℕ) → k ≤ n → lo + n ≤ 32 → field r w lo k ≡ v % 2 ^ k
  unfolding field
  field_part k small_k h =
      bits_ext 32 (get_field (dword r w) lo k) (v % 2 ^ k)
        (get_field-lt (dword r w) lo k (W.valid.word32 w)) small digit
    where
      power : 2 ^ k ≤ 2 ^ 32
      power =
          let le : k ≤ 32 = omega arith in let pos : 0 < 2 = omega arith in pow-le-pow_right pos le

      low : v % 2 ^ k < 2 ^ k
      low =
          let pos : 0 < 2 = omega arith in
          let nonneg : 0 ≤ k = omega arith in
          let one = pow-le-pow_right pos nonneg in mod-lt (v) (omega (arith, one))

      small : v % 2 ^ k < 2 ^ 32
      small = omega (arith, power, low)

      digit : (i : ℕ) → i < 32 → bit (get_field (dword r w) lo k) i ≡ bit (v % 2 ^ k) i
      digit i _ = elim (dec_lt i k) [
        | yes p ↦
            bit-get_inside (dword r w) lo k i p ∙ (W.inside i (omega arith) ∙ sym (bit_mod k v i p))
        | no p ↦
            bit-get_above (dword r w) lo k i (omega arith)
            ∙ sym (bit_above k (v % 2 ^ k) i low (omega arith))
      ]

  pub field_written : lo + n ≤ 32 → field r w lo n ≡ v % 2 ^ n
  field_written h = field_part n (omega arith) h

  -- A field that is apart from it holds what it held.
  pub field_kept : (u k m : ℕ) → k + m ≤ 32 → Apart w lo n u k m → field r u k m ≡ field c u k m
  unfolding field Apart
  field_kept u k m h (inl q) = ap (λ d. get_field d k m) (W.other u q)
  field_kept u k m h (inr q) = elim (ℕ_discrete w u) [
    | no ne ↦ ap (λ d. get_field d k m) (W.other u ne)
    | yes e ↦
        rw (sym e)
          (get_field_ext (dword r w) (dword c w) k k m (W.valid.word32 w) (V.word32 w) (digit q))
  ]
    where
      digit :
          ((k + m ≤ lo) ⊎ (lo + n ≤ k))
          → (j : ℕ) → j < m
          → bit (dword r w) (k + j) ≡ bit (dword c w) (k + j)
      digit (inl l) j p = W.below (k + j) (omega arith)
      digit (inr l) j p =
          let e : k + j ≡ lo + (k + j - lo) = omega arith in
          rw e (W.above (k + j - lo) (omega arith) (omega arith))

-- `(Get(...) >> k) & mask` reads a field inside the one that was read.
pub field_inner :
    (c : Cmd)
    → IsValid c
    → (w lo m k n mask : ℕ) → mask ≡ mask_of n
    → k + n ≤ m
    → bit_and (field c w lo m / 2 ^ k) mask ≡ field c w (lo + k) n
unfolding field
field_inner c V w lo m k n mask e h =
    rw e (bits_ext 32 _ _ small (get_field-lt (dword c w) (lo + k) n (V.word32 w)) digit)
  where
    outer : ℕ
    outer = get_field (dword c w) lo m

    small : bit_and (get_field (dword c w) lo m / 2 ^ k) (mask_of n) < 2 ^ 32
    small = bit_and-lt 32 _ _ (shr-lt 32 k _ (get_field-lt (dword c w) lo m (V.word32 w)))

    digit :
        (i : ℕ)
        → i < 32
        → bit (bit_and (get_field (dword c w) lo m / 2 ^ k) (mask_of n)) i
          ≡ bit (get_field (dword c w) (lo + k) n) i
    digit i _ = elim (dec_lt i n) [
      | yes p ↦
          let e : lo + k + i ≡ lo + (k + i) = omega arith in
          omega (
            arith,
            bit-and (get_field (dword c w) lo m / 2 ^ k) (mask_of n) i,
            bit-shr k (get_field (dword c w) lo m) i,
            mask_in n i p,
            bit-get_inside (dword c w) lo m (k + i) (omega arith),
            bit-get_inside (dword c w) (lo + k) n i p,
            ap (bit (dword c w)) e,
            bit-le (dword c w) (lo + (k + i)),
          )
      | no p ↦ omega (
        arith,
        bit-and (get_field (dword c w) lo m / 2 ^ k) (mask_of n) i,
        mask_out n i (omega arith),
        bit-get_above (dword c w) (lo + k) n i (omega arith),
      )
    ]

-- `Get(...) & mask` reads the low digits of the field that was read.
pub field_low :
    (c : Cmd)
    → IsValid c
    → (w lo m n mask : ℕ) → mask ≡ mask_of n
    → n ≤ m
    → bit_and (field c w lo m) mask ≡ field c w lo n
field_low c V w lo m n mask e h =
    let start : lo + 0 ≡ lo = omega arith in
    let whole : field c w lo m / 2 ^ 0 ≡ field c w lo m = omega arith in
    let inner = field_inner c V w lo m 0 n mask e (omega arith) in
    sym (ap (λ x. bit_and x mask) whole) ∙ (inner ∙ ap (λ x. field c w x n) start)

-- A DWORD that was written whole is the value.
pub dword_written : (c : Cmd) (w v : ℕ) (r : Cmd) → Writes c w 0 32 v r → v < 2 ^ 32 → dword r w ≡ v
dword_written c w v r W h = bits_ext 32 (dword r w) v (W.valid.word32 w) h digit
  where
    digit : (i : ℕ) → i < 32 → bit (dword r w) i ≡ bit v i
    digit i p = let e : 0 + i ≡ i = omega arith in sym (ap (bit (dword r w)) e) ∙ W.inside i p

-- `low | high << 32` puts the halves of a 64-bit number together.
pub halves :
    (x : ℕ) → x < 2 ^ 64 → bit_or (x % 2 ^ 32) ((x / 2 ^ 32 % 2 ^ 32) * 2 ^ 32 % 2 ^ 64) ≡ x
halves x h = bits_ext 64 _ x (bit_or-lt 64 _ _ (omega arith) (omega arith)) h digit
  where
    low : ℕ
    low = x % 2 ^ 32

    high : ℕ
    high = x / 2 ^ 32 % 2 ^ 32

    digit :
        (i : ℕ)
        → i < 64
        → bit (bit_or (x % 2 ^ 32) ((x / 2 ^ 32 % 2 ^ 32) * 2 ^ 32 % 2 ^ 64)) i ≡ bit x i
    digit i p = elim (dec_lt i 32) [
      | yes q ↦ omega (
        arith,
        bit-or (x % 2 ^ 32) ((x / 2 ^ 32 % 2 ^ 32) * 2 ^ 32 % 2 ^ 64) i,
        bit_mod 32 x i q,
        bit_mod 64 ((x / 2 ^ 32 % 2 ^ 32) * 2 ^ 32) i p,
        bit-shl_below 32 (x / 2 ^ 32 % 2 ^ 32) i q,
      )
      | no q ↦
          let e : i ≡ 32 + (i - 32) = omega arith in
          let s = bit-shl 32 (x / 2 ^ 32 % 2 ^ 32) (i - 32) in
          let small : x % 2 ^ 32 < 2 ^ 32 = omega arith in
          omega (
            arith,
            bit-or (x % 2 ^ 32) ((x / 2 ^ 32 % 2 ^ 32) * 2 ^ 32 % 2 ^ 64) i,
            bit_above 32 (x % 2 ^ 32) i small (omega arith),
            bit_mod 64 ((x / 2 ^ 32 % 2 ^ 32) * 2 ^ 32) i p,
            ap (bit ((x / 2 ^ 32 % 2 ^ 32) * 2 ^ 32)) e,
            s,
            bit_mod 32 (x / 2 ^ 32) (i - 32) (omega arith),
            bit-shr 32 x (i - 32),
            ap (bit x) e,
          )
    ]

-- `Get...() == 1` after a Boolean was set.
pub bool_back : (b : Bool) → (bit_of b % 2 ^ 1 == 1) ≡ b
bool_back true = refl
bool_back false = refl

-- `(uint8_t)(Get(...) >> k)` reads all that is above bit `k` of the field, here at most 8 bits.
pub field_rest :
    (c : Cmd)
    → IsValid c
    → (w lo k n : ℕ) → n ≤ 8
    → field c w lo (k + n) / 2 ^ k % 2 ^ 8 ≡ field c w (lo + k) n
unfolding field
field_rest c V w lo k n h =
    bits_ext 32 ((get_field (dword c w) lo (k + n)) / 2 ^ k % 2 ^ 8)
      (get_field (dword c w) (lo + k) n) (omega arith)
      (get_field-lt (dword c w) (lo + k) n (V.word32 w)) digit
  where
    digit :
        (i : ℕ)
        → i < 32
        → bit ((get_field (dword c w) lo (k + n)) / 2 ^ k % 2 ^ 8) i
          ≡ bit (get_field (dword c w) (lo + k) n) i
    digit i _ = elim (dec_lt i n) [
      | yes p ↦
          let e : lo + k + i ≡ lo + (k + i) = omega arith in
          omega (
            arith,
            bit_mod 8 ((get_field (dword c w) lo (k + n)) / 2 ^ k) i (omega arith),
            bit-shr k (get_field (dword c w) lo (k + n)) i,
            bit-get_inside (dword c w) lo (k + n) (k + i) (omega arith),
            bit-get_inside (dword c w) (lo + k) n i p,
            ap (bit (dword c w)) e,
          )
      | no p ↦ elim (dec_lt i 8) [
        | yes q ↦ omega (
          arith,
          bit_mod 8 ((get_field (dword c w) lo (k + n)) / 2 ^ k) i q,
          bit-shr k (get_field (dword c w) lo (k + n)) i,
          bit-get_above (dword c w) lo (k + n) (k + i) (omega arith),
          bit-get_above (dword c w) (lo + k) n i (omega arith),
        )
        | no q ↦
            let small : (get_field (dword c w) lo (k + n)) / 2 ^ k % 2 ^ 8 < 2 ^ 8 = omega arith in
            omega (
              arith,
              bit_above 8 ((get_field (dword c w) lo (k + n)) / 2 ^ k % 2 ^ 8) i small
                  (omega arith),
              bit-get_above (dword c w) (lo + k) n i (omega arith),
            )
      ]
    ]
