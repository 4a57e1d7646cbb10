-- ===== src/Data/SetPattern.antt =====
-- What `SetDataPattern` leaves in a buffer, when it throws, and when it writes past the end.
use tnvme.Base.{
  ℕ, zero, suc, ◌+◌, ◌-◌, ◌*◌, ◌/◌, ◌%◌, ◌^◌, ◌≤◌, ◌<◌, ◌≡◌, ◌≢◌, ◌⊎◌, inl, inr, refl, ◌∙◌, true,
  false, none, some, List, ok, thrown, length, get_or, ltb, lt→ltb, le→ltb, ◌==◌, if◌then◌else◌,
  arith, dec_lt,
}
use tnvme.Data.{
  DataPattern, const_8bit, const_16bit, const_32bit, inc_8bit, inc_16bit, inc_32bit, MemBuffer,
  unit_size, increment, pattern_bytes, set_pattern, with_contents, set_data_pattern,
}
use tnvme.Data.Pattern.{
  Stored, unit_value, length-pattern_bytes, pattern_bytes_lem, store_bytes_lem, store_at-Stored,
  store_at-none,
}

-- `n` units of the pattern stand from `offset` on, and every other byte is what it was.
pub record HasPattern (pat : DataPattern) (init offset n : ℕ) (l l' : List ℕ) : Type 0 where
  pub same_length : length l' ≡ length l
  pub units :
      (i j : ℕ)
      → i < n
      → j < unit_size pat
      → get_or l' (offset + (i * unit_size pat + j)) 0 ≡ unit_value pat init i / (2 ^ 8) ^ j % 2 ^ 8
  pub below : (i : ℕ) → i < offset → get_or l' i 0 ≡ get_or l i 0
  pub above : (i : ℕ) → offset + n * unit_size pat ≤ i → get_or l' i 0 ≡ get_or l i 0

-- The length that is meant: UINT32_MAX stands for the whole buffer.
abbrev pub real_length : ℕ → MemBuffer → ℕ
real_length len b = if len == 2 ^ 32 - 1 then b.size else len

unit_size_lem :
    (pat : DataPattern) (len : ℕ)
    → (len / unit_size pat * unit_size pat ≤ len) × (len < len / unit_size pat * unit_size pat + 4)
unit_size_lem const_8bit len = (omega arith, omega arith)
unit_size_lem const_16bit len = (omega arith, omega arith)
unit_size_lem const_32bit len = (omega arith, omega arith)
unit_size_lem inc_8bit len = (omega arith, omega arith)
unit_size_lem inc_16bit len = (omega arith, omega arith)
unit_size_lem inc_32bit len = (omega arith, omega arith)

inner_lt : (n w i j : ℕ) → i < n → j < w → i * w + j < n * w
inner_lt zero w i j h k = absurd (omega arith)
inner_lt (suc n) w zero j h k = omega (arith, times n w)
  where
    times : (n w : ℕ) → suc n * w ≡ w + n * w
    times n w = omega arith
inner_lt (suc n) w (suc i) j h k =
    omega (arith, inner_lt n w i j (omega arith) k, times n w, times i w)
  where
    times : (n w : ℕ) → suc n * w ≡ w + n * w
    times n w = omega arith

module _ (pat : DataPattern) (init offset len : ℕ) (b : MemBuffer) (l : List ℕ)
    (held : b.contents ≡ some l) (whole : length l ≡ b.size) where
  count : ℕ
  count = real_length len b / unit_size pat

  bytes : List ℕ
  bytes = pattern_bytes count (unit_size pat) (increment pat) init

  length-bytes : length bytes ≡ count * unit_size pat
  unfolding bytes
  length-bytes = length-pattern_bytes count (unit_size pat) (increment pat) init

  HasPattern-Stored :
      {l' : List ℕ}
      → init < 2 ^ 64
      → Stored offset bytes l l'
      → HasPattern pat init offset count l l'
  unfolding bytes
  HasPattern-Stored w s = record {
    same_length = s.same_length;
    units = λ i j p q.
        s.inside (i * unit_size pat + j)
          (omega (arith, length-bytes, inner_lt count (unit_size pat) i j p q))
        ∙ (pattern_bytes_lem count (unit_size pat) (increment pat) init i j p q w
            ∙ store_bytes_lem (unit_size pat) (unit_value pat init i) j q);
    below = s.below;
    above = λ i p. s.above i (omega (arith, length-bytes));
  }

  -- On a buffer with memory of its size, for a 64-bit start value and a length (UINT32_MAX stands
  -- for the size) whose sum with the offset has 32 bits: SetDataPattern throws and changes nothing
  -- if the sum exceeds the size; otherwise it succeeds, byte j of unit i from the offset on is
  -- byte j of the start value plus i increments modulo 2^64, for as many whole units as the length
  -- has, and every other byte and the number of bytes are kept.
  pub set_data_pattern_lem :
      init < 2 ^ 64
      → real_length len b + offset < 2 ^ 32
      → ((b.size < real_length len b + offset)
          × (set_data_pattern pat init offset len b ≡ some (thrown, b)))
        ⊎ ((real_length len b + offset ≤ b.size)
            × ((l' : List ℕ) × (set_data_pattern pat init offset len b
                  ≡ some (ok tt, record b { contents = some l' }))
                × HasPattern pat init offset (real_length len b / unit_size pat) l l'))
  unfolding set_data_pattern set_pattern with_contents count bytes
  set_data_pattern_lem w fits = elim (dec_lt b.size (real_length len b + offset)) [
    | yes p ↦
        let t : ltb b.size ((real_length len b + offset) % 2 ^ 32) ≡ true =
          lt→ltb _ _ (omega arith) in
        inl (p, rw (held, t) refl)
    | no p ↦
        let t : ltb b.size ((real_length len b + offset) % 2 ^ 32) ≡ false =
          le→ltb _ _ (omega arith) in
        let (l', e, s) =
          store_at-Stored offset bytes l
            (omega (arith, length-bytes, (unit_size_lem pat (real_length len b)).0)) in
        inr (omega arith, (l', rw (held, t, e) refl, HasPattern-Stored w s))
  ]

  -- On a buffer with memory of its size, at most 2^32 - 4: a length of at least 4 other than
  -- UINT32_MAX whose sum with the offset is 2^32 or more, but modulo 2^32 within the size, makes
  -- SetDataPattern write past the end of the memory.
  pub set_data_pattern-none :
      len ≢ 2 ^ 32 - 1
      → 4 ≤ len
      → 2 ^ 32 ≤ len + offset
      → (len + offset) % 2 ^ 32 ≤ b.size
      → b.size + 4 ≤ 2 ^ 32
      → set_data_pattern pat init offset len b ≡ none
  unfolding set_data_pattern set_pattern with_contents count bytes
  set_data_pattern-none ne some_units wraps passes small =
      let r : real_length len b ≡ len = ground arith in
      let t : ltb b.size ((real_length len b + offset) % 2 ^ 32) ≡ false =
        le→ltb _ _ (rw r passes) in
      let u = unit_size_lem pat (real_length len b) in
      let e =
        store_at-none offset bytes l (omega (arith, length-bytes, u.1))
          (omega (arith, length-bytes, u.1)) in
      rw (held, t, e) refl
