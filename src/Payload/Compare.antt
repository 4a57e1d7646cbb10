-- ===== src/Payload/Compare.antt =====
-- Patterns in the metadata of a command and in a buffer that it is compared with.
use tnvme.Base.{
  ℕ, zero, suc, ◌+◌, ◌-◌, ◌*◌, ◌/◌, ◌%◌, ◌^◌, ◌≤◌, ◌<◌, ◌≡◌, ◌≢◌, refl, sym, ◌∙◌, true, false, some,
  List, [], ◌∷◌, ◌++◌, ok, length, ltb, le→ltb, ◌==◌, arith,
}
use tnvme.Data.{
  DataPattern, const_8bit, const_16bit, const_32bit, inc_8bit, inc_16bit, inc_32bit, MemBuffer,
  unit_size, increment, store_bytes, write_over, store_at, pattern_bytes, set_pattern,
  with_contents, set_data_pattern,
}
use tnvme.Data.Pattern.{length-pattern_bytes}
use tnvme.Payload.{Payload, set_meta_data_pattern, same_start, compare_meta_buffer}

write_over-whole : (r l : List ℕ) → length r ≡ length l → write_over r l ≡ some r
unfolding write_over
write_over-whole [] [] h = refl
write_over-whole [] (x ∷ l) h = absurd (omega arith)
write_over-whole (b ∷ r) [] h = absurd (omega arith)
write_over-whole (b ∷ r) (x ∷ l) h = rw (write_over-whole r l (omega arith)) refl

same_start-append : (x y z : List ℕ) → same_start (x ++ y) (x ++ z) ≡ same_start y z
unfolding same_start
same_start-append [] y z = refl
same_start-append (a ∷ x) y z =
    let e : (a == a) ≡ true = ground arith in rw (e, same_start-append x y z) refl

same_start-pattern_bytes :
    (a c w inc v : ℕ) → same_start (pattern_bytes a w inc v) (pattern_bytes (a + c) w inc v) ≡ true
unfolding same_start pattern_bytes
same_start-pattern_bytes zero c w inc v = refl
same_start-pattern_bytes (suc a) c w inc v =
    let e : suc a + c ≡ suc (a + c) = omega arith in
    rw e (
      same_start-append (store_bytes w v) _ _
      ∙ same_start-pattern_bytes a c w inc ((v + inc) % 2 ^ 64))

whole_units :
    (pat : DataPattern) (size : ℕ)
    → size % unit_size pat ≡ 0
    → size / unit_size pat * unit_size pat ≡ size
whole_units const_8bit size h = omega arith
whole_units const_16bit size h = omega arith
whole_units const_32bit size h = omega arith
whole_units inc_8bit size h = omega arith
whole_units inc_16bit size h = omega arith
whole_units inc_32bit size h = omega arith

quotient_le : (pat : DataPattern) (m n : ℕ) → m ≤ n → m / unit_size pat ≤ n / unit_size pat
quotient_le const_8bit m n h = omega arith
quotient_le const_16bit m n h = omega arith
quotient_le const_32bit m n h = omega arith
quotient_le inc_8bit m n h = omega arith
quotient_le inc_16bit m n h = omega arith
quotient_le inc_32bit m n h = omega arith

abbrev whole_pattern : DataPattern → ℕ → ℕ → List ℕ
whole_pattern pat init size =
    pattern_bytes (size / unit_size pat) (unit_size pat) (increment pat) init

set_pattern-whole :
    (pat : DataPattern) (init size : ℕ) (l : List ℕ)
    → length l ≡ size
    → size < 2 ^ 32
    → size % unit_size pat ≡ 0
    → set_pattern pat init 0 (2 ^ 32 - 1) size l ≡ some (ok (whole_pattern pat init size))
unfolding set_pattern store_at
set_pattern-whole pat init size l e fits units =
    let t : ltb size ((size + 0) % 2 ^ 32) ≡ false = le→ltb _ _ (omega arith) in
    let f =
      length-pattern_bytes (size / unit_size pat) (unit_size pat) (increment pat) init
      ∙ whole_units pat size units
      ∙ sym e in
    rw (t, write_over-whole (whole_pattern pat init size) l f) refl

-- For a command with a metadata buffer of less than 2^32 bytes, and a buffer that is not larger,
-- both sizes a multiple of the unit of the pattern: SetDataPattern of the buffer and
-- SetMetaDataPattern of the command with the same pattern and start value over their whole memory
-- succeed, and CompareMetaBuffer then returns true, also if the buffer is smaller than the
-- metadata.
pub compare_meta_buffer-pattern :
    (pat : DataPattern) (init : ℕ) (b : MemBuffer) (p : Payload) (x l : List ℕ)
    → b.contents ≡ some x
    → length x ≡ b.size
    → p.meta_data.buf ≢ 0
    → length l ≡ p.meta_data.size
    → p.meta_data.size < 2 ^ 32
    → b.size ≤ p.meta_data.size
    → b.size % unit_size pat ≡ 0
    → p.meta_data.size % unit_size pat ≡ 0
    → (x' : List ℕ) × (l' : List ℕ) × (set_data_pattern pat init 0 (2 ^ 32 - 1) b
        ≡ some (ok tt, record b { contents = some x' }))
      × (set_meta_data_pattern pat init 0 (2 ^ 32 - 1) p l ≡ some (ok l'))
      × (compare_meta_buffer b.size x' p l' ≡ ok true)
unfolding set_data_pattern with_contents set_meta_data_pattern compare_meta_buffer
compare_meta_buffer-pattern pat init b p x l held whole mapped full fits le units units' =
    let n : (p.meta_data.buf == 0) ≡ false = ground arith in
    let t : ltb p.meta_data.size b.size ≡ false = le→ltb _ _ le in
    let w = unit_size pat in
    let more : b.size / w + (p.meta_data.size / w - b.size / w) ≡ p.meta_data.size / w =
      omega (arith, quotient_le pat b.size p.meta_data.size le) in
    let same =
      same_start-pattern_bytes (b.size / w) (p.meta_data.size / w - b.size / w) w (increment pat)
        init in
    (
      whole_pattern pat init b.size,
      whole_pattern pat init p.meta_data.size,
      rw (held, set_pattern-whole pat init b.size x whole (omega arith) units) refl,
      rw (n, set_pattern-whole pat init p.meta_data.size l full fits units') refl,
      rw (t, rw more at same) refl,
    )
