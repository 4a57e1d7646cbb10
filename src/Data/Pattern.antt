-- ===== src/Data/Pattern.antt =====
-- What the loops of `SetDataPattern` store, byte by byte, and what they leave.
use native.Mathlib.Nat.{div-div-eq-div-mul, pow-succ'}
use tnvme.Base.{
  ℕ, zero, suc, ◌+◌, ◌*◌, ◌/◌, ◌%◌, ◌^◌, ◌≤◌, ◌<◌, ◌≡◌, refl, sym, ap, ◌∙◌, none, some, List, [],
  ◌∷◌, ◌++◌, length, length-append, get_or, arith,
}
use tnvme.Data.{DataPattern, increment, store_bytes, write_over, store_at, pattern_bytes}

-- The bytes of `r` stand in `l'` from `offset` on, and the others are those of `l`.
pub record Stored (offset : ℕ) (r l l' : List ℕ) : Type 0 where
  pub same_length : length l' ≡ length l
  pub inside : (i : ℕ) → i < length r → get_or l' (offset + i) 0 ≡ get_or r i 0
  pub below : (i : ℕ) → i < offset → get_or l' i 0 ≡ get_or l i 0
  pub above : (i : ℕ) → offset + length r ≤ i → get_or l' i 0 ≡ get_or l i 0

write_over-Stored :
    (r l : List ℕ)
    → length r ≤ length l
    → (l' : List ℕ) × (write_over r l ≡ some l') × Stored 0 r l l'
unfolding write_over
write_over-Stored [] l h = (
  l,
  refl,
  record {
    same_length = refl;
    inside = λ i p. absurd (omega arith);
    below = λ i p. refl;
    above = λ i p. refl;
  },
)
write_over-Stored (b ∷ r) [] h = absurd (omega arith)
write_over-Stored (b ∷ r) (x ∷ l) h =
    let (l', e, s) = write_over-Stored r l (omega arith) in
    (
      b ∷ l',
      rw e refl,
      record {
        same_length = ap suc s.same_length;
        inside = inner s;
        below = λ i p. absurd (omega arith);
        above = outer s;
      },
    )
  where
    inner :
        {l' : List ℕ}
        → Stored 0 r l l'
        → (i : ℕ) → i < length (b ∷ r)
        → get_or (b ∷ l') (0 + i) 0 ≡ get_or (b ∷ r) i 0
    inner s zero p = refl
    inner s (suc i) p =
        let e : 0 + suc i ≡ suc (0 + i) = omega arith in rw e (s.inside i (omega arith))

    outer :
        {l' : List ℕ}
        → Stored 0 r l l'
        → (i : ℕ) → 0 + length (b ∷ r) ≤ i
        → get_or (b ∷ l') i 0 ≡ get_or (x ∷ l) i 0
    outer s zero p = absurd (omega arith)
    outer s (suc i) p = s.above i (omega arith)

write_over-none : (r l : List ℕ) → length l < length r → write_over r l ≡ none
unfolding write_over
write_over-none [] l h = absurd (omega arith)
write_over-none (b ∷ r) [] h = refl
write_over-none (b ∷ r) (x ∷ l) h = rw (write_over-none r l (omega arith)) refl

Stored-suc :
    {offset x : ℕ} {r l l' : List ℕ} → Stored offset r l l' → Stored (suc offset) r (x ∷ l) (x ∷ l')
Stored-suc {offset} {x} {r} {l} {l'} s = record {
  same_length = ap suc s.same_length;
  inside = λ i p. (let e : suc offset + i ≡ suc (offset + i) = omega arith in rw e (s.inside i p));
  below = under;
  above = over;
}
  where
    under : (i : ℕ) → i < suc offset → get_or (x ∷ l') i 0 ≡ get_or (x ∷ l) i 0
    under zero p = refl
    under (suc i) p = s.below i (omega arith)

    over : (i : ℕ) → suc offset + length r ≤ i → get_or (x ∷ l') i 0 ≡ get_or (x ∷ l) i 0
    over zero p = absurd (omega arith)
    over (suc i) p = s.above i (omega arith)

pub store_at-Stored :
    (offset : ℕ) (r l : List ℕ)
    → offset + length r ≤ length l
    → (l' : List ℕ) × (store_at offset r l ≡ some l') × Stored offset r l l'
unfolding store_at
store_at-Stored zero r l h = write_over-Stored r l (omega arith)
store_at-Stored (suc i) [] [] h = absurd (omega arith)
store_at-Stored (suc i) (b ∷ r) [] h = absurd (omega arith)
store_at-Stored (suc i) r (x ∷ l) h =
    let (l', e, s) = store_at-Stored i r l (omega arith) in (x ∷ l', rw e refl, Stored-suc s)

pub store_at-none :
    (offset : ℕ) (r l : List ℕ)
    → length l < offset + length r
    → 0 < length r
    → store_at offset r l ≡ none
unfolding store_at
store_at-none zero r l h p = write_over-none r l (omega arith)
store_at-none (suc i) [] l h p = absurd (omega arith)
store_at-none (suc i) (b ∷ r) [] h p = refl
store_at-none (suc i) (b ∷ r) (x ∷ l) h p = rw (store_at-none i (b ∷ r) l (omega arith) p) refl

-- Byte `j` of a stored number.
length-store_bytes : (w v : ℕ) → length (store_bytes w v) ≡ w
unfolding store_bytes
length-store_bytes zero v = refl
length-store_bytes (suc w) v = ap suc (length-store_bytes w (v / 2 ^ 8))

pub store_bytes_lem : (w v j : ℕ) → j < w → get_or (store_bytes w v) j 0 ≡ v / (2 ^ 8) ^ j % 2 ^ 8
unfolding store_bytes
store_bytes_lem zero v j h = absurd (omega arith)
store_bytes_lem (suc w) v zero h = omega arith
store_bytes_lem (suc w) v (suc j) h =
    store_bytes_lem w (v / 2 ^ 8) j (omega arith)
    ∙ ap (λ t. t % 2 ^ 8)
        (div-div-eq-div-mul v (2 ^ 8) ((2 ^ 8) ^ j) ∙ sym (ap (λ t. v / t) (pow-succ' (2 ^ 8) j)))

-- Unit `i` of a pattern
abbrev pub unit_value : DataPattern → ℕ → ℕ → ℕ
unit_value pat init i = (init + i * increment pat) % 2 ^ 64

times_suc : (n w : ℕ) → suc n * w ≡ w + n * w
times_suc n w = omega arith

pub length-pattern_bytes : (n w inc v : ℕ) → length (pattern_bytes n w inc v) ≡ n * w
unfolding pattern_bytes
length-pattern_bytes zero w inc v = omega arith
length-pattern_bytes (suc n) w inc v =
    length-append (store_bytes w v) (pattern_bytes n w inc ((v + inc) % 2 ^ 64))
    ∙ omega (
      arith,
      length-store_bytes w v,
      length-pattern_bytes n w inc ((v + inc) % 2 ^ 64),
      times_suc n w,
    )

get_or-append_left : (x y : List ℕ) (i : ℕ) → i < length x → get_or (x ++ y) i 0 ≡ get_or x i 0
get_or-append_left [] y i h = absurd (omega arith)
get_or-append_left (a ∷ x) y zero h = refl
get_or-append_left (a ∷ x) y (suc i) h = get_or-append_left x y i (omega arith)

get_or-append_right : (x y : List ℕ) (i : ℕ) → get_or (x ++ y) (length x + i) 0 ≡ get_or y i 0
get_or-append_right [] y i = let e : 0 + i ≡ i = omega arith in rw e refl
get_or-append_right (a ∷ x) y i =
    let e : suc (length x) + i ≡ suc (length x + i) = omega arith in
    rw e (get_or-append_right x y i)

pub pattern_bytes_lem :
    (n w inc v i j : ℕ)
    → i < n
    → j < w
    → v < 2 ^ 64
    → get_or (pattern_bytes n w inc v) (i * w + j) 0
      ≡ get_or (store_bytes w ((v + i * inc) % 2 ^ 64)) j 0
unfolding pattern_bytes
pattern_bytes_lem zero w inc v i j h k l = absurd (omega arith)
pattern_bytes_lem (suc n) w inc v zero j h k l =
    let e : 0 * w + j ≡ j = omega arith in
    let f : (v + 0 * inc) % 2 ^ 64 ≡ v = omega arith in
    rw (e, f)
      (get_or-append_left (store_bytes w v) (pattern_bytes n w inc ((v + inc) % 2 ^ 64)) j
        (omega (arith, length-store_bytes w v)))
pattern_bytes_lem (suc n) w inc v (suc i) j h k l =
    let e : suc i * w + j ≡ length (store_bytes w v) + (i * w + j) =
      omega (arith, length-store_bytes w v, times_suc i w) in
    let f : (v + suc i * inc) % 2 ^ 64 ≡ ((v + inc) % 2 ^ 64 + i * inc) % 2 ^ 64 =
      omega (arith, times_suc i inc) in
    rw (e, f)
      (get_or-append_right (store_bytes w v) (pattern_bytes n w inc ((v + inc) % 2 ^ 64))
          (i * w + j)
        ∙ pattern_bytes_lem n w inc ((v + inc) % 2 ^ 64) i j (omega arith) k (omega arith))
