-- ===== src/Base/Bits.antt =====
-- The binary digits of a number, and what the bit operations do to each of them.
use Prim.Native.Nat.{
  ℕ, zero, suc, ◌+◌, ◌-◌, ◌*◌, ◌/◌, ◌%◌, ◌^◌, ◌≤◌, ◌<◌, min, max, bit_and, bit_or, digits, bitwise,
  bit_and-bitwise, bit_or-bitwise,
}
use mathlib.Core.Path.{◌≡◌, refl, sym, ap, ◌∙◌}
use native.Mathlib.Omega.{arith}
use native.Mathlib.Decide.{dec_lt}
use native.Mathlib.Nat.{
  one-le-pow, pow-suc, div-div-eq-div-mul, mod-eq-sub-mul-div, mul-div-le, mul_assoc, div-le_self,
}

-- Digit `i` of `x`, which is 0 or 1.
abbrev pub bit : ℕ → ℕ → ℕ
bit x zero = x % 2
bit x (suc i) = bit (x / 2) i

pub bit-le : (x i : ℕ) → bit x i ≤ 1
bit-le x zero = omega arith
bit-le x (suc i) = bit-le (x / 2) i

pub bit_of_zero : (i : ℕ) → bit 0 i ≡ 0
bit_of_zero zero = refl
bit_of_zero (suc i) = bit_of_zero i

-- An operation that works digit by digit, in the library's definition.
module _ (z : ℕ → ℕ) (f : ℕ → ℕ → ℕ) where
  digits-fuel : (n m a b : ℕ) → a ≤ n → a ≤ m → digits z f n a b ≡ digits z f m a b
  digits-fuel n m zero b p q = digits-at_zero n ∙ sym (digits-at_zero m)
    where
      digits-at_zero : (k : ℕ) → digits z f k zero b ≡ z b
      digits-at_zero zero = refl
      digits-at_zero (suc k) = refl
  digits-fuel zero m (suc a) b p q = absurd (omega arith)
  digits-fuel (suc n) zero (suc a) b p q = absurd (omega arith)
  digits-fuel (suc n) (suc m) (suc a) b p q =
      ap (λ t. t * 2 + f (suc a % 2) (b % 2))
        (digits-fuel n m (suc a / 2) (b / 2) (omega arith) (omega arith))

  bitwise-step :
      ((b : ℕ) → z b ≡ z (b / 2) * 2 + f 0 (b % 2))
      → (a b : ℕ) → bitwise z f a b ≡ bitwise z f (a / 2) (b / 2) * 2 + f (a % 2) (b % 2)
  bitwise-step h zero b = h b
  bitwise-step h (suc a) b =
      ap (λ t. t * 2 + f (suc a % 2) (b % 2))
        (digits-fuel a (suc a / 2) (suc a / 2) (b / 2) (omega arith) (omega arith))

-- A step equation fixes every digit.
bit-step :
    (op f : ℕ → ℕ → ℕ)
    → ((a b : ℕ) → op a b ≡ op (a / 2) (b / 2) * 2 + f (a % 2) (b % 2))
    → ((x y : ℕ) → x ≤ 1 → y ≤ 1 → f x y ≤ 1)
    → (i a b : ℕ) → bit (op a b) i ≡ f (bit a i) (bit b i)
bit-step op f step small zero a b =
    omega (arith, step a b, small (a % 2) (b % 2) (omega arith) (omega arith))
bit-step op f step small (suc i) a b =
    let half : op a b / 2 ≡ op (a / 2) (b / 2) =
      omega (arith, step a b, small (a % 2) (b % 2) (omega arith) (omega arith)) in
    ap (λ t. bit t i) half ∙ bit-step op f step small i (a / 2) (b / 2)

bit_and-step : (a b : ℕ) → bit_and a b ≡ bit_and (a / 2) (b / 2) * 2 + min (a % 2) (b % 2)
bit_and-step a b = omega (
  arith,
  bit_and-bitwise a b,
  bit_and-bitwise (a / 2) (b / 2),
  bitwise-step (λ _. 0) min (λ t. omega arith) a b,
)

bit_or-step : (a b : ℕ) → bit_or a b ≡ bit_or (a / 2) (b / 2) * 2 + max (a % 2) (b % 2)
bit_or-step a b = omega (
  arith,
  bit_or-bitwise a b,
  bit_or-bitwise (a / 2) (b / 2),
  bitwise-step (λ t. t) max (λ t. omega arith) a b,
)

pub bit-and : (a b i : ℕ) → bit (bit_and a b) i ≡ min (bit a i) (bit b i)
bit-and a b i = bit-step bit_and min bit_and-step (λ x y p q. omega arith) i a b

pub bit-or : (a b i : ℕ) → bit (bit_or a b) i ≡ max (bit a i) (bit b i)
bit-or a b i = bit-step bit_or max bit_or-step (λ x y p q. omega arith) i a b

-- Numbers of `n` digits with the same digits are equal.
pub bits_ext : (n x y : ℕ) → x < 2 ^ n → y < 2 ^ n → ((i : ℕ) → i < n → bit x i ≡ bit y i) → x ≡ y
bits_ext zero x y p q h = omega arith
bits_ext (suc n) x y p q h =
    let twice : 2 ^ suc n ≡ 2 * 2 ^ n = omega (arith, pow-suc 2 n) in
    let halves =
      bits_ext n (x / 2) (y / 2) (omega arith) (omega arith) (λ i l. h (suc i) (omega arith)) in
    omega (arith, halves, h zero (omega arith))

-- Digits past the width are 0.
pub bit_above : (n x i : ℕ) → x < 2 ^ n → n ≤ i → bit x i ≡ 0
bit_above zero x i p q = rw (zero_below x p) (bit_of_zero i)
  where
    zero_below : (x : ℕ) → x < 2 ^ 0 → x ≡ 0
    zero_below x p = omega arith
bit_above (suc n) x zero p q = absurd (omega arith)
bit_above (suc n) x (suc i) p q =
    let twice : 2 ^ suc n ≡ 2 * 2 ^ n = omega (arith, pow-suc 2 n) in
    bit_above n (x / 2) i (omega arith) (omega arith)

-- `x << k`: the digits move up, and zeros follow.
shl_suc : (k x : ℕ) → x * 2 ^ suc k ≡ x * 2 ^ k * 2
shl_suc k x = rw (pow-suc 2 k) (omega arith)

pub bit-shl : (k x i : ℕ) → bit (x * 2 ^ k) (k + i) ≡ bit x i
bit-shl zero x i =
    let a : x * 2 ^ 0 ≡ x = omega arith in let b : 0 + i ≡ i = omega arith in rw (a, b)
bit-shl (suc k) x i =
    let a : suc k + i ≡ suc (k + i) = omega arith in
    let b : x * 2 ^ k * 2 / 2 ≡ x * 2 ^ k = omega arith in
    rw (shl_suc k x, a) (ap (λ t. bit t (k + i)) b ∙ bit-shl k x i)

pub bit-shl_below : (k x i : ℕ) → i < k → bit (x * 2 ^ k) i ≡ 0
bit-shl_below zero x i h = absurd (omega arith)
bit-shl_below (suc k) x zero h = rw (shl_suc k x) (omega arith)
bit-shl_below (suc k) x (suc i) h =
    let b : x * 2 ^ k * 2 / 2 ≡ x * 2 ^ k = omega arith in
    rw (shl_suc k x, b) (bit-shl_below k x i (omega arith))

-- `x >> k`
shr_suc : (k x : ℕ) → x / 2 ^ suc k ≡ x / 2 / 2 ^ k
shr_suc k x =
    let twice : 2 ^ suc k ≡ 2 * 2 ^ k = omega (arith, pow-suc 2 k) in
    ap (λ t. x / t) twice ∙ sym (div-div-eq-div-mul x 2 (2 ^ k))

pub bit-shr : (k x i : ℕ) → bit (x / 2 ^ k) i ≡ bit x (k + i)
bit-shr zero x i =
    let a : x / 2 ^ 0 ≡ x = omega arith in let b : 0 + i ≡ i = omega arith in rw (a, b)
bit-shr (suc k) x i =
    let a : suc k + i ≡ suc (k + i) = omega arith in rw (shr_suc k x, a) (bit-shr k (x / 2) i)

-- The complement within `n` digits.
pub bit_not : (n x i : ℕ) → x < 2 ^ n → i < n → bit (2 ^ n - 1 - x) i ≡ 1 - bit x i
bit_not zero x i p q = absurd (omega arith)
bit_not (suc n) x zero p q =
    let twice : 2 ^ suc n ≡ 2 * 2 ^ n = omega (arith, pow-suc 2 n) in omega arith
bit_not (suc n) x (suc i) p q =
    let twice : 2 ^ suc n ≡ 2 * 2 ^ n = omega (arith, pow-suc 2 n) in
    let half : (2 ^ suc n - 1 - x) / 2 ≡ 2 ^ n - 1 - x / 2 = omega arith in
    rw half (bit_not n (x / 2) i (omega arith) (omega arith))

-- `x % 2 ^ n` keeps the low digits.
mod_suc : (n x : ℕ) → (x % 2 ^ suc n / 2 ≡ (x / 2) % 2 ^ n) × (x % 2 ^ suc n % 2 ≡ x % 2)
mod_suc n x =
    let twice : 2 ^ suc n ≡ 2 * 2 ^ n = omega (arith, pow-suc 2 n) in
    let quotient : x / 2 / 2 ^ n ≡ x / 2 ^ suc n = sym (shr_suc n x) in
    let whole = mod-eq-sub-mul-div x (2 ^ suc n) in
    let below = mod-eq-sub-mul-div (x / 2) (2 ^ n) in
    let scaled : 2 ^ suc n * (x / 2 ^ suc n) ≡ 2 * (2 ^ n * (x / 2 ^ suc n)) =
      rw twice (mul_assoc 2 (2 ^ n) _) in
    let same : 2 ^ n * (x / 2 / 2 ^ n) ≡ 2 ^ n * (x / 2 ^ suc n) = ap (λ t. 2 ^ n * t) quotient in
    let fits : 2 ^ suc n * (x / 2 ^ suc n) ≤ x = mul-div-le x (2 ^ suc n) in
    (omega arith, omega arith)

pub bit_mod : (n x i : ℕ) → i < n → bit (x % 2 ^ n) i ≡ bit x i
bit_mod zero x i h = absurd (omega arith)
bit_mod (suc n) x zero h = (mod_suc n x).1
bit_mod (suc n) x (suc i) h = rw ((mod_suc n x).0) (bit_mod n (x / 2) i (omega arith))

-- Neither operation makes a number wider.
pub bit_or-lt : (n a b : ℕ) → a < 2 ^ n → b < 2 ^ n → bit_or a b < 2 ^ n
bit_or-lt zero a b p q =
    let a0 : a ≡ 0 = omega arith in let b0 : b ≡ 0 = omega arith in rw (a0, b0) (omega arith)
bit_or-lt (suc n) a b p q =
    let twice : 2 ^ suc n ≡ 2 * 2 ^ n = omega (arith, pow-suc 2 n) in
    omega (arith, bit_or-step a b, bit_or-lt n (a / 2) (b / 2) (omega arith) (omega arith))

pub bit_and-lt : (n a b : ℕ) → a < 2 ^ n → bit_and a b < 2 ^ n
bit_and-lt zero a b p = let a0 : a ≡ 0 = omega arith in rw a0 (omega (arith, bit_and-bitwise 0 b))
bit_and-lt (suc n) a b p =
    let twice : 2 ^ suc n ≡ 2 * 2 ^ n = omega (arith, pow-suc 2 n) in
    omega (arith, bit_and-step a b, bit_and-lt n (a / 2) (b / 2) (omega arith))

pub shr-lt : (n k x : ℕ) → x < 2 ^ n → x / 2 ^ k < 2 ^ n
shr-lt n k x h = omega (arith, div-le_self x (2 ^ k))

-- A power of 2 has one digit.
pub bit_pow_self : (n : ℕ) → bit (2 ^ n) n ≡ 1
bit_pow_self n =
    let a : 1 * 2 ^ n ≡ 2 ^ n = omega arith in
    let b : n + 0 ≡ n = omega arith in
    sym (ap (λ t. bit t n) a) ∙ (sym (ap (bit (1 * 2 ^ n)) b) ∙ bit-shl n 1 0)

bit_pow_below : (n i : ℕ) → i < n → bit (2 ^ n) i ≡ 0
bit_pow_below n i h =
    let a : 1 * 2 ^ n ≡ 2 ^ n = omega arith in sym (ap (λ t. bit t i) a) ∙ bit-shl_below n 1 i h

-- `x & (2 ^ n - 1)`
bit_and_none : (k x : ℕ) → x ≤ k → bit_and x 0 ≡ 0
bit_and_none zero x h = let x0 : x ≡ 0 = omega arith in rw x0 (omega (arith, bit_and-bitwise 0 0))
bit_and_none (suc k) x h = elim (dec_lt x 1) [
  | yes p ↦ bit_and_none k x (omega arith)
  | no p ↦ omega (arith, bit_and-step x 0, bit_and_none k (x / 2) (omega arith))
]

pub bit_and_low : (n x : ℕ) → bit_and x (2 ^ n - 1) ≡ x % 2 ^ n
bit_and_low zero x = omega (arith, bit_and_none x x (omega arith))
bit_and_low (suc n) x =
    let twice : 2 ^ suc n ≡ 2 * 2 ^ n = omega (arith, pow-suc 2 n) in
    let half : (2 ^ suc n - 1) / 2 ≡ 2 ^ n - 1 = omega arith in
    let rest : bit_and (x / 2) ((2 ^ suc n - 1) / 2) ≡ (x / 2) % 2 ^ n =
      rw half (bit_and_low n (x / 2)) in
    let parts = mod_suc n x in
    let pos : 1 ≤ 2 ^ n = omega (arith, one-le-pow n 2 (omega arith)) in
    omega (arith, bit_and-step x (2 ^ suc n - 1), parts.0, parts.1)

-- `x & (m << k)`
pub bit_and_shl : (k x m : ℕ) → bit_and x (m * 2 ^ k) ≡ bit_and (x / 2 ^ k) m * 2 ^ k
bit_and_shl zero x m =
    let a : m * 2 ^ 0 ≡ m = omega arith in
    let b : x / 2 ^ 0 ≡ x = omega arith in rw (a, b) (omega arith)
bit_and_shl (suc k) x m =
    let half : m * 2 ^ k * 2 / 2 ≡ m * 2 ^ k = omega arith in
    let even : m * 2 ^ k * 2 % 2 ≡ 0 = omega arith in
    let ih = bit_and_shl k (x / 2) m in
    let same : bit_and (x / 2) (m * 2 ^ k * 2 / 2) ≡ bit_and (x / 2) (m * 2 ^ k) =
      ap (bit_and (x / 2)) half in
    let step : bit_and x (m * 2 ^ k * 2) ≡ bit_and (x / 2) (m * 2 ^ k) * 2 =
      omega (arith, bit_and-step x (m * 2 ^ k * 2)) in
    rw (shl_suc k m, shr_suc k x, shl_suc k (bit_and (x / 2 / 2 ^ k) m)) (step ∙ ap (λ t. t * 2) ih)
