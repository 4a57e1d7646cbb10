-- ===== src/Base/Lists.antt =====
-- Vectors and deques as lists with native indices.
use Prim.Native.Nat.{ℕ, zero, suc, ◌+◌, ◌-◌, ◌<◌, ◌≤◌}
use mathlib.Core.Path.{◌≡◌, refl, ap}
use mathlib.Core.Bool.{Bool, true, false}
use mathlib.Core.Logic.{◌≢◌, ◌⊎◌, inl, inr}
use mathlib.Core.List.{List, [], ◌∷◌, ◌++◌}
use mathlib.Core.Option.{Option, none, some}
use native.Mathlib.Omega.{arith}

module _ {ℓ} {A : Type ℓ} where
  abbrev pub length : List A → ℕ
  length [] = 0
  length (x ∷ xs) = suc (length xs)

  abbrev pub get_elem? : List A → ℕ → Option A
  get_elem? [] i = none
  get_elem? (x ∷ xs) zero = some x
  get_elem? (x ∷ xs) (suc i) = get_elem? xs i

  abbrev pub get_or : List A → ℕ → A → A
  get_or [] i d = d
  get_or (x ∷ xs) zero d = x
  get_or (x ∷ xs) (suc i) d = get_or xs i d

  -- A write out of bounds changes nothing.
  abbrev pub set : List A → ℕ → A → List A
  set [] i v = []
  set (x ∷ xs) zero v = v ∷ xs
  set (x ∷ xs) (suc i) v = x ∷ set xs i v

  abbrev pub drop : ℕ → List A → List A
  drop zero xs = xs
  drop (suc n) [] = []
  drop (suc n) (x ∷ xs) = drop n xs

  abbrev pub replicate : ℕ → A → List A
  replicate zero v = []
  replicate (suc n) v = v ∷ replicate n v

  abbrev pub take_while : (A → Bool) → List A → List A
  take_while p [] = []
  take_while p (x ∷ xs) = elim (p x) [ true ↦ x ∷ take_while p xs | false ↦ [] ]

  pub length-append : (xs ys : List A) → length (xs ++ ys) ≡ length xs + length ys
  length-append [] ys = omega arith
  length-append (x ∷ xs) ys = omega (arith, length-append xs ys)

  pub length-set : (xs : List A) (i : ℕ) (v : A) → length (set xs i v) ≡ length xs
  length-set [] i v = refl
  length-set (x ∷ xs) zero v = refl
  length-set (x ∷ xs) (suc i) v = ap suc (length-set xs i v)

  pub length-drop : (n : ℕ) (xs : List A) → length (drop n xs) ≡ length xs - n
  length-drop zero xs = omega arith
  length-drop (suc n) [] = omega arith
  length-drop (suc n) (x ∷ xs) = omega (arith, length-drop n xs)

  pub length-replicate : (n : ℕ) (v : A) → length (replicate n v) ≡ n
  length-replicate zero v = refl
  length-replicate (suc n) v = ap suc (length-replicate n v)

  pub drop_of_lt :
      (i : ℕ) (xs : List A) (d : A) → i < length xs → drop i xs ≡ get_or xs i d ∷ drop (suc i) xs
  drop_of_lt i [] d h = absurd (omega arith)
  drop_of_lt zero (x ∷ xs) d h = refl
  drop_of_lt (suc i) (x ∷ xs) d h = drop_of_lt i xs d (omega arith)

  pub drop_of_ge : (i : ℕ) (xs : List A) → length xs ≤ i → drop i xs ≡ []
  drop_of_ge zero [] h = refl
  drop_of_ge zero (x ∷ xs) h = absurd (omega arith)
  drop_of_ge (suc i) [] h = refl
  drop_of_ge (suc i) (x ∷ xs) h = drop_of_ge i xs (omega arith)

  pub get_elem?_of_lt :
      (xs : List A) (i : ℕ) (d : A) → i < length xs → get_elem? xs i ≡ some (get_or xs i d)
  get_elem?_of_lt [] i d h = absurd (omega arith)
  get_elem?_of_lt (x ∷ xs) zero d h = refl
  get_elem?_of_lt (x ∷ xs) (suc i) d h = get_elem?_of_lt xs i d (omega arith)

  pub get_elem?_of_ge : (xs : List A) (i : ℕ) → length xs ≤ i → get_elem? xs i ≡ none
  get_elem?_of_ge [] i h = refl
  get_elem?_of_ge (x ∷ xs) zero h = absurd (omega arith)
  get_elem?_of_ge (x ∷ xs) (suc i) h = get_elem?_of_ge xs i (omega arith)

  pub get_or-set_self :
      (xs : List A) (i : ℕ) (v d : A) → i < length xs → get_or (set xs i v) i d ≡ v
  get_or-set_self [] i v d h = absurd (omega arith)
  get_or-set_self (x ∷ xs) zero v d h = refl
  get_or-set_self (x ∷ xs) (suc i) v d h = get_or-set_self xs i v d (omega arith)

  pub get_or-set_ne :
      (xs : List A) (i j : ℕ) (v d : A) → i ≢ j → get_or (set xs i v) j d ≡ get_or xs j d
  get_or-set_ne [] i j v d h = refl
  get_or-set_ne (x ∷ xs) zero zero v d h = absurd (h refl)
  get_or-set_ne (x ∷ xs) zero (suc j) v d h = refl
  get_or-set_ne (x ∷ xs) (suc i) zero v d h = refl
  get_or-set_ne (x ∷ xs) (suc i) (suc j) v d h = get_or-set_ne xs i j v d (λ e. h (ap suc e))

module _ {ℓ} {A : Type ℓ} where
  pub get_elem?-append_left :
      (xs ys : List A) (i : ℕ) {a : A} → get_elem? xs i ≡ some a → get_elem? (xs ++ ys) i ≡ some a
  get_elem?-append_left [] ys i h = absurd (ground arith)
  get_elem?-append_left (x ∷ xs) ys zero h = h
  get_elem?-append_left (x ∷ xs) ys (suc i) h = get_elem?-append_left xs ys i h

  pub get_elem?-append_right :
      (xs ys : List A) (i : ℕ) → get_elem? (xs ++ ys) (length xs + i) ≡ get_elem? ys i
  get_elem?-append_right [] ys i = ap (get_elem? ys) (omega arith)
  get_elem?-append_right (x ∷ xs) ys i =
      let e : suc (length xs) + i ≡ suc (length xs + i) = omega arith in
      rw e (get_elem?-append_right xs ys i)

pub get_elem?-lt {ℓ} :
    {A : Type ℓ} (xs : List A) (i : ℕ) {a : A} → get_elem? xs i ≡ some a → i < length xs
get_elem?-lt [] i h = absurd (ground arith)
get_elem?-lt (x ∷ xs) zero h = omega arith
get_elem?-lt (x ∷ xs) (suc i) h = omega (arith, get_elem?-lt xs i h)

pub nil_of_length {ℓ} : {A : Type ℓ} (xs : List A) → length xs ≤ 0 → xs ≡ []
nil_of_length [] h = refl
nil_of_length (x ∷ xs) h = absurd (omega arith)

pub get_elem?-exists {ℓ} :
    {A : Type ℓ} (xs : List A) (i : ℕ) → i < length xs → (a : A) × (get_elem? xs i ≡ some a)
get_elem?-exists [] i h = absurd (omega arith)
get_elem?-exists (x ∷ xs) zero h = (x, refl)
get_elem?-exists (x ∷ xs) (suc i) h = get_elem?-exists xs i (omega arith)

pub get_or-set {ℓ} :
    {A : Type ℓ} (xs : List A) (i j : ℕ) (v d : A)
    → (get_or (set xs i v) j d ≡ get_or xs j d)
      ⊎ ((i ≡ j) × (j < length xs) × (get_or (set xs i v) j d ≡ v))
get_or-set [] i j v d = inl refl
get_or-set (x ∷ xs) zero zero v d = inr (refl, omega arith, refl)
get_or-set (x ∷ xs) zero (suc j) v d = inl refl
get_or-set (x ∷ xs) (suc i) zero v d = inl refl
get_or-set (x ∷ xs) (suc i) (suc j) v d = elim (get_or-set xs i j v d) [
  | inl e ↦ inl e
  | inr (e, h, k) ↦ inr (ap suc e, omega arith, k)
]

pub length-take_while-le {ℓ} :
    {A : Type ℓ} (p : A → Bool) (xs : List A) → length (take_while p xs) ≤ length xs
length-take_while-le p [] = omega arith
length-take_while-le p (x ∷ xs) = ground (arith, length-take_while-le p xs)

-- The head of a suffix is the element at its index.
pub get_elem?-drop {ℓ} :
    {A : Type ℓ} (xs : List A) (i : ℕ) {x : A} {rest : List A}
    → drop i xs ≡ x ∷ rest
    → (i < length xs) × (drop (suc i) xs ≡ rest) × (get_elem? xs i ≡ some x)
get_elem?-drop [] zero h = cc
get_elem?-drop [] (suc i) h = cc
get_elem?-drop (y ∷ ys) zero h = (omega arith, ground arith, ground arith)
get_elem?-drop (y ∷ ys) (suc i) h = let r = get_elem?-drop ys i h in (omega (arith, r.0), r.1, r.2)
