-- ===== src/Suite/Group/Refs.antt =====
-- The references to the tests of a group of `group.cpp`, in the order in which the matrix holds them.
use tnvme.Base.{
  ℕ, zero, suc, ◌<◌, ◌≡◌, refl, ap, List, [], ◌∷◌, ◌++◌, length, get_or, drop, length-append, arith,
}
use tnvme.Suite.Ref.{TestRef, ref}
use tnvme.Suite.Group.{Group, Matrix, row, cell, count_row, count_tests}

-- `n` refs of one cell from `z` on
abbrev pub z_refs : ℕ → ℕ → ℕ → ℕ → ℕ → List TestRef
z_refs g x y z zero = []
z_refs g x y z (suc n) = ref g x y z ∷ z_refs g x y (suc z) n

length-z_refs : (g x y z n : ℕ) → length (z_refs g x y z n) ≡ n
length-z_refs g x y z zero = refl
length-z_refs g x y z (suc n) = ap suc (length-z_refs g x y (suc z) n)

module _ {ℓ} {T : Type ℓ} where
  abbrev pub y_refs : ℕ → ℕ → ℕ → List (List T) → List TestRef
  y_refs g x y [] = []
  y_refs g x y (zs ∷ r) = z_refs g x y 0 (length zs) ++ y_refs g x (suc y) r

  abbrev pub x_refs : ℕ → ℕ → Matrix T → List TestRef
  x_refs g x [] = []
  x_refs g x (ys ∷ r) = y_refs g x 0 ys ++ x_refs g (suc x) r

  -- Every row holds a cell and every cell a test, as the macros that append tests leave it.
  abbrev pub FullRow : List (List T) → Type 0
  FullRow [] = Unit {0}
  FullRow (zs ∷ r) = (0 < length zs) × FullRow r

  abbrev pub FullMatrix : Matrix T → Type 0
  FullMatrix [] = Unit {0}
  FullMatrix (ys ∷ r) = (0 < length ys) × FullRow ys × FullMatrix r

  pub FullRow-get :
      (ys : List (List T)) (y : ℕ) → FullRow ys → y < length ys → 0 < length (get_or ys y [])
  FullRow-get [] y f h = absurd (omega arith)
  FullRow-get (zs ∷ r) zero f h = f.0
  FullRow-get (zs ∷ r) (suc y) f h = FullRow-get r y f.1 (omega arith)

  pub FullMatrix-get :
      (m : Matrix T) (x : ℕ)
      → FullMatrix m
      → x < length m
      → (0 < length (row m x)) × FullRow (row m x)
  FullMatrix-get [] x f h = absurd (omega arith)
  FullMatrix-get (ys ∷ r) zero f h = (f.0, f.1)
  FullMatrix-get (ys ∷ r) (suc x) f h = FullMatrix-get r x f.2 (omega arith)

  pub y_refs_head :
      (g x : ℕ) (ys : List (List T))
      → 0 < length ys
      → y_refs g x 0 ys ≡ z_refs g x 0 0 (length (get_or ys 0 [])) ++ y_refs g x 1 (drop 1 ys)
  y_refs_head g x [] h = absurd (omega arith)
  y_refs_head g x (zs ∷ r) h = refl

  pub x_refs_head :
      (g : ℕ) (m : Matrix T)
      → 0 < length m
      → x_refs g 0 m ≡ y_refs g 0 0 (row m 0) ++ x_refs g 1 (drop 1 m)
  x_refs_head g [] h = absurd (omega arith)
  x_refs_head g (ys ∷ r) h = refl

  length-y_refs : (g x y : ℕ) (ys : List (List T)) → length (y_refs g x y ys) ≡ count_row ys
  length-y_refs g x y [] = refl
  length-y_refs g x y (zs ∷ r) = omega (
    arith,
    length-append (z_refs g x y 0 (length zs)) (y_refs g x (suc y) r),
    length-z_refs g x y 0 (length zs),
    length-y_refs g x (suc y) r,
  )

  pub length-x_refs : (g x : ℕ) (m : Matrix T) → length (x_refs g x m) ≡ count_tests m
  length-x_refs g x [] = refl
  length-x_refs g x (ys ∷ r) = omega (
    arith,
    length-append (y_refs g x 0 ys) (x_refs g (suc x) r),
    length-y_refs g x 0 ys,
    length-x_refs g (suc x) r,
  )

-- The tests of a group, in the order of their numbers.
abbrev pub tests_of {ℓ} : {T : Type ℓ} → Group T → List TestRef
tests_of g = x_refs g.grp_num 0 g.tests

-- A group that holds tests, with no empty deque inside.
pub record IsFull {ℓ} {T : Type ℓ} (g : Group T) : Type 0 where
  pub some_test : 0 < length g.tests
  pub full : FullMatrix g.tests

-- A ref of the group, by its three levels, whose test is there.
pub record InGroup {ℓ} {T : Type ℓ} (g : Group T) (x y z : ℕ) : Type 0 where
  pub x_in : x < length g.tests
  pub y_in : y < length (row g.tests x)
  pub z_in : z < length (cell g.tests x y)
