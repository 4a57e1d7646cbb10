-- ===== src/Suite/Run/Shape.antt =====
-- Replacing a test object leaves the numbers of a group's tests as they are.
use tnvme.Base.{ℕ, ◌≡◌, ap, ◌∙◌, inl, inr, List, [], length, get_or, set, length-set, get_or-set}
use tnvme.Suite.Ref.{TestRef}
use tnvme.Suite.Group.{Matrix, row, cell, in_matrix}
use tnvme.Suite.Run.{put_test}

module _ {ℓ} {T : Type ℓ} where
  -- A list of lists keeps the lengths of its members when one is replaced by one as long.
  length-get_or-set :
      (xs : List (List T)) (i j : ℕ) (v : List T)
      → length v ≡ length (get_or xs i [])
      → length (get_or (set xs i v) j []) ≡ length (get_or xs j [])
  length-get_or-set xs i j v h = elim (get_or-set xs i j v []) [
    | inl e ↦ ap length e
    | inr (e, _, k) ↦ ap length k ∙ (h ∙ ap (λ n. length (get_or xs n [])) e)
  ]

  module _ (m : Matrix T) (p : TestRef) (t : T) where
    new_cell : List T
    new_cell = set (cell m p.x_lev p.y_lev) p.z_lev t

    length-put_test : length (put_test m p t) ≡ length m
    unfolding put_test
    length-put_test = length-set m p.x_lev _

    length-row-put_test : (x : ℕ) → length (row (put_test m p t) x) ≡ length (row m x)
    unfolding put_test new_cell
    length-row-put_test x =
        elim (get_or-set m p.x_lev x (set (row m p.x_lev) p.y_lev new_cell) []) [
          | inl e ↦ ap length e
          | inr (e, _, k) ↦
              ap length k ∙ (length-set (row m p.x_lev) p.y_lev _ ∙ ap (λ n. length (row m n)) e)
        ]

    length-cell-put_test : (x y : ℕ) → length (cell (put_test m p t) x y) ≡ length (cell m x y)
    unfolding put_test new_cell
    length-cell-put_test x y =
        elim (get_or-set m p.x_lev x (set (row m p.x_lev) p.y_lev new_cell) []) [
          | inl e ↦ ap (λ r. length (get_or r y [])) e
          | inr (e, _, k) ↦
              ap (λ r. length (get_or r y [])) k
              ∙ (length-get_or-set (row m p.x_lev) p.y_lev y _
                    (length-set (cell m p.x_lev p.y_lev) p.z_lev t)
                  ∙ ap (λ n. length (cell m n y)) e)
        ]

    pub in_matrix-put_test : (x y z : ℕ) → in_matrix (put_test m p t) x y z ≡ in_matrix m x y z
    unfolding in_matrix
    in_matrix-put_test x y z = rw (length-put_test, length-row-put_test x, length-cell-put_test x y)
