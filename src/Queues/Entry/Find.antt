-- ===== src/Queues/Entry/Find.antt =====
-- The search of `ProcessCE::GetCEStat` in rows with distinct codes.
use tnvme.Base.{
  ℕ, zero, suc, ◌+◌, ◌≡◌, ◌⊎◌, inl, inr, refl, ap, subst, Bool, true, false, not, ◌&&◌, some, List,
  [], ◌∷◌, ok, thrown, get_elem?, ◌==◌, Bool-cases, arith,
}
use tnvme.Queues.Entry.{StatByBits, ce_stat_metrics, same_codes, find_codes}

-- No row of the table has the codes of another one.
fresh : ℕ × ℕ → List (ℕ × ℕ) → Bool
fresh row [] = true
fresh row (x ∷ r) = let rest = fresh row r in not (row.0 == x.0 && row.1 == x.1) && rest

distinct : List (ℕ × ℕ) → Bool
distinct [] = true
distinct (x ∷ r) = let rest = distinct r in fresh x r && rest

distinct-ce_stat_metrics : distinct ce_stat_metrics ≡ true
unfolding distinct fresh
distinct-ce_stat_metrics = refl

module _ (b : StatByBits) where
  fresh_lem :
      (row : ℕ × ℕ) (l : List (ℕ × ℕ)) (t : ℕ) (r : ℕ × ℕ)
      → fresh row l ≡ true
      → same_codes b row ≡ true
      → get_elem? l t ≡ some r
      → same_codes b r ≡ false
  unfolding fresh
  fresh_lem row [] t r f s h = absurd (ground arith)
  fresh_lem row (x ∷ l) zero r f s h =
      let e : x ≡ r = ground arith in subst (λ y. same_codes b y ≡ false) e (ground arith)
  fresh_lem row (x ∷ l) (suc t) r f s h = fresh_lem row l t r (ground arith) s h

  -- What the search finds in rows with distinct codes.
  abbrev pub Found : ℕ → List (ℕ × ℕ) → Type 0
  Found i l =
      ((k : ℕ) × (r : ℕ × ℕ) × (find_codes b i l ≡ ok (k + i))
        × (get_elem? l k ≡ some r)
        × (same_codes b r ≡ true)
        × ((t : ℕ) (q : ℕ × ℕ) → get_elem? l t ≡ some q → same_codes b q ≡ true → t ≡ k))
      ⊎ ((find_codes b i l ≡ thrown)
          × ((t : ℕ) (q : ℕ × ℕ) → get_elem? l t ≡ some q → same_codes b q ≡ false))

  find_codes-Found : (i : ℕ) (l : List (ℕ × ℕ)) → distinct l ≡ true → Found i l
  unfolding find_codes distinct
  find_codes-Found i [] d = inr (refl, λ t q h. absurd (ground arith))
  find_codes-Found i (x ∷ l) d = elim (Bool-cases (same_codes b x)) [
    | inl s ↦ inl (0, x, rw s (ap ok (omega arith)), refl, s, first s)
    | inr f ↦ elim (find_codes-Found (i + 1) l (ground arith)) [
      | inl (k, r, e, h, s, u) ↦ inl (suc k, r, rw (f, e) (ap ok (omega arith)), h, s, behind f u)
      | inr (e, u) ↦ inr (rw (f, e) refl, nowhere f u)
    ]
  ]
    where
      first :
          same_codes b x ≡ true
          → (t : ℕ) (q : ℕ × ℕ) → get_elem? (x ∷ l) t ≡ some q
          → same_codes b q ≡ true
          → t ≡ 0
      first s zero q h g = refl
      first s (suc t) q h g =
          let n = fresh_lem x l t q (ground arith) s h in absurd (ground (arith, n, g))

      behind :
          {k : ℕ}
          → same_codes b x ≡ false
          → ((t : ℕ) (q : ℕ × ℕ) → get_elem? l t ≡ some q → same_codes b q ≡ true → t ≡ k)
          → (t : ℕ) (q : ℕ × ℕ) → get_elem? (x ∷ l) t ≡ some q
          → same_codes b q ≡ true
          → t ≡ suc k
      behind f u zero q h g =
          let e : x ≡ q = ground arith in
          let n : same_codes b q ≡ false = subst (λ y. same_codes b y ≡ false) e f in
          absurd (ground (arith, n, g))
      behind f u (suc t) q h g = ap suc (u t q h g)

      nowhere :
          same_codes b x ≡ false
          → ((t : ℕ) (q : ℕ × ℕ) → get_elem? l t ≡ some q → same_codes b q ≡ false)
          → (t : ℕ) (q : ℕ × ℕ) → get_elem? (x ∷ l) t ≡ some q
          → same_codes b q ≡ false
      nowhere f u zero q h = let e : x ≡ q = ground arith in subst (λ y. same_codes b y ≡ false) e f
      nowhere f u (suc t) q h = u t q h

  pub table_Found : Found 0 ce_stat_metrics
  table_Found = find_codes-Found 0 ce_stat_metrics distinct-ce_stat_metrics
