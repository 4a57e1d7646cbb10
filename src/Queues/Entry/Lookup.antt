-- ===== src/Queues/Entry/Lookup.antt =====
-- The status that `ProcessCE::GetCEStat` looks up, and what the validations of an entry make of it.
use tnvme.Base.{
  ℕ, zero, suc, ◌≡◌, ◌≢◌, ◌↔◌, ◌⊎◌, inl, inr, refl, sym, ap, ◌∙◌, subst, true, false, none, some,
  ok, thrown, get_elem?, ◌==◌, Bool-cases, Option-cases, arith,
}
use tnvme.Queues.Entry.{
  StatByBits, ce_stat_metrics, same_codes, is_success, validate_row, validate_peek, validate,
  validate_detailed, invalidate_peek, find_codes, get_ce_stat,
}
use tnvme.Queues.Entry.Find.{table_Found}

module _ (b : StatByBits) where
  -- An entry that says success may not say that there is more.
  abbrev pub Clean : Type 0
  Clean = (is_success b ≡ false) ⊎ (b.m ≡ 0)

  row_valid :
      (row : ℕ × ℕ) → (validate_row b (some row) ≡ some true) ↔ ((same_codes b row ≡ true) × Clean)
  unfolding validate_row
  row_valid row = elim (Bool-cases (same_codes b row)) [
    | inr f ↦ ((λ h. absurd (ground (arith, rw f at h))), (λ h. absurd (ground (arith, f, h.0))))
    | inl s ↦ elim (Bool-cases (is_success b)) [
      | inr g ↦ ((λ h. (s, inl g)), (λ h. rw (s, g) refl))
      | inl g ↦ elim (Bool-cases (b.m == 0)) [
        | inl z ↦ ((λ h. (s, inr (ground arith))), (λ h. rw (s, g, z) refl))
        | inr z ↦ (
          (λ h. absurd (ground (arith, rw (s, g, z) at h))),
          (λ h. absurd (elim h.1 [ inl n ↦ ground (arith, n, g) | inr e ↦ ground (arith, e, z) ])),
        )
      ]
    ]
  ]

  peek_valid :
      (t : ℕ)
      → validate_peek t b ≡ some true
      → (row : ℕ × ℕ) × (get_elem? ce_stat_metrics t ≡ some row) × (same_codes b row ≡ true) × Clean
  unfolding validate_peek validate_row
  peek_valid t h = elim (Option-cases (get_elem? ce_stat_metrics t)) [
    | inl e ↦ absurd (not_valid (rw e at h))
    | inr (row, e) ↦ let (s, c) = (row_valid row).0 (rw e at h) in (row, e, s, c)
  ]
    where
      not_valid : none ≡ some true → ⊥
      not_valid e = cc

  -- Looked up: the one status that ValidatePeek can accept.
  abbrev pub LookedUp : Type 0
  LookedUp =
      ((s : ℕ) × (get_ce_stat b ≡ ok s)
        × ((t : ℕ) → (validate_peek t b ≡ some true) ↔ ((t ≡ s) × Clean)))
      ⊎ ((get_ce_stat b ≡ thrown) × ((t : ℕ) → validate_peek t b ≢ some true))

  get_ce_stat-LookedUp : LookedUp
  unfolding get_ce_stat validate_peek
  get_ce_stat-LookedUp = elim (table_Found b) [
    | inr (e, u) ↦
        inr
          (e, λ t h. (let (row, f, s, c) = peek_valid t h in absurd (ground (arith, u t row f, s))))
    | inl (k, r, e, f, s, u) ↦ inl (
      k,
      e ∙ ap ok (omega arith),
      λ t. (
        (λ h. (let (row, g, same, c) = peek_valid t h in (u t row g same, c))),
        (λ h. (let w = (row_valid r).1 (s, h.1) in rw (h.0, f) w)),
      ),
    )
  ]

  first_row :
      (k : ℕ) (r : ℕ × ℕ)
      → k ≡ 0
      → get_elem? ce_stat_metrics k ≡ some r
      → same_codes b r ≡ true
      → is_success b ≡ true
  first_row zero r z f s =
      let e : (0, 0) ≡ r = ground arith in subst (λ y. same_codes b y ≡ true) (sym e) s
  first_row (suc k) r z f s = absurd (omega arith)

  zero_found : get_ce_stat b ≡ ok 0 → is_success b ≡ true
  unfolding get_ce_stat
  zero_found h = elim (table_Found b) [
    | inr (e, u) ↦ absurd (ground (arith, e, h))
    | inl (k, r, e, f, s, u) ↦ first_row k r (ground (arith, e, h)) f s
  ]

  invalidate_peek_lem : (t : ℕ) → (invalidate_peek t b ≡ false) ↔ (get_ce_stat b ≡ ok 0)
  unfolding invalidate_peek get_ce_stat find_codes
  invalidate_peek_lem t = elim (Bool-cases (is_success b)) [
    | inl g ↦ ((λ h. rw g refl), (λ h. rw g refl))
    | inr g ↦ (
      (λ h. absurd (ground (arith, rw g at h))),
      (λ h. (let z : is_success b ≡ true = zero_found h in absurd (ground (arith, g, z)))),
    )
  ]

  detailed_self : Clean → validate_detailed b b ≡ ok tt
  unfolding validate_detailed
  detailed_self c =
      rw (self b.dnr, self b.m, self b.p, self b.sc, self b.sct)
        (elim c [ inl g ↦ rw g refl | inr z ↦ ground arith ])
    where
      self : (n : ℕ) → (n == n) ≡ true
      self n = ground arith

  detailed_same : (e : StatByBits) → validate_detailed e b ≡ ok tt → (e ≡ b) × Clean
  unfolding validate_detailed
  detailed_same e h =
      let f1 : e.dnr ≡ b.dnr = ground arith in
      let f2 : e.m ≡ b.m = ground arith in
      let f3 : e.p ≡ b.p = ground arith in
      let f4 : e.sc ≡ b.sc = ground arith in
      let f5 : e.sct ≡ b.sct = ground arith in
      (
        λ i. record { p = f3 i; sc = f4 i; sct = f5 i; m = f2 i; dnr = f1 i },
        elim (Bool-cases (is_success b)) [ inl g ↦ inr (ground arith) | inr g ↦ inl g ],
      )

  validate_lem : (t : ℕ) → (validate t b ≡ some (ok tt)) ↔ (validate_peek t b ≡ some true)
  unfolding validate validate_peek validate_row
  validate_lem t = elim (Option-cases (validate_peek t b)) [
    | inl e ↦ ((λ h. absurd (ground (arith, rw e at h))), (λ h. absurd (ground (arith, e, h))))
    | inr (v, e) ↦ elim (Bool-cases v) [
      | inl g ↦ ((λ h. rw (e, g) refl), (λ h. rw (e, g) refl))
      | inr g ↦
          ((λ h. absurd (ground (arith, rw (e, g) at h))), (λ h. absurd (ground (arith, e, g, h))))
    ]
  ]

  -- For the status bits of any entry: either GetCEStat returns a status, and ValidatePeek of a
  -- status returns true exactly if it is that one and an entry that says success does not have the
  -- bit M; or GetCEStat throws, and ValidatePeek of no status returns true. Validate of a status
  -- returns exactly if ValidatePeek of it returns true. InvalidatePeek returns false exactly if
  -- GetCEStat returns CESTAT_SUCCESS, whatever the status that it is given. ValidateDetailed
  -- returns exactly if every field but the reserved bits is the expected one and an entry that
  -- says success does not have the bit M.
  pub validations :
      LookedUp
      × ((t : ℕ) → (validate t b ≡ some (ok tt)) ↔ (validate_peek t b ≡ some true))
      × ((t : ℕ) → (invalidate_peek t b ≡ false) ↔ (get_ce_stat b ≡ ok 0))
      × ((e : StatByBits) → (validate_detailed e b ≡ ok tt) ↔ ((e ≡ b) × Clean))
  validations = (
    get_ce_stat-LookedUp,
    validate_lem,
    invalidate_peek_lem,
    λ e. (
      detailed_same e,
      (λ h. subst (λ x. validate_detailed x b ≡ ok tt) (sym h.0) (detailed_self h.1)),
    ),
  )
