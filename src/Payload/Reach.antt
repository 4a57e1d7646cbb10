-- ===== src/Payload/Reach.antt =====
-- The payload of a command over any sequence of the safe setters.
use tnvme.Base.{
  ℕ, ◌^◌, ◌<◌, ◌≡◌, ◌≢◌, ◌⊎◌, inl, inr, refl, sym, ◌∙◌, subst, Option, none, some, Result, arith,
}
use tnvme.Base.Bits.{bit_of_zero}
use tnvme.Cmds.Cmd.{DataDir}
use tnvme.Data.{MemBuffer, no_buffer}
use tnvme.Meta.{MetaDataBuf}
use tnvme.Payload.{
  Payload, RoBuffer, constructed, set_prp_allowed, set_prp_buffer, set_prp_buffer_ro,
}
use tnvme.Payload.Masks.{Subset, disallowed_lem}
use tnvme.Payload.Buffers.{IsSetUp, Permits, set_prp_buffer_lem, set_prp_buffer_ro_lem}

-- Only allowed PRP fields are used, of two kinds of memory at most one is set up, it has a size, and
-- a command without a direction has none.
pub record IsValid (specific_bits : ℕ) (p : Payload) : Type 0 where
  pub fits : p.prp_allowed < 2 ^ 32
  pub prp_only : Subset p.prp_allowed specific_bits
  pub fields_allowed : Subset p.prp_fields p.prp_allowed
  pub one_kind : (p.buf_rw ≡ none) ⊎ (p.buf_ro ≡ 0)
  pub empty : p.buf_size ≡ 0 → (p.buf_rw ≡ none) × (p.buf_ro ≡ 0) × (p.prp_fields ≡ 0)
  pub sized : p.buf_rw ≡ none → p.buf_ro ≡ 0 → p.buf_size ≡ 0
  pub directed : p.data_dir ≡ DataDir.none → p.buf_size ≡ 0

-- One call of a setter, an exception included, or any change of the metadata buffer.
pub data Step : Payload → Payload → Type 0 where
  set_rw :
      (fields : ℕ) (mem_buffer : Option ℕ) (objects : ℕ → MemBuffer) {p q : Payload}
      {r : Result (Unit {0})}
      → fields < 2 ^ 32
      → set_prp_buffer fields mem_buffer objects p ≡ some (r, q)
      → Step p q
  set_ro :
      (fields mem_buffer size : ℕ) (p : Payload)
      → fields < 2 ^ 32
      → Step p (set_prp_buffer_ro fields mem_buffer size p).1
  set_meta : (m : MetaDataBuf) (p : Payload) → Step p (record p { meta_data = m })

pub data Reach (p : Payload) : Payload → Type 0 where
  here : Reach p p
  next : {q r : Payload} → Reach p q → Step q r → Reach p r

module _ (specific_bits : ℕ) (wide : specific_bits < 2 ^ 32) where
  Subset-zero : (a : ℕ) → Subset 0 a
  Subset-zero a i h = omega (arith, bit_of_zero i)

  set_prp_allowed-IsValid :
      (dir : DataDir) (mask : ℕ)
      → mask < 2 ^ 32
      → IsValid specific_bits (set_prp_allowed specific_bits mask (constructed dir)).1
  unfolding set_prp_allowed
  set_prp_allowed-IsValid dir mask small = elim (disallowed_lem mask specific_bits small wide) [
    | inl (s, f) ↦ rw f (valid mask small s)
    | inr (n, f) ↦ rw f (valid 0 (omega arith) (Subset-zero specific_bits))
  ]
    where
      valid :
          (allowed : ℕ)
          → allowed < 2 ^ 32
          → Subset allowed specific_bits
          → IsValid specific_bits (record (constructed dir) { prp_allowed = allowed })
      valid allowed fits s = record {
        fits = fits;
        prp_only = s;
        fields_allowed = Subset-zero allowed;
        one_kind = inl refl;
        empty = λ e. (refl, refl, refl);
        sized = λ e f. refl;
        directed = λ e. refl;
      }

  -- The null pointer: the call throws before it is used, or has no result.
  set_null :
      (fields : ℕ) (objects : ℕ → MemBuffer) (p q : Payload) (r : Result (Unit {0}))
      → set_prp_buffer fields none objects p ≡ some (r, q)
      → q ≡ p
  unfolding set_prp_buffer
  set_null fields objects p q r h = ground arith

  set_up-IsValid :
      (objects : ℕ → MemBuffer) (memory : RoBuffer) (size fields : ℕ) (p q : Payload)
      → IsSetUp objects memory size fields p q
      → Permits p fields
      → size ≢ 0
      → (q.buf_rw ≡ none) ⊎ (q.buf_ro ≡ 0)
      → (q.buf_rw ≡ none → q.buf_ro ≢ 0)
      → IsValid specific_bits p
      → IsValid specific_bits q
  set_up-IsValid objects memory size fields p q S w n one some_kind V = record {
    fits = rw S.same_allowed V.fits;
    prp_only = rw S.same_allowed V.prp_only;
    fields_allowed = rw (S.chosen, S.same_allowed) w.1;
    one_kind = one;
    empty = λ e. absurd (n (sym S.sized ∙ e));
    sized = λ e f. absurd (some_kind e f);
    directed = λ e. absurd (w.0 (sym S.same_dir ∙ e));
  }

  set_rw-IsValid :
      (fields i : ℕ) (objects : ℕ → MemBuffer) (p q : Payload) (r : Result (Unit {0}))
      → fields < 2 ^ 32
      → set_prp_buffer fields (some i) objects p ≡ some (r, q)
      → IsValid specific_bits p
      → IsValid specific_bits q
  set_rw-IsValid fields i objects p q r small h V =
      elim (set_prp_buffer_lem objects fields p small V.fits i) [
        | inr (n, e) ↦
            let same : p ≡ q = ground (arith, e, h) in subst (IsValid specific_bits) same V
        | inl (a, (t, e, f, g, S)) ↦
            let same : t ≡ q = ground (arith, e, h) in
            subst (IsValid specific_bits) same
              (set_up-IsValid objects _ _ fields p t S a.0 a.2 (inr g) (λ x y. cc) V)
      ]

  set_ro-IsValid :
      (fields mem size : ℕ) (p : Payload)
      → fields < 2 ^ 32
      → IsValid specific_bits p
      → IsValid specific_bits (set_prp_buffer_ro fields mem size p).1
  set_ro-IsValid fields mem size p small V =
      elim (set_prp_buffer_ro_lem no_objects fields p small V.fits mem size) [
        | inr (n, e) ↦ rw e V
        | inl (a, (t, e, f, g, S)) ↦
            rw e (
              set_up-IsValid no_objects _ _ fields p t S a.0 a.3 (inl f) (λ x y. a.4 (sym g ∙ y)) V)
      ]
    where
      no_objects : ℕ → MemBuffer
      no_objects i = no_buffer

  Step-IsValid : {p q : Payload} → Step p q → IsValid specific_bits p → IsValid specific_bits q
  Step-IsValid (set_rw fields none objects {p} {q} {r} small h) V =
      subst (IsValid specific_bits) (sym (set_null fields objects p q r h)) V
  Step-IsValid (set_rw fields (some i) objects {p} {q} {r} small h) V =
      set_rw-IsValid fields i objects p q r small h V
  Step-IsValid (set_ro fields mem size p small) V = set_ro-IsValid fields mem size p small V
  Step-IsValid (set_meta m p) V = record {
    fits = V.fits;
    prp_only = V.prp_only;
    fields_allowed = V.fields_allowed;
    one_kind = V.one_kind;
    empty = V.empty;
    sized = V.sized;
    directed = V.directed;
  }

  -- After a constructor that calls SetPrpAllowed with any mask of 32 bits, and any sequence of
  -- calls of the two forms of SetPrpBuffer with masks of 32 bits (not of SetPrpBufferUnsafe),
  -- exceptions included, and of changes of the buffer objects and of the metadata: the permissions
  -- are among the PRP bits, the fields among the permissions; a buffer and read-only memory are
  -- never both set up; the size is 0 exactly if neither is, and then no field is chosen; and it is
  -- 0 for a command without a data direction.
  pub payload-IsValid :
      (dir : DataDir) (mask : ℕ) {p : Payload}
      → mask < 2 ^ 32
      → Reach (set_prp_allowed specific_bits mask (constructed dir)).1 p
      → IsValid specific_bits p
  payload-IsValid dir mask small here = set_prp_allowed-IsValid dir mask small
  payload-IsValid dir mask small (next r st) = Step-IsValid st (payload-IsValid dir mask small r)
