-- ===== src/Data/Buffer.antt =====
-- What the allocation of a buffer leaves, and when two buffers are the same.
use tnvme.Base.{
  ℕ, ◌+◌, ◌%◌, ◌^◌, ◌<◌, ◌≡◌, ◌≢◌, ◌⊎◌, inl, inr, refl, subst, Bool, true, false, Option, none,
  some, List, [], ◌∷◌, Result, ok, thrown, length, length-drop, length-replicate, drop, replicate,
  ◌==◌, Bool-cases, if◌then◌else◌, arith, ℕ_discrete,
}
use tnvme.Data.{
  MemBuffer, Heap, no_buffer, initialised, same_bytes, allocated, init_offset_1st_page,
  init_alignment, init_new, compare_bytes,
}

-- Memory of the size that was asked for.
pub record Honest {ℓ} {H : Type ℓ} (k : Heap H) : Type ℓ where
  pub aligned :
      (align size : ℕ) (h : H) {l : List ℕ} → (k.memalign align size h).0 ≡ some l → length l ≡ size
  pub bytes : (size : ℕ) (h : H) {l : List ℕ} → (k.new_bytes size h).0 ≡ some l → length l ≡ size

-- A buffer of `size` bytes, all of them `v` if they were initialised.
pub record Holds (size : ℕ) (init : Bool) (v : ℕ) (b : MemBuffer) : Type 0 where
  pub bytes : List ℕ
  pub held : b.contents ≡ some bytes
  pub full : length bytes ≡ size
  pub of_size : b.size ≡ size
  pub filled : (init ≡ false) ⊎ (bytes ≡ replicate size v)

length-initialised :
    (init : Bool) (v size : ℕ) (l : List ℕ)
    → length l ≡ size
    → length (initialised init v size l) ≡ size
unfolding initialised
length-initialised true v size l e = length-replicate size v
length-initialised false v size l e = e

initialised_lem :
    (init : Bool) (v size : ℕ) (l : List ℕ)
    → (init ≡ false) ⊎ (initialised init v size l ≡ replicate size v)
unfolding initialised
initialised_lem true v size l = inr refl
initialised_lem false v size l = inl refl

-- What an allocation leaves: a buffer of the size, or after a failure none.
abbrev Outcome {ℓ} : {H : Type ℓ} → ℕ → Bool → ℕ → Result (Unit {0}) × MemBuffer × H → Type 0
Outcome size init v r =
    ((r.0 ≡ ok tt) × Holds size init v r.1) ⊎ ((r.0 ≡ thrown) × (r.1 ≡ no_buffer))

module _ {ℓ} {H : Type ℓ} (k : Heap H) (honest : Honest k) where
  allocated-Outcome :
      (memory : Option (List ℕ)) (offset size align : ℕ) (new init : Bool) (v : ℕ) (h : H)
      → ((l : List ℕ) → memory ≡ some l → length l ≡ size + offset)
      → Outcome size init v (allocated k memory offset size align new init v h)
  unfolding allocated
  allocated-Outcome none offset size align new init v h q = inr (refl, refl)
  allocated-Outcome (some l) offset size align new init v h q =
      let e : length (drop offset l) ≡ size = omega (arith, length-drop {0} offset l, q l refl) in
      inl (
        refl,
        record {
          bytes = initialised init v size (drop offset l);
          held = refl;
          full = length-initialised init v size (drop offset l) e;
          of_size = refl;
          filled = initialised_lem init v size (drop offset l);
        },
      )

  -- With a heap that gives memory of the size it is asked for, and a size that has 32 bits with
  -- the offset: InitOffset1stPage throws and keeps the buffer for an offset that is no multiple of
  -- 4, InitAlignment for an alignment that is no multiple of 8; else they and Init leave a buffer
  -- of the size, with every byte the initial value if that was asked for, or throw and leave no
  -- buffer.
  init-Outcome :
      (size offset align : ℕ) (init_mem : Bool) (v : ℕ) (b : MemBuffer) (h : H)
      → size + offset < 2 ^ 32
      → let page = init_offset_1st_page k size offset init_mem v b h in
        let line = init_alignment k size align init_mem v b h in
        (((offset % 4 ≢ 0) × (page ≡ (thrown, b, h)))
          ⊎ ((offset % 4 ≡ 0) × Outcome size init_mem v page))
        × (((align % 8 ≢ 0) × (line ≡ (thrown, b, h)))
            ⊎ ((align % 8 ≡ 0) × Outcome size init_mem v line))
        × Outcome size init_mem v (init_new k size init_mem v h)
  unfolding init_offset_1st_page init_alignment init_new
  init-Outcome size offset align init_mem v b h fits = (
    elim (ℕ_discrete (offset % 4) 0) [
      | yes e ↦ inr (e, rw e (page_memory e))
      | no n ↦ inl (n, ground arith)
    ],
    elim (ℕ_discrete (align % 8) 0) [
      | yes e ↦ inr (e, rw e (line_memory e))
      | no n ↦ inl (n, ground arith)
    ],
    allocated-Outcome _ 0 size 0 true init_mem v _ (λ l e. omega (arith, honest.bytes size h e)),
  )
    where
      page_memory :
          offset % 4 ≡ 0
          → Outcome size init_mem v (
              allocated k
                (k.memalign k.page_size ((size + offset) % 2 ^ 32) h).0
                offset
                size
                (if offset == 0 then k.page_size else offset)
                false
                init_mem
                v
                (k.memalign k.page_size ((size + offset) % 2 ^ 32) h).1)
      page_memory e =
          allocated-Outcome _ offset size _ false init_mem v _
            (λ l e. omega (arith, honest.aligned k.page_size ((size + offset) % 2 ^ 32) h e))

      line_memory :
          align % 8 ≡ 0
          → Outcome size init_mem v (
              allocated k
                (k.memalign align size h).0
                0
                size
                align
                false
                init_mem
                v
                (k.memalign align size h).1)
      line_memory e =
          allocated-Outcome _ 0 size align false init_mem v _
            (λ l e. omega (arith, honest.aligned align size h e))

-- Two lists of bytes compare equal exactly if they are.
same_bytes_self : (x : List ℕ) → same_bytes x x ≡ true
unfolding same_bytes
same_bytes_self [] = refl
same_bytes_self (a ∷ x) = ground (arith, same_bytes_self x)

same_bytes-eq : (x y : List ℕ) → same_bytes x y ≡ true → x ≡ y
unfolding same_bytes
same_bytes-eq [] [] h = refl
same_bytes-eq [] (b ∷ y) h = absurd (ground arith)
same_bytes-eq (a ∷ x) [] h = absurd (ground arith)
same_bytes-eq (a ∷ x) (b ∷ y) h =
    let t : same_bytes x y ≡ true = ground arith in
    let e : a ≡ b = ground arith in rw (e, same_bytes-eq x y t) refl

-- Compare with a vector throws if its size is not that of the buffer, returns true if both hold
-- the same bytes, and false if not.
compare_bytes_lem :
    (v : List ℕ) (size : ℕ) (l : List ℕ)
    → ((length v ≢ size) × (compare_bytes v size l ≡ thrown))
      ⊎ (((length v ≡ size) × (v ≡ l) × (compare_bytes v size l ≡ ok true))
          ⊎ ((length v ≡ size) × (v ≢ l) × (compare_bytes v size l ≡ ok false)))
unfolding compare_bytes
compare_bytes_lem v size l = elim (ℕ_discrete (length v) size) [
  | no n ↦ inl (n, ground arith)
  | yes e ↦ inr (elim (Bool-cases (same_bytes v l)) [
    | inl t ↦ inl (e, same_bytes-eq v l t, ground arith)
    | inr f ↦ inr (e, (λ q. absurd (differ q f)), ground arith)
  ])
]
  where
    differ : v ≡ l → same_bytes v l ≡ false → ⊥
    differ q f =
        let t : same_bytes v l ≡ true = subst (λ t. same_bytes v t ≡ true) q (same_bytes_self v) in
        cc
