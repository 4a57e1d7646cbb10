-- ===== src/Cmds/Roundtrip.antt =====
-- The accessors of `Cmds/cmd.cpp` against one another: what is set is got, and nothing else is
-- touched; when they throw; and what `Init` makes.
use tnvme.Base.{
  ℕ, ◌+◌, ◌*◌, ◌/◌, ◌%◌, ◌^◌, ◌≤◌, ◌<◌, ◌≡◌, ◌≢◌, ◌↔◌, ◌⊎◌, refl, sym, ap, ◌∙◌, inl, inr, length,
  length-replicate, get_or, true, false, Bool-cases, ok, thrown, arith, ltb, leb, le→leb, ltb→lt,
  lt→ltb, zero, suc, replicate,
}
use tnvme.Cmds.Field.{get_field, mask_of}
use tnvme.Cmds.Cmd.{Cmd, DataDir, size_dw, set_bits, get_bits, get_dword, set_dword, init, init_dir}
use tnvme.Cmds.Writes.{IsValid, Wrote, dword, field, offset_fits, get_bits_ok, set_bits-Wrote}
use tnvme.Cmds.Fields.{Apart, field_written, field_kept}

-- On a valid command, for a field that SetBits accepts, SetBits succeeds and leaves a valid
-- command; GetBits of the field then returns the value modulo 2 to its width, and GetBits of any
-- other accepted field that is apart from it returns what it did before.
pub set_bits-get_bits :
    (c : Cmd) (v w off n u k m : ℕ)
    → IsValid c
    → w < length c.dwords
    → u < length c.dwords
    → off + 1 ≤ 32 / n
    → k + 1 ≤ 32 / m
    → Apart w (off * n) n u (k * m) m
    → (r : Cmd) × (set_bits v w off n c ≡ ok r)
      × IsValid r
      × (get_bits w off n r ≡ ok (v % 2 ^ n))
      × (get_bits u k m r ≡ get_bits u k m c)
unfolding Wrote
set_bits-get_bits c v w off n u k m V big big' fit fit' apart =
    let s = set_bits-Wrote c V w off n big fit v in
    let r = s.0 in
    let W = s.2 in
    let size : length r.dwords ≡ length c.dwords = W.same_size in
    let here = get_bits_ok r W.valid w off n (omega arith) fit in
    let there = get_bits_ok r W.valid u k m (omega arith) fit' in
    (
      r,
      s.1,
      W.valid,
      here ∙ ap ok (field_written c V w (off * n) n v r W (offset_fits off n fit)),
      there
          ∙ (ap ok (field_kept c V w (off * n) n v r W u (k * m) m (offset_fits k m fit') apart)
              ∙ sym (get_bits_ok c V u k m big' fit')),
    )

module _ (c : Cmd) (v w off n : ℕ) where
  Refused : Type 0
  Refused = (size_dw c ≤ w) ⊎ (32 / n < off + 1)

  set_refused : Refused → set_bits v w off n c ≡ thrown
  unfolding set_bits Refused
  set_refused (inl h) = rw (le→leb (size_dw c) w h) refl
  set_refused (inr h) = elim (Bool-cases (leb (size_dw c) w)) [
    | inl e ↦ rw e refl
    | inr e ↦ rw (e, lt→ltb (32 / n) (off + 1) h) refl
  ]

  get_refused : Refused → get_bits w off n c ≡ thrown
  unfolding get_bits Refused
  get_refused (inl h) = rw (le→leb (size_dw c) w h) refl
  get_refused (inr h) = elim (Bool-cases (leb (size_dw c) w)) [
    | inl e ↦ rw e refl
    | inr e ↦ rw (e, lt→ltb (32 / n) (off + 1) h) refl
  ]

  set_kept :
      leb (size_dw c) w ≡ false → ltb (32 / n) (off + 1) ≡ false → set_bits v w off n c ≢ thrown
  unfolding set_bits get_dword set_dword
  set_kept p q = rw (p, q) (λ e. cc)

  get_kept :
      leb (size_dw c) w ≡ false → ltb (32 / n) (off + 1) ≡ false → get_bits w off n c ≢ thrown
  unfolding get_bits get_dword
  get_kept p q = rw (p, q) (λ e. cc)

  decide : Refused ⊎ ((leb (size_dw c) w ≡ false) × (ltb (32 / n) (off + 1) ≡ false))
  unfolding Refused
  decide = elim (Bool-cases (leb (size_dw c) w)) [
    | inl e ↦ inl (inl (ground arith))
    | inr e ↦ elim (Bool-cases (ltb (32 / n) (off + 1))) [
      | inl f ↦ inl (inr (ltb→lt (32 / n) (off + 1) f))
      | inr f ↦ inr (e, f)
    ]
  ]

  -- SetBits and GetBits throw exactly if the DWORD is past the size of the command or the field,
  -- by its offset and width, is past the end of the DWORD.
  bits_thrown :
      ((set_bits v w off n c ≡ thrown) ↔ ((size_dw c ≤ w) ⊎ (32 / n < off + 1)))
      × ((get_bits w off n c ≡ thrown) ↔ ((size_dw c ≤ w) ⊎ (32 / n < off + 1)))
  unfolding Refused set_bits get_bits get_dword set_dword
  bits_thrown = (
    (λ e. elim decide [ inl h ↦ h | inr (p, q) ↦ absurd (set_kept p q e) ], set_refused),
    (λ e. elim decide [ inl h ↦ h | inr (p, q) ↦ absurd (get_kept p q e) ], get_refused),
  )

zeros : ℕ → DataDir → Cmd
zeros n dir = record { dwords = replicate n 0; data_dir = dir }

zero_at : ℕ → ℕ → ℕ
zero_at n w = get_or (replicate n 0) w 0

get_or-replicate : (n w : ℕ) → zero_at n w ≡ 0
unfolding zero_at
get_or-replicate zero w = refl
get_or-replicate (suc n) zero = refl
get_or-replicate (suc n) (suc w) = get_or-replicate n w

dword-zeros : (n : ℕ) (dir : DataDir) (w : ℕ) → dword (zeros n dir) w ≡ 0
unfolding zeros dword zero_at
dword-zeros n dir w = get_or-replicate n w

zeros-IsValid : (n : ℕ) (dir : DataDir) → n < 256 → IsValid (zeros n dir)
unfolding zeros
zeros-IsValid n dir h = record {
  small = let z : ℕ = 0 in omega (arith, length-replicate n z);
  word32 = λ w. omega (arith, dword-zeros n dir w);
}

zeros_high : (n : ℕ) (dir : DataDir) → field (zeros n dir) 0 8 24 ≡ 0
unfolding field get_field mask_of
zeros_high n dir = rw (dword-zeros n dir 0) refl

init_step :
    (opcode size : ℕ) (dir : DataDir)
    → init_dir dir ≡ true
    → size % 4 ≡ 0
    → init opcode dir size ≡ set_bits opcode 0 0 8 (zeros (size / 4) dir)
unfolding init zeros
init_step opcode size dir d q = rw (d, q) refl

pub init_lem :
    (opcode size w : ℕ) (dir : DataDir)
    → init_dir dir ≡ true
    → size % 4 ≡ 0
    → 4 ≤ size
    → size < 1024
    → 0 < w
    → (r : Cmd) × (init opcode dir size ≡ ok r)
      × IsValid r
      × (length r.dwords ≡ size / 4)
      × (r.data_dir ≡ dir)
      × (field r 0 0 8 ≡ opcode % 2 ^ 8)
      × (field r 0 8 24 ≡ 0)
      × (dword r w ≡ 0)
unfolding Wrote Apart zeros
init_lem opcode size w dir d q lo hi p =
    let Z = zeros (size / 4) dir in
    let V = zeros-IsValid (size / 4) dir (omega arith) in
    let len : length Z.dwords ≡ size / 4 = length-replicate (size / 4) 0 in
    let s = set_bits-Wrote Z V 0 0 8 (omega arith) (omega arith) opcode in
    let r = s.0 in
    let W = s.2 in
    (
      r,
      init_step opcode size dir d q ∙ s.1,
      W.valid,
      omega (arith, W.same_size, len),
      W.same_dir,
      field_written Z V 0 0 8 opcode r W (omega arith),
      field_kept Z V 0 0 8 opcode r W 0 8 24 (omega arith) (inr (inr (omega arith)))
          ∙ zeros_high (size / 4) dir,
      W.other w (ground arith) ∙ dword-zeros (size / 4) dir w,
    )
