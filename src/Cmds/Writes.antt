-- ===== src/Cmds/Writes.antt =====
-- What a setter of `Cmds/cmd.cpp` promises: one field of one DWORD has the digits of the value,
-- and every other digit of the command is the old one.
use native.Mathlib.Nat.{div-mul-le_self, mul-le-mul_right}
use tnvme.Base.{
  ℕ, ◌+◌, ◌*◌, ◌/◌, ◌^◌, ◌≤◌, ◌<◌, ◌≡◌, ◌≢◌, refl, sym, ap, false, length, get_or, set, length-set,
  get_or-set_self, get_or-set_ne, Result, ok, leb, ltb, arith, ℕ_discrete,
}
use tnvme.Base.Bits.{bit}
use tnvme.Cmds.Field.{
  put_field, get_field, bit-put_inside, bit-put_below, bit-put_above, put_field-lt,
}
use tnvme.Cmds.Cmd.{Cmd, size_dw, get_dword, set_dword, set_bits, get_bits}

unfoldable pub dword : Cmd → ℕ → ℕ
dword c w = get_or c.dwords w 0

-- A buffer that `GetCmdSizeDW` measures, of 32-bit values.
pub record IsValid (c : Cmd) : Type 0 where
  pub small : length c.dwords < 2 ^ 8
  pub word32 : (w : ℕ) → dword c w < 2 ^ 32

pub record Writes (c : Cmd) (w lo n v : ℕ) (r : Cmd) : Type 0 where
  pub valid : IsValid r
  pub same_size : length r.dwords ≡ length c.dwords
  pub same_dir : r.data_dir ≡ c.data_dir
  pub other : (u : ℕ) → w ≢ u → dword r u ≡ dword c u
  pub inside : (j : ℕ) → j < n → bit (dword r w) (lo + j) ≡ bit v j
  pub below : (i : ℕ) → i < lo → bit (dword r w) i ≡ bit (dword c w) i
  pub above : (j : ℕ) → n ≤ j → lo + j < 32 → bit (dword r w) (lo + j) ≡ bit (dword c w) (lo + j)

-- The field of `n` bits at bit `lo` of DWORD `w`.
unfoldable pub field : Cmd → ℕ → ℕ → ℕ → ℕ
field c w lo n = get_field (dword c w) lo n

unfoldable pub Wrote : Result Cmd → Cmd → ℕ → ℕ → ℕ → ℕ → Type 0
Wrote m c w lo n v = (r : Cmd) × (m ≡ ok r) × Writes c w lo n v r

module _ (c : Cmd) (V : IsValid c) (w : ℕ) (big : w < length c.dwords) where
  in_size : leb (size_dw c) w ≡ false
  unfolding size_dw
  in_size = ground (arith, V.small)

  pub get_dword_ok : get_dword w c ≡ ok (dword c w)
  unfolding get_dword dword
  get_dword_ok = rw in_size refl

  module _ (x : ℕ) where
    stored : Cmd
    stored = record c { dwords = set c.dwords w x }

    set_dword_ok : set_dword x w c ≡ ok stored
    unfolding set_dword stored
    set_dword_ok = rw in_size refl

    stored_at : dword stored w ≡ x
    unfolding stored dword
    stored_at = get_or-set_self c.dwords w x 0 big

    stored_other : (u : ℕ) → w ≢ u → dword stored u ≡ dword c u
    unfolding stored dword
    stored_other u h = get_or-set_ne c.dwords w u x 0 h

    stored_size : length stored.dwords ≡ length c.dwords
    unfolding stored
    stored_size = length-set c.dwords w x

    stored_dir : stored.data_dir ≡ c.data_dir
    unfolding stored
    stored_dir = refl

    stored-IsValid : x < 2 ^ 32 → IsValid stored
    stored-IsValid p = record {
      small = omega (arith, stored_size, V.small);
      word32 = λ u. elim (ℕ_discrete w u) [
        | yes e ↦ rw (sym e, stored_at) p
        | no q ↦ rw (stored_other u q) (V.word32 u)
      ];
    }

-- An offset that `SetBits` takes leaves the field inside the DWORD.
pub offset_fits : (off n : ℕ) → off + 1 ≤ 32 / n → off * n + n ≤ 32
offset_fits off n h = omega (arith, mul-le-mul_right n h, div-mul-le_self 32 n)

module _ (c : Cmd) (V : IsValid c) (w off n : ℕ) (big : w < length c.dwords)
    (fit : off + 1 ≤ 32 / n) where
  in_dword : ltb (32 / n) (off + 1) ≡ false
  in_dword = ground arith

  pub get_bits_ok : get_bits w off n c ≡ ok (field c w (off * n) n)
  unfolding get_bits field
  get_bits_ok = rw (in_size c V w big, in_dword, get_dword_ok c V w big) refl

  module _ (v : ℕ) where
    wrote : Cmd
    wrote = stored c V w big (put_field (dword c w) v (off * n) n)

    set_bits_ok : set_bits v w off n c ≡ ok wrote
    unfolding set_bits wrote
    set_bits_ok =
        rw (in_size c V w big, in_dword, get_dword_ok c V w big)
          (set_dword_ok c V w big (put_field (dword c w) v (off * n) n))

    wrote_at : dword wrote w ≡ put_field (dword c w) v (off * n) n
    unfolding wrote
    wrote_at = stored_at c V w big (put_field (dword c w) v (off * n) n)

    wrote-Writes : Writes c w (off * n) n v wrote
    unfolding wrote
    wrote-Writes =
        let x = put_field (dword c w) v (off * n) n in
        let fits = offset_fits off n fit in
        record {
          valid =
              stored-IsValid c V w big x (put_field-lt (dword c w) v (off * n) n fits (V.word32 w));
          same_size = stored_size c V w big x;
          same_dir = stored_dir c V w big x;
          other = stored_other c V w big x;
          inside = λ j h. rw wrote_at (bit-put_inside (dword c w) v (off * n) n fits j h);
          below = λ i h. rw wrote_at (bit-put_below (dword c w) v (off * n) n fits i h);
          above = λ j h l. rw wrote_at (bit-put_above (dword c w) v (off * n) n fits j h l);
        }

    pub set_bits-Wrote : Wrote (set_bits v w off n c) c w (off * n) n v
    unfolding Wrote
    set_bits-Wrote = (wrote, set_bits_ok, wrote-Writes)

pub set_dword-Wrote :
    (c : Cmd)
    → IsValid c
    → (w : ℕ) → w < length c.dwords
    → (v : ℕ) → v < 2 ^ 32
    → Wrote (set_dword v w c) c w 0 32 v
unfolding Wrote
set_dword-Wrote c V w big v p = (
  stored c V w big v,
  set_dword_ok c V w big v,
  record {
    valid = stored-IsValid c V w big v p;
    same_size = stored_size c V w big v;
    same_dir = stored_dir c V w big v;
    other = stored_other c V w big v;
    inside = λ j h. rw (stored_at c V w big v) (let e : 0 + j ≡ j = omega arith in ap (bit v) e);
    below = λ i h. absurd (omega arith);
    above = λ j h l. absurd (omega arith);
  },
)
