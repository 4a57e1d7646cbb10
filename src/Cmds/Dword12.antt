-- ===== src/Cmds/Dword12.antt =====
-- The four fields that the read and the write command keep in DWORD 12, written one after another.
use tnvme.Base.{ℕ, ◌+◌, ◌%◌, ◌^◌, ◌≤◌, ◌≡◌, ◌∙◌, inl, inr, length, arith, Result, ok, ◌>>=◌}
use tnvme.Cmds.Cmd.{Cmd}
use tnvme.Cmds.Writes.{IsValid, Writes, Wrote, field}
use tnvme.Cmds.Fields.{Apart, field_written, field_kept}

module _ (c d e f r : Cmd) (V : IsValid c) (nlb prinfo fua lr : ℕ) (N : Writes c 12 0 16 nlb d)
    (P : Writes d 12 26 4 prinfo e) (F : Writes e 12 30 1 fua f) (L : Writes f 12 31 1 lr r) where
  past_flags : (k m : ℕ) → k + m ≤ 30 → field r 12 k m ≡ field e 12 k m
  unfolding Apart
  past_flags k m h =
      field_kept f F.valid 12 31 1 lr r L 12 k m (omega arith) (inr (inl (omega arith)))
      ∙ field_kept e P.valid 12 30 1 fua f F 12 k m (omega arith) (inr (inl (omega arith)))

  four_fields :
      (field r 12 0 16 ≡ nlb % 2 ^ 16)
      × (field r 12 26 4 ≡ prinfo % 2 ^ 4)
      × (field r 12 30 1 ≡ fua % 2 ^ 1)
      × (field r 12 31 1 ≡ lr % 2 ^ 1)
  unfolding Apart
  four_fields = (
    past_flags 0 16 (omega arith)
        ∙ (field_kept d N.valid 12 26 4 prinfo e P 12 0 16 (omega arith) (inr (inl (omega arith)))
            ∙ field_written c V 12 0 16 nlb d N (omega arith)),
    past_flags 26 4 (omega arith) ∙ field_written d N.valid 12 26 4 prinfo e P (omega arith),
    field_kept f F.valid 12 31 1 lr r L 12 30 1 (omega arith) (inr (inl (omega arith)))
        ∙ field_written e P.valid 12 30 1 fua f F (omega arith),
    field_written f F.valid 12 31 1 lr r L (omega arith),
  )

-- Setters that write the four fields of every valid command of 16 DWORDs do so in a row.
pub four_writes :
    (set0 set1 set2 set3 : Cmd → Result Cmd) (nlb prinfo fua lr : ℕ)
    → ((c : Cmd) → IsValid c → length c.dwords ≡ 16 → Wrote (set0 c) c 12 0 16 nlb)
    → ((c : Cmd) → IsValid c → length c.dwords ≡ 16 → Wrote (set1 c) c 12 26 4 prinfo)
    → ((c : Cmd) → IsValid c → length c.dwords ≡ 16 → Wrote (set2 c) c 12 30 1 fua)
    → ((c : Cmd) → IsValid c → length c.dwords ≡ 16 → Wrote (set3 c) c 12 31 1 lr)
    → (c : Cmd) → IsValid c
    → length c.dwords ≡ 16
    → (r : Cmd) × ((set0 c >>= λ d. set1 d >>= λ e. set2 e >>= λ f. set3 f) ≡ ok r)
      × IsValid r
      × (length r.dwords ≡ 16)
      × (field r 12 0 16 ≡ nlb % 2 ^ 16)
      × (field r 12 26 4 ≡ prinfo % 2 ^ 4)
      × (field r 12 30 1 ≡ fua % 2 ^ 1)
      × (field r 12 31 1 ≡ lr % 2 ^ 1)
unfolding Wrote
four_writes set0 set1 set2 set3 nlb prinfo fua lr w0 w1 w2 w3 c V z =
    let (d, p, N) = w0 c V z in
    let (e, q, P) = w1 d N.valid (N.same_size ∙ z) in
    let (f, s, F) = w2 e P.valid (P.same_size ∙ (N.same_size ∙ z)) in
    let (r, t, L) = w3 f F.valid (F.same_size ∙ (P.same_size ∙ (N.same_size ∙ z))) in
    let x = four_fields c d e f r V nlb prinfo fua lr N P F L in
    (
      r,
      rw (p, q, s) t,
      L.valid,
      L.same_size ∙ (F.same_size ∙ (P.same_size ∙ (N.same_size ∙ z))),
      x.0,
      x.1,
      x.2,
      x.3,
    )
