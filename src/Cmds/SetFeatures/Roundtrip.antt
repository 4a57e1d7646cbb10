-- ===== src/Cmds/SetFeatures/Roundtrip.antt =====
-- What the getters of `Cmds/setFeatures.cpp` return after the setters that write several fields of
-- DWORD 11.
use tnvme.Base.{ℕ, ◌+◌, ◌%◌, ◌^◌, ◌≤◌, ◌≡◌, ◌∙◌, inr, length, arith, Result, ok, ◌>>=◌, refl, ap}
use tnvme.Cmds.Field.{mask_of}
use tnvme.Cmds.Cmd.{Cmd}
use tnvme.Cmds.Writes.{IsValid, Writes, Wrote, field, set_bits-Wrote}
use tnvme.Cmds.Fields.{Apart, field_written, field_part, field_kept}
use tnvme.Cmds.SetFeatures.{
  set_arbitration_hpw, set_arbitration_mpw, set_arbitration_lpw, set_arbitration,
  get_arbitration_hpw, get_arbitration_mpw, get_arbitration_lpw, get_arbitration_ab,
  set_number_of_queues_ncqr, set_number_of_queues_nsqr, set_number_of_queues,
  get_number_of_queues_ncqr, get_number_of_queues_nsqr, set_int_coalescing_time,
  set_int_coalescing_thr, set_int_coalescing, get_int_coalescing_time, get_int_coalescing_thr,
  set_int_vec_config_cd, set_int_vec_config_iv, set_int_vec_config, get_int_vec_config_cd,
  get_int_vec_config_iv,
}
use tnvme.Cmds.SetFeatures.Layout.{byte_masked, features_getters, set_arbitration_ab-Wrote}

-- Two setters in a row, the second of a field at the bottom of the DWORD.
two_writes :
    (set0 set1 : Cmd → Result Cmd) (lo n k a b : ℕ)
    → lo + n ≤ 32
    → k ≤ lo
    → ((c : Cmd) → IsValid c → length c.dwords ≡ 16 → Wrote (set0 c) c 11 lo n a)
    → ((c : Cmd) → IsValid c → length c.dwords ≡ 16 → Wrote (set1 c) c 11 0 k b)
    → (c : Cmd) → IsValid c
    → length c.dwords ≡ 16
    → (r : Cmd) × ((set0 c >>= λ d. set1 d) ≡ ok r)
      × IsValid r
      × (length r.dwords ≡ 16)
      × (field r 11 lo n ≡ a % 2 ^ n)
      × (field r 11 0 k ≡ b % 2 ^ k)
unfolding Wrote Apart
two_writes set0 set1 lo n k a b fits below w0 w1 c V z =
    let (d, p, A) = w0 c V z in
    let (r, q, B) = w1 d A.valid (A.same_size ∙ z) in
    (
      r,
      rw p q,
      B.valid,
      B.same_size ∙ (A.same_size ∙ z),
      field_kept d A.valid 11 0 k b r B 11 lo n fits (inr (inr (omega arith)))
          ∙ field_written c V 11 lo n a d A fits,
      field_written d A.valid 11 0 k b r B (omega arith),
    )

module _ (c : Cmd) (V : IsValid c) (sized : length c.dwords ≡ 16) where
  -- On a valid command of 16 DWORDs SetNumberOfQueues succeeds, and the two getters then return
  -- its arguments modulo 2^16.
  pub features_number_of_queues :
      (ncqr nsqr : ℕ)
      → (r : Cmd) × (set_number_of_queues ncqr nsqr c ≡ ok r)
        × (get_number_of_queues_ncqr r ≡ ok (ncqr % 2 ^ 16))
        × (get_number_of_queues_nsqr r ≡ ok (nsqr % 2 ^ 16))
  unfolding set_number_of_queues set_number_of_queues_ncqr set_number_of_queues_nsqr
  features_number_of_queues ncqr nsqr =
      let x =
        two_writes (set_number_of_queues_ncqr ncqr) (set_number_of_queues_nsqr nsqr) 16 16 16 ncqr
          nsqr (omega arith) (omega arith)
          (λ d U z. set_bits-Wrote d U 11 1 16 (omega arith) (omega arith) ncqr)
          (λ d U z. set_bits-Wrote d U 11 0 16 (omega arith) (omega arith) nsqr) c V sized in
      let g = features_getters x.0 x.2 x.3 in (x.0, x.1, g.11 ∙ ap ok x.4, g.12 ∙ ap ok x.5)

  -- On a valid command of 16 DWORDs SetIntCoalescing succeeds, and the two getters then return its
  -- arguments modulo 2^8.
  pub features_int_coalescing :
      (time thr : ℕ)
      → (r : Cmd) × (set_int_coalescing time thr c ≡ ok r)
        × (get_int_coalescing_time r ≡ ok (time % 2 ^ 8))
        × (get_int_coalescing_thr r ≡ ok (thr % 2 ^ 8))
  unfolding set_int_coalescing set_int_coalescing_time set_int_coalescing_thr
  features_int_coalescing time thr =
      let x =
        two_writes (set_int_coalescing_time time) (set_int_coalescing_thr thr) 8 8 8 time thr
          (omega arith) (omega arith)
          (λ d U z. set_bits-Wrote d U 11 1 8 (omega arith) (omega arith) time)
          (λ d U z. set_bits-Wrote d U 11 0 8 (omega arith) (omega arith) thr) c V sized in
      let g = features_getters x.0 x.2 x.3 in (x.0, x.1, g.13 ∙ ap ok x.4, g.14 ∙ ap ok x.5)

  -- On a valid command of 16 DWORDs SetIntVecConfig succeeds, and the two getters then return the
  -- lowest bit of CD and IV modulo 2^16.
  pub features_int_vec_config :
      (cd iv : ℕ)
      → (r : Cmd) × (set_int_vec_config cd iv c ≡ ok r)
        × (get_int_vec_config_cd r ≡ ok (cd % 2))
        × (get_int_vec_config_iv r ≡ ok (iv % 2 ^ 16))
  unfolding set_int_vec_config set_int_vec_config_cd set_int_vec_config_iv mask_of
  features_int_vec_config cd iv =
      let x =
        two_writes (set_int_vec_config_cd cd) (set_int_vec_config_iv iv) 16 1 16 cd iv (omega arith)
          (omega arith)
          (λ d U z. byte_masked d U z 2 1 0x1 cd (omega arith) (omega arith) refl (omega arith))
          (λ d U z. set_bits-Wrote d U 11 0 16 (omega arith) (omega arith) iv) c V sized in
      let g = features_getters x.0 x.2 x.3 in (x.0, x.1, g.16 ∙ ap ok x.4, g.15 ∙ ap ok x.5)

-- The four bytes of the arbitration feature, written from the top down.
module _ (c d e f r : Cmd) (V : IsValid c) (hpw mpw lpw ab : ℕ) (H : Writes c 11 24 8 hpw d)
    (M : Writes d 11 16 8 mpw e) (L : Writes e 11 8 8 lpw f) (B : Writes f 11 0 8 ab r) where
  past_bottom : (k m : ℕ) → 8 ≤ k → k + m ≤ 32 → field r 11 k m ≡ field f 11 k m
  unfolding Apart
  past_bottom k m h l = field_kept f L.valid 11 0 8 ab r B 11 k m l (inr (inr (omega arith)))

  past_low : (k m : ℕ) → 16 ≤ k → k + m ≤ 32 → field r 11 k m ≡ field e 11 k m
  unfolding Apart
  past_low k m h l =
      past_bottom k m (omega arith) l
      ∙ field_kept e M.valid 11 8 8 lpw f L 11 k m l (inr (inr (omega arith)))

  four_bytes :
      (field r 11 24 8 ≡ hpw % 2 ^ 8)
      × (field r 11 16 8 ≡ mpw % 2 ^ 8)
      × (field r 11 8 8 ≡ lpw % 2 ^ 8)
      × (field r 11 0 8 ≡ ab % 2 ^ 8)
      × (field r 11 0 3 ≡ ab % 2 ^ 3)
  unfolding Apart
  four_bytes = (
    past_low 24 8 (omega arith) (omega arith)
        ∙ (field_kept d H.valid 11 16 8 mpw e M 11 24 8 (omega arith) (inr (inr (omega arith)))
            ∙ field_written c V 11 24 8 hpw d H (omega arith)),
    past_low 16 8 (omega arith) (omega arith)
        ∙ field_written d H.valid 11 16 8 mpw e M (omega arith),
    past_bottom 8 8 (omega arith) (omega arith)
        ∙ field_written e M.valid 11 8 8 lpw f L (omega arith),
    field_written f L.valid 11 0 8 ab r B (omega arith),
    field_part f L.valid 11 0 8 ab r B 3 (omega arith) (omega arith),
  )

-- On a valid command of 16 DWORDs SetArbitration succeeds; the getters then return the three
-- weights modulo 2^8 and the burst modulo 2^3, and the lowest byte of DWORD 11 holds the argument
-- ab modulo 2^8, its five reserved bits included.
pub features_arbitration :
    (c : Cmd) (hpw mpw lpw ab : ℕ)
    → IsValid c
    → length c.dwords ≡ 16
    → (r : Cmd) × (set_arbitration hpw mpw lpw ab c ≡ ok r)
      × (get_arbitration_hpw r ≡ ok (hpw % 2 ^ 8))
      × (get_arbitration_mpw r ≡ ok (mpw % 2 ^ 8))
      × (get_arbitration_lpw r ≡ ok (lpw % 2 ^ 8))
      × (get_arbitration_ab r ≡ ok (ab % 2 ^ 3))
      × (field r 11 0 8 ≡ ab % 2 ^ 8)
unfolding Wrote set_arbitration set_arbitration_hpw set_arbitration_mpw set_arbitration_lpw
features_arbitration c hpw mpw lpw ab V z =
    let (d, p, H) = set_bits-Wrote c V 11 3 8 (omega arith) (omega arith) hpw in
    let zd : length d.dwords ≡ 16 = H.same_size ∙ z in
    let (e, q, M) = set_bits-Wrote d H.valid 11 2 8 (omega arith) (omega arith) mpw in
    let ze : length e.dwords ≡ 16 = M.same_size ∙ zd in
    let (f, s, L) = set_bits-Wrote e M.valid 11 1 8 (omega arith) (omega arith) lpw in
    let zf : length f.dwords ≡ 16 = L.same_size ∙ ze in
    let (r, t, B) = set_arbitration_ab-Wrote f L.valid zf ab in
    let x = four_bytes c d e f r V hpw mpw lpw ab H M L B in
    let g = features_getters r B.valid (B.same_size ∙ zf) in
    (r, rw (p, q, s) t, g.1 ∙ ap ok x.0, g.2 ∙ ap ok x.1, g.3 ∙ ap ok x.2, g.4 ∙ ap ok x.4, x.3)
