-- ===== src/Payload/Buffers.antt =====
-- What the two forms of `SetPrpBuffer` accept, and what they leave.
use tnvme.Base.{
  ℕ, ◌^◌, ◌<◌, ◌≡◌, ◌≢◌, ◌⊎◌, inl, inr, refl, Option-cases, true, false, none, some, ok, thrown,
  ◌==◌, arith, ℕ_discrete,
}
use tnvme.Cmds.Cmd.{DataDir}
use tnvme.Data.{MemBuffer}
use tnvme.Payload.{
  Payload, RoBuffer, kernel_memory, memory_of, no_direction, disallowed, has_rw, set_prp_buffer,
  set_prp_buffer_ro, get_ro_prp_buffer,
}
use tnvme.Payload.Masks.{Subset, disallowed_lem}

-- The getters of `q` return these, and the rest is as in `p`.
pub record IsSetUp (objects : ℕ → MemBuffer) (memory : RoBuffer) (size fields : ℕ) (p q : Payload)
    : Type 0 where
  pub shown : get_ro_prp_buffer objects q ≡ memory
  pub sized : q.buf_size ≡ size
  pub chosen : q.prp_fields ≡ fields
  pub same_dir : q.data_dir ≡ p.data_dir
  pub same_allowed : q.prp_allowed ≡ p.prp_allowed
  pub same_meta : q.meta_data ≡ p.meta_data

-- The command moves data, and may use these PRP fields.
abbrev pub Permits : Payload → ℕ → Type 0
Permits p fields = (p.data_dir ≢ DataDir.none) × Subset fields p.prp_allowed

pub no_direction_lem :
    (d : DataDir)
    → ((d ≡ DataDir.none) × (no_direction d ≡ true))
      ⊎ ((d ≢ DataDir.none) × (no_direction d ≡ false))
unfolding no_direction
no_direction_lem DataDir.none = inl (refl, refl)
no_direction_lem DataDir.from_device = inr ((λ e. cc), refl)
no_direction_lem DataDir.to_device = inr ((λ e. cc), refl)
no_direction_lem DataDir.bidirectional = inr ((λ e. cc), refl)

pub has_rw_lem :
    (p : Payload)
    → ((p.buf_rw ≡ none) × (has_rw p ≡ false)) ⊎ ((p.buf_rw ≢ none) × (has_rw p ≡ true))
unfolding has_rw
has_rw_lem p = elim (Option-cases p.buf_rw) [
  | inl e ↦ inl (e, rw e refl)
  | inr (i, e) ↦ inr ((λ f. cc), rw e refl)
]

pub zero_cases : (n : ℕ) → ((n ≡ 0) × ((n == 0) ≡ true)) ⊎ ((n ≢ 0) × ((n == 0) ≡ false))
zero_cases n = elim (ℕ_discrete n 0) [
  | yes e ↦ inl (e, ground arith)
  | no m ↦ inr (m, ground arith)
]

module _ (objects : ℕ → MemBuffer) (fields : ℕ) (p : Payload) (small : fields < 2 ^ 32)
    (fits : p.prp_allowed < 2 ^ 32) where
  Permits-cases :
      (Permits p fields
        × (no_direction p.data_dir ≡ false)
        × (disallowed fields p.prp_allowed ≡ false))
      ⊎ ((¬ Permits p fields)
          × ((no_direction p.data_dir ≡ true)
              ⊎ ((no_direction p.data_dir ≡ false) × (disallowed fields p.prp_allowed ≡ true))))
  Permits-cases = elim (no_direction_lem p.data_dir) [
    | inl (e, t) ↦ inr ((λ w. w.0 e), inl t)
    | inr (n, f) ↦ elim (disallowed_lem fields p.prp_allowed small fits) [
      | inl (s, g) ↦ inl ((n, s), f, g)
      | inr (m, g) ↦ inr ((λ w. m w.1), inr (f, g))
    ]
  ]

  abbrev pub AcceptsRw : ℕ → Type 0
  AcceptsRw i = Permits p fields × (p.buf_ro ≡ 0) × ((objects i).size ≢ 0)

  abbrev pub AcceptsRo : ℕ → ℕ → Type 0
  AcceptsRo mem size =
      Permits p fields × (p.buf_rw ≡ none) × (p.buf_ro ≡ 0) × (size ≢ 0) × (mem ≢ 0)

  -- It succeeds exactly if it is accepted, and then the buffer is set up.
  abbrev pub RwOutcome : ℕ → Type 0
  RwOutcome i =
      (AcceptsRw i
        × ((q : Payload) × (set_prp_buffer fields (some i) objects p ≡ some (ok tt, q))
            × (q.buf_rw ≡ some i)
            × (q.buf_ro ≡ 0)
            × IsSetUp objects (memory_of (objects i).contents) (objects i).size fields p q))
      ⊎ ((¬ AcceptsRw i) × (set_prp_buffer fields (some i) objects p ≡ some (thrown, p)))

  abbrev pub RoOutcome : ℕ → ℕ → Type 0
  RoOutcome mem size =
      (AcceptsRo mem size
        × ((q : Payload) × (set_prp_buffer_ro fields mem size p ≡ (ok tt, q))
            × (q.buf_rw ≡ none)
            × (q.buf_ro ≡ mem)
            × IsSetUp objects (kernel_memory mem) size fields p q))
      ⊎ ((¬ AcceptsRo mem size) × (set_prp_buffer_ro fields mem size p ≡ (thrown, p)))

  pub set_prp_buffer_lem : (i : ℕ) → RwOutcome i
  unfolding set_prp_buffer get_ro_prp_buffer
  set_prp_buffer_lem i = elim Permits-cases [
    | inr (n, inl t) ↦ inr ((λ a. n a.0), rw t refl)
    | inr (n, inr (f, g)) ↦ inr ((λ a. n a.0), rw (f, g) refl)
    | inl (w, f, g) ↦ elim (zero_cases p.buf_ro) [
      | inr (n, t) ↦ inr ((λ a. n a.1), rw (f, g, t) refl)
      | inl (e, t) ↦ elim (zero_cases (objects i).size) [
        | inl (z, u) ↦ inr ((λ a. a.2 z), rw (f, g, t, u) refl)
        | inr (z, u) ↦ inl (
          (w, e, z),
          (
            _,
            rw (f, g, t, u) refl,
            refl,
            e,
            record {
              shown = refl;
              sized = refl;
              chosen = refl;
              same_dir = refl;
              same_allowed = refl;
              same_meta = refl;
            },
          ),
        )
      ]
    ]
  ]

  pub set_prp_buffer_ro_lem : (mem size : ℕ) → RoOutcome mem size
  unfolding set_prp_buffer_ro get_ro_prp_buffer
  set_prp_buffer_ro_lem mem size = elim Permits-cases [
    | inr (n, inl t) ↦ inr ((λ a. n a.0), rw t refl)
    | inr (n, inr (f, g)) ↦ inr ((λ a. n a.0), rw (f, g) refl)
    | inl (w, f, g) ↦ elim (has_rw_lem p) [
      | inr (n, h) ↦ inr ((λ a. n a.1), rw (f, g, h) refl)
      | inl (r, h) ↦ elim (zero_cases size) [
        | inl (z, u) ↦ inr ((λ a. a.3 z), rw (f, g, h, u) refl)
        | inr (z, u) ↦ elim (zero_cases mem) [
          | inl (m, v) ↦ inr ((λ a. a.4 m), rw (f, g, h, u, v) refl)
          | inr (m, v) ↦ elim (zero_cases p.buf_ro) [
            | inr (n, t) ↦ inr ((λ a. n a.2), rw (f, g, h, u, v, t) refl)
            | inl (e, t) ↦ inl (
              (w, r, e, z, m),
              (
                _,
                rw (f, g, h, u, v, t) refl,
                r,
                refl,
                record {
                  shown = rw (r, v) refl;
                  sized = refl;
                  chosen = refl;
                  same_dir = refl;
                  same_allowed = refl;
                  same_meta = refl;
                },
              ),
            )
          ]
        ]
      ]
    ]
  ]

  -- For masks of 32 bits: SetPrpBuffer of a buffer object succeeds exactly if the command has a
  -- data direction, every bit of the fields is allowed, no read-only memory is set up and the size
  -- of the object is not 0; SetPrpBuffer of read-only memory exactly if the command has a
  -- direction, the fields are allowed, neither a buffer nor memory is set up, and neither the size
  -- nor the address is 0. Then GetROPrpBuffer, GetPrpBufferSize and GetPrpBitmask return the
  -- memory, the size and the fields that were set, and the direction, the permissions and the
  -- metadata are kept; otherwise they throw and change nothing.
  pub set_prp_buffers : (i mem size : ℕ) → RwOutcome i × RoOutcome mem size
  set_prp_buffers i mem size = (set_prp_buffer_lem i, set_prp_buffer_ro_lem mem size)
