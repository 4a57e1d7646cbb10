-- ===== src/Payload.antt =====
-- `Cmds/prpData.cpp` and `Cmds/metaData.cpp`: the data buffer that the PRP fields of a command name,
-- and its metadata buffer.
pub mod Masks
pub mod Buffers
pub mod Reach
pub mod Returned
pub mod Allocation
pub mod Metadata
pub mod Compare
mod Tests
use tnvme.Base.{
  ℕ, ◌-◌, ◌^◌, bit_and, Bool, true, false, not, ◌&&◌, ◌||◌, Option, none, some, List, [], ◌∷◌,
  Result, ok, thrown, ltb, ◌==◌, if◌then◌else◌,
}
use tnvme.Cmds.Cmd.{DataDir}
use tnvme.Data.{DataPattern, MemBuffer, set_pattern}
use tnvme.Meta.{
  MetaDataBuf, Kernel, MetaRsrc, id_limit, is_default, unique_id, frmwk_ex, reserve_meta_buf,
  release_meta_buf,
}

-- The members of `PrpData` and `MetaData`, and what `GetDataDir` returns. `mBufRW` is the number of an
-- object, `none` for NullMemBufferPtr; `mBufRO` is an address, NULL is 0.
pub record Payload : Type 0 where
  pub data_dir : DataDir
  pub buf_rw : Option ℕ
  pub buf_ro : ℕ
  pub buf_size : ℕ
  pub prp_allowed : ℕ
  pub prp_fields : ℕ
  pub meta_data : MetaDataBuf

-- `MetaDataBuf()`
abbrev pub no_meta_data : MetaDataBuf
no_meta_data = record { buf = 0; size = 0; id = 0 }

-- The constructors of `PrpData` and `MetaData`.
abbrev pub constructed : DataDir → Payload
constructed dir = record {
  data_dir = dir;
  buf_rw = none;
  buf_ro = 0;
  buf_size = 0;
  prp_allowed = 0;
  prp_fields = 0;
  meta_data = no_meta_data;
}

-- `GetDataDir() == DATADIR_NONE`
unfoldable pub no_direction : DataDir → Bool
no_direction DataDir.none = true
no_direction _ = false

-- `fields & ~allowed`, on 32 bits.
unfoldable pub disallowed : ℕ → ℕ → Bool
disallowed fields allowed = not (bit_and fields (2 ^ 32 - 1 - allowed) == 0)

-- `SetPrpAllowed`; the first argument is `PRP_SPECIFIC_BITS`.
unfoldable pub set_prp_allowed : ℕ → ℕ → Payload → Result (Unit {0}) × Payload
unfolding disallowed
set_prp_allowed specific_bits mask p =
    if disallowed mask specific_bits then (thrown, p) else (ok tt, record p { prp_allowed = mask })

-- `mBufRW != MemBuffer::NullMemBufferPtr`
unfoldable pub has_rw : Payload → Bool
has_rw p = elim p.buf_rw [ none ↦ false | some _ ↦ true ]

abbrev pub with_rw : ℕ → ℕ → MemBuffer → Payload → Payload
with_rw fields i b p = record p { buf_rw = some i; buf_size = b.size; prp_fields = fields }

-- `SetPrpBuffer` of a read/write buffer, with the objects that the pointers name; `none` for a call
-- through the null pointer, which has no defined behaviour.
unfoldable pub set_prp_buffer :
    ℕ → Option ℕ → (ℕ → MemBuffer) → Payload → Option (Result (Unit {0}) × Payload)
unfolding no_direction disallowed
set_prp_buffer fields mem_buffer objects p =
    if no_direction p.data_dir
    then some (thrown, p)
    else if disallowed fields p.prp_allowed
    then some (thrown, p)
    else if not (p.buf_ro == 0)
    then some (thrown, p)
    else elim mem_buffer [
      | none ↦ none
      | some i ↦
          if (objects i).size == 0
          then some (thrown, p)
          else some (ok tt, with_rw fields i (objects i) p)
    ]

-- `SetPrpBufferUnsafe`
unfoldable pub set_prp_buffer_unsafe : ℕ → Option ℕ → (ℕ → MemBuffer) → Payload → Option Payload
set_prp_buffer_unsafe fields mem_buffer objects p = elim mem_buffer [
  | none ↦ none
  | some i ↦ some (with_rw fields i (objects i) p)
]

-- `SetPrpBuffer` of the read-only memory of a queue.
unfoldable pub set_prp_buffer_ro : ℕ → ℕ → ℕ → Payload → Result (Unit {0}) × Payload
unfolding no_direction disallowed has_rw
set_prp_buffer_ro fields mem_buffer buf_size p =
    if no_direction p.data_dir
    then (thrown, p)
    else if disallowed fields p.prp_allowed
    then (thrown, p)
    else if has_rw p
    then (thrown, p)
    else if buf_size == 0
    then (thrown, p)
    else if (buf_size == 0 && not (mem_buffer == 0)) || (not (buf_size == 0) && mem_buffer == 0)
    then (thrown, p)
    else if not (p.buf_ro == 0)
    then (thrown, p)
    else (ok tt, record p { buf_ro = mem_buffer; buf_size = buf_size; prp_fields = fields })

-- What `GetROPrpBuffer` returns: NULL, the memory of a buffer object, or an address.
pub data RoBuffer : Type 0 where
  null : RoBuffer
  user_memory : List ℕ → RoBuffer
  kernel_memory : ℕ → RoBuffer

abbrev pub memory_of : Option (List ℕ) → RoBuffer
memory_of none = null
memory_of (some l) = user_memory l

unfoldable pub get_ro_prp_buffer : (ℕ → MemBuffer) → Payload → RoBuffer
get_ro_prp_buffer objects p = elim p.buf_rw [
  | some i ↦ memory_of (objects i).contents
  | none ↦ if not (p.buf_ro == 0) then kernel_memory p.buf_ro else null
]

-- `GetMetaBitmask`; the first argument is `MASK_MPTR`.
unfoldable pub get_meta_bitmask : ℕ → Payload → ℕ
unfolding is_default
get_meta_bitmask mptr p = if is_default p.meta_data then 0 else mptr

-- `SetMetaDataPattern` on the memory that `GetMetaBuffer` points to.
unfoldable pub set_meta_data_pattern :
    DataPattern → ℕ → ℕ → ℕ → Payload → List ℕ → Option (Result (List ℕ))
unfolding set_pattern
set_meta_data_pattern pat init_val offset len p l =
    if p.meta_data.buf == 0
    then some (ok l)
    else set_pattern pat init_val offset len p.meta_data.size l

-- `memcmp` of the first bytes of the metadata with all of a buffer's.
unfoldable pub same_start : List ℕ → List ℕ → Bool
same_start [] l = true
same_start (a ∷ x) [] = false
same_start (a ∷ x) (b ∷ l) = let rest = same_start x l in a == b && rest

-- `CompareMetaBuffer` with a buffer that holds the bytes `x`, on the metadata `l`.
unfoldable pub compare_meta_buffer : ℕ → List ℕ → Payload → List ℕ → Result Bool
unfolding same_start
compare_meta_buffer size x p l = if ltb p.meta_data.size size then thrown else ok (same_start x l)

module _ {ℓ} {D : Type ℓ} (k : Kernel D) where
  -- What `MetaRsrc::ReserveMetaBuf` leaves in the buffer it is given, by what is released.
  unfoldable pub reserved_into : List MetaDataBuf → MetaDataBuf → MetaRsrc D → MetaDataBuf
  unfolding unique_id
  reserved_into (b ∷ rest) m s = b
  reserved_into [] m s =
      let i = (unique_id 0 s.reserved).0 in
      let (allocated, d) = k.metabuf_alloc i s.device in
      record {
        buf = if ltb i id_limit && allocated then (k.mmap s.meta_alloc_size i d).0 else m.buf;
        size = s.meta_alloc_size;
        id = i;
      }

  -- `AllocMetaBuffer`
  unfoldable pub alloc_meta_buffer : Payload → MetaRsrc D → Result (Unit {0}) × Payload × MetaRsrc D
  unfolding no_direction
  alloc_meta_buffer p s =
      let (r, s1) = reserve_meta_buf k s in
      let q : Payload = record p { meta_data = reserved_into s.released p.meta_data s } in
      if no_direction p.data_dir then (thrown, p, frmwk_ex k s) else elim r [
        | ok o ↦ elim o [ none ↦ (thrown, q, frmwk_ex k s1) | some b ↦ (ok tt, q, s1) ]
        | thrown ↦ (thrown, q, s1)
      ]

  -- `~MetaData`
  abbrev pub destroy : Payload → MetaRsrc D → MetaRsrc D
  destroy p s = release_meta_buf k p.meta_data s
