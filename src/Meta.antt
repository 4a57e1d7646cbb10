-- ===== src/Meta.antt =====
-- `Singletons/metaRsrc.cpp`: the metadata buffers of the device, which are reserved under unique
-- identifiers, released for later use, and freed together.
pub mod Invariant
pub mod Release
pub mod Reserve
pub mod Free
pub mod Freed
pub mod Reach
mod Tests
use tnvme.Base.{
  ℕ, zero, suc, ◌+◌, ◌%◌, ◌^◌, Bool, true, false, not, ◌&&◌, Option, none, some, List, [], ◌∷◌,
  ◌++◌, length, Result, ok, thrown, ltb, ◌==◌, if◌then◌else◌,
}

-- `struct MetaDataBuf`; the pointer `buf` is a number, NULL is 0.
pub record MetaDataBuf : Type 0 where
  pub buf : ℕ
  pub size : ℕ
  pub id : ℕ

-- `MetaDataBuf() == ...`
unfoldable pub is_default : MetaDataBuf → Bool
is_default b = b.buf == 0 && b.size == 0 && b.id == 0

-- What the class asks of the kernel driver, on a state `D`: whether a call returned no error, and the
-- address that mmap gives. The last is the ioctl of `SetState`, by which the constructor of an
-- exception disables the controller; it is not made, and counts as refused, while an exception is
-- alive already.
pub record Kernel {ℓ} (D : Type ℓ) : Type ℓ where
  pub metabuf_create : ℕ → D → Bool × D
  pub metabuf_alloc : ℕ → D → Bool × D
  pub metabuf_delete : ℕ → D → Bool × D
  pub mmap : ℕ → ℕ → D → ℕ × D
  pub munmap : ℕ → ℕ → D → D
  pub disable_completely : D → Bool × D

-- The members, with the state of the driver.
pub record MetaRsrc {ℓ} (D : Type ℓ) : Type ℓ where
  pub device : D
  pub meta_alloc_size : ℕ
  pub reserved : List MetaDataBuf
  pub released : List MetaDataBuf

-- `1 << METADATA_UNIQUE_ID_BITS`
abbrev pub id_limit : ℕ
id_limit = 2 ^ 18

-- A released buffer goes before the first reserved one with a larger identifier.
unfoldable pub insert_released : MetaDataBuf → List MetaDataBuf → List MetaDataBuf
insert_released b [] = b ∷ []
insert_released b (x ∷ r) =
    let rest = insert_released b r in if ltb b.id x.id then b ∷ x ∷ r else x ∷ rest

-- The search for a unique identifier from `id` on: what it finds, what it passed, and what is ahead
-- of the iterator.
unfoldable pub unique_id : ℕ → List MetaDataBuf → ℕ × List MetaDataBuf × List MetaDataBuf
unique_id id [] = (id, [], [])
unique_id id (x ∷ r) =
    let (same, before1, after1) = unique_id (id + 1) r in
    let (i, before, after) = unique_id id r in
    if x.id == id
    then (same, x ∷ before1, after1)
    else if ltb id x.id
    then (id, [], x ∷ r)
    else (i, x ∷ before, after)

-- The first reserved buffer with this identifier, and the others.
unfoldable pub take_out : ℕ → List MetaDataBuf → Option (MetaDataBuf × List MetaDataBuf)
take_out id [] = none
take_out id (x ∷ r) =
    let rest = take_out id r in
    if x.id == id then some (x, r) else elim rest [ none ↦ none | some p ↦ some (p.0, x ∷ p.1) ]

module _ {ℓ} {D : Type ℓ} (k : Kernel D) where
  -- `SetMetaAllocSize`
  unfoldable pub set_meta_alloc_size : ℕ → MetaRsrc D → Bool × MetaRsrc D
  set_meta_alloc_size alloc_size s =
      let (created, d) = k.metabuf_create alloc_size s.device in
      if s.meta_alloc_size == alloc_size
      then (true, record s { meta_alloc_size = alloc_size })
      else if not (s.meta_alloc_size == 0)
      then (false, s)
      else if not (alloc_size % 4 == 0)
      then (false, s)
      else if created
      then (true, record s { device = d; meta_alloc_size = alloc_size })
      else (false, record s { device = d })

  -- `ReleaseMetaBuf`
  unfoldable pub release_meta_buf : MetaDataBuf → MetaRsrc D → MetaRsrc D
  unfolding take_out is_default
  release_meta_buf b s = if is_default b then s else elim (take_out b.id s.reserved) [
    | none ↦ s
    | some p ↦ record s { reserved = p.1; released = s.released ++ (p.0 ∷ []) }
  ]

  -- The first loop of `FreeAllMetaBuf`, by the rounds that are left.
  unfoldable pub release_all : ℕ → MetaRsrc D → MetaRsrc D
  unfolding release_meta_buf
  release_all zero s = s
  release_all (suc n) s = elim s.reserved [ [] ↦ s | b ∷ _ ↦ release_all n (release_meta_buf b s) ]

  -- The second loop, which frees the last buffer first; an error of the driver is ignored.
  unfoldable pub free_back : List MetaDataBuf → D → D
  free_back [] d = d
  free_back (b ∷ r) d = (k.metabuf_delete b.id (k.munmap b.buf b.size (free_back r d))).1

  -- `FreeAllMetaBuf`; each round of its first loop releases a buffer.
  unfoldable pub free_all_meta_buf : MetaRsrc D → Result (Unit {0}) × MetaRsrc D
  unfolding release_all free_back
  free_all_meta_buf s =
      let s1 = release_all (length s.reserved) s in
      let s2 : MetaRsrc D = record s1 {
        device = free_back s1.released s1.device;
        released = [];
        meta_alloc_size = 0;
      } in
      (elim s2.reserved [ [] ↦ ok tt | _ ∷ _ ↦ thrown ], s2)

  -- What the constructor of an exception does here, `FrmwkEx::DumpStateOfTheSystem`: it disables the
  -- controller, and if that succeeds the resource manager is told, which frees all metadata, with the
  -- option --postfail as without it. The log
  -- files are left out, and so are the objects of the resource manager, which are of the module
  -- `Resources`.
  unfoldable pub frmwk_ex : MetaRsrc D → MetaRsrc D
  frmwk_ex s =
      let (done, d) = k.disable_completely s.device in
      let s1 : MetaRsrc D = record s { device = d } in
      let freed = (free_all_meta_buf s1).1 in if done then freed else s1

  -- `ReserveMetaBuf` without a released buffer: the state of the driver, and what is reserved, if
  -- nothing throws.
  unfoldable pub reserve_new : MetaRsrc D → Result (Option MetaDataBuf) × MetaRsrc D
  unfolding unique_id
  reserve_new s =
      let (i, before, after) = unique_id 0 s.reserved in
      let (allocated, d1) = k.metabuf_alloc i s.device in
      let (address, d2) = k.mmap s.meta_alloc_size i d1 in
      let b : MetaDataBuf = record { buf = address; size = s.meta_alloc_size; id = i } in
      if ltb i id_limit
      then (if allocated
          then (if address == 0
              then (thrown, frmwk_ex (record s { device = (k.metabuf_delete i d2).1 }))
              else (ok (some b), record s { device = d2; reserved = before ++ (b ∷ after) }))
          else (thrown, frmwk_ex (record s { device = d1 })))
      else (ok none, s)

  -- `relIter != mMetaReleased.end()`, by what is released.
  unfoldable pub reserve_from :
      List MetaDataBuf → MetaRsrc D → Result (Option MetaDataBuf) × MetaRsrc D
  unfolding reserve_new insert_released
  reserve_from [] s = reserve_new s
  reserve_from (b ∷ rest) s =
      (ok (some b), record s { reserved = insert_released b s.reserved; released = rest })

  -- `ReserveMetaBuf`; `none` is its result false.
  unfoldable pub reserve_meta_buf : MetaRsrc D → Result (Option MetaDataBuf) × MetaRsrc D
  unfolding reserve_from
  reserve_meta_buf s = reserve_from s.released s
