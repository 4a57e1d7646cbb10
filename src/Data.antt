-- ===== src/Data.antt =====
-- `Singletons/memBuffer.cpp`: the memory of a buffer, its allocation, and the patterns that are
-- written to it; `Cmds/metaData.cpp` writes the same patterns.
pub mod Pattern
pub mod SetPattern
pub mod Buffer
mod Tests
use tnvme.Base.{
  ℕ, zero, suc, ◌+◌, ◌-◌, ◌*◌, ◌/◌, ◌%◌, ◌^◌, Bool, true, false, ◌&&◌, not, Option, none, some,
  List, [], ◌∷◌, ◌++◌, Result, ok, thrown, length, drop, replicate, ltb, leb, ◌==◌, if◌then◌else◌,
}

-- `DataPattern`
pub data DataPattern : Type 0 where
  const_8bit const_16bit const_32bit inc_8bit inc_16bit inc_32bit : DataPattern

-- The bytes of a unit of the pattern, and what is added for each unit.
abbrev pub unit_size : DataPattern → ℕ
unit_size const_8bit = 1
unit_size const_16bit = 2
unit_size const_32bit = 4
unit_size inc_8bit = 1
unit_size inc_16bit = 2
unit_size inc_32bit = 4

abbrev pub increment : DataPattern → ℕ
increment const_8bit = 0
increment const_16bit = 0
increment const_32bit = 0
increment inc_8bit = 1
increment inc_16bit = 1
increment inc_32bit = 1

-- The bytes of a number that is stored in `w` bytes, the lowest first.
unfoldable pub store_bytes : ℕ → ℕ → List ℕ
store_bytes zero v = []
store_bytes (suc w) v = v % 2 ^ 8 ∷ store_bytes w (v / 2 ^ 8)

abbrev pub behind : ℕ → Option (List ℕ) → Option (List ℕ)
behind x none = none
behind x (some l) = some (x ∷ l)

-- `*rawPtr++ = ...` over bytes from the start of a list; `none` if they run past its end, which has
-- no defined behaviour.
unfoldable pub write_over : List ℕ → List ℕ → Option (List ℕ)
write_over [] l = some l
write_over (b ∷ r) [] = none
write_over (b ∷ r) (x ∷ l) = behind b (write_over r l)

unfoldable pub store_at : ℕ → List ℕ → List ℕ → Option (List ℕ)
store_at zero r l = write_over r l
store_at (suc i) [] [] = some []
store_at (suc i) (b ∷ r) [] = none
store_at (suc i) r (x ∷ l) = behind x (store_at i r l)

-- The bytes that one of the loops of `SetDataPattern` stores, by its rounds.
unfoldable pub pattern_bytes : ℕ → ℕ → ℕ → ℕ → List ℕ
pattern_bytes zero w inc v = []
pattern_bytes (suc n) w inc v = store_bytes w v ++ pattern_bytes n w inc ((v + inc) % 2 ^ 64)

-- `MemBuffer`: what `mVirBaseAddr` points to (`none` for NULL), `mVirBufSize`, `mAlignment`, and
-- `mAllocByNewOperator`.
pub record MemBuffer : Type 0 where
  pub contents : Option (List ℕ)
  pub size : ℕ
  pub alignment : ℕ
  pub by_new : Bool

-- `InitMemberVariables`, and so `DeallocateResources`
abbrev pub no_buffer : MemBuffer
no_buffer = record { contents = none; size = 0; alignment = 0; by_new = true }

abbrev pub stored : Option (List ℕ) → Option (Result (List ℕ))
stored none = none
stored (some l) = some (ok l)

-- `SetDataPattern` on memory; the sum of length and offset is one of 32 bits. `none` if it writes past
-- the end of the memory.
unfoldable pub set_pattern : DataPattern → ℕ → ℕ → ℕ → ℕ → List ℕ → Option (Result (List ℕ))
set_pattern pat init offset len size l =
    let len' = if len == 2 ^ 32 - 1 then size else len in
    let w = unit_size pat in
    let bytes = pattern_bytes (len' / w) w (increment pat) init in
    if ltb size ((len' + offset) % 2 ^ 32) then some thrown else stored (store_at offset bytes l)

unfoldable pub with_contents :
    MemBuffer → Option (Result (List ℕ)) → Option (Result (Unit {0}) × MemBuffer)
with_contents b none = none
with_contents b (some thrown) = some (thrown, b)
with_contents b (some (ok l)) = some (ok tt, record b { contents = some l })

-- `SetDataPattern`
unfoldable pub set_data_pattern :
    DataPattern → ℕ → ℕ → ℕ → MemBuffer → Option (Result (Unit {0}) × MemBuffer)
set_data_pattern pat init offset len b = elim b.contents [
  | none ↦ some (ok tt, b)
  | some l ↦ with_contents b (set_pattern pat init offset len b.size l)
]

-- `posix_memalign` and `new (nothrow)`, on the state of the heap: the memory, or `none`.
pub record Heap {ℓ} (H : Type ℓ) : Type ℓ where
  pub memalign : ℕ → ℕ → H → Option (List ℕ) × H
  pub new_bytes : ℕ → H → Option (List ℕ) × H
  pub page_size : ℕ

-- `if (initMem) memset(mVirBaseAddr, initVal, mVirBufSize);`
unfoldable pub initialised : Bool → ℕ → ℕ → List ℕ → List ℕ
initialised true v size l = replicate size v
initialised false v size l = l

unfoldable pub same_bytes : List ℕ → List ℕ → Bool
same_bytes [] [] = true
same_bytes (a ∷ x) (b ∷ y) = let rest = same_bytes x y in a == b && rest
same_bytes _ _ = false

module _ {ℓ} {H : Type ℓ} (k : Heap H) where
  -- What an allocation leaves, by the memory that it got.
  unfoldable pub allocated :
      Option (List ℕ) → ℕ → ℕ → ℕ → Bool → Bool → ℕ → H → Result (Unit {0}) × MemBuffer × H
  allocated none offset size align new init v h = (thrown, no_buffer, h)
  allocated (some l) offset size align new init v h = (
    ok tt,
    record {
      contents = some (initialised init v size (drop offset l));
      size = size;
      alignment = align;
      by_new = new;
    },
    h,
  )

  -- `InitOffset1stPage`
  unfoldable pub init_offset_1st_page :
      ℕ → ℕ → Bool → ℕ → MemBuffer → H → Result (Unit {0}) × MemBuffer × H
  init_offset_1st_page size offset init v b h =
      let (memory, h1) = k.memalign k.page_size ((size + offset) % 2 ^ 32) h in
      if not (offset % 4 == 0)
      then (thrown, b, h)
      else allocated memory offset size (if offset == 0 then k.page_size else offset) false init v
          h1

  -- `InitAlignment` without a source buffer
  unfoldable pub init_alignment :
      ℕ → ℕ → Bool → ℕ → MemBuffer → H → Result (Unit {0}) × MemBuffer × H
  init_alignment size align init v b h =
      let (memory, h1) = k.memalign align size h in
      if not (align % 8 == 0) then (thrown, b, h) else allocated memory 0 size align false init v h1

  -- `Init`
  unfoldable pub init_new : ℕ → Bool → ℕ → H → Result (Unit {0}) × MemBuffer × H
  init_new size init_mem v h =
      let (memory, h1) = k.new_bytes size h in allocated memory 0 size 0 true init_mem v h1

-- `Compare` with a vector
unfoldable pub compare_bytes : List ℕ → ℕ → List ℕ → Result Bool
compare_bytes v size l = if length v == size then ok (same_bytes v l) else thrown
