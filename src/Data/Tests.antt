-- ===== src/Data/Tests.antt =====
-- The theorems about buffers with a heap that never fails.
use tnvme.Base.{
  ℕ, ◌+◌, ◌-◌, subst, ◌^◌, ◌≡◌, ◌<◌, ◌≤◌, ◌⊎◌, refl, false, Option, none, some, List, ok, thrown,
  replicate, length, length-replicate, arith,
}
use tnvme.Data.{const_16bit, inc_16bit, MemBuffer, Heap, set_data_pattern}
use tnvme.Data.Buffer.{Honest}
use tnvme.Data.SetPattern.{HasPattern, set_data_pattern_lem, set_data_pattern-none}

abbrev heap : Heap ℕ
heap = record {
  memalign = λ align size h. (some (replicate size 0xaa), h + 1);
  new_bytes = λ size h. (some (replicate size 0xaa), h + 1);
  page_size = 4096;
}

length-got :
    (size : ℕ) (l : List ℕ)
    → ◌≡◌ {A = Option (List ℕ)} (some (replicate size 0xaa)) (some l)
    → length l ≡ size
length-got size l e =
    let q : replicate size 0xaa ≡ l = cc in
    subst (λ t. length t ≡ size) q (length-replicate size 0xaa)

heap-Honest : Honest heap
heap-Honest = record {
  aligned = λ align size h {l} e. length-got size l e;
  bytes = λ size h {l} e. length-got size l e;
}

abbrev eight : MemBuffer
eight = record { contents = some (replicate 8 0); size = 8; alignment = 4096; by_new = false }

set_data_pattern_lem_example :
    ((8 < 4 + 2) × (set_data_pattern inc_16bit 0xffff 2 4 eight ≡ some (thrown, eight)))
    ⊎ ((4 + 2 ≤ 8)
        × ((l' : List ℕ) × (set_data_pattern inc_16bit 0xffff 2 4 eight
              ≡ some (ok tt, record eight { contents = some l' }))
            × HasPattern inc_16bit 0xffff 2 2 (replicate 8 0) l'))
set_data_pattern_lem_example =
    set_data_pattern_lem inc_16bit 0xffff 2 4 eight (replicate 8 0) refl refl (omega arith)
      (omega arith)

set_data_pattern-none_example : set_data_pattern const_16bit 7 (2 ^ 32 - 4) 8 eight ≡ none
set_data_pattern-none_example =
    set_data_pattern-none const_16bit 7 (2 ^ 32 - 4) 8 eight (replicate 8 0) refl refl
      (λ e. omega arith) (omega arith) (omega arith) (omega arith) (omega arith)
