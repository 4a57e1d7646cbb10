-- ===== src/Meta/Tests.antt =====
-- The theorems about metadata buffers with a driver that accepts every call and maps each buffer
-- at an address of its own.
use tnvme.Base.{ℕ, ◌+◌, ◌≡◌, true, [], ◌∷◌, arith, ok}
use tnvme.Meta.{
  MetaDataBuf, Kernel, MetaRsrc, reserve_meta_buf, release_meta_buf, free_back, free_all_meta_buf,
}
use tnvme.Meta.Invariant.{IsValid}
use tnvme.Meta.Reach.{started, here, next, reserve, release, Reach-IsValid}
use tnvme.Meta.Free.{free_all_meta_buf_lem}

abbrev kernel : Kernel ℕ
kernel = record {
  metabuf_create = λ s d. (true, d + 1);
  metabuf_alloc = λ i d. (true, d + 1);
  metabuf_delete = λ i d. (true, d + 1);
  mmap = λ s i d. (4096 + i, d);
  munmap = λ a s d. d;
  disable_completely = λ d. (true, d);
}

abbrev buffer : ℕ → MetaDataBuf
buffer i = record { buf = 4096 + i; size = 64; id = i }

-- Buffers 0 and 2 are reserved, 1 is released.
abbrev three : MetaRsrc ℕ
three = record {
  device = 3;
  meta_alloc_size = 64;
  reserved = buffer 0 ∷ buffer 2 ∷ [];
  released = buffer 1 ∷ [];
}

Reach-IsValid_example :
    IsValid (release_meta_buf kernel (buffer 0) (reserve_meta_buf kernel (started kernel 0)).1)
Reach-IsValid_example =
    Reach-IsValid kernel (next (next here (reserve (started kernel 0))) (release (buffer 0) _))

free_all_meta_buf_lem_example : free_all_meta_buf kernel three ≡ (
  ok tt,
  record {
    device = free_back kernel (buffer 1 ∷ buffer 0 ∷ buffer 2 ∷ []) 3;
    meta_alloc_size = 0;
    reserved = [];
    released = [];
  },
)
free_all_meta_buf_lem_example =
    free_all_meta_buf_lem kernel three ((λ e. omega arith), ((λ e. omega arith), tt))
