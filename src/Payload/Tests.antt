-- ===== src/Payload/Tests.antt =====
-- The theorems about payloads on a command that writes to the device, and the rejections of the
-- setters.
use tnvme.Base.{
  ℕ, zero, suc, ◌+◌, ◌-◌, ◌^◌, ◌≡◌, refl, arith, true, false, some, List, [], ok, thrown, replicate,
}
use tnvme.Cmds.Cmd.{DataDir}
use tnvme.Data.{MemBuffer, no_buffer, inc_16bit, set_data_pattern}
use tnvme.Meta.{MetaDataBuf, Kernel, MetaRsrc}
use tnvme.Meta.Invariant.{IsValid}
use tnvme.Payload.{
  Payload, constructed, set_prp_allowed, set_prp_buffer, set_prp_buffer_ro, set_prp_buffer_unsafe,
  get_ro_prp_buffer, user_memory, reserved_into, destroy, set_meta_data_pattern,
  compare_meta_buffer,
}
use tnvme.Payload.Buffers.{RwOutcome, RoOutcome, set_prp_buffers}
use tnvme.Payload.Reach.{here, next, set_rw, set_ro, payload-IsValid}
use tnvme.Payload.Compare.{compare_meta_buffer-pattern}

abbrev objects : ℕ → MemBuffer
objects i = record no_buffer { contents = some (replicate 8 i); size = 8 }

abbrev allowing : ℕ → Payload
allowing mask = record (constructed DataDir.to_device) { prp_allowed = mask }

abbrev with_buffer : Payload
with_buffer = record (allowing 5) { buf_rw = some 2; buf_size = 8; prp_fields = 4 }

set_prp_buffers_example :
    RwOutcome objects 4 (allowing 5) (omega arith) (omega arith) 2
    × RoOutcome objects 4 (allowing 5) (omega arith) (omega arith) 4096 64
set_prp_buffers_example =
    set_prp_buffers objects 4 (allowing 5) (omega arith) (omega arith) 2 4096 64

payload-IsValid_example : tnvme.Payload.Reach.IsValid 15 with_buffer
unfolding set_prp_allowed set_prp_buffer set_prp_buffer_ro
payload-IsValid_example = payload-IsValid 15 (omega arith) DataDir.to_device 5 (omega arith) (
    next (next here (set_rw 4 (some 2) objects (omega arith) refl))
      (set_ro 4 4096 64 with_buffer (omega arith)))

-- A field that is not allowed, and the unsafe setter over read-only memory.
refused : set_prp_buffer 2 (some 2) objects (allowing 5) ≡ some (thrown, allowing 5)
unfolding set_prp_buffer
refused = refl

abbrev with_memory : Payload
with_memory = record (allowing 5) { buf_ro = 4096; buf_size = 64; prp_fields = 1 }

both_set_up :
    set_prp_buffer_unsafe 2 (some 2) objects with_memory
    ≡ some (record with_memory { buf_rw = some 2; buf_size = 8; prp_fields = 2 })
unfolding set_prp_buffer_unsafe
both_set_up = refl

-- A driver that refuses to allocate while its state is 0.
abbrev kernel : Kernel ℕ
kernel = record {
  metabuf_create = λ s d. (true, d);
  metabuf_alloc = λ i d. (elim d [ zero ↦ false | suc _ ↦ true ], d);
  metabuf_delete = λ i d. (true, d);
  mmap = λ s i d. (4096 + i, d);
  munmap = λ a s d. d;
  disable_completely = λ d. (true, d);
}

abbrev state : ℕ → List MetaDataBuf → MetaRsrc ℕ
state d l = record { device = d; meta_alloc_size = 64; reserved = l; released = [] }

abbrev buffer : MetaDataBuf
buffer = record { buf = 4096; size = 64; id = 0 }

abbrev holding : MetaDataBuf → Payload
holding m = record (allowing 5) { meta_data = m }

compare_meta_buffer-pattern_example :
    (x' : List ℕ) × (l' : List ℕ) × (set_data_pattern inc_16bit 300 0 (2 ^ 32 - 1) (objects 2)
      ≡ some (ok tt, record (objects 2) { contents = some x' }))
    × (set_meta_data_pattern inc_16bit 300 0 (2 ^ 32 - 1) (holding buffer) (replicate 64 7)
        ≡ some (ok l'))
    × (compare_meta_buffer 8 x' (holding buffer) l' ≡ ok true)
compare_meta_buffer-pattern_example =
    compare_meta_buffer-pattern inc_16bit 300 (objects 2) (holding buffer) (replicate 8 2)
      (replicate 64 7) refl refl (omega arith) refl (omega arith) (omega arith) refl refl
