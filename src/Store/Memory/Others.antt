-- ===== src/Store/Memory/Others.antt =====
-- What an operation on one chunk of crates/store/src/memory.rs leaves of the other chunks, and writes
-- at an offset that another node chose.
use mooncache.Prelude.{
  ◌+◌, ◌≤◌, ◌<◌, ◌≡◌, refl, ◌∙◌, ◌⊎◌, inl, inr, arith, length, nat_eq, text_eq, Option-cases,
  lookup,
}
use mooncache.Store.{StoreResult, StoreResult-cases, ChunkHandle}
use mooncache.Store.Slices.{slice, length-splice, slice-splice_disjoint}
use mooncache.Store.Memory.{
  Bytes, MemoryStore, chunk_end, validate_allocated_handle, write_chunk, read_chunk,
}
use mooncache.Store.Memory.ReadWrite.{
  validate-IsChunk, chunk_end-eq, get_range-eq, written, write_chunk_cases, set_checksum-other,
}

-- Two handles that are not empty and share no byte.
pub record Apart (handle other : ChunkHandle) : Type 0 where
  pub nonempty : 0 < handle.len
  pub other_nonempty : 0 < other.len
  pub apart :
      (handle.offset + handle.len ≤ other.offset) ⊎ (other.offset + other.len ≤ handle.offset)

-- The two stores show the same chunk under the handle.
pub record Agrees (st st' : MemoryStore) (handle : ChunkHandle) : Type 0 where
  pub same_meta : lookup handle.offset st'.allocations ≡ lookup handle.offset st.allocations
  pub same_size : length st'.arena ≡ length st.arena
  pub same_bytes :
      slice handle.offset handle.len st'.arena ≡ slice handle.offset handle.len st.arena

validate-Agrees :
    (st st' : MemoryStore) (handle : ChunkHandle)
    → Agrees st st' handle
    → validate_allocated_handle st' handle ≡ validate_allocated_handle st handle
unfolding validate_allocated_handle chunk_end
validate-Agrees st st' handle a = ground (arith, a.same_meta, a.same_size)

module _ (sha256 : Bytes → Bytes) where
  pub read_chunk-Agrees :
      (st st' : MemoryStore) (handle : ChunkHandle)
      → Agrees st st' handle
      → read_chunk sha256 st' handle ≡ read_chunk sha256 st handle
  unfolding read_chunk
  read_chunk-Agrees st st' handle a =
      elim (StoreResult-cases (validate_allocated_handle st handle)) [
        | inr (e, bad) ↦ rw (read_chunk, validate-Agrees st st' handle a, bad)
        | inl (meta, valid) ↦
            let c = validate-IsChunk st handle meta valid in
            let valid' = validate-Agrees st st' handle a ∙ valid in
            let c' = validate-IsChunk st' handle meta valid' in
            elim (Option-cases meta.checksum) [
              | inl missing ↦ rw (read_chunk, valid, valid', missing)
              | inr (sum, noted) ↦ rw (
                read_chunk,
                valid,
                valid',
                noted,
                chunk_end-eq handle c.no_overflow,
                get_range-eq handle.offset handle.len st.arena c.inside,
                get_range-eq handle.offset handle.len st'.arena c'.inside,
                a.same_bytes,
              )
            ]
      ]

  written-Agrees :
      (st : MemoryStore) (handle other : ChunkHandle) (bytes : Bytes)
      → length bytes ≡ handle.len
      → Apart handle other
      → Agrees st (written sha256 st handle bytes) other
  written-Agrees st handle other bytes fits d = record {
    same_meta =
        set_checksum-other sha256 handle.offset other.offset bytes st.allocations
          (λ e. omega (arith, e, d.nonempty, d.other_nonempty, d.apart));
    same_size = length-splice handle.offset bytes st.arena;
    same_bytes =
        slice-splice_disjoint other.offset other.len handle.offset bytes st.arena
          (omega (arith, d.apart, fits));
  }

  -- A write changes no read of a chunk that it shares no byte with.
  pub write_chunk-other :
      (st : MemoryStore) (handle other : ChunkHandle) (bytes : Bytes)
      → Apart handle other
      → read_chunk sha256 (write_chunk sha256 st handle bytes).1 other ≡ read_chunk sha256 st other
  write_chunk-other st handle other bytes d =
      write_chunk_cases sha256
        (λ (r : StoreResult (Unit {0}) × MemoryStore).
          read_chunk sha256 r.1 other ≡ read_chunk sha256 st other)
        st handle bytes (λ e. refl)
        (λ meta c fits.
          read_chunk-Agrees st (written sha256 st handle bytes) other
            (written-Agrees st handle other bytes fits d))
