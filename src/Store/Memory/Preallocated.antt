-- ===== src/Store/Memory/Preallocated.antt =====
-- Writes of crates/store/src/memory.rs at an offset that the master chose.
use mooncache.Prelude.{
  ◌+◌, ◌≤◌, ◌<◌, ◌≡◌, refl, sym, ap, ◌∙◌, ◌⊎◌, inl, inr, true, arith, max, eqb, length, u64_max,
  checked_add, nat_eq, insert, lookup-insert_self,
}
use mooncache.Store.{StoreError, StoreResult, StoreResult-cases, ok, err, ChunkHandle, is_empty}
use mooncache.Store.Memory.{
  Bytes, ChunkMeta, MemoryStore, unwritten, chunk_end, validate_preallocated_handle, write_chunk,
  write_preallocated_chunk, read_chunk,
}
use mooncache.Store.Memory.ReadWrite.{
  IsChunk, IsChunk-validate, chunk_end-eq, get_range-eq, written, written-read,
}

-- The bytes fit the handle, and the handle the arena.
pub record Fits (st : MemoryStore) (handle : ChunkHandle) (bytes : Bytes) : Type 0 where
  pub nonempty : 0 < handle.len
  pub same_len : length bytes ≡ handle.len
  pub inside : handle.offset + handle.len ≤ length st.arena
  pub no_overflow : handle.offset + handle.len ≤ u64_max

refused_ok : (e : StoreError) → ¬ (◌≡◌ {A = StoreResult (Unit {0})} (err e) (ok tt))
refused_ok e h = ground arith

-- The store once the handle is entered, before its bytes are written.
abbrev pub entered : MemoryStore → ChunkHandle → MemoryStore
entered st handle = record st {
  allocations = insert handle.offset (unwritten handle.len) st.allocations;
  next_offset = max st.next_offset (handle.offset + handle.len);
}

module _ (st : MemoryStore) (handle : ChunkHandle) (bytes : Bytes) where
  validate_preallocated-Fits :
      validate_preallocated_handle st handle (length bytes) ≡ ok tt → Fits st handle bytes
  unfolding validate_preallocated_handle chunk_end is_empty checked_add
  validate_preallocated-Fits valid = record {
    nonempty = ground arith;
    same_len = ground arith;
    inside = ground arith;
    no_overflow = ground arith;
  }

  Fits-validate_preallocated :
      Fits st handle bytes → validate_preallocated_handle st handle (length bytes) ≡ ok tt
  unfolding validate_preallocated_handle chunk_end is_empty checked_add
  Fits-validate_preallocated f = ground (arith, f.nonempty, f.same_len, f.inside, f.no_overflow)

  entered-IsChunk : Fits st handle bytes → IsChunk (entered st handle) handle (unwritten handle.len)
  entered-IsChunk f = record {
    found = lookup-insert_self handle.offset (unwritten handle.len) st.allocations;
    same_len = refl;
    inside = f.inside;
    no_overflow = f.no_overflow;
  }

module _ (sha256 : Bytes → Bytes) (st : MemoryStore) (handle : ChunkHandle) (bytes : Bytes) where
  write_chunk-eq :
      (meta : ChunkMeta)
      → IsChunk st handle meta
      → length bytes ≡ handle.len
      → write_chunk sha256 st handle bytes ≡ (ok tt, written sha256 st handle bytes)
  unfolding write_chunk
  write_chunk-eq meta c fits =
      let right : eqb (length bytes) handle.len ≡ true = ground arith in
      rw (
        IsChunk-validate st handle meta c,
        write_chunk,
        right,
        chunk_end-eq handle c.no_overflow,
        get_range-eq handle.offset handle.len st.arena c.inside,
      )

pub write_preallocated-eq :
    (sha256 : Bytes → Bytes) (st : MemoryStore) (handle : ChunkHandle) (bytes : Bytes)
    → Fits st handle bytes
    → write_preallocated_chunk sha256 st handle bytes
      ≡ (ok tt, written sha256 (entered st handle) handle bytes)
unfolding write_preallocated_chunk
write_preallocated-eq sha256 st handle bytes f = rw (
  write_preallocated_chunk,
  Fits-validate_preallocated st handle bytes f,
  chunk_end-eq handle f.no_overflow,
  write_chunk-eq sha256 (entered st handle) handle bytes (unwritten handle.len)
      (entered-IsChunk st handle bytes f) f.same_len,
)

-- A write at a given offset succeeds exactly when the handle is not empty, has the length of the
-- bytes and lies inside the arena; a write that is refused changes nothing, and one that succeeds is
-- read back.
pub write_preallocated-read_chunk :
    (sha256 : Bytes → Bytes) (st : MemoryStore) (handle : ChunkHandle) (bytes : Bytes)
    → (Fits st handle bytes
        × ((write_preallocated_chunk sha256 st handle bytes).0 ≡ ok tt)
        × (read_chunk sha256 (write_preallocated_chunk sha256 st handle bytes).1 handle ≡ ok bytes))
      ⊎ ((¬ Fits st handle bytes)
          × ((e : StoreError) × (write_preallocated_chunk sha256 st handle bytes ≡ (err e, st))))
unfolding write_preallocated_chunk
write_preallocated-read_chunk sha256 st handle bytes =
    elim (StoreResult-cases (validate_preallocated_handle st handle (length bytes))) [
      | inl (_, valid) ↦
          let f = validate_preallocated-Fits st handle bytes valid in
          let done = write_preallocated-eq sha256 st handle bytes f in
          inl (
            f,
            ap (λ (r : StoreResult (Unit {0}) × MemoryStore). r.0) done,
            ap (λ (r : StoreResult (Unit {0}) × MemoryStore). read_chunk sha256 r.1 handle) done
                ∙ written-read sha256 (entered st handle) handle bytes (unwritten handle.len)
                    (entered-IsChunk st handle bytes f) f.same_len,
          )
      | inr (e, bad) ↦ inr (
        (λ f. refused_ok e (sym bad ∙ Fits-validate_preallocated st handle bytes f)),
        (e, rw (write_preallocated_chunk, bad)),
      )
    ]
