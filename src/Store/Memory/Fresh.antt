-- ===== src/Store/Memory/Fresh.antt =====
-- What `allocate` in crates/store/src/memory.rs hands out.
use mooncache.Prelude.{
  ℕ, ◌+◌, ◌≤◌, ◌<◌, ◌≡◌, refl, subst, inr, false, List, [], ◌∷◌, some, arith, length, nat_eq, ◌==◌,
  lookup, insert, lookup-insert_ne, lookup-insert_self, Entries,
}
use mooncache.Store.{StoreResult, ok, ChunkHandle}
use mooncache.Store.Memory.{
  Bytes, ChunkMeta, MemoryStore, with_capacity, unwritten, allocate_chunk, read_chunk,
}
use mooncache.Store.Memory.Others.{Apart, Agrees, read_chunk-Agrees}
use mooncache.Store.Memory.Invariant.{
  IsUsed, IsTidy, allocate_chunk_cases, Operation, operate, operate-IsTidy, with_capacity-IsTidy,
}

-- The handle of an entry of the table of chunks.
abbrev pub handle_at : ℕ → ChunkMeta → ChunkHandle
handle_at offset meta = record { offset = offset; len = meta.len }

-- A chunk of `len` bytes that is new in `st'` after `st`: it lies inside the arena and is entered as
-- not written, and each chunk that was there shares no byte with it and is read as before.
pub record IsFresh (sha256 : Bytes → Bytes) (st st' : MemoryStore) (len : ℕ) (handle : ChunkHandle)
    : Type 0 where
  pub same_len : handle.len ≡ len
  pub nonempty : 0 < len
  pub inside : handle.offset + handle.len ≤ length st.arena
  pub entered : lookup handle.offset st'.allocations ≡ some (unwritten len)
  pub apart :
      Entries
        (λ offset meta.
          Apart handle (handle_at offset meta)
          × (read_chunk sha256 st' (handle_at offset meta)
              ≡ read_chunk sha256 st (handle_at offset meta)))
        st.allocations

module _ (sha256 : Bytes → Bytes) (st : MemoryStore) (len : ℕ) (nonempty : 0 < len) where
  -- The next free bytes, which `allocate` hands out.
  abbrev next_handle : ChunkHandle
  next_handle = record { offset = st.next_offset; len = len }

  abbrev allocated : MemoryStore
  allocated = record st {
    next_offset = st.next_offset + len;
    allocations = insert st.next_offset (unwritten len) st.allocations;
  }

  next-Apart :
      (offset : ℕ) (meta : ChunkMeta)
      → IsUsed st.next_offset offset meta
      → Apart next_handle (handle_at offset meta)
  next-Apart offset meta used = record {
    nonempty = nonempty;
    other_nonempty = used.0;
    apart = inr used.1;
  }

  allocated-Agrees :
      (offset : ℕ) (meta : ChunkMeta)
      → IsUsed st.next_offset offset meta
      → Agrees st allocated (handle_at offset meta)
  allocated-Agrees offset meta used =
      let differ : (st.next_offset == offset) ≡ false = ground (arith, used) in
      record {
        same_meta = lookup-insert_ne st.next_offset offset (unwritten len) st.allocations differ;
        same_size = refl;
        same_bytes = refl;
      }

  allocated-Entries :
      (allocations : List (ℕ × ChunkMeta))
      → Entries (IsUsed st.next_offset) allocations
      → Entries
          (λ offset meta.
            Apart next_handle (handle_at offset meta)
            × (read_chunk sha256 allocated (handle_at offset meta)
                ≡ read_chunk sha256 st (handle_at offset meta)))
          allocations
  allocated-Entries [] h = tt
  allocated-Entries ((offset, meta) ∷ allocations) (used, rest) = (
    (
      next-Apart offset meta used,
      read_chunk-Agrees sha256 st allocated (handle_at offset meta)
          (allocated-Agrees offset meta used),
    ),
    allocated-Entries allocations rest,
  )

IsTidy-IsFresh :
    (sha256 : Bytes → Bytes) (st : MemoryStore) (len : ℕ) (handle : ChunkHandle)
    → IsTidy st
    → (allocate_chunk st len).0 ≡ ok handle
    → IsFresh sha256 st (allocate_chunk st len).1 len handle
IsTidy-IsFresh sha256 st len handle t =
    allocate_chunk_cases
      (λ (r : StoreResult ChunkHandle × MemoryStore).
        r.0 ≡ ok handle → IsFresh sha256 st r.1 len handle)
      st len (λ e done. absurd (ground arith))
      (λ nonempty fits room done.
        let same : next_handle sha256 st len nonempty ≡ handle = ground arith in
        subst (IsFresh sha256 st (allocated sha256 st len nonempty) len) same (record {
          same_len = refl;
          nonempty = nonempty;
          inside = room;
          entered = lookup-insert_self st.next_offset (unwritten len) st.allocations;
          apart = allocated-Entries sha256 st len nonempty st.allocations t.used;
        }))

-- In every store that the operations reach from an empty one, a handle that `allocate` returns has the
-- length asked for, which is not 0, lies inside the arena and is entered as not written; it shares no
-- byte with any chunk that there was, and what is read of that chunk is as before.
pub allocate_chunk-IsFresh :
    (sha256 : Bytes → Bytes) (capacity : ℕ) (operations : List Operation) (len : ℕ)
    (handle : ChunkHandle)
    → (allocate_chunk (operate sha256 (with_capacity capacity) operations) len).0 ≡ ok handle
    → IsFresh sha256
        (operate sha256 (with_capacity capacity) operations)
        (allocate_chunk (operate sha256 (with_capacity capacity) operations) len).1
        len
        handle
allocate_chunk-IsFresh sha256 capacity operations len handle =
    IsTidy-IsFresh sha256 (operate sha256 (with_capacity capacity) operations) len handle
      (operate-IsTidy sha256 (with_capacity capacity) operations (with_capacity-IsTidy capacity))
