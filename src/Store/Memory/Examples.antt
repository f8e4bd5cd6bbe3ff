-- ===== src/Store/Memory/Examples.antt =====
-- Tests of crates/store, and the theorems about it at concrete inputs.
use mooncache.Prelude.{
  ◌≡◌, refl, ◌⊎◌, inl, [], ◌∷◌, some, arith, lookup, insert, checked_add, text_beq,
}
use mooncache.Store.{
  StoreError, ok, err, checksum_mismatch, unwritten_chunk, ChunkHandle, from_replica,
}
use mooncache.Store.Slices.{get_range}
use mooncache.Store.Memory.{
  Bytes, MemoryStore, unwritten, with_capacity, capacity_snapshot, allocate_chunk,
  validate_allocated_handle, chunk_end, write_chunk, write_preallocated_chunk, read_chunk,
}
use mooncache.Store.Memory.ReadWrite.{write_chunk-read_chunk}
use mooncache.Store.Memory.Others.{Apart, write_chunk-other}
use mooncache.Store.Memory.Preallocated.{Fits, write_preallocated-read_chunk}
use mooncache.Store.Memory.Invariant.{allocates, operate}
use mooncache.Store.Memory.Fresh.{IsFresh, allocate_chunk-IsFresh}

-- A digest for the tests: the bytes themselves.
abbrev digest : Bytes → Bytes
digest bytes = bytes

abbrev two_chunks : MemoryStore
two_chunks = record {
  arena = 0 ∷ 0 ∷ 0 ∷ 0 ∷ 0 ∷ [];
  next_offset = 4;
  allocations = (0, unwritten 2) ∷ (2, unwritten 2) ∷ [];
}

abbrev first : ChunkHandle
first = record { offset = 0; len = 2 }

abbrev second : ChunkHandle
second = record { offset = 2; len = 2 }

operate-two_chunks : operate digest (with_capacity 5) (allocates 2 ∷ allocates 2 ∷ []) ≡ two_chunks
unfolding operate with_capacity allocate_chunk checked_add insert
operate-two_chunks = refl

write_first : (write_chunk digest two_chunks first (7 ∷ 9 ∷ [])).0 ≡ ok tt
unfolding write_chunk validate_allocated_handle chunk_end get_range checked_add lookup
write_first = refl

-- A byte that changed behind the store's back is noticed.
corrupted :
    read_chunk digest
      (record {
        arena = 8 ∷ 9 ∷ [];
        next_offset = 2;
        allocations = (0, record { len = 2; checksum = some (7 ∷ 9 ∷ []) }) ∷ [];
      })
      first
    ≡ err (checksum_mismatch 0)
unfolding read_chunk validate_allocated_handle chunk_end get_range checked_add lookup text_beq
corrupted = refl

never_written : read_chunk digest two_chunks second ≡ err unwritten_chunk
unfolding read_chunk validate_allocated_handle chunk_end checked_add lookup
never_written = refl

write_chunk-read_chunk_example :
    read_chunk digest (write_chunk digest two_chunks first (7 ∷ 9 ∷ [])).1 first ≡ ok (7 ∷ 9 ∷ [])
write_chunk-read_chunk_example =
    write_chunk-read_chunk digest two_chunks first (7 ∷ 9 ∷ []) write_first

first-second : Apart first second
first-second = record {
  nonempty = omega arith;
  other_nonempty = omega arith;
  apart = inl (omega arith);
}

write_chunk-other_example :
    read_chunk digest (write_chunk digest two_chunks first (7 ∷ 9 ∷ [])).1 second
    ≡ read_chunk digest two_chunks second
write_chunk-other_example =
    write_chunk-other digest two_chunks first second (7 ∷ 9 ∷ []) first-second

abbrev last : ChunkHandle
last = record { offset = 3; len = 2 }

write_preallocated-read_chunk_example :
    (Fits two_chunks last (7 ∷ 9 ∷ [])
      × ((write_preallocated_chunk digest two_chunks last (7 ∷ 9 ∷ [])).0 ≡ ok tt)
      × (read_chunk digest (write_preallocated_chunk digest two_chunks last (7 ∷ 9 ∷ [])).1 last
          ≡ ok (7 ∷ 9 ∷ [])))
    ⊎ ((¬ Fits two_chunks last (7 ∷ 9 ∷ []))
        × ((e : StoreError) × (write_preallocated_chunk digest two_chunks last (7 ∷ 9 ∷ [])
              ≡ (err e, two_chunks))))
write_preallocated-read_chunk_example =
    write_preallocated-read_chunk digest two_chunks last (7 ∷ 9 ∷ [])

allocated_second :
    (allocate_chunk (operate digest (with_capacity 5) (allocates 2 ∷ [])) 2).0 ≡ ok second
unfolding operate with_capacity allocate_chunk checked_add insert
allocated_second = refl

allocate_chunk-IsFresh_example :
    IsFresh digest
      (operate digest (with_capacity 5) (allocates 2 ∷ []))
      (allocate_chunk (operate digest (with_capacity 5) (allocates 2 ∷ [])) 2).1
      2
      second
allocate_chunk-IsFresh_example =
    allocate_chunk-IsFresh digest 5 (allocates 2 ∷ []) 2 second allocated_second

replica_handle : from_replica (record { node_id = b'n' ∷ []; offset = 3; len = 2 }) ≡ ok last
unfolding from_replica
replica_handle = refl

two_chunks_capacity : capacity_snapshot two_chunks ≡ (4, 5)
unfolding capacity_snapshot
two_chunks_capacity = refl
