-- ===== src/Store/Memory/Invariant.antt =====
-- Where the chunks of crates/store/src/memory.rs lie, after any sequence of operations.
use mooncache.Prelude.{
  ℕ, ◌+◌, ◌≤◌, ◌<◌, ◌≡◌, inl, inr, List, [], ◌∷◌, some, arith, max, length, u64_max, checked_add,
  nat_eq, ltb, eqb, Bool-cases, Option-cases, lookup, insert, Entries, lookup-Entries,
  insert-Entries,
}
use mooncache.Store.{StoreError, StoreResult, ok, err, ChunkHandle}
use mooncache.Store.Slices.{length-splice}
use mooncache.Store.Memory.{
  Bytes, ChunkMeta, MemoryStore, with_capacity, unwritten, allocate_chunk, set_checksum,
  write_chunk, write_preallocated_chunk,
}
use mooncache.Store.Memory.ReadWrite.{written, write_chunk_cases}
use mooncache.Store.Memory.Preallocated.{
  Fits, entered, write_preallocated-eq, write_preallocated-read_chunk,
}

-- The chunk is not empty and ends before the next free byte.
abbrev pub IsUsed : ℕ → ℕ → ChunkMeta → Type 0
IsUsed next_offset offset meta = (0 < meta.len) × (offset + meta.len ≤ next_offset)

pub record IsTidy (st : MemoryStore) : Type 0 where
  pub bounded : st.next_offset ≤ length st.arena
  pub used : Entries (IsUsed st.next_offset) st.allocations

Entries-grow :
    (m n : ℕ) (allocations : List (ℕ × ChunkMeta))
    → m ≤ n
    → Entries (IsUsed m) allocations
    → Entries (IsUsed n) allocations
Entries-grow m n [] le h = tt
Entries-grow m n ((offset, meta) ∷ allocations) le h =
    ((h.0.0, omega (arith, h.0.1)), Entries-grow m n allocations le h.1)

checked_add-inv : (a b c : ℕ) → checked_add a b ≡ some c → (c ≡ a + b) × (a + b ≤ u64_max)
unfolding checked_add
checked_add-inv a b c h = (ground arith, ground arith)

-- The branches of `allocate`: a refusal changes nothing.
pub allocate_chunk_cases {ℓ} :
    (P : StoreResult ChunkHandle × MemoryStore → Type ℓ) (st : MemoryStore) (len : ℕ)
    → ((e : StoreError) → P (err e, st))
    → (0 < len
        → st.next_offset + len ≤ u64_max
        → st.next_offset + len ≤ length st.arena
        → P (
          ok (record { offset = st.next_offset; len = len }),
          record st {
            next_offset = st.next_offset + len;
            allocations = insert st.next_offset (unwritten len) st.allocations;
          },
        ))
    → P (allocate_chunk st len)
unfolding allocate_chunk
allocate_chunk_cases P st len refused done = elim (Bool-cases (eqb len 0)) [
  | inl empty ↦ rw (empty, allocate_chunk) (refused _)
  | inr nonempty ↦ elim (Option-cases (checked_add st.next_offset len)) [
    | inl over ↦ rw (nonempty, allocate_chunk, over) (refused _)
    | inr (end, sum) ↦ elim (Bool-cases (ltb (length st.arena) end)) [
      | inl full ↦ rw (nonempty, allocate_chunk, sum, full) (refused _)
      | inr room ↦
          let (same, fits) = checked_add-inv st.next_offset len end sum in
          rw (nonempty, allocate_chunk, sum, room, same) (done (ground arith) fits (ground arith))
    ]
  ]
]

allocate_chunk-IsTidy : (st : MemoryStore) (len : ℕ) → IsTidy st → IsTidy (allocate_chunk st len).1
allocate_chunk-IsTidy st len t =
    allocate_chunk_cases (λ (r : StoreResult ChunkHandle × MemoryStore). IsTidy r.1) st len (λ e. t)
      (λ nonempty fits room. record {
        bounded = room;
        used =
            insert-Entries (IsUsed (st.next_offset + len)) st.next_offset (unwritten len)
              st.allocations
              (Entries-grow st.next_offset (st.next_offset + len) st.allocations (omega arith)
                t.used)
              (nonempty, omega arith);
      })

module _ (sha256 : Bytes → Bytes) where
  set_checksum-IsUsed :
      (n offset : ℕ) (bytes : Bytes) (allocations : List (ℕ × ChunkMeta))
      → Entries (IsUsed n) allocations
      → Entries (IsUsed n) (set_checksum sha256 offset bytes allocations)
  unfolding set_checksum
  set_checksum-IsUsed n offset bytes allocations h =
      elim (Option-cases (lookup offset allocations)) [
        | inl missing ↦ rw (missing, set_checksum) h
        | inr (meta, found) ↦
            rw (found, set_checksum)
              (insert-Entries (IsUsed n) offset (record meta { checksum = some (sha256 bytes) })
                allocations h (lookup-Entries (IsUsed n) offset allocations h found))
      ]

  written-IsTidy :
      (st : MemoryStore) (handle : ChunkHandle) (bytes : Bytes)
      → IsTidy st
      → IsTidy (written sha256 st handle bytes)
  written-IsTidy st handle bytes t = record {
    bounded = omega (arith, t.bounded, length-splice handle.offset bytes st.arena);
    used = set_checksum-IsUsed st.next_offset handle.offset bytes st.allocations t.used;
  }

  write_chunk-IsTidy :
      (st : MemoryStore) (handle : ChunkHandle) (bytes : Bytes)
      → IsTidy st
      → IsTidy (write_chunk sha256 st handle bytes).1
  write_chunk-IsTidy st handle bytes t =
      write_chunk_cases sha256 (λ (r : StoreResult (Unit {0}) × MemoryStore). IsTidy r.1) st handle
        bytes (λ e. t) (λ meta c fits. written-IsTidy st handle bytes t)

  entered-IsTidy :
      (st : MemoryStore) (handle : ChunkHandle) (bytes : Bytes)
      → Fits st handle bytes
      → IsTidy st
      → IsTidy (entered st handle)
  entered-IsTidy st handle bytes f t = record {
    bounded = omega (arith, t.bounded, f.inside);
    used =
        insert-Entries (IsUsed (max st.next_offset (handle.offset + handle.len))) handle.offset
          (unwritten handle.len) st.allocations
          (Entries-grow st.next_offset _ st.allocations (omega arith) t.used)
          (f.nonempty, omega arith);
  }

  write_preallocated_chunk-IsTidy :
      (st : MemoryStore) (handle : ChunkHandle) (bytes : Bytes)
      → IsTidy st
      → IsTidy (write_preallocated_chunk sha256 st handle bytes).1
  write_preallocated_chunk-IsTidy st handle bytes t =
      elim (write_preallocated-read_chunk sha256 st handle bytes) [
        | inl (f, _, _) ↦
            rw (write_preallocated-eq sha256 st handle bytes f)
              (written-IsTidy (entered st handle) handle bytes (entered-IsTidy st handle bytes f t))
        | inr (_, (e, same)) ↦ rw same t
      ]

-- The operations that change a store.
pub data Operation : Type 0 where
  allocates : ℕ → Operation
  writes writes_preallocated : ChunkHandle → Bytes → Operation

unfoldable pub operate : (Bytes → Bytes) → MemoryStore → List Operation → MemoryStore
operate sha256 st [] = st
operate sha256 st (allocates len ∷ operations) = operate sha256 (allocate_chunk st len).1 operations
operate sha256 st (writes handle bytes ∷ operations) =
    operate sha256 (write_chunk sha256 st handle bytes).1 operations
operate sha256 st (writes_preallocated handle bytes ∷ operations) =
    operate sha256 (write_preallocated_chunk sha256 st handle bytes).1 operations

pub operate-IsTidy :
    (sha256 : Bytes → Bytes) (st : MemoryStore) (operations : List Operation)
    → IsTidy st
    → IsTidy (operate sha256 st operations)
unfolding operate
operate-IsTidy sha256 st [] t = t
operate-IsTidy sha256 st (allocates len ∷ operations) t =
    operate-IsTidy sha256 (allocate_chunk st len).1 operations (allocate_chunk-IsTidy st len t)
operate-IsTidy sha256 st (writes handle bytes ∷ operations) t =
    operate-IsTidy sha256 (write_chunk sha256 st handle bytes).1 operations
      (write_chunk-IsTidy sha256 st handle bytes t)
operate-IsTidy sha256 st (writes_preallocated handle bytes ∷ operations) t =
    operate-IsTidy sha256 (write_preallocated_chunk sha256 st handle bytes).1 operations
      (write_preallocated_chunk-IsTidy sha256 st handle bytes t)

pub with_capacity-IsTidy : (capacity : ℕ) → IsTidy (with_capacity capacity)
unfolding with_capacity
with_capacity-IsTidy capacity = record { bounded = omega arith; used = tt }
