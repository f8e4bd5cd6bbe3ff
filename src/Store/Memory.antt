-- ===== src/Store/Memory.antt =====
-- crates/store/src/memory.rs: chunks in one arena in memory. `checksum::sha256` comes from the crate
-- sha2, so it is a parameter of the operations that call it.
pub mod ReadWrite
pub mod Others
pub mod Preallocated
pub mod Invariant
pub mod Fresh
mod Examples
use mooncache.Prelude.{
  ℕ, ◌+◌, ◌-◌, zero, suc, max, ◌≡◌, not, List, [], ◌∷◌, Option, none, some, ltb, eqb, if◌then◌else◌,
  length, checked_add, nat_eq, Text, text_eq, ◌==◌, lookup, insert,
}
use mooncache.Store.{
  StoreError, StoreResult, ok, err, empty_chunk, unwritten_chunk, insufficient_capacity,
  invalid_handle, length_mismatch, checksum_mismatch, ChunkHandle, is_empty,
}
use mooncache.Store.Slices.{splice, get_range}

abbrev pub Bytes : Type 0
Bytes = List ℕ

pub record ChunkMeta : Type 0 where
  pub len : ℕ
  pub checksum : Option Bytes

pub record MemoryStore : Type 0 where
  pub arena : Bytes
  pub next_offset : ℕ
  pub allocations : List (ℕ × ChunkMeta)

abbrev pub zeros : ℕ → Bytes
zeros zero = []
zeros (suc n) = 0 ∷ zeros n

unfoldable pub with_capacity : ℕ → MemoryStore
with_capacity capacity = record { arena = zeros capacity; next_offset = 0; allocations = [] }

unfoldable pub available_capacity : MemoryStore → ℕ
available_capacity st = length st.arena - st.next_offset

-- `capacity_snapshot`: the bytes used and the capacity in memory; those of the disk are 0.
unfoldable pub capacity_snapshot : MemoryStore → ℕ × ℕ
capacity_snapshot st = (st.next_offset, length st.arena)

abbrev pub unwritten : ℕ → ChunkMeta
unwritten len = record { len = len; checksum = none }

-- `MemoryStore::allocate`
unfoldable pub allocate_chunk : MemoryStore → ℕ → StoreResult ChunkHandle × MemoryStore
unfolding available_capacity
allocate_chunk st len =
    if eqb len 0 then (err empty_chunk, st) else elim (checked_add st.next_offset len) [
      | none ↦ (err (insufficient_capacity len (available_capacity st)), st)
      | some end ↦
          if ltb (length st.arena) end
          then (err (insufficient_capacity len (available_capacity st)), st)
          else (
            ok (record { offset = st.next_offset; len = len }),
            record st {
              next_offset = end;
              allocations = insert st.next_offset (unwritten len) st.allocations;
            },
          )
    ]

abbrev pub invalid {ℓ} : {A : Type ℓ} → ChunkHandle → StoreResult A
invalid handle = err (invalid_handle handle.offset handle.len)

unfoldable pub chunk_end : ChunkHandle → StoreResult ℕ
chunk_end handle = elim (checked_add handle.offset handle.len) [
  | none ↦ invalid handle
  | some end ↦ ok end
]

unfoldable pub validate_allocated_handle : MemoryStore → ChunkHandle → StoreResult ChunkMeta
unfolding chunk_end
validate_allocated_handle st handle = elim (lookup handle.offset st.allocations) [
  | none ↦ invalid handle
  | some meta ↦ if not (eqb meta.len handle.len) then invalid handle else elim (chunk_end handle) [
    | err e ↦ err e
    | ok end ↦ if ltb (length st.arena) end then invalid handle else ok meta
  ]
]

unfoldable pub validate_preallocated_handle : MemoryStore → ChunkHandle → ℕ → StoreResult (Unit {0})
unfolding chunk_end is_empty
validate_preallocated_handle st handle write_len =
    if is_empty handle
    then err empty_chunk
    else if not (eqb write_len handle.len)
    then err (length_mismatch handle.len write_len)
    else elim (chunk_end handle) [
      | err e ↦ err e
      | ok end ↦
          if ltb (length st.arena) end
          then err (insufficient_capacity handle.len (length st.arena - handle.offset))
          else ok tt
    ]

module _ (sha256 : Bytes → Bytes) where
  -- `if let Some(meta) = self.allocations.get_mut(..) { meta.checksum = Some(checksum) }`
  unfoldable pub set_checksum : ℕ → Bytes → List (ℕ × ChunkMeta) → List (ℕ × ChunkMeta)
  set_checksum offset bytes allocations = elim (lookup offset allocations) [
    | none ↦ allocations
    | some meta ↦ insert offset (record meta { checksum = some (sha256 bytes) }) allocations
  ]

  unfoldable pub write_chunk :
      MemoryStore → ChunkHandle → Bytes → StoreResult (Unit {0}) × MemoryStore
  unfolding validate_allocated_handle chunk_end set_checksum
  write_chunk st handle bytes = elim (validate_allocated_handle st handle) [
    | err e ↦ (err e, st)
    | ok meta ↦
        if not (eqb (length bytes) handle.len)
        then (err (length_mismatch handle.len (length bytes)), st)
        else elim (chunk_end handle) [
          | err e ↦ (err e, st)
          | ok end ↦ elim (get_range handle.offset end st.arena) [
            | none ↦ (invalid handle, st)
            | some destination ↦ (
              ok tt,
              record st {
                arena = splice handle.offset bytes st.arena;
                allocations = set_checksum handle.offset bytes st.allocations;
              },
            )
          ]
        ]
  ]

  unfoldable pub write_preallocated_chunk :
      MemoryStore → ChunkHandle → Bytes → StoreResult (Unit {0}) × MemoryStore
  unfolding write_chunk validate_preallocated_handle chunk_end
  write_preallocated_chunk st handle bytes =
      elim (validate_preallocated_handle st handle (length bytes)) [
        | err e ↦ (err e, st)
        | ok _ ↦
            let reserved = record st {
              allocations = insert handle.offset (unwritten handle.len) st.allocations;
            } in
            elim (chunk_end handle) [
              | err e ↦ (err e, reserved)
              | ok end ↦
                  write_chunk (record reserved { next_offset = max st.next_offset end }) handle
                    bytes
            ]
      ]

  unfoldable pub read_chunk : MemoryStore → ChunkHandle → StoreResult Bytes
  unfolding validate_allocated_handle chunk_end
  read_chunk st handle = elim (validate_allocated_handle st handle) [
    | err e ↦ err e
    | ok meta ↦ elim meta.checksum [
      | none ↦ err unwritten_chunk
      | some expected_checksum ↦ elim (chunk_end handle) [
        | err e ↦ err e
        | ok end ↦ elim (get_range handle.offset end st.arena) [
          | none ↦ invalid handle
          | some bytes ↦
              if not (sha256 bytes == expected_checksum)
              then err (checksum_mismatch handle.offset)
              else ok bytes
        ]
      ]
    ]
  ]
