-- ===== src/Store.antt =====
-- crates/store/src/lib.rs and crates/store/src/chunk.rs: errors and chunk handles. `usize` has 64
-- bits, so the conversions from `u64` and back are exact; out of range `usize::try_from` fails.
pub mod Slices
pub mod Memory
use mooncache.Prelude.{ℕ, ◌≡◌, refl, ◌⊎◌, inl, inr, Bool, leb, eqb, ◌&&◌, if◌then◌else◌, u64_max}
use mooncache.Master.Object.{ReplicaDescriptor}

pub data StoreError : Type 0 where
  empty_chunk unwritten_chunk : StoreError
  insufficient_capacity : (requested available : ℕ) → StoreError
  invalid_handle : (offset len : ℕ) → StoreError
  length_mismatch : (expected actual : ℕ) → StoreError
  checksum_mismatch : (offset : ℕ) → StoreError

pub data StoreResult {ℓ} (A : Type ℓ) : Type ℓ where
  ok : A → StoreResult A
  err : StoreError → StoreResult A

pub StoreResult-cases {ℓ} :
    {A : Type ℓ} (r : StoreResult A) → ((a : A) × (r ≡ ok a)) ⊎ ((e : StoreError) × (r ≡ err e))
StoreResult-cases (ok a) = inl (a, refl)
StoreResult-cases (err e) = inr (e, refl)

pub record ChunkHandle : Type 0 where
  pub offset : ℕ
  pub len : ℕ

-- `ChunkHandle::is_empty`
unfoldable pub is_empty : ChunkHandle → Bool
is_empty handle = eqb handle.len 0

unfoldable pub from_replica : ReplicaDescriptor → StoreResult ChunkHandle
from_replica replica =
    if leb replica.offset u64_max && leb replica.len u64_max
    then ok (record { offset = replica.offset; len = replica.len })
    else err (invalid_handle replica.offset replica.len)
