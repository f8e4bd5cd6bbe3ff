-- ===== src/Gateway/Clients.antt =====
-- crates/gateway/src/clients.rs: what the gateway asks of the master and of the stores, and the
-- clients that hold them in the same process. A client changes the world `W`.
pub mod Local
use mooncache.Prelude.{ℕ, List, Text}
use mooncache.Common.{TenantId, CacheKey}
use mooncache.Master.Object.{ReplicaDescriptor}
use mooncache.Master.Lease.{ReplicaList}
use mooncache.Store.{ChunkHandle}
use mooncache.Store.Memory.{Bytes}
use mooncache.Gateway.Errors.{Flow}

pub record MasterClient (W : Type 0) : Type 0 where
  pub get_replica_list : TenantId → CacheKey → Flow W ReplicaList
  pub put_start : TenantId → CacheKey → ℕ → ℕ → Flow W (List ReplicaDescriptor)
  pub put_end : TenantId → CacheKey → Flow W (Unit {0})
  pub put_revoke : TenantId → CacheKey → Flow W (Unit {0})

pub record StoreChunk : Type 0 where
  pub bytes : Bytes
  pub tier : Text

pub record StoreClient (W : Type 0) : Type 0 where
  pub read_chunk : TenantId → CacheKey → ChunkHandle → Flow W StoreChunk
  pub write_preallocated_chunk :
      Text → TenantId → CacheKey → ChunkHandle → Bytes → Flow W (Unit {0})
