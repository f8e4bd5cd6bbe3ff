-- ===== src/Gateway/Clients/Local.antt =====
-- `LocalMasterClient` and `LocalStoreClient` of crates/gateway/src/clients.rs. The clock and SHA-256
-- are arguments.
use mooncache.Prelude.{ℕ, Bool, if◌then◌else◌, text}
use mooncache.Common.{CacheResult}
use mooncache.Master.State
use mooncache.Master.State.{MasterState}
use mooncache.Store.{ChunkHandle, StoreResult}
use mooncache.Store.Memory
use mooncache.Store.Memory.{Bytes, MemoryStore}
use mooncache.Gateway.Errors.{cache, store, poisoned_lock, GatewayResult, done, raised, Flow}
use mooncache.Gateway.Clients.{MasterClient, StoreClient, StoreChunk}

-- What the two clients hold, and whether their locks are poisoned.
pub record LocalCluster : Type 0 where
  pub master : MasterState
  pub master_poisoned : Bool
  pub memory : MemoryStore
  pub memory_poisoned : Bool

-- `map_err(Into::into)`
unfoldable pub from_cache {ℓ} : {A : Type ℓ} → CacheResult A → GatewayResult A
from_cache (CacheResult.ok a) = done a
from_cache (CacheResult.err e) = raised (cache e)

unfoldable pub from_store {ℓ} : {A : Type ℓ} → StoreResult A → GatewayResult A
from_store (StoreResult.ok a) = done a
from_store (StoreResult.err e) = raised (store e)

-- A call of the master under its lock.
unfoldable pub on_master :
    {A : Type 0} → (MasterState → CacheResult A × MasterState) → Flow LocalCluster A
unfolding from_cache
on_master call w =
    if w.master_poisoned
    then (raised poisoned_lock, w)
    else (from_cache (call w.master).0, record w { master = (call w.master).1 })

unfoldable pub local_master_client : ℕ → MasterClient LocalCluster
unfolding on_master
local_master_client now_ms = record {
  get_replica_list =
      λ tenant_id cache_key. on_master (λ m. State.get_replica_list m tenant_id cache_key now_ms);
  put_start = λ tenant_id cache_key len replica_count.
      on_master (λ m. State.put_start m tenant_id cache_key len replica_count);
  put_end = λ tenant_id cache_key. on_master (λ m. State.put_end m tenant_id cache_key);
  put_revoke = λ tenant_id cache_key. on_master (λ m. State.put_revoke m tenant_id cache_key);
}

unfoldable pub tagged_dram : GatewayResult Bytes → GatewayResult StoreChunk
tagged_dram (done bytes) = done (record { bytes = bytes; tier = text "dram" })
tagged_dram (raised e) = raised e

unfoldable pub local_read_chunk : (Bytes → Bytes) → ChunkHandle → Flow LocalCluster StoreChunk
unfolding from_store tagged_dram
local_read_chunk sha256 handle w =
    if w.memory_poisoned
    then (raised poisoned_lock, w)
    else (tagged_dram (from_store (Memory.read_chunk sha256 w.memory handle)), w)

unfoldable pub local_write_chunk :
    (Bytes → Bytes) → ChunkHandle → Bytes → Flow LocalCluster (Unit {0})
unfolding from_store
local_write_chunk sha256 handle bytes w =
    if w.memory_poisoned
    then (raised poisoned_lock, w)
    else let written = Memory.write_preallocated_chunk sha256 w.memory handle bytes in
      (from_store written.0, record w { memory = written.1 })

unfoldable pub local_store_client : (Bytes → Bytes) → StoreClient LocalCluster
unfolding local_read_chunk local_write_chunk
local_store_client sha256 = record {
  read_chunk = λ _ _ handle. local_read_chunk sha256 handle;
  write_preallocated_chunk = λ _ _ _ handle bytes. local_write_chunk sha256 handle bytes;
}
