-- ===== src/Gateway/CacheFlow/Cached.antt =====
-- The reads and writes of the cache in crates/gateway/src/cache_flow.rs.
use mooncache.Prelude.{
  ℕ, Bool, true, false, List, [], ◌∷◌, Option, none, some, leb, length, u64_max, if◌then◌else◌,
  Text, text,
}
use mooncache.Common
use mooncache.Common.{TenantId, CacheKey, CacheError}
use mooncache.Json.{Json}
use mooncache.Master.Object.{ReplicaDescriptor}
use mooncache.Master.Lease.{ReplicaList}
use mooncache.Store.{ChunkHandle, StoreResult, from_replica}
use mooncache.Store.Memory.{Bytes}
use mooncache.Gateway.Errors.{
  GatewayError, cache, store, reservation_revoke_failed, gateway_error_text, GatewayResult, done,
  raised, Flow, continue, ◌>>=◌, ◌>>◌, pure, lift,
}
use mooncache.Gateway.Clients.{StoreChunk}
use mooncache.Gateway.Streaming.{
  CapturedStream, CachedStreamObject, from_json, cached_body_from_bytes, stream_object_from_bytes,
  serialize_stream_object,
}
use mooncache.Gateway.CacheFlow.{Environment, GatewayState, CacheWriteStatus, committed, on_world}

pub record CachedPayload (A : Type 0) : Type 0 where
  pub value : A
  pub tier : Text

-- `ChunkHandle::from_replica(..)?`
unfoldable pub handle_of : ReplicaDescriptor → GatewayResult ChunkHandle
handle_of replica = elim (from_replica replica) [
  | StoreResult.ok handle ↦ done handle
  | StoreResult.err e ↦ raised (store e)
]

-- `replicas.into_iter().next()`
abbrev pub first_replica : List ReplicaDescriptor → Option ReplicaDescriptor
first_replica [] = none
first_replica (replica ∷ replicas) = some replica

unfoldable pub is_not_found : GatewayError → Bool
is_not_found (cache Common.not_found) = true
is_not_found _ = false

-- `Err(GatewayError::Cache(CacheError::NotFound)) => return Ok(None)`
unfoldable pub found_replica : GatewayResult ReplicaList → GatewayResult (Option ReplicaDescriptor)
unfolding is_not_found
found_replica (done replica_list) = done (first_replica replica_list.replicas)
found_replica (raised e) = if is_not_found e then done none else raised e

-- The error that a failed revocation leaves.
unfoldable pub revoke_error : GatewayError → GatewayResult (Unit {0}) → GatewayError
revoke_error write_error (done _) = write_error
revoke_error write_error (raised e) =
    reservation_revoke_failed (gateway_error_text write_error) (gateway_error_text e)

-- `u64::try_from(bytes.len())`
abbrev pub byte_length : Bytes → GatewayResult ℕ
byte_length bytes =
    if leb (length bytes) u64_max
    then done (length bytes)
    else raised
        (cache (Common.conflict (text "response body is too large to cache on this platform")))

module _ {W Number : Type 0} (env : Environment W Number) where
  -- `master_get_replica_list` and the `match` on its answer.
  unfoldable pub read_replica :
      TenantId → CacheKey → Flow (GatewayState W Number) (Option ReplicaDescriptor)
  unfolding found_replica on_world
  read_replica tenant_id cache_key s =
      let (answer, s') = on_world (env.master_client.get_replica_list tenant_id cache_key) s in
      (found_replica answer, s')

  -- The read of the first replica.
  unfoldable pub read_first :
      TenantId
      → CacheKey
      → Option ReplicaDescriptor
      → Flow (GatewayState W Number) (Option StoreChunk)
  unfolding handle_of on_world continue
  read_first tenant_id cache_key none = pure none
  read_first tenant_id cache_key (some replica) = do
    handle ← lift (handle_of replica)
    chunk ← on_world (env.store_client.read_chunk tenant_id cache_key handle)
    pure (some chunk)

  unfoldable pub read_cached_bytes :
      TenantId → CacheKey → Flow (GatewayState W Number) (Option StoreChunk)
  unfolding read_replica read_first continue
  read_cached_bytes tenant_id cache_key = do
    replica ← read_replica tenant_id cache_key
    read_first tenant_id cache_key replica

  -- The body of a chunk that was read.
  unfoldable pub payload_body :
      Option StoreChunk → GatewayResult (Option (CachedPayload (Json Number)))
  payload_body none = done none
  payload_body (some chunk) = elim (from_json (cached_body_from_bytes env.codec chunk.bytes)) [
    | raised e ↦ raised e
    | done value ↦ done (some (record { value = value; tier = chunk.tier }))
  ]

  unfoldable pub read_cached_body :
      TenantId → CacheKey → Flow (GatewayState W Number) (Option (CachedPayload (Json Number)))
  unfolding read_cached_bytes payload_body continue
  read_cached_body tenant_id cache_key = do
    chunk ← read_cached_bytes tenant_id cache_key
    lift (payload_body chunk)

  -- The stream object of a chunk that was read.
  unfoldable pub payload_stream :
      Option StoreChunk → GatewayResult (Option (CachedPayload (CachedStreamObject Number)))
  payload_stream none = done none
  payload_stream (some chunk) = elim (from_json (stream_object_from_bytes env.codec chunk.bytes)) [
    | raised e ↦ raised e
    | done none ↦ done none
    | done (some value) ↦ done (some (record { value = value; tier = chunk.tier }))
  ]

  unfoldable pub read_cached_stream_object :
      TenantId
      → CacheKey
      → Flow (GatewayState W Number) (Option (CachedPayload (CachedStreamObject Number)))
  unfolding read_cached_bytes payload_stream continue
  read_cached_stream_object tenant_id cache_key = do
    chunk ← read_cached_bytes tenant_id cache_key
    lift (payload_stream chunk)

  unfoldable pub write_reserved_replicas :
      TenantId → CacheKey → List ReplicaDescriptor → Bytes → Flow (GatewayState W Number) (Unit {0})
  unfolding handle_of on_world continue
  write_reserved_replicas tenant_id cache_key [] bytes = pure tt
  write_reserved_replicas tenant_id cache_key (replica ∷ replicas) bytes = do
    handle ← lift (handle_of replica)
    on_world
        (env.store_client.write_preallocated_chunk replica.node_id tenant_id cache_key handle bytes)
    write_reserved_replicas tenant_id cache_key replicas bytes

  unfoldable pub revoke_reservation_after_write_failure :
      {A : Type 0} → TenantId → CacheKey → GatewayError → Flow (GatewayState W Number) A
  unfolding on_world revoke_error
  revoke_reservation_after_write_failure tenant_id cache_key write_error s =
      let (answer, s') = on_world (env.master_client.put_revoke tenant_id cache_key) s in
      (raised (revoke_error write_error answer), s')

  -- `if let Err(err) = .. { return Err(revoke_reservation_after_write_failure(..)) }`
  unfoldable pub or_revoke :
      TenantId
      → CacheKey
      → Flow (GatewayState W Number) (Unit {0})
      → Flow (GatewayState W Number) (Unit {0})
  unfolding revoke_reservation_after_write_failure
  or_revoke tenant_id cache_key attempt s = elim (attempt s).0 [
    | done _ ↦ (done tt, (attempt s).1)
    | raised e ↦ revoke_reservation_after_write_failure tenant_id cache_key e (attempt s).1
  ]

  -- `REPLICA_COUNT` is 1.
  unfoldable pub write_cached_bytes :
      TenantId → CacheKey → Bytes → Flow (GatewayState W Number) CacheWriteStatus
  unfolding on_world write_reserved_replicas or_revoke continue
  write_cached_bytes tenant_id cache_key bytes = do
    len ← lift (byte_length bytes)
    replicas ← on_world (env.master_client.put_start tenant_id cache_key len 1)
    or_revoke tenant_id cache_key (write_reserved_replicas tenant_id cache_key replicas bytes)
    or_revoke tenant_id cache_key (on_world (env.master_client.put_end tenant_id cache_key))
    pure committed

  unfoldable pub write_cached_body :
      TenantId → CacheKey → Json Number → Flow (GatewayState W Number) CacheWriteStatus
  unfolding write_cached_bytes continue
  write_cached_body tenant_id cache_key body = do
    bytes ← lift (from_json (env.codec.to_vec body))
    write_cached_bytes tenant_id cache_key bytes

  unfoldable pub write_cached_stream_object :
      TenantId → CacheKey → CapturedStream Number → Flow (GatewayState W Number) CacheWriteStatus
  unfolding write_cached_bytes continue
  write_cached_stream_object tenant_id cache_key captured = do
    bytes ← lift (from_json (serialize_stream_object env.codec captured))
    write_cached_bytes tenant_id cache_key bytes
