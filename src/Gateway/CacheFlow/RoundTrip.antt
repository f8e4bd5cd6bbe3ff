-- ===== src/Gateway/CacheFlow/RoundTrip.antt =====
-- crates/gateway/src/cache_flow.rs over the local clients: bytes that are written are read back.
use mooncache.Prelude.{
  ℕ, ◌≡◌, refl, sym, ap, subst, ◌∙◌, inl, inr, false, List, [], ◌∷◌, some, arith, length, text,
  saturating_add,
}
use mooncache.Common.{CacheResult, TenantId, CacheKey}
use mooncache.Master.Object.{ReplicaDescriptor}
use mooncache.Master.Lease.{ReplicaList, lease_new_at}
use mooncache.Master.State.{MasterState, put_start, put_end, get_replica_list}
use mooncache.Master.State.Writes.{put_start-put_end-read}
use mooncache.Master.State.Replicas.{put_start-length}
use mooncache.Store.{ChunkHandle, StoreResult}
use mooncache.Store.Memory
use mooncache.Store.Memory.{Bytes, MemoryStore}
use mooncache.Store.Memory.Preallocated.{write_preallocated-read_chunk}
use mooncache.Gateway.Errors.{GatewayResult, done, Flow, continue, GatewayResult-cases}
use mooncache.Gateway.Clients.{StoreChunk}
use mooncache.Gateway.Clients.Local.{
  LocalCluster, on_master, local_write_chunk, from_cache, local_master_client, local_store_client,
}
use mooncache.Gateway.CacheFlow.{Environment, GatewayState, CacheWriteStatus, committed, on_world}
use mooncache.Gateway.CacheFlow.Cached.{
  handle_of, first_replica, found_replica, read_replica, read_first, read_cached_bytes,
  write_reserved_replicas, or_revoke, revoke_reservation_after_write_failure, byte_length,
  write_cached_bytes,
}
use mooncache.Gateway.CacheFlow.Local.{
  locally, continue-inv, on_master_sound, on_master-done, local_write_chunk-done,
  local_read_chunk_sound,
}

-- What a later read needs of the cluster.
pub record Holds (sha256 : Bytes → Bytes) (tenant : TenantId) (key : CacheKey) (bytes : Bytes)
    (w : LocalCluster) : Type 0 where
  pub replica : ReplicaDescriptor
  pub handle : ChunkHandle
  pub at_handle : handle_of replica ≡ done handle
  pub master_sound : w.master_poisoned ≡ false
  pub memory_sound : w.memory_poisoned ≡ false
  pub listed :
      (later : ℕ)
      → (answer : ReplicaList) × ((get_replica_list w.master tenant key later).0
          ≡ CacheResult.ok answer)
        × (first_replica answer.replicas ≡ some replica)
  pub stored : Memory.read_chunk sha256 w.memory handle ≡ StoreResult.ok bytes

abbrev chunk_of : Bytes → StoreChunk
chunk_of bytes = record { bytes = bytes; tier = text "dram" }

module _ {Number : Type 0} (env : Environment LocalCluster Number) (sha256 : Bytes → Bytes) where
  read_first-eq :
      (later : ℕ) (tenant : TenantId) (key : CacheKey) (bytes : Bytes)
      (s : GatewayState LocalCluster Number) (replica : ReplicaDescriptor) (handle : ChunkHandle)
      → handle_of replica ≡ done handle
      → s.world.memory_poisoned ≡ false
      → Memory.read_chunk sha256 s.world.memory handle ≡ StoreResult.ok bytes
      → (read_first (locally later sha256 env) tenant key (some replica) s).0
        ≡ done (some (chunk_of bytes))
  unfolding read_first continue on_world local_store_client
  read_first-eq later tenant key bytes s replica handle at_handle sound stored = rw (
    read_first,
    at_handle,
    continue,
    on_world,
    local_store_client,
    local_read_chunk_sound sha256 handle s.world bytes sound stored,
  )

  Holds-read_cached_bytes :
      (later : ℕ) (tenant : TenantId) (key : CacheKey) (bytes : Bytes)
      (s : GatewayState LocalCluster Number)
      → Holds sha256 tenant key bytes s.world
      → (read_cached_bytes (locally later sha256 env) tenant key s).0 ≡ done (some (chunk_of bytes))
  unfolding read_cached_bytes read_replica continue on_world local_master_client from_cache
      found_replica
  Holds-read_cached_bytes later tenant key bytes s h =
      let (answer, listed, first) = h.listed later in
      let call : MasterState → CacheResult ReplicaList × MasterState =
        λ m. get_replica_list m tenant key later in
      rw
        (
          read_cached_bytes,
          read_replica,
          on_world,
          local_master_client,
          on_master_sound call s.world h.master_sound,
          listed,
          from_cache,
          found_replica,
          continue,
          first,
        )
        (read_first-eq later tenant key bytes
          (record s { world = record s.world { master = (call s.world.master).1 } }) h.replica
          h.handle h.at_handle h.memory_sound h.stored)

  -- An attempt that needed no revocation was done.
  or_revoke-done :
      (now_ms : ℕ) (tenant : TenantId) (key : CacheKey)
      (attempt : Flow (GatewayState LocalCluster Number) (Unit {0}))
      (s : GatewayState LocalCluster Number)
      → (or_revoke (locally now_ms sha256 env) tenant key attempt s).0 ≡ done tt
      → ((attempt s).0 ≡ done tt)
        × ((or_revoke (locally now_ms sha256 env) tenant key attempt s).1 ≡ (attempt s).1)
  unfolding or_revoke revoke_reservation_after_write_failure
  or_revoke-done now_ms tenant key attempt s = elim (GatewayResult-cases (attempt s).0) [
    | inl (_, ok) ↦ rw (ok, or_revoke) (λ h. (refl, refl))
    | inr (e, bad) ↦ rw (bad, or_revoke, revoke_reservation_after_write_failure) (λ h. cc)
  ]

  -- A write of one replica that succeeds.
  write_one-done :
      (now_ms : ℕ) (tenant : TenantId) (key : CacheKey) (replica : ReplicaDescriptor)
      (bytes : Bytes) (s : GatewayState LocalCluster Number)
      → (write_reserved_replicas (locally now_ms sha256 env) tenant key (replica ∷ []) bytes s).0
        ≡ done tt
      → (handle : ChunkHandle) × (handle_of replica ≡ done handle)
        × ((local_write_chunk sha256 handle bytes s.world).0 ≡ done tt)
        × ((write_reserved_replicas (locally now_ms sha256 env) tenant key (replica ∷ []) bytes s).1
            ≡ record s { world = (local_write_chunk sha256 handle bytes s.world).1 })
  unfolding write_reserved_replicas continue on_world local_store_client
  write_one-done now_ms tenant key replica bytes s =
      elim (GatewayResult-cases (handle_of replica)) [
        | inr (e, bad) ↦ rw (bad, write_reserved_replicas, continue) (λ h. cc)
        | inl (handle, good) ↦
            elim (GatewayResult-cases (local_write_chunk sha256 handle bytes s.world).0) [
              | inr (e, bad) ↦
                  rw (good, write_reserved_replicas, continue, on_world, local_store_client, bad)
                    (λ h. cc)
              | inl (_, ok) ↦
                  rw (good, write_reserved_replicas, continue, on_world, local_store_client, ok)
                    (λ h. (handle, refl, ok, refl))
            ]
      ]

one_replica :
    (replicas : List ReplicaDescriptor)
    → length replicas ≡ 1
    → (replica : ReplicaDescriptor) × (replicas ≡ replica ∷ [])
one_replica [] h = cc
one_replica (replica ∷ []) h = (replica, refl)
one_replica (replica ∷ other ∷ replicas) h = ground (arith, h)

module _ (sha256 : Bytes → Bytes) (tenant : TenantId) (key : CacheKey) (bytes : Bytes)
    (len : ℕ) where
  -- The cluster after the calls of a write that succeeds.
  written-Holds :
      (w w1 w2 w3 : LocalCluster) (replica : ReplicaDescriptor) (handle : ChunkHandle)
      → handle_of replica ≡ done handle
      → (on_master (λ m. put_start m tenant key len 1) w).0 ≡ done (replica ∷ [])
      → (on_master (λ m. put_start m tenant key len 1) w).1 ≡ w1
      → (local_write_chunk sha256 handle bytes w1).0 ≡ done tt
      → (local_write_chunk sha256 handle bytes w1).1 ≡ w2
      → (on_master (λ m. put_end m tenant key) w2).0 ≡ done tt
      → (on_master (λ m. put_end m tenant key) w2).1 ≡ w3
      → Holds sha256 tenant key bytes w3
  written-Holds w w1 w2 w3 replica handle at_handle started is_w1 stored is_w2 ended is_w3 =
      let (sound, start_ok, e1) =
        on_master-done (λ m. put_start m tenant key len 1) w (replica ∷ []) started in
      let (memory_sound, write_ok, e2) = local_write_chunk-done sha256 handle w1 bytes stored in
      let (sound2, end_ok, e3) = on_master-done (λ m. put_end m tenant key) w2 tt ended in
      let m1 : w1.master ≡ (put_start w.master tenant key len 1).1 =
        ap (λ (x : LocalCluster). x.master) (sym is_w1 ∙ e1) in
      let m2 : w2.master ≡ w1.master = ap (λ (x : LocalCluster). x.master) (sym is_w2 ∙ e2) in
      let m3 : w3.master ≡ (put_end w2.master tenant key).1 =
        ap (λ (x : LocalCluster). x.master) (sym is_w3 ∙ e3) in
      let same : (put_end (put_start w.master tenant key len 1).1 tenant key).1 ≡ w3.master =
        ap (λ (m : MasterState). (put_end m tenant key).1) (sym (m2 ∙ m1)) ∙ sym m3 in
      let kept : w3.memory ≡ (Memory.write_preallocated_chunk sha256 w1.memory handle bytes).1 =
        ap (λ (x : LocalCluster). x.memory) (sym is_w3 ∙ e3)
        ∙ ap (λ (x : LocalCluster). x.memory) (sym is_w2 ∙ e2) in
      record {
        replica = replica;
        handle = handle;
        at_handle = at_handle;
        master_sound = ap (λ (x : LocalCluster). x.master_poisoned) (sym is_w3 ∙ e3) ∙ sound2;
        memory_sound =
            ap (λ (x : LocalCluster). x.memory_poisoned) (sym is_w3 ∙ e3)
            ∙ ap (λ (x : LocalCluster). x.memory_poisoned) (sym is_w2 ∙ e2)
            ∙ memory_sound;
        listed = λ later.
            let (_, _, read) =
              put_start-put_end-read w.master tenant key len 1 later (replica ∷ []) start_ok in
            let answer : ReplicaList = record {
              replicas = replica ∷ [];
              lease = lease_new_at (saturating_add w.master.next_lease_sequence 1) later;
            } in
            (
              answer,
              subst
                  (λ (m : MasterState).
                    (get_replica_list m tenant key later).0 ≡ CacheResult.ok answer)
                  same read,
              refl,
            );
        stored =
            ap (λ (m : MemoryStore). Memory.read_chunk sha256 m handle) kept
            ∙ elim (write_preallocated-read_chunk sha256 w1.memory handle bytes) [
              | inl (_, _, back) ↦ back
              | inr (_, (e, refused)) ↦ ground (arith, refused, write_ok)
            ];
      }

-- A write of the cache that is committed, with the master and the store in the same process: a read
-- at any later time, with no call in between, finds the bytes in memory.
pub write-read_cached_bytes :
    {Number : Type 0} (env : Environment LocalCluster Number) (sha256 : Bytes → Bytes)
    (now_ms later : ℕ) (tenant : TenantId) (key : CacheKey) (bytes : Bytes)
    (s s' : GatewayState LocalCluster Number)
    → write_cached_bytes (locally now_ms sha256 env) tenant key bytes s ≡ (done committed, s')
    → (read_cached_bytes (locally later sha256 env) tenant key s').0
      ≡ done (some (record { bytes = bytes; tier = text "dram" }))
unfolding write_cached_bytes on_world local_master_client
write-read_cached_bytes {Number} env sha256 now_ms later tenant key bytes s s' h =
    let local = locally now_ms sha256 env in
    let (len, _, h1) = continue-inv (byte_length bytes, s) _ committed s' h in
    let start : MasterState → CacheResult (List ReplicaDescriptor) × MasterState =
      λ m. put_start m tenant key len 1 in
    let (replicas, started, h2) = continue-inv (on_world (on_master start) s) _ committed s' h1 in
    let (_, start_ok, _) = on_master-done start s.world replicas started in
    let (replica, one) =
      one_replica replicas (put_start-length s.world.master tenant key len 1 replicas start_ok) in
    let s1 = (on_world (on_master start) s).1 in
    let storing : Flow (GatewayState LocalCluster Number) (Unit {0}) =
      write_reserved_replicas local tenant key (replica ∷ []) bytes in
    let ending : Flow (GatewayState LocalCluster Number) (Unit {0}) =
      on_world (on_master (λ m. put_end m tenant key)) in
    let h2_one =
      subst
        (λ (rs : List ReplicaDescriptor).
          continue
            (or_revoke local tenant key (write_reserved_replicas local tenant key rs bytes) s1)
            (λ _ t. continue (or_revoke local tenant key ending t) (λ _ u. (done committed, u)))
          ≡ (done committed, s'))
        one h2 in
    let (_, stored_ok, h3) =
      continue-inv (or_revoke local tenant key storing s1) _ committed s' h2_one in
    let (stored, same2) = or_revoke-done env sha256 now_ms tenant key storing s1 stored_ok in
    let (handle, at_handle, written, e2) =
      write_one-done env sha256 now_ms tenant key replica bytes s1 stored in
    let s2 = (or_revoke local tenant key storing s1).1 in
    let (_, ended_ok, h4) = continue-inv (or_revoke local tenant key ending s2) _ committed s' h3 in
    let (ended, same3) = or_revoke-done env sha256 now_ms tenant key ending s2 ended_ok in
    let last : (or_revoke local tenant key ending s2).1 ≡ s' =
      ap (λ (r : GatewayResult CacheWriteStatus × GatewayState LocalCluster Number). r.1) h4 in
    Holds-read_cached_bytes env sha256 later tenant key bytes s' (
      written-Holds sha256 tenant key bytes len s.world s1.world s2.world s'.world replica handle
        at_handle
        (subst (λ (rs : List ReplicaDescriptor). (on_master start s.world).0 ≡ done rs) one started)
        refl written (ap (λ (t : GatewayState LocalCluster Number). t.world) (sym (same2 ∙ e2)))
        ended (ap (λ (t : GatewayState LocalCluster Number). t.world) (sym same3 ∙ last)))
