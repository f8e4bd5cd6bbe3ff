-- ===== src/Gateway/CacheFlow/Counting.antt =====
-- crates/gateway/src/cache_flow.rs: every request that is answered is counted once among the cache
-- statuses and once among the writes, and one that fails is not.
use mooncache.Prelude.{
  ℕ, ◌+◌, ◌%◌, ◌^◌, ◌≡◌, refl, ap, ◌∙◌, inl, inr, List, [], ◌∷◌, Option, none, some, arith,
  wrapping_add,
}
use mooncache.Common.{TenantId, CacheKey}
use mooncache.Common.Metrics
use mooncache.Common.Metrics.{
  GatewayMetrics, ObservedCacheStatus, ObservedWriteStatus, SingleflightRole, record_cache_status,
  record_write, record_singleflight, record_vendor_call,
}
use mooncache.Json.{Json}
use mooncache.Master.Object.{ReplicaDescriptor}
use mooncache.Store.Memory.{Bytes}
use mooncache.Gateway.Errors.{
  GatewayResult, done, raised, GatewayResult-cases, Flow, continue, ◌>>=◌, lift,
}
use mooncache.Gateway.Streaming.{from_json, CapturedStream, serialize_stream_object}
use mooncache.Gateway.CacheFlow.{Environment, GatewayState, CacheWriteStatus, on_world}
use mooncache.Gateway.CacheFlow.Cached
use mooncache.Gateway.CacheFlow.Cached.{
  read_replica, read_first, read_cached_bytes, read_cached_body, read_cached_stream_object,
  write_reserved_replicas, or_revoke, revoke_reservation_after_write_failure, write_cached_bytes,
  write_cached_body, write_cached_stream_object, CachedPayload,
}
use mooncache.Gateway.CacheFlow.Respond.{noted}

-- The sum of the counters of the cache statuses, and that of the writes.
unfoldable pub statuses_total : GatewayMetrics → ℕ
statuses_total m =
    m.cache_hits + m.cache_misses + m.cache_bypasses + m.cache_ineligible + m.cache_only_misses
    + m.cache_degraded

unfoldable pub writes_total : GatewayMetrics → ℕ
writes_total m = m.writes_committed + m.writes_failed + m.writes_skipped

-- A measure that grows by one, modulo 64 bits, when a status and a write are recorded.
pub record IsTally (μ : GatewayMetrics → ℕ) : Type 0 where
  pub grows :
      (m : GatewayMetrics) (status : ObservedCacheStatus) (write : ObservedWriteStatus)
      → μ (record_write (record_cache_status m status) write) % 2 ^ 64 ≡ (μ m + 1) % 2 ^ 64
  pub keeps_role :
      (m : GatewayMetrics) (role : SingleflightRole) → μ (record_singleflight m role) ≡ μ m
  pub keeps_call : (m : GatewayMetrics) (micros : ℕ) → μ (record_vendor_call m micros) ≡ μ m

statuses_of_write :
    (m : GatewayMetrics) (write : ObservedWriteStatus)
    → statuses_total (record_write m write) ≡ statuses_total m
unfolding record_write statuses_total
statuses_of_write m Metrics.write_committed = refl
statuses_of_write m Metrics.write_failed = refl
statuses_of_write m Metrics.write_skipped = refl

statuses_of_status :
    (m : GatewayMetrics) (status : ObservedCacheStatus)
    → statuses_total (record_cache_status m status) % 2 ^ 64 ≡ (statuses_total m + 1) % 2 ^ 64
unfolding record_cache_status statuses_total wrapping_add
statuses_of_status m Metrics.hit = omega arith
statuses_of_status m Metrics.miss = omega arith
statuses_of_status m Metrics.bypass = omega arith
statuses_of_status m Metrics.ineligible = omega arith
statuses_of_status m Metrics.cache_only_miss = omega arith
statuses_of_status m Metrics.degraded = omega arith

statuses_of_role :
    (m : GatewayMetrics) (role : SingleflightRole)
    → statuses_total (record_singleflight m role) ≡ statuses_total m
unfolding record_singleflight statuses_total
statuses_of_role m Metrics.leader = refl
statuses_of_role m Metrics.waiter = refl
statuses_of_role m Metrics.no_role = refl
statuses_of_role m Metrics.over_capacity = refl

pub statuses-IsTally : IsTally statuses_total
unfolding record_vendor_call statuses_total
statuses-IsTally = record {
  grows = λ m status write.
      ap (λ n. n % 2 ^ 64) (statuses_of_write (record_cache_status m status) write)
      ∙ statuses_of_status m status;
  keeps_role = λ m role. statuses_of_role m role;
  keeps_call = λ m micros. refl;
}

writes_of_write :
    (m : GatewayMetrics) (write : ObservedWriteStatus)
    → writes_total (record_write m write) % 2 ^ 64 ≡ (writes_total m + 1) % 2 ^ 64
unfolding record_write writes_total wrapping_add
writes_of_write m Metrics.write_committed = omega arith
writes_of_write m Metrics.write_failed = omega arith
writes_of_write m Metrics.write_skipped = omega arith

writes_of_status :
    (m : GatewayMetrics) (status : ObservedCacheStatus)
    → writes_total (record_cache_status m status) ≡ writes_total m
unfolding record_cache_status writes_total
writes_of_status m Metrics.hit = refl
writes_of_status m Metrics.miss = refl
writes_of_status m Metrics.bypass = refl
writes_of_status m Metrics.ineligible = refl
writes_of_status m Metrics.cache_only_miss = refl
writes_of_status m Metrics.degraded = refl

writes_of_role :
    (m : GatewayMetrics) (role : SingleflightRole)
    → writes_total (record_singleflight m role) ≡ writes_total m
unfolding record_singleflight writes_total
writes_of_role m Metrics.leader = refl
writes_of_role m Metrics.waiter = refl
writes_of_role m Metrics.no_role = refl
writes_of_role m Metrics.over_capacity = refl

pub writes-IsTally : IsTally writes_total
unfolding record_vendor_call writes_total
writes-IsTally = record {
  grows = λ m status write.
      writes_of_write (record_cache_status m status) write
      ∙ ap (λ n. (n + 1) % 2 ^ 64) (writes_of_status m status);
  keeps_role = λ m role. writes_of_role m role;
  keeps_call = λ m micros. refl;
}

-- Whether there is an answer, as a number.
unfoldable pub answers : {A : Type 0} → GatewayResult A → ℕ
answers (done a) = 1
answers (raised e) = 0

module _ {W Number : Type 0} where
  -- A part of a handler that leaves the metrics.
  pub record IsStill {A : Type 0} (m : Flow (GatewayState W Number) A) : Type 0 where
    pub same : (s : GatewayState W Number) → (m s).1.metrics ≡ s.metrics

  pub lift-IsStill : {A : Type 0} (r : GatewayResult A) → IsStill {A = A} (lift r)
  lift-IsStill r = record { same = λ s. refl }

  pub on_world-IsStill : {A : Type 0} (call : Flow W A) → IsStill (on_world call)
  unfolding on_world
  on_world-IsStill call = record { same = λ s. refl }

  continue-same :
      {A B : Type 0} (r : GatewayResult A × GatewayState W Number)
      (f : A → Flow (GatewayState W Number) B)
      → ((a : A) → IsStill (f a))
      → (continue r f).1.metrics ≡ r.1.metrics
  unfolding continue
  continue-same (done a, t) f next = (next a).same t
  continue-same (raised e, t) f next = refl

  pub bind-IsStill :
      {A B : Type 0} (m : Flow (GatewayState W Number) A) (f : A → Flow (GatewayState W Number) B)
      → IsStill m
      → ((a : A) → IsStill (f a))
      → IsStill (m >>= f)
  bind-IsStill m f first next = record { same = λ s. continue-same (m s) f next ∙ first.same s }

  module _ (env : Environment W Number) (tenant : TenantId) (key : CacheKey) where
    read_first-IsStill :
        (replica : Option ReplicaDescriptor) → IsStill (read_first env tenant key replica)
    unfolding read_first
    read_first-IsStill none = record { same = λ s. refl }
    read_first-IsStill (some replica) =
        bind-IsStill (lift (Cached.handle_of replica)) _ (lift-IsStill (Cached.handle_of replica))
          (λ handle.
            bind-IsStill (on_world (env.store_client.read_chunk tenant key handle)) _
              (on_world-IsStill (env.store_client.read_chunk tenant key handle))
              (λ chunk. lift-IsStill (done (some chunk))))

    read_replica-IsStill : IsStill (read_replica env tenant key)
    unfolding read_replica on_world
    read_replica-IsStill = record { same = λ s. refl }

    read_cached_bytes-IsStill : IsStill (read_cached_bytes env tenant key)
    unfolding read_cached_bytes
    read_cached_bytes-IsStill =
        bind-IsStill (read_replica env tenant key) _ read_replica-IsStill
          (λ replica. read_first-IsStill replica)

    pub read_cached_body-IsStill : IsStill (read_cached_body env tenant key)
    unfolding read_cached_body
    read_cached_body-IsStill =
        bind-IsStill (read_cached_bytes env tenant key) _ read_cached_bytes-IsStill
          (λ chunk. lift-IsStill (Cached.payload_body env chunk))

    pub read_cached_stream_object-IsStill : IsStill (read_cached_stream_object env tenant key)
    unfolding read_cached_stream_object
    read_cached_stream_object-IsStill =
        bind-IsStill (read_cached_bytes env tenant key) _ read_cached_bytes-IsStill
          (λ chunk. lift-IsStill (Cached.payload_stream env chunk))

    write_reserved_replicas-IsStill :
        (replicas : List ReplicaDescriptor) (bytes : Bytes)
        → IsStill (write_reserved_replicas env tenant key replicas bytes)
    unfolding write_reserved_replicas
    write_reserved_replicas-IsStill [] bytes = lift-IsStill (done tt)
    write_reserved_replicas-IsStill (replica ∷ replicas) bytes =
        bind-IsStill (lift (Cached.handle_of replica)) _ (lift-IsStill (Cached.handle_of replica))
          (λ handle.
            let call =
              env.store_client.write_preallocated_chunk replica.node_id tenant key handle bytes in
            bind-IsStill (on_world call) _ (on_world-IsStill call)
              (λ _. write_reserved_replicas-IsStill replicas bytes))

    or_revoke-IsStill :
        (attempt : Flow (GatewayState W Number) (Unit {0}))
        → IsStill attempt
        → IsStill (or_revoke env tenant key attempt)
    unfolding or_revoke revoke_reservation_after_write_failure on_world
    or_revoke-IsStill attempt still = record {
      same = λ s. elim (GatewayResult-cases (attempt s).0) [
        | inl (_, ok) ↦ rw (ok, or_revoke) (still.same s)
        | inr (e, bad) ↦ rw (bad, or_revoke, revoke_reservation_after_write_failure) (still.same s)
      ];
    }

    write_cached_bytes-IsStill : (bytes : Bytes) → IsStill (write_cached_bytes env tenant key bytes)
    unfolding write_cached_bytes
    write_cached_bytes-IsStill bytes =
        bind-IsStill (lift (Cached.byte_length bytes)) _ (lift-IsStill (Cached.byte_length bytes))
          (λ len.
            bind-IsStill (on_world (env.master_client.put_start tenant key len 1)) _
              (on_world-IsStill (env.master_client.put_start tenant key len 1))
              (λ replicas.
                let storing = write_reserved_replicas env tenant key replicas bytes in
                let ending = on_world (env.master_client.put_end tenant key) in
                bind-IsStill (or_revoke env tenant key storing) _
                  (or_revoke-IsStill storing (write_reserved_replicas-IsStill replicas bytes))
                  (λ _.
                    bind-IsStill (or_revoke env tenant key ending) _
                      (or_revoke-IsStill ending
                        (on_world-IsStill (env.master_client.put_end tenant key)))
                      (λ _. lift-IsStill (done CacheWriteStatus.committed)))))

    pub write_cached_body-IsStill :
        (body : Json Number) → IsStill (write_cached_body env tenant key body)
    unfolding write_cached_body
    write_cached_body-IsStill body =
        bind-IsStill (lift (from_json (env.codec.to_vec body))) _
          (lift-IsStill (from_json (env.codec.to_vec body)))
          (λ bytes. write_cached_bytes-IsStill bytes)

    pub write_cached_stream_object-IsStill :
        (captured : CapturedStream Number)
        → IsStill (write_cached_stream_object env tenant key captured)
    unfolding write_cached_stream_object
    write_cached_stream_object-IsStill captured =
        bind-IsStill (lift (from_json (serialize_stream_object env.codec captured))) _
          (lift-IsStill (from_json (serialize_stream_object env.codec captured)))
          (λ bytes. write_cached_bytes-IsStill bytes)

  pub noted-IsStill :
      (attempt : Flow (GatewayState W Number) CacheWriteStatus)
      → IsStill attempt
      → IsStill (noted attempt)
  unfolding noted
  noted-IsStill attempt still = record { same = λ s. still.same s }
