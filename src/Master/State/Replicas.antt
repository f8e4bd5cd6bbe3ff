-- ===== src/Master/State/Replicas.antt =====
-- crates/master/src/state.rs: how many replicas a write gets, and what a revoked write leaves.
use mooncache.Prelude.{
  ℕ, ◌≡◌, refl, sym, ap, ◌∙◌, List, [], ◌∷◌, map, arith, length, lookup, lookup-insert_self, some,
  insert, insert-insert,
}
use mooncache.Common.{CacheResult, ok, err, not_found, TenantId, CacheKey, ObjectKey, object_key_eq}
use mooncache.Master.Object.{ReplicaDescriptor, revoked, CacheObjectMeta}
use mooncache.Master.Allocator.{SegmentAllocation, SegmentAllocator, allocate}
use mooncache.Master.Allocator.Claim.{allocate-claim}
use mooncache.Master.State.{
  MasterState, replica_of, reserved_object, with_status, put_start, put_start_allocated, put_revoke,
  retire, get_replica_list, release_tenant_quota, release_quota, quota_reserved_bytes,
}
use mooncache.Master.Eviction.{is_committed}
use mooncache.Master.State.Starting.{put_start_cases}
use mooncache.Master.Quota.{TenantQuota}
use mooncache.Master.State.Writes.{reserve_back, put_start-ok, get_replica_list-unready}

length-replicas :
    (allocations : List SegmentAllocation)
    → length (map replica_of allocations) ≡ length allocations
length-replicas [] = refl
length-replicas (allocation ∷ allocations) = ground (arith, length-replicas allocations)

put_start_allocated-length :
    (tenant : TenantId) (key : CacheKey) (len replica_count : ℕ) (s : MasterState)
    (answer : CacheResult (List SegmentAllocation) × SegmentAllocator)
    (replicas : List ReplicaDescriptor)
    → ((allocations : List SegmentAllocation) (a : SegmentAllocator)
        → answer ≡ (ok allocations, a)
        → length allocations ≡ replica_count)
    → (put_start_allocated tenant key len s answer).0 ≡ ok replicas
    → length replicas ≡ replica_count
unfolding put_start_allocated
put_start_allocated-length tenant key len replica_count s (err e, a) replicas counted done = cc
put_start_allocated-length tenant key len replica_count s (ok allocations, a) replicas counted
      done =
    let same : map replica_of allocations ≡ replicas = cc in
    ap (λ rs. length rs) (sym same) ∙ length-replicas allocations ∙ counted allocations a refl

-- A write that starts gets as many replicas as it asks for.
pub put_start-length :
    (s : MasterState) (tenant : TenantId) (key : CacheKey) (len replica_count : ℕ)
    (replicas : List ReplicaDescriptor)
    → (put_start s tenant key len replica_count).0 ≡ ok replicas
    → length replicas ≡ replica_count
put_start-length s tenant key len replica_count replicas =
    put_start_cases
      (λ (r : CacheResult (List ReplicaDescriptor) × MasterState).
        r.0 ≡ ok replicas → length replicas ≡ replica_count)
      s tenant key len replica_count (λ e done. cc)
      (λ quotas free charged.
        put_start_allocated-length tenant key len replica_count (record s { quotas = quotas })
          (allocate s.allocator len replica_count) replicas
          (λ allocations a answered.
            (allocate-claim s.allocator a len replica_count allocations answered).1))

-- A write that was started can be revoked, and its object cannot be read then.
pub put_start-put_revoke-read :
    (s : MasterState) (tenant : TenantId) (key : CacheKey) (len replica_count now_ms : ℕ)
    (replicas : List ReplicaDescriptor)
    → (put_start s tenant key len replica_count).0 ≡ ok replicas
    → let started = (put_start s tenant key len replica_count).1 in
      ((put_revoke started tenant key).0 ≡ ok tt)
      × (get_replica_list (put_revoke started tenant key).1 tenant key now_ms
          ≡ (err not_found, (put_revoke started tenant key).1))
unfolding put_revoke retire release_tenant_quota is_committed
put_start-put_revoke-read s tenant key len replica_count now_ms replicas done =
    let started = (put_start s tenant key len replica_count).1 in
    let object = reserved_object tenant key len replicas in
    let found = (put_start-ok s tenant key len replica_count replicas done).0 in
    let gone : lookup (tenant, key) (retire revoked started tenant key object).objects
        ≡ some (with_status revoked object) =
      lookup-insert_self (tenant, key) (with_status revoked object) started.objects in
    (
      rw (found, put_revoke),
      rw (found, put_revoke)
          (get_replica_list-unready (retire revoked started tenant key object) tenant key
            (with_status revoked object) now_ms gone refl),
    )

put_start_allocated-undone :
    (tenant : TenantId) (key : CacheKey) (len : ℕ) (s : MasterState)
    (answer : CacheResult (List SegmentAllocation) × SegmentAllocator)
    (quotas : List (TenantId × TenantQuota)) (replicas : List ReplicaDescriptor)
    → release_quota s.quotas tenant len ≡ quotas
    → (put_start_allocated tenant key len s answer).0 ≡ ok replicas
    → ((put_start_allocated tenant key len s answer).1.objects
        ≡ insert (tenant, key) (reserved_object tenant key len replicas) s.objects)
      × (release_quota (put_start_allocated tenant key len s answer).1.quotas tenant len ≡ quotas)
unfolding put_start_allocated
put_start_allocated-undone tenant key len s (err e, a) quotas replicas back done = cc
put_start_allocated-undone tenant key len s (ok allocations, a) quotas replicas back done =
    let same : map replica_of allocations ≡ replicas = cc in
    (
      ap
          (λ (rs : List ReplicaDescriptor).
            insert (tenant, key) (reserved_object tenant key len rs) s.objects)
          same,
      back,
    )

-- A write that was started enters its object, and charges bytes that can be given back.
put_start-undone :
    (s : MasterState) (tenant : TenantId) (key : CacheKey) (len replica_count : ℕ)
    (replicas : List ReplicaDescriptor)
    → (put_start s tenant key len replica_count).0 ≡ ok replicas
    → ((put_start s tenant key len replica_count).1.objects
        ≡ insert (tenant, key) (reserved_object tenant key len replicas) s.objects)
      × (release_quota (put_start s tenant key len replica_count).1.quotas tenant len ≡ s.quotas)
put_start-undone s tenant key len replica_count replicas =
    put_start_cases
      (λ (r : CacheResult (List ReplicaDescriptor) × MasterState).
        r.0 ≡ ok replicas
        → (r.1.objects ≡ insert (tenant, key) (reserved_object tenant key len replicas) s.objects)
          × (release_quota r.1.quotas tenant len ≡ s.quotas))
      s tenant key len replica_count (λ e done. cc)
      (λ quotas free charged.
        put_start_allocated-undone tenant key len (record s { quotas = quotas })
          (allocate s.allocator len replica_count) s.quotas replicas
          (reserve_back s.quotas quotas tenant len charged))

-- A write that was started and revoked has left a revoked object, and its bytes are given back.
pub put_start-put_revoke :
    (s : MasterState) (tenant : TenantId) (key : CacheKey) (len replica_count : ℕ)
    (replicas : List ReplicaDescriptor)
    → (put_start s tenant key len replica_count).0 ≡ ok replicas
    → let started = (put_start s tenant key len replica_count).1 in
      ((put_revoke started tenant key).1.objects
        ≡ insert
            (tenant, key)
            (with_status revoked (reserved_object tenant key len replicas))
            s.objects)
      × ((put_revoke started tenant key).1.quotas ≡ s.quotas)
unfolding put_revoke retire release_tenant_quota quota_reserved_bytes
put_start-put_revoke s tenant key len replica_count replicas done =
    let started = (put_start s tenant key len replica_count).1 in
    let object = reserved_object tenant key len replicas in
    let gone = with_status revoked object in
    let found = (put_start-ok s tenant key len replica_count replicas done).0 in
    let (entered, back) = put_start-undone s tenant key len replica_count replicas done in
    (
      rw (found, put_revoke)
          (ap (λ (objects : List (ObjectKey × CacheObjectMeta)). insert (tenant, key) gone objects)
              entered
            ∙ insert-insert (tenant, key) object gone s.objects),
      rw (found, put_revoke) back,
    )
