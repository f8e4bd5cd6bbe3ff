-- ===== src/Master/State.antt =====
-- crates/master/src/state.rs. A method that takes `&mut self` returns its result and the new state,
-- also where it fails. The clock is an argument of the methods that read it.
pub mod Accounting
pub mod Evicting
pub mod Starting
pub mod WellFormed
pub mod Calls
mod Examples
pub mod Backing
pub mod Placement
pub mod Eviction
pub mod Frames
pub mod Statuses
pub mod Transitions
pub mod Lifecycle
pub mod Leased
pub mod Holding
pub mod Reading
pub mod Writes
pub mod Replicas
pub mod Snapshot
pub mod Spans
use mooncache.Prelude.{
  ℕ, ◌-◌, true, false, not, List, [], ◌∷◌, map, Option, none, some, ltb, leb, if◌then◌else◌, length,
  saturating_add, Text, text, ◌==◌, lookup, insert, remove, contains_key, collect_into,
}
use mooncache.Common.{
  CacheResult, ok, err, not_found, conflict, TenantId, tenant_id_parse, tenant_id_eq, CacheKey,
  ObjectKey, object_key_eq,
}
use mooncache.Master.Object.{
  ObjectStatus, reserving, writing, committed, revoked, evicted, ReplicaDescriptor, CacheObjectMeta,
}
use mooncache.Master.Quota.{TenantQuota, with_usage, reserve_dram, release_dram}
use mooncache.Master.Lease.{
  LeaseTracker, no_leases, ReplicaList, refresh, has_active_lease, drop_lease,
}
use mooncache.Master.Allocator.{
  SegmentAllocation, SegmentAllocator, no_segments, allocator_mount, allocate,
}
use mooncache.Master.Eviction.{
  EvictionCandidateClass, normal, soft_pinned, is_committed, candidate_class,
}

pub record MasterMetadataSnapshot : Type 0 where
  pub objects : List CacheObjectMeta
  pub quotas : List (TenantId × TenantQuota)
  pub evictions_total : ℕ

pub record MasterState : Type 0 where
  pub objects : List (ObjectKey × CacheObjectMeta)
  pub quotas : List (TenantId × TenantQuota)
  pub leases : LeaseTracker
  pub allocator : SegmentAllocator
  pub next_lease_sequence : ℕ
  pub evictions_total : ℕ

-- `MasterState::default`, which `new_for_test` returns.
abbrev pub default_state : MasterState
default_state = record {
  objects = [];
  quotas = [];
  leases = no_leases;
  allocator = no_segments;
  next_lease_sequence = 0;
  evictions_total = 0;
}

abbrev pub object_key : CacheObjectMeta → ObjectKey
object_key object = (object.tenant_id, object.cache_key)

unfoldable pub metadata_snapshot : MasterState → MasterMetadataSnapshot
metadata_snapshot s = record {
  objects = map (λ e. e.1) s.objects;
  quotas = s.quotas;
  evictions_total = s.evictions_total;
}

unfoldable pub from_metadata_snapshot : MasterMetadataSnapshot → MasterState
from_metadata_snapshot snapshot = record {
  objects = collect_into [] (map (λ object. (object_key object, object)) snapshot.objects);
  quotas = collect_into [] snapshot.quotas;
  leases = no_leases;
  allocator = no_segments;
  next_lease_sequence = 0;
  evictions_total = snapshot.evictions_total;
}

unfoldable pub mount_segment : MasterState → Text → ℕ → MasterState
mount_segment s node_id len = record s { allocator = allocator_mount s.allocator node_id len }

-- `observability_snapshot`: the number of objects and of evictions.
unfoldable pub observability_snapshot : MasterState → ℕ × ℕ
observability_snapshot s = (length s.objects, s.evictions_total)

unfoldable pub quota_reserved_bytes : CacheObjectMeta → ℕ
quota_reserved_bytes object = elim object.status [
  | reserving ↦ object.len
  | writing ↦ object.len
  | committed ↦ object.len
  | revoked ↦ 0
  | evicted ↦ 0
]

-- The fold of `set_tenant_quota` over the objects of a tenant.
unfoldable pub used_dram_from : TenantId → ℕ → List (ObjectKey × CacheObjectMeta) → ℕ
unfolding quota_reserved_bytes
used_dram_from tenant_id used [] = used
used_dram_from tenant_id used ((k, object) ∷ objects) =
    used_dram_from tenant_id
      (if object.tenant_id == tenant_id
        then saturating_add used (quota_reserved_bytes object)
        else used)
      objects

unfoldable pub set_tenant_quota : MasterState → Text → ℕ → ℕ → CacheResult (Unit {0}) × MasterState
unfolding used_dram_from with_usage
set_tenant_quota s tenant dram_bytes ssd_bytes = elim (tenant_id_parse tenant) [
  | err e ↦ (err e, s)
  | ok tenant_id ↦ (
    ok tt,
    record s {
      quotas =
          insert tenant_id (with_usage dram_bytes ssd_bytes (used_dram_from tenant_id 0 s.objects))
            s.quotas;
    },
  )
]

-- The bodies of `reserve_tenant_quota` and `release_tenant_quota`, on the map of the quotas: a
-- tenant that has no quota is not limited.
unfoldable pub reserve_quota :
    List (TenantId × TenantQuota) → TenantId → ℕ → CacheResult (List (TenantId × TenantQuota))
reserve_quota quotas tenant_id bytes = elim (lookup tenant_id quotas) [
  | none ↦ ok quotas
  | some quota ↦ elim (reserve_dram quota bytes) [
    | err e ↦ err e
    | ok quota' ↦ ok (insert tenant_id quota' quotas)
  ]
]

unfoldable pub release_quota :
    List (TenantId × TenantQuota) → TenantId → ℕ → List (TenantId × TenantQuota)
release_quota quotas tenant_id bytes = elim (lookup tenant_id quotas) [
  | none ↦ quotas
  | some quota ↦ insert tenant_id (release_dram quota bytes) quotas
]

unfoldable pub reserve_tenant_quota : MasterState → TenantId → ℕ → CacheResult MasterState
reserve_tenant_quota s tenant_id bytes = elim (reserve_quota s.quotas tenant_id bytes) [
  | err e ↦ err e
  | ok quotas ↦ ok (record s { quotas = quotas })
]

unfoldable pub release_tenant_quota : MasterState → TenantId → ℕ → MasterState
release_tenant_quota s tenant_id bytes = record s {
  quotas = release_quota s.quotas tenant_id bytes;
}

abbrev pub replica_of : SegmentAllocation → ReplicaDescriptor
replica_of allocation = record {
  node_id = allocation.node_id;
  offset = allocation.offset;
  len = allocation.len;
}

abbrev pub reserved_object : TenantId → CacheKey → ℕ → List ReplicaDescriptor → CacheObjectMeta
reserved_object tenant_id cache_key len replicas = record {
  tenant_id = tenant_id;
  cache_key = cache_key;
  len = len;
  status = reserving;
  replicas = replicas;
  hard_pinned = false;
  soft_pinned_until_ms = none;
}

-- The end of `put_start`, once the allocator has answered.
unfoldable pub put_start_allocated :
    TenantId
    → CacheKey
    → ℕ
    → MasterState
    → CacheResult (List SegmentAllocation) × SegmentAllocator
    → CacheResult (List ReplicaDescriptor) × MasterState
unfolding release_tenant_quota
put_start_allocated tenant_id cache_key len s (err e, allocator) =
    (err e, release_tenant_quota (record s { allocator = allocator }) tenant_id len)
put_start_allocated tenant_id cache_key len s (ok allocations, allocator) =
    let replicas = map replica_of allocations in
    let object = reserved_object tenant_id cache_key len replicas in
    (
      ok replicas,
      record s { allocator = allocator; objects = insert (tenant_id, cache_key) object s.objects },
    )

unfoldable pub put_start :
    MasterState → TenantId → CacheKey → ℕ → ℕ → CacheResult (List ReplicaDescriptor) × MasterState
unfolding reserve_tenant_quota put_start_allocated
put_start s tenant_id cache_key len replica_count =
    if contains_key (tenant_id, cache_key) s.objects
    then (err (conflict (text "object already exists")), s)
    else elim (reserve_tenant_quota s tenant_id len) [
      | err e ↦ (err e, s)
      | ok s' ↦
          put_start_allocated tenant_id cache_key len s' (allocate s'.allocator len replica_count)
    ]

-- The assignment `object.status = ..` through `object_mut`.
abbrev pub with_status : ObjectStatus → CacheObjectMeta → CacheObjectMeta
with_status status object = record object { status = status }

unfoldable pub put_end : MasterState → TenantId → CacheKey → CacheResult (Unit {0}) × MasterState
put_end s tenant_id cache_key = elim (lookup (tenant_id, cache_key) s.objects) [
  | none ↦ (err not_found, s)
  | some object ↦
      let done = record s {
        objects = insert (tenant_id, cache_key) (with_status committed object) s.objects;
      } in
      elim object.status [
        | reserving ↦ (ok tt, done)
        | writing ↦ (ok tt, done)
        | committed ↦ (err (conflict (text "object already committed")), s)
        | revoked ↦ (err (conflict (text "object is not writable")), s)
        | evicted ↦ (err (conflict (text "object is not writable")), s)
      ]
]

abbrev pub without_lease : MasterState → TenantId → CacheKey → MasterState
without_lease s tenant_id cache_key = record s { leases = drop_lease s.leases tenant_id cache_key }

-- What `put_revoke` and an eviction do to an object that is there.
unfoldable pub retire :
    ObjectStatus → MasterState → TenantId → CacheKey → CacheObjectMeta → MasterState
unfolding quota_reserved_bytes release_tenant_quota
retire status s tenant_id cache_key object =
    let marked = record s {
      objects = insert (tenant_id, cache_key) (with_status status object) s.objects;
    } in
    without_lease (release_tenant_quota marked tenant_id (quota_reserved_bytes object)) tenant_id
      cache_key

unfoldable pub put_revoke : MasterState → TenantId → CacheKey → CacheResult (Unit {0}) × MasterState
unfolding retire
put_revoke s tenant_id cache_key = elim (lookup (tenant_id, cache_key) s.objects) [
  | none ↦ (err not_found, s)
  | some object ↦ (ok tt, retire revoked s tenant_id cache_key object)
]

unfoldable pub get_replica_list :
    MasterState → TenantId → CacheKey → ℕ → CacheResult ReplicaList × MasterState
unfolding is_committed
get_replica_list s tenant_id cache_key now_ms = elim (lookup (tenant_id, cache_key) s.objects) [
  | none ↦ (err not_found, s)
  | some object ↦
      if not (is_committed object.status)
      then (err not_found, s)
      else (let sequence = saturating_add s.next_lease_sequence 1 in
          let (lease, leases) = refresh s.leases tenant_id cache_key sequence now_ms in
          (
            ok (record { replicas = object.replicas; lease = lease }),
            record s { next_lease_sequence = sequence; leases = leases },
          ))
]

-- `MasterState::remove`
unfoldable pub remove_object :
    MasterState → TenantId → CacheKey → CacheResult (Unit {0}) × MasterState
unfolding quota_reserved_bytes release_tenant_quota
remove_object s tenant_id cache_key = elim (lookup (tenant_id, cache_key) s.objects) [
  | none ↦ (err not_found, s)
  | some object ↦
      let removed = record s { objects = remove (tenant_id, cache_key) s.objects } in
      (
        ok tt,
        without_lease (release_tenant_quota removed tenant_id (quota_reserved_bytes object))
            tenant_id cache_key,
      )
]

-- The `match` on the class of a candidate: which of the two vectors the key joins.
unfoldable pub push_candidate :
    Option EvictionCandidateClass
    → CacheKey
    → List CacheKey × List CacheKey
    → List CacheKey × List CacheKey
push_candidate (some normal) cache_key (normals, soft_pinneds) = (cache_key ∷ normals, soft_pinneds)
push_candidate (some soft_pinned) cache_key (normals, soft_pinneds) =
    (normals, cache_key ∷ soft_pinneds)
push_candidate none cache_key keys = keys

-- The first loop of `evict_for_tenant`: the normal and the soft-pinned candidates, in the order of
-- the iteration.
unfoldable pub candidates :
    LeaseTracker → TenantId → ℕ → List (ObjectKey × CacheObjectMeta) → List CacheKey × List CacheKey
unfolding push_candidate
candidates leases tenant_id now_ms [] = ([], [])
candidates leases tenant_id now_ms (((object_tenant_id, cache_key), object) ∷ objects) =
    let keys = candidates leases tenant_id now_ms objects in
    if not (object_tenant_id == tenant_id)
    then keys
    else push_candidate
        (candidate_class object (has_active_lease leases object_tenant_id cache_key now_ms) now_ms)
        cache_key keys

-- The loop of `evict_candidate_keys`, from the bytes reclaimed so far.
unfoldable pub evict_candidate_keys :
    TenantId → ℕ → List CacheKey → ℕ → MasterState → ℕ × MasterState
unfolding quota_reserved_bytes retire
evict_candidate_keys tenant_id target [] reclaimed s = (reclaimed, s)
evict_candidate_keys tenant_id target (cache_key ∷ cache_keys) reclaimed s =
    elim (leb target reclaimed) [
      | true ↦ (reclaimed, s)
      | false ↦ elim (lookup (tenant_id, cache_key) s.objects) [
        | none ↦ evict_candidate_keys tenant_id target cache_keys reclaimed s
        | some object ↦
            let s' = retire evicted s tenant_id cache_key object in
            evict_candidate_keys tenant_id target cache_keys
              (saturating_add reclaimed (quota_reserved_bytes object))
              (record s' { evictions_total = saturating_add s'.evictions_total 1 })
      ]
    ]

unfoldable pub evict_for_tenant : MasterState → TenantId → ℕ → ℕ → CacheResult ℕ × MasterState
unfolding candidates evict_candidate_keys
evict_for_tenant s tenant_id target now_ms =
    let (normals, soft_pinneds) = candidates s.leases tenant_id now_ms s.objects in
    let (reclaimed, s') = evict_candidate_keys tenant_id target normals 0 s in
    if ltb reclaimed target
    then (let (more, s'') = evict_candidate_keys tenant_id (target - reclaimed) soft_pinneds 0 s' in
        (ok (saturating_add reclaimed more), s''))
    else (ok reclaimed, s')
