-- ===== src/Master/State/WellFormed/Start.antt =====
-- `set_tenant_quota` and `put_start` of crates/master/src/state.rs keep the invariant.
use mooncache.Prelude.{
  ℕ, ◌+◌, ◌≤◌, ◌≡◌, refl, sym, inl, inr, List, [], none, arith, lookup, insert, insert-Unique,
  insert-Entries, lookup-insert, map, Text, u64_max,
}
use mooncache.Common.{
  CacheResult, CacheResult-cases, ok, err, TenantId, CacheKey, tenant_id_parse, tenant_id_eq,
  tenant_id_beq_iff, object_key_eq,
}
use mooncache.Master.Object.{ReplicaDescriptor}
use mooncache.Master.Quota.{TenantQuota, with_usage}
use mooncache.Master.Allocator.{SegmentAllocation, SegmentAllocator, allocate}
use mooncache.Master.State.{
  MasterState, quota_reserved_bytes, set_tenant_quota, put_start, put_start_allocated,
  reserved_object, replica_of, used_dram_from, reserve_quota,
}
use mooncache.Master.State.Accounting.{
  Objects, Accounted, reserved, reserved_by, share, release_quota-Unique, reserve_quota-Unique,
  used_dram_from-eq, release-Accounted, reserve-Accounted, reserved-insert_new,
}
use mooncache.Master.State.Starting.{put_start_cases}
use mooncache.Master.State.WellFormed.{IsWellFormed}

-- A quota that is set anew starts with the bytes that the tenant holds.
fresh-Accounted :
    (s : MasterState) (tenant : TenantId) (dram_bytes ssd_bytes : ℕ)
    → reserved tenant s.objects ≤ u64_max
    → IsWellFormed s
    → Accounted
        (insert tenant
          (with_usage dram_bytes ssd_bytes (used_dram_from tenant 0 s.objects))
          s.quotas)
        s.objects
unfolding with_usage
fresh-Accounted s tenant dram_bytes ssd_bytes fits w other quota found = ground (
  arith,
  w.accounted other quota,
  used_dram_from-eq tenant 0 s.objects w.keyed,
  tenant_id_beq_iff tenant other,
  lookup-insert tenant other (with_usage dram_bytes ssd_bytes (used_dram_from tenant 0 s.objects))
      s.quotas,
)

pub set_tenant_quota-IsWellFormed :
    (s : MasterState) (name : Text) (dram_bytes ssd_bytes : ℕ)
    → ((tenant : TenantId) → reserved tenant s.objects ≤ u64_max)
    → IsWellFormed s
    → IsWellFormed (set_tenant_quota s name dram_bytes ssd_bytes).1
unfolding set_tenant_quota
set_tenant_quota-IsWellFormed s name dram_bytes ssd_bytes fits w =
    elim (CacheResult-cases (tenant_id_parse name)) [
      | inr (e, bad) ↦ rw (bad, set_tenant_quota) w
      | inl (tenant, good) ↦
          rw (good, set_tenant_quota)
            (record {
              objects_unique = w.objects_unique;
              quotas_unique = insert-Unique tenant _ s.quotas w.quotas_unique;
              keyed = w.keyed;
              accounted = fresh-Accounted s tenant dram_bytes ssd_bytes (fits tenant) w;
            })
    ]

reserve-share :
    (objects : Objects) (tenant : TenantId) (key : CacheKey) (len : ℕ)
    (replicas : List ReplicaDescriptor) (other : TenantId)
    → lookup (tenant, key) objects ≡ none
    → reserved other (insert (tenant, key) (reserved_object tenant key len replicas) objects)
      ≡ reserved other objects + share tenant len other
unfolding reserved_by quota_reserved_bytes
reserve-share objects tenant key len replicas other free = ground (
  arith,
  reserved-insert_new (tenant, key) objects other (reserved_object tenant key len replicas),
)

-- After the reservation: with the allocations the object takes the bytes, without them the
-- reservation is undone.
put_start_allocated-IsWellFormed :
    (s : MasterState) (tenant : TenantId) (key : CacheKey) (len : ℕ)
    (quotas : List (TenantId × TenantQuota))
    → lookup (tenant, key) s.objects ≡ none
    → reserve_quota s.quotas tenant len ≡ ok quotas
    → IsWellFormed s
    → (r : CacheResult (List SegmentAllocation) × SegmentAllocator)
    → IsWellFormed (put_start_allocated tenant key len (record s { quotas = quotas }) r).1
unfolding put_start_allocated
put_start_allocated-IsWellFormed s tenant key len quotas free done w (err e, allocator) = record {
  objects_unique = w.objects_unique;
  quotas_unique =
      release_quota-Unique quotas tenant len
        (reserve_quota-Unique s.quotas quotas tenant len w.quotas_unique done);
  keyed = w.keyed;
  accounted =
      let filled = insert (tenant, key) (reserved_object tenant key len []) s.objects in
      release-Accounted quotas tenant len filled s.objects
        (reserve-Accounted s.quotas tenant len s.objects filled quotas done w.accounted
          λ other. reserve-share s.objects tenant key len [] other free)
        λ other. sym (reserve-share s.objects tenant key len [] other free);
}
put_start_allocated-IsWellFormed s tenant key len quotas free done w (ok allocations, allocator) =
    let object = reserved_object tenant key len (map replica_of allocations) in
    record {
      objects_unique = insert-Unique (tenant, key) object s.objects w.objects_unique;
      quotas_unique = reserve_quota-Unique s.quotas quotas tenant len w.quotas_unique done;
      keyed = insert-Entries _ (tenant, key) object s.objects w.keyed refl;
      accounted =
          reserve-Accounted s.quotas tenant len s.objects _ quotas done w.accounted
            λ other. reserve-share s.objects tenant key len (map replica_of allocations) other free;
    }

pub put_start-IsWellFormed :
    (s : MasterState) (tenant : TenantId) (key : CacheKey) (len replica_count : ℕ)
    → IsWellFormed s
    → IsWellFormed (put_start s tenant key len replica_count).1
put_start-IsWellFormed s tenant key len replica_count w =
    put_start_cases (λ r. IsWellFormed r.1) s tenant key len replica_count (λ e. w)
      λ quotas free done.
        put_start_allocated-IsWellFormed s tenant key len quotas free done w
          (allocate s.allocator len replica_count)
