-- ===== src/Master/State/WellFormed.antt =====
-- The invariant of `MasterState` (crates/master/src/state.rs): every operation keeps the maps
-- without duplicates, the objects under their own keys, and the used bytes of the quotas exact.
pub mod Start
use mooncache.Prelude.{
  ℕ, ◌+◌, ◌-◌, ◌≤◌, ◌≡◌, refl, sym, ◌∙◌, ◌⊎◌, inl, inr, Bool, true, false, List, [], ◌∷◌, none,
  some, arith, if◌then◌else◌, ◌==◌, lookup, insert, remove, Unique, Entries, insert-Unique,
  remove-Unique, insert-Entries, remove-Entries, lookup-Entries, Bool-cases, Option-cases,
  contains_key, contains_key-none, lookup-insert, map, saturating_add, Text, u64_max, leb, ltb,
}
use mooncache.Common.{
  CacheResult, CacheResult-cases, ok, err, TenantId, CacheKey, tenant_id_parse, tenant_id_eq,
  tenant_id_beq_iff, ObjectKey, object_key_eq,
}
use mooncache.Master.Object.{
  ObjectStatus, reserving, writing, committed, revoked, evicted, ReplicaDescriptor, CacheObjectMeta,
}
use mooncache.Master.Quota.{TenantQuota, with_usage}
use mooncache.Master.Allocator.{SegmentAllocation, SegmentAllocator, allocate}
use mooncache.Master.Eviction.{is_committed}
use mooncache.Master.State.{
  MasterState, object_key, with_status, quota_reserved_bytes, retire, put_revoke, remove_object,
  put_end, get_replica_list, set_tenant_quota, evict_candidate_keys, evict_for_tenant, candidates,
  put_start, put_start_allocated, reserved_object, replica_of, used_dram_from, reserve_tenant_quota,
  reserve_quota, release_quota,
}
use mooncache.Master.State.Evicting.{evict_for_tenant_inv}
use mooncache.Master.State.Accounting.{
  Objects, Accounted, reserved, reserved_by, share, release_quota-Unique, reserve_quota-Unique,
  used_dram_from-eq, Accounted-same, release-Accounted, reserve-Accounted, reserved-insert,
  reserved-insert_new, reserved-remove,
}

pub record IsWellFormed (s : MasterState) : Type 0 where
  pub objects_unique : Unique s.objects
  pub quotas_unique : Unique s.quotas
  pub keyed : Entries (λ k object. object_key object ≡ k) s.objects
  pub accounted : Accounted s.quotas s.objects

retire-share :
    (status : ObjectStatus) (objects : Objects) (tenant : TenantId) (key : CacheKey)
    (object : CacheObjectMeta) (other : TenantId)
    → (status ≡ revoked) ⊎ (status ≡ evicted)
    → lookup (tenant, key) objects ≡ some object
    → reserved other (insert (tenant, key) (with_status status object) objects)
        + share tenant (quota_reserved_bytes object) other
      ≡ reserved other objects
unfolding reserved_by quota_reserved_bytes
retire-share status objects tenant key object other gone found =
    ground (arith, reserved-insert (tenant, key) objects other (with_status status object) object)

-- Marking an object as revoked or evicted gives its bytes back.
pub retire-IsWellFormed :
    (status : ObjectStatus) (s : MasterState) (tenant : TenantId) (key : CacheKey)
    (object : CacheObjectMeta)
    → (status ≡ revoked) ⊎ (status ≡ evicted)
    → lookup (tenant, key) s.objects ≡ some object
    → IsWellFormed s
    → IsWellFormed (retire status s tenant key object)
unfolding retire
retire-IsWellFormed status s tenant key object gone found w = record {
  objects_unique = insert-Unique (tenant, key) _ s.objects w.objects_unique;
  quotas_unique = release_quota-Unique s.quotas tenant _ w.quotas_unique;
  keyed =
      insert-Entries _ (tenant, key) _ s.objects w.keyed
        (lookup-Entries _ (tenant, key) s.objects w.keyed found);
  accounted =
      release-Accounted s.quotas tenant _ s.objects _ w.accounted
        λ other. retire-share status s.objects tenant key object other gone found;
}

commit-same :
    (objects : Objects) (tenant : TenantId) (key : CacheKey) (object : CacheObjectMeta)
    (other : TenantId)
    → lookup (tenant, key) objects ≡ some object
    → quota_reserved_bytes (with_status committed object) ≡ quota_reserved_bytes object
    → reserved other (insert (tenant, key) (with_status committed object) objects)
      ≡ reserved other objects
unfolding reserved_by
commit-same objects tenant key object other found same =
    ground
      (arith, reserved-insert (tenant, key) objects other (with_status committed object) object)

-- A commit moves no bytes: the object has counted since its reservation.
commit-IsWellFormed :
    (s : MasterState) (tenant : TenantId) (key : CacheKey) (object : CacheObjectMeta)
    → lookup (tenant, key) s.objects ≡ some object
    → quota_reserved_bytes (with_status committed object) ≡ quota_reserved_bytes object
    → IsWellFormed s
    → IsWellFormed
        (record s { objects = insert (tenant, key) (with_status committed object) s.objects })
commit-IsWellFormed s tenant key object found same w = record {
  objects_unique = insert-Unique (tenant, key) _ s.objects w.objects_unique;
  quotas_unique = w.quotas_unique;
  keyed =
      insert-Entries _ (tenant, key) _ s.objects w.keyed
        (lookup-Entries _ (tenant, key) s.objects w.keyed found);
  accounted =
      Accounted-same s.quotas s.objects _ w.accounted
        λ other. commit-same s.objects tenant key object other found same;
}

remove-share :
    (objects : Objects) (tenant : TenantId) (key : CacheKey) (object : CacheObjectMeta)
    (other : TenantId)
    → lookup (tenant, key) objects ≡ some object
    → reserved other (remove (tenant, key) objects)
        + share tenant (quota_reserved_bytes object) other
      ≡ reserved other objects
unfolding reserved_by
remove-share objects tenant key object other found =
    ground (arith, reserved-remove (tenant, key) objects other object)

pub put_revoke-IsWellFormed :
    (s : MasterState) (tenant : TenantId) (key : CacheKey)
    → IsWellFormed s
    → IsWellFormed (put_revoke s tenant key).1
unfolding put_revoke
put_revoke-IsWellFormed s tenant key w = elim (Option-cases (lookup (tenant, key) s.objects)) [
  | inl missing ↦ rw (missing, put_revoke) w
  | inr (object, found) ↦
      rw (found, put_revoke) (retire-IsWellFormed revoked s tenant key object (inl refl) found w)
]

pub put_end-IsWellFormed :
    (s : MasterState) (tenant : TenantId) (key : CacheKey)
    → IsWellFormed s
    → IsWellFormed (put_end s tenant key).1
unfolding put_end quota_reserved_bytes
put_end-IsWellFormed s tenant key w = elim (Option-cases (lookup (tenant, key) s.objects)) [
  | inl missing ↦ rw (missing, put_end) w
  | inr (object, found) ↦ ground (
    arith,
    λ (same : quota_reserved_bytes (with_status committed object) ≡ quota_reserved_bytes object).
        commit-IsWellFormed s tenant key object found same w,
  )
]

pub remove_object-IsWellFormed :
    (s : MasterState) (tenant : TenantId) (key : CacheKey)
    → IsWellFormed s
    → IsWellFormed (remove_object s tenant key).1
unfolding remove_object
remove_object-IsWellFormed s tenant key w = elim (Option-cases (lookup (tenant, key) s.objects)) [
  | inl missing ↦ rw (missing, remove_object) w
  | inr (object, found) ↦
      rw (found, remove_object)
        (record {
          objects_unique = remove-Unique (tenant, key) s.objects w.objects_unique;
          quotas_unique = release_quota-Unique s.quotas tenant _ w.quotas_unique;
          keyed = remove-Entries _ (tenant, key) s.objects w.keyed;
          accounted =
              release-Accounted s.quotas tenant _ s.objects _ w.accounted
                λ other. remove-share s.objects tenant key object other found;
        })
]

-- A read moves leases only.
pub get_replica_list-IsWellFormed :
    (s : MasterState) (tenant : TenantId) (key : CacheKey) (now_ms : ℕ)
    → IsWellFormed s
    → IsWellFormed (get_replica_list s tenant key now_ms).1
unfolding get_replica_list
get_replica_list-IsWellFormed s tenant key now_ms w =
    elim (Option-cases (lookup (tenant, key) s.objects)) [
      | inl missing ↦ rw (missing, get_replica_list) w
      | inr (object, found) ↦ elim (Bool-cases (is_committed object.status)) [
        | inl live ↦
            rw (found, get_replica_list, live)
              (record {
                objects_unique = w.objects_unique;
                quotas_unique = w.quotas_unique;
                keyed = w.keyed;
                accounted = w.accounted;
              })
        | inr gone ↦ rw (found, get_replica_list, gone) w
      ]
    ]

pub evict_for_tenant-IsWellFormed :
    (s : MasterState) (tenant : TenantId) (target now_ms : ℕ)
    → IsWellFormed s
    → IsWellFormed (evict_for_tenant s tenant target now_ms).1
evict_for_tenant-IsWellFormed s tenant target now_ms =
    evict_for_tenant_inv IsWellFormed tenant
      (λ s key object found w.
        let w' = retire-IsWellFormed evicted s tenant key object (inr refl) found w in
        record {
          objects_unique = w'.objects_unique;
          quotas_unique = w'.quotas_unique;
          keyed = w'.keyed;
          accounted = w'.accounted;
        })
      s target now_ms
