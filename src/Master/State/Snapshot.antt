-- ===== src/Master/State/Snapshot.antt =====
-- The metadata snapshot of crates/master/src/state.rs and what comes back from it.
use mooncache.Prelude.{
  ℕ, ◌≡◌, refl, ap, ◌∙◌, List, [], ◌∷◌, map, Option, none, some, arith, Text, lookup, insert,
  collect_into, Unique, Entries, Eq, lookup-insert, checked_add,
}
use mooncache.Common.{
  CacheResult, ok, err, TenantId, tenant_id_eq, CacheKey, ObjectKey, object_key_eq,
}
use mooncache.Master.Object.{CacheObjectMeta, ReplicaDescriptor}
use mooncache.Master.Allocator.{
  SegmentAllocation, SegmentAllocator, allocate, allocator_mount, take_from, fitting_indexes,
  can_fit,
}
use mooncache.Master.State.{
  MasterState, metadata_snapshot, from_metadata_snapshot, mount_segment, object_key, put_start,
  put_start_allocated, replica_of,
}
use mooncache.Master.State.Starting.{put_start_cases}
use mooncache.Master.State.Accounting.{Objects}
use mooncache.Master.State.WellFormed.{IsWellFormed}

-- The first of two lookups that finds something.
abbrev or_else {ℓ} : {A : Type ℓ} → Option A → Option A → Option A
or_else none o = o
or_else (some a) o = some a

or_else-none {ℓ} : {A : Type ℓ} (o : Option A) → or_else o none ≡ o
or_else-none none = refl
or_else-none (some a) = refl

module _ {ℓ κ} {K : Type ℓ} {V : Type κ} ⦃e : Eq K⦄ where
  lookup-collect_into :
      (k : K) (m pairs : List (K × V))
      → Unique pairs
      → lookup k (collect_into m pairs) ≡ or_else (lookup k pairs) (lookup k m)
  unfolding collect_into lookup
  lookup-collect_into k m [] u = refl
  lookup-collect_into k m ((j, v) ∷ pairs) u =
      ground (
        arith,
        e.decides j k,
        lookup-insert j k v m,
        lookup-collect_into k (insert j v m) pairs u.1,
      )

  -- A map collected from the entries of a map finds the same.
  lookup-collect : (k : K) (m : List (K × V)) → Unique m → lookup k (collect_into [] m) ≡ lookup k m
  unfolding lookup
  lookup-collect k m u = lookup-collect_into k [] m u ∙ or_else-none (lookup k m)

keyed_again :
    (objects : Objects)
    → Entries (λ k object. object_key object ≡ k) objects
    → map
        (λ (object : CacheObjectMeta). (object_key object, object))
        (map (λ (e : ObjectKey × CacheObjectMeta). e.1) objects)
      ≡ objects
keyed_again [] keyed = refl
keyed_again ((k, object) ∷ objects) keyed = let again = keyed_again objects keyed.1 in cc

-- A state that is restored from its own snapshot has the objects, the quotas and the counter of
-- evictions that it had; the leases and the mounted segments are gone.
pub from_metadata_snapshot-metadata_snapshot :
    (s : MasterState) (k : ObjectKey) (tenant : TenantId)
    → IsWellFormed s
    → let restored = from_metadata_snapshot (metadata_snapshot s) in
      (lookup k restored.objects ≡ lookup k s.objects)
      × (lookup tenant restored.quotas ≡ lookup tenant s.quotas)
      × (restored.evictions_total ≡ s.evictions_total)
      × (restored.leases.leases ≡ [])
      × (restored.allocator.segments ≡ [])
unfolding from_metadata_snapshot metadata_snapshot
from_metadata_snapshot-metadata_snapshot s k tenant w = (
  ap (λ (m : Objects). lookup k (collect_into [] m)) (keyed_again s.objects w.keyed)
      ∙ lookup-collect k s.objects w.objects_unique,
  lookup-collect tenant s.quotas w.quotas_unique,
  refl,
  refl,
  refl,
)

allocate-first :
    (node_id : Text) (len n : ℕ) (allocations : List SegmentAllocation)
    → (allocate (allocator_mount (record { segments = [] }) node_id len) n 1).0 ≡ ok allocations
    → allocations ≡ record { node_id = node_id; offset = 0; len = n } ∷ []
unfolding allocate allocator_mount take_from fitting_indexes can_fit checked_add
allocate-first node_id len n allocations done = ground arith

answer-first :
    (tenant : TenantId) (key : CacheKey) (n : ℕ) (node_id : Text) (s : MasterState)
    (answer : CacheResult (List SegmentAllocation) × SegmentAllocator)
    (replicas : List ReplicaDescriptor)
    → ((allocations : List SegmentAllocation)
        → answer.0 ≡ ok allocations
        → allocations ≡ record { node_id = node_id; offset = 0; len = n } ∷ [])
    → (put_start_allocated tenant key n s answer).0 ≡ ok replicas
    → replicas ≡ record { node_id = node_id; offset = 0; len = n } ∷ []
unfolding put_start_allocated
answer-first tenant key n node_id s (err e, a) replicas first done = ground arith
answer-first tenant key n node_id s (ok allocations, a) replicas first done =
    let same : replicas ≡ map replica_of allocations = ground arith in
    same ∙ ap (map replica_of) (first allocations refl)

-- A state that is restored from a snapshot forgets which bytes are taken: once a segment is mounted,
-- the first object that is put there gets offset 0, whatever the objects of the snapshot occupy.
pub restored-put_start :
    (s : MasterState) (node_id : Text) (len : ℕ) (tenant : TenantId) (key : CacheKey) (n : ℕ)
    (replicas : List ReplicaDescriptor)
    → (put_start
        (mount_segment (from_metadata_snapshot (metadata_snapshot s)) node_id len)
        tenant
        key
        n
        1).0
      ≡ ok replicas
    → replicas ≡ record { node_id = node_id; offset = 0; len = n } ∷ []
unfolding mount_segment from_metadata_snapshot
restored-put_start s node_id len tenant key n replicas =
    let restored = mount_segment (from_metadata_snapshot (metadata_snapshot s)) node_id len in
    put_start_cases
      (λ (r : CacheResult (List ReplicaDescriptor) × MasterState).
        r.0 ≡ ok replicas → replicas ≡ record { node_id = node_id; offset = 0; len = n } ∷ [])
      restored tenant key n 1 (λ e done. ground arith)
      (λ quotas free charged.
        answer-first tenant key n node_id (record restored { quotas = quotas })
          (allocate restored.allocator n 1) replicas (allocate-first node_id len n))
