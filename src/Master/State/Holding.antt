-- ===== src/Master/State/Holding.antt =====
-- Which calls of crates/master/src/state.rs leave a committed object as it is.
use mooncache.Prelude.{
  ℕ, ◌≡◌, ◌≢◌, sym, subst, ap, ◌∙◌, inl, inr, List, [], ◌∷◌, none, some, true, false, arith, lookup,
  Unique, lookup-insert_ne, lookup-remove_ne, Option-cases, Bool-cases, ◌==◌, Text,
}
use mooncache.Common.{CacheResult, ok, err, TenantId, CacheKey, ObjectKey, object_key_eq}
use mooncache.Master.Object.{ReplicaDescriptor, CacheObjectMeta, committed}
use mooncache.Master.Lease.{has_active_lease}
use mooncache.Master.Allocator.{SegmentAllocation, SegmentAllocator, allocate}
use mooncache.Master.State.{
  MasterState, mount_segment, with_status, retire, put_revoke, remove_object, put_end,
  set_tenant_quota, put_start, put_start_allocated, evict_for_tenant,
}
use mooncache.Master.State.Starting.{put_start_cases}
use mooncache.Master.State.Eviction.{evict_for_tenant_safe}
use mooncache.Master.State.Calls.Keeping.{step-Unique}
use mooncache.Master.State.Calls.{
  Call, mounts, sets_quota, starts, ends, revokes, removes, reads, evicts, step, run,
}
use mooncache.Master.State.Leased.{same_key, other_key}
use mooncache.Master.State.Writes.{get_replica_list-objects}

-- The call leaves the object under `k`, at least if it is committed: it neither revokes nor removes
-- it, and evicts for its tenant only while there is a lease on it.
pub record Leaves (k : ObjectKey) (s : MasterState) (call : Call) : Type 0 where
  pub unrevoked : call ≢ revokes k.0 k.1
  pub unremoved : call ≢ removes k.0 k.1
  pub unevicted :
      (target now_ms : ℕ)
      → call ≡ evicts k.0 target now_ms
      → has_active_lease s.leases k.0 k.1 now_ms ≡ true

pub set_tenant_quota-objects :
    (s : MasterState) (name : Text) (dram_bytes ssd_bytes : ℕ)
    → (set_tenant_quota s name dram_bytes ssd_bytes).1.objects ≡ s.objects
unfolding set_tenant_quota
set_tenant_quota-objects s name dram_bytes ssd_bytes = ground arith

module _ (k : ObjectKey) (object : CacheObjectMeta) (live : object.status ≡ committed) where
  -- The object is under its key.
  abbrev Holds : MasterState → Type 0
  Holds s = lookup k s.objects ≡ some object

  other_than :
      (s : MasterState) (tenant : TenantId) (key : CacheKey)
      → Holds s
      → lookup (tenant, key) s.objects ≡ none
      → ((tenant, key) == k) ≡ false
  other_than s tenant key found free = elim (Bool-cases ((tenant, key) == k)) [
    | inr there ↦ there
    | inl here ↦
        let same = same_key tenant key k here in
        let free' = subst (λ (j : ObjectKey). lookup j s.objects ≡ none) same free in
        absurd (ground (arith, found, free'))
  ]

  put_start_allocated-Holds :
      (tenant : TenantId) (key : CacheKey) (len : ℕ) (s : MasterState)
      (answer : CacheResult (List SegmentAllocation) × SegmentAllocator)
      → lookup (tenant, key) s.objects ≡ none
      → Holds s
      → Holds (put_start_allocated tenant key len s answer).1
  unfolding put_start_allocated
  put_start_allocated-Holds tenant key len s (err e, allocator) free h = h
  put_start_allocated-Holds tenant key len s (ok allocations, allocator) free h =
      lookup-insert_ne (tenant, key) k _ s.objects (other_than s tenant key h free) ∙ h

  put_start-Holds :
      (s : MasterState) (tenant : TenantId) (key : CacheKey) (len replica_count : ℕ)
      → Holds s
      → Holds (put_start s tenant key len replica_count).1
  put_start-Holds s tenant key len replica_count h =
      put_start_cases (λ (r : CacheResult (List ReplicaDescriptor) × MasterState). Holds r.1) s
        tenant key len replica_count (λ e. h)
        (λ quotas free charged.
          put_start_allocated-Holds tenant key len (record s { quotas = quotas })
            (allocate s.allocator len replica_count) free h)

  put_end-Holds :
      (s : MasterState) (tenant : TenantId) (key : CacheKey)
      → Holds s
      → Holds (put_end s tenant key).1
  unfolding put_end
  put_end-Holds s tenant key h = elim (Bool-cases ((tenant, key) == k)) [
    | inr there ↦ elim (Option-cases (lookup (tenant, key) s.objects)) [
      | inl missing ↦ ground arith
      | inr (old, found) ↦
          ground
            (arith, lookup-insert_ne (tenant, key) k (with_status committed old) s.objects there)
    ]
    | inl here ↦
        let same = same_key tenant key k here in
        let found = subst (λ (j : ObjectKey). lookup j s.objects ≡ some object) (sym same) h in
        let same_objects : (put_end s tenant key).1.objects ≡ s.objects =
          ground (arith, found, live) in
        ap (lookup k) same_objects ∙ h
  ]

  put_revoke-Holds :
      (s : MasterState) (tenant : TenantId) (key : CacheKey)
      → ((tenant, key) == k) ≡ false
      → Holds s
      → Holds (put_revoke s tenant key).1
  unfolding put_revoke retire
  put_revoke-Holds s tenant key there h = elim (Option-cases (lookup (tenant, key) s.objects)) [
    | inl missing ↦ rw (missing, put_revoke) h
    | inr (old, found) ↦
        rw (found, put_revoke) (lookup-insert_ne (tenant, key) k _ s.objects there ∙ h)
  ]

  remove_object-Holds :
      (s : MasterState) (tenant : TenantId) (key : CacheKey)
      → ((tenant, key) == k) ≡ false
      → Holds s
      → Holds (remove_object s tenant key).1
  unfolding remove_object
  remove_object-Holds s tenant key there h = elim (Option-cases (lookup (tenant, key) s.objects)) [
    | inl missing ↦ rw (missing, remove_object) h
    | inr (old, found) ↦
        rw (found, remove_object) (lookup-remove_ne (tenant, key) k s.objects there ∙ h)
  ]

  evict_for_tenant-Holds :
      (s : MasterState) (tenant : TenantId) (target now_ms : ℕ)
      → Unique s.objects
      → (tenant ≡ k.0 → has_active_lease s.leases k.0 k.1 now_ms ≡ true)
      → Holds s
      → Holds (evict_for_tenant s tenant target now_ms).1
  evict_for_tenant-Holds s tenant target now_ms u active h =
      elim (evict_for_tenant_safe s tenant target now_ms k u) [
        | inl kept ↦ kept ∙ h
        | inr (mine, (old, candidate, _)) ↦
            let unleased =
              subst (λ (t : TenantId). has_active_lease s.leases t k.1 now_ms ≡ false) (sym mine)
                candidate.unleased in
            absurd (ground (arith, unleased, active (sym mine)))
      ]

  step-Holds :
      (s : MasterState) (call : Call)
      → Unique s.objects
      → Leaves k s call
      → Holds s
      → Holds (step s call)
  unfolding step mount_segment
  step-Holds s (mounts node_id len) u left h = h
  step-Holds s (sets_quota name dram_bytes ssd_bytes) u left h =
      ap (lookup k) (set_tenant_quota-objects s name dram_bytes ssd_bytes) ∙ h
  step-Holds s (starts tenant key len replica_count) u left h =
      put_start-Holds s tenant key len replica_count h
  step-Holds s (ends tenant key) u left h = put_end-Holds s tenant key h
  step-Holds s (revokes tenant key) u left h =
      put_revoke-Holds s tenant key (other_key k revokes tenant key left.unrevoked) h
  step-Holds s (removes tenant key) u left h =
      remove_object-Holds s tenant key (other_key k removes tenant key left.unremoved) h
  step-Holds s (reads tenant key now_ms) u left h =
      ap (lookup k) (get_replica_list-objects s tenant key now_ms) ∙ h
  step-Holds s (evicts tenant target now_ms) u left h =
      evict_for_tenant-Holds s tenant target now_ms u
        (λ same. left.unevicted target now_ms (ap (λ (t : TenantId). evicts t target now_ms) same))
        h

-- Each of the calls, where it comes, leaves the object.
abbrev pub AllLeave : ObjectKey → MasterState → List Call → Type 0
AllLeave k s [] = Unit
AllLeave k s (call ∷ calls) = Leaves k s call × AllLeave k (step s call) calls

pub run-Holds :
    (k : ObjectKey) (object : CacheObjectMeta)
    → object.status ≡ committed
    → (s : MasterState) (calls : List Call) → Unique s.objects
    → AllLeave k s calls
    → lookup k s.objects ≡ some object
    → lookup k (run s calls).objects ≡ some object
unfolding run
run-Holds k object live s [] u left h = h
run-Holds k object live s (call ∷ calls) u left h =
    run-Holds k object live (step s call) calls (step-Unique s call u) left.1
      (step-Holds k object live s call u left.0 h)
