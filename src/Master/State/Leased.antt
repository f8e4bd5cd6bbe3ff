-- ===== src/Master/State/Leased.antt =====
-- What the calls of crates/master/src/state.rs do to the lease of an object and to the object under
-- it, while the lease runs.
use mooncache.Prelude.{
  ℕ, ◌<◌, ◌≤◌, ◌≡◌, ◌≢◌, refl, sym, subst, ap, ◌∙◌, inl, inr, List, [], ◌∷◌, Option, none, some,
  true, false, arith, lookup, insert, Unique, All, lookup-insert_self, lookup-insert_ne,
  lookup-remove_ne, Option-cases, Bool-cases, ◌==◌, ==_iff, saturating_add,
}
use mooncache.Common.{CacheResult, ok, err, TenantId, CacheKey, ObjectKey, object_key_eq}
use mooncache.Master.Object.{ReplicaDescriptor}
use mooncache.Master.Lease.{
  Lease, LeaseTracker, default_lease_ttl_ms, lease_new_at, refresh, has_active_lease, drop_lease,
}
use mooncache.Master.Allocator.{SegmentAllocation, SegmentAllocator, allocate}
use mooncache.Master.Eviction.{is_committed}
use mooncache.Master.State.{
  MasterState, mount_segment, retire, put_revoke, remove_object, put_end, get_replica_list,
  set_tenant_quota, put_start, put_start_allocated, evict_for_tenant,
}
use mooncache.Master.State.Starting.{put_start_cases}
use mooncache.Master.State.Evicting.{evict_one, evict_candidates_inv}
use mooncache.Master.State.Calls.{
  Call, mounts, sets_quota, starts, ends, revokes, removes, reads, evicts, step,
}

-- There is a lease on the object under `k` that runs until `expires_ms` at least.
abbrev pub IsLeased : ObjectKey → ℕ → MasterState → Type 0
IsLeased k expires_ms s =
    (lease : Lease) × (lookup k s.leases.leases ≡ some lease) × (expires_ms ≤ lease.expires_at_ms)

-- The call neither revokes nor removes the object under `k`, starts no lease on it that ends before
-- `expires_ms`, and evicts for its tenant only before that time.
pub record Spares (k : ObjectKey) (expires_ms : ℕ) (call : Call) : Type 0 where
  pub unrevoked : call ≢ revokes k.0 k.1
  pub unremoved : call ≢ removes k.0 k.1
  pub extends :
      (now_ms : ℕ)
      → call ≡ reads k.0 k.1 now_ms
      → expires_ms ≤ saturating_add now_ms default_lease_ttl_ms
  pub evicts_before : (target now_ms : ℕ) → call ≡ evicts k.0 target now_ms → now_ms < expires_ms

pub same_key :
    (tenant : TenantId) (key : CacheKey) (k : ObjectKey)
    → ((tenant, key) == k) ≡ true
    → (tenant, key) ≡ k
same_key tenant key k here = (==_iff (tenant, key) k).0 here

-- A call that names its key by `call` and is not that of `k` names another key.
pub other_key :
    (k : ObjectKey) (call : TenantId → CacheKey → Call) (tenant : TenantId) (key : CacheKey)
    → call tenant key ≢ call k.0 k.1
    → ((tenant, key) == k) ≡ false
other_key k call tenant key differs = elim (Bool-cases ((tenant, key) == k)) [
  | inr there ↦ there
  | inl here ↦ absurd (differs (ap (λ (j : ObjectKey). call j.0 j.1) (same_key tenant key k here)))
]

pub leased_active :
    (s : MasterState) (k : ObjectKey) (expires_ms now_ms : ℕ)
    → IsLeased k expires_ms s
    → now_ms < expires_ms
    → has_active_lease s.leases k.0 k.1 now_ms ≡ true
unfolding has_active_lease
leased_active s k expires_ms now_ms (lease, found, long) early = ground arith

module _ (k : ObjectKey) (expires_ms : ℕ) where
  -- An operation that drops the lease of another object only.
  dropped-IsLeased :
      (s s' : MasterState) (tenant : TenantId) (key : CacheKey)
      → s'.leases ≡ drop_lease s.leases tenant key
      → ((tenant, key) == k) ≡ false
      → IsLeased k expires_ms s
      → IsLeased k expires_ms s'
  unfolding drop_lease
  dropped-IsLeased s s' tenant key e there (lease, found, long) = (
    lease,
    ap (λ (t : LeaseTracker). lookup k t.leases) e
        ∙ lookup-remove_ne (tenant, key) k s.leases.leases there
        ∙ found,
    long,
  )

  kept-IsLeased :
      (s s' : MasterState)
      → s'.leases ≡ s.leases
      → IsLeased k expires_ms s
      → IsLeased k expires_ms s'
  kept-IsLeased s s' e (lease, found, long) =
      (lease, ap (λ (t : LeaseTracker). lookup k t.leases) e ∙ found, long)

  put_revoke-IsLeased :
      (s : MasterState) (tenant : TenantId) (key : CacheKey)
      → ((tenant, key) == k) ≡ false
      → IsLeased k expires_ms s
      → IsLeased k expires_ms (put_revoke s tenant key).1
  unfolding put_revoke retire
  put_revoke-IsLeased s tenant key there h = elim (Option-cases (lookup (tenant, key) s.objects)) [
    | inl missing ↦ rw (missing, put_revoke) h
    | inr (object, found) ↦
        dropped-IsLeased s (put_revoke s tenant key).1 tenant key (rw (found, put_revoke)) there h
  ]

  remove_object-IsLeased :
      (s : MasterState) (tenant : TenantId) (key : CacheKey)
      → ((tenant, key) == k) ≡ false
      → IsLeased k expires_ms s
      → IsLeased k expires_ms (remove_object s tenant key).1
  unfolding remove_object
  remove_object-IsLeased s tenant key there h =
      elim (Option-cases (lookup (tenant, key) s.objects)) [
        | inl missing ↦ rw (missing, remove_object) h
        | inr (object, found) ↦
            dropped-IsLeased s (remove_object s tenant key).1 tenant key (rw (found, remove_object))
              there h
      ]

  put_end-leases :
      (s : MasterState) (tenant : TenantId) (key : CacheKey)
      → (put_end s tenant key).1.leases ≡ s.leases
  unfolding put_end
  put_end-leases s tenant key = ground arith

  set_tenant_quota-leases :
      (s : MasterState) (name : mooncache.Prelude.Text) (dram_bytes ssd_bytes : ℕ)
      → (set_tenant_quota s name dram_bytes ssd_bytes).1.leases ≡ s.leases
  unfolding set_tenant_quota
  set_tenant_quota-leases s name dram_bytes ssd_bytes = ground arith

  put_start_allocated-leases :
      (tenant : TenantId) (key : CacheKey) (len : ℕ) (s : MasterState)
      (answer : CacheResult (List SegmentAllocation) × SegmentAllocator)
      → (put_start_allocated tenant key len s answer).1.leases ≡ s.leases
  unfolding put_start_allocated
  put_start_allocated-leases tenant key len s (err e, allocator) = refl
  put_start_allocated-leases tenant key len s (ok allocations, allocator) = refl

  put_start-leases :
      (s : MasterState) (tenant : TenantId) (key : CacheKey) (len replica_count : ℕ)
      → (put_start s tenant key len replica_count).1.leases ≡ s.leases
  put_start-leases s tenant key len replica_count =
      put_start_cases
        (λ (r : CacheResult (List ReplicaDescriptor) × MasterState). r.1.leases ≡ s.leases) s tenant
        key len replica_count (λ e. refl)
        (λ quotas free charged.
          put_start_allocated-leases tenant key len (record s { quotas = quotas })
            (allocate s.allocator len replica_count))

  -- A read gives its object a new lease, and leaves the leases of others.
  get_replica_list-IsLeased :
      (s : MasterState) (tenant : TenantId) (key : CacheKey) (now_ms : ℕ)
      → ((tenant, key) ≡ k → expires_ms ≤ saturating_add now_ms default_lease_ttl_ms)
      → IsLeased k expires_ms s
      → IsLeased k expires_ms (get_replica_list s tenant key now_ms).1
  unfolding get_replica_list refresh lease_new_at
  get_replica_list-IsLeased s tenant key now_ms long h =
      elim (Option-cases (lookup (tenant, key) s.objects)) [
        | inl missing ↦ rw (missing, get_replica_list) h
        | inr (object, found) ↦ elim (Bool-cases (is_committed object.status)) [
          | inr unready ↦ rw (found, get_replica_list, unready) h
          | inl ready ↦ elim (Bool-cases ((tenant, key) == k)) [
            | inr there ↦
                rw (found, get_replica_list, ready)
                  (h.0, lookup-insert_ne (tenant, key) k _ s.leases.leases there ∙ h.1, h.2)
            | inl here ↦
                let same = same_key tenant key k here in
                let lease = lease_new_at (saturating_add s.next_lease_sequence 1) now_ms in
                rw (found, get_replica_list, ready)
                  (
                    lease,
                    subst
                        (λ (j : ObjectKey).
                          lookup j (insert (tenant, key) lease s.leases.leases) ≡ some lease)
                        same (lookup-insert_self (tenant, key) lease s.leases.leases),
                    long same,
                  )
          ]
        ]
      ]

  -- An eviction before the lease ends evicts other objects only.
  evict_for_tenant-IsLeased :
      (s : MasterState) (tenant : TenantId) (target now_ms : ℕ)
      → Unique s.objects
      → (tenant ≡ k.0 → now_ms < expires_ms)
      → IsLeased k expires_ms s
      → IsLeased k expires_ms (evict_for_tenant s tenant target now_ms).1
  unfolding retire
  evict_for_tenant-IsLeased s tenant target now_ms u early leased =
      evict_candidates_inv (IsLeased k expires_ms) s tenant target now_ms
        (λ s' key object (old, c) found h. elim (Bool-cases ((tenant, key) == k)) [
          | inr there ↦ dropped-IsLeased s' (evict_one s' tenant key object) tenant key refl there h
          | inl here ↦
              let same = same_key tenant key k here in
              let active =
                leased_active s k expires_ms now_ms leased
                  (early (ap (λ (j : ObjectKey). j.0) same)) in
              let active' : has_active_lease s.leases tenant key now_ms ≡ true =
                subst (λ (j : ObjectKey). has_active_lease s.leases j.0 j.1 now_ms ≡ true)
                  (sym same) active in
              absurd (ground (arith, c.unleased))
        ])
        u leased

  -- A call that spares the object keeps it under its lease.
  pub step-IsLeased :
      (s : MasterState) (call : Call)
      → Unique s.objects
      → Spares k expires_ms call
      → IsLeased k expires_ms s
      → IsLeased k expires_ms (step s call)
  unfolding step mount_segment
  step-IsLeased s (mounts node_id len) u spared h = h
  step-IsLeased s (sets_quota name dram_bytes ssd_bytes) u spared h =
      kept-IsLeased s (set_tenant_quota s name dram_bytes ssd_bytes).1
        (set_tenant_quota-leases s name dram_bytes ssd_bytes) h
  step-IsLeased s (starts tenant key len replica_count) u spared h =
      kept-IsLeased s (put_start s tenant key len replica_count).1
        (put_start-leases s tenant key len replica_count) h
  step-IsLeased s (ends tenant key) u spared h =
      kept-IsLeased s (put_end s tenant key).1 (put_end-leases s tenant key) h
  step-IsLeased s (revokes tenant key) u spared h =
      put_revoke-IsLeased s tenant key (other_key k revokes tenant key spared.unrevoked) h
  step-IsLeased s (removes tenant key) u spared h =
      remove_object-IsLeased s tenant key (other_key k removes tenant key spared.unremoved) h
  step-IsLeased s (reads tenant key now_ms) u spared h =
      get_replica_list-IsLeased s tenant key now_ms
        (λ same. spared.extends now_ms (ap (λ (j : ObjectKey). reads j.0 j.1 now_ms) same)) h
  step-IsLeased s (evicts tenant target now_ms) u spared h =
      evict_for_tenant-IsLeased s tenant target now_ms u
        (λ same.
          spared.evicts_before target now_ms (ap (λ (t : TenantId). evicts t target now_ms) same))
        h
