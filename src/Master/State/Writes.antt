-- ===== src/Master/State/Writes.antt =====
-- The course of a write through crates/master/src/state.rs: `put_start`, `put_end`, then a read.
use mooncache.Prelude.{
  ℕ, ◌+◌, ◌-◌, ◌<◌, ◌≡◌, ◌∙◌, refl, sym, subst, ap, inl, inr, List, [], ◌∷◌, Option, none, some,
  true, false, arith, lookup, insert, Unique, lookup-insert_self, lookup-remove, ==_refl,
  Option-cases, Bool-cases, ◌==◌, saturating_add, map, ltb, checked_add,
}
use mooncache.Common.{
  CacheError, CacheResult, ok, err, not_found, TenantId, tenant_id_eq, CacheKey, ObjectKey,
  object_key_eq,
}
use mooncache.Master.Object.{ReplicaDescriptor, CacheObjectMeta, committed, reserving}
use mooncache.Master.Quota.{TenantQuota, reserve_dram, release_dram}
use mooncache.Master.Lease.{ReplicaList, lease_new_at, refresh}
use mooncache.Master.Allocator.{SegmentAllocation, SegmentAllocator, allocate}
use mooncache.Master.Allocator.Claim.{allocate-err}
use mooncache.Master.Eviction.{is_committed}
use mooncache.Master.State.{
  MasterState, remove_object, put_start, put_start_allocated, reserve_quota, release_quota,
  release_tenant_quota, put_end, get_replica_list, reserved_object, replica_of, with_status,
}
use mooncache.Master.State.Starting.{put_start_cases}

-- A value that is replaced and put back leaves the map as it was.
insert_back {ℓ κ} :
    {K : Type ℓ} {V : Type κ} ⦃e : mooncache.Prelude.Eq K⦄ (k : K) (v w : V) (m : List (K × V))
    → lookup k m ≡ some v
    → insert k v (insert k w m) ≡ m
unfolding lookup insert
insert_back k v w [] found = ground arith
insert_back k v w ((j, x) ∷ m) found = ground (arith, insert_back k v w m)

-- Bytes that were reserved and released again leave the quotas as they were.
pub reserve_back :
    (quotas quotas' : List (TenantId × TenantQuota)) (tenant : TenantId) (bytes : ℕ)
    → reserve_quota quotas tenant bytes ≡ ok quotas'
    → release_quota quotas' tenant bytes ≡ quotas
unfolding reserve_quota release_quota reserve_dram release_dram checked_add
reserve_back quotas quotas' tenant bytes done = elim (Option-cases (lookup tenant quotas)) [
  | inl missing ↦ ground arith
  | inr (old, found) ↦
      let charged : TenantQuota = record old { used_dram_bytes = old.used_dram_bytes + bytes } in
      let same : quotas' ≡ insert tenant charged quotas = ground arith in
      let uncharged : release_dram charged bytes ≡ old =
        ap (λ (used : ℕ). record old { used_dram_bytes = used }) (omega arith) in
      let back = insert_back tenant old charged quotas found in
      subst (λ (q : List (TenantId × TenantQuota)). release_quota q tenant bytes ≡ quotas)
        (sym same) (rw (lookup-insert_self tenant charged quotas, release_quota, uncharged) back)
]

module _ (tenant : TenantId) (key : CacheKey) (len : ℕ) where
  put_start_allocated-err :
      (s s' : MasterState) (answer : CacheResult (List SegmentAllocation) × SegmentAllocator)
      (e : CacheError)
      → ((e' : CacheError) (a : SegmentAllocator) → answer ≡ (err e', a) → a ≡ s'.allocator)
      → release_tenant_quota s' tenant len ≡ s
      → (put_start_allocated tenant key len s' answer).0 ≡ err e
      → (put_start_allocated tenant key len s' answer).1 ≡ s
  unfolding put_start_allocated
  put_start_allocated-err s s' (err e', a) e unmoved back refused =
      ap (λ (b : SegmentAllocator). release_tenant_quota (record s' { allocator = b }) tenant len)
        (unmoved e' a refl)
      ∙ back
  put_start_allocated-err s s' (ok allocations, a) e unmoved back refused = ground arith

  put_start_allocated-ok :
      (s : MasterState) (answer : CacheResult (List SegmentAllocation) × SegmentAllocator)
      (replicas : List ReplicaDescriptor)
      → (put_start_allocated tenant key len s answer).0 ≡ ok replicas
      → (lookup (tenant, key) (put_start_allocated tenant key len s answer).1.objects
          ≡ some (reserved_object tenant key len replicas))
        × ((put_start_allocated tenant key len s answer).1.next_lease_sequence
            ≡ s.next_lease_sequence)
  unfolding put_start_allocated
  put_start_allocated-ok s (err e, a) replicas done = ground arith
  put_start_allocated-ok s (ok allocations, a) replicas done = (
    ground (
      arith,
      done,
      lookup-insert_self (tenant, key) (reserved_object tenant key len (map replica_of allocations))
          s.objects,
    ),
    refl,
  )

-- A `put_start` that fails, for whatever reason, leaves the whole state as it was: the quota that it
-- charged is given back, and no space is taken.
pub put_start-atomic :
    (s : MasterState) (tenant : TenantId) (key : CacheKey) (len replica_count : ℕ) (e : CacheError)
    → (put_start s tenant key len replica_count).0 ≡ err e
    → (put_start s tenant key len replica_count).1 ≡ s
unfolding release_tenant_quota
put_start-atomic s tenant key len replica_count e =
    put_start_cases
      (λ (r : CacheResult (List ReplicaDescriptor) × MasterState). r.0 ≡ err e → r.1 ≡ s) s tenant
      key len replica_count (λ e' refused. refl)
      (λ quotas free charged.
        put_start_allocated-err tenant key len s (record s { quotas = quotas })
          (allocate s.allocator len replica_count) e
          (λ e' a. allocate-err s.allocator a len replica_count e')
          (ap (λ (q : List (TenantId × TenantQuota)). record s { quotas = q })
            (reserve_back s.quotas quotas tenant len charged)))

refused_ok :
    (e : CacheError) (replicas : List ReplicaDescriptor)
    → ¬ (◌≡◌ {A = CacheResult (List ReplicaDescriptor)} (err e) (ok replicas))
refused_ok e replicas h = ground arith

pub put_start-ok :
    (s : MasterState) (tenant : TenantId) (key : CacheKey) (len replica_count : ℕ)
    (replicas : List ReplicaDescriptor)
    → (put_start s tenant key len replica_count).0 ≡ ok replicas
    → (lookup (tenant, key) (put_start s tenant key len replica_count).1.objects
        ≡ some (reserved_object tenant key len replicas))
      × ((put_start s tenant key len replica_count).1.next_lease_sequence ≡ s.next_lease_sequence)
put_start-ok s tenant key len replica_count replicas =
    put_start_cases
      (λ (r : CacheResult (List ReplicaDescriptor) × MasterState).
        r.0 ≡ ok replicas
        → (lookup (tenant, key) r.1.objects ≡ some (reserved_object tenant key len replicas))
          × (r.1.next_lease_sequence ≡ s.next_lease_sequence))
      s tenant key len replica_count (λ e done. absurd (refused_ok e replicas done))
      (λ quotas free charged.
        put_start_allocated-ok tenant key len (record s { quotas = quotas })
          (allocate s.allocator len replica_count) replicas)

-- What a read answers for an object that is committed.
pub get_replica_list-committed :
    (s : MasterState) (tenant : TenantId) (key : CacheKey) (object : CacheObjectMeta) (now_ms : ℕ)
    → lookup (tenant, key) s.objects ≡ some object
    → object.status ≡ committed
    → (get_replica_list s tenant key now_ms).0
      ≡ ok (record {
        replicas = object.replicas;
        lease = lease_new_at (saturating_add s.next_lease_sequence 1) now_ms;
      })
unfolding get_replica_list is_committed refresh
get_replica_list-committed s tenant key object now_ms found live =
    rw (found, get_replica_list, live)

-- An object that is not committed cannot be read.
pub get_replica_list-unready :
    (s : MasterState) (tenant : TenantId) (key : CacheKey) (object : CacheObjectMeta) (now_ms : ℕ)
    → lookup (tenant, key) s.objects ≡ some object
    → is_committed object.status ≡ false
    → get_replica_list s tenant key now_ms ≡ (err not_found, s)
unfolding get_replica_list is_committed
get_replica_list-unready s tenant key object now_ms found unready =
    rw (found, get_replica_list, unready)

get_replica_list-reserving :
    (s : MasterState) (tenant : TenantId) (key : CacheKey) (object : CacheObjectMeta) (now_ms : ℕ)
    → lookup (tenant, key) s.objects ≡ some object
    → object.status ≡ reserving
    → get_replica_list s tenant key now_ms ≡ (err not_found, s)
unfolding get_replica_list is_committed
get_replica_list-reserving s tenant key object now_ms found unready =
    rw (found, get_replica_list, unready)

pub put_end-reserving :
    (s : MasterState) (tenant : TenantId) (key : CacheKey) (object : CacheObjectMeta)
    → lookup (tenant, key) s.objects ≡ some object
    → object.status ≡ reserving
    → put_end s tenant key ≡ (
      ok tt,
      record s { objects = insert (tenant, key) (with_status committed object) s.objects },
    )
unfolding put_end
put_end-reserving s tenant key object found unready = rw (found, put_end, unready)

-- A `put_start` that succeeds makes an object that cannot be read yet; `put_end` then succeeds, and
-- a read straight after it finds the replicas that `put_start` returned, under a new lease.
pub put_start-put_end-read :
    (s : MasterState) (tenant : TenantId) (key : CacheKey) (len replica_count now_ms : ℕ)
    (replicas : List ReplicaDescriptor)
    → (put_start s tenant key len replica_count).0 ≡ ok replicas
    → let started = (put_start s tenant key len replica_count).1 in
      let written = (put_end started tenant key).1 in
      (get_replica_list started tenant key now_ms ≡ (err not_found, started))
      × ((put_end started tenant key).0 ≡ ok tt)
      × ((get_replica_list written tenant key now_ms).0
          ≡ ok (record {
            replicas = replicas;
            lease = lease_new_at (saturating_add s.next_lease_sequence 1) now_ms;
          }))
put_start-put_end-read s tenant key len replica_count now_ms replicas done =
    let started = (put_start s tenant key len replica_count).1 in
    let object = reserved_object tenant key len replicas in
    let (found, sequence) = put_start-ok s tenant key len replica_count replicas done in
    let written = record started {
      objects = insert (tenant, key) (with_status committed object) started.objects;
    } in
    let answer : ℕ → ReplicaList =
      λ q. record { replicas = replicas; lease = lease_new_at (saturating_add q 1) now_ms } in
    let ended = put_end-reserving started tenant key object found refl in
    (
      get_replica_list-reserving started tenant key object now_ms found refl,
      ap (λ (r : CacheResult (Unit {0}) × MasterState). r.0) ended,
      subst
          (λ (x : MasterState).
            (get_replica_list x tenant key now_ms).0 ≡ ok (answer s.next_lease_sequence))
          (sym (ap (λ (r : CacheResult (Unit {0}) × MasterState). r.1) ended))
          (subst (λ (q : ℕ). (get_replica_list written tenant key now_ms).0 ≡ ok (answer q))
            sequence
            (get_replica_list-committed written tenant key (with_status committed object) now_ms
              (lookup-insert_self (tenant, key) (with_status committed object) started.objects)
              refl)),
    )

pub get_replica_list-objects :
    (s : MasterState) (tenant : TenantId) (key : CacheKey) (now_ms : ℕ)
    → (get_replica_list s tenant key now_ms).1.objects ≡ s.objects
unfolding get_replica_list
get_replica_list-objects s tenant key now_ms = ground arith

-- The lease of a read is the tracker's lease afterwards.
pub get_replica_list-lease :
    (s : MasterState) (tenant : TenantId) (key : CacheKey) (now_ms : ℕ) (list : ReplicaList)
    → (get_replica_list s tenant key now_ms).0 ≡ ok list
    → lookup (tenant, key) (get_replica_list s tenant key now_ms).1.leases.leases ≡ some list.lease
unfolding get_replica_list refresh
get_replica_list-lease s tenant key now_ms list read =
    elim (Option-cases (lookup (tenant, key) s.objects)) [
      | inl missing ↦ ground arith
      | inr (object, found) ↦ elim (Bool-cases (is_committed object.status)) [
        | inl live ↦
            let lease = lease_new_at (saturating_add s.next_lease_sequence 1) now_ms in
            ground (arith, lookup-insert_self (tenant, key) lease s.leases.leases)
        | inr other ↦ ground arith
      ]
    ]

-- Where there is no object there is nothing to read.
pub get_replica_list-missing :
    (s : MasterState) (tenant : TenantId) (key : CacheKey) (now_ms : ℕ)
    → lookup (tenant, key) s.objects ≡ none
    → get_replica_list s tenant key now_ms ≡ (err not_found, s)
unfolding get_replica_list
get_replica_list-missing s tenant key now_ms missing = rw (missing, get_replica_list)

-- After a removal that succeeds, the object is gone.
pub remove_object-gone :
    (s : MasterState) (tenant : TenantId) (key : CacheKey)
    → Unique s.objects
    → (remove_object s tenant key).0 ≡ ok tt
    → lookup (tenant, key) (remove_object s tenant key).1.objects ≡ none
unfolding remove_object
remove_object-gone s tenant key u done = elim (Option-cases (lookup (tenant, key) s.objects)) [
  | inl missing ↦ rw (missing, remove_object) missing
  | inr (object, found) ↦
      rw (found, remove_object)
        (ground (
          arith,
          ==_refl {A = ObjectKey} (tenant, key),
          lookup-remove (tenant, key) (tenant, key) s.objects u,
        ))
]
