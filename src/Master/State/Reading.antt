-- ===== src/Master/State/Reading.antt =====
-- Reads of crates/master/src/state.rs in the course of other calls: after a write, and while
-- a lease runs.
use mooncache.Prelude.{
  ℕ, ◌≡◌, ◌≢◌, refl, sym, ap, ◌∙◌, inl, inr, List, [], ◌∷◌, some, arith, lookup, Unique, All,
  lookup-insert_self, Option-cases, saturating_add,
}
use mooncache.Common.{CacheResult, ok, err, not_found, TenantId, CacheKey, ObjectKey, object_key_eq}
use mooncache.Master.Object.{ReplicaDescriptor, CacheObjectMeta, committed}
use mooncache.Master.Eviction.{is_committed}
use mooncache.Master.State.Holding.{AllLeave, run-Holds}
use mooncache.Master.Lease.{ReplicaList, lease_new_at}
use mooncache.Master.State.{
  MasterState, with_status, put_end, get_replica_list, put_start, reserved_object,
}
use mooncache.Master.State.Calls.Keeping.{step-Unique}
use mooncache.Master.State.Calls.{Call, starts, ends, revokes, removes, reads, evicts, step, run}
use mooncache.Master.State.Leased.{IsLeased, Spares, leased_active, step-IsLeased}
use mooncache.Master.State.Writes.{
  put_start-ok, put_end-reserving, get_replica_list-committed, get_replica_list-objects,
  get_replica_list-lease, put_start-put_end-read,
}

-- What a read answers after calls that leave a committed object.
run-read :
    (s : MasterState) (calls : List Call) (tenant : TenantId) (key : CacheKey)
    (object : CacheObjectMeta) (now_ms : ℕ)
    → Unique s.objects
    → AllLeave (tenant, key) s calls
    → object.status ≡ committed
    → lookup (tenant, key) s.objects ≡ some object
    → (get_replica_list (run s calls) tenant key now_ms).0
      ≡ ok (record {
        replicas = object.replicas;
        lease = lease_new_at (saturating_add (run s calls).next_lease_sequence 1) now_ms;
      })
run-read s calls tenant key object now_ms u left live h =
    get_replica_list-committed (run s calls) tenant key object now_ms
      (run-Holds (tenant, key) object live s calls u left h) live

-- The call neither revokes nor removes the object under `k`, nor evicts for its tenant.
pub record Untouching (k : ObjectKey) (call : Call) : Type 0 where
  pub unrevoked : call ≢ revokes k.0 k.1
  pub unremoved : call ≢ removes k.0 k.1
  pub unevicted : (target now_ms : ℕ) → call ≢ evicts k.0 target now_ms

Untouching-AllLeave :
    (k : ObjectKey) (s : MasterState) (calls : List Call)
    → All (Untouching k) calls
    → AllLeave k s calls
Untouching-AllLeave k s [] h = tt
Untouching-AllLeave k s (call ∷ calls) (h, rest) = (
  record {
    unrevoked = h.unrevoked;
    unremoved = h.unremoved;
    unevicted = λ target now_ms e. absurd (h.unevicted target now_ms e);
  },
  Untouching-AllLeave k (step s call) calls rest,
)

-- In a state that lists no key twice: after a `put_start` that succeeds the object cannot be read yet;
-- `put_end` straight after it succeeds, and after that, whatever calls come, as long as none revokes
-- or removes the object or evicts for its tenant, a read finds the replicas that `put_start`
-- returned, under a new lease.
pub put_start-put_end-run-read :
    (s : MasterState) (tenant : TenantId) (key : CacheKey) (len replica_count now_ms : ℕ)
    (replicas : List ReplicaDescriptor) (calls : List Call)
    → Unique s.objects
    → (put_start s tenant key len replica_count).0 ≡ ok replicas
    → All (Untouching (tenant, key)) calls
    → let started = (put_start s tenant key len replica_count).1 in
      let written = (put_end started tenant key).1 in
      (get_replica_list started tenant key now_ms ≡ (err not_found, started))
      × ((put_end started tenant key).0 ≡ ok tt)
      × ((get_replica_list (run written calls) tenant key now_ms).0
          ≡ ok (record {
            replicas = replicas;
            lease = lease_new_at (saturating_add (run written calls).next_lease_sequence 1) now_ms;
          }))
unfolding step
put_start-put_end-run-read s tenant key len replica_count now_ms replicas calls u done spared =
    let (unready, ended, _) =
      put_start-put_end-read s tenant key len replica_count now_ms replicas done in
    let started = (put_start s tenant key len replica_count).1 in
    let written = (put_end started tenant key).1 in
    let object = reserved_object tenant key len replicas in
    let found = (put_start-ok s tenant key len replica_count replicas done).0 in
    let stored : lookup (tenant, key) written.objects ≡ some (with_status committed object) =
      ap (λ (r : CacheResult (Unit {0}) × MasterState). lookup (tenant, key) r.1.objects)
        (put_end-reserving started tenant key object found refl)
      ∙ lookup-insert_self (tenant, key) (with_status committed object) started.objects in
    (
      unready,
      ended,
      run-read written calls tenant key (with_status committed object) now_ms
          (step-Unique started (ends tenant key)
            (step-Unique s (starts tenant key len replica_count) u))
          (Untouching-AllLeave (tenant, key) written calls spared) refl stored,
    )

-- While a lease runs that the calls spare, they leave the object.
Spares-AllLeave :
    (k : ObjectKey) (expires_ms : ℕ) (s : MasterState) (calls : List Call)
    → Unique s.objects
    → IsLeased k expires_ms s
    → All (Spares k expires_ms) calls
    → AllLeave k s calls
Spares-AllLeave k expires_ms s [] u leased h = tt
Spares-AllLeave k expires_ms s (call ∷ calls) u leased (h, rest) = (
  record {
    unrevoked = h.unrevoked;
    unremoved = h.unremoved;
    unevicted = λ target now_ms e.
        leased_active s k expires_ms now_ms leased (h.evicts_before target now_ms e);
  },
  Spares-AllLeave k expires_ms (step s call) calls (step-Unique s call u)
      (step-IsLeased k expires_ms s call u h leased) rest,
)

-- What a read that succeeds has found.
get_replica_list-inv :
    (s : MasterState) (tenant : TenantId) (key : CacheKey) (now_ms : ℕ) (list : ReplicaList)
    → (get_replica_list s tenant key now_ms).0 ≡ ok list
    → (object : CacheObjectMeta) × (lookup (tenant, key) s.objects ≡ some object)
      × (object.status ≡ committed)
      × (object.replicas ≡ list.replicas)
unfolding get_replica_list is_committed
get_replica_list-inv s tenant key now_ms list read =
    elim (Option-cases (lookup (tenant, key) s.objects)) [
      | inl missing ↦ absurd (ground arith)
      | inr (object, found) ↦ (object, found, ground arith, ground arith)
    ]

-- In a state that lists no key twice: after a read that succeeds, whatever calls come, as long as
-- none revokes or removes the object, none starts a lease on it that ends before that of the read,
-- and none evicts for its tenant once that lease has ended: the object is as it was, and another
-- read finds the same replicas.
pub read-run-read :
    (s : MasterState) (tenant : TenantId) (key : CacheKey) (read_ms now_ms : ℕ) (list : ReplicaList)
    (calls : List Call)
    → Unique s.objects
    → (get_replica_list s tenant key read_ms).0 ≡ ok list
    → All (Spares (tenant, key) list.lease.expires_at_ms) calls
    → let s' = run (get_replica_list s tenant key read_ms).1 calls in
      (lookup (tenant, key) s'.objects ≡ lookup (tenant, key) s.objects)
      × ((get_replica_list s' tenant key now_ms).0
          ≡ ok (record {
            replicas = list.replicas;
            lease = lease_new_at (saturating_add s'.next_lease_sequence 1) now_ms;
          }))
unfolding step
read-run-read s tenant key read_ms now_ms list calls u read spared =
    let (object, found, live, same) = get_replica_list-inv s tenant key read_ms list read in
    let s1 = (get_replica_list s tenant key read_ms).1 in
    let u1 = step-Unique s (reads tenant key read_ms) u in
    let found1 : lookup (tenant, key) s1.objects ≡ some object =
      ap (lookup (tenant, key)) (get_replica_list-objects s tenant key read_ms) ∙ found in
    let left =
      Spares-AllLeave (tenant, key) list.lease.expires_at_ms s1 calls u1
        (list.lease, get_replica_list-lease s tenant key read_ms list read, omega arith) spared in
    (
      run-Holds (tenant, key) object live s1 calls u1 left found1 ∙ sym found,
      run-read s1 calls tenant key object now_ms u1 left live found1
          ∙ ap
              (λ (replicas : List ReplicaDescriptor). CacheResult.ok (record {
                replicas = replicas;
                lease = lease_new_at (saturating_add (run s1 calls).next_lease_sequence 1) now_ms;
              }))
              same,
    )
