-- ===== src/Master/State/Transitions.antt =====
-- The life of an object in crates/master/src/state.rs: how each call moves its status, in agreement
-- with what the call answers.
use mooncache.Prelude.{
  ℕ, ◌≡◌, ◌≢◌, refl, sym, subst, ap, ◌∙◌, ◌⊎◌, inl, inr, true, false, List, Option, none, some,
  arith, lookup, insert, remove, Unique, lookup-insert_self, lookup-remove, ◌==◌, ==_iff, ==_refl,
  Bool-cases, Option-cases,
}
use mooncache.Common.{
  not_found, CacheError, CacheResult, CacheResult-cases, ok, err, TenantId, CacheKey, ObjectKey,
  object_key_eq, tenant_id_eq, tenant_id_beq_iff,
}
use mooncache.Master.Object.{
  ObjectStatus, reserving, writing, committed, revoked, evicted, CacheObjectMeta, ReplicaDescriptor,
}
use mooncache.Master.State.{
  MasterState, mount_segment, with_status, retire, put_revoke, remove_object, put_end, put_start,
  evict_for_tenant,
}
use mooncache.Master.State.Frames.{
  put_start-other, put_end-other, put_revoke-other, remove_object-other,
}
use mooncache.Master.State.Writes.{put_start-ok, put_start-atomic, get_replica_list-objects}
use mooncache.Master.State.Holding.{set_tenant_quota-objects}
use mooncache.Master.State.Accounting.{Objects}
use mooncache.Master.State.Starting.{put_start_cases}
use mooncache.Master.State.Eviction.{evict_for_tenant_safe}
use mooncache.Master.State.Calls.Keeping.{is_open}
use mooncache.Master.State.Calls.{
  Call, mounts, sets_quota, starts, ends, revokes, removes, reads, evicts, step,
}
use mooncache.Master.State.Statuses.{
  status, status_of, IsOpen, IsElsewhere, Transition, stays, reserves, is_not_reserved, commits,
  is_not_committed, withdraws, is_not_withdrawn, clears, is_not_cleared, expels, is_not_expelled,
}

-- A call on one key: what it does to the object of that key, and that it leaves the others.
at_key :
    (s : MasterState) (call : Call) (key k : ObjectKey) (objects : Objects)
    → (key ≢ k → IsElsewhere call k)
    → ((key == k) ≡ false → lookup k objects ≡ lookup k s.objects)
    → Transition s call key (status_of key s.objects) (status_of key objects)
    → Transition s call k (status_of k s.objects) (status_of k objects)
at_key s call key k objects elsewhere others move = elim (Bool-cases (key == k)) [
  | inl here ↦
      subst (λ (j : ObjectKey). Transition s call j (status_of j s.objects) (status_of j objects))
        ((==_iff key k).0 here) move
  | inr there ↦
      stays (elsewhere (λ same. ground (arith, there, (==_iff key k).1 same)))
        (ap status (others there))
]

is_open-inv :
    (status : ObjectStatus) → is_open status ≡ true → (status ≡ reserving) ⊎ (status ≡ writing)
unfolding is_open
is_open-inv reserving h = inl refl
is_open-inv writing h = inr refl
is_open-inv committed h = ground arith
is_open-inv revoked h = ground arith
is_open-inv evicted h = ground arith

closed-IsOpen : (status : ObjectStatus) → is_open status ≡ false → ¬ IsOpen (some status)
unfolding is_open
closed-IsOpen reserving h o = ground arith
closed-IsOpen writing h o = ground arith
closed-IsOpen committed h o = ground arith
closed-IsOpen revoked h o = ground arith
closed-IsOpen evicted h o = ground arith

-- The end of a write that is not under way is refused.
put_end-closed :
    (s : MasterState) (tenant : TenantId) (key : CacheKey) (object : CacheObjectMeta)
    → lookup (tenant, key) s.objects ≡ some object
    → is_open object.status ≡ false
    → (e : CacheError) × ((put_end s tenant key).0 ≡ err e)
unfolding put_end is_open
put_end-closed s tenant key object found closed =
    elim (CacheResult-cases (put_end s tenant key).0) [
      | inr refused ↦ refused
      | inl (_, done) ↦ absurd (ground arith)
    ]

-- A write that starts found its key free.
put_start-free :
    (s : MasterState) (tenant : TenantId) (key : CacheKey) (len replica_count : ℕ)
    (replicas : List ReplicaDescriptor)
    → (put_start s tenant key len replica_count).0 ≡ ok replicas
    → lookup (tenant, key) s.objects ≡ none
put_start-free s tenant key len replica_count replicas =
    put_start_cases
      (λ (r : CacheResult (List ReplicaDescriptor) × MasterState).
        r.0 ≡ ok replicas → lookup (tenant, key) s.objects ≡ none)
      s tenant key len replica_count (λ e done. cc) (λ quotas free charged done. free)

module _ (s : MasterState) (tenant : TenantId) (key : CacheKey) where
  -- A call, with the objects after it, as it moves the object of its own key.
  abbrev Moves : Call → Objects → Type 0
  Moves call objects =
      Transition s call (tenant, key) (status_of (tenant, key) s.objects)
        (status_of (tenant, key) objects)

  put_end-Moves : Moves (ends tenant key) (put_end s tenant key).1.objects
  unfolding put_end is_open
  put_end-Moves = elim (Option-cases (lookup (tenant, key) s.objects)) [
    | inl missing ↦
        let refused : put_end s tenant key ≡ (err not_found, s) = rw (missing, put_end) in
        is_not_committed not_found refl
          (ap (λ (r : CacheResult (Unit {0}) × MasterState). r.0) refused)
          (λ o. ground (arith, missing))
          (ap (λ (r : CacheResult (Unit {0}) × MasterState). status_of (tenant, key) r.1.objects)
            refused)
    | inr (object, found) ↦ elim (Bool-cases (is_open object.status)) [
      | inl writable ↦
          let written : (put_end s tenant key).1.objects
              ≡ insert (tenant, key) (with_status committed object) s.objects =
            ground arith in
          commits refl (ground arith)
            (subst (λ (o : Option CacheObjectMeta). IsOpen (status o)) (sym found)
              (elim (is_open-inv object.status writable) [
                | inl e ↦ inl (ap some e)
                | inr e ↦ inr (ap some e)
              ]))
            (ap (status_of (tenant, key)) written
              ∙ ap status
                  (lookup-insert_self (tenant, key) (with_status committed object) s.objects))
      | inr closed ↦
          let same : (put_end s tenant key).1.objects ≡ s.objects = ground arith in
          let (e, refused) : (e : CacheError) × ((put_end s tenant key).0 ≡ err e) =
            put_end-closed s tenant key object found closed in
          is_not_committed e refl refused
            (subst (λ (o : Option CacheObjectMeta). ¬ IsOpen (status o)) (sym found)
              (closed-IsOpen object.status closed))
            (ap (status_of (tenant, key)) same)
    ]
  ]

  put_revoke-Moves : Moves (revokes tenant key) (put_revoke s tenant key).1.objects
  unfolding put_revoke retire
  put_revoke-Moves = elim (Option-cases (lookup (tenant, key) s.objects)) [
    | inl missing ↦
        rw (missing, put_revoke)
          (is_not_withdrawn refl (rw (missing, put_revoke)) refl (ap status missing))
    | inr (object, found) ↦
        let gone : (put_revoke s tenant key).1.objects
            ≡ insert (tenant, key) (with_status revoked object) s.objects =
          rw (found, put_revoke) in
        withdraws object.status refl (rw (found, put_revoke)) (ap status found) (
          ap (status_of (tenant, key)) gone
          ∙ ap status (lookup-insert_self (tenant, key) (with_status revoked object) s.objects))
  ]

  remove_object-Moves :
      Unique s.objects → Moves (removes tenant key) (remove_object s tenant key).1.objects
  unfolding remove_object
  remove_object-Moves u = elim (Option-cases (lookup (tenant, key) s.objects)) [
    | inl missing ↦
        let refused : remove_object s tenant key ≡ (err not_found, s) =
          rw (missing, remove_object) in
        is_not_cleared refl (ap (λ (r : CacheResult (Unit {0}) × MasterState). r.0) refused)
          (ap status missing)
          (ap (λ (r : CacheResult (Unit {0}) × MasterState). status_of (tenant, key) r.1.objects)
              refused
            ∙ ap status missing)
    | inr (object, found) ↦
        let removed : (remove_object s tenant key).1.objects ≡ remove (tenant, key) s.objects =
          rw (found, remove_object) in
        let gone : lookup (tenant, key) (remove (tenant, key) s.objects) ≡ none = ground (
          arith,
          ==_refl {A = ObjectKey} (tenant, key),
          lookup-remove (tenant, key) (tenant, key) s.objects u,
        ) in
        clears object.status refl (rw (found, remove_object)) (ap status found)
          (ap (status_of (tenant, key)) removed ∙ ap status gone)
  ]

  put_start-Moves :
      (len replica_count : ℕ)
      → Moves
          (starts tenant key len replica_count)
          (put_start s tenant key len replica_count).1.objects
  put_start-Moves len replica_count =
      elim (CacheResult-cases (put_start s tenant key len replica_count).0) [
        | inr (e, refused) ↦ is_not_reserved len replica_count e refl refused (
            ap (λ (t : MasterState). status_of (tenant, key) t.objects)
              (put_start-atomic s tenant key len replica_count e refused))
        | inl (replicas, started) ↦
            reserves len replica_count replicas refl started
              (ap status (put_start-free s tenant key len replica_count replicas started))
              (ap status (put_start-ok s tenant key len replica_count replicas started).0)
      ]

evict_for_tenant-Transition :
    (s : MasterState) (tenant : TenantId) (target now_ms : ℕ) (k : ObjectKey)
    → Unique s.objects
    → Transition s
        (evicts tenant target now_ms)
        k
        (status_of k s.objects)
        (status_of k (evict_for_tenant s tenant target now_ms).1.objects)
evict_for_tenant-Transition s tenant target now_ms k u =
    elim (evict_for_tenant_safe s tenant target now_ms k u) [
      | inl same ↦ elim (Bool-cases (tenant == k.0)) [
        | inl mine ↦
            is_not_expelled target now_ms
              (ap (λ (t : TenantId). evicts t target now_ms)
                ((tenant_id_beq_iff tenant k.0).0 mine))
              (ap status same)
        | inr other ↦
            stays (λ e. ground (arith, other, (tenant_id_beq_iff tenant k.0).1 e)) (ap status same)
      ]
      | inr (mine, (object, candidate, marked)) ↦
          let found =
            subst (λ (t : TenantId). lookup (t, k.1) s.objects ≡ some object) (sym mine)
              candidate.found in
          expels target now_ms (ap (λ (t : TenantId). evicts t target now_ms) (sym mine))
            (ap status found ∙ ap some candidate.is_live) (ap status marked)
    ]

-- In a state that lists no key twice, each call moves the status of each object as `Transition`
-- says, in agreement with its answer: a `put_start` that succeeds reserves a free key; a `put_end`
-- commits exactly an object that is being written; a `put_revoke` revokes whatever object is
-- there, also a committed or an evicted one; a removal clears it; an eviction takes committed
-- objects only; a call that is refused, or that is not about the object, leaves it.
pub step-Transition :
    (s : MasterState) (call : Call) (k : ObjectKey)
    → Unique s.objects
    → Transition s call k (status_of k s.objects) (status_of k (step s call).objects)
unfolding step mount_segment
step-Transition s (mounts node_id len) k u = stays tt refl
step-Transition s (sets_quota name dram_bytes ssd_bytes) k u =
    stays tt (ap (status_of k) (set_tenant_quota-objects s name dram_bytes ssd_bytes))
step-Transition s (starts tenant key len replica_count) k u =
    at_key s _ (tenant, key) k _ (λ n. n)
      (λ there. put_start-other s tenant key k there len replica_count)
      (put_start-Moves s tenant key len replica_count)
step-Transition s (ends tenant key) k u =
    at_key s _ (tenant, key) k _ (λ n. n) (put_end-other s tenant key k)
      (put_end-Moves s tenant key)
step-Transition s (revokes tenant key) k u =
    at_key s _ (tenant, key) k _ (λ n. n) (put_revoke-other s tenant key k)
      (put_revoke-Moves s tenant key)
step-Transition s (removes tenant key) k u =
    at_key s _ (tenant, key) k _ (λ n. n) (remove_object-other s tenant key k)
      (remove_object-Moves s tenant key u)
step-Transition s (reads tenant key now_ms) k u =
    stays tt (ap (status_of k) (get_replica_list-objects s tenant key now_ms))
step-Transition s (evicts tenant target now_ms) k u =
    evict_for_tenant-Transition s tenant target now_ms k u
