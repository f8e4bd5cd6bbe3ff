-- ===== src/Master/State/Calls/Keeping.antt =====
-- The operations of crates/master/src/state.rs that only change the status of objects or drop them.
use mooncache.Prelude.{
  ℕ, ◌≡◌, refl, sym, ap, Bool, true, false, subst, ◌∙◌, inl, inr, some, arith, lookup, insert,
  remove, Unique, insert-Unique, remove-Unique, List, lookup-insert_inv, lookup-remove_inv,
  Option-cases, Bool-cases,
}
use mooncache.Common.{CacheResult, ok, err, TenantId, CacheKey, ObjectKey, object_key_eq}
use mooncache.Master.Object.{
  ObjectStatus, reserving, writing, committed, revoked, evicted, CacheObjectMeta, ReplicaDescriptor,
}
use mooncache.Master.State.{
  MasterState, mount_segment, put_start_allocated, with_status, retire, put_revoke, remove_object,
  put_end, get_replica_list, set_tenant_quota,
}
use mooncache.Master.State.Accounting.{Objects}
use mooncache.Master.State.Evicting.{evict_for_tenant_inv}
use mooncache.Master.Allocator.{SegmentAllocation, SegmentAllocator, allocate}
use mooncache.Master.State.Starting.{put_start_cases}
use mooncache.Master.State.Placement.{Keeps}
use mooncache.Master.State.Calls.{
  Call, mounts, sets_quota, starts, ends, revokes, removes, reads, evicts, step,
}

Keeps-refl : (objects : Objects) → Keeps objects objects
Keeps-refl objects k object found = (object, found, refl)

Keeps-trans : (a b c : Objects) → Keeps a b → Keeps b c → Keeps a c
Keeps-trans a b c h h' k object'' found =
    let (object', found', same') = h' k object'' found in
    let (object, found'', same) = h k object' found' in (object, found'', same' ∙ same)

Keeps-with_status :
    (status : ObjectStatus) (objects : Objects) (k : ObjectKey) (object : CacheObjectMeta)
    → lookup k objects ≡ some object
    → Keeps objects (insert k (with_status status object) objects)
Keeps-with_status status objects k object found j object' found' =
    elim (lookup-insert_inv k j (with_status status object) object' objects found') [
      | inl (here, same) ↦ (
        object,
        subst (λ j. lookup j objects ≡ some object) here found,
        sym (ap (λ (o : CacheObjectMeta). o.replicas) same),
      )
      | inr (_, old) ↦ (object', old, refl)
    ]

Keeps-remove :
    (objects : Objects) (k : ObjectKey) → Unique objects → Keeps objects (remove k objects)
Keeps-remove objects k u j object found =
    (object, (lookup-remove_inv k j object objects u found).1, refl)

-- `ObjectStatus::Reserving | ObjectStatus::Writing`
unfoldable pub is_open : ObjectStatus → Bool
is_open reserving = true
is_open writing = true
is_open _ = false

-- What one call may do to the map of the objects, but for a new object and an eviction.
data Effect (before after : Objects) : Type 0 where
  same : after ≡ before → Effect before after
  marked :
      (status : ObjectStatus) (k : ObjectKey) (object : CacheObjectMeta)
      → lookup k before ≡ some object
      → after ≡ insert k (with_status status object) before
      → Effect before after
  dropped : (k : ObjectKey) → after ≡ remove k before → Effect before after

Effect-Keeps : (before after : Objects) → Unique before → Effect before after → Keeps before after
Effect-Keeps before after u (same e) = subst (Keeps before) (sym e) (Keeps-refl before)
Effect-Keeps before after u (marked status k object found e) =
    subst (Keeps before) (sym e) (Keeps-with_status status before k object found)
Effect-Keeps before after u (dropped k e) = subst (Keeps before) (sym e) (Keeps-remove before k u)

module _ (s : MasterState) (tenant : TenantId) (key : CacheKey) where
  put_end-Effect : Effect s.objects (put_end s tenant key).1.objects
  unfolding put_end is_open
  put_end-Effect = elim (Option-cases (lookup (tenant, key) s.objects)) [
    | inl missing ↦ same (ground arith)
    | inr (object, found) ↦ elim (Bool-cases (is_open object.status)) [
      | inl writable ↦ marked committed (tenant, key) object found (ground arith)
      | inr closed ↦ same (ground arith)
    ]
  ]

  put_revoke-Effect : Effect s.objects (put_revoke s tenant key).1.objects
  unfolding put_revoke retire
  put_revoke-Effect = elim (Option-cases (lookup (tenant, key) s.objects)) [
    | inl missing ↦ same (ground arith)
    | inr (object, found) ↦ marked revoked (tenant, key) object found (ground arith)
  ]

  remove_object-Effect : Effect s.objects (remove_object s tenant key).1.objects
  unfolding remove_object
  remove_object-Effect = elim (Option-cases (lookup (tenant, key) s.objects)) [
    | inl missing ↦ same (ground arith)
    | inr (object, found) ↦ dropped (tenant, key) (ground arith)
  ]

-- Every call but a mount and a `put_start` keeps what there is, with its replicas.
abbrev pub IsQuiet : Call → Type 0
IsQuiet (mounts node_id len) = ⊥
IsQuiet (starts tenant key len replica_count) = ⊥
IsQuiet _ = Unit

pub step-Keeps :
    (s : MasterState) (call : Call)
    → IsQuiet call
    → Unique s.objects
    → Keeps s.objects (step s call).objects
unfolding step set_tenant_quota get_replica_list retire
step-Keeps s (mounts node_id len) quiet u = absurd quiet
step-Keeps s (starts tenant key len replica_count) quiet u = absurd quiet
step-Keeps s (sets_quota name dram_bytes ssd_bytes) quiet u =
    Effect-Keeps s.objects _ u (same (ground arith))
step-Keeps s (ends tenant key) quiet u = Effect-Keeps s.objects _ u (put_end-Effect s tenant key)
step-Keeps s (revokes tenant key) quiet u =
    Effect-Keeps s.objects _ u (put_revoke-Effect s tenant key)
step-Keeps s (removes tenant key) quiet u =
    Effect-Keeps s.objects _ u (remove_object-Effect s tenant key)
step-Keeps s (reads tenant key now_ms) quiet u = Effect-Keeps s.objects _ u (same (ground arith))
step-Keeps s (evicts tenant target now_ms) quiet u =
    evict_for_tenant_inv (λ s'. Keeps s.objects s'.objects) tenant
      (λ s' key object found h.
        Keeps-trans s.objects s'.objects _ h
          (Keeps-with_status evicted s'.objects (tenant, key) object found))
      s target now_ms (Keeps-refl s.objects)

Effect-Unique : (before after : Objects) → Effect before after → Unique before → Unique after
Effect-Unique before after (same e) u = subst Unique (sym e) u
Effect-Unique before after (marked status k object found e) u =
    subst Unique (sym e) (insert-Unique k (with_status status object) before u)
Effect-Unique before after (dropped k e) u = subst Unique (sym e) (remove-Unique k before u)

put_start_allocated-Unique :
    (tenant : TenantId) (key : CacheKey) (len : ℕ) (s : MasterState)
    (answer : CacheResult (List SegmentAllocation) × SegmentAllocator)
    → Unique s.objects
    → Unique (put_start_allocated tenant key len s answer).1.objects
unfolding put_start_allocated
put_start_allocated-Unique tenant key len s (err e, allocator) u = u
put_start_allocated-Unique tenant key len s (ok allocations, allocator) u =
    insert-Unique (tenant, key) _ s.objects u

-- No call lists a key twice.
pub step-Unique : (s : MasterState) (call : Call) → Unique s.objects → Unique (step s call).objects
unfolding step mount_segment set_tenant_quota get_replica_list retire
step-Unique s (mounts node_id len) u = u
step-Unique s (starts tenant key len replica_count) u =
    put_start_cases (λ (r : CacheResult (List ReplicaDescriptor) × MasterState). Unique r.1.objects)
      s tenant key len replica_count (λ e. u)
      (λ quotas free charged.
        put_start_allocated-Unique tenant key len (record s { quotas = quotas })
          (allocate s.allocator len replica_count) u)
step-Unique s (sets_quota name dram_bytes ssd_bytes) u =
    Effect-Unique s.objects _ (same (ground arith)) u
step-Unique s (ends tenant key) u = Effect-Unique s.objects _ (put_end-Effect s tenant key) u
step-Unique s (revokes tenant key) u = Effect-Unique s.objects _ (put_revoke-Effect s tenant key) u
step-Unique s (removes tenant key) u =
    Effect-Unique s.objects _ (remove_object-Effect s tenant key) u
step-Unique s (reads tenant key now_ms) u = Effect-Unique s.objects _ (same (ground arith)) u
step-Unique s (evicts tenant target now_ms) u =
    evict_for_tenant_inv (λ s'. Unique s'.objects) tenant
      (λ s' key object found h.
        insert-Unique (tenant, key) (with_status evicted object) s'.objects h)
      s target now_ms u
