-- ===== src/Master/State/Frames.antt =====
-- What the operations of crates/master/src/state.rs on one key leave: the objects of other keys.
use mooncache.Prelude.{
  ℕ, ◌≡◌, refl, inl, inr, List, false, arith, lookup, lookup-insert_ne, lookup-remove_ne,
  Option-cases, ◌==◌,
}
use mooncache.Common.{CacheResult, ok, err, TenantId, CacheKey, ObjectKey, object_key_eq}
use mooncache.Master.Object.{ReplicaDescriptor, committed}
use mooncache.Master.Allocator.{SegmentAllocation, SegmentAllocator, allocate}
use mooncache.Master.State.{
  MasterState, with_status, retire, put_revoke, remove_object, put_end, put_start,
  put_start_allocated,
}
use mooncache.Master.State.Starting.{put_start_cases}

module _ (s : MasterState) (tenant : TenantId) (key : CacheKey) (k : ObjectKey)
    (there : ((tenant, key) == k) ≡ false) where
  pub put_end-other : lookup k (put_end s tenant key).1.objects ≡ lookup k s.objects
  unfolding put_end
  put_end-other = elim (Option-cases (lookup (tenant, key) s.objects)) [
    | inl missing ↦ ground arith
    | inr (old, found) ↦
        ground (arith, lookup-insert_ne (tenant, key) k (with_status committed old) s.objects there)
  ]

  pub put_revoke-other : lookup k (put_revoke s tenant key).1.objects ≡ lookup k s.objects
  unfolding put_revoke retire
  put_revoke-other = elim (Option-cases (lookup (tenant, key) s.objects)) [
    | inl missing ↦ rw (missing, put_revoke)
    | inr (old, found) ↦ rw (found, put_revoke) (lookup-insert_ne (tenant, key) k _ s.objects there)
  ]

  pub remove_object-other : lookup k (remove_object s tenant key).1.objects ≡ lookup k s.objects
  unfolding remove_object
  remove_object-other = elim (Option-cases (lookup (tenant, key) s.objects)) [
    | inl missing ↦ rw (missing, remove_object)
    | inr (old, found) ↦
        rw (found, remove_object) (lookup-remove_ne (tenant, key) k s.objects there)
  ]

  put_start_allocated-other :
      (len : ℕ) (s' : MasterState)
      (answer : CacheResult (List SegmentAllocation) × SegmentAllocator)
      → lookup k (put_start_allocated tenant key len s' answer).1.objects ≡ lookup k s'.objects
  unfolding put_start_allocated
  put_start_allocated-other len s' (err e, allocator) = refl
  put_start_allocated-other len s' (ok allocations, allocator) =
      lookup-insert_ne (tenant, key) k _ s'.objects there

  pub put_start-other :
      (len replica_count : ℕ)
      → lookup k (put_start s tenant key len replica_count).1.objects ≡ lookup k s.objects
  put_start-other len replica_count =
      put_start_cases
        (λ (r : CacheResult (List ReplicaDescriptor) × MasterState).
          lookup k r.1.objects ≡ lookup k s.objects)
        s tenant key len replica_count (λ e. refl)
        (λ quotas free charged.
          put_start_allocated-other len (record s { quotas = quotas })
            (allocate s.allocator len replica_count))
