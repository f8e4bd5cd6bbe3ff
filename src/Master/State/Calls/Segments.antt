-- ===== src/Master/State/Calls/Segments.antt =====
-- What each operation of crates/master/src/state.rs does to the segments: a mount adds one,
-- `put_start` takes from them, and no other operation touches them.
use mooncache.Prelude.{ℕ, ◌≡◌, refl, sym, ap, ◌⊎◌, inl, inr, List, [], ◌∷◌, ◌++◌, arith}
use mooncache.Common.{CacheResult, ok, err, TenantId, CacheKey, object_key_eq}
use mooncache.Master.Allocator.{
  MountedSegment, SegmentAllocation, SegmentAllocator, mounted, allocator_mount, allocate,
}
use mooncache.Master.Allocator.Claim.{allocate-claim, allocate-err, claim, Claimed}
use mooncache.Master.State.{
  MasterState, put_revoke, remove_object, put_end, get_replica_list, set_tenant_quota,
  put_start_allocated, mount_segment, retire,
}
use mooncache.Master.State.Starting.{put_start_cases}
use mooncache.Master.State.Evicting.{evict_for_tenant_inv}
use mooncache.Master.State.Calls.{
  Call, mounts, sets_quota, starts, ends, revokes, removes, reads, evicts, step,
}

abbrev pub segments_of : MasterState → List MountedSegment
segments_of s = s.allocator.segments

-- The segments after a call.
abbrev pub SegmentsAfter : Call → List MountedSegment → List MountedSegment → Type 0
SegmentsAfter (mounts node_id len) before after = after ≡ before ++ (mounted node_id len ∷ [])
SegmentsAfter (starts tenant key len replica_count) before after =
    (after ≡ before) ⊎ (after ≡ (claim replica_count len before).1)
SegmentsAfter _ before after = after ≡ before

start-segments :
    (s : MasterState) (tenant : TenantId) (key : CacheKey) (len replica_count : ℕ)
    (r : CacheResult (List SegmentAllocation) × SegmentAllocator)
    → allocate s.allocator len replica_count ≡ r
    → let after = segments_of (put_start_allocated tenant key len s r).1 in
      (after ≡ segments_of s) ⊎ (after ≡ (claim replica_count len (segments_of s)).1)
unfolding put_start_allocated
start-segments s tenant key len replica_count (err e, a) done = inl (
    ap (λ (a : SegmentAllocator). a.segments) (allocate-err s.allocator a len replica_count e done))
start-segments s tenant key len replica_count (ok allocations, a) done = inr (
    sym (
      ap (λ (r : Claimed). r.1)
        (allocate-claim s.allocator a len replica_count allocations done).0))

pub step-segments :
    (s : MasterState) (call : Call) → SegmentsAfter call (segments_of s) (segments_of (step s call))
unfolding step mount_segment set_tenant_quota put_end put_revoke get_replica_list remove_object
    retire allocator_mount
step-segments s (mounts node_id len) = refl
step-segments s (sets_quota name dram_bytes ssd_bytes) = ground arith
step-segments s (starts tenant key len replica_count) =
    put_start_cases
      (λ r.
        (segments_of r.1 ≡ segments_of s)
        ⊎ (segments_of r.1 ≡ (claim replica_count len (segments_of s)).1))
      s tenant key len replica_count (λ e. inl refl)
      λ quotas free done.
        start-segments (record s { quotas = quotas }) tenant key len replica_count _ refl
step-segments s (ends tenant key) = ground arith
step-segments s (revokes tenant key) = ground arith
step-segments s (removes tenant key) = ground arith
step-segments s (reads tenant key now_ms) = ground arith
step-segments s (evicts tenant target now_ms) =
    evict_for_tenant_inv (λ s'. segments_of s' ≡ segments_of s) tenant (λ s' key object found e. e)
      s target now_ms refl
