-- ===== src/Master/State/Calls/Placed.antt =====
-- Placement over whole runs of crates/master/src/state.rs.
use mooncache.Prelude.{
  ℕ, ◌+◌, ◌≤◌, ◌≡◌, ◌≢◌, refl, sym, ap, subst, ◌∙◌, ◌⊎◌, inl, inr, List, [], ◌∷◌, ◌++◌, map, none,
  some, arith, insert, All, All-append, All-imp, NoRepeat, NoRepeat-append_left, NoRepeat-middle,
  Text, lookup, Unique, u64_max,
}
use mathlib.Core.List.{append_assoc, map-append}
use mooncache.Common.{CacheResult, ok, err, TenantId, CacheKey, ObjectKey, object_key_eq}
use mooncache.Master.Object.{CacheObjectMeta, ReplicaDescriptor}
use mooncache.Master.Allocator.{
  MountedSegment, SegmentAllocation, SegmentAllocator, mounted, allocator_mount, allocate,
}
use mooncache.Master.Allocator.Claim.{claim, claim_induction, Claimed, allocate-claim, allocate-err}
use mooncache.Master.Allocator.Bounds.{capacity}
use mooncache.Master.State.{
  MasterState, default_state, mount_segment, put_start_allocated, reserved_object, replica_of,
}
use mooncache.Master.State.Starting.{put_start_cases}
use mooncache.Master.State.Spans.{Distinct, IsBelow, EndsBelow, IsMounted}
use mooncache.Master.State.Placement.{AllDisjoint, IsPlaced, Keeps-IsPlaced, claimed-IsPlaced}
use mooncache.Master.State.Calls.{
  Call, mounts, sets_quota, starts, ends, revokes, removes, reads, evicts, step, run,
}
use mooncache.Master.State.Calls.Segments.{segments_of, step-segments}
use mooncache.Master.State.Calls.Capacity.{
  capacity_of, mounted_bytes, mounted_bytes-cons, step-capacity,
}
use mooncache.Master.State.Calls.Keeping.{IsQuiet, step-Keeps}
use mooncache.Master.State.Calls.Sound.{IsSound, step-IsSound, default-IsSound}

abbrev pub node_ids : List MountedSegment → List Text
node_ids = map λ segment. segment.node_id

-- The nodes that a list of calls mounts.
unfoldable pub mounted_nodes : List Call → List Text
mounted_nodes [] = []
mounted_nodes (mounts node_id len ∷ calls) = node_id ∷ mounted_nodes calls
mounted_nodes (_ ∷ calls) = mounted_nodes calls

node_ids-All :
    (P : Text → Type 0) (segments : List MountedSegment)
    → All P (node_ids segments)
    → All (λ segment. P segment.node_id) segments
node_ids-All P [] h = tt
node_ids-All P (segment ∷ segments) h = (h.0, node_ids-All P segments h.1)

NoRepeat-Distinct :
    (segments : List MountedSegment) → NoRepeat (node_ids segments) → Distinct segments
NoRepeat-Distinct [] h = tt
NoRepeat-Distinct (segment ∷ segments) h =
    (node_ids-All _ segments h.0, NoRepeat-Distinct segments h.1)

node_ids-claim :
    (count len : ℕ) (segments : List MountedSegment)
    → node_ids (claim count len segments).1 ≡ node_ids segments
node_ids-claim count len =
    claim_induction len (λ segments r. node_ids r.1 ≡ node_ids segments)
      (record {
        done = λ segments. refl;
        room = λ segment segments r fits ih. ap (◌∷◌ segment.node_id) ih;
        full = λ segment segments r ih. ap (◌∷◌ segment.node_id) ih;
      })
      count

start-node_ids :
    (count len : ℕ) (before after : List MountedSegment)
    → (after ≡ before) ⊎ (after ≡ (claim count len before).1)
    → node_ids after ≡ node_ids before
start-node_ids count len before after (inl same) = ap node_ids same
start-node_ids count len before after (inr taken) =
    ap node_ids taken ∙ node_ids-claim count len before

-- A call adds the node that it mounts to the nodes, and changes no other.
pub step-node_ids :
    (s : MasterState) (call : Call) (calls : List Call)
    → node_ids (segments_of (step s call)) ++ mounted_nodes calls
      ≡ node_ids (segments_of s) ++ mounted_nodes (call ∷ calls)
unfolding mounted_nodes
step-node_ids s (mounts node_id len) calls =
    ap (λ (segments : List MountedSegment). node_ids segments ++ mounted_nodes calls)
      (step-segments s (mounts node_id len))
    ∙ (ap (λ (nodes : List Text). nodes ++ mounted_nodes calls)
          (map-append _ (segments_of s) (mounted node_id len ∷ []))
        ∙ append_assoc (node_ids (segments_of s)) (node_id ∷ []) (mounted_nodes calls))
step-node_ids s (starts tenant key len replica_count) calls =
    ap (λ (nodes : List Text). nodes ++ mounted_nodes calls)
      (start-node_ids replica_count len _ _ (step-segments s (starts tenant key len replica_count)))
step-node_ids s call calls =
    ap (λ (segments : List MountedSegment). node_ids segments ++ mounted_nodes calls)
      (step-segments s call)

IsMounted-append :
    (node : Text) (xs ys : List MountedSegment) → IsMounted node xs → IsMounted node (xs ++ ys)
IsMounted-append node [] ys h = absurd h
IsMounted-append node (x ∷ xs) ys (inl here) = inl here
IsMounted-append node (x ∷ xs) ys (inr there) = inr (IsMounted-append node xs ys there)

IsMounted-ne :
    (node other : Text) (segments : List MountedSegment)
    → IsMounted node segments
    → All (λ name. other ≢ name) (node_ids segments)
    → other ≢ node
IsMounted-ne node other [] here h e = here
IsMounted-ne node other (x ∷ xs) (inl here) h e = h.0 (e ∙ sym here)
IsMounted-ne node other (x ∷ xs) (inr there) h e = IsMounted-ne node other xs there h.1 e

-- A new node has no replica yet.
mount-IsBelow :
    (q : ReplicaDescriptor) (node : Text) (len : ℕ) (segments : List MountedSegment)
    → All (λ name. node ≢ name) (node_ids segments)
    → IsBelow q segments
    → IsBelow q (segments ++ (mounted node len ∷ []))
mount-IsBelow q node len segments fresh b = record {
  ends =
      All-append (EndsBelow q) segments (mounted node len ∷ []) b.ends
        ((λ same. absurd (IsMounted-ne q.node_id node segments b.known fresh same)), tt);
  known = IsMounted-append q.node_id segments (mounted node len ∷ []) b.known;
}

abbrev IsPlacedState : MasterState → Type 0
IsPlacedState s = IsPlaced s.objects (segments_of s)

quiet-IsPlaced :
    (s : MasterState) (call : Call)
    → IsQuiet call
    → segments_of (step s call) ≡ segments_of s
    → Unique s.objects
    → IsPlacedState s
    → IsPlacedState (step s call)
quiet-IsPlaced s call quiet same u p =
    subst (IsPlaced (step s call).objects) (sym same)
      (Keeps-IsPlaced s.objects (step s call).objects (segments_of s) (step-Keeps s call quiet u) p)

start-IsPlaced :
    (s : MasterState) (tenant : TenantId) (key : CacheKey) (len replica_count : ℕ)
    (r : CacheResult (List SegmentAllocation) × SegmentAllocator)
    → lookup (tenant, key) s.objects ≡ none
    → allocate s.allocator len replica_count ≡ r
    → Distinct (segments_of s)
    → IsPlacedState s
    → IsPlacedState (put_start_allocated tenant key len s r).1
unfolding put_start_allocated
start-IsPlaced s tenant key len replica_count (err e, a) free done single p =
    subst (λ (a : SegmentAllocator). IsPlaced s.objects a.segments)
      (sym (allocate-err s.allocator a len replica_count e done)) p
start-IsPlaced s tenant key len replica_count (ok allocations, a) free done single p =
    let pass = (allocate-claim s.allocator a len replica_count allocations done).0 in
    let object = reserved_object tenant key len (map replica_of allocations) in
    subst (λ (r : Claimed). IsPlaced (insert (tenant, key) object s.objects) r.1) pass
      (claimed-IsPlaced s.objects (segments_of s) replica_count len (tenant, key) object free
        (ap (λ (r : Claimed). map replica_of r.0) (sym pass)) single p)

step-IsPlaced :
    (s : MasterState) (call : Call)
    → NoRepeat (node_ids (segments_of s) ++ mounted_nodes (call ∷ []))
    → Unique s.objects
    → IsPlacedState s
    → IsPlacedState (step s call)
unfolding step mount_segment allocator_mount mounted_nodes
step-IsPlaced s (mounts node_id len) once u p = record {
  below = λ k object found.
      All-imp _ _
        (λ q b.
          mount-IsBelow q node_id len (segments_of s)
            (NoRepeat-middle (node_ids (segments_of s)) node_id [] once) b)
        object.replicas (p.below k object found);
  apart = p.apart;
}
step-IsPlaced s (starts tenant key len replica_count) once u p =
    put_start_cases (λ r. IsPlacedState r.1) s tenant key len replica_count (λ e. p)
      λ quotas free done.
        start-IsPlaced (record s { quotas = quotas }) tenant key len replica_count _ free refl
          (NoRepeat-Distinct (segments_of s)
            (NoRepeat-append_left (node_ids (segments_of s)) [] once))
          p
step-IsPlaced s (sets_quota name dram_bytes ssd_bytes) once u p =
    quiet-IsPlaced s (sets_quota name dram_bytes ssd_bytes) tt
      (step-segments s (sets_quota name dram_bytes ssd_bytes)) u p
step-IsPlaced s (ends tenant key) once u p =
    quiet-IsPlaced s (ends tenant key) tt (step-segments s (ends tenant key)) u p
step-IsPlaced s (revokes tenant key) once u p =
    quiet-IsPlaced s (revokes tenant key) tt (step-segments s (revokes tenant key)) u p
step-IsPlaced s (removes tenant key) once u p =
    quiet-IsPlaced s (removes tenant key) tt (step-segments s (removes tenant key)) u p
step-IsPlaced s (reads tenant key now_ms) once u p =
    quiet-IsPlaced s (reads tenant key now_ms) tt (step-segments s (reads tenant key now_ms)) u p
step-IsPlaced s (evicts tenant target now_ms) once u p =
    quiet-IsPlaced s (evicts tenant target now_ms) tt
      (step-segments s (evicts tenant target now_ms)) u p

mounted_nodes-cons :
    (call : Call) (calls : List Call)
    → mounted_nodes (call ∷ calls) ≡ mounted_nodes (call ∷ []) ++ mounted_nodes calls
unfolding mounted_nodes
mounted_nodes-cons (mounts node_id len) calls = refl
mounted_nodes-cons _ calls = refl

first_once :
    (nodes : List Text) (call : Call) (calls : List Call)
    → NoRepeat (nodes ++ mounted_nodes (call ∷ calls))
    → NoRepeat (nodes ++ mounted_nodes (call ∷ []))
first_once nodes call calls once =
    NoRepeat-append_left (nodes ++ mounted_nodes (call ∷ [])) (mounted_nodes calls) (
      subst NoRepeat
        (ap (λ (rest : List Text). nodes ++ rest) (mounted_nodes-cons call calls)
          ∙ sym (append_assoc nodes (mounted_nodes (call ∷ [])) (mounted_nodes calls)))
        once)

run-IsPlaced :
    (s : MasterState) (calls : List Call)
    → capacity_of s + mounted_bytes calls ≤ u64_max
    → NoRepeat (node_ids (segments_of s) ++ mounted_nodes calls)
    → IsSound s
    → IsPlacedState s
    → IsPlacedState (run s calls)
unfolding run
run-IsPlaced s [] fits once sound p = p
run-IsPlaced s (call ∷ calls) fits once sound p =
    run-IsPlaced (step s call) calls
      (omega (arith, step-capacity s call, mounted_bytes-cons call calls))
      (subst NoRepeat (sym (step-node_ids s call calls)) once)
      (step-IsSound s call (omega arith) sound)
      (step-IsPlaced s call (first_once (node_ids (segments_of s)) call calls once)
        sound.well_formed.objects_unique p)

default-IsPlaced : IsPlacedState default_state
unfolding lookup
default-IsPlaced = record {
  below = λ k object found. cc;
  apart = λ k k' object object' differ found found'. cc;
}

-- From the empty state, every sequence of calls that mounts no node twice, and at most `u64::MAX`
-- bytes, leads to a state in which the replicas of two different objects have no byte of a node in
-- common.
pub run_disjoint :
    (calls : List Call) (k k' : ObjectKey) (object object' : CacheObjectMeta)
    → mounted_bytes calls ≤ u64_max
    → NoRepeat (mounted_nodes calls)
    → k ≢ k'
    → lookup k (run default_state calls).objects ≡ some object
    → lookup k' (run default_state calls).objects ≡ some object'
    → AllDisjoint object.replicas object'.replicas
unfolding capacity
run_disjoint calls k k' object object' fits once differ =
    (run-IsPlaced default_state calls (omega arith) once default-IsSound default-IsPlaced).apart k
      k' object object' differ
