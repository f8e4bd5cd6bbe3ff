-- ===== src/Master/Allocator.antt =====
-- crates/master/src/allocator.rs: a bump allocator over the mounted segments.
pub mod Claim
pub mod FirstFit
pub mod Bounds
use mooncache.Prelude.{
  ℕ, suc, Bool, false, not, List, [], ◌∷◌, ◌++◌, none, some, leb, eqb, if◌then◌else◌, length,
  get_elem?, set, take, checked_add, saturating_add, Text, text,
}
use mooncache.Common.{CacheResult, ok, err, conflict}

pub record SegmentAllocation : Type 0 where
  pub node_id : Text
  pub offset : ℕ
  pub len : ℕ

pub record MountedSegment : Type 0 where
  pub node_id : Text
  pub len : ℕ
  pub next_offset : ℕ

pub record SegmentAllocator : Type 0 where
  pub segments : List MountedSegment

abbrev pub no_segments : SegmentAllocator
no_segments = record { segments = [] }

abbrev pub mounted : Text → ℕ → MountedSegment
mounted node_id len = record { node_id = node_id; len = len; next_offset = 0 }

-- `SegmentAllocator::mount_segment`: `Vec::push` adds at the end.
unfoldable pub allocator_mount : SegmentAllocator → Text → ℕ → SegmentAllocator
allocator_mount a node_id len = record { segments = a.segments ++ (mounted node_id len ∷ []) }

unfoldable pub can_fit : MountedSegment → ℕ → Bool
can_fit segment object_len = elim (checked_add segment.next_offset object_len) [
  | none ↦ false
  | some next_offset ↦ leb next_offset segment.len
]

-- `enumerate().filter_map(..)`, counting from `index`.
unfoldable pub fitting_indexes : ℕ → ℕ → List MountedSegment → List ℕ
fitting_indexes index len [] = []
fitting_indexes index len (segment ∷ segments) =
    let rest = fitting_indexes (suc index) len segments in
    if can_fit segment len then index ∷ rest else rest

abbrev pub allocation_in : MountedSegment → ℕ → SegmentAllocation
allocation_in segment len = record {
  node_id = segment.node_id;
  offset = segment.next_offset;
  len = len;
}

abbrev pub advanced : MountedSegment → ℕ → MountedSegment
advanced segment len = record segment { next_offset = saturating_add segment.next_offset len }

-- The `for` loop. The source would panic at an index out of range; here the round is left out, and
-- the number of allocations shows that this never happens.
unfoldable pub take_from :
    List ℕ → ℕ → List MountedSegment → List SegmentAllocation × List MountedSegment
take_from [] len segments = ([], segments)
take_from (index ∷ indexes) len segments = elim (get_elem? segments index) [
  | none ↦ take_from indexes len segments
  | some segment ↦
      let (allocations, after) =
        take_from indexes len (set segments index (advanced segment len)) in
      (allocation_in segment len ∷ allocations, after)
]

unfoldable pub allocate :
    SegmentAllocator → ℕ → ℕ → CacheResult (List SegmentAllocation) × SegmentAllocator
allocate a len replica_count =
    if eqb len 0
    then (err (conflict (text "object length must be greater than zero")), a)
    else if eqb replica_count 0
    then (err (conflict (text "replica count must be greater than zero")), a)
    else (let segment_indexes = take replica_count (fitting_indexes 0 len a.segments) in
        if not (eqb (length segment_indexes) replica_count)
        then (err (conflict (text "insufficient mounted segment capacity")), a)
        else (let (allocations, after) = take_from segment_indexes len a.segments in
            (ok allocations, record { segments = after })))
