-- ===== src/Master/Allocator/FirstFit.antt =====
-- crates/master/src/allocator.rs: `allocate` takes the next free bytes of the first segments that
-- have room, one span of each, and nothing if there are too few of them.
use mooncache.Prelude.{
  ℕ, zero, suc, ◌+◌, ◌≤◌, ◌<◌, ◌≡◌, ◌⊎◌, refl, ap, ◌∙◌, inl, inr, true, false, List, [], ◌∷◌, arith,
  length, take, eqb, Bool-cases, checked_add, saturating_add, u64_max, text,
}
use mooncache.Common.{CacheError, ok, err, conflict}
use mooncache.Master.Allocator.{
  SegmentAllocation, MountedSegment, SegmentAllocator, can_fit, fitting_indexes, allocate,
}
use mooncache.Master.Allocator.Claim.{claim, take_from-claim, length-claim}

-- The segment has `len` free bytes, and the offset behind them is a `u64`.
abbrev pub HasRoom : ℕ → MountedSegment → Type 0
HasRoom len segment =
    (segment.next_offset + len ≤ segment.len) × (segment.next_offset + len ≤ u64_max)

-- From `segments` to `after`, `allocations` are taken: each is the next free bytes of a segment that
-- has room, every segment gives one at most, and a segment is passed over only if it has no room.
pub data Takes (len : ℕ)
    : List MountedSegment → List SegmentAllocation → List MountedSegment → Type 0 where
  done : (segments : List MountedSegment) → Takes len segments [] segments
  takes :
      (segment : MountedSegment) (segments after : List MountedSegment)
      (allocations : List SegmentAllocation)
      → HasRoom len segment
      → Takes len segments allocations after
      → Takes len
          (segment ∷ segments)
          (record { node_id = segment.node_id; offset = segment.next_offset; len = len }
            ∷ allocations)
          (record {
            node_id = segment.node_id;
            len = segment.len;
            next_offset = segment.next_offset + len;
          }
            ∷ after)
  passes :
      (segment : MountedSegment) (segments after : List MountedSegment)
      (allocations : List SegmentAllocation)
      → ¬ HasRoom len segment
      → Takes len segments allocations after
      → Takes len (segment ∷ segments) allocations (segment ∷ after)

-- `count` of the segments have room.
pub data Rooms (len : ℕ) : List MountedSegment → ℕ → Type 0 where
  none_left : Rooms len [] 0
  has_room :
      (segment : MountedSegment) (segments : List MountedSegment) (count : ℕ)
      → HasRoom len segment
      → Rooms len segments count
      → Rooms len (segment ∷ segments) (suc count)
  is_full :
      (segment : MountedSegment) (segments : List MountedSegment) (count : ℕ)
      → ¬ HasRoom len segment
      → Rooms len segments count
      → Rooms len (segment ∷ segments) count

can_fit-true :
    (segment : MountedSegment) (len : ℕ) → can_fit segment len ≡ true → HasRoom len segment
unfolding can_fit checked_add
can_fit-true segment len h = (ground arith, ground arith)

can_fit-false :
    (segment : MountedSegment) (len : ℕ) → can_fit segment len ≡ false → ¬ HasRoom len segment
unfolding can_fit checked_add
can_fit-false segment len h room = ground (arith, room.0, room.1)

claim-Takes :
    (count len : ℕ) (segments : List MountedSegment)
    → Takes len segments (claim count len segments).0 (claim count len segments).1
unfolding claim saturating_add
claim-Takes zero len segments = done segments
claim-Takes (suc count) len [] = done []
claim-Takes (suc count) len (segment ∷ segments) = elim (Bool-cases (can_fit segment len)) [
  | inl room ↦
      let (fits, small) = can_fit-true segment len room in
      let exact : saturating_add segment.next_offset len ≡ segment.next_offset + len =
        ground (arith, small) in
      rw (room, exact) (takes segment segments _ _ (fits, small) (claim-Takes count len segments))
  | inr full ↦ rw full (
      passes segment segments _ _ (can_fit-false segment len full)
        (claim-Takes (suc count) len segments))
]

fitting_indexes-Rooms :
    (index len : ℕ) (segments : List MountedSegment)
    → Rooms len segments (length (fitting_indexes index len segments))
unfolding fitting_indexes
fitting_indexes-Rooms index len [] = none_left
fitting_indexes-Rooms index len (segment ∷ segments) =
    let rest = fitting_indexes-Rooms (suc index) len segments in
    elim (Bool-cases (can_fit segment len)) [
      | inl room ↦ rw room (has_room segment segments _ (can_fit-true segment len room) rest)
      | inr full ↦ rw full (is_full segment segments _ (can_fit-false segment len full) rest)
    ]

-- Why an `allocate` has to be refused.
abbrev pub IsRefusable : ℕ → ℕ → ℕ → Type 0
IsRefusable len replica_count rooms = (len ≡ 0) ⊎ ((replica_count ≡ 0) ⊎ (rooms < replica_count))

-- What `allocate` answers, and the segments after it.
abbrev pub Allocates : SegmentAllocator → ℕ → ℕ → Type 0
Allocates a len replica_count =
    (allocations : List SegmentAllocation) × (after : List MountedSegment) × (allocate a len
        replica_count
      ≡ (ok allocations, record { segments = after }))
    × (length allocations ≡ replica_count)
    × Takes len a.segments allocations after

abbrev pub Refuses : SegmentAllocator → ℕ → ℕ → Type 0
Refuses a len replica_count = (e : CacheError) × (allocate a len replica_count ≡ (err e, a))

length-take_lem : (n : ℕ) (xs : List ℕ) → n ≤ length xs → length (take n xs) ≡ n
length-take_lem zero xs h = refl
length-take_lem (suc n) [] h = ground arith
length-take_lem (suc n) (x ∷ xs) h = ap suc (length-take_lem n xs (omega arith))

length-take_le : (n : ℕ) (xs : List ℕ) → length (take n xs) ≤ length xs
length-take_le zero xs = omega arith
length-take_le (suc n) [] = omega arith
length-take_le (suc n) (x ∷ xs) = omega (arith, length-take_le n xs)

-- With `rooms` the number of segments that have room: `allocate` succeeds exactly when the length and
-- the number of replicas are positive and there are as many segments with room as replicas. It then
-- takes the next free bytes of the first of these segments, one span for each replica, and advances
-- them by the length. If it is refused the allocator is as it was.
pub allocate-first_fit :
    (a : SegmentAllocator) (len replica_count : ℕ)
    → (rooms : ℕ) × Rooms len a.segments rooms
      × (((¬ IsRefusable len replica_count rooms) × Allocates a len replica_count)
          ⊎ (IsRefusable len replica_count rooms × Refuses a len replica_count))
unfolding allocate
allocate-first_fit a len replica_count =
    let indexes = fitting_indexes 0 len a.segments in
    (
      length indexes,
      fitting_indexes-Rooms 0 len a.segments,
      elim (Bool-cases (eqb len 0)) [
        | inl empty ↦ inr (
          inl (ground arith),
          (conflict (text "object length must be greater than zero"), rw (empty, allocate)),
        )
        | inr nonempty ↦ elim (Bool-cases (eqb replica_count 0)) [
          | inl no_replicas ↦ inr (
            inr (inl (ground arith)),
            (
              conflict (text "replica count must be greater than zero"),
              rw (nonempty, allocate, no_replicas),
            ),
          )
          | inr some_replicas ↦
              elim (Bool-cases (eqb (length (take replica_count indexes)) replica_count)) [
                | inr few ↦ inr (
                  inr (inr (ground (arith, length-take_lem replica_count indexes))),
                  (
                    conflict (text "insufficient mounted segment capacity"),
                    rw (nonempty, allocate, some_replicas, few),
                  ),
                )
                | inl enough ↦ inl (
                  (λ refusable. ground (arith, length-take_le replica_count indexes)),
                  (
                    (claim replica_count len a.segments).0,
                    (claim replica_count len a.segments).1,
                    rw (
                      nonempty,
                      allocate,
                      some_replicas,
                      enough,
                      take_from-claim replica_count len a.segments,
                    ),
                    length-claim replica_count len a.segments ∙ ground arith,
                    claim-Takes replica_count len a.segments,
                  ),
                )
              ]
        ]
      ],
    )
