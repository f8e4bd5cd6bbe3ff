-- ===== src/Master/Allocator/Claim.antt =====
-- crates/master/src/allocator.rs: the two passes of `allocate`, first the indexes of the segments
-- that fit and then the writes through those indexes, are one pass over the segments.
use mooncache.Prelude.{
  ℕ, zero, suc, ◌≤◌, ◌≡◌, refl, ap, inl, inr, true, List, [], ◌∷◌, map, arith, if◌then◌else◌,
  length, take, Bool-cases, Option-cases, get_elem?, set,
}
use mooncache.Common.{CacheError, ok, err}
use mooncache.Master.Allocator.{
  SegmentAllocation, MountedSegment, SegmentAllocator, can_fit, fitting_indexes, allocation_in,
  advanced, take_from, allocate,
}

-- Takes `len` bytes from each of the first `count` segments that have room.
unfoldable pub claim : ℕ → ℕ → List MountedSegment → List SegmentAllocation × List MountedSegment
claim zero len segments = ([], segments)
claim (suc count) len [] = ([], [])
claim (suc count) len (segment ∷ segments) =
    let (allocations, after) = claim count len segments in
    let (allocations', after') = claim (suc count) len segments in
    if can_fit segment len
    then (allocation_in segment len ∷ allocations, advanced segment len ∷ after)
    else (allocations', segment ∷ after')

abbrev pub Claimed : Type 0
Claimed = List SegmentAllocation × List MountedSegment

-- Induction on the pass: what holds of its ends, and is kept by a segment that has room and by one
-- that has none, holds of `claim`.
pub record ClaimRule {ℓ} (len : ℕ) (P : List MountedSegment → Claimed → Type ℓ) : Type ℓ where
  pub done : (segments : List MountedSegment) → P segments ([], segments)
  pub room :
      (segment : MountedSegment) (segments : List MountedSegment) (r : Claimed)
      → can_fit segment len ≡ true
      → P segments r
      → P (segment ∷ segments) (allocation_in segment len ∷ r.0, advanced segment len ∷ r.1)
  pub full :
      (segment : MountedSegment) (segments : List MountedSegment) (r : Claimed)
      → P segments r
      → P (segment ∷ segments) (r.0, segment ∷ r.1)

pub claim_induction {ℓ} :
    (len : ℕ) (P : List MountedSegment → Claimed → Type ℓ)
    → ClaimRule len P
    → (count : ℕ) (segments : List MountedSegment) → P segments (claim count len segments)
unfolding claim
claim_induction len P rule zero segments = rule.done segments
claim_induction len P rule (suc count) [] = rule.done []
claim_induction len P rule (suc count) (segment ∷ segments) =
    elim (Bool-cases (can_fit segment len)) [
      | inl room ↦
          rw room (rule.room segment segments _ room (claim_induction len P rule count segments))
      | inr full ↦
          rw full (rule.full segment segments _ (claim_induction len P rule (suc count) segments))
    ]

fitting_indexes-suc :
    (index len : ℕ) (segments : List MountedSegment)
    → fitting_indexes (suc index) len segments ≡ map suc (fitting_indexes index len segments)
unfolding fitting_indexes
fitting_indexes-suc index len [] = refl
fitting_indexes-suc index len (segment ∷ segments) =
    ground (arith, fitting_indexes-suc (suc index) len segments)

take-map : (n : ℕ) (xs : List ℕ) → take n (map suc xs) ≡ map suc (take n xs)
take-map zero xs = refl
take-map (suc n) [] = refl
take-map (suc n) (x ∷ xs) = ap (◌∷◌ (suc x)) (take-map n xs)

length-map : (xs : List ℕ) → length (map suc xs) ≡ length xs
length-map [] = refl
length-map (x ∷ xs) = ap suc (length-map xs)

-- Indexes past the first segment leave it alone.
take_from-suc :
    (indexes : List ℕ) (len : ℕ) (segment : MountedSegment) (segments : List MountedSegment)
    → take_from (map suc indexes) len (segment ∷ segments) ≡ (
        let (allocations, after) = take_from indexes len segments in (allocations, segment ∷ after))
unfolding take_from
take_from-suc [] len segment segments = refl
take_from-suc (index ∷ indexes) len segment segments =
    elim (Option-cases (get_elem? segments index)) [
      | inl outside ↦ rw (outside, take_from) (take_from-suc indexes len segment segments)
      | inr (found, e) ↦
          ground
            (arith, take_from-suc indexes len segment (set segments index (advanced found len)))
    ]

pub take_from-claim :
    (count len : ℕ) (segments : List MountedSegment)
    → take_from (take count (fitting_indexes 0 len segments)) len segments
      ≡ claim count len segments
unfolding take_from fitting_indexes claim
take_from-claim zero len segments = refl
take_from-claim (suc count) len [] = refl
take_from-claim (suc count) len (segment ∷ segments) =
    let rest = fitting_indexes 0 len segments in
    elim (Bool-cases (can_fit segment len)) [
      | inl room ↦ rw (
        room,
        fitting_indexes-suc 0 len segments,
        take-map count rest,
        take_from-suc (take count rest) len (advanced segment len) segments,
        take_from-claim count len segments,
      )
      | inr full ↦ rw (
        full,
        fitting_indexes-suc 0 len segments,
        take-map (suc count) rest,
        take_from-suc (take (suc count) rest) len segment segments,
        take_from-claim (suc count) len segments,
      )
    ]

pub length-claim :
    (count len : ℕ) (segments : List MountedSegment)
    → length (claim count len segments).0 ≡ length (take count (fitting_indexes 0 len segments))
unfolding fitting_indexes claim
length-claim zero len segments = refl
length-claim (suc count) len [] = refl
length-claim (suc count) len (segment ∷ segments) =
    let rest = fitting_indexes 0 len segments in
    elim (Bool-cases (can_fit segment len)) [
      | inl room ↦
          rw (room, fitting_indexes-suc 0 len segments, take-map count rest, length-map)
            (ap suc (length-claim count len segments))
      | inr full ↦
          rw (full, fitting_indexes-suc 0 len segments, take-map (suc count) rest, length-map)
            (length-claim (suc count) len segments)
    ]

-- What a successful `allocate` returns: one allocation for each replica, and the segments after
-- one pass.
pub allocate-claim :
    (a a' : SegmentAllocator) (len replica_count : ℕ) (allocations : List SegmentAllocation)
    → allocate a len replica_count ≡ (ok allocations, a')
    → (claim replica_count len a.segments ≡ (allocations, a'.segments))
      × (length allocations ≡ replica_count)
      × (1 ≤ len)
      × (1 ≤ replica_count)
unfolding allocate
allocate-claim a a' len replica_count allocations done =
    ground (
      arith,
      take_from-claim replica_count len a.segments,
      length-claim replica_count len a.segments,
    )

-- An `allocate` that fails takes nothing.
pub allocate-err :
    (a a' : SegmentAllocator) (len replica_count : ℕ) (e : CacheError)
    → allocate a len replica_count ≡ (err e, a')
    → a' ≡ a
unfolding allocate
allocate-err a a' len replica_count e refused = ground arith
