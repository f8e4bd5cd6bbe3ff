-- ===== src/Master/Allocator/Bounds.antt =====
-- crates/master/src/allocator.rs: no segment is filled beyond its length, and the bytes handed out
-- are counted exactly.
use mooncache.Prelude.{
  ℕ, ◌+◌, ◌*◌, ◌≤◌, ◌≡◌, refl, true, List, [], ◌∷◌, ◌++◌, arith, length, All, checked_add,
  saturating_add,
}
use mooncache.Master.Allocator.{MountedSegment, can_fit, advanced}
use mooncache.Master.Allocator.Claim.{claim, claim_induction}

abbrev pub IsWithin : MountedSegment → Type 0
IsWithin segment = segment.next_offset ≤ segment.len

-- The bytes that have been taken from the segments, and the bytes that they have.
unfoldable pub handed_out : List MountedSegment → ℕ
handed_out [] = 0
handed_out (segment ∷ segments) = segment.next_offset + handed_out segments

unfoldable pub capacity : List MountedSegment → ℕ
capacity [] = 0
capacity (segment ∷ segments) = segment.len + capacity segments

-- A segment that has room is advanced by exactly `len`, inside its length.
pub advanced_within :
    (segment : MountedSegment) (len : ℕ)
    → can_fit segment len ≡ true
    → ((advanced segment len).next_offset ≡ segment.next_offset + len)
      × (segment.next_offset + len ≤ segment.len)
unfolding can_fit checked_add saturating_add
advanced_within segment len room = ground arith

pub claim-IsWithin :
    (count len : ℕ) (segments : List MountedSegment)
    → All IsWithin segments
    → All IsWithin (claim count len segments).1
claim-IsWithin count len =
    claim_induction len (λ segments r. All IsWithin segments → All IsWithin r.1)
      (record {
        done = λ segments h. h;
        room = λ segment segments r fits ih h.
            (omega (arith, advanced_within segment len fits), ih h.1);
        full = λ segment segments r ih h. (h.0, ih h.1);
      })
      count

-- The allocations are as many spans of `len` bytes as the segments have lost.
pub handed_out-claim :
    (count len : ℕ) (segments : List MountedSegment)
    → handed_out (claim count len segments).1
      ≡ handed_out segments + length (claim count len segments).0 * len
unfolding handed_out
handed_out-claim count len =
    claim_induction len (λ segments r. handed_out r.1 ≡ handed_out segments + length r.0 * len)
      (record {
        done = λ segments. omega arith;
        room = λ segment segments r fits ih. grind (arith, (advanced_within segment len fits).0);
        full = λ segment segments r ih. omega arith;
      })
      count

pub capacity-claim :
    (count len : ℕ) (segments : List MountedSegment)
    → capacity (claim count len segments).1 ≡ capacity segments
unfolding capacity
capacity-claim count len =
    claim_induction len (λ segments r. capacity r.1 ≡ capacity segments)
      (record {
        done = λ segments. refl;
        room = λ segment segments r fits ih. omega arith;
        full = λ segment segments r ih. omega arith;
      })
      count

pub handed_out-le-capacity :
    (segments : List MountedSegment)
    → All IsWithin segments
    → handed_out segments ≤ capacity segments
unfolding handed_out capacity
handed_out-le-capacity [] h = omega arith
handed_out-le-capacity (segment ∷ segments) h = omega (arith, handed_out-le-capacity segments h.1)

pub capacity-append :
    (xs ys : List MountedSegment) → capacity (xs ++ ys) ≡ capacity xs + capacity ys
unfolding capacity
capacity-append [] ys = omega arith
capacity-append (x ∷ xs) ys = omega (arith, capacity-append xs ys)

pub handed_out-append :
    (xs ys : List MountedSegment) → handed_out (xs ++ ys) ≡ handed_out xs + handed_out ys
unfolding handed_out
handed_out-append [] ys = omega arith
handed_out-append (x ∷ xs) ys = omega (arith, handed_out-append xs ys)
