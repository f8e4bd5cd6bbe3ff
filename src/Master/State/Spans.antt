-- ===== src/Master/State/Spans.antt =====
-- The spans of bytes that `allocate` (crates/master/src/allocator.rs) gives to the replicas of an
-- object (`put_start` of crates/master/src/state.rs), and that they do not overlap as long as no
-- node is mounted twice.
use mooncache.Prelude.{
  ℕ, ◌+◌, ◌≤◌, ◌≡◌, ◌≢◌, refl, sym, ◌∙◌, ◌⊎◌, inl, inr, true, List, [], ◌∷◌, map, arith, All,
  All-imp, Text,
}
use mooncache.Master.Object.{ReplicaDescriptor}
use mooncache.Master.Allocator.{MountedSegment, can_fit, allocation_in, advanced}
use mooncache.Master.Allocator.Claim.{Claimed, claim, claim_induction}
use mooncache.Master.Allocator.Bounds.{advanced_within}
use mooncache.Master.State.{replica_of}

-- Some segment of the list belongs to the node.
abbrev pub IsMounted : Text → List MountedSegment → Type 0
IsMounted node [] = ⊥
IsMounted node (segment ∷ segments) = (segment.node_id ≡ node) ⊎ IsMounted node segments

-- No segment of the list belongs to the node.
abbrev pub Avoids : Text → List MountedSegment → Type 0
Avoids node = All λ segment. segment.node_id ≢ node

-- No node has two segments.
abbrev pub Distinct : List MountedSegment → Type 0
Distinct [] = Unit
Distinct (segment ∷ segments) = Avoids segment.node_id segments × Distinct segments

-- The replica ends below the next free offset of every segment of its node, which is mounted.
abbrev pub EndsBelow : ReplicaDescriptor → MountedSegment → Type 0
EndsBelow r segment = segment.node_id ≡ r.node_id → r.offset + r.len ≤ segment.next_offset

pub record IsBelow (r : ReplicaDescriptor) (segments : List MountedSegment) : Type 0 where
  pub ends : All (EndsBelow r) segments
  pub known : IsMounted r.node_id segments

-- Two replicas have no byte of a node in common.
abbrev pub Disjoint : ReplicaDescriptor → ReplicaDescriptor → Type 0
Disjoint a b = a.node_id ≡ b.node_id → (a.offset + a.len ≤ b.offset) ⊎ (b.offset + b.len ≤ a.offset)

-- The replicas stand on different nodes.
abbrev pub Spread : List ReplicaDescriptor → Type 0
Spread [] = Unit
Spread (r ∷ rs) = All (λ q. q.node_id ≢ r.node_id) rs × Spread rs

abbrev pub claimed : ℕ → ℕ → List MountedSegment → List ReplicaDescriptor
claimed count len segments = map replica_of (claim count len segments).0

abbrev pub remaining : ℕ → ℕ → List MountedSegment → List MountedSegment
remaining count len segments = (claim count len segments).1

mounted-Avoids :
    (node other : Text) (segments : List MountedSegment)
    → IsMounted node segments
    → Avoids other segments
    → other ≢ node
mounted-Avoids node other [] here avoids e = here
mounted-Avoids node other (segment ∷ segments) (inl here) avoids e = avoids.0 (here ∙ sym e)
mounted-Avoids node other (segment ∷ segments) (inr there) avoids e =
    mounted-Avoids node other segments there avoids.1 e

Avoids-ends :
    (q : ReplicaDescriptor) (segments : List MountedSegment)
    → Avoids q.node_id segments
    → All (EndsBelow q) segments
Avoids-ends q [] h = tt
Avoids-ends q (segment ∷ segments) h = ((λ same. absurd (h.0 same)), Avoids-ends q segments h.1)

-- One more segment, of another node.
IsBelow-cons :
    (r : ReplicaDescriptor) (segment : MountedSegment) (segments : List MountedSegment)
    → IsBelow r segments
    → Avoids segment.node_id segments
    → IsBelow r (segment ∷ segments)
IsBelow-cons r segment segments below avoids = record {
  ends = (
    (λ same. absurd (mounted-Avoids r.node_id segment.node_id segments below.known avoids same)),
    below.ends,
  );
  known = inr below.known;
}

-- What one pass of the allocator does to the nodes and the replicas.
record Places (segments : List MountedSegment) (r : Claimed) : Type 0 where
  avoids :
      (node : Text)
      → Avoids node segments
      → Avoids node r.1 × All (λ q. q.node_id ≢ node) (map replica_of r.0)
  known : (node : Text) → IsMounted node segments → IsMounted node r.1
  ends : (q : ReplicaDescriptor) → All (EndsBelow q) segments → All (EndsBelow q) r.1
  apart :
      (q : ReplicaDescriptor) → All (EndsBelow q) segments → All (Disjoint q) (map replica_of r.0)
  distinct :
      Distinct segments
      → Distinct r.1 × Spread (map replica_of r.0) × All (λ q. IsBelow q r.1) (map replica_of r.0)

room-Places :
    (len : ℕ) (segment : MountedSegment) (segments : List MountedSegment) (r : Claimed)
    → can_fit segment len ≡ true
    → Places segments r
    → Places (segment ∷ segments) (allocation_in segment len ∷ r.0, advanced segment len ∷ r.1)
room-Places len segment segments r fits ih =
    let grown = (advanced_within segment len fits).0 in
    record {
      avoids = λ node h. ((h.0, (ih.avoids node h.1).0), (h.0, (ih.avoids node h.1).1));
      known = λ node h. elim h [ inl here ↦ inl here | inr there ↦ inr (ih.known node there) ];
      ends = λ q h. ((λ same. let e = h.0 same in omega (arith, e, grown)), ih.ends q h.1);
      apart = λ q h. ((λ same. inl (h.0 (sym same))), ih.apart q h.1);
      distinct = λ h.
          let (after, spread, below) = ih.distinct h.1 in
          let (others, news) = ih.avoids segment.node_id h.0 in
          (
            (others, after),
            (news, spread),
            (
              record {
                ends = (
                  (λ same. omega (arith, grown)),
                  Avoids-ends (replica_of (allocation_in segment len)) r.1 others,
                );
                known = inl refl;
              },
              All-imp _ _ (λ q b. IsBelow-cons q (advanced segment len) r.1 b others) _ below,
            ),
          );
    }

full-Places :
    (segment : MountedSegment) (segments : List MountedSegment) (r : Claimed)
    → Places segments r
    → Places (segment ∷ segments) (r.0, segment ∷ r.1)
full-Places segment segments r ih = record {
  avoids = λ node h. ((h.0, (ih.avoids node h.1).0), (ih.avoids node h.1).1);
  known = λ node h. elim h [ inl here ↦ inl here | inr there ↦ inr (ih.known node there) ];
  ends = λ q h. (h.0, ih.ends q h.1);
  apart = λ q h. ih.apart q h.1;
  distinct = λ h.
      let (after, spread, below) = ih.distinct h.1 in
      let others = (ih.avoids segment.node_id h.0).0 in
      ((others, after), spread, All-imp _ _ (λ q b. IsBelow-cons q segment r.1 b others) _ below);
}

claim-Places :
    (count len : ℕ) (segments : List MountedSegment) → Places segments (claim count len segments)
claim-Places count len =
    claim_induction len Places
      (record {
        done = λ segments. record {
          avoids = λ node h. (h, tt);
          known = λ node h. h;
          ends = λ q h. h;
          apart = λ q h. tt;
          distinct = λ h. (h, tt, tt);
        };
        room = room-Places len;
        full = full-Places;
      })
      count

module _ (count len : ℕ) (segments : List MountedSegment) where
  -- With one segment to a node, the new replicas stand on different nodes and below the new free
  -- offsets.
  pub claim-Distinct :
      Distinct segments
      → Distinct (remaining count len segments)
        × Spread (claimed count len segments)
        × All (λ q. IsBelow q (remaining count len segments)) (claimed count len segments)
  claim-Distinct = (claim-Places count len segments).distinct

  -- A replica that was below the free offsets stays so, and has no byte in common with the new ones.
  pub claim-IsBelow :
      (q : ReplicaDescriptor)
      → IsBelow q segments
      → IsBelow q (remaining count len segments) × All (Disjoint q) (claimed count len segments)
  claim-IsBelow q h =
      let places = claim-Places count len segments in
      (
        record { ends = places.ends q h.ends; known = places.known q.node_id h.known },
        places.apart q h.ends,
      )
