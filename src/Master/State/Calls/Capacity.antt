-- ===== src/Master/State/Calls/Capacity.antt =====
-- The lengths of the mounted segments, over the calls of crates/master/src/state.rs: only a mount
-- changes their sum.
use mooncache.Prelude.{ℕ, ◌+◌, ◌≡◌, ap, ◌∙◌, ◌⊎◌, inl, inr, List, [], ◌∷◌, arith}
use mooncache.Common.{object_key_eq}
use mooncache.Master.Allocator.{mounted}
use mooncache.Master.Allocator.Claim.{claim}
use mooncache.Master.Allocator.Bounds.{capacity, capacity-claim, capacity-append}
use mooncache.Master.State.{MasterState}
use mooncache.Master.State.Calls.Segments.{segments_of, step-segments}
use mooncache.Master.State.Calls.{Call, mounts, starts, step, run}

-- The bytes that a list of calls mounts.
unfoldable pub mounted_bytes : List Call → ℕ
mounted_bytes [] = 0
mounted_bytes (mounts node_id len ∷ calls) = len + mounted_bytes calls
mounted_bytes (_ ∷ calls) = mounted_bytes calls

-- The sum of the lengths of the segments.
abbrev pub capacity_of : MasterState → ℕ
capacity_of s = capacity (segments_of s)

start-capacity :
    (s s' : MasterState) (len replica_count : ℕ)
    → (segments_of s' ≡ segments_of s)
      ⊎ (segments_of s' ≡ (claim replica_count len (segments_of s)).1)
    → capacity_of s' ≡ capacity_of s
start-capacity s s' len replica_count (inl same) = ap capacity same
start-capacity s s' len replica_count (inr taken) =
    ap capacity taken ∙ capacity-claim replica_count len (segments_of s)

pub step-capacity :
    (s : MasterState) (call : Call)
    → capacity_of (step s call) ≡ capacity_of s + mounted_bytes (call ∷ [])
unfolding mounted_bytes capacity
step-capacity s (mounts node_id len) =
    let added = ap capacity (step-segments s (mounts node_id len)) in
    omega (arith, added, capacity-append (segments_of s) (mounted node_id len ∷ []))
step-capacity s (starts tenant key len replica_count) =
    let call = starts tenant key len replica_count in
    let same = start-capacity s (step s call) len replica_count (step-segments s call) in
    omega (arith, same)
step-capacity s call = let same = ap capacity (step-segments s call) in omega (arith, same)

pub mounted_bytes-cons :
    (call : Call) (calls : List Call)
    → mounted_bytes (call ∷ calls) ≡ mounted_bytes (call ∷ []) + mounted_bytes calls
unfolding mounted_bytes
mounted_bytes-cons (mounts node_id len) calls = omega arith
mounted_bytes-cons _ calls = omega arith

pub run-capacity :
    (s : MasterState) (calls : List Call)
    → capacity_of (run s calls) ≡ capacity_of s + mounted_bytes calls
unfolding run mounted_bytes
run-capacity s [] = omega arith
run-capacity s (call ∷ calls) =
    omega
      (arith, run-capacity (step s call) calls, step-capacity s call, mounted_bytes-cons call calls)
