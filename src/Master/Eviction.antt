-- ===== src/Master/Eviction.antt =====
-- crates/master/src/eviction.rs
use mooncache.Prelude.{ℕ, Bool, true, false, ◌||◌, not, Option, none, some, ltb, if◌then◌else◌}
use mooncache.Master.Object.{ObjectStatus, committed, CacheObjectMeta}

pub data EvictionCandidateClass : Type 0 where
  normal soft_pinned : EvictionCandidateClass

-- `status == ObjectStatus::Committed`
unfoldable pub is_committed : ObjectStatus → Bool
is_committed committed = true
is_committed _ = false

-- `soft_pinned_until_ms.is_some_and(|expires_at_ms| expires_at_ms > now_ms)`
unfoldable pub soft_pin_active : Option ℕ → ℕ → Bool
soft_pin_active none now_ms = false
soft_pin_active (some expires_at_ms) now_ms = ltb now_ms expires_at_ms

unfoldable pub candidate_class : CacheObjectMeta → Bool → ℕ → Option EvictionCandidateClass
unfolding is_committed soft_pin_active
candidate_class object has_active_lease now_ms =
    if not (is_committed object.status) || has_active_lease || object.hard_pinned
    then none
    else if soft_pin_active object.soft_pinned_until_ms now_ms
    then some soft_pinned
    else some normal
