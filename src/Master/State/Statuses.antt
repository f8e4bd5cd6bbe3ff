-- ===== src/Master/State/Statuses.antt =====
-- The life of an object in crates/master/src/state.rs, as a relation: how a call may move its status,
-- and what the call then answers.
use mooncache.Prelude.{ℕ, ◌≡◌, ◌≢◌, ◌⊎◌, List, Option, none, some, lookup}
use mooncache.Common.{not_found, CacheError, ok, err, ObjectKey, object_key_eq, tenant_id_eq}
use mooncache.Master.Object.{
  ObjectStatus, reserving, writing, committed, revoked, evicted, CacheObjectMeta, ReplicaDescriptor,
}
use mooncache.Master.State.{MasterState, put_revoke, remove_object, put_end, put_start}
use mooncache.Master.State.Accounting.{Objects}
use mooncache.Master.State.Calls.{
  Call, mounts, sets_quota, starts, ends, revokes, removes, reads, evicts,
}

abbrev pub status : Option CacheObjectMeta → Option ObjectStatus
status none = none
status (some object) = some object.status

-- The status of the object under a key, if there is one.
abbrev pub status_of : ObjectKey → Objects → Option ObjectStatus
status_of k objects = status (lookup k objects)

-- An object that is being written.
abbrev pub IsOpen : Option ObjectStatus → Type 0
IsOpen o = (o ≡ some reserving) ⊎ (o ≡ some writing)

-- The call is not about the object under `k`: it names another key, or no key, or only reads.
abbrev pub IsElsewhere : Call → ObjectKey → Type 0
IsElsewhere (mounts node_id len) k = Unit
IsElsewhere (sets_quota name dram_bytes ssd_bytes) k = Unit
IsElsewhere (starts tenant key len replica_count) k = (tenant, key) ≢ k
IsElsewhere (ends tenant key) k = (tenant, key) ≢ k
IsElsewhere (revokes tenant key) k = (tenant, key) ≢ k
IsElsewhere (removes tenant key) k = (tenant, key) ≢ k
IsElsewhere (reads tenant key now_ms) k = Unit
IsElsewhere (evicts tenant target now_ms) k = tenant ≢ k.0

-- The life of the object under `k` in one call from `s`: how its status moves, and what the call
-- answers. Every call about the object either succeeds and moves it, or is refused and leaves it, and
-- each constructor says when. An eviction for its tenant may leave it or evict it.
pub data Transition (s : MasterState) (call : Call) (k : ObjectKey)
    (before after : Option ObjectStatus) : Type 0 where
  stays : IsElsewhere call k → after ≡ before → Transition s call k before after
  reserves :
      (len replica_count : ℕ) (replicas : List ReplicaDescriptor)
      → call ≡ starts k.0 k.1 len replica_count
      → (put_start s k.0 k.1 len replica_count).0 ≡ ok replicas
      → before ≡ none
      → after ≡ some reserving
      → Transition s call k before after
  is_not_reserved :
      (len replica_count : ℕ) (e : CacheError)
      → call ≡ starts k.0 k.1 len replica_count
      → (put_start s k.0 k.1 len replica_count).0 ≡ err e
      → after ≡ before
      → Transition s call k before after
  commits :
      call ≡ ends k.0 k.1
      → (put_end s k.0 k.1).0 ≡ ok tt
      → IsOpen before
      → after ≡ some committed
      → Transition s call k before after
  is_not_committed :
      (e : CacheError)
      → call ≡ ends k.0 k.1
      → (put_end s k.0 k.1).0 ≡ err e
      → ¬ IsOpen before
      → after ≡ before
      → Transition s call k before after
  withdraws :
      (old : ObjectStatus)
      → call ≡ revokes k.0 k.1
      → (put_revoke s k.0 k.1).0 ≡ ok tt
      → before ≡ some old
      → after ≡ some revoked
      → Transition s call k before after
  is_not_withdrawn :
      call ≡ revokes k.0 k.1
      → (put_revoke s k.0 k.1).0 ≡ err not_found
      → before ≡ none
      → after ≡ none
      → Transition s call k before after
  clears :
      (old : ObjectStatus)
      → call ≡ removes k.0 k.1
      → (remove_object s k.0 k.1).0 ≡ ok tt
      → before ≡ some old
      → after ≡ none
      → Transition s call k before after
  is_not_cleared :
      call ≡ removes k.0 k.1
      → (remove_object s k.0 k.1).0 ≡ err not_found
      → before ≡ none
      → after ≡ none
      → Transition s call k before after
  expels :
      (target now_ms : ℕ)
      → call ≡ evicts k.0 target now_ms
      → before ≡ some committed
      → after ≡ some evicted
      → Transition s call k before after
  is_not_expelled :
      (target now_ms : ℕ)
      → call ≡ evicts k.0 target now_ms
      → after ≡ before
      → Transition s call k before after
