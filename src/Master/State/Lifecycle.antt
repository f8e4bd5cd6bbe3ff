-- ===== src/Master/State/Lifecycle.antt =====
-- The life of an object in crates/master/src/state.rs: what is revoked or evicted stays so until it
-- is removed.
use mooncache.Prelude.{
  ℕ, ◌≡◌, ◌≢◌, refl, sym, subst, ◌⊎◌, inl, inr, true, List, [], ◌∷◌, Option, none, some, arith, All,
  lookup, Unique, contains_key, text,
}
use mooncache.Common.{not_found, conflict, err, TenantId, CacheKey, ObjectKey, object_key_eq}
use mooncache.Master.Object.{ObjectStatus, revoked, evicted, CacheObjectMeta}
use mooncache.Master.State.{MasterState, put_end, get_replica_list, put_start}
use mooncache.Master.State.Transitions.{step-Transition}
use mooncache.Master.State.Statuses.{
  status, status_of, Transition, stays, reserves, is_not_reserved, commits, is_not_committed,
  withdraws, is_not_withdrawn, clears, is_not_cleared, expels, is_not_expelled,
}
use mooncache.Master.Eviction.{is_committed}
use mooncache.Master.State.Calls.Keeping.{step-Unique}
use mooncache.Master.State.Calls.{Call, removes, step, run}

-- An object that was revoked or evicted.
abbrev pub IsRetired : Option ObjectStatus → Type 0
IsRetired o = (o ≡ some revoked) ⊎ (o ≡ some evicted)

-- Each call of the sequence is no removal of the object under `k`.
abbrev pub Unremoved : ObjectKey → List Call → Type 0
Unremoved k calls = All (λ call. call ≢ removes k.0 k.1) calls

Transition-IsRetired :
    (s : MasterState) (call : Call) (k : ObjectKey) (before after : Option ObjectStatus)
    → call ≢ removes k.0 k.1
    → Transition s call k before after
    → IsRetired before
    → IsRetired after
Transition-IsRetired s call k before after kept (stays _ e) h = subst IsRetired (sym e) h
Transition-IsRetired s call k before after kept (reserves _ _ _ _ _ free _) h = ground arith
Transition-IsRetired s call k before after kept (is_not_reserved _ _ _ _ _ e) h =
    subst IsRetired (sym e) h
Transition-IsRetired s call k before after kept (commits _ _ was e) h = ground arith
Transition-IsRetired s call k before after kept (is_not_committed _ _ _ _ e) h =
    subst IsRetired (sym e) h
Transition-IsRetired s call k before after kept (withdraws _ _ _ _ e) h = inl e
Transition-IsRetired s call k before after kept (is_not_withdrawn _ _ free _) h = ground arith
Transition-IsRetired s call k before after kept (clears _ removal _ _ _) h = absurd (kept removal)
Transition-IsRetired s call k before after kept (is_not_cleared removal _ _ _) h =
    absurd (kept removal)
Transition-IsRetired s call k before after kept (expels _ _ _ _ e) h = inr e
Transition-IsRetired s call k before after kept (is_not_expelled _ _ _ e) h =
    subst IsRetired (sym e) h

retired_object :
    (o : Option CacheObjectMeta)
    → IsRetired (status o)
    → (object : CacheObjectMeta) × (o ≡ some object)
      × ((object.status ≡ revoked) ⊎ (object.status ≡ evicted))
retired_object none h = ground arith
retired_object (some object) h = (object, refl, ground arith)

-- What the operations answer for such an object.
retired_refused :
    (s : MasterState) (tenant : TenantId) (key : CacheKey) (len replica_count now_ms : ℕ)
    → IsRetired (status_of (tenant, key) s.objects)
    → ((get_replica_list s tenant key now_ms).0 ≡ err not_found)
      × ((put_end s tenant key).0 ≡ err (conflict (text "object is not writable")))
      × ((put_start s tenant key len replica_count)
          ≡ (err (conflict (text "object already exists")), s))
unfolding get_replica_list put_end put_start contains_key is_committed
retired_refused s tenant key len replica_count now_ms h =
    let (object, found, retired) = retired_object (lookup (tenant, key) s.objects) h in
    let taken : contains_key (tenant, key) s.objects ≡ true = ground (arith, found) in
    let started : put_start s tenant key len replica_count
        ≡ (err (conflict (text "object already exists")), s) =
      rw (taken, put_start) in
    elim retired [
      | inl e ↦ (rw (found, get_replica_list, e), rw (found, put_end, e), started)
      | inr e ↦ (rw (found, get_replica_list, e), rw (found, put_end, e), started)
    ]

run-IsRetired :
    (s : MasterState) (calls : List Call) (k : ObjectKey)
    → Unique s.objects
    → Unremoved k calls
    → IsRetired (status_of k s.objects)
    → IsRetired (status_of k (run s calls).objects)
unfolding run
run-IsRetired s [] k u kept h = h
run-IsRetired s (call ∷ calls) k u kept h =
    run-IsRetired (step s call) calls k (step-Unique s call u) kept.1
      (Transition-IsRetired s call k _ _ kept.0 (step-Transition s call k u) h)

-- An object that was revoked or evicted stays so until it is removed: whatever other calls come
-- after, a read of it fails with `not_found`, a `put_end` and a new `put_start` with a conflict.
pub retired_until_removed :
    (s : MasterState) (calls : List Call) (tenant : TenantId) (key : CacheKey)
    (len replica_count now_ms : ℕ)
    → Unique s.objects
    → IsRetired (status_of (tenant, key) s.objects)
    → Unremoved (tenant, key) calls
    → ((get_replica_list (run s calls) tenant key now_ms).0 ≡ err not_found)
      × ((put_end (run s calls) tenant key).0 ≡ err (conflict (text "object is not writable")))
      × ((put_start (run s calls) tenant key len replica_count)
          ≡ (err (conflict (text "object already exists")), run s calls))
retired_until_removed s calls tenant key len replica_count now_ms u h kept =
    retired_refused (run s calls) tenant key len replica_count now_ms
      (run-IsRetired s calls (tenant, key) u kept h)
