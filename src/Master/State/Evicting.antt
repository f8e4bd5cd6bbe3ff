-- ===== src/Master/State/Evicting.antt =====
-- The eviction loops of crates/master/src/state.rs, as a rule: what each single eviction keeps, the
-- whole of `evict_for_tenant` keeps.
use mooncache.Prelude.{
  ℕ, ◌-◌, ◌≡◌, refl, subst, Option, none, inl, inr, List, [], ◌∷◌, some, ltb, leb, saturating_add,
  lookup, Bool-cases, Option-cases, Bool, false, All, Entries, Unique, Unique-Entries, ◌==◌, arith,
}
use mooncache.Common.{TenantId, CacheKey, tenant_id_eq, tenant_id_beq_iff, ObjectKey, object_key_eq}
use mooncache.Master.Object.{CacheObjectMeta, committed, evicted}
use mooncache.Master.Lease.{has_active_lease}
use mooncache.Master.Eviction.{
  EvictionCandidateClass, normal, soft_pinned, is_committed, candidate_class,
}
use mooncache.Master.State.{
  MasterState, quota_reserved_bytes, retire, push_candidate, candidates, evict_candidate_keys,
  evict_for_tenant,
}

-- One round of `evict_candidate_keys` on an object that is there.
abbrev pub evict_one : MasterState → TenantId → CacheKey → CacheObjectMeta → MasterState
evict_one s tenant key object =
    let s' = retire evicted s tenant key object in
    record s' { evictions_total = saturating_add s'.evictions_total 1 }

-- What `evict_for_tenant` may evict at the time `now_ms`: a committed object that is not pinned hard
-- and has no active lease.
pub record IsCandidate (s : MasterState) (tenant : TenantId) (now_ms : ℕ) (key : CacheKey)
    (object : CacheObjectMeta) : Type 0 where
  pub found : lookup (tenant, key) s.objects ≡ some object
  pub is_live : object.status ≡ committed
  pub unpinned : object.hard_pinned ≡ false
  pub unleased : has_active_lease s.leases tenant key now_ms ≡ false

abbrev pub Candidate : MasterState → TenantId → ℕ → CacheKey → Type 0
Candidate s tenant now_ms key = (object : CacheObjectMeta) × IsCandidate s tenant now_ms key object

module _ {ℓ} (P : MasterState → Type ℓ) (Q : CacheKey → Type 0) (tenant : TenantId)
    (keep : (s : MasterState) (key : CacheKey) (object : CacheObjectMeta)
      → Q key
      → lookup (tenant, key) s.objects ≡ some object
      → P s
      → P (evict_one s tenant key object)) where
  evict_candidate_keys_inv :
      (target : ℕ) (keys : List CacheKey) (reclaimed : ℕ) (s : MasterState)
      → All Q keys
      → P s
      → P (evict_candidate_keys tenant target keys reclaimed s).1
  unfolding evict_candidate_keys
  evict_candidate_keys_inv target [] reclaimed s q h = h
  evict_candidate_keys_inv target (key ∷ keys) reclaimed s q h =
      elim (Bool-cases (leb target reclaimed)) [
        | inl enough ↦ rw (enough, evict_candidate_keys) h
        | inr more ↦ elim (Option-cases (lookup (tenant, key) s.objects)) [
          | inl missing ↦
              rw (more, evict_candidate_keys, missing)
                (evict_candidate_keys_inv target keys reclaimed s q.1 h)
          | inr (object, found) ↦
              rw (more, evict_candidate_keys, found)
                (evict_candidate_keys_inv target keys
                  (saturating_add reclaimed (quota_reserved_bytes object))
                  (evict_one s tenant key object) q.1 (keep s key object q.0 found h))
        ]
      ]

-- A candidate's class is found only for what may be evicted.
candidate_class-some :
    (object : CacheObjectMeta) (leased : Bool) (now_ms : ℕ) (class : EvictionCandidateClass)
    → candidate_class object leased now_ms ≡ some class
    → (object.status ≡ committed) × (leased ≡ false) × (object.hard_pinned ≡ false)
unfolding candidate_class is_committed
candidate_class-some object leased now_ms class h = ground arith

module _ (s : MasterState) (tenant : TenantId) (now_ms : ℕ) where
  push-All :
      (class : Option EvictionCandidateClass) (key : CacheKey)
      (keys : List CacheKey × List CacheKey)
      → ((c : EvictionCandidateClass) → class ≡ some c → Candidate s tenant now_ms key)
      → All (Candidate s tenant now_ms) keys.0 × All (Candidate s tenant now_ms) keys.1
      → All (Candidate s tenant now_ms) (push_candidate class key keys).0
        × All (Candidate s tenant now_ms) (push_candidate class key keys).1
  unfolding push_candidate
  push-All none key keys new h = h
  push-All (some normal) key keys new h = ((new normal refl, h.0), h.1)
  push-All (some soft_pinned) key keys new h = (h.0, (new soft_pinned refl, h.1))

  -- The candidates of a part of the map, whose entries are all found in the whole map.
  candidates-Candidate :
      (objects : List (ObjectKey × CacheObjectMeta))
      → Entries (λ k object. lookup k s.objects ≡ some object) objects
      → All (Candidate s tenant now_ms) (candidates s.leases tenant now_ms objects).0
        × All (Candidate s tenant now_ms) (candidates s.leases tenant now_ms objects).1
  unfolding candidates
  candidates-Candidate [] h = (tt, tt)
  candidates-Candidate (((owner, key), object) ∷ objects) h =
      let leased = has_active_lease s.leases owner key now_ms in
      let rest = candidates-Candidate objects h.1 in
      elim (Bool-cases (owner == tenant)) [
        | inr other ↦ rw (other, candidates) rest
        | inl own ↦
            rw (own, candidates)
              (push-All (candidate_class object leased now_ms) key _
                (λ class found.
                  let same = (tenant_id_beq_iff owner tenant).0 own in
                  let (live, free, unpinned) =
                    candidate_class-some object leased now_ms class found in
                  (
                    object,
                    record {
                      found =
                          subst (λ (t : TenantId). lookup (t, key) s.objects ≡ some object) same
                            h.0;
                      is_live = live;
                      unpinned = unpinned;
                      unleased =
                          subst (λ (t : TenantId). has_active_lease s.leases t key now_ms ≡ false)
                            same free;
                    },
                  ))
                rest)
      ]

-- Both passes of `evict_for_tenant`, over candidates that all satisfy `Q`.
module _ {ℓ} (P : MasterState → Type ℓ) (Q : CacheKey → Type 0) (s : MasterState)
    (tenant : TenantId)
    (keep : (s' : MasterState) (key : CacheKey) (object : CacheObjectMeta)
      → Q key
      → lookup (tenant, key) s'.objects ≡ some object
      → P s'
      → P (evict_one s' tenant key object))
    (target now_ms : ℕ)
    (all : All Q (candidates s.leases tenant now_ms s.objects).0
      × All Q (candidates s.leases tenant now_ms s.objects).1)
    (h : P s) where
  evict_passes : P (evict_for_tenant s tenant target now_ms).1
  unfolding evict_for_tenant
  evict_passes =
      let (normals, soft_pinneds) = candidates s.leases tenant now_ms s.objects in
      let (reclaimed, s') = evict_candidate_keys tenant target normals 0 s in
      let h' = evict_candidate_keys_inv P Q tenant keep target normals 0 s all.0 h in
      elim (Bool-cases (ltb reclaimed target)) [
        | inl short ↦ rw short (
            evict_candidate_keys_inv P Q tenant keep (target - reclaimed) soft_pinneds 0 s' all.1
              h')
        | inr enough ↦ rw enough h'
      ]

All-tt : (keys : List CacheKey) → All (λ key. Unit {0}) keys
All-tt [] = tt
All-tt (key ∷ keys) = (tt, All-tt keys)

-- What every eviction keeps, the call keeps.
pub evict_for_tenant_inv {ℓ} :
    (P : MasterState → Type ℓ) (tenant : TenantId)
    → ((s' : MasterState) (key : CacheKey) (object : CacheObjectMeta)
        → lookup (tenant, key) s'.objects ≡ some object
        → P s'
        → P (evict_one s' tenant key object))
    → (s : MasterState) (target now_ms : ℕ) → P s
    → P (evict_for_tenant s tenant target now_ms).1
evict_for_tenant_inv P tenant keep s target now_ms h =
    evict_passes P (λ key. Unit {0}) s tenant
      (λ s' key object _ found h'. keep s' key object found h') target now_ms (All-tt _, All-tt _) h

-- What every eviction of a candidate keeps, the call keeps.
pub evict_candidates_inv {ℓ} :
    (P : MasterState → Type ℓ) (s : MasterState) (tenant : TenantId) (target now_ms : ℕ)
    → ((s' : MasterState) (key : CacheKey) (object : CacheObjectMeta)
        → Candidate s tenant now_ms key
        → lookup (tenant, key) s'.objects ≡ some object
        → P s'
        → P (evict_one s' tenant key object))
    → Unique s.objects
    → P s
    → P (evict_for_tenant s tenant target now_ms).1
evict_candidates_inv P s tenant target now_ms keep u h =
    evict_passes P (Candidate s tenant now_ms) s tenant keep target now_ms
      (candidates-Candidate s tenant now_ms s.objects (Unique-Entries s.objects u)) h
