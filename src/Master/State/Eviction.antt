-- ===== src/Master/State/Eviction.antt =====
-- What `evict_for_tenant` (crates/master/src/state.rs) may do to an object, whatever order the map
-- is iterated in.
use mooncache.Prelude.{
  ℕ, ◌≡◌, refl, sym, subst, ap, ◌∙◌, ◌⊎◌, inl, inr, some, lookup, Unique, lookup-insert_self,
  lookup-insert_ne, ◌==◌, ==_iff, Bool-cases,
}
use mathlib.Core.Option.{some-injective}
use mooncache.Common.{TenantId, CacheKey, ObjectKey, object_key_eq}
use mooncache.Master.Object.{CacheObjectMeta, evicted}
use mooncache.Master.State.{MasterState, with_status, retire, evict_for_tenant}
use mooncache.Master.State.Evicting.{IsCandidate, evict_one, evict_candidates_inv}

-- An eviction at `now_ms` from `s` to `s'`, seen at one key: nothing, or the object was a committed
-- one of the tenant, not pinned hard, with no active lease, and only its status has changed.
abbrev pub EvictsOnly : MasterState → TenantId → ℕ → ObjectKey → MasterState → Type 0
EvictsOnly s tenant now_ms k s' =
    (lookup k s'.objects ≡ lookup k s.objects)
    ⊎ ((k.0 ≡ tenant)
        × ((object : CacheObjectMeta) × IsCandidate s tenant now_ms k.1 object
            × (lookup k s'.objects ≡ some (with_status evicted object))))

module _ (s s' : MasterState) (tenant : TenantId) (now_ms : ℕ) (key : CacheKey)
    (object old : CacheObjectMeta) (c : IsCandidate s tenant now_ms key old)
    (found : lookup (tenant, key) s'.objects ≡ some object) where
  -- The object under the key is the candidate, but for its status.
  same_candidate :
      EvictsOnly s tenant now_ms (tenant, key) s'
      → with_status evicted object ≡ with_status evicted old
  same_candidate (inl kept) =
      ap (with_status evicted) (some-injective object old (sym found ∙ (kept ∙ c.found)))
  same_candidate (inr (_, (o, c', marked))) =
      ap (with_status evicted) (some-injective object (with_status evicted o) (sym found ∙ marked))
      ∙ ap (with_status evicted) (some-injective o old (sym c'.found ∙ c.found))

  evicted_at_key :
      EvictsOnly s tenant now_ms (tenant, key) s'
      → EvictsOnly s tenant now_ms (tenant, key) (evict_one s' tenant key object)
  unfolding retire
  evicted_at_key h = inr (
    refl,
    (
      old,
      c,
      lookup-insert_self (tenant, key) (with_status evicted object) s'.objects
          ∙ ap some (same_candidate h),
    ),
  )

  evict_one-EvictsOnly :
      (k : ObjectKey)
      → EvictsOnly s tenant now_ms k s'
      → EvictsOnly s tenant now_ms k (evict_one s' tenant key object)
  unfolding retire
  evict_one-EvictsOnly k h = elim (Bool-cases ((tenant, key) == k)) [
    | inl here ↦
        subst
          (λ (j : ObjectKey).
            EvictsOnly s tenant now_ms j s'
            → EvictsOnly s tenant now_ms j (evict_one s' tenant key object))
          ((==_iff (tenant, key) k).0 here) evicted_at_key h
    | inr there ↦
        let same = lookup-insert_ne (tenant, key) k (with_status evicted object) s'.objects there in
        subst
          (λ o.
            (o ≡ lookup k s.objects)
            ⊎ ((k.0 ≡ tenant)
                × ((object : CacheObjectMeta) × IsCandidate s tenant now_ms k.1 object
                    × (o ≡ some (with_status evicted object)))))
          (sym same) h
  ]

-- Whatever the target, an eviction leaves the entry of a key as it was, or marks as evicted a
-- committed object of the tenant that is not pinned hard and has no active lease at that time.
pub evict_for_tenant_safe :
    (s : MasterState) (tenant : TenantId) (target now_ms : ℕ) (k : ObjectKey)
    → Unique s.objects
    → EvictsOnly s tenant now_ms k (evict_for_tenant s tenant target now_ms).1
evict_for_tenant_safe s tenant target now_ms k u =
    evict_candidates_inv (EvictsOnly s tenant now_ms k) s tenant target now_ms
      (λ s' key object (old, c) found h.
        evict_one-EvictsOnly s s' tenant now_ms key object old c found k h)
      u (inl refl)
