-- ===== src/Master/State/Starting.antt =====
-- The branches of `put_start` in crates/master/src/state.rs, as a rule: it refuses and leaves the
-- state alone, or the key is free, the quota is charged, and the allocator answers.
use mooncache.Prelude.{
  ℕ, ◌≡◌, inl, inr, List, none, Bool-cases, lookup, contains_key, contains_key-none,
}
use mooncache.Common.{
  CacheError, CacheResult, CacheResult-cases, ok, err, TenantId, CacheKey, object_key_eq,
}
use mooncache.Master.Object.{ReplicaDescriptor}
use mooncache.Master.Quota.{TenantQuota}
use mooncache.Master.Allocator.{allocate}
use mooncache.Master.State.{
  MasterState, put_start, put_start_allocated, reserve_tenant_quota, reserve_quota,
}

pub put_start_cases {ℓ} :
    (P : CacheResult (List ReplicaDescriptor) × MasterState → Type ℓ) (s : MasterState)
    (tenant : TenantId) (key : CacheKey) (len replica_count : ℕ)
    → ((e : CacheError) → P (err e, s))
    → ((quotas : List (TenantId × TenantQuota))
        → lookup (tenant, key) s.objects ≡ none
        → reserve_quota s.quotas tenant len ≡ ok quotas
        → P (
            put_start_allocated tenant key len
              (record s { quotas = quotas })
              (allocate s.allocator len replica_count)))
    → P (put_start s tenant key len replica_count)
unfolding put_start reserve_tenant_quota
put_start_cases P s tenant key len replica_count refused charged =
    elim (Bool-cases (contains_key (tenant, key) s.objects)) [
      | inl taken ↦ rw (taken, put_start) (refused _)
      | inr free ↦ elim (CacheResult-cases (reserve_quota s.quotas tenant len)) [
        | inr (e, over) ↦ rw (free, put_start, over) (refused e)
        | inl (quotas, done) ↦
            rw (free, put_start, done)
              (charged quotas (contains_key-none (tenant, key) s.objects free) done)
      ]
    ]
