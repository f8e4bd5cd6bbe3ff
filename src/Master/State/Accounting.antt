-- ===== src/Master/State/Accounting.antt =====
-- The DRAM accounting of crates/master/src/state.rs: what `reserve_tenant_quota` and
-- `release_tenant_quota` do to the used bytes of every tenant.
use mooncache.Prelude.{
  ℕ, ◌+◌, ◌≤◌, ◌≡◌, sym, ◌∙◌, inl, inr, List, [], ◌∷◌, none, some, arith, if◌then◌else◌,
  checked_add, u64_max, saturating_add, saturating_add-eq, ap, Unique, Entries, insert-Unique, ◌==◌,
  lookup, insert, remove, lookup-insert, Option-cases, total, total-insert_new, total-insert,
  total-remove,
}
use mooncache.Common.{ok, TenantId, tenant_id_beq_iff, tenant_id_eq, ObjectKey, object_key_eq}
use mooncache.Master.Object.{CacheObjectMeta}
use mooncache.Master.Quota.{TenantQuota, reserve_dram, release_dram}
use mooncache.Master.State.{
  quota_reserved_bytes, object_key, used_dram_from, reserve_quota, release_quota,
}

abbrev pub Objects : Type 0
Objects = List (ObjectKey × CacheObjectMeta)

-- The bytes that an entry counts for a tenant: those of its objects that are not revoked or
-- evicted.
unfoldable pub reserved_by : TenantId → ObjectKey → CacheObjectMeta → ℕ
reserved_by tenant k object = if k.0 == tenant then quota_reserved_bytes object else 0

-- The bytes that the objects of a tenant hold.
unfoldable pub reserved : TenantId → Objects → ℕ
reserved tenant = total (reserved_by tenant)

-- The used bytes of every quota are the bytes that the tenant's objects hold.
abbrev pub Accounted : List (TenantId × TenantQuota) → Objects → Type 0
Accounted quotas objects =
    (tenant : TenantId) (quota : TenantQuota)
    → lookup tenant quotas ≡ some quota
    → quota.used_dram_bytes ≡ reserved tenant objects

-- The bytes of a change that concerns `tenant`, as `other` sees it.
abbrev pub share : TenantId → ℕ → TenantId → ℕ
share tenant bytes other = if tenant == other then bytes else 0

module _ (quotas : List (TenantId × TenantQuota)) (tenant : TenantId) (bytes : ℕ)
    (before after : Objects) where
  pub release-Accounted :
      Accounted quotas before
      → ((other : TenantId)
          → reserved other after + share tenant bytes other ≡ reserved other before)
      → Accounted (release_quota quotas tenant bytes) after
  unfolding release_quota release_dram
  release-Accounted accounted moved other quota found = elim (Option-cases (lookup tenant quotas)) [
    | inl missing ↦
        ground (arith, accounted other quota, moved other, tenant_id_beq_iff tenant other)
    | inr (old, e) ↦ ground (
      arith,
      accounted other quota,
      accounted tenant old e,
      moved other,
      tenant_id_beq_iff tenant other,
      lookup-insert tenant other (release_dram old bytes) quotas,
    )
  ]

  pub reserve-Accounted :
      (quotas' : List (TenantId × TenantQuota))
      → reserve_quota quotas tenant bytes ≡ ok quotas'
      → Accounted quotas before
      → ((other : TenantId)
          → reserved other after ≡ reserved other before + share tenant bytes other)
      → Accounted quotas' after
  unfolding reserve_quota reserve_dram checked_add
  reserve-Accounted quotas' done accounted moved other quota found =
      elim (Option-cases (lookup tenant quotas)) [
        | inl missing ↦
            ground (arith, accounted other quota, moved other, tenant_id_beq_iff tenant other)
        | inr (old, e) ↦ ground (
          arith,
          accounted other quota,
          accounted tenant old e,
          moved other,
          tenant_id_beq_iff tenant other,
          lookup-insert tenant other (record old { used_dram_bytes = old.used_dram_bytes + bytes })
              quotas,
        )
      ]

-- How an update of one object moves the bytes of every tenant.
module _ (key : ObjectKey) (objects : Objects) (other : TenantId) where
  pub reserved-insert :
      (object old : CacheObjectMeta)
      → lookup key objects ≡ some old
      → reserved other (insert key object objects) + reserved_by other key old
        ≡ reserved other objects + reserved_by other key object
  unfolding reserved
  reserved-insert object old found = total-insert (reserved_by other) key object old objects found

  pub reserved-insert_new :
      (object : CacheObjectMeta)
      → lookup key objects ≡ none
      → reserved other (insert key object objects)
        ≡ reserved other objects + reserved_by other key object
  unfolding reserved
  reserved-insert_new object free = total-insert_new (reserved_by other) key object objects free

  pub reserved-remove :
      (old : CacheObjectMeta)
      → lookup key objects ≡ some old
      → reserved other (remove key objects) + reserved_by other key old ≡ reserved other objects
  unfolding reserved
  reserved-remove old found = total-remove (reserved_by other) key old objects found

-- An update that moves no bytes.
pub Accounted-same :
    (quotas : List (TenantId × TenantQuota)) (before after : Objects)
    → Accounted quotas before
    → ((other : TenantId) → reserved other after ≡ reserved other before)
    → Accounted quotas after
Accounted-same quotas before after accounted same other quota found =
    accounted other quota found ∙ sym (same other)

pub release_quota-Unique :
    (quotas : List (TenantId × TenantQuota)) (tenant : TenantId) (bytes : ℕ)
    → Unique quotas
    → Unique (release_quota quotas tenant bytes)
unfolding release_quota
release_quota-Unique quotas tenant bytes u = elim (Option-cases (lookup tenant quotas)) [
  | inl missing ↦ rw (missing, release_quota) u
  | inr (old, e) ↦ rw (e, release_quota) (insert-Unique tenant (release_dram old bytes) quotas u)
]

pub reserve_quota-Unique :
    (quotas quotas' : List (TenantId × TenantQuota)) (tenant : TenantId) (bytes : ℕ)
    → Unique quotas
    → reserve_quota quotas tenant bytes ≡ ok quotas'
    → Unique quotas'
unfolding reserve_quota reserve_dram checked_add
reserve_quota-Unique quotas quotas' tenant bytes u done =
    elim (Option-cases (lookup tenant quotas)) [
      | inl missing ↦ ground arith
      | inr (old, e) ↦ ground (
        arith,
        insert-Unique tenant (record old { used_dram_bytes = old.used_dram_bytes + bytes }) quotas
            u,
      )
    ]

-- The fold of `set_tenant_quota` counts exactly the tenant's bytes, if they fit a `u64`.
pub used_dram_from-eq :
    (tenant : TenantId) (used : ℕ) (objects : Objects)
    → Entries (λ k object. object_key object ≡ k) objects
    → used + reserved tenant objects ≤ u64_max
    → used_dram_from tenant used objects ≡ used + reserved tenant objects
unfolding used_dram_from reserved reserved_by total
used_dram_from-eq tenant used [] keyed fits = omega arith
used_dram_from-eq tenant used ((k, object) ∷ objects) keyed fits = ground (
  arith,
  used_dram_from-eq tenant used objects keyed.1,
  used_dram_from-eq tenant (saturating_add used (quota_reserved_bytes object)) objects keyed.1,
  saturating_add-eq used (quota_reserved_bytes object),
  ap (λ (j : ObjectKey). j.0) keyed.0,
)
