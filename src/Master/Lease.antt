-- ===== src/Master/Lease.antt =====
-- crates/master/src/lease.rs. The clock is read by the caller of each operation.
use mooncache.Prelude.{
  ℕ, Bool, false, List, [], ◌++◌, none, some, ltb, saturating_add, decimal, Text, text, lookup,
  insert, remove,
}
use mooncache.Common.{TenantId, CacheKey, ObjectKey, object_key_eq}
use mooncache.Master.Object.{ReplicaDescriptor}

abbrev pub default_lease_ttl_ms : ℕ
default_lease_ttl_ms = 5000

pub record Lease : Type 0 where
  pub lease_id : Text
  pub expires_at_ms : ℕ

unfoldable pub lease_new_at : ℕ → ℕ → Lease
lease_new_at sequence now_ms = record {
  lease_id = text "lease-" ++ decimal sequence;
  expires_at_ms = saturating_add now_ms default_lease_ttl_ms;
}

pub record ReplicaList : Type 0 where
  pub replicas : List ReplicaDescriptor
  pub lease : Lease

pub record LeaseTracker : Type 0 where
  pub leases : List (ObjectKey × Lease)

abbrev pub no_leases : LeaseTracker
no_leases = record { leases = [] }

-- `LeaseTracker::refresh`, at the time `now_ms`.
unfoldable pub refresh : LeaseTracker → TenantId → CacheKey → ℕ → ℕ → Lease × LeaseTracker
unfolding lease_new_at
refresh tracker tenant_id cache_key sequence now_ms =
    let lease = lease_new_at sequence now_ms in
    (lease, record { leases = insert (tenant_id, cache_key) lease tracker.leases })

unfoldable pub has_active_lease : LeaseTracker → TenantId → CacheKey → ℕ → Bool
has_active_lease tracker tenant_id cache_key now_ms =
    elim (lookup (tenant_id, cache_key) tracker.leases) [
      | none ↦ false
      | some lease ↦ ltb now_ms lease.expires_at_ms
    ]

-- `LeaseTracker::remove`
unfoldable pub drop_lease : LeaseTracker → TenantId → CacheKey → LeaseTracker
drop_lease tracker tenant_id cache_key = record {
  leases = remove (tenant_id, cache_key) tracker.leases;
}
