-- ===== src/Master/Object.antt =====
-- crates/master/src/object.rs
use mooncache.Prelude.{ℕ, Bool, List, Option, Text}
use mooncache.Common.{TenantId, CacheKey}

pub data ObjectStatus : Type 0 where
  reserving writing committed revoked evicted : ObjectStatus

pub record ReplicaDescriptor : Type 0 where
  pub node_id : Text
  pub offset : ℕ
  pub len : ℕ

pub record CacheObjectMeta : Type 0 where
  pub tenant_id : TenantId
  pub cache_key : CacheKey
  pub len : ℕ
  pub status : ObjectStatus
  pub replicas : List ReplicaDescriptor
  pub hard_pinned : Bool
  pub soft_pinned_until_ms : Option ℕ
