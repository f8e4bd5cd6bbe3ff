-- ===== src/Master/State/Calls.antt =====
-- The calls that the owner of a `MasterState` makes. The service holds the state under a lock
-- (apps/master/src/main.rs), so concurrent requests are some sequence of calls.
pub mod Segments
pub mod Capacity
pub mod Sound
pub mod Keeping
pub mod Placed
use mooncache.Prelude.{ℕ, List, [], ◌∷◌, Text}
use mooncache.Common.{TenantId, CacheKey}
use mooncache.Master.State.{
  MasterState, mount_segment, set_tenant_quota, put_start, put_end, put_revoke, get_replica_list,
  remove_object, evict_for_tenant,
}

pub data Call : Type 0 where
  mounts : Text → ℕ → Call
  sets_quota : Text → ℕ → ℕ → Call
  starts : TenantId → CacheKey → ℕ → ℕ → Call
  ends revokes removes : TenantId → CacheKey → Call
  reads : TenantId → CacheKey → ℕ → Call
  evicts : TenantId → ℕ → ℕ → Call

unfoldable pub step : MasterState → Call → MasterState
step s (mounts node_id len) = mount_segment s node_id len
step s (sets_quota name dram_bytes ssd_bytes) = (set_tenant_quota s name dram_bytes ssd_bytes).1
step s (starts tenant key len replica_count) = (put_start s tenant key len replica_count).1
step s (ends tenant key) = (put_end s tenant key).1
step s (revokes tenant key) = (put_revoke s tenant key).1
step s (removes tenant key) = (remove_object s tenant key).1
step s (reads tenant key now_ms) = (get_replica_list s tenant key now_ms).1
step s (evicts tenant target now_ms) = (evict_for_tenant s tenant target now_ms).1

unfoldable pub run : MasterState → List Call → MasterState
unfolding step
run s [] = s
run s (call ∷ calls) = run (step s call) calls
