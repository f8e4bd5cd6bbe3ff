-- ===== src/Master/State/Calls/Sound.antt =====
-- The accounting of crates/master/src/state.rs over whole runs: from the empty state every sequence
-- of calls keeps the quotas exact, as long as the mounted segments have at most `u64::MAX` bytes.
use mooncache.Prelude.{◌+◌, ◌≤◌, ◌≡◌, List, [], ◌∷◌, some, arith, lookup, total, u64_max}
use mooncache.Common.{TenantId, tenant_id_eq}
use mooncache.Master.Quota.{TenantQuota}
use mooncache.Master.Allocator.Bounds.{handed_out, capacity, handed_out-le-capacity}
use mooncache.Master.State.{MasterState, default_state, mount_segment}
use mooncache.Master.State.Accounting.{reserved}
use mooncache.Master.State.WellFormed.{
  IsWellFormed, put_revoke-IsWellFormed, put_end-IsWellFormed, remove_object-IsWellFormed,
  get_replica_list-IsWellFormed, evict_for_tenant-IsWellFormed,
}
use mooncache.Master.State.WellFormed.Start.{set_tenant_quota-IsWellFormed, put_start-IsWellFormed}
use mooncache.Master.State.Backing.{
  IsBacked, held, reserved-le-held, put_revoke-IsBacked, put_end-IsBacked, remove_object-IsBacked,
  get_replica_list-IsBacked, set_tenant_quota-IsBacked, mount_segment-IsBacked,
  evict_for_tenant-IsBacked, put_start-IsBacked,
}
use mooncache.Master.State.Calls.{
  Call, mounts, sets_quota, starts, ends, revokes, removes, reads, evicts, step, run,
}
use mooncache.Master.State.Calls.Segments.{segments_of}
use mooncache.Master.State.Calls.Capacity.{
  capacity_of, mounted_bytes, mounted_bytes-cons, step-capacity, run-capacity,
}

pub record IsSound (s : MasterState) : Type 0 where
  pub well_formed : IsWellFormed s
  pub is_backed : IsBacked s

-- No tenant holds more than the mounted segments.
pub reserved-le-capacity :
    (s : MasterState) (tenant : TenantId) → IsSound s → reserved tenant s.objects ≤ capacity_of s
reserved-le-capacity s tenant h = omega (
  arith,
  reserved-le-held tenant s.objects,
  h.is_backed.backed,
  handed_out-le-capacity (segments_of s) h.is_backed.within,
)

step-IsWellFormed :
    (s : MasterState) (call : Call)
    → capacity_of s ≤ u64_max
    → IsSound s
    → IsWellFormed (step s call)
unfolding step mount_segment
step-IsWellFormed s (mounts node_id len) fits h = record {
  objects_unique = h.well_formed.objects_unique;
  quotas_unique = h.well_formed.quotas_unique;
  keyed = h.well_formed.keyed;
  accounted = h.well_formed.accounted;
}
step-IsWellFormed s (sets_quota name dram_bytes ssd_bytes) fits h =
    set_tenant_quota-IsWellFormed s name dram_bytes ssd_bytes
      (λ tenant. omega (arith, reserved-le-capacity s tenant h)) h.well_formed
step-IsWellFormed s (starts tenant key len replica_count) fits h =
    put_start-IsWellFormed s tenant key len replica_count h.well_formed
step-IsWellFormed s (ends tenant key) fits h = put_end-IsWellFormed s tenant key h.well_formed
step-IsWellFormed s (revokes tenant key) fits h = put_revoke-IsWellFormed s tenant key h.well_formed
step-IsWellFormed s (removes tenant key) fits h =
    remove_object-IsWellFormed s tenant key h.well_formed
step-IsWellFormed s (reads tenant key now_ms) fits h =
    get_replica_list-IsWellFormed s tenant key now_ms h.well_formed
step-IsWellFormed s (evicts tenant target now_ms) fits h =
    evict_for_tenant-IsWellFormed s tenant target now_ms h.well_formed

step-IsBacked : (s : MasterState) (call : Call) → IsBacked s → IsBacked (step s call)
unfolding step
step-IsBacked s (mounts node_id len) = mount_segment-IsBacked s node_id len
step-IsBacked s (sets_quota name dram_bytes ssd_bytes) =
    set_tenant_quota-IsBacked s name dram_bytes ssd_bytes
step-IsBacked s (starts tenant key len replica_count) =
    put_start-IsBacked s tenant key len replica_count
step-IsBacked s (ends tenant key) = put_end-IsBacked s tenant key
step-IsBacked s (revokes tenant key) = put_revoke-IsBacked s tenant key
step-IsBacked s (removes tenant key) = remove_object-IsBacked s tenant key
step-IsBacked s (reads tenant key now_ms) = get_replica_list-IsBacked s tenant key now_ms
step-IsBacked s (evicts tenant target now_ms) = evict_for_tenant-IsBacked s tenant target now_ms

pub step-IsSound :
    (s : MasterState) (call : Call) → capacity_of s ≤ u64_max → IsSound s → IsSound (step s call)
step-IsSound s call fits h = record {
  well_formed = step-IsWellFormed s call fits h;
  is_backed = step-IsBacked s call h.is_backed;
}

pub run-IsSound :
    (s : MasterState) (calls : List Call)
    → capacity_of s + mounted_bytes calls ≤ u64_max
    → IsSound s
    → IsSound (run s calls)
unfolding run
run-IsSound s [] fits h = h
run-IsSound s (call ∷ calls) fits h =
    run-IsSound (step s call) calls
      (omega (arith, step-capacity s call, mounted_bytes-cons call calls))
      (step-IsSound s call (omega arith) h)

no_quota :
    (tenant : TenantId) (quota : TenantQuota) → ¬ (lookup tenant default_state.quotas ≡ some quota)
unfolding lookup
no_quota tenant quota found = cc

pub default-IsSound : IsSound default_state
unfolding held handed_out total
default-IsSound = record {
  well_formed = record {
    objects_unique = tt;
    quotas_unique = tt;
    keyed = tt;
    accounted = λ tenant quota found. absurd (no_quota tenant quota found);
  };
  is_backed = record { within = tt; backed = omega arith };
}

-- From the empty state, every sequence of calls whose mounts add up to at most `u64::MAX` bytes
-- leads to a state in which every tenant that has a quota is charged exactly the bytes of its
-- reserved, writing and committed objects, and these are at most the bytes that were mounted.
pub run_accounting :
    (calls : List Call) (tenant : TenantId) (quota : TenantQuota)
    → mounted_bytes calls ≤ u64_max
    → lookup tenant (run default_state calls).quotas ≡ some quota
    → (quota.used_dram_bytes ≡ reserved tenant (run default_state calls).objects)
      × (quota.used_dram_bytes ≤ mounted_bytes calls)
unfolding capacity
run_accounting calls tenant quota fits found =
    let total_capacity = run-capacity default_state calls in
    let sound = run-IsSound default_state calls (omega arith) default-IsSound in
    let exact = sound.well_formed.accounted tenant quota found in
    let bounded = reserved-le-capacity (run default_state calls) tenant sound in
    (exact, omega (arith, exact, bounded, total_capacity))
