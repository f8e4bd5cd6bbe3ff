-- ===== src/Master/State/Examples.antt =====
-- Tests of crates/master, and the theorems about it at concrete inputs.
use mooncache.Prelude.{
  ℕ, ◌⊎◌, All, ◌≤◌, inl, Unique, collect_into, ◌≡◌, ◌≢◌, refl, List, [], ◌∷◌, some, arith, text,
  lookup, insert, contains_key, pair_beq, text_beq, checked_add, saturating_add,
}
use mooncache.Common.{
  cache_key_from_hex, all_lower_hex, is_lower_hex, redacted, invalid_cache_key, CacheResult, ok,
  err, not_found, conflict, TenantId, CacheKey, ObjectKey, object_key_eq, tenant_id_eq,
  tenant_id_parse, is_blank, is_whitespace, tenant_id_beq, cache_key_beq,
}
use mooncache.Master.Object.{CacheObjectMeta, ReplicaDescriptor, committed, revoked}
use mooncache.Master.Quota.{TenantQuota, with_usage, reserve_dram}
use mooncache.Master.Lease.{no_leases, ReplicaList, lease_new_at, refresh}
use mooncache.Master.Allocator.{
  SegmentAllocator, allocator_mount, allocate, take_from, fitting_indexes, can_fit,
}
use mooncache.Master.State.{
  MasterState, default_state, mount_segment, set_tenant_quota, used_dram_from, put_start,
  reserve_tenant_quota, reserve_quota, put_start_allocated, put_end, reserved_object, with_status,
  get_replica_list, evict_for_tenant, metadata_snapshot, from_metadata_snapshot,
  observability_snapshot,
}
use mooncache.Master.Eviction.{is_committed}
use mooncache.Master.Allocator.FirstFit.{Rooms, IsRefusable, Allocates, Refuses, allocate-first_fit}
use mooncache.Master.Allocator.Bounds.{capacity}
use mooncache.Master.State.Eviction.{EvictsOnly, evict_for_tenant_safe}
use mooncache.Master.State.Writes.{put_start-atomic}
use mooncache.Master.State.Leased.{Spares}
use mooncache.Master.State.Reading.{Untouching, put_start-put_end-run-read, read-run-read}
use mooncache.Master.State.Transitions.{step-Transition}
use mooncache.Master.State.Statuses.{Transition, status_of}
use mooncache.Master.State.Lifecycle.{IsRetired, Unremoved, retired_until_removed}
use mooncache.Master.State.Snapshot.{from_metadata_snapshot-metadata_snapshot, restored-put_start}
use mooncache.Master.State.Accounting.{reserved}
use mooncache.Master.State.Placement.{AllDisjoint}
use mooncache.Master.State.Calls.{
  Call, mounts, sets_quota, starts, ends, revokes, reads, evicts, step, run,
}
use mooncache.Master.State.Calls.Capacity.{mounted_bytes}
use mooncache.Master.State.Calls.Sound.{IsSound, run-IsSound, default-IsSound, run_accounting}
use mooncache.Master.State.Calls.Placed.{mounted_nodes, run_disjoint}

abbrev tenant_a : TenantId
tenant_a = record { value = b'a' ∷ [] }

abbrev key_1 : CacheKey
key_1 = record { value = b'1' ∷ [] }

abbrev key_2 : CacheKey
key_2 = record { value = b'2' ∷ [] }

-- Two objects on one node, the first of them committed.
abbrev two_objects : List Call
two_objects =
    mounts (b'n' ∷ []) 8192
    ∷ sets_quota (b'a' ∷ []) 6000 0
    ∷ starts tenant_a key_1 4096 1
    ∷ ends tenant_a key_1
    ∷ starts tenant_a key_2 1024 1
    ∷ []

abbrev quota_after : TenantQuota
quota_after = record {
  dram_bytes = 6000;
  ssd_bytes = 0;
  used_dram_bytes = 5120;
  used_ssd_bytes = 0;
}

abbrev replica_at : ℕ → ℕ → ReplicaDescriptor
replica_at offset len = record { node_id = b'n' ∷ []; offset = offset; len = len }

abbrev object_1 : CacheObjectMeta
object_1 = with_status committed (reserved_object tenant_a key_1 4096 (replica_at 0 4096 ∷ []))

abbrev object_2 : CacheObjectMeta
object_2 = reserved_object tenant_a key_2 1024 (replica_at 4096 1024 ∷ [])

abbrev after_two_objects : MasterState
after_two_objects = record {
  objects = ((tenant_a, key_1), object_1) ∷ ((tenant_a, key_2), object_2) ∷ [];
  quotas = (tenant_a, quota_after) ∷ [];
  leases = no_leases;
  allocator = record {
    segments = record { node_id = b'n' ∷ []; len = 8192; next_offset = 5120 } ∷ [];
  };
  next_lease_sequence = 0;
  evictions_total = 0;
}

run-two_objects : run default_state two_objects ≡ after_two_objects
unfolding run step mount_segment allocator_mount set_tenant_quota tenant_id_parse is_blank
    is_whitespace used_dram_from with_usage put_start reserve_tenant_quota reserve_quota
    reserve_dram checked_add put_start_allocated allocate take_from fitting_indexes can_fit
    saturating_add put_end lookup insert contains_key pair_beq tenant_id_beq cache_key_beq text_beq
run-two_objects = refl

two_objects_quota : lookup tenant_a (run default_state two_objects).quotas ≡ some quota_after
unfolding lookup tenant_id_beq text_beq
two_objects_quota = rw run-two_objects

two_objects-IsSound : IsSound (run default_state two_objects)
unfolding mounted_bytes capacity
two_objects-IsSound = run-IsSound default_state two_objects (omega arith) default-IsSound

run_accounting_example :
    (5120 ≡ reserved tenant_a (run default_state two_objects).objects) × (5120 ≤ 8192)
unfolding mounted_bytes
run_accounting_example =
    run_accounting two_objects tenant_a quota_after (omega arith) two_objects_quota

found_1 : lookup (tenant_a, key_1) (run default_state two_objects).objects ≡ some object_1
unfolding lookup pair_beq tenant_id_beq cache_key_beq text_beq
found_1 = rw run-two_objects

found_2 : lookup (tenant_a, key_2) (run default_state two_objects).objects ≡ some object_2
unfolding lookup pair_beq tenant_id_beq cache_key_beq text_beq
found_2 = rw run-two_objects

keys_differ : ◌≢◌ {A = ObjectKey} (tenant_a, key_1) (tenant_a, key_2)
keys_differ e = ground arith

run_disjoint_example : AllDisjoint (replica_at 0 4096 ∷ []) (replica_at 4096 1024 ∷ [])
unfolding mounted_bytes mounted_nodes
run_disjoint_example =
    run_disjoint two_objects (tenant_a, key_1) (tenant_a, key_2) object_1 object_2 (omega arith)
      (tt, tt) keys_differ found_1 found_2

two_objects-Unique : Unique after_two_objects.objects
unfolding lookup pair_beq tenant_id_beq cache_key_beq text_beq
two_objects-Unique = (refl, (refl, tt))

evict_for_tenant_safe_example :
    EvictsOnly after_two_objects tenant_a 1000
      (tenant_a, key_1)
      (evict_for_tenant after_two_objects tenant_a 100 1000).1
evict_for_tenant_safe_example =
    evict_for_tenant_safe after_two_objects tenant_a 100 1000 (tenant_a, key_1) two_objects-Unique

abbrev key_3 : CacheKey
key_3 = record { value = b'3' ∷ [] }

abbrev started_3 : CacheResult (List ReplicaDescriptor) × MasterState
started_3 = put_start after_two_objects tenant_a key_3 100 1

abbrev written_3 : CacheResult (Unit {0}) × MasterState
written_3 = put_end started_3.1 tenant_a key_3

started_3_replicas : started_3.0 ≡ ok (replica_at 5120 100 ∷ [])
unfolding put_start contains_key lookup insert pair_beq tenant_id_beq cache_key_beq text_beq
    reserve_tenant_quota reserve_quota reserve_dram checked_add put_start_allocated allocate
    take_from fitting_indexes can_fit saturating_add
started_3_replicas = refl

abbrev calls_3 : List Call
calls_3 = reads tenant_a key_3 900 ∷ revokes tenant_a key_1 ∷ starts tenant_a key_3 7 1 ∷ []

calls_3-Untouching : All (Untouching (tenant_a, key_3)) calls_3
calls_3-Untouching = (
  record {
    unrevoked = λ e. ground arith;
    unremoved = λ e. ground arith;
    unevicted = λ target now_ms e. ground arith;
  },
  (
    record {
      unrevoked = λ e. ground arith;
      unremoved = λ e. ground arith;
      unevicted = λ target now_ms e. ground arith;
    },
    (
      record {
        unrevoked = λ e. ground arith;
        unremoved = λ e. ground arith;
        unevicted = λ target now_ms e. ground arith;
      },
      tt,
    ),
  ),
)

put_start-put_end-run-read_example :
    (get_replica_list started_3.1 tenant_a key_3 1000 ≡ (err not_found, started_3.1))
    × (written_3.0 ≡ ok tt)
    × ((get_replica_list (run written_3.1 calls_3) tenant_a key_3 1000).0
        ≡ ok (record {
          replicas = replica_at 5120 100 ∷ [];
          lease =
              lease_new_at (saturating_add (run written_3.1 calls_3).next_lease_sequence 1) 1000;
        }))
put_start-put_end-run-read_example =
    put_start-put_end-run-read after_two_objects tenant_a key_3 100 1 1000
      (replica_at 5120 100 ∷ []) calls_3 two_objects-Unique started_3_replicas calls_3-Untouching

too_many_replicas :
    (put_start after_two_objects tenant_a key_3 100 2).0
    ≡ err (conflict (text "insufficient mounted segment capacity"))
unfolding put_start contains_key lookup insert pair_beq tenant_id_beq cache_key_beq text_beq
    reserve_tenant_quota reserve_quota reserve_dram checked_add put_start_allocated allocate
    take_from fitting_indexes can_fit saturating_add
too_many_replicas = refl

put_start-atomic_example : (put_start after_two_objects tenant_a key_3 100 2).1 ≡ after_two_objects
put_start-atomic_example =
    put_start-atomic after_two_objects tenant_a key_3 100 2
      (conflict (text "insufficient mounted segment capacity")) too_many_replicas

abbrev list_1 : ReplicaList
list_1 = record {
  replicas = replica_at 0 4096 ∷ [];
  lease = lease_new_at (saturating_add 0 1) 1000;
}

read_1 : (get_replica_list after_two_objects tenant_a key_1 1000).0 ≡ ok list_1
unfolding get_replica_list lookup pair_beq tenant_id_beq cache_key_beq text_beq is_committed refresh
read_1 = refl

-- The second object is revoked, the first is read again, and the tenant's objects are evicted.
abbrev calls_1 : List Call
calls_1 = revokes tenant_a key_2 ∷ reads tenant_a key_1 1500 ∷ evicts tenant_a 100 2000 ∷ []

calls_1-Spares : All (Spares (tenant_a, key_1) list_1.lease.expires_at_ms) calls_1
unfolding lease_new_at saturating_add
calls_1-Spares = (
  record {
    unrevoked = λ e. ground arith;
    unremoved = λ e. ground arith;
    extends = λ now_ms e. ground arith;
    evicts_before = λ target now_ms e. ground arith;
  },
  (
    record {
      unrevoked = λ e. ground arith;
      unremoved = λ e. ground arith;
      extends = λ now_ms e. ground arith;
      evicts_before = λ target now_ms e. ground arith;
    },
    (
      record {
        unrevoked = λ e. ground arith;
        unremoved = λ e. ground arith;
        extends = λ now_ms e. ground arith;
        evicts_before = λ target now_ms e. ground arith;
      },
      tt,
    ),
  ),
)

abbrev after_read_1 : MasterState
after_read_1 = (get_replica_list after_two_objects tenant_a key_1 1000).1

read-run-read_example :
    (lookup (tenant_a, key_1) (run after_read_1 calls_1).objects
      ≡ lookup (tenant_a, key_1) after_two_objects.objects)
    × ((get_replica_list (run after_read_1 calls_1) tenant_a key_1 3000).0
        ≡ ok (record {
          replicas = list_1.replicas;
          lease =
              lease_new_at (saturating_add (run after_read_1 calls_1).next_lease_sequence 1) 3000;
        }))
read-run-read_example =
    read-run-read after_two_objects tenant_a key_1 1000 3000 list_1 calls_1 two_objects-Unique
      read_1 calls_1-Spares

step-Transition_example :
    Transition after_two_objects
      (ends tenant_a key_2)
      (tenant_a, key_2)
      (status_of (tenant_a, key_2) after_two_objects.objects)
      (status_of (tenant_a, key_2) (step after_two_objects (ends tenant_a key_2)).objects)
step-Transition_example =
    step-Transition after_two_objects (ends tenant_a key_2) (tenant_a, key_2) two_objects-Unique

abbrev after_revoke : MasterState
after_revoke = record after_two_objects {
  objects = ((tenant_a, key_1), with_status revoked object_1) ∷ ((tenant_a, key_2), object_2) ∷ [];
}

after_revoke-Unique : Unique after_revoke.objects
unfolding lookup pair_beq tenant_id_beq cache_key_beq text_beq
after_revoke-Unique = (refl, (refl, tt))

revoked_1 : IsRetired (status_of (tenant_a, key_1) after_revoke.objects)
unfolding lookup pair_beq tenant_id_beq cache_key_beq text_beq
revoked_1 = inl refl

starts_only : Unremoved (tenant_a, key_1) (starts tenant_a key_1 10 1 ∷ [])
starts_only = ((λ e. ground arith), tt)

retired_until_removed_example :
    ((get_replica_list (run after_revoke (starts tenant_a key_1 10 1 ∷ [])) tenant_a key_1 1000).0
      ≡ err not_found)
    × ((put_end (run after_revoke (starts tenant_a key_1 10 1 ∷ [])) tenant_a key_1).0
        ≡ err (conflict (text "object is not writable")))
    × (put_start (run after_revoke (starts tenant_a key_1 10 1 ∷ [])) tenant_a key_1 10 1 ≡ (
      err (conflict (text "object already exists")),
      run after_revoke (starts tenant_a key_1 10 1 ∷ []),
    ))
retired_until_removed_example =
    retired_until_removed after_revoke (starts tenant_a key_1 10 1 ∷ []) tenant_a key_1 10 1 1000
      after_revoke-Unique revoked_1 starts_only

from_metadata_snapshot-metadata_snapshot_example :
    (lookup
        (tenant_a, key_1)
        (from_metadata_snapshot (metadata_snapshot (run default_state two_objects))).objects
      ≡ lookup (tenant_a, key_1) (run default_state two_objects).objects)
    × (lookup tenant_a
          (from_metadata_snapshot (metadata_snapshot (run default_state two_objects))).quotas
        ≡ lookup tenant_a (run default_state two_objects).quotas)
    × ((from_metadata_snapshot (metadata_snapshot (run default_state two_objects))).evictions_total
        ≡ (run default_state two_objects).evictions_total)
    × ((from_metadata_snapshot (metadata_snapshot (run default_state two_objects))).leases.leases
        ≡ [])
    × ((from_metadata_snapshot
          (metadata_snapshot (run default_state two_objects))).allocator.segments
        ≡ [])
from_metadata_snapshot-metadata_snapshot_example =
    from_metadata_snapshot-metadata_snapshot (run default_state two_objects) (tenant_a, key_1)
      tenant_a two_objects-IsSound.well_formed

abbrev restored : MasterState
restored =
    mount_segment (from_metadata_snapshot (metadata_snapshot after_two_objects)) (b'n' ∷ []) 8192

restored_start : (put_start restored tenant_a key_3 100 1).0 ≡ ok (replica_at 0 100 ∷ [])
unfolding mount_segment from_metadata_snapshot metadata_snapshot allocator_mount collect_into
    put_start contains_key lookup insert pair_beq tenant_id_beq cache_key_beq text_beq
    reserve_tenant_quota reserve_quota reserve_dram checked_add put_start_allocated allocate
    take_from fitting_indexes can_fit saturating_add
restored_start = refl

restored-put_start_example : replica_at 0 100 ∷ [] ≡ replica_at 0 100 ∷ []
restored-put_start_example =
    restored-put_start after_two_objects (b'n' ∷ []) 8192 tenant_a key_3 100 (replica_at 0 100 ∷ [])
      restored_start

abbrev two_nodes : SegmentAllocator
two_nodes = record {
  segments =
      record { node_id = b'm' ∷ []; len = 10; next_offset = 8 }
      ∷ record { node_id = b'n' ∷ []; len = 20; next_offset = 4 }
      ∷ [];
}

allocate-first_fit_example :
    (rooms : ℕ) × Rooms 6 two_nodes.segments rooms
    × (((¬ IsRefusable 6 1 rooms) × Allocates two_nodes 6 1)
        ⊎ (IsRefusable 6 1 rooms × Refuses two_nodes 6 1))
allocate-first_fit_example = allocate-first_fit two_nodes 6 1

observed : observability_snapshot after_two_objects ≡ (2, 0)
unfolding observability_snapshot
observed = refl

short_key : cache_key_from_hex (b'a' ∷ []) ≡ err invalid_cache_key
unfolding cache_key_from_hex all_lower_hex is_lower_hex
short_key = refl

short_form : redacted key_1 ≡ b'1' ∷ 0x2026 ∷ []
unfolding redacted
short_form = refl
