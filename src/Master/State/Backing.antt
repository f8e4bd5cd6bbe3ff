-- ===== src/Master/State/Backing.antt =====
-- crates/master/src/state.rs: the bytes of the live objects are backed by bytes that the allocator
-- has handed out, and these by the lengths of the mounted segments.
use mooncache.Prelude.{
  ℕ, zero, suc, ◌+◌, ◌*◌, ◌≤◌, ◌≡◌, refl, sym, subst, ◌⊎◌, inl, inr, List, [], ◌∷◌, map, none, some,
  arith, length, All, All-append, Text, lookup, insert, total, total-insert, total-insert_new,
  total-remove, Option-cases,
}
use mooncache.Common.{
  CacheResult, ok, err, TenantId, CacheKey, tenant_id_eq, ObjectKey, object_key_eq,
}
use mooncache.Master.Object.{
  ObjectStatus, committed, revoked, evicted, ReplicaDescriptor, CacheObjectMeta,
}
use mooncache.Master.Quota.{TenantQuota}
use mooncache.Master.Allocator.{
  SegmentAllocation, SegmentAllocator, mounted, allocator_mount, allocate,
}
use mooncache.Master.Allocator.Claim.{allocate-claim, allocate-err, Claimed}
use mooncache.Master.Allocator.Bounds.{
  IsWithin, handed_out, claim-IsWithin, handed_out-claim, handed_out-append,
}
use mooncache.Master.State.{
  MasterState, with_status, quota_reserved_bytes, retire, put_revoke, remove_object, put_end,
  get_replica_list, set_tenant_quota, put_start, put_start_allocated, reserved_object, replica_of,
  mount_segment, evict_for_tenant,
}
use mooncache.Master.State.Accounting.{Objects, reserved, reserved_by}
use mooncache.Master.State.Starting.{put_start_cases}
use mooncache.Master.State.Evicting.{evict_for_tenant_inv}

-- The bytes of all objects that are not revoked or evicted.
unfoldable pub held : Objects → ℕ
held = total λ k object. quota_reserved_bytes object

pub reserved-le-held :
    (tenant : TenantId) (objects : Objects) → reserved tenant objects ≤ held objects
unfolding reserved reserved_by held total
reserved-le-held tenant [] = omega arith
reserved-le-held tenant ((k, object) ∷ objects) = ground (arith, reserved-le-held tenant objects)

pub record IsBacked (s : MasterState) : Type 0 where
  pub within : All IsWithin s.allocator.segments
  pub backed : held s.objects ≤ handed_out s.allocator.segments

-- A change of the status that counts no more bytes than before.
held-with_status :
    (status : ObjectStatus) (objects : Objects) (k : ObjectKey) (object : CacheObjectMeta)
    → quota_reserved_bytes (with_status status object) ≤ quota_reserved_bytes object
    → lookup k objects ≡ some object
    → held (insert k (with_status status object) objects) ≤ held objects
unfolding held
held-with_status status objects k object fewer found = omega (
  arith,
  total-insert (λ (j : ObjectKey) (o : CacheObjectMeta). quota_reserved_bytes o) k
      (with_status status object) object objects found,
)

retired_bytes :
    (status : ObjectStatus) (object : CacheObjectMeta)
    → (status ≡ revoked) ⊎ (status ≡ evicted)
    → quota_reserved_bytes (with_status status object) ≤ quota_reserved_bytes object
unfolding quota_reserved_bytes
retired_bytes status object gone = ground arith

pub put_revoke-IsBacked :
    (s : MasterState) (tenant : TenantId) (key : CacheKey)
    → IsBacked s
    → IsBacked (put_revoke s tenant key).1
unfolding put_revoke retire
put_revoke-IsBacked s tenant key b = elim (Option-cases (lookup (tenant, key) s.objects)) [
  | inl missing ↦ rw (missing, put_revoke) b
  | inr (object, found) ↦
      let fewer =
        held-with_status revoked s.objects (tenant, key) object
          (retired_bytes revoked object (inl refl)) found in
      rw (found, put_revoke) (record { within = b.within; backed = omega (arith, fewer, b.backed) })
]

pub put_end-IsBacked :
    (s : MasterState) (tenant : TenantId) (key : CacheKey)
    → IsBacked s
    → IsBacked (put_end s tenant key).1
unfolding put_end quota_reserved_bytes
put_end-IsBacked s tenant key b = elim (Option-cases (lookup (tenant, key) s.objects)) [
  | inl missing ↦ rw (missing, put_end) b
  | inr (object, found) ↦ ground (arith, held-with_status committed s.objects (tenant, key) object)
]

pub remove_object-IsBacked :
    (s : MasterState) (tenant : TenantId) (key : CacheKey)
    → IsBacked s
    → IsBacked (remove_object s tenant key).1
unfolding remove_object held
remove_object-IsBacked s tenant key b = elim (Option-cases (lookup (tenant, key) s.objects)) [
  | inl missing ↦ rw (missing, remove_object) b
  | inr (object, found) ↦ ground (
    arith,
    total-remove (λ (j : ObjectKey) (o : CacheObjectMeta). quota_reserved_bytes o) (tenant, key)
        object s.objects,
  )
]

pub get_replica_list-IsBacked :
    (s : MasterState) (tenant : TenantId) (key : CacheKey) (now_ms : ℕ)
    → IsBacked s
    → IsBacked (get_replica_list s tenant key now_ms).1
unfolding get_replica_list
get_replica_list-IsBacked s tenant key now_ms b = ground arith

pub set_tenant_quota-IsBacked :
    (s : MasterState) (name : Text) (dram_bytes ssd_bytes : ℕ)
    → IsBacked s
    → IsBacked (set_tenant_quota s name dram_bytes ssd_bytes).1
unfolding set_tenant_quota
set_tenant_quota-IsBacked s name dram_bytes ssd_bytes b = ground arith

pub mount_segment-IsBacked :
    (s : MasterState) (node_id : Text) (len : ℕ)
    → IsBacked s
    → IsBacked (mount_segment s node_id len)
unfolding mount_segment allocator_mount handed_out
mount_segment-IsBacked s node_id len b = record {
  within =
      All-append IsWithin s.allocator.segments (mounted node_id len ∷ []) b.within
        (omega arith, tt);
  backed =
      omega (arith, b.backed, handed_out-append s.allocator.segments (mounted node_id len ∷ []));
}

pub evict_for_tenant-IsBacked :
    (s : MasterState) (tenant : TenantId) (target now_ms : ℕ)
    → IsBacked s
    → IsBacked (evict_for_tenant s tenant target now_ms).1
unfolding retire
evict_for_tenant-IsBacked s tenant target now_ms =
    evict_for_tenant_inv IsBacked tenant
      (λ s key object found b.
        let fewer =
          held-with_status evicted s.objects (tenant, key) object
            (retired_bytes evicted object (inr refl)) found in
        record { within = b.within; backed = omega (arith, fewer, b.backed) })
      s target now_ms

held-reserved :
    (objects : Objects) (tenant : TenantId) (key : CacheKey) (len : ℕ)
    (replicas : List ReplicaDescriptor)
    → lookup (tenant, key) objects ≡ none
    → held (insert (tenant, key) (reserved_object tenant key len replicas) objects)
      ≡ held objects + len
unfolding held quota_reserved_bytes
held-reserved objects tenant key len replicas free =
    total-insert_new (λ (j : ObjectKey) (o : CacheObjectMeta). quota_reserved_bytes o) (tenant, key)
      (reserved_object tenant key len replicas) objects free

le-mul_pos : (n len : ℕ) → 1 ≤ n → len ≤ n * len
le-mul_pos zero len h = absurd (omega arith)
le-mul_pos (suc n) len h = omega arith

-- A reservation adds the bytes of one replica to the live bytes, and takes those of each replica
-- from the segments.
put_start_allocated-IsBacked :
    (s : MasterState) (tenant : TenantId) (key : CacheKey) (len replica_count : ℕ)
    (quotas : List (TenantId × TenantQuota))
    (r : CacheResult (List SegmentAllocation) × SegmentAllocator)
    → lookup (tenant, key) s.objects ≡ none
    → allocate s.allocator len replica_count ≡ r
    → IsBacked s
    → IsBacked (put_start_allocated tenant key len (record s { quotas = quotas }) r).1
unfolding put_start_allocated
put_start_allocated-IsBacked s tenant key len replica_count quotas (err e, allocator) free done b =
    let same = allocate-err s.allocator allocator len replica_count e done in
    rw same (record { within = b.within; backed = b.backed })
put_start_allocated-IsBacked s tenant key len replica_count quotas (ok allocations, after) free done
      b =
    let (pass, count, _, some_replica) =
      allocate-claim s.allocator after len replica_count allocations done in
    let object = reserved_object tenant key len (map replica_of allocations) in
    let grown =
      subst (λ (r : Claimed). handed_out r.1 ≡ handed_out s.allocator.segments + length r.0 * len)
        pass (handed_out-claim replica_count len s.allocator.segments) in
    record {
      within =
          subst (λ (r : Claimed). All IsWithin r.1) pass
            (claim-IsWithin replica_count len s.allocator.segments b.within);
      backed = omega (
        arith,
        grown,
        b.backed,
        held-reserved s.objects tenant key len (map replica_of allocations) free,
        le-mul_pos (length allocations) len (subst (λ (n : ℕ). 1 ≤ n) (sym count) some_replica),
      );
    }

pub put_start-IsBacked :
    (s : MasterState) (tenant : TenantId) (key : CacheKey) (len replica_count : ℕ)
    → IsBacked s
    → IsBacked (put_start s tenant key len replica_count).1
put_start-IsBacked s tenant key len replica_count b =
    put_start_cases (λ r. IsBacked r.1) s tenant key len replica_count (λ e. b)
      λ quotas free done.
        put_start_allocated-IsBacked s tenant key len replica_count quotas
          (allocate s.allocator len replica_count) free refl b
