-- ===== src/Gateway/CacheFlow/Examples.antt =====
-- Requests of the gateway of crates/gateway/src/cache_flow.rs, and the theorems at concrete inputs.
use mooncache.Store.Slices.{get_range}
use mooncache.Store.{from_replica, is_empty}
use mooncache.Master.Allocator.{allocate, fitting_indexes, can_fit, take_from}
use mooncache.Master.Quota.{reserve_dram}
use mooncache.Prelude.{
  ℕ, zero, suc, ◌+◌, ◌%◌, ◌^◌, ◌≡◌, refl, true, false, [], ◌∷◌, none, some, eqb, text, text_eq,
  contains_key, lookup, text_beq, checked_add, pair_beq, insert,
}
use mooncache.Common.{TenantId, CacheKey, tenant_id_beq, cache_key_beq, object_key_eq}
use mooncache.Common.Metrics.{no_gateway_metrics}
use mooncache.Json.{get, Json, boolean, object, no_members}
use mooncache.Master.Lease.{no_leases}
use mooncache.Master.State.{
  put_start, reserve_quota, put_end, put_revoke, with_status, reserved_object,
}
use mooncache.Master.Object.{revoked}
use mooncache.Store.Memory.{
  Bytes, with_capacity, write_preallocated_chunk, validate_preallocated_handle,
  validate_allocated_handle, chunk_end, write_chunk,
}
use mooncache.Gateway.Errors.{done}
use mooncache.Gateway.Response.{GatewayRequest}
use mooncache.Gateway.Singleflight.{new_group}
use mooncache.Gateway.Clients.Local.{LocalCluster, local_master_client, local_store_client}
use mooncache.Gateway.Streaming.{
  Codec, JsonResult, decoded, json_error, replied, is_streaming_object, from_json,
}
use mooncache.Gateway.CacheFlow.{Environment, GatewayState, committed}
use mooncache.Gateway.CacheFlow.Cached.{
  write_cached_bytes, read_cached_bytes, write_cached_body, read_cached_body,
}
use mooncache.Gateway.CacheFlow.Handle.{handle_response_request}
use mooncache.Gateway.CacheFlow.Local.{locally}
use mooncache.Gateway.CacheFlow.RoundTrip.{write-read_cached_bytes}
use mooncache.Gateway.CacheFlow.Failures.{IsClean, write_cached_bytes-IsClean}
use mooncache.Gateway.CacheFlow.Bodies.{write-read_cached_body}
use mooncache.Gateway.CacheFlow.Counting.{statuses_total, writes_total, answers}
use mooncache.Gateway.CacheFlow.Answers.{handle_response_request-Counted}

abbrev tenant_a : TenantId
tenant_a = record { value = b'a' ∷ [] }

abbrev key_1 : CacheKey
key_1 = record { value = b'1' ∷ [] }

-- Only a truth value can be printed here.
abbrev print : Json ℕ → JsonResult Bytes
print (boolean true) = decoded (1 ∷ [])
print (boolean false) = decoded (0 ∷ [])
print _ = json_error []

abbrev parse : Bytes → JsonResult (Json ℕ)
parse (zero ∷ bytes) = decoded (boolean false)
parse (suc n ∷ bytes) = decoded (boolean true)
parse [] = json_error []

abbrev codec : Codec ℕ
codec = record {
  to_vec = print;
  from_slice = parse;
  from_str = parse;
  object_to_vec = λ cached. json_error [];
  object_from_value = λ value. json_error [];
}

-- The vendor answers every request with `true`.
abbrev env : Environment LocalCluster ℕ
env = record {
  master_client = local_master_client 0;
  store_client = local_store_client (λ bytes. bytes);
  vendor = record {
    vendor_id = b'v' ∷ [];
    adapter_version = b'1' ∷ [];
    model_cache_eligible = λ model. true;
    resolve_model_version = λ model. replied model;
    complete = λ request. replied (record { body = boolean true });
    stream = λ request. replied [];
  };
  codec = codec;
  hashing = record {
    to_vec = λ document. some [];
    to_vec_error = λ document. [];
    sha256_hex = λ bytes. bytes;
  };
  sha256_hex = λ token. token;
  is_zero = λ n. eqb n 0;
  request_from_value = λ body. decoded (record { model = []; body = body });
  borrowed = λ receiver. [];
  elapsed_micros = 5;
}

-- One node of 16 bytes, and a tenant who may use them.
abbrev state : GatewayState LocalCluster ℕ
state = record {
  tenant_id = tenant_a;
  tenant_configs = none;
  singleflight = new_group 4;
  metrics = no_gateway_metrics;
  cache_available = true;
  world = record {
    master = record {
      objects = [];
      quotas =
          (
            tenant_a,
            record { dram_bytes = 100; ssd_bytes = 0; used_dram_bytes = 0; used_ssd_bytes = 0 },
          )
          ∷ [];
      leases = no_leases;
      allocator = record {
        segments = record { node_id = b'n' ∷ []; len = 16; next_offset = 0 } ∷ [];
      };
      next_lease_sequence = 0;
      evictions_total = 0;
    };
    master_poisoned = false;
    memory = with_capacity 16;
    memory_poisoned = false;
  };
}

abbrev sha : Bytes → Bytes
sha bytes = bytes

bytes-written :
    write_cached_bytes (locally 0 sha env) tenant_a key_1 (7 ∷ 8 ∷ []) state
    ≡ (done committed, (write_cached_bytes (locally 0 sha env) tenant_a key_1 (7 ∷ 8 ∷ []) state).1)
unfolding write_cached_bytes local_master_client put_start contains_key lookup reserve_quota
    tenant_id_beq text_beq reserve_dram checked_add allocate fitting_indexes can_fit take_from
    from_replica local_store_client write_preallocated_chunk with_capacity cache_key_beq put_end
    pair_beq insert validate_preallocated_handle validate_allocated_handle chunk_end write_chunk
    get_range is_empty
bytes-written = refl

body-written : write_cached_body (locally 0 sha env) tenant_a key_1 (boolean true) state ≡ (
  done committed,
  (write_cached_body (locally 0 sha env) tenant_a key_1 (boolean true) state).1,
)
unfolding write_cached_body local_master_client put_start contains_key lookup reserve_quota
    tenant_id_beq text_beq reserve_dram checked_add allocate fitting_indexes can_fit take_from
    from_replica local_store_client write_preallocated_chunk with_capacity cache_key_beq put_end
    pair_beq insert validate_preallocated_handle validate_allocated_handle chunk_end write_chunk
    get_range is_empty from_json
body-written = refl

write-read_cached_bytes_example :
    (read_cached_bytes
      (locally 9 sha env)
      tenant_a
      key_1
      (write_cached_bytes (locally 0 sha env) tenant_a key_1 (7 ∷ 8 ∷ []) state).1).0
    ≡ done (some (record { bytes = 7 ∷ 8 ∷ []; tier = text "dram" }))
write-read_cached_bytes_example =
    write-read_cached_bytes env sha 0 9 tenant_a key_1 (7 ∷ 8 ∷ []) state
      (write_cached_bytes (locally 0 sha env) tenant_a key_1 (7 ∷ 8 ∷ []) state).1 bytes-written

abbrev true_body : Json ℕ
true_body = boolean true

unmarked : is_streaming_object true_body ≡ false
unfolding is_streaming_object get
unmarked = refl

write-read_cached_body_example :
    (read_cached_body
      (locally 9 sha env)
      tenant_a
      key_1
      (write_cached_body (locally 0 sha env) tenant_a key_1 (boolean true) state).1).0
    ≡ done (some (record { value = boolean true; tier = text "dram" }))
write-read_cached_body_example =
    write-read_cached_body env sha 0 9 tenant_a key_1 state
      (write_cached_body (locally 0 sha env) tenant_a key_1 (boolean true) state).1 (boolean true)
      (1 ∷ []) refl refl unmarked body-written

abbrev request : GatewayRequest ℕ
request = record {
  authorization = some (text "Bearer test-api-key");
  cache_control = none;
  body = object no_members;
}

handle_response_request-Counted_example :
    (statuses_total (handle_response_request env request state).1.metrics % 2 ^ 64
      ≡ (statuses_total state.metrics + answers (handle_response_request env request state).0)
        % 2 ^ 64)
    × (writes_total (handle_response_request env request state).1.metrics % 2 ^ 64
        ≡ (writes_total state.metrics + answers (handle_response_request env request state).0)
          % 2 ^ 64)
handle_response_request-Counted_example = handle_response_request-Counted env request state

-- The same state, with a store that is too small for two bytes.
abbrev small : GatewayState LocalCluster ℕ
small = record state {
  world = record {
    master = state.world.master;
    master_poisoned = false;
    memory = with_capacity 1;
    memory_poisoned = false;
  };
}

write_cached_bytes-IsClean_example :
    IsClean env sha 0 tenant_a key_1 small
      (write_cached_bytes (locally 0 sha env) tenant_a key_1 (7 ∷ 8 ∷ []) small)
write_cached_bytes-IsClean_example =
    write_cached_bytes-IsClean env sha 0 tenant_a key_1 (7 ∷ 8 ∷ []) small

-- That write is refused by the store, and its object is left as revoked.
small_object :
    lookup
      (tenant_a, key_1)
      (write_cached_bytes
        (locally 0 sha env)
        tenant_a
        key_1
        (7 ∷ 8 ∷ [])
        small).1.world.master.objects
    ≡ some (
        with_status revoked (
          reserved_object tenant_a key_1 2
            (record { node_id = b'n' ∷ []; offset = 0; len = 2 } ∷ [])))
unfolding write_cached_bytes local_master_client put_start contains_key lookup reserve_quota
    tenant_id_beq text_beq reserve_dram checked_add allocate fitting_indexes can_fit take_from
    from_replica local_store_client write_preallocated_chunk with_capacity cache_key_beq put_revoke
    pair_beq insert validate_preallocated_handle validate_allocated_handle chunk_end write_chunk
    get_range is_empty
small_object = refl
