-- ===== src/Gateway/CacheFlow/Handle.antt =====
-- `handle_response_request` of crates/gateway/src/cache_flow.rs and routes.rs.
use mooncache.Prelude.{
  Bool, true, false, not, List, [], ◌∷◌, ◌++◌, Option, none, some, if◌then◌else◌, Text, text,
}
use mooncache.Common.{TenantId, CacheKey}
use mooncache.Common.Metrics
use mooncache.Json.{Json, get, as_bool}
use mooncache.Fingerprint
use mooncache.Fingerprint.{
  EligibilityDecision, classify_request, FingerprintInput, compute_cache_key,
}
use mooncache.Protocol
use mooncache.Protocol.{
  CacheControl, HeaderResult, parsed, invalid_cache_control, parse_cache_control, CacheStatus, hit,
  miss, bypassed, ineligible, degraded, ResponsesRequest,
}
use mooncache.Gateway.Errors.{
  GatewayResult, done, raised, poisoned_lock, singleflight_leader_failed, gateway_error_text, Flow,
  continue, ◌>>=◌, ◌>>◌, pure, raise, lift,
}
use mooncache.Gateway.Response.{
  GatewayRequest, GatewayResponse, ok_response, with_cache_coalesced, with_cache_write,
}
use mooncache.Gateway.Singleflight.{
  SingleflightKey, SingleflightLeader, SingleflightStart, leads, waits, over_capacity, begin,
  publish,
}
use mooncache.Gateway.Clients.Local.{from_cache}
use mooncache.Gateway.Streaming.{from_json, from_vendor}
use mooncache.Gateway.CacheFlow.{
  SharedResult, answered, not_answered, Environment, GatewayState, skipped, write_failure,
  as_header_value, singleflight_write_mode, fingerprint_policy, fingerprint_body_without_stream,
  authenticate, tenant_allows_vendor, record_gateway_metrics, record_role,
}
use mooncache.Gateway.CacheFlow.Cached.{CachedPayload, read_cached_body}
use mooncache.Gateway.CacheFlow.Respond.{
  is_bypass, is_write_only, is_cache_only, record_simple, cache_only_missed, refused,
  vendor_response, cacheable_non_streaming_miss, streaming_response,
}

-- `body.get("stream").and_then(Value::as_bool).unwrap_or(false)`
unfoldable pub is_streaming : {Number : Type 0} → Json Number → Bool
is_streaming body = elim (get (text "stream") body) [
  | none ↦ false
  | some value ↦ elim (as_bool value) [ none ↦ false | some flag ↦ flag ]
]

unfoldable pub is_force_replay : CacheControl → Bool
is_force_replay Protocol.force_replay = true
is_force_replay _ = false

-- `cache_control.unwrap_or_default()`
abbrev pub or_empty : Option Text → Text
or_empty none = []
or_empty (some value) = value

-- `SingleflightWaiter::wait` of singleflight.rs, over the values that the receiver borrows. They end
-- when the leader is dropped.
unfoldable pub wait : {Number : Type 0} → List (Option (SharedResult Number)) → SharedResult Number
wait [] = not_answered (text "singleflight leader dropped before publishing result")
wait (some result ∷ borrowed) = result
wait (none ∷ borrowed) = wait borrowed

module _ {W Number : Type 0} (env : Environment W Number) where
  unfoldable pub eligibility_of : CacheControl → Json Number → Text → EligibilityDecision
  unfolding is_force_replay
  eligibility_of cache_control body model =
      if env.vendor.model_cache_eligible model
      then classify_request env.is_zero body (is_force_replay cache_control)
      else Fingerprint.bypassed (text "model is not cache eligible")

  -- `ENDPOINT_VERSION` is `responses-v1`.
  unfoldable pub fingerprint_input :
      TenantId → CacheControl → Text → Json Number → FingerprintInput Number
  fingerprint_input tenant_id cache_control resolved_model body = record {
    tenant_id = tenant_id;
    endpoint_version = text "responses-v1";
    vendor_id = env.vendor.vendor_id;
    resolved_model_version = resolved_model;
    adapter_version = env.vendor.adapter_version;
    cache_policy = fingerprint_policy cache_control;
    body = fingerprint_body_without_stream body;
  }

  -- The end of a leader: what came of its request is published.
  unfoldable pub publish_result :
      SingleflightLeader
      → GatewayResult (GatewayResponse Number) × GatewayState W Number
      → GatewayResult (GatewayResponse Number) × GatewayState W Number
  publish_result leader (done response, s) = (
    done (with_cache_coalesced (text "leader") response),
    record s { singleflight = publish s.singleflight leader (answered response) },
  )
  publish_result leader (raised e, s) = (
    raised e,
    record s { singleflight = publish s.singleflight leader (not_answered (gateway_error_text e)) },
  )

  unfoldable pub lead :
      SingleflightLeader
      → Flow (GatewayState W Number) (GatewayResponse Number)
      → Flow (GatewayState W Number) (GatewayResponse Number)
  unfolding publish_result record_role continue
  lead leader answer = do record_role Metrics.leader; λ s. publish_result leader (answer s)

  unfoldable pub waited :
      SharedResult Number → Flow (GatewayState W Number) (GatewayResponse Number)
  unfolding record_role record_gateway_metrics continue
  waited (answered response) = do
    record_role Metrics.waiter
    record_gateway_metrics miss skipped
    pure
        (with_cache_write (as_header_value skipped) (with_cache_coalesced (text "waiter") response))
  waited (not_answered message) = raise (singleflight_leader_failed message)

  -- The cases of `SingleflightStart`, where `answer` is `cacheable_non_streaming_miss`.
  unfoldable pub started_as :
      SingleflightStart
      → Flow (GatewayState W Number) (GatewayResponse Number)
      → Flow (GatewayState W Number) (GatewayResponse Number)
  unfolding lead waited wait record_role continue
  started_as (leads leader) answer = lead leader answer
  started_as (waits receiver) answer = waited (wait (env.borrowed receiver))
  started_as over_capacity answer = record_role Metrics.over_capacity >> answer

  -- The `match` on `begin`.
  unfoldable pub coalesced :
      SingleflightKey
      → Flow (GatewayState W Number) (GatewayResponse Number)
      → Flow (GatewayState W Number) (GatewayResponse Number)
  unfolding started_as
  coalesced key answer s = elim (begin s.singleflight key) [
    | none ↦ (raised poisoned_lock, s)
    | some (start, singleflight) ↦
        started_as start answer (record s { singleflight = singleflight })
  ]

  -- A request that the cache is not asked about, or did not answer.
  unfoldable pub respond_missed :
      TenantId
      → CacheControl
      → ResponsesRequest Number
      → CacheKey
      → Flow (GatewayState W Number) (GatewayResponse Number)
  unfolding coalesced cache_only_missed is_cache_only
  respond_missed tenant_id cache_control request cache_key =
      if is_cache_only cache_control
      then cache_only_missed cache_key
      else coalesced
          (record {
            tenant_id = tenant_id;
            cache_key = cache_key;
            write_mode = singleflight_write_mode cache_control;
          })
          (cacheable_non_streaming_miss env tenant_id cache_control request cache_key)

  -- A request, once the cache is asked.
  unfoldable pub respond_found :
      TenantId
      → CacheControl
      → ResponsesRequest Number
      → CacheKey
      → Option (CachedPayload (Json Number))
      → Flow (GatewayState W Number) (GatewayResponse Number)
  unfolding respond_missed record_simple continue
  respond_found tenant_id cache_control request cache_key none =
      respond_missed tenant_id cache_control request cache_key
  respond_found tenant_id cache_control request cache_key (some cached) = do
    record_simple hit skipped
    pure (ok_response cached.value hit (as_header_value skipped) cached.tier (some cache_key))

  -- A request that the cache may answer.
  unfoldable pub respond_cacheable :
      TenantId
      → CacheControl
      → ResponsesRequest Number
      → CacheKey
      → Flow (GatewayState W Number) (GatewayResponse Number)
  unfolding respond_found cache_only_missed vendor_response is_cache_only is_write_only continue
  respond_cacheable tenant_id cache_control request cache_key s =
      if not s.cache_available
      then (if is_cache_only cache_control
          then cache_only_missed cache_key s
          else vendor_response env request degraded write_failure (some cache_key) s)
      else if is_write_only cache_control
      then respond_missed tenant_id cache_control request cache_key s
      else continue (read_cached_body env tenant_id cache_key s)
          (respond_found tenant_id cache_control request cache_key)

  -- A request whose key is computed, and that does not ask for a stream.
  unfoldable pub respond :
      TenantId
      → CacheControl
      → ResponsesRequest Number
      → EligibilityDecision
      → CacheKey
      → Flow (GatewayState W Number) (GatewayResponse Number)
  unfolding vendor_response respond_cacheable is_bypass
  respond tenant_id cache_control request eligibility cache_key =
      if is_bypass cache_control
      then vendor_response env request bypassed skipped none
      else elim eligibility [
        | Fingerprint.bypassed reason ↦
            vendor_response env request ineligible skipped (some cache_key)
        | Fingerprint.cacheable ↦ respond_cacheable tenant_id cache_control request cache_key
      ]

  -- `if is_streaming { return streaming_response(..) }`
  unfoldable pub respond_either :
      Bool
      → TenantId
      → CacheControl
      → ResponsesRequest Number
      → EligibilityDecision
      → CacheKey
      → Flow (GatewayState W Number) (GatewayResponse Number)
  unfolding respond streaming_response
  respond_either streams tenant_id cache_control request eligibility cache_key =
      if streams
      then streaming_response env tenant_id cache_control request eligibility cache_key
      else respond tenant_id cache_control request eligibility cache_key

  -- A request that is allowed and whose mode is known.
  unfoldable pub handle_allowed :
      TenantId → CacheControl → Json Number → Flow (GatewayState W Number) (GatewayResponse Number)
  unfolding respond_either eligibility_of fingerprint_input is_streaming continue
  handle_allowed tenant_id cache_control body = do
    request ← lift (from_json (env.request_from_value body))
    resolved_model ← lift (from_vendor (env.vendor.resolve_model_version request.model))
    cache_key ← lift (
        from_cache (
          compute_cache_key env.hashing
            (fingerprint_input tenant_id cache_control resolved_model body)))
    respond_either (is_streaming body) tenant_id cache_control request
        (eligibility_of cache_control body request.model) cache_key

  -- A request that is allowed, as its mode was parsed.
  unfoldable pub moded :
      TenantId → Json Number → HeaderResult → Flow (GatewayState W Number) (GatewayResponse Number)
  unfolding handle_allowed refused
  moded tenant_id body (invalid_cache_control mode) =
      refused 400 (text "invalid cache control: " ++ mode)
  moded tenant_id body (parsed cache_control) = handle_allowed tenant_id cache_control body

  unfoldable pub handle_response_request :
      GatewayRequest Number → Flow (GatewayState W Number) (GatewayResponse Number)
  unfolding moded refused
  handle_response_request request s = elim (authenticate env.sha256_hex s request.authorization) [
    | none ↦ refused 401 (text "unauthorized") s
    | some tenant_id ↦
        if not (tenant_allows_vendor s tenant_id env.vendor.vendor_id)
        then refused 403 (text "tenant is not allowed to use configured vendor") s
        else moded tenant_id request.body (parse_cache_control (or_empty request.cache_control)) s
  ]
