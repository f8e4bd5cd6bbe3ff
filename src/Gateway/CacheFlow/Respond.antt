-- ===== src/Gateway/CacheFlow/Respond.antt =====
-- The answers of crates/gateway/src/cache_flow.rs: from the vendor, as a stream, from the cache.
use mooncache.Prelude.{ℕ, Bool, true, false, Option, none, some, if◌then◌else◌, Text, text}
use mooncache.Common.{TenantId, CacheKey}
use mooncache.Common.Metrics
use mooncache.Fingerprint
use mooncache.Fingerprint.{EligibilityDecision}
use mooncache.Protocol
use mooncache.Protocol.{
  CacheControl, CacheStatus, hit, miss, bypassed, ineligible, cache_only_miss, ResponsesRequest,
  ResponsesResponse, SseEvent,
}
use mooncache.Gateway.Errors.{GatewayResult, done, raised, Flow, continue, ◌>>=◌, ◌>>◌, pure, lift}
use mooncache.Gateway.Response.{
  GatewayResponse, ok_response, ok_stream, error_response, with_cache_key,
}
use mooncache.Gateway.Streaming.{CapturedStream, CachedStreamObject, from_vendor, collect_stream}
use mooncache.Gateway.CacheFlow.{
  Environment, GatewayState, CacheWriteStatus, skipped, write_failure, as_header_value,
  record_gateway_metrics, record_role, record_call,
}
use mooncache.Gateway.CacheFlow.Cached.{
  CachedPayload, write_cached_body, write_cached_stream_object, read_cached_stream_object,
}

-- The tests `matches!(cache_control, ..)`.
unfoldable pub is_bypass : CacheControl → Bool
is_bypass Protocol.bypass = true
is_bypass _ = false

unfoldable pub is_read_only : CacheControl → Bool
is_read_only Protocol.read_only = true
is_read_only _ = false

unfoldable pub is_write_only : CacheControl → Bool
is_write_only Protocol.write_only = true
is_write_only _ = false

unfoldable pub is_cache_only : CacheControl → Bool
is_cache_only Protocol.cache_only = true
is_cache_only _ = false

-- `.unwrap_or(CacheWriteStatus::Failed)`
unfoldable pub or_failed : GatewayResult CacheWriteStatus → CacheWriteStatus
or_failed (done status) = status
or_failed (raised e) = write_failure

module _ {W Number : Type 0} where
  -- `record_simple`
  unfoldable pub record_simple :
      CacheStatus → CacheWriteStatus → Flow (GatewayState W Number) (Unit {0})
  unfolding record_gateway_metrics record_role continue
  record_simple status write_status = do
    record_gateway_metrics status write_status
    record_role Metrics.no_role

  -- A write of the cache whose failure is only noted.
  unfoldable pub noted :
      Flow (GatewayState W Number) CacheWriteStatus → Flow (GatewayState W Number) CacheWriteStatus
  unfolding or_failed
  noted attempt s = (done (or_failed (attempt s).0), (attempt s).1)

  -- The branch of a `cache-only` request that finds nothing.
  unfoldable pub cache_only_missed :
      CacheKey → Flow (GatewayState W Number) (GatewayResponse Number)
  unfolding record_simple continue
  cache_only_missed cache_key = do
    record_simple cache_only_miss skipped
    pure (
        with_cache_key cache_key (
          error_response 404 (text "cache object not found") cache_only_miss
            (as_header_value skipped) (text "none")))

  -- A branch that refuses the request.
  unfoldable pub refused : ℕ → Text → Flow (GatewayState W Number) (GatewayResponse Number)
  unfolding record_simple continue
  refused status_code message = do
    record_simple bypassed skipped
    pure (error_response status_code message bypassed (as_header_value skipped) (text "none"))

module _ {W Number : Type 0} (env : Environment W Number) where
  unfoldable pub complete_vendor :
      ResponsesRequest Number → Flow (GatewayState W Number) (ResponsesResponse Number)
  unfolding record_call continue
  complete_vendor request = do
    record_call env.elapsed_micros
    lift (from_vendor (env.vendor.complete request))

  unfoldable pub vendor_response :
      ResponsesRequest Number
      → CacheStatus
      → CacheWriteStatus
      → Option CacheKey
      → Flow (GatewayState W Number) (GatewayResponse Number)
  unfolding complete_vendor record_simple continue
  vendor_response request cache_status write_status cache_key = do
    response ← complete_vendor request
    record_simple cache_status write_status
    pure (
        ok_response response.body cache_status (as_header_value write_status) (text "vendor")
          cache_key)

  -- The stream of the vendor, to its end.
  unfoldable pub captured_stream :
      ResponsesRequest Number → Flow (GatewayState W Number) (CapturedStream Number)
  unfolding record_call continue
  captured_stream request = do
    stream ← lift (from_vendor (env.vendor.stream request))
    captured ← lift (from_vendor (collect_stream env.codec stream))
    record_call env.elapsed_micros
    pure captured

  unfoldable pub vendor_stream_response :
      ResponsesRequest Number
      → CacheStatus
      → CacheWriteStatus
      → Option CacheKey
      → Flow (GatewayState W Number) (GatewayResponse Number)
  unfolding captured_stream record_simple continue
  vendor_stream_response request cache_status write_status cache_key = do
    captured ← captured_stream request
    record_simple cache_status write_status
    pure (
        ok_stream captured.final_body captured.events cache_status (as_header_value write_status)
          (text "vendor") cache_key)

  unfoldable pub cacheable_non_streaming_miss :
      TenantId
      → CacheControl
      → ResponsesRequest Number
      → CacheKey
      → Flow (GatewayState W Number) (GatewayResponse Number)
  unfolding complete_vendor noted record_gateway_metrics is_read_only continue
  cacheable_non_streaming_miss tenant_id cache_control request cache_key = do
    response ← complete_vendor request
    write_status ←
        if is_read_only cache_control
        then pure skipped
        else noted (write_cached_body env tenant_id cache_key response.body)
    record_gateway_metrics miss write_status
    pure (
        ok_response response.body miss (as_header_value write_status) (text "vendor")
          (some cache_key))

  -- The stream of a request that the cache did not answer.
  unfoldable pub streaming_miss :
      TenantId
      → CacheControl
      → ResponsesRequest Number
      → CacheKey
      → Flow (GatewayState W Number) (GatewayResponse Number)
  unfolding captured_stream noted record_simple is_read_only continue
  streaming_miss tenant_id cache_control request cache_key = do
    captured ← captured_stream request
    write_status ←
        if is_read_only cache_control
        then pure skipped
        else noted (write_cached_stream_object env tenant_id cache_key captured)
    record_simple miss write_status
    pure (
        ok_stream captured.final_body captured.events miss (as_header_value write_status)
          (text "vendor") (some cache_key))

  -- The stream of a request, once the cache is asked.
  unfoldable pub streaming_found :
      TenantId
      → CacheControl
      → ResponsesRequest Number
      → CacheKey
      → Option (CachedPayload (CachedStreamObject Number))
      → Flow (GatewayState W Number) (GatewayResponse Number)
  unfolding record_simple cache_only_missed streaming_miss is_cache_only continue
  streaming_found tenant_id cache_control request cache_key (some cached) = do
    record_simple hit skipped
    pure (
        ok_stream cached.value.final_body cached.value.events hit (as_header_value skipped)
          cached.tier (some cache_key))
  streaming_found tenant_id cache_control request cache_key none =
      if is_cache_only cache_control
      then cache_only_missed cache_key
      else streaming_miss tenant_id cache_control request cache_key

  unfoldable pub streaming_response :
      TenantId
      → CacheControl
      → ResponsesRequest Number
      → EligibilityDecision
      → CacheKey
      → Flow (GatewayState W Number) (GatewayResponse Number)
  unfolding vendor_stream_response streaming_found is_bypass is_write_only continue
  streaming_response tenant_id cache_control request eligibility cache_key =
      if is_bypass cache_control
      then vendor_stream_response request bypassed skipped none
      else elim eligibility [
        | Fingerprint.bypassed reason ↦
            vendor_stream_response request ineligible skipped (some cache_key)
        | Fingerprint.cacheable ↦
            if is_write_only cache_control
            then streaming_found tenant_id cache_control request cache_key none
            else do
              cached ← read_cached_stream_object env tenant_id cache_key
              streaming_found tenant_id cache_control request cache_key cached
      ]
