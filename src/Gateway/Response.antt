-- ===== src/Gateway/Response.antt =====
-- crates/gateway/src/routes.rs: the response of the gateway and its headers.
use mooncache.Prelude.{btree_insert, ℕ, List, [], Option, none, some, Text, text}
use mooncache.Common.{CacheKey, redacted}
use mooncache.Json.{Json, string, object, member, no_members}
use mooncache.Protocol.{
  CacheStatus, hit, miss, bypassed, ineligible, cache_only_miss, degraded, SseEvent,
}

pub record GatewayRequest (Number : Type 0) : Type 0 where
  pub authorization : Option Text
  pub cache_control : Option Text
  pub body : Json Number

pub record GatewayResponse (Number : Type 0) : Type 0 where
  pub status_code : ℕ
  pub headers : List (Text × Text)
  pub body : Json Number
  pub stream_events : Option (List SseEvent)

-- `cache_status_header` of cache_flow.rs
unfoldable pub cache_status_header : CacheStatus → Text
cache_status_header hit = text "hit"
cache_status_header miss = text "miss"
cache_status_header bypassed = text "bypass"
cache_status_header ineligible = text "ineligible"
cache_status_header cache_only_miss = text "cache-only-miss"
cache_status_header degraded = text "degraded"

module _ {Number : Type 0} where
  unfoldable pub with_cache_headers :
      ℕ → Json Number → CacheStatus → Text → Text → GatewayResponse Number
  unfolding cache_status_header btree_insert
  with_cache_headers status_code body cache_status cache_write cache_tier = record {
    status_code = status_code;
    headers = btree_insert (text "x-cache-coalesced") (text "none") (
        btree_insert (text "x-cache-tier") cache_tier (
          btree_insert (text "x-cache-write") cache_write
            (btree_insert (text "x-cache-status") (cache_status_header cache_status) [])));
    body = body;
    stream_events = none;
  }

  unfoldable pub with_cache_key : CacheKey → GatewayResponse Number → GatewayResponse Number
  unfolding btree_insert
  with_cache_key cache_key response = record response {
    headers = btree_insert (text "x-cache-key") (redacted cache_key) response.headers;
  }

  unfoldable pub with_cache_coalesced : Text → GatewayResponse Number → GatewayResponse Number
  unfolding btree_insert
  with_cache_coalesced role response = record response {
    headers = btree_insert (text "x-cache-coalesced") role response.headers;
  }

  unfoldable pub with_cache_write : Text → GatewayResponse Number → GatewayResponse Number
  unfolding btree_insert
  with_cache_write cache_write response = record response {
    headers = btree_insert (text "x-cache-write") cache_write response.headers;
  }

  -- `if let Some(cache_key) = cache_key`
  unfoldable pub with_optional_key :
      Option CacheKey → GatewayResponse Number → GatewayResponse Number
  unfolding with_cache_key
  with_optional_key none response = response
  with_optional_key (some cache_key) response = with_cache_key cache_key response

  -- `GatewayResponse::ok`
  unfoldable pub ok_response :
      Json Number → CacheStatus → Text → Text → Option CacheKey → GatewayResponse Number
  unfolding with_cache_headers with_optional_key
  ok_response body cache_status cache_write cache_tier cache_key =
      with_optional_key cache_key (with_cache_headers 200 body cache_status cache_write cache_tier)

  -- `GatewayResponse::ok_stream`
  unfoldable pub ok_stream :
      Json Number
      → List SseEvent
      → CacheStatus
      → Text
      → Text
      → Option CacheKey
      → GatewayResponse Number
  unfolding with_cache_headers with_optional_key
  ok_stream body events cache_status cache_write cache_tier cache_key =
      with_optional_key cache_key
        (record (with_cache_headers 200 body cache_status cache_write cache_tier) {
          stream_events = some events;
        })

  -- `GatewayResponse::error`
  unfoldable pub error_response : ℕ → Text → CacheStatus → Text → Text → GatewayResponse Number
  unfolding with_cache_headers
  error_response status_code message cache_status cache_write cache_tier =
      with_cache_headers status_code (object (member (text "error") (string message) no_members))
        cache_status cache_write cache_tier
