-- ===== src/Gateway/CacheFlow.antt =====
-- crates/gateway/src/cache_flow.rs: the state of the gateway, who may ask, and what is counted. An
-- operation takes the state and returns the new one, and runs from its start to its end. What a
-- waiting request learns from its leader is in `borrowed`.
pub mod Cached
pub mod Respond
pub mod Handle
pub mod New
pub mod Local
pub mod RoundTrip
pub mod Bodies
pub mod Failures
pub mod Counting
pub mod Answers
mod Examples
use mooncache.Prelude.{
  ℕ, Bool, true, false, List, [], ◌∷◌, ◌++◌, Option, none, some, if◌then◌else◌, eqb, Text, text,
  text_eq, ◌==◌,
}
use mooncache.Common.{TenantId, CacheKey, CacheResult}
use mooncache.Common.Metrics
use mooncache.Common.Metrics.{
  GatewayMetrics, ObservedCacheStatus, ObservedWriteStatus, write_committed, write_failed,
  write_skipped, SingleflightRole, record_cache_status, record_write, record_singleflight,
  record_vendor_call,
}
use mooncache.Json.{Json, object, has_member, remove_member}
use mooncache.Fingerprint.{Hashing}
use mooncache.Protocol.{
  CacheControl, CacheStatus, hit, miss, bypassed, ineligible, cache_only_miss, degraded,
  force_replay, read_only, ResponsesRequest, ResponsesResponse, SseEvent,
}
use mooncache.Gateway.Config.{TenantConfigSet, TenantConfig, tenant, tenant_for_bearer_token}
use mooncache.Gateway.Errors.{GatewayResult, done, raised, Flow, then_change, VendorError}
use mooncache.Gateway.Response.{GatewayResponse}
use mooncache.Gateway.Singleflight
use mooncache.Gateway.Singleflight.{SingleflightGroup, SingleflightKey, SingleflightWriteMode}
use mooncache.Gateway.Clients.{MasterClient, StoreClient}
use mooncache.Gateway.Streaming.{Codec, VendorResult, JsonResult}

-- `SharedResult`, what a leader publishes: a response, or the text of its error.
pub data SharedResult (Number : Type 0) : Type 0 where
  answered : GatewayResponse Number → SharedResult Number
  not_answered : Text → SharedResult Number

-- The trait of vendor.rs. A vendor is asked once a request.
pub record VendorAdapter (Number : Type 0) : Type 0 where
  pub vendor_id : Text
  pub adapter_version : Text
  pub model_cache_eligible : Text → Bool
  pub resolve_model_version : Text → VendorResult Text
  pub complete : ResponsesRequest Number → VendorResult (ResponsesResponse Number)
  pub stream : ResponsesRequest Number → VendorResult (List (VendorResult SseEvent))

-- What the gateway calls. `borrowed` has the values that a waiter borrows from its channel, until
-- the leader is dropped; `elapsed_micros` is how long a call of the vendor takes.
pub record Environment (W Number : Type 0) : Type 0 where
  pub master_client : MasterClient W
  pub store_client : StoreClient W
  pub vendor : VendorAdapter Number
  pub codec : Codec Number
  pub hashing : Hashing Number
  pub sha256_hex : Text → Text
  pub is_zero : Number → Bool
  pub request_from_value : Json Number → JsonResult (ResponsesRequest Number)
  pub borrowed : ℕ → List (Option (SharedResult Number))
  pub elapsed_micros : ℕ

-- `GatewayState`, with the world in which its clients live.
pub record GatewayState (W Number : Type 0) : Type 0 where
  pub tenant_id : TenantId
  pub tenant_configs : Option TenantConfigSet
  pub singleflight : SingleflightGroup (SharedResult Number)
  pub metrics : GatewayMetrics
  pub cache_available : Bool
  pub world : W

pub data CacheWriteStatus : Type 0 where
  committed skipped write_failure : CacheWriteStatus

-- `as_header_value`
unfoldable pub as_header_value : CacheWriteStatus → Text
as_header_value committed = text "committed"
as_header_value skipped = text "skipped"
as_header_value write_failure = text "failed"

-- `as_metrics_status`
unfoldable pub as_metrics_status : CacheWriteStatus → ObservedWriteStatus
as_metrics_status committed = write_committed
as_metrics_status skipped = write_skipped
as_metrics_status write_failure = write_failed

unfoldable pub observed_cache_status : CacheStatus → ObservedCacheStatus
observed_cache_status hit = Metrics.hit
observed_cache_status miss = Metrics.miss
observed_cache_status bypassed = Metrics.bypass
observed_cache_status ineligible = Metrics.ineligible
observed_cache_status cache_only_miss = Metrics.cache_only_miss
observed_cache_status degraded = Metrics.degraded

unfoldable pub singleflight_write_mode : CacheControl → SingleflightWriteMode
singleflight_write_mode read_only = Singleflight.read_only
singleflight_write_mode _ = Singleflight.writable

unfoldable pub fingerprint_policy : CacheControl → Text
fingerprint_policy force_replay = text "force-replay"
fingerprint_policy _ = text "default"

-- `str::strip_prefix`
unfoldable pub strip_prefix : Text → Text → Option Text
strip_prefix [] s = some s
strip_prefix (c ∷ prefix) [] = none
strip_prefix (c ∷ prefix) (d ∷ s) =
    let rest = strip_prefix prefix s in if eqb c d then rest else none

-- `iter().any(|id| id == vendor_id)`
unfoldable pub any_equals : Text → List Text → Bool
any_equals vendor_id [] = false
any_equals vendor_id (id ∷ ids) = if id == vendor_id then true else any_equals vendor_id ids

-- The `then` of the last line of `authenticate`, and the id of the tenant of a token.
abbrev pub tenant_config_id : Option TenantConfig → Option TenantId
tenant_config_id none = none
tenant_config_id (some config) = some config.id

unfoldable pub fingerprint_body_without_stream : {Number : Type 0} → Json Number → Json Number
fingerprint_body_without_stream (object members) =
    if has_member (text "stream") members
    then object (remove_member (text "stream") members)
    else object members
fingerprint_body_without_stream body = body

module _ {W Number : Type 0} where
  unfoldable pub authenticate :
      (Text → Text) → GatewayState W Number → Option Text → Option TenantId
  unfolding strip_prefix
  authenticate sha256_hex s none = none
  authenticate sha256_hex s (some authorization) =
      elim (strip_prefix (text "Bearer ") authorization) [
        | none ↦ none
        | some token ↦ elim s.tenant_configs [
          | some configs ↦ tenant_config_id (tenant_for_bearer_token sha256_hex configs token)
          | none ↦ if token == text "test-api-key" then some s.tenant_id else none
        ]
      ]

  unfoldable pub tenant_allows_vendor : GatewayState W Number → TenantId → Text → Bool
  unfolding any_equals
  tenant_allows_vendor s tenant_id vendor_id = elim s.tenant_configs [
    | none ↦ true
    | some configs ↦ elim (tenant configs tenant_id.value) [
      | none ↦ false
      | some config ↦ any_equals vendor_id config.allowed_vendors
    ]
  ]

  -- A call of a client: it changes the world.
  unfoldable pub on_world : {A : Type 0} → Flow W A → Flow (GatewayState W Number) A
  on_world call s = ((call s.world).0, record s { world = (call s.world).1 })

  abbrev pub with_metrics :
      (GatewayMetrics → GatewayMetrics) → Flow (GatewayState W Number) (Unit {0})
  with_metrics f = then_change (λ s. record s { metrics = f s.metrics })

  unfoldable pub record_gateway_metrics :
      CacheStatus → CacheWriteStatus → Flow (GatewayState W Number) (Unit {0})
  unfolding observed_cache_status as_metrics_status
  record_gateway_metrics cache_status write_status = with_metrics λ m.
      record_write (record_cache_status m (observed_cache_status cache_status))
        (as_metrics_status write_status)

  unfoldable pub record_role : SingleflightRole → Flow (GatewayState W Number) (Unit {0})
  record_role role = with_metrics λ m. record_singleflight m role

  unfoldable pub record_call : ℕ → Flow (GatewayState W Number) (Unit {0})
  record_call elapsed_micros = with_metrics λ m. record_vendor_call m elapsed_micros
