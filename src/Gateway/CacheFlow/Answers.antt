-- ===== src/Gateway/CacheFlow/Answers.antt =====
-- crates/gateway/src/cache_flow.rs: every request that is answered is counted once among the cache
-- statuses and once among the writes, and one that fails is not.
use mooncache.Prelude.{
  ℕ, ◌+◌, ◌%◌, ◌^◌, ◌≡◌, refl, ap, ◌∙◌, inl, inr, Bool, true, false, not, ◌++◌, Option, none, some,
  arith, if◌then◌else◌, Option-cases, Text, text,
}
use mooncache.Common.{TenantId, CacheKey}
use mooncache.Common.Metrics
use mooncache.Common.Metrics.{
  GatewayMetrics, ObservedCacheStatus, ObservedWriteStatus, SingleflightRole, record_cache_status,
  record_write, record_singleflight, record_vendor_call,
}
use mooncache.Json.{Json}
use mooncache.Fingerprint
use mooncache.Fingerprint.{EligibilityDecision, compute_cache_key}
use mooncache.Gateway.Clients.Local.{from_cache}
use mooncache.Protocol
use mooncache.Protocol.{
  CacheControl, CacheStatus, hit, ResponsesRequest, ResponsesResponse, parsed,
  invalid_cache_control, parse_cache_control, HeaderResult,
}
use mooncache.Gateway.Errors.{
  GatewayError, GatewayResult, done, raised, Flow, continue, ◌>>=◌, ◌>>◌, pure, lift, raise,
}
use mooncache.Gateway.Response.{
  GatewayRequest, GatewayResponse, ok_response, with_cache_write, with_cache_coalesced,
}
use mooncache.Gateway.Singleflight.{
  SingleflightKey, SingleflightLeader, SingleflightStart, leads, waits, over_capacity, begin,
}
use mooncache.Gateway.Streaming.{from_json, from_vendor, collect_stream, CachedStreamObject}
use mooncache.Gateway.CacheFlow.{
  Environment, GatewayState, SharedResult, answered, not_answered, CacheWriteStatus,
  observed_cache_status, as_metrics_status, as_header_value, singleflight_write_mode,
  record_gateway_metrics, record_role, record_call, authenticate, tenant_allows_vendor,
}
use mooncache.Gateway.CacheFlow.Cached.{
  read_cached_body, read_cached_stream_object, write_cached_body, write_cached_stream_object,
  CachedPayload,
}
use mooncache.Gateway.CacheFlow.Respond.{
  record_simple, noted, cache_only_missed, refused, complete_vendor, vendor_response,
  captured_stream, vendor_stream_response, cacheable_non_streaming_miss, streaming_miss,
  streaming_found, streaming_response, is_bypass, is_read_only, is_write_only, is_cache_only,
}
use mooncache.Gateway.CacheFlow.Handle.{
  publish_result, lead, waited, wait, started_as, coalesced, respond_missed, respond_found,
  respond_cacheable, respond, respond_either, handle_allowed, moded, handle_response_request,
  or_empty, fingerprint_input, is_streaming, eligibility_of,
}
use mooncache.Gateway.CacheFlow.Counting.{
  IsTally, answers, IsStill, lift-IsStill, read_cached_body-IsStill,
  read_cached_stream_object-IsStill, write_cached_body-IsStill, write_cached_stream_object-IsStill,
  noted-IsStill, statuses_total, writes_total, statuses-IsTally, writes-IsTally,
}

module _ {W Number : Type 0} (μ : GatewayMetrics → ℕ) (tally : IsTally μ) where
  -- A part of a handler that leaves the measure.
  record Quiet {A : Type 0} (m : Flow (GatewayState W Number) A) : Type 0 where
    same : (s : GatewayState W Number) → μ (m s).1.metrics ≡ μ s.metrics

  -- A part that is counted once if it answers.
  pub record Counts {A : Type 0} (m : Flow (GatewayState W Number) A) : Type 0 where
    pub counts :
        (s : GatewayState W Number)
        → μ (m s).1.metrics % 2 ^ 64 ≡ (μ s.metrics + answers (m s).0) % 2 ^ 64

  still-Quiet : {A : Type 0} (m : Flow (GatewayState W Number) A) → IsStill m → Quiet m
  still-Quiet m still = record { same = λ s. ap μ (still.same s) }

  role-Quiet : (role : SingleflightRole) → Quiet (record_role role)
  unfolding record_role
  role-Quiet role = record { same = λ s. tally.keeps_role s.metrics role }

  call-Quiet : (micros : ℕ) → Quiet (record_call micros)
  unfolding record_call
  call-Quiet micros = record { same = λ s. tally.keeps_call s.metrics micros }

  continue-Quiet :
      {A B : Type 0} (r : GatewayResult A × GatewayState W Number)
      (f : A → Flow (GatewayState W Number) B)
      → ((a : A) → Quiet (f a))
      → μ (continue r f).1.metrics ≡ μ r.1.metrics
  unfolding continue
  continue-Quiet (done a, t) f next = (next a).same t
  continue-Quiet (raised e, t) f next = refl

  bind-Quiet :
      {A B : Type 0} (m : Flow (GatewayState W Number) A) (f : A → Flow (GatewayState W Number) B)
      → Quiet m
      → ((a : A) → Quiet (f a))
      → Quiet (m >>= f)
  bind-Quiet m f first next = record { same = λ s. continue-Quiet (m s) f next ∙ first.same s }

  continue-Counts :
      {A B : Type 0} (r : GatewayResult A × GatewayState W Number)
      (f : A → Flow (GatewayState W Number) B)
      → ((a : A) → Counts (f a))
      → μ (continue r f).1.metrics % 2 ^ 64 ≡ (μ r.1.metrics + answers (continue r f).0) % 2 ^ 64
  unfolding continue answers
  continue-Counts (done a, t) f next = (next a).counts t
  continue-Counts (raised e, t) f next = omega arith

  bind-Counts :
      {A B : Type 0} (m : Flow (GatewayState W Number) A) (f : A → Flow (GatewayState W Number) B)
      → Quiet m
      → ((a : A) → Counts (f a))
      → Counts (m >>= f)
  bind-Counts m f first next = record {
    counts = λ s.
        continue-Counts (m s) f next
        ∙ ap (λ n. (n + answers ((m >>= f) s).0) % 2 ^ 64) (first.same s);
  }

  raise-Counts : {A : Type 0} (e : GatewayError) → Counts {A = A} (raise e)
  unfolding answers
  raise-Counts e = record { counts = λ s. omega arith }

  gateway-Counts :
      {A : Type 0} (status : CacheStatus) (write : CacheWriteStatus) (a : A)
      → Counts (record_gateway_metrics status write >> pure a)
  unfolding record_gateway_metrics continue answers
  gateway-Counts status write a = record {
    counts = λ s. tally.grows s.metrics (observed_cache_status status) (as_metrics_status write);
  }

  simple-Counts :
      {A : Type 0} (status : CacheStatus) (write : CacheWriteStatus) (a : A)
      → Counts (record_simple status write >> pure a)
  unfolding record_simple record_gateway_metrics record_role continue answers
  simple-Counts status write a = record {
    counts = λ s.
        ap (λ n. n % 2 ^ 64)
          (tally.keeps_role
            (record_write (record_cache_status s.metrics (observed_cache_status status))
              (as_metrics_status write))
            Metrics.no_role)
        ∙ tally.grows s.metrics (observed_cache_status status) (as_metrics_status write);
  }

  refused-Counts : (status_code : ℕ) (message : Text) → Counts (refused status_code message)
  unfolding refused
  refused-Counts status_code message = simple-Counts Protocol.bypassed CacheWriteStatus.skipped _

  cache_only_missed-Counts : (key : CacheKey) → Counts (cache_only_missed key)
  unfolding cache_only_missed
  cache_only_missed-Counts key = simple-Counts Protocol.cache_only_miss CacheWriteStatus.skipped _

  if-Counts :
      {A : Type 0} (b : Bool) (m n : Flow (GatewayState W Number) A)
      → Counts m
      → Counts n
      → Counts (if b then m else n)
  if-Counts true m n first second = first
  if-Counts false m n first second = second

  module _ (env : Environment W Number) where
    complete_vendor-Quiet :
        (request : ResponsesRequest Number) → Quiet (complete_vendor env request)
    unfolding complete_vendor
    complete_vendor-Quiet request =
        bind-Quiet (record_call env.elapsed_micros) _ (call-Quiet env.elapsed_micros) (λ _.
          still-Quiet (lift (from_vendor (env.vendor.complete request)))
            (lift-IsStill (from_vendor (env.vendor.complete request))))

    vendor_response-Counts :
        (request : ResponsesRequest Number) (status : CacheStatus) (write : CacheWriteStatus)
        (key : Option CacheKey)
        → Counts (vendor_response env request status write key)
    unfolding vendor_response
    vendor_response-Counts request status write key =
        bind-Counts (complete_vendor env request) _ (complete_vendor-Quiet request)
          (λ response. simple-Counts status write _)

    captured_stream-Quiet :
        (request : ResponsesRequest Number) → Quiet (captured_stream env request)
    unfolding captured_stream
    captured_stream-Quiet request =
        let asked = from_vendor (env.vendor.stream request) in
        bind-Quiet (lift asked) _ (still-Quiet (lift asked) (lift-IsStill asked)) (λ stream.
          let captured = from_vendor (collect_stream env.codec stream) in
          bind-Quiet (lift captured) _ (still-Quiet (lift captured) (lift-IsStill captured))
            (λ captured.
              bind-Quiet (record_call env.elapsed_micros) _ (call-Quiet env.elapsed_micros)
                (λ _. still-Quiet (pure captured) (lift-IsStill (done captured)))))

    vendor_stream_response-Counts :
        (request : ResponsesRequest Number) (status : CacheStatus) (write : CacheWriteStatus)
        (key : Option CacheKey)
        → Counts (vendor_stream_response env request status write key)
    unfolding vendor_stream_response
    vendor_stream_response-Counts request status write key =
        bind-Counts (captured_stream env request) _ (captured_stream-Quiet request)
          (λ captured. simple-Counts status write _)

    if-Quiet :
        {A : Type 0} (b : Bool) (a : A) (m : Flow (GatewayState W Number) A)
        → IsStill m
        → Quiet (if b then pure a else m)
    if-Quiet true a m still = still-Quiet (pure a) (lift-IsStill (done a))
    if-Quiet false a m still = still-Quiet m still

    miss-Counts :
        (tenant : TenantId) (control : CacheControl) (request : ResponsesRequest Number)
        (key : CacheKey)
        → Counts (cacheable_non_streaming_miss env tenant control request key)
    unfolding cacheable_non_streaming_miss
    miss-Counts tenant control request key =
        bind-Counts (complete_vendor env request) _ (complete_vendor-Quiet request) (λ response.
          let writing = noted (write_cached_body env tenant key response.body) in
          bind-Counts (if is_read_only control then pure CacheWriteStatus.skipped else writing) _
            (if-Quiet (is_read_only control) CacheWriteStatus.skipped writing (
              noted-IsStill (write_cached_body env tenant key response.body)
                (write_cached_body-IsStill env tenant key response.body)))
            (λ write. gateway-Counts Protocol.miss write _))

    streaming_miss-Counts :
        (tenant : TenantId) (control : CacheControl) (request : ResponsesRequest Number)
        (key : CacheKey)
        → Counts (streaming_miss env tenant control request key)
    unfolding streaming_miss
    streaming_miss-Counts tenant control request key =
        bind-Counts (captured_stream env request) _ (captured_stream-Quiet request) (λ captured.
          let writing = noted (write_cached_stream_object env tenant key captured) in
          bind-Counts (if is_read_only control then pure CacheWriteStatus.skipped else writing) _
            (if-Quiet (is_read_only control) CacheWriteStatus.skipped writing (
              noted-IsStill (write_cached_stream_object env tenant key captured)
                (write_cached_stream_object-IsStill env tenant key captured)))
            (λ write. simple-Counts Protocol.miss write _))

    streaming_found-Counts :
        (tenant : TenantId) (control : CacheControl) (request : ResponsesRequest Number)
        (key : CacheKey) (cached : Option (CachedPayload (CachedStreamObject Number)))
        → Counts (streaming_found env tenant control request key cached)
    unfolding streaming_found
    streaming_found-Counts tenant control request key (some cached) =
        simple-Counts Protocol.hit CacheWriteStatus.skipped _
    streaming_found-Counts tenant control request key none =
        if-Counts (is_cache_only control) (cache_only_missed key)
          (streaming_miss env tenant control request key) (cache_only_missed-Counts key)
          (streaming_miss-Counts tenant control request key)

    streaming_response-Counts :
        (tenant : TenantId) (control : CacheControl) (request : ResponsesRequest Number)
        (eligibility : EligibilityDecision) (key : CacheKey)
        → Counts (streaming_response env tenant control request eligibility key)
    unfolding streaming_response
    streaming_response-Counts tenant control request (Fingerprint.bypassed reason) key =
        if-Counts (is_bypass control) _ _
          (vendor_stream_response-Counts request Protocol.bypassed CacheWriteStatus.skipped none)
          (vendor_stream_response-Counts request Protocol.ineligible CacheWriteStatus.skipped
            (some key))
    streaming_response-Counts tenant control request Fingerprint.cacheable key =
        if-Counts (is_bypass control) _ _
          (vendor_stream_response-Counts request Protocol.bypassed CacheWriteStatus.skipped none)
          (if-Counts (is_write_only control) _ _
            (streaming_found-Counts tenant control request key none)
            (bind-Counts (read_cached_stream_object env tenant key) _
              (still-Quiet (read_cached_stream_object env tenant key)
                (read_cached_stream_object-IsStill env tenant key))
              (λ cached. streaming_found-Counts tenant control request key cached)))

    publish_result-counts :
        (leader : SingleflightLeader)
        (r : GatewayResult (GatewayResponse Number) × GatewayState W Number) (n : ℕ)
        → μ r.1.metrics % 2 ^ 64 ≡ (n + answers r.0) % 2 ^ 64
        → μ (publish_result env leader r).1.metrics % 2 ^ 64
          ≡ (n + answers (publish_result env leader r).0) % 2 ^ 64
    unfolding publish_result answers
    publish_result-counts leader (done response, s) n h = h
    publish_result-counts leader (raised e, s) n h = h

    lead-Counts :
        (leader : SingleflightLeader)
        (answer : Flow (GatewayState W Number) (GatewayResponse Number))
        → Counts answer
        → Counts (lead env leader answer)
    unfolding lead
    lead-Counts leader answer c =
        bind-Counts (record_role Metrics.leader) (λ _ s. publish_result env leader (answer s))
          (role-Quiet Metrics.leader)
          (λ _. record {
            counts = λ s. publish_result-counts leader (answer s) (μ s.metrics) (c.counts s);
          })

    waited-Counts : (result : SharedResult Number) → Counts (waited env result)
    unfolding waited
    waited-Counts (answered response) =
        let told =
          with_cache_write (as_header_value CacheWriteStatus.skipped)
            (with_cache_coalesced (text "waiter") response) in
        bind-Counts (record_role Metrics.waiter)
          (λ _. record_gateway_metrics Protocol.miss CacheWriteStatus.skipped >> pure told)
          (role-Quiet Metrics.waiter)
          (λ _. gateway-Counts Protocol.miss CacheWriteStatus.skipped told)
    waited-Counts (not_answered message) = raise-Counts _

    started_as-Counts :
        (start : SingleflightStart) (answer : Flow (GatewayState W Number) (GatewayResponse Number))
        → Counts answer
        → Counts (started_as env start answer)
    unfolding started_as
    started_as-Counts (leads leader) answer c = lead-Counts leader answer c
    started_as-Counts (waits receiver) answer c = waited-Counts (wait (env.borrowed receiver))
    started_as-Counts over_capacity answer c =
        bind-Counts (record_role Metrics.over_capacity) (λ _. answer)
          (role-Quiet Metrics.over_capacity) (λ _. c)

    coalesced-Counts :
        (key : SingleflightKey) (answer : Flow (GatewayState W Number) (GatewayResponse Number))
        → Counts answer
        → Counts (coalesced env key answer)
    unfolding coalesced answers
    coalesced-Counts key answer c = record {
      counts = λ s. elim (Option-cases (begin s.singleflight key)) [
        | inl locked ↦ rw (locked, coalesced) (omega arith)
        | inr ((start, singleflight), begun) ↦
            rw (begun, coalesced)
              ((started_as-Counts start answer c).counts (record s { singleflight = singleflight }))
      ];
    }

    respond_missed-Counts :
        (tenant : TenantId) (control : CacheControl) (request : ResponsesRequest Number)
        (key : CacheKey)
        → Counts (respond_missed env tenant control request key)
    unfolding respond_missed
    respond_missed-Counts tenant control request key =
        let flight : SingleflightKey = record {
          tenant_id = tenant;
          cache_key = key;
          write_mode = singleflight_write_mode control;
        } in
        let answer = cacheable_non_streaming_miss env tenant control request key in
        if-Counts (is_cache_only control) (cache_only_missed key) (coalesced env flight answer)
          (cache_only_missed-Counts key)
          (coalesced-Counts flight answer (miss-Counts tenant control request key))

    respond_found-Counts :
        (tenant : TenantId) (control : CacheControl) (request : ResponsesRequest Number)
        (key : CacheKey) (cached : Option (CachedPayload (Json Number)))
        → Counts (respond_found env tenant control request key cached)
    unfolding respond_found
    respond_found-Counts tenant control request key none =
        respond_missed-Counts tenant control request key
    respond_found-Counts tenant control request key (some cached) =
        simple-Counts Protocol.hit CacheWriteStatus.skipped (
          ok_response cached.value Protocol.hit (as_header_value CacheWriteStatus.skipped)
            cached.tier (some key))

    if-counts :
        (b : Bool) (s : GatewayState W Number)
        (x y : GatewayResult (GatewayResponse Number) × GatewayState W Number)
        → μ x.1.metrics % 2 ^ 64 ≡ (μ s.metrics + answers x.0) % 2 ^ 64
        → μ y.1.metrics % 2 ^ 64 ≡ (μ s.metrics + answers y.0) % 2 ^ 64
        → μ (if b then x else y).1.metrics % 2 ^ 64
          ≡ (μ s.metrics + answers (if b then x else y).0) % 2 ^ 64
    if-counts true s x y first second = first
    if-counts false s x y first second = second

    respond_cacheable-Counts :
        (tenant : TenantId) (control : CacheControl) (request : ResponsesRequest Number)
        (key : CacheKey)
        → Counts (respond_cacheable env tenant control request key)
    unfolding respond_cacheable
    respond_cacheable-Counts tenant control request key = record {
      counts = λ s.
          let missed = cache_only_missed key s in
          let degraded =
            vendor_response env request Protocol.degraded CacheWriteStatus.write_failure (some key)
              s in
          let unread = respond_missed env tenant control request key s in
          let reading : Flow (GatewayState W Number) (GatewayResponse Number) =
            read_cached_body env tenant key >>= respond_found env tenant control request key in
          if-counts (not s.cache_available) s (if is_cache_only control then missed else degraded)
            (if is_write_only control then unread else reading s)
            (if-counts (is_cache_only control) s missed degraded
              ((cache_only_missed-Counts key).counts s)
              ((vendor_response-Counts request Protocol.degraded CacheWriteStatus.write_failure
                  (some key)).counts
                s))
            (if-counts (is_write_only control) s unread (reading s)
              ((respond_missed-Counts tenant control request key).counts s)
              ((bind-Counts (read_cached_body env tenant key)
                  (respond_found env tenant control request key)
                  (still-Quiet (read_cached_body env tenant key)
                    (read_cached_body-IsStill env tenant key))
                  (λ cached. respond_found-Counts tenant control request key cached)).counts
                s));
    }

    respond-Counts :
        (tenant : TenantId) (control : CacheControl) (request : ResponsesRequest Number)
        (eligibility : EligibilityDecision) (key : CacheKey)
        → Counts (respond env tenant control request eligibility key)
    unfolding respond
    respond-Counts tenant control request (Fingerprint.bypassed reason) key =
        if-Counts (is_bypass control)
          (vendor_response env request Protocol.bypassed CacheWriteStatus.skipped none)
          (vendor_response env request Protocol.ineligible CacheWriteStatus.skipped (some key))
          (vendor_response-Counts request Protocol.bypassed CacheWriteStatus.skipped none)
          (vendor_response-Counts request Protocol.ineligible CacheWriteStatus.skipped (some key))
    respond-Counts tenant control request Fingerprint.cacheable key =
        if-Counts (is_bypass control)
          (vendor_response env request Protocol.bypassed CacheWriteStatus.skipped none)
          (respond_cacheable env tenant control request key)
          (vendor_response-Counts request Protocol.bypassed CacheWriteStatus.skipped none)
          (respond_cacheable-Counts tenant control request key)

    respond_either-Counts :
        (streams : Bool) (tenant : TenantId) (control : CacheControl)
        (request : ResponsesRequest Number) (eligibility : EligibilityDecision) (key : CacheKey)
        → Counts (respond_either env streams tenant control request eligibility key)
    unfolding respond_either
    respond_either-Counts streams tenant control request eligibility key =
        if-Counts streams (streaming_response env tenant control request eligibility key)
          (respond env tenant control request eligibility key)
          (streaming_response-Counts tenant control request eligibility key)
          (respond-Counts tenant control request eligibility key)

    lift-Quiet : {A : Type 0} (r : GatewayResult A) → Quiet {A = A} (lift r)
    lift-Quiet r = still-Quiet (lift r) (lift-IsStill r)

    handle_allowed-Counts :
        (tenant : TenantId) (control : CacheControl) (body : Json Number)
        → Counts (handle_allowed env tenant control body)
    unfolding handle_allowed
    handle_allowed-Counts tenant control body =
        bind-Counts (lift (from_json (env.request_from_value body))) _
          (lift-Quiet (from_json (env.request_from_value body)))
          (λ request.
            let resolving = from_vendor (env.vendor.resolve_model_version request.model) in
            bind-Counts (lift resolving) _ (lift-Quiet resolving) (λ resolved_model.
              let keying = from_cache (
                compute_cache_key env.hashing
                  (fingerprint_input env tenant control resolved_model body)) in
              bind-Counts (lift keying) _ (lift-Quiet keying) (λ key.
                respond_either-Counts (is_streaming body) tenant control request
                  (eligibility_of env control body request.model) key)))

    mode-counts :
        (tenant : TenantId) (body : Json Number) (mode : HeaderResult) (s : GatewayState W Number)
        → μ (moded env tenant body mode s).1.metrics % 2 ^ 64
          ≡ (μ s.metrics + answers (moded env tenant body mode s).0) % 2 ^ 64
    unfolding moded
    mode-counts tenant body (invalid_cache_control mode) s =
        (refused-Counts 400 (text "invalid cache control: " ++ mode)).counts s
    mode-counts tenant body (parsed control) s =
        (handle_allowed-Counts tenant control body).counts s

    handle-counts :
        (request : GatewayRequest Number) (s : GatewayState W Number)
        → μ (handle_response_request env request s).1.metrics % 2 ^ 64
          ≡ (μ s.metrics + answers (handle_response_request env request s).0) % 2 ^ 64
    unfolding handle_response_request
    handle-counts request s =
        elim (Option-cases (authenticate env.sha256_hex s request.authorization)) [
          | inl unknown ↦
              rw (unknown, handle_response_request)
                ((refused-Counts 401 (text "unauthorized")).counts s)
          | inr (tenant, known) ↦
              rw (known, handle_response_request)
                (if-counts (not (tenant_allows_vendor s tenant env.vendor.vendor_id)) s _ _
                  ((refused-Counts 403
                      (text "tenant is not allowed to use configured vendor")).counts
                    s)
                  (mode-counts tenant request.body
                    (parse_cache_control (or_empty request.cache_control)) s))
        ]

-- A request that is answered, whatever the answer, adds one to the counters of the cache statuses
-- and one to those of the writes, all of them together and modulo 64 bits. A request that fails adds
-- nothing to them.
pub handle_response_request-Counted :
    {W Number : Type 0} (env : Environment W Number) (request : GatewayRequest Number)
    (s : GatewayState W Number)
    → (statuses_total (handle_response_request env request s).1.metrics % 2 ^ 64
        ≡ (statuses_total s.metrics + answers (handle_response_request env request s).0) % 2 ^ 64)
      × (writes_total (handle_response_request env request s).1.metrics % 2 ^ 64
          ≡ (writes_total s.metrics + answers (handle_response_request env request s).0) % 2 ^ 64)
handle_response_request-Counted env request s = (
  handle-counts statuses_total statuses-IsTally env request s,
  handle-counts writes_total writes-IsTally env request s,
)
