-- ===== src/AdminApi/Calls.antt =====
-- Sequences of calls of the service of crates/admin-api/src/routes.rs, and its counters.
use mooncache.Prelude.{
  ℕ, ◌+◌, ◌%◌, ◌^◌, ◌≡◌, refl, sym, ap, subst, inl, inr, List, [], ◌∷◌, ◌++◌, arith, length,
  length-append, wrapping_add, Text,
}
use mooncache.Common.{TenantId, CacheKey}
use mooncache.Common.Metrics.{AdminMetrics, record_action, count_result}
use mooncache.Fingerprint.{Hashing}
use mooncache.Master.State.{MasterState}
use mooncache.AdminApi.Roles
use mooncache.AdminApi.Roles.{AdminAction, admin_action_label}
use mooncache.AdminApi.Audit.{AuditResult, success, denied, failed, AuditEvent, InMemoryAuditSink}
use mooncache.AdminApi.{
  AdminRequestContext, AdminService, AdminResult, NodeView, audit_event, admin_action_result,
  new_service, metrics_snapshot, drain_node, debug_cache_fingerprint, CacheFingerprintDebugRequest,
  delete_cache_object, audit_events,
}
use mooncache.AdminApi.Recording.{
  Outcome, metrics_snapshot-Outcome, drain_node-Outcome, debug_cache_fingerprint-Outcome,
  delete_cache_object-Outcome, audit_events-Outcome,
}

-- The calls that change the service. A listing of the nodes changes nothing.
pub data AdminCall (Number : Type 0) : Type 0 where
  asks_metrics reads_log : AdminCall Number
  drains : Text → AdminCall Number
  debugs : CacheFingerprintDebugRequest Number → AdminCall Number
  deletes : TenantId → CacheKey → AdminCall Number

-- A call by someone at some time.
pub record Request (Number : Type 0) : Type 0 where
  pub context : AdminRequestContext
  pub now_ms : ℕ
  pub call : AdminCall Number

module _ {Number : Type 0} (h : Hashing Number) where
  unfoldable pub handle : AdminService × MasterState → Request Number → AdminService × MasterState
  handle (s, master) request = elim request.call [
    | asks_metrics ↦ ((metrics_snapshot s request.context request.now_ms).1, master)
    | reads_log ↦ ((audit_events s request.context request.now_ms).1, master)
    | drains node_id ↦ ((drain_node s request.context request.now_ms node_id).1, master)
    | debugs body ↦ ((debug_cache_fingerprint h s request.context request.now_ms body).1, master)
    | deletes tenant key ↦
        let (answer, master') =
          delete_cache_object s request.context request.now_ms master tenant key in
        (answer.1, master')
  ]

  unfoldable pub handle_all :
      AdminService × MasterState → List (Request Number) → AdminService × MasterState
  unfolding handle
  handle_all x [] = x
  handle_all x (request ∷ requests) = handle_all (handle x request) requests

-- What a result adds to the number of successes, of refusals and of failures.
unfoldable pub success_of : AuditResult → ℕ
success_of success = 1
success_of _ = 0

unfoldable pub refusal_of : AuditResult → ℕ
refusal_of denied = 1
refusal_of _ = 0

unfoldable pub failure_of : AuditResult → ℕ
failure_of (failed _) = 1
failure_of _ = 0

-- The sum over the events of a log.
unfoldable pub tally : (AuditResult → ℕ) → List AuditEvent → ℕ
tally weight [] = 0
tally weight (event ∷ events) = weight event.result + tally weight events

tally-append :
    (weight : AuditResult → ℕ) (events : List AuditEvent) (event : AuditEvent)
    → tally weight (events ++ (event ∷ [])) ≡ tally weight events + weight event.result
unfolding tally
tally-append weight [] event = omega arith
tally-append weight (e ∷ events) event = omega (arith, tally-append weight events event)

-- The counters agree with the log, modulo the 64 bits that a counter has.
pub record IsCounted (m : AdminMetrics) (log : List AuditEvent) : Type 0 where
  pub events : m.audit_events_total ≡ length log % 2 ^ 64
  pub successful : m.audit_success_total ≡ tally success_of log % 2 ^ 64
  pub refused : m.audit_denied_total ≡ tally refusal_of log % 2 ^ 64
  pub unsuccessful : m.audit_failed_total ≡ tally failure_of log % 2 ^ 64

module _ (m : AdminMetrics) (n : ℕ) where
  count_result-success :
      (result : AuditResult)
      → m.audit_success_total ≡ n % 2 ^ 64
      → (count_result m (admin_action_result result)).audit_success_total
        ≡ (n + success_of result) % 2 ^ 64
  unfolding count_result admin_action_result success_of wrapping_add
  count_result-success success h = omega arith
  count_result-success denied h = omega arith
  count_result-success (failed _) h = omega arith

  count_result-refusal :
      (result : AuditResult)
      → m.audit_denied_total ≡ n % 2 ^ 64
      → (count_result m (admin_action_result result)).audit_denied_total
        ≡ (n + refusal_of result) % 2 ^ 64
  unfolding count_result admin_action_result refusal_of wrapping_add
  count_result-refusal success h = omega arith
  count_result-refusal denied h = omega arith
  count_result-refusal (failed _) h = omega arith

  count_result-failure :
      (result : AuditResult)
      → m.audit_failed_total ≡ n % 2 ^ 64
      → (count_result m (admin_action_result result)).audit_failed_total
        ≡ (n + failure_of result) % 2 ^ 64
  unfolding count_result admin_action_result failure_of wrapping_add
  count_result-failure success h = omega arith
  count_result-failure denied h = omega arith
  count_result-failure (failed _) h = omega arith

count_result-events :
    (m : AdminMetrics) (result : AuditResult)
    → (count_result m (admin_action_result result)).audit_events_total ≡ m.audit_events_total
unfolding count_result admin_action_result
count_result-events m success = refl
count_result-events m denied = refl
count_result-events m (failed _) = refl

record_action-IsCounted :
    (m : AdminMetrics) (label : Text) (log : List AuditEvent) (event : AuditEvent)
    → IsCounted m log
    → IsCounted (record_action m label (admin_action_result event.result)) (log ++ (event ∷ []))
unfolding record_action wrapping_add
record_action-IsCounted m label log event c =
    let m' : AdminMetrics = record m { audit_events_total = wrapping_add m.audit_events_total 1 } in
    record {
      events =
          omega
            (arith, c.events, count_result-events m' event.result, length-append log (event ∷ []));
      successful = omega (
        arith,
        count_result-success m' (tally success_of log) event.result c.successful,
        tally-append success_of log event,
      );
      refused = omega (
        arith,
        count_result-refusal m' (tally refusal_of log) event.result c.refused,
        tally-append refusal_of log event,
      );
      unsuccessful = omega (
        arith,
        count_result-failure m' (tally failure_of log) event.result c.unsuccessful,
        tally-append failure_of log event,
      );
    }

-- The counters of the service agree with its log.
abbrev pub IsTallied : AdminService → Type 0
IsTallied s = IsCounted s.metrics s.audit.events

Outcome-IsTallied :
    {A : Type 0} (s : AdminService) (context : AdminRequestContext) (now_ms : ℕ)
    (action : AdminAction) (r : AdminResult A × AdminService)
    → Outcome s context now_ms action r
    → IsTallied s
    → IsTallied r.1
Outcome-IsTallied s context now_ms action r (inl (_, h)) c =
    subst (λ (log : List AuditEvent). IsCounted r.1.metrics log) (sym h.logged)
      (subst
        (λ (m : AdminMetrics).
          IsCounted m (s.audit.events ++ (audit_event context now_ms h.entry ∷ [])))
        (sym h.counted)
        (record_action-IsCounted s.metrics (admin_action_label action) s.audit.events
          (audit_event context now_ms h.entry) c))
Outcome-IsTallied s context now_ms action r (inr (_, (_, audit, metrics))) c =
    subst (λ (log : List AuditEvent). IsCounted r.1.metrics log)
      (sym (ap (λ (a : InMemoryAuditSink). a.events) audit))
      (subst (λ (m : AdminMetrics). IsCounted m s.audit.events) (sym metrics) c)

module _ {Number : Type 0} (h : Hashing Number) where
  call-IsTallied :
      (s : AdminService) (master : MasterState) (context : AdminRequestContext) (now_ms : ℕ)
      (call : AdminCall Number)
      → IsTallied s
      → IsTallied
          (handle h (s, master) (record { context = context; now_ms = now_ms; call = call })).0
  unfolding handle
  call-IsTallied s master context now_ms asks_metrics c =
      Outcome-IsTallied s context now_ms Roles.read_metrics _
        (metrics_snapshot-Outcome s context now_ms) c
  call-IsTallied s master context now_ms reads_log c =
      Outcome-IsTallied s context now_ms Roles.read_audit_log _
        (audit_events-Outcome s context now_ms) c
  call-IsTallied s master context now_ms (drains node_id) c =
      elim (drain_node-Outcome s context now_ms node_id) [
        | inl outcome ↦ Outcome-IsTallied s context now_ms Roles.drain_node _ outcome c
        | inr (_, same) ↦
            subst (λ (r : AdminResult NodeView × AdminService). IsTallied r.1) (sym same) c
      ]
  call-IsTallied s master context now_ms (debugs body) c =
      Outcome-IsTallied s context now_ms Roles.debug_cache_fingerprint _
        (debug_cache_fingerprint-Outcome s context now_ms h body) c
  call-IsTallied s master context now_ms (deletes tenant key) c =
      Outcome-IsTallied s context now_ms Roles.remove_cache_object _
        (delete_cache_object-Outcome s context now_ms master tenant key) c

  handle_all-IsTallied :
      (s : AdminService) (master : MasterState) (requests : List (Request Number))
      → IsTallied s
      → IsTallied (handle_all h (s, master) requests).0
  unfolding handle_all
  handle_all-IsTallied s master [] c = c
  handle_all-IsTallied s master (request ∷ requests) c =
      handle_all-IsTallied (handle h (s, master) request).0 (handle h (s, master) request).1
        requests (call-IsTallied s master request.context request.now_ms request.call c)

new_service-IsTallied : (node_ids : List Text) → IsTallied (new_service node_ids)
unfolding new_service tally
new_service-IsTallied node_ids = record {
  events = omega arith;
  successful = omega arith;
  refused = omega arith;
  unsuccessful = omega arith;
}

-- After any sequence of calls of a new service its counters are the numbers of all events, of the
-- successes, of the refusals and of the failures in its audit log, modulo 64 bits.
pub handle_all-IsCounted :
    {Number : Type 0} (h : Hashing Number) (node_ids : List Text) (master : MasterState)
    (requests : List (Request Number))
    → IsCounted
        (handle_all h (new_service node_ids, master) requests).0.metrics
        (handle_all h (new_service node_ids, master) requests).0.audit.events
handle_all-IsCounted h node_ids master requests =
    handle_all-IsTallied h (new_service node_ids) master requests (new_service-IsTallied node_ids)
