-- ===== src/AdminApi.antt =====
-- crates/admin-api/src/routes.rs: the service. An operation returns its result and the new service,
-- also where it fails. The clock is an argument of the operations that read it. A request id is the
-- text of its UUID. The events and counters of `record_audit` change together.
pub mod Roles
pub mod Audit
pub mod Recording
pub mod Calls
pub mod Effects
mod Examples
use mooncache.Prelude.{
  btree_collect, ℕ, Bool, true, false, List, [], ◌∷◌, ◌++◌, map, Option, none, some, if◌then◌else◌,
  length, decimal, Text, text, text_eq, lookup, insert, not,
}
use mooncache.Common.{CacheError, cache_error_text, CacheResult, TenantId, CacheKey, redacted}
use mooncache.Common.Metrics.{
  AdminMetrics, no_admin_metrics, AdminActionResult, action_success, action_denied, action_failed,
  record_action,
}
use mooncache.Json.{Json}
use mooncache.Fingerprint.{FingerprintInput, Hashing, compute_cache_key}
use mooncache.Master.State.{MasterState, remove_object}
use mooncache.AdminApi.Roles
use mooncache.AdminApi.Roles.{Role, AdminAction, allows, admin_action_label}
use mooncache.AdminApi.Audit.{
  AuditResult, success, denied, failed, AuditEvent, InMemoryAuditSink, no_events, append,
  list_events,
}

pub record AdminRequestContext : Type 0 where
  pub actor : Text
  pub role : Role
  pub request_id : Text

pub record NodeView : Type 0 where
  pub node_id : Text
  pub draining : Bool

pub record CacheFingerprintDebugRequest (Number : Type 0) : Type 0 where
  pub tenant_id : TenantId
  pub endpoint_version : Text
  pub vendor_id : Text
  pub resolved_model_version : Text
  pub adapter_version : Text
  pub cache_policy : Text
  pub body : Json Number

pub data AdminError : Type 0 where
  forbidden : AdminAction → AdminError
  not_found : (resource : Text) → AdminError
  cache_failed : CacheError → AdminError
  audit_unavailable state_unavailable : AdminError

pub data AdminResult {ℓ} (A : Type ℓ) : Type ℓ where
  ok : A → AdminResult A
  err : AdminError → AdminResult A

pub record NodeState : Type 0 where
  pub draining : Bool

-- `nodes_poisoned` tells whether the lock of the nodes is poisoned.
pub record AdminService : Type 0 where
  pub nodes : List (Text × NodeState)
  pub nodes_poisoned : Bool
  pub audit : InMemoryAuditSink
  pub metrics : AdminMetrics

pub record AuditRecord : Type 0 where
  pub action : AdminAction
  pub resource : Text
  pub tenant_scope : Option Text
  pub before_summary : Option Text
  pub after_summary : Option Text
  pub result : AuditResult

unfoldable pub new_service : List Text → AdminService
new_service node_ids = record {
  nodes = btree_collect [] (map (λ node_id. (node_id, record { draining = false })) node_ids);
  nodes_poisoned = false;
  audit = no_events;
  metrics = no_admin_metrics;
}

unfoldable pub admin_action_result : AuditResult → AdminActionResult
admin_action_result success = action_success
admin_action_result denied = action_denied
admin_action_result (failed _) = action_failed

abbrev pub audit_event : AdminRequestContext → ℕ → AuditRecord → AuditEvent
audit_event context now_ms entry = record {
  actor = context.actor;
  role = context.role;
  action = entry.action;
  resource = entry.resource;
  tenant_scope = entry.tenant_scope;
  before_summary = entry.before_summary;
  after_summary = entry.after_summary;
  request_id = context.request_id;
  timestamp_ms = now_ms;
  result = entry.result;
}

-- Records an event, then answers `answer`: the error of the sink goes first (`record_audit(..)?`).
unfoldable pub record_audit :
    {A : Type 0}
    → AdminService
    → AdminRequestContext
    → ℕ
    → AuditRecord
    → AdminResult A
    → AdminResult A × AdminService
unfolding admin_action_result
record_audit s context now_ms entry answer =
    elim (append s.audit (audit_event context now_ms entry)) [
      | none ↦ (err audit_unavailable, s)
      | some audit ↦ (
        answer,
        record s {
          audit = audit;
          metrics =
              record_action s.metrics (admin_action_label entry.action)
                (admin_action_result entry.result);
        },
      )
    ]

-- The branch of an operation whose role does not allow it.
unfoldable pub refuse :
    {A : Type 0}
    → AdminService
    → AdminRequestContext
    → ℕ
    → AdminAction
    → Text
    → Option Text
    → Option Text
    → AdminResult A × AdminService
unfolding record_audit
refuse s context now_ms action resource tenant_scope before_summary =
    record_audit s context now_ms
      (record {
        action = action;
        resource = resource;
        tenant_scope = tenant_scope;
        before_summary = before_summary;
        after_summary = none;
        result = denied;
      })
      (err (forbidden action))

-- The end of `metrics_snapshot`: the counters after the event was recorded.
unfoldable pub with_metrics :
    AdminResult (Unit {0}) × AdminService → AdminResult AdminMetrics × AdminService
with_metrics (ok _, s) = (ok s.metrics, s)
with_metrics (err e, s) = (err e, s)

unfoldable pub metrics_snapshot :
    AdminService → AdminRequestContext → ℕ → AdminResult AdminMetrics × AdminService
unfolding refuse record_audit with_metrics
metrics_snapshot s context now_ms =
    if not (allows context.role Roles.read_metrics)
    then refuse s context now_ms Roles.read_metrics (text "metrics") none none
    else with_metrics (
        record_audit s context now_ms
          (record {
            action = Roles.read_metrics;
            resource = text "metrics";
            tenant_scope = none;
            before_summary = none;
            after_summary = some (text "snapshot_returned");
            result = success;
          })
          (ok tt))

unfoldable pub authorize : AdminRequestContext → AdminAction → AdminResult (Unit {0})
authorize context action = if allows context.role action then ok tt else err (forbidden action)

unfoldable pub list_nodes : AdminService → AdminRequestContext → AdminResult (List NodeView)
unfolding authorize
list_nodes s context = elim (authorize context Roles.read_nodes) [
  | err e ↦ err e
  | ok _ ↦
      if s.nodes_poisoned
      then err state_unavailable
      else ok (
          map (λ e. let view : NodeView = record { node_id = e.0; draining = e.1.draining } in view)
            s.nodes)
]

abbrev pub node_resource : Text → Text
node_resource node_id = text "node:" ++ node_id

-- `format!("draining={}", ..)`
abbrev pub draining_summary : Bool → Text
draining_summary true = text "draining=true"
draining_summary false = text "draining=false"

unfoldable pub drain_node :
    AdminService → AdminRequestContext → ℕ → Text → AdminResult NodeView × AdminService
unfolding refuse record_audit
drain_node s context now_ms node_id =
    if not (allows context.role Roles.drain_node)
    then refuse s context now_ms Roles.drain_node (node_resource node_id) none none
    else if s.nodes_poisoned
    then (err state_unavailable, s)
    else elim (lookup node_id s.nodes) [
      | none ↦
          record_audit s context now_ms
            (record {
              action = Roles.drain_node;
              resource = node_resource node_id;
              tenant_scope = none;
              before_summary = none;
              after_summary = none;
              result = failed (text "not found: " ++ node_resource node_id);
            })
            (err (not_found (node_resource node_id)))
      | some node ↦
          record_audit (record s { nodes = insert node_id (record { draining = true }) s.nodes })
            context now_ms
            (record {
              action = Roles.drain_node;
              resource = node_resource node_id;
              tenant_scope = none;
              before_summary = some (draining_summary node.draining);
              after_summary = some (draining_summary true);
              result = success;
            })
            (ok (record { node_id = node_id; draining = true }))
    ]

unfoldable pub fingerprint_debug_summary :
    {Number : Type 0} → CacheFingerprintDebugRequest Number → Text
fingerprint_debug_summary request =
    text "endpoint_version="
    ++ (request.endpoint_version
        ++ (text " vendor_id="
            ++ (request.vendor_id
                ++ (text " resolved_model_version="
                    ++ (request.resolved_model_version
                        ++ (text " adapter_version="
                            ++ (request.adapter_version
                                ++ (text " cache_policy="
                                    ++ (request.cache_policy ++ text " body=redacted")))))))))

abbrev pub debug_input :
    {Number : Type 0} → CacheFingerprintDebugRequest Number → FingerprintInput Number
debug_input request = record {
  tenant_id = request.tenant_id;
  endpoint_version = request.endpoint_version;
  vendor_id = request.vendor_id;
  resolved_model_version = request.resolved_model_version;
  adapter_version = request.adapter_version;
  cache_policy = request.cache_policy;
  body = request.body;
}

unfoldable pub debug_cache_fingerprint :
    {Number : Type 0}
    → Hashing Number
    → AdminService
    → AdminRequestContext
    → ℕ
    → CacheFingerprintDebugRequest Number
    → AdminResult CacheKey × AdminService
unfolding refuse record_audit fingerprint_debug_summary
debug_cache_fingerprint h s context now_ms request =
    let tenant_scope = some request.tenant_id.value in
    let base_resource = text "cache_fingerprint:" ++ request.tenant_id.value in
    let request_summary = some (fingerprint_debug_summary request) in
    if not (allows context.role Roles.debug_cache_fingerprint)
    then refuse s context now_ms Roles.debug_cache_fingerprint base_resource tenant_scope
        request_summary
    else elim (compute_cache_key h (debug_input request)) [
      | CacheResult.err e ↦
          record_audit s context now_ms
            (record {
              action = Roles.debug_cache_fingerprint;
              resource = base_resource;
              tenant_scope = tenant_scope;
              before_summary = request_summary;
              after_summary = none;
              result = failed (cache_error_text e);
            })
            (err (cache_failed e))
      | CacheResult.ok cache_key ↦
          record_audit s context now_ms
            (record {
              action = Roles.debug_cache_fingerprint;
              resource = base_resource ++ (b'/' ∷ redacted cache_key);
              tenant_scope = tenant_scope;
              before_summary = request_summary;
              after_summary = some (text "cache_key=" ++ redacted cache_key);
              result = success;
            })
            (ok cache_key)
    ]

unfoldable pub delete_cache_object :
    AdminService
    → AdminRequestContext
    → ℕ
    → MasterState
    → TenantId
    → CacheKey
    → (AdminResult (Unit {0}) × AdminService) × MasterState
unfolding refuse record_audit
delete_cache_object s context now_ms master tenant_id cache_key =
    let tenant_scope = some tenant_id.value in
    let resource = text "cache_object:" ++ (tenant_id.value ++ (b'/' ∷ redacted cache_key)) in
    if not (allows context.role Roles.remove_cache_object)
    then (refuse s context now_ms Roles.remove_cache_object resource tenant_scope none, master)
    else (let (removal, master') = remove_object master tenant_id cache_key in
        elim removal [
          | CacheResult.ok _ ↦ (
            record_audit s context now_ms
                (record {
                  action = Roles.remove_cache_object;
                  resource = resource;
                  tenant_scope = tenant_scope;
                  before_summary = some (text "delete requested");
                  after_summary = some (text "deleted");
                  result = success;
                })
                (ok tt),
            master',
          )
          | CacheResult.err e ↦ (
            record_audit s context now_ms
                (record {
                  action = Roles.remove_cache_object;
                  resource = resource;
                  tenant_scope = tenant_scope;
                  before_summary = some (text "delete requested");
                  after_summary = none;
                  result = failed (cache_error_text e);
                })
                (err (cache_failed e)),
            master',
          )
        ])

unfoldable pub audit_events :
    AdminService → AdminRequestContext → ℕ → AdminResult (List AuditEvent) × AdminService
unfolding refuse record_audit
audit_events s context now_ms =
    if not (allows context.role Roles.read_audit_log)
    then refuse s context now_ms Roles.read_audit_log (text "audit_log") none none
    else elim (list_events s.audit) [
      | none ↦ (err audit_unavailable, s)
      | some events ↦
          record_audit s context now_ms
            (record {
              action = Roles.read_audit_log;
              resource = text "audit_log";
              tenant_scope = none;
              before_summary = none;
              after_summary = some (text "listed_events=" ++ decimal (length events));
              result = success;
            })
            (ok events)
    ]
