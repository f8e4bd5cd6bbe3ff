-- ===== src/AdminApi/Recording.antt =====
-- What every operation of crates/admin-api/src/routes.rs leaves in the audit log.
use mooncache.Prelude.{
  ℕ, ◌≡◌, refl, ◌⊎◌, inl, inr, true, false, List, [], ◌∷◌, ◌++◌, Option, none, some, arith, Text,
  lookup, insert, text, Bool-cases, Option-cases, if_true, if_false, text_eq, subst, sym, ap, ◌∙◌,
}
use mooncache.Common.{CacheResult-cases, TenantId, CacheKey}
use mooncache.Common.Metrics.{record_action}
use mooncache.Fingerprint.{Hashing, compute_cache_key}
use mooncache.Master.State.{MasterState, remove_object}
use mooncache.AdminApi.Roles
use mooncache.AdminApi.Roles.{AdminAction, allows, admin_action_label}
use mooncache.AdminApi.Audit.{
  AuditResult, success, denied, failed, AuditEvent, InMemoryAuditSink, append, list_events,
}
use mooncache.AdminApi.{
  AdminRequestContext, AdminService, AdminResult, AdminError, NodeState, node_resource,
  draining_summary, NodeView, not_found, cache_failed, state_unavailable, ok, err, forbidden,
  audit_unavailable, AuditRecord, audit_event, admin_action_result, record_audit, refuse,
  with_metrics, metrics_snapshot, drain_node, debug_input, debug_cache_fingerprint,
  CacheFingerprintDebugRequest, delete_cache_object, audit_events,
}

-- The event tells of the answer: a success, a refusal by the role, or another failure.
abbrev pub Tells : {A : Type 0} → AdminAction → AuditResult → AdminResult A → Type 0
Tells {A} action success answer = (a : A) × (answer ≡ ok a)
Tells action denied answer = answer ≡ err (forbidden action)
Tells action (failed message) answer = (e : AdminError) × (answer ≡ err e)

-- One event more, by this actor, of this action, that tells of the answer; and the counters count it.
pub record IsAudited {A : Type 0} (s : AdminService) (context : AdminRequestContext) (now_ms : ℕ)
    (action : AdminAction) (r : AdminResult A × AdminService) : Type 0 where
  pub entry : AuditRecord
  pub same_action : entry.action ≡ action
  pub logged : r.1.audit.events ≡ s.audit.events ++ (audit_event context now_ms entry ∷ [])
  pub counted :
      r.1.metrics
      ≡ record_action s.metrics (admin_action_label action) (admin_action_result entry.result)
  pub tells : Tells action entry.result r.0

-- Where the sink takes no events, an operation fails with this error and nothing is logged.
abbrev pub Unlogged : {A : Type 0} → AdminService → AdminResult A × AdminService → Type 0
Unlogged s r = (r.0 ≡ err audit_unavailable) × (r.1.audit ≡ s.audit) × (r.1.metrics ≡ s.metrics)

abbrev pub Outcome :
    {A : Type 0}
    → AdminService
    → AdminRequestContext
    → ℕ
    → AdminAction
    → AdminResult A × AdminService
    → Type 0
Outcome s context now_ms action r =
    ((s.audit.poisoned ≡ false) × IsAudited s context now_ms action r)
    ⊎ ((s.audit.poisoned ≡ true) × Unlogged s r)

-- A sink takes an event unless its lock is poisoned.
append-none :
    (sink : InMemoryAuditSink) (event : AuditEvent)
    → sink.poisoned ≡ true
    → append sink event ≡ none
unfolding append
append-none sink event = if_true sink.poisoned _ _

append-some :
    (sink : InMemoryAuditSink) (event : AuditEvent)
    → sink.poisoned ≡ false
    → append sink event ≡ some (record sink { events = sink.events ++ (event ∷ []) })
unfolding append
append-some sink event = if_false sink.poisoned _ _

list_events-none : (sink : InMemoryAuditSink) → sink.poisoned ≡ true → list_events sink ≡ none
unfolding list_events
list_events-none sink = if_true sink.poisoned _ _

list_events-some :
    (sink : InMemoryAuditSink) → sink.poisoned ≡ false → list_events sink ≡ some sink.events
unfolding list_events
list_events-some sink = if_false sink.poisoned _ _

module _ (s : AdminService) (context : AdminRequestContext) (now_ms : ℕ) where
  -- The record may come after a change of the nodes.
  record_audit-Outcome :
      {A : Type 0} (nodes : List (Text × NodeState)) (entry : AuditRecord) (answer : AdminResult A)
      → Tells entry.action entry.result answer
      → Outcome s context now_ms entry.action
          (record_audit (record s { nodes = nodes }) context now_ms entry answer)
  unfolding record_audit
  record_audit-Outcome {A} nodes entry answer tells =
      let s' : AdminService = record s { nodes = nodes } in
      elim (Bool-cases s.audit.poisoned) [
        | inl poisoned ↦
            let e : record_audit s' context now_ms entry answer ≡ (err audit_unavailable, s') =
              rw (append-none s.audit (audit_event context now_ms entry) poisoned, record_audit) in
            inr (
              poisoned,
              (
                ap (λ (r : AdminResult A × AdminService). r.0) e,
                ap (λ (r : AdminResult A × AdminService). r.1.audit) e,
                ap (λ (r : AdminResult A × AdminService). r.1.metrics) e,
              ),
            )
        | inr sound ↦
            let e : record_audit s' context now_ms entry answer ≡ (
              answer,
              record s' {
                audit = record s.audit {
                  events = s.audit.events ++ (audit_event context now_ms entry ∷ []);
                };
                metrics =
                    record_action s.metrics (admin_action_label entry.action)
                      (admin_action_result entry.result);
              },
            ) =
              rw (append-some s.audit (audit_event context now_ms entry) sound, record_audit) in
            inl (
              sound,
              record {
                entry = entry;
                same_action = refl;
                logged = ap (λ (r : AdminResult A × AdminService). r.1.audit.events) e;
                counted = ap (λ (r : AdminResult A × AdminService). r.1.metrics) e;
                tells =
                    subst
                      (λ (r : AdminResult A × AdminService). Tells entry.action entry.result r.0)
                      (sym e) tells;
              },
            )
      ]

  refuse-Outcome :
      {A : Type 0} (action : AdminAction) (resource : Text)
      (tenant_scope before_summary : Option Text)
      → Outcome s context now_ms action
          (refuse {A = A} s context now_ms action resource tenant_scope before_summary)
  unfolding refuse
  refuse-Outcome action resource tenant_scope before_summary =
      record_audit-Outcome s.nodes _ (err (forbidden action)) refl

  with_metrics-Tells :
      (action : AdminAction) (result : AuditResult) (r : AdminResult (Unit {0}) × AdminService)
      → Tells action result r.0
      → Tells action result (with_metrics r).0
  unfolding with_metrics
  with_metrics-Tells action success (ok a, s') tells = (s'.metrics, refl)
  with_metrics-Tells action success (err e, s') (a, same) = ground arith
  with_metrics-Tells action denied (ok a, s') tells = ground arith
  with_metrics-Tells action denied (err e, s') tells = ground arith
  with_metrics-Tells action (failed message) (ok a, s') (e, same) = ground arith
  with_metrics-Tells action (failed message) (err e, s') tells = (e, refl)

  pub with_metrics-service : (r : AdminResult (Unit {0}) × AdminService) → (with_metrics r).1 ≡ r.1
  unfolding with_metrics
  with_metrics-service (ok a, s') = refl
  with_metrics-service (err e, s') = refl

  with_metrics-unavailable :
      (r : AdminResult (Unit {0}) × AdminService)
      → r.0 ≡ err audit_unavailable
      → (with_metrics r).0 ≡ err audit_unavailable
  unfolding with_metrics
  with_metrics-unavailable (ok a, s') h = ground arith
  with_metrics-unavailable (err e, s') h = ground arith

  with_metrics-Outcome :
      (action : AdminAction) (r : AdminResult (Unit {0}) × AdminService)
      → Outcome s context now_ms action r
      → Outcome s context now_ms action (with_metrics r)
  with_metrics-Outcome action r (inl (sound, h)) = inl (
    sound,
    record {
      entry = h.entry;
      same_action = h.same_action;
      logged = ap (λ (x : AdminService). x.audit.events) (with_metrics-service r) ∙ h.logged;
      counted = ap (λ (x : AdminService). x.metrics) (with_metrics-service r) ∙ h.counted;
      tells = with_metrics-Tells action h.entry.result r h.tells;
    },
  )
  with_metrics-Outcome action r (inr (poisoned, (unavailable, audit, metrics))) = inr (
    poisoned,
    (
      with_metrics-unavailable r unavailable,
      ap (λ (x : AdminService). x.audit) (with_metrics-service r) ∙ audit,
      ap (λ (x : AdminService). x.metrics) (with_metrics-service r) ∙ metrics,
    ),
  )

  pub metrics_snapshot-Outcome :
      Outcome s context now_ms Roles.read_metrics (metrics_snapshot s context now_ms)
  unfolding metrics_snapshot
  metrics_snapshot-Outcome = elim (Bool-cases (allows context.role Roles.read_metrics)) [
    | inr forbids ↦
        rw (forbids, metrics_snapshot)
          (refuse-Outcome Roles.read_metrics (text "metrics") none none)
    | inl allowed ↦
        rw (allowed, metrics_snapshot)
          (with_metrics-Outcome Roles.read_metrics _
            (record_audit-Outcome s.nodes _ (ok tt) (tt, refl)))
  ]

  -- The drain of a node, once the role and the lock are checked.
  abbrev pub drained : Text → AdminResult NodeView × AdminService
  drained node_id = elim (lookup node_id s.nodes) [
    | none ↦
        record_audit s context now_ms
          (record {
            action = Roles.drain_node;
            resource = node_resource node_id;
            tenant_scope = none;
            before_summary = none;
            after_summary = none;
            result = failed (text "not found: " ++ node_resource node_id);
          })
          (err (not_found (node_resource node_id)))
    | some node ↦
        record_audit (record s { nodes = insert node_id (record { draining = true }) s.nodes })
          context now_ms
          (record {
            action = Roles.drain_node;
            resource = node_resource node_id;
            tenant_scope = none;
            before_summary = some (draining_summary node.draining);
            after_summary = some (draining_summary true);
            result = success;
          })
          (ok (record { node_id = node_id; draining = true }))
  ]

  known_node-Outcome :
      (node_id : Text) → Outcome s context now_ms Roles.drain_node (drained node_id)
  known_node-Outcome node_id = elim (Option-cases (lookup node_id s.nodes)) [
    | inl missing ↦
        rw (missing, drained)
          (record_audit-Outcome s.nodes _ (err (not_found (node_resource node_id)))
            (not_found (node_resource node_id), refl))
    | inr (node, found) ↦
        rw (found, drained)
          (record_audit-Outcome (insert node_id (record { draining = true }) s.nodes) _
            (ok (record { node_id = node_id; draining = true }))
            (record { node_id = node_id; draining = true }, refl))
  ]

  -- A drain may fail on a poisoned lock of the nodes, and then changes nothing. Otherwise, if the
  -- audit sink takes events, one event of a drain by the caller is appended, which tells of the answer
  -- (a success, a refusal by the role or another failure), and the counters record it; if the sink
  -- takes none, the drain fails for that and neither the log nor the counters change.
  pub drain_node-Outcome :
      (node_id : Text)
      → Outcome s context now_ms Roles.drain_node (drain_node s context now_ms node_id)
        ⊎ ((s.nodes_poisoned ≡ true)
            × (drain_node s context now_ms node_id ≡ (err state_unavailable, s)))
  unfolding drain_node
  drain_node-Outcome node_id = elim (Bool-cases (allows context.role Roles.drain_node)) [
    | inr forbids ↦ inl (
        rw (forbids, drain_node)
          (refuse-Outcome Roles.drain_node (node_resource node_id) none none))
    | inl allowed ↦
        rw (allowed, drain_node)
          (elim (Bool-cases s.nodes_poisoned) [
            | inl poisoned ↦ inr (poisoned, if_true s.nodes_poisoned _ _ poisoned)
            | inr sound ↦ inl (
                subst (Outcome s context now_ms Roles.drain_node)
                  (sym (if_false s.nodes_poisoned _ _ sound)) (known_node-Outcome node_id))
          ])
  ]

  -- If the audit sink takes events, a deletion of a cache object appends one event of it by the
  -- caller, which tells of the answer (a success, a refusal by the role or another failure), and the
  -- counters record it; if the sink takes none, the deletion fails for that and neither the log nor
  -- the counters change.
  pub delete_cache_object-Outcome :
      (master : MasterState) (tenant : TenantId) (key : CacheKey)
      → Outcome s context now_ms Roles.remove_cache_object
          (delete_cache_object s context now_ms master tenant key).0
  unfolding delete_cache_object
  delete_cache_object-Outcome master tenant key =
      elim (Bool-cases (allows context.role Roles.remove_cache_object)) [
        | inr forbids ↦
            rw (forbids, delete_cache_object) (refuse-Outcome Roles.remove_cache_object _ _ none)
        | inl allowed ↦ elim (CacheResult-cases (remove_object master tenant key).0) [
          | inl (_, done) ↦
              rw (allowed, delete_cache_object, done)
                (record_audit-Outcome s.nodes _ (ok tt) (tt, refl))
          | inr (e, failed_so) ↦
              rw (allowed, delete_cache_object, failed_so)
                (record_audit-Outcome s.nodes _ (err (cache_failed e)) (cache_failed e, refl))
        ]
      ]

  -- Every debugging of a fingerprint is logged with what came of it.
  pub debug_cache_fingerprint-Outcome :
      {Number : Type 0} (h : Hashing Number) (request : CacheFingerprintDebugRequest Number)
      → Outcome s context now_ms Roles.debug_cache_fingerprint
          (debug_cache_fingerprint h s context now_ms request)
  unfolding debug_cache_fingerprint
  debug_cache_fingerprint-Outcome h request =
      elim (Bool-cases (allows context.role Roles.debug_cache_fingerprint)) [
        | inr forbids ↦
            rw (forbids, debug_cache_fingerprint)
              (refuse-Outcome Roles.debug_cache_fingerprint _ _ _)
        | inl allowed ↦ elim (CacheResult-cases (compute_cache_key h (debug_input request))) [
          | inl (key, done) ↦
              rw (allowed, debug_cache_fingerprint, done)
                (record_audit-Outcome s.nodes _ (ok key) (key, refl))
          | inr (e, failed_so) ↦
              rw (allowed, debug_cache_fingerprint, failed_so)
                (record_audit-Outcome s.nodes _ (err (cache_failed e)) (cache_failed e, refl))
        ]
      ]

  -- If the audit sink takes events, a reading of the audit log appends one event of it by the caller,
  -- which tells of the answer (a success or a refusal by the role), and the counters record it; if the
  -- sink takes none, the reading fails for that and neither the log nor the counters change.
  pub audit_events-Outcome :
      Outcome s context now_ms Roles.read_audit_log (audit_events s context now_ms)
  unfolding audit_events
  audit_events-Outcome = elim (Bool-cases (allows context.role Roles.read_audit_log)) [
    | inr forbids ↦
        rw (forbids, audit_events)
          (refuse-Outcome Roles.read_audit_log (text "audit_log") none none)
    | inl allowed ↦ elim (Bool-cases s.audit.poisoned) [
      | inl poisoned ↦
          let e : audit_events s context now_ms ≡ (err audit_unavailable, s) =
            rw (allowed, audit_events, list_events-none s.audit poisoned) in
          inr (
            poisoned,
            (
              ap (λ (r : AdminResult (List AuditEvent) × AdminService). r.0) e,
              ap (λ (r : AdminResult (List AuditEvent) × AdminService). r.1.audit) e,
              ap (λ (r : AdminResult (List AuditEvent) × AdminService). r.1.metrics) e,
            ),
          )
      | inr sound ↦
          rw (allowed, audit_events, list_events-some s.audit sound)
            (record_audit-Outcome s.nodes _ (ok s.audit.events) (s.audit.events, refl))
    ]
  ]
