-- ===== src/AdminApi/Effects.antt =====
-- What the operations of crates/admin-api/src/routes.rs change, and for whom.
use mooncache.Prelude.{
  ℕ, ◌≡◌, ◌≢◌, refl, sym, ap, subst, ◌∙◌, inl, inr, true, false, List, Option, none, some, arith,
  Text, text_eq, lookup, insert, Unique, lookup-insert_self, lookup-insert_ne, ==_iff, ◌==◌,
  Bool-cases, Option-cases, if_true, if_false,
}
use mooncache.Common.{
  CacheError, CacheResult, CacheResult-cases, TenantId, CacheKey, ObjectKey, object_key_eq,
}
use mooncache.Common
use mooncache.Fingerprint.{Hashing}
use mooncache.Master.State.{MasterState, remove_object, get_replica_list}
use mooncache.Master.State.Writes.{get_replica_list-missing, remove_object-gone}
use mooncache.AdminApi.Roles
use mooncache.AdminApi.Roles.{AdminAction, allows}
use mooncache.AdminApi.Audit.{append}
use mooncache.AdminApi.{
  AdminRequestContext, audit_event, AdminService, AdminResult, ok, err, NodeState, NodeView,
  forbidden, cache_failed, not_found, node_resource, state_unavailable, AuditRecord, record_audit,
  refuse, metrics_snapshot, drain_node, debug_cache_fingerprint, delete_cache_object, audit_events,
}
use mooncache.AdminApi.Recording.{drained}
use mooncache.AdminApi.Calls.{AdminCall, asks_metrics, reads_log, drains, debugs, deletes, handle}

-- The action that a call asks for.
abbrev pub action_of : {Number : Type 0} → AdminCall Number → AdminAction
action_of asks_metrics = Roles.read_metrics
action_of reads_log = Roles.read_audit_log
action_of (drains _) = Roles.drain_node
action_of (debugs _) = Roles.debug_cache_fingerprint
action_of (deletes _ _) = Roles.remove_cache_object

failed_ok : (e : CacheError) → ¬ (◌≡◌ {A = AdminResult (Unit {0})} (err (cache_failed e)) (ok tt))
failed_ok e h = ground arith

missing_ok :
    (resource : Text) (view : NodeView)
    → ¬ (◌≡◌ {A = AdminResult NodeView} (err (not_found resource)) (ok view))
missing_ok resource view h = ground arith

unavailable_ok :
    (view : NodeView) → ¬ (◌≡◌ {A = AdminResult NodeView} (err state_unavailable) (ok view))
unavailable_ok view h = ground arith

view_injective : (v w : NodeView) → ◌≡◌ {A = AdminResult NodeView} (ok v) (ok w) → v ≡ w
view_injective v w h = cc

module _ {A : Type 0} (s : AdminService) (context : AdminRequestContext) (now_ms : ℕ) where
  -- A record changes nothing but the log and the counters.
  record_audit-nodes :
      (entry : AuditRecord) (answer : AdminResult A)
      → (record_audit s context now_ms entry answer).1.nodes ≡ s.nodes
  unfolding record_audit
  record_audit-nodes entry answer =
      elim (Option-cases (append s.audit (audit_event context now_ms entry))) [
        | inl refused ↦ rw (refused, record_audit)
        | inr (audit, taken) ↦ rw (taken, record_audit)
      ]

  record_audit-ok :
      (entry : AuditRecord) (answer : AdminResult A) (a : A)
      → (record_audit s context now_ms entry answer).0 ≡ ok a
      → answer ≡ ok a
  unfolding record_audit
  record_audit-ok entry answer a done =
      elim (Option-cases (append s.audit (audit_event context now_ms entry))) [
        | inl refused ↦ ground (arith, refused)
        | inr (audit, taken) ↦ ground (arith, taken)
      ]

module _ (s : AdminService) (context : AdminRequestContext) (now_ms : ℕ) where
  refused-nodes :
      (A : Type 0) (action : AdminAction) (resource : Text)
      (tenant_scope before_summary : Option Text)
      → (refuse {A = A} s context now_ms action resource tenant_scope before_summary).1.nodes
        ≡ s.nodes
  unfolding refuse
  refused-nodes A action resource tenant_scope before_summary =
      record_audit-nodes s context now_ms _ (err (forbidden action))

  refused-ok :
      (A : Type 0) (action : AdminAction) (resource : Text)
      (tenant_scope before_summary : Option Text) (a : A)
      → ¬ ((refuse {A = A} s context now_ms action resource tenant_scope before_summary).0 ≡ ok a)
  unfolding refuse
  refused-ok A action resource tenant_scope before_summary a done =
      let answered = record_audit-ok s context now_ms _ (err (forbidden action)) a done in
      ground arith

-- A role that does not allow the action of a call changes neither the nodes nor the master with it.
pub handle-unauthorized :
    {Number : Type 0} (h : Hashing Number) (s : AdminService) (master : MasterState)
    (context : AdminRequestContext) (now_ms : ℕ) (call : AdminCall Number)
    → allows context.role (action_of call) ≡ false
    → ((handle h (s, master) (record { context = context; now_ms = now_ms; call = call })).0.nodes
        ≡ s.nodes)
      × ((handle h (s, master) (record { context = context; now_ms = now_ms; call = call })).1
          ≡ master)
unfolding handle metrics_snapshot audit_events drain_node debug_cache_fingerprint
    delete_cache_object
handle-unauthorized h s master context now_ms asks_metrics forbids = (
  rw (forbids, handle, metrics_snapshot)
      (refused-nodes s context now_ms _ Roles.read_metrics _ none none),
  refl,
)
handle-unauthorized h s master context now_ms reads_log forbids = (
  rw (forbids, handle, audit_events)
      (refused-nodes s context now_ms _ Roles.read_audit_log _ none none),
  refl,
)
handle-unauthorized h s master context now_ms (drains node_id) forbids = (
  rw (forbids, handle, drain_node) (refused-nodes s context now_ms _ Roles.drain_node _ none none),
  refl,
)
handle-unauthorized h s master context now_ms (debugs body) forbids = (
  rw (forbids, handle, debug_cache_fingerprint)
      (refused-nodes s context now_ms _ Roles.debug_cache_fingerprint _ _ _),
  refl,
)
handle-unauthorized h s master context now_ms (deletes tenant key) forbids = (
  rw (forbids, handle, delete_cache_object)
      (refused-nodes s context now_ms _ Roles.remove_cache_object _ _ none),
  rw (forbids, handle, delete_cache_object),
)

module _ (s : AdminService) (context : AdminRequestContext) (now_ms : ℕ) (node_id : Text) where
  abbrev draining_nodes : List (Text × NodeState)
  draining_nodes = insert node_id (record { draining = true }) s.nodes

  -- If this is the answer, then the node is drained.
  abbrev IsDrain : NodeView → AdminResult NodeView × AdminService → Type 0
  IsDrain view r =
      r.0 ≡ ok view
      → (view ≡ record { node_id = node_id; draining = true }) × (r.1.nodes ≡ draining_nodes)

  known_node-IsDrain : (view : NodeView) → IsDrain view (drained s context now_ms node_id)
  known_node-IsDrain view = elim (Option-cases (lookup node_id s.nodes)) [
    | inl missing ↦
        rw (missing, drained)
          (λ done. absurd (
            missing_ok (node_resource node_id) view (
              record_audit-ok s context now_ms _ (err (not_found (node_resource node_id))) view
                done)))
    | inr (node, found) ↦
        rw (found, drained)
          (λ done.
            let answered =
              record_audit-ok (record s { nodes = draining_nodes }) context now_ms _
                (ok (record { node_id = node_id; draining = true })) view done in
            (
              sym (view_injective (record { node_id = node_id; draining = true }) view answered),
              record_audit-nodes (record s { nodes = draining_nodes }) context now_ms _
                  (ok (record { node_id = node_id; draining = true })),
            ))
  ]

  allowed-IsDrain :
      (view : NodeView)
      → allows context.role Roles.drain_node ≡ true
      → IsDrain view (drain_node s context now_ms node_id)
  unfolding drain_node
  allowed-IsDrain view allowed =
      rw (allowed, drain_node)
        (elim (Bool-cases s.nodes_poisoned) [
          | inl poisoned ↦
              subst (IsDrain view) (sym (if_true s.nodes_poisoned _ _ poisoned))
                (λ done. absurd (unavailable_ok view done))
          | inr sound ↦
              subst (IsDrain view) (sym (if_false s.nodes_poisoned _ _ sound))
                (known_node-IsDrain view)
        ])

  drain_node-allowed :
      (view : NodeView)
      → (drain_node s context now_ms node_id).0 ≡ ok view
      → allows context.role Roles.drain_node ≡ true
  unfolding drain_node
  drain_node-allowed view = elim (Bool-cases (allows context.role Roles.drain_node)) [
    | inr forbids ↦
        rw (forbids, drain_node)
          (λ done. absurd (refused-ok s context now_ms _ Roles.drain_node _ none none view done))
    | inl allowed ↦ λ done. allowed
  ]

-- A drain that succeeds shows the node as draining, and leaves every other node as it was; the role
-- of the caller allows it.
pub drain_node-ok :
    (s : AdminService) (context : AdminRequestContext) (now_ms : ℕ) (node_id other : Text)
    (view : NodeView)
    → other ≢ node_id
    → (drain_node s context now_ms node_id).0 ≡ ok view
    → (allows context.role Roles.drain_node ≡ true)
      × (view ≡ record { node_id = node_id; draining = true })
      × (lookup node_id (drain_node s context now_ms node_id).1.nodes
          ≡ some (record { draining = true }))
      × (lookup other (drain_node s context now_ms node_id).1.nodes ≡ lookup other s.nodes)
drain_node-ok s context now_ms node_id other view differ done =
    let allowed = drain_node-allowed s context now_ms node_id view done in
    let (same_view, same_nodes) = allowed-IsDrain s context now_ms node_id view allowed done in
    let miss : (node_id == other) ≡ false = ground (arith, differ, ==_iff node_id other) in
    (
      allowed,
      same_view,
      ap (lookup node_id) same_nodes
          ∙ lookup-insert_self node_id (record { draining = true }) s.nodes,
      ap (lookup other) same_nodes
          ∙ lookup-insert_ne node_id other (record { draining = true }) s.nodes miss,
    )

-- A deletion that succeeds was allowed, and the object is gone: it cannot be read any more.
pub delete_cache_object-ok :
    (s : AdminService) (context : AdminRequestContext) (now_ms read_ms : ℕ) (master : MasterState)
    (tenant : TenantId) (key : CacheKey)
    → Unique master.objects
    → (delete_cache_object s context now_ms master tenant key).0.0 ≡ ok tt
    → (allows context.role Roles.remove_cache_object ≡ true)
      × (lookup (tenant, key) (delete_cache_object s context now_ms master tenant key).1.objects
          ≡ none)
      × (get_replica_list
            (delete_cache_object s context now_ms master tenant key).1
            tenant
            key
            read_ms
          ≡ (
            Common.err Common.not_found,
            (delete_cache_object s context now_ms master tenant key).1,
          ))
unfolding delete_cache_object
delete_cache_object-ok s context now_ms read_ms master tenant key u =
    elim (Bool-cases (allows context.role Roles.remove_cache_object)) [
      | inr forbids ↦
          rw (forbids, delete_cache_object)
            (λ done.
              absurd (refused-ok s context now_ms _ Roles.remove_cache_object _ _ none tt done))
      | inl allowed ↦ elim (CacheResult-cases (remove_object master tenant key).0) [
        | inr (e, failed) ↦
            rw (allowed, delete_cache_object, failed)
              (λ done.
                absurd
                  (failed_ok e (record_audit-ok s context now_ms _ (err (cache_failed e)) tt done)))
        | inl (_, removed) ↦
            let gone = remove_object-gone master tenant key u removed in
            rw (allowed, delete_cache_object, removed)
              (λ done. (
                refl,
                gone,
                get_replica_list-missing (remove_object master tenant key).1 tenant key read_ms
                    gone,
              ))
      ]
    ]
