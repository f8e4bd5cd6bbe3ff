-- ===== src/AdminApi/Examples.antt =====
-- Calls of the service of crates/admin-api/src/routes.rs, and the theorems at concrete inputs.
use mooncache.Prelude.{
  ℕ, ◌≡◌, ◌≢◌, refl, ◌⊎◌, true, false, List, [], ◌∷◌, none, some, Text, text_beq, text_eq, lookup,
  insert, arith, Unique, pair_beq, btree_collect, btree_insert, text_ltb,
}
use mooncache.Common
use mooncache.Common.{TenantId, CacheKey, CacheResult, object_key_eq, tenant_id_beq, cache_key_beq}
use mooncache.Fingerprint.{Hashing}
use mooncache.Master.Object.{revoked}
use mooncache.Master.State.{
  MasterState, default_state, remove_object, get_replica_list, reserved_object,
}
use mooncache.AdminApi.Roles
use mooncache.AdminApi.Roles.{
  Role, viewer, operator, admin, AdminAction, allows, is_viewer_action, is_operator_action,
}
use mooncache.AdminApi.Audit.{append}
use mooncache.AdminApi.{
  AdminRequestContext, ok, err, NodeView, new_service, drain_node, delete_cache_object,
  audit_events, not_found, forbidden, node_resource, state_unavailable,
}
use mooncache.AdminApi.Recording.{
  Outcome, drain_node-Outcome, delete_cache_object-Outcome, audit_events-Outcome,
}
use mooncache.AdminApi.Calls.{
  AdminCall, Request, asks_metrics, drains, deletes, handle, handle_all, IsCounted,
  handle_all-IsCounted,
}
use mooncache.AdminApi.Effects.{
  action_of, handle-unauthorized, drain_node-ok, delete_cache_object-ok,
}

abbrev tenant_a : TenantId
tenant_a = record { value = b'a' ∷ [] }

abbrev key_1 : CacheKey
key_1 = record { value = b'1' ∷ [] }

abbrev two_nodes : List Text
two_nodes = (b'm' ∷ []) ∷ (b'n' ∷ []) ∷ []

abbrev by : Role → AdminRequestContext
by role = record { actor = b'x' ∷ []; role = role; request_id = b'r' ∷ [] }

-- The master has one object, whose write was revoked.
abbrev master : MasterState
master = record default_state {
  objects =
      ((tenant_a, key_1), record (reserved_object tenant_a key_1 100 []) { status = revoked }) ∷ [];
}

abbrev hashing : Hashing ℕ
hashing = record {
  to_vec = λ document. some [];
  to_vec_error = λ document. [];
  sha256_hex = λ bytes. bytes;
}

drained_by_operator :
    (drain_node (new_service two_nodes) (by operator) 5 (b'n' ∷ [])).0
    ≡ ok (record { node_id = b'n' ∷ []; draining = true })
unfolding drain_node new_service allows lookup btree_collect btree_insert text_ltb insert text_beq
    append
drained_by_operator = refl

unknown_node :
    (drain_node (new_service two_nodes) (by operator) 5 (b'z' ∷ [])).0
    ≡ err (not_found (node_resource (b'z' ∷ [])))
unfolding drain_node new_service allows lookup btree_collect btree_insert text_ltb insert text_beq
    append
unknown_node = refl

viewer_refused :
    (drain_node (new_service two_nodes) (by viewer) 5 (b'n' ∷ [])).0
    ≡ err (forbidden Roles.drain_node)
unfolding drain_node new_service allows append
viewer_refused = refl

abbrev requests : List (Request ℕ)
requests =
    record { context = by viewer; now_ms = 1; call = drains (b'n' ∷ []) }
    ∷ record { context = by admin; now_ms = 2; call = deletes tenant_a key_1 }
    ∷ record { context = by viewer; now_ms = 3; call = asks_metrics }
    ∷ []

deleted_by_owner :
    (delete_cache_object (new_service two_nodes) (by admin) 5 master tenant_a key_1).0.0 ≡ ok tt
unfolding delete_cache_object allows remove_object lookup pair_beq tenant_id_beq text_beq
    cache_key_beq append new_service
deleted_by_owner = refl

drain_node-Outcome_example :
    Outcome
      (new_service two_nodes)
      (by operator)
      5
      Roles.drain_node
      (drain_node (new_service two_nodes) (by operator) 5 (b'n' ∷ []))
    ⊎ (((new_service two_nodes).nodes_poisoned ≡ true)
        × (drain_node (new_service two_nodes) (by operator) 5 (b'n' ∷ [])
            ≡ (err state_unavailable, new_service two_nodes)))
drain_node-Outcome_example = drain_node-Outcome (new_service two_nodes) (by operator) 5 (b'n' ∷ [])

delete_cache_object-Outcome_example :
    Outcome
      (new_service two_nodes)
      (by admin)
      5
      Roles.remove_cache_object
      (delete_cache_object (new_service two_nodes) (by admin) 5 master tenant_a key_1).0
delete_cache_object-Outcome_example =
    delete_cache_object-Outcome (new_service two_nodes) (by admin) 5 master tenant_a key_1

audit_events-Outcome_example :
    Outcome
      (new_service two_nodes)
      (by viewer)
      5
      Roles.read_audit_log
      (audit_events (new_service two_nodes) (by viewer) 5)
audit_events-Outcome_example = audit_events-Outcome (new_service two_nodes) (by viewer) 5

handle_all-IsCounted_example :
    IsCounted
      (handle_all hashing (new_service two_nodes, master) requests).0.metrics
      (handle_all hashing (new_service two_nodes, master) requests).0.audit.events
handle_all-IsCounted_example = handle_all-IsCounted hashing two_nodes master requests

abbrev deletion : AdminCall ℕ
deletion = deletes tenant_a key_1

viewer_forbidden : allows viewer (action_of deletion) ≡ false
unfolding allows is_viewer_action
viewer_forbidden = refl

handle-unauthorized_example :
    ((handle hashing
        (new_service two_nodes, master)
        (record { context = by viewer; now_ms = 5; call = deletion })).0.nodes
      ≡ (new_service two_nodes).nodes)
    × ((handle hashing
          (new_service two_nodes, master)
          (record { context = by viewer; now_ms = 5; call = deletion })).1
        ≡ master)
handle-unauthorized_example =
    handle-unauthorized hashing (new_service two_nodes) master (by viewer) 5 deletion
      viewer_forbidden

m_is_not_n : ◌≢◌ {A = Text} (b'm' ∷ []) (b'n' ∷ [])
m_is_not_n e = ground arith

drain_node-ok_example :
    (allows operator Roles.drain_node ≡ true)
    × (◌≡◌ {A = NodeView}
        (record { node_id = b'n' ∷ []; draining = true })
        (record { node_id = b'n' ∷ []; draining = true }))
    × (lookup (b'n' ∷ []) (drain_node (new_service two_nodes) (by operator) 5 (b'n' ∷ [])).1.nodes
        ≡ some (record { draining = true }))
    × (lookup (b'm' ∷ []) (drain_node (new_service two_nodes) (by operator) 5 (b'n' ∷ [])).1.nodes
        ≡ lookup (b'm' ∷ []) (new_service two_nodes).nodes)
drain_node-ok_example =
    drain_node-ok (new_service two_nodes) (by operator) 5 (b'n' ∷ []) (b'm' ∷ [])
      (record { node_id = b'n' ∷ []; draining = true }) m_is_not_n drained_by_operator

one_object-Unique : Unique master.objects
unfolding lookup
one_object-Unique = (refl, tt)

delete_cache_object-ok_example :
    (allows admin Roles.remove_cache_object ≡ true)
    × (lookup
          (tenant_a, key_1)
          (delete_cache_object (new_service two_nodes) (by admin) 5 master tenant_a key_1).1.objects
        ≡ none)
    × (get_replica_list
          (delete_cache_object (new_service two_nodes) (by admin) 5 master tenant_a key_1).1
          tenant_a
          key_1
          9
        ≡ (
          Common.err Common.not_found,
          (delete_cache_object (new_service two_nodes) (by admin) 5 master tenant_a key_1).1,
        ))
delete_cache_object-ok_example =
    delete_cache_object-ok (new_service two_nodes) (by admin) 5 9 master tenant_a key_1
      one_object-Unique deleted_by_owner
