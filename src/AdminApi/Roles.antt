-- ===== src/AdminApi/Roles.antt =====
-- crates/admin-api/src/rbac.rs, and the labels of the actions in routes.rs.
use mooncache.Prelude.{Bool, true, false, Text, text}

pub data Role : Type 0 where
  no_access viewer operator admin : Role

pub data AdminAction : Type 0 where
  read_metrics read_nodes read_audit_log debug_cache_fingerprint drain_node : AdminAction
  remove_cache_object warmup_cache patch_tenant_policy patch_vendor_policy manage_users :
      AdminAction

-- The `matches!` of the role `Viewer`.
unfoldable pub is_viewer_action : AdminAction → Bool
is_viewer_action read_metrics = true
is_viewer_action read_nodes = true
is_viewer_action read_audit_log = true
is_viewer_action debug_cache_fingerprint = true
is_viewer_action _ = false

-- The `matches!` of the role `Operator`.
unfoldable pub is_operator_action : AdminAction → Bool
is_operator_action read_metrics = true
is_operator_action read_nodes = true
is_operator_action read_audit_log = true
is_operator_action debug_cache_fingerprint = true
is_operator_action drain_node = true
is_operator_action remove_cache_object = true
is_operator_action warmup_cache = true
is_operator_action _ = false

unfoldable pub allows : Role → AdminAction → Bool
unfolding is_viewer_action is_operator_action
allows no_access action = false
allows viewer action = is_viewer_action action
allows operator action = is_operator_action action
allows admin action = true

unfoldable pub admin_action_label : AdminAction → Text
admin_action_label read_metrics = text "read_metrics"
admin_action_label read_nodes = text "read_nodes"
admin_action_label read_audit_log = text "read_audit_log"
admin_action_label debug_cache_fingerprint = text "debug_cache_fingerprint"
admin_action_label drain_node = text "drain_node"
admin_action_label remove_cache_object = text "remove_cache_object"
admin_action_label warmup_cache = text "warmup_cache"
admin_action_label patch_tenant_policy = text "patch_tenant_policy"
admin_action_label patch_vendor_policy = text "patch_vendor_policy"
admin_action_label manage_users = text "manage_users"
