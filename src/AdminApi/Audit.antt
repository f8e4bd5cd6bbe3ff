-- ===== src/AdminApi/Audit.antt =====
-- crates/admin-api/src/audit.rs. `poisoned` tells whether the lock of the sink is poisoned.
use mooncache.Prelude.{ℕ, Bool, false, List, [], ◌∷◌, ◌++◌, Option, if◌then◌else◌, Text}
use mooncache.AdminApi.Roles.{Role, AdminAction}

pub data AuditResult : Type 0 where
  success denied : AuditResult
  failed : Text → AuditResult

pub record AuditEvent : Type 0 where
  pub actor : Text
  pub role : Role
  pub action : AdminAction
  pub resource : Text
  pub tenant_scope : Option Text
  pub before_summary : Option Text
  pub after_summary : Option Text
  pub request_id : Text
  pub timestamp_ms : ℕ
  pub result : AuditResult

pub record InMemoryAuditSink : Type 0 where
  pub events : List AuditEvent
  pub poisoned : Bool

abbrev pub no_events : InMemoryAuditSink
no_events = record { events = []; poisoned = false }

-- `AuditError` has one constructor, `Unavailable`, which is `none` here.
unfoldable pub append : InMemoryAuditSink → AuditEvent → Option InMemoryAuditSink
append sink event =
    if sink.poisoned
    then Option.none
    else Option.some (record sink { events = sink.events ++ (event ∷ []) })

-- `InMemoryAuditSink::list`
unfoldable pub list_events : InMemoryAuditSink → Option (List AuditEvent)
list_events sink = if sink.poisoned then Option.none else Option.some sink.events
