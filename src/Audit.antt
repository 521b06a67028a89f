-- ===== src/Audit.antt =====
-- app/services/audit_service.py, `build_audit_log`. `jsonable_encoder` keeps what it encodes.
use backend_project.Prelude.{Option, String, Uuid, ℕ}
use backend_project.Models.{AuditLog, Snapshot}
use backend_project.Session.{Env}

-- The k-th id of the request is the log's; the arguments are in the source's order.
abbrev pub build_audit_log :
    Env → ℕ → Uuid → Uuid → String → String → Uuid → Option Snapshot → Option Snapshot → AuditLog
build_audit_log env k tenant_id user_id action entity_type entity_id before_state after_state =
    record {
      id = env.uuid4 k;
      tenant_id = tenant_id;
      user_id = user_id;
      action = action;
      entity_type = entity_type;
      entity_id = entity_id;
      before_state = before_state;
      after_state = after_state;
      created_at = env.now;
    }
