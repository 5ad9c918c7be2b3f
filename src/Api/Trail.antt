-- ===== src/Api/Trail.antt =====
-- hub/src/audit/audit.service.ts: actorFromRequest, and the entries that the controllers write. The
-- label is as sanitizeLabel leaves it; `json` stands for the JSON text of an entry's detail.
use project.Audit.{AuditAction, AuditActor, AuditEntry, AuditOutcome, AuditRow, of_role}
use project.Base.{Option, String, eq_option, eq_string, eq_ℕ, if◌then◌else◌, none, some, ℕ, ◌==◌}
use project.Contracts.Auth.{AuthRole, eq_role}
use project.Contracts.Modes.{
  AgentType, AlertSeverity, AlertType, SystemMode, eq_alert_type, eq_mode,
}
use project.Security.Credential.{Identity}

-- What the controllers read of a request; the guard has set its identity.
pub record AuthenticatedRequest : Type 0 where
  pub identity : Identity
  pub label : Option String
  pub ip : Option String

pub record AuditActorFields : Type 0 where
  pub actor : AuditActor
  pub actor_agent_id : Option String
  pub actor_label : Option String
  pub ip : Option String

-- `actorForRole`.
unfoldable pub actor_for_role : AuthRole → AuditActor
actor_for_role role = of_role role

abbrev pub no_empty : Option String → Option String
no_empty none = none
no_empty (some s) = if s == "" then none else some s

unfoldable pub actor_from_request : AuthenticatedRequest → AuditActorFields
unfolding actor_for_role
actor_from_request request = record {
  actor = actor_for_role request.identity.role;
  actor_agent_id = no_empty request.identity.agent_id;
  actor_label = no_empty request.label;
  ip = no_empty request.ip;
}

-- The `detail` objects of the controllers' entries.
pub data Detail : Type 0 where
  no_detail : Detail
  mode_detail : SystemMode → SystemMode → Option AuthRole → Detail
  alert_detail : AlertType → AlertSeverity → Option String → Detail
  agent_detail : AgentType → String → Option String → Detail
  browser_detail : String → Option String → ℕ → Detail

-- What is acted upon, by its type and identifier.
pub record Target : Type 0 where
  pub type : String
  pub id : Option String

module _ (json : Detail → String) where
  unfoldable pub audit_row :
      ℕ
      → AuthenticatedRequest
      → AuditAction
      → AuditOutcome
      → Option String
      → Target
      → Detail
      → AuditRow
  unfolding actor_from_request
  audit_row now request action outcome reason target detail =
      let who = actor_from_request request in
      record {
        at = now;
        action = action;
        outcome = outcome;
        actor = who.actor;
        actor_agent_id = who.actor_agent_id;
        actor_label = who.actor_label;
        reason = reason;
        target_type = some target.type;
        target_id = target.id;
        detail = json detail;
        ip = who.ip;
      }

abbrev pub entry : AuditRow → Option String → AuditEntry
entry row key = record { row = row; dedupe_key = key; dedupe_window_ms = none }
