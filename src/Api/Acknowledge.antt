-- ===== src/Api/Acknowledge.antt =====
-- hub/src/alerts/alerts.controller.ts: acknowledging an alert.
use project.Alerts.Service.{acknowledge}
use project.Api.Mode.{Desk}
use project.Api.Trail.{
  AuthenticatedRequest, Detail, Target, alert_detail, audit_row, entry, no_detail,
}
use project.Audit.{AuditOutcome, alert_acknowledged, denied, record_entry}
use project.Base.{Option, String, if◌then◌else◌, none, some, ℕ}
use project.Db.{Prisma}
use project.Http.{Result, err, forbidden, not_found, ok}
use project.Hub.{Alert, Hub}
use project.Security.Policy.{can_acknowledge_alert}

abbrev pub the_alert : String → Target
the_alert id = record { type = "alert"; id = some id }

module _ (db : Prisma) (lower : String → String) (json : Detail → String) where
  unfoldable pub respond :
      ℕ → AuthenticatedRequest → String → Desk → Option (Hub × Alert) → Desk × Result Alert
  respond now request id p none = (p, err not_found)
  respond now request id p (some (h, a)) = (
    record {
      hub = h;
      audit =
          record_entry now
            (entry
              (audit_row json now request alert_acknowledged AuditOutcome.allowed none
                (the_alert id) (alert_detail a.type a.severity a.agent_id))
              none)
            p.audit;
    },
    ok a,
  )

  unfoldable pub acknowledge_route : ℕ → AuthenticatedRequest → String → Desk → Desk × Result Alert
  unfolding respond can_acknowledge_alert acknowledge record_entry audit_row
  acknowledge_route now request id p =
      let decision = can_acknowledge_alert lower db request.identity id p.hub.agents p.hub.alerts in
      if decision.allowed then respond now request id p (acknowledge db now id p.hub) else (
        record p {
          audit =
              record_entry now
                (entry
                  (audit_row json now request alert_acknowledged denied decision.reason
                    (the_alert id) no_detail)
                  none)
                p.audit;
        },
        err forbidden,
      )
