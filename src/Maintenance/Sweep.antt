-- ===== src/Maintenance/Sweep.antt =====
-- hub/src/maintenance/retention.service.ts: sweep and run. A failing database, which sweep logs and
-- swallows, is outside the model. Each deletion has its effects on the rows that refer to the deleted
-- ones (`Maintenance.ForeignKeys`).
use project.Audit.{AuditRow}
use project.Base.{Bool, List, Option, String, false, none, not, some, true, ℕ, ◌||◌}
use project.Cameras.Browser.{reap_ended_sessions}
use project.Db.{Prisma}
use project.Hub.{Agent, Alert, Event}
use project.Maintenance.ForeignKeys.{
  cascade_events, cascade_notifications, unlink_agents, unlink_events,
}
use project.Maintenance.Retention.{
  BatchDelete, NotificationRow, prune_alerts, prune_audit, prune_events, prune_notifications,
}
use project.Maintenance.RollUp.{EventRollup, roll_up_events}
use project.Settings.{Settings}

-- The tables that the sweep works on.
pub record Store : Type 0 where
  pub events : List Event
  pub rollups : List EventRollup
  pub alerts : List Alert
  pub notifications : List NotificationRow
  pub audit : List AuditRow
  pub agents : List Agent

-- The retention windows, in days.
pub record Windows : Type 0 where
  pub event_days : ℕ
  pub alert_days : ℕ
  pub notification_days : ℕ
  pub audit_days : ℕ

pub record RetentionResult : Type 0 where
  pub rolled_up_buckets : ℕ
  pub rolled_through : ℕ
  pub events_deleted : ℕ
  pub alerts_deleted : ℕ
  pub notifications_deleted : ℕ
  pub audit_deleted : ℕ
  pub browser_sessions_reaped : ℕ
  pub more_remaining : Bool

module _ (db : Prisma) (hash : String → String) (sql : BatchDelete) (cfg : Settings)
    (days : Windows) where
  unfoldable pub run : ℕ → Store → Store × RetentionResult
  unfolding roll_up_events prune_events prune_alerts prune_notifications prune_audit
      reap_ended_sessions cascade_events cascade_notifications unlink_events unlink_agents
  run now s =
      let up = roll_up_events now s.events s.rollups in
      let events = prune_events sql cfg now days.event_days up.rolled_through s.events in
      let unlinked = unlink_events s.events events.0 s.alerts in
      let alerts = prune_alerts sql cfg now days.alert_days unlinked in
      let left = cascade_notifications unlinked alerts.0 s.notifications in
      let sent = prune_notifications sql cfg now days.notification_days left in
      let audit = prune_audit sql cfg now days.audit_days s.audit in
      let agents = reap_ended_sessions db hash now s.agents in
      (
        record {
          events = cascade_events s.agents agents.0 events.0;
          rollups = up.rollups;
          alerts = unlink_agents s.agents agents.0 alerts.0;
          notifications = sent.0;
          audit = audit.0;
          agents = agents.0;
        },
        record {
          rolled_up_buckets = up.buckets;
          rolled_through = up.rolled_through;
          events_deleted = events.1.deleted;
          alerts_deleted = alerts.1.deleted;
          notifications_deleted = sent.1.deleted;
          audit_deleted = audit.1.deleted;
          browser_sessions_reaped = agents.1;
          more_remaining =
              not up.caught_up
              || (events.1.capped || (alerts.1.capped || (sent.1.capped || audit.1.capped)));
        },
      )

  -- A tick while the previous one is still running is skipped.
  unfoldable pub sweep : Bool → ℕ → Store → Store × Option RetentionResult
  unfolding run
  sweep true now s = (s, none)
  sweep false now s = let done = run now s in (done.0, some done.1)
