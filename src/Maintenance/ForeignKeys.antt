-- ===== src/Maintenance/ForeignKeys.antt =====
-- hub/prisma/schema.prisma: what the database does to the rows that refer to a deleted one, by the
-- onDelete of the relation.
use project.Base.{
  Bool, List, Option, String, any, eq_string, if◌then◌else◌, map, none, not, select, some, ◌&&◌,
  ◌==◌,
}
use project.Hub.{Agent, Alert, Event}
use project.Maintenance.Retention.{NotificationRow}

-- A key that was in the table before a deletion and is not in it after.
unfoldable pub is_gone : {R : Type 0} → (R → String) → List R → List R → String → Bool
unfolding any
is_gone key before rows id = any (λ r. key r == id) before && not (any (λ r. key r == id) rows)

-- Event.agent: Cascade.
unfoldable pub cascade_events : List Agent → List Agent → List Event → List Event
unfolding is_gone select
cascade_events before agents events =
    select (λ e. not (is_gone (λ a. a.id) before agents e.agent_id)) events

-- Notification.alert: Cascade.
unfoldable pub cascade_notifications :
    List Alert → List Alert → List NotificationRow → List NotificationRow
unfolding is_gone select
cascade_notifications before alerts rows =
    select (λ n. not (is_gone (λ a. a.id) before alerts n.alert_id)) rows

abbrev pub unless_gone : (String → Bool) → Option String → Option String
unless_gone gone none = none
unless_gone gone (some id) = if gone id then none else some id

-- Alert.event and Alert.agent: SetNull.
abbrev pub without_event : (String → Bool) → Alert → Alert
without_event gone a = record a { event_id = unless_gone gone a.event_id }

abbrev pub without_agent : (String → Bool) → Alert → Alert
without_agent gone a = record a { agent_id = unless_gone gone a.agent_id }

unfoldable pub unlink_events : List Event → List Event → List Alert → List Alert
unfolding is_gone
unlink_events before events alerts = map (without_event (is_gone (λ e. e.id) before events)) alerts

unfoldable pub unlink_agents : List Agent → List Agent → List Alert → List Alert
unfolding is_gone
unlink_agents before agents alerts = map (without_agent (is_gone (λ r. r.id) before agents)) alerts
