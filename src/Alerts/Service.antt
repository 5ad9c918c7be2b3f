-- ===== src/Alerts/Service.antt =====
-- hub/src/alerts/alerts.service.ts. `now` is the clock at the call.
use project.Alerts.Rules.{RuleAgent, RuleOutcome, evaluate, offline_outcome, recovered_outcome}
use project.Base.{
  Bool, List, Option, String, [], eq_option, eq_string, eq_ℕ, false, if◌then◌else◌, is_some, leb,
  none, not, some, true, ℕ, ◌&&◌, ◌++◌, ◌+◌, ◌==◌, ◌∷◌,
}
use project.Contracts.Modes.{
  AlertType, EventType, SystemMode, agent_offline, eq_alert_type, eq_mode, eq_severity,
}
use project.Db.{Prisma}
use project.Hub.{Alert, Hub, alert_frame}
use project.Settings.{Settings}
use project.System.{get_mode}

pub record Links : Type 0 where
  pub agent_id : Option String
  pub event_id : Option String
  pub location : Option String

-- The `where` of `isSuppressed`: an open alert of this type and agent, raised inside the window.
unfoldable pub is_recent_open : Settings → ℕ → AlertType → Option String → Alert → Bool
is_recent_open cfg now type agent_id a =
    a.type == type
    && a.agent_id == agent_id
    && not a.acknowledged
    && leb now (a.created_at + cfg.cooldown_ms)

-- The row that `raise` creates.
unfoldable pub new_alert : String → ℕ → RuleOutcome → SystemMode → Links → Alert
new_alert id now outcome mode links = record {
  id = id;
  type = outcome.type;
  severity = outcome.severity;
  message = outcome.message;
  agent_id = links.agent_id;
  event_id = links.event_id;
  mode_at_trigger = mode;
  acknowledged = false;
  acknowledged_at = none;
  created_at = now;
}

abbrev pub acknowledge_row : ℕ → Alert → Alert
acknowledge_row now a = record a { acknowledged = true; acknowledged_at = some now }

-- The `where` of `acknowledgeOpenOfflineAlerts`.
unfoldable pub is_open_offline : String → Alert → Bool
is_open_offline agent_id a =
    a.agent_id == some agent_id && a.type == agent_offline && not a.acknowledged

module _ (db : Prisma) (cfg : Settings) where
  unfoldable pub is_suppressed : ℕ → AlertType → Option String → List Alert → Bool
  unfolding is_recent_open
  is_suppressed now type agent_id alerts =
      if leb cfg.cooldown_ms 0
      then false
      else is_some (db.find_first (is_recent_open cfg now type agent_id) alerts)

  -- Persist, broadcast, notify.
  unfoldable pub publish : ℕ → RuleOutcome → SystemMode → Links → Hub → Hub × Option Alert
  unfolding new_alert
  publish now outcome mode links h =
      let a = new_alert (db.uuid (λ r. r.id) h.alerts) now outcome mode links in
      (
        record h {
          alerts = db.create a h.alerts;
          frames = h.frames ++ alert_frame a links.location ∷ [];
          notified = h.notified ++ a ∷ [];
        },
        some a,
      )

  unfoldable pub raise : ℕ → RuleOutcome → SystemMode → Links → Bool → Hub → Hub × Option Alert
  unfolding is_suppressed publish
  raise now outcome mode links skip_cooldown h =
      if not skip_cooldown && is_suppressed now outcome.type links.agent_id h.alerts
      then (h, none)
      else publish now outcome mode links h

  raise_outcome : ℕ → Option RuleOutcome → SystemMode → Links → Hub → Hub × Option Alert
  raise_outcome now none mode links h = (h, none)
  raise_outcome now (some outcome) mode links h = raise now outcome mode links false h

  unfoldable pub evaluate_event : ℕ → RuleAgent → EventType → String → Hub → Hub × Option Alert
  unfolding raise_outcome get_mode
  evaluate_event now a type event_id h =
      let got = get_mode db h in
      raise_outcome now (evaluate type got.1 a) got.1
        (record { agent_id = some a.id; event_id = some event_id; location = some a.location })
        got.0

  abbrev agent_links : RuleAgent → Links
  agent_links a = record { agent_id = some a.id; event_id = none; location = some a.location }

  unfoldable pub raise_agent_offline : ℕ → RuleAgent → ℕ → Hub → Hub × Option Alert
  unfolding get_mode
  raise_agent_offline now a silent_for_ms h =
      let got = get_mode db h in
      raise now (offline_outcome a got.1 silent_for_ms) got.1 (agent_links a) false got.0

  unfoldable pub raise_agent_recovered : ℕ → RuleAgent → Hub → Hub × Option Alert
  unfolding get_mode
  raise_agent_recovered now a h =
      let got = get_mode db h in raise now (recovered_outcome a) got.1 (agent_links a) true got.0

module _ (db : Prisma) where
  -- `acknowledge`; `none` is the 404.
  unfoldable pub acknowledge_found : ℕ → String → Hub → Option Alert → Option (Hub × Alert)
  acknowledge_found now id h none = none
  acknowledge_found now id h (some a) =
      if a.acknowledged
      then some (h, a)
      else some (
        record h {
          alerts = (db.update_many (λ r. r.id == id) (acknowledge_row now) h.alerts).0;
          frames = h.frames ++ alert_frame (acknowledge_row now a) none ∷ [];
        },
        acknowledge_row now a,
      )

  unfoldable pub acknowledge : ℕ → String → Hub → Option (Hub × Alert)
  unfolding acknowledge_found
  acknowledge now id h = acknowledge_found now id h (db.find_unique (λ r. r.id == id) h.alerts)

  unfoldable pub acknowledge_open_offline_alerts : ℕ → String → Hub → Hub × ℕ
  unfolding is_open_offline
  acknowledge_open_offline_alerts now agent_id h =
      let done = db.update_many (is_open_offline agent_id) (acknowledge_row now) h.alerts in
      (record h { alerts = done.0 }, done.1)
