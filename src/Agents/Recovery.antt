-- ===== src/Agents/Recovery.antt =====
-- An agent that is heard from again: its row, and its offline alerts.
use project.Agents.Service.{handle_recovery, record_activity, rule_agent, seen_row}
use project.Alerts.Acknowledge.{clear_offline}
use project.Alerts.Rules.{RuleAgent, recovered_outcome}
use project.Alerts.Service.{
  acknowledge_open_offline_alerts, is_open_offline, new_alert, publish, raise,
  raise_agent_recovered,
}
use project.Base.{
  String, any, any-snoc, arith, eq_string, eq_ℕ, false, if◌then◌else◌, map, ℕ, ◌==◌, ◌≡◌,
}
use project.Contracts.Modes.{offline}
use project.Db.{Prisma}
use project.Hub.{Agent, Hub}
use project.Settings.{Settings}
use project.System.{get_mode}

module _ (db : Prisma) (cfg : Settings) where
  -- The recovery notice is no offline alert.
  recovered_is_closed :
      (now : ℕ) (id : String) (a : RuleAgent) (h : Hub)
      → any (is_open_offline id) h.alerts ≡ false
      → any (is_open_offline id) (raise_agent_recovered db cfg now a h).0.alerts ≡ false
  unfolding raise_agent_recovered raise publish new_alert recovered_outcome is_open_offline get_mode
  recovered_is_closed now id a h e = rw (db.create_lem, any-snoc) (ground (arith, e))

  -- When an agent that was marked offline is heard from, no offline alert of it stays open.
  pub record_activity_recovers :
      (now : ℕ) (a : Agent) (h : Hub)
      → a.status ≡ offline
      → any (is_open_offline a.id) (record_activity db cfg now a h).0.alerts ≡ false
  unfolding record_activity handle_recovery
  record_activity_recovers now a h silent =
      let seen = record h {
        agents = (db.update_many (λ r. r.id == a.id) (seen_row now) h.agents).0;
      } in
      let cleared = acknowledge_open_offline_alerts db now a.id seen in
      rw silent
        (recovered_is_closed now a.id (rule_agent a) cleared.0 (clear_offline db now a.id seen))

  pub agents-record_activity :
      (now : ℕ) (a : Agent) (h : Hub)
      → (record_activity db cfg now a h).0.agents
        ≡ map (λ r. if r.id == a.id then seen_row now r else r) h.agents
  unfolding record_activity handle_recovery raise_agent_recovered raise publish get_mode
      acknowledge_open_offline_alerts
  agents-record_activity now a h =
      ground (arith, db.update_many_lem (λ (r : Agent). r.id == a.id) (seen_row now) h.agents)

  pub events-record_activity :
      (now : ℕ) (a : Agent) (h : Hub) → (record_activity db cfg now a h).0.events ≡ h.events
  unfolding record_activity handle_recovery raise_agent_recovered raise publish get_mode
      acknowledge_open_offline_alerts
  events-record_activity now a h = ground arith
