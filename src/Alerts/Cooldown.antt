-- ===== src/Alerts/Cooldown.antt =====
-- Deduplication: what is raised, what is suppressed, and what a raise leaves behind.
use project.Alerts.Rules.{RuleOutcome}
use project.Alerts.Service.{Links, is_recent_open, is_suppressed, new_alert, publish, raise}
use project.Base.{
  ==_refl, Bool, List, Option, String, any, any-snoc, arith, eq_option, eq_string, eq_ℕ, false,
  if◌then◌else◌, leb, none, some, true, ℕ, ◌+◌, ◌<◌, ◌↔◌, ◌≡◌, ◌≤◌,
}
use project.Contracts.Modes.{AlertType, SystemMode, eq_alert_type, eq_mode}
use project.Db.{Prisma}
use project.Hub.{Alert, Hub}
use project.Settings.{Settings}

module _ (db : Prisma) (cfg : Settings) where
  is_suppressed_lem :
      (now : ℕ) (type : AlertType) (agent_id : Option String) (alerts : List Alert)
      → is_suppressed db cfg now type agent_id alerts ≡ (
          if leb cfg.cooldown_ms 0
          then false
          else any (is_recent_open cfg now type agent_id) alerts)
  unfolding is_suppressed
  is_suppressed_lem now type agent_id alerts =
      rw (db.find_first_lem (is_recent_open cfg now type agent_id) alerts)

  -- A raise is silent exactly when the cooldown is on and the table holds an open alert of the same
  -- type and agent from inside the window; then nothing in the hub changes.
  pub raise_silent_iff :
      (now : ℕ) (outcome : RuleOutcome) (mode : SystemMode) (links : Links) (h : Hub)
      → ((raise db cfg now outcome mode links false h).1 ≡ none) ↔ (
          (0 < cfg.cooldown_ms)
          × (any (is_recent_open cfg now outcome.type links.agent_id) h.alerts ≡ true))
  unfolding raise publish
  raise_silent_iff now outcome mode links h =
      ground (arith, is_suppressed_lem now outcome.type links.agent_id h.alerts)

  raise_silent :
      (now : ℕ) (outcome : RuleOutcome) (mode : SystemMode) (links : Links) (h : Hub)
      → 0 < cfg.cooldown_ms
      → any (is_recent_open cfg now outcome.type links.agent_id) h.alerts ≡ true
      → raise db cfg now outcome mode links false h ≡ (h, none)
  unfolding raise publish
  raise_silent now outcome mode links h on found =
      ground (arith, is_suppressed_lem now outcome.type links.agent_id h.alerts)

  pub raise-publish :
      (now : ℕ) (outcome : RuleOutcome) (mode : SystemMode) (links : Links) (skip : Bool) (h : Hub)
      {a : Alert}
      → (raise db cfg now outcome mode links skip h).1 ≡ some a
      → raise db cfg now outcome mode links skip h ≡ publish db cfg now outcome mode links h
  unfolding raise
  raise-publish now outcome mode links skip h e = ground arith

  -- The published row is open for the whole window, whatever its identifier.
  pub any-publish :
      (now later : ℕ) (o : RuleOutcome) (mode : SystemMode) (links : Links) (h : Hub)
      → later ≤ now + cfg.cooldown_ms
      → any
          (is_recent_open cfg later o.type links.agent_id)
          (publish db cfg now o mode links h).0.alerts
        ≡ true
  unfolding publish is_recent_open new_alert
  any-publish now later o mode links h soon =
      let id = db.uuid (λ r. r.id) h.alerts in
      let row = new_alert id now o mode links in
      rw (db.create_lem, any-snoc) (ground (arith, ==_refl o.type, ==_refl links.agent_id))

  -- A raise inside the cooldown window after one that was published changes nothing, whatever the
  -- other outcome's message and severity.
  raise-raise :
      (now later : ℕ) (o o' : RuleOutcome) (mode mode' : SystemMode) (links links' : Links)
      (skip : Bool) (h : Hub) {a : Alert}
      → o'.type ≡ o.type
      → links'.agent_id ≡ links.agent_id
      → 0 < cfg.cooldown_ms
      → later ≤ now + cfg.cooldown_ms
      → (raise db cfg now o mode links skip h).1 ≡ some a
      → raise db cfg later o' mode' links' false (raise db cfg now o mode links skip h).0
        ≡ ((raise db cfg now o mode links skip h).0, none)
  raise-raise now later o o' mode mode' links links' skip h same_type same_agent on soon raised =
      raise_silent later o' mode' links' (raise db cfg now o mode links skip h).0 on (
        rw (same_type, same_agent, raise-publish now o mode links skip h raised)
          (any-publish now later o mode links h soon))
