-- ===== src/Alerts/Offline.antt =====
-- Raising `agent_offline`, and what a raise leaves of the tables.
use project.Alerts.Cooldown.{raise_silent_iff}
use project.Alerts.Rules.{RuleAgent, RuleOutcome, offline_outcome}
use project.Alerts.Service.{
  Links, is_open_offline, is_recent_open, is_suppressed, new_alert, publish, raise,
  raise_agent_offline,
}
use project.Base.{
  ==_refl, Bool, Bool-cases, String, any, any-snoc, any_mono, ap, arith, eq_option, eq_string, eq_ℕ,
  false, inl, inr, none, not, refl, some, true, ℕ, ◌&&◌, ◌≡◌, ◌⊎◌,
}
use project.Contracts.Modes.{SystemMode, agent_offline, eq_alert_type, eq_mode}
use project.Db.{Prisma}
use project.Hub.{Alert, Hub}
use project.Schedules.Runner.{skip}
use project.Settings.{Settings}
use project.System.{get_mode}

module _ (db : Prisma) (cfg : Settings) where
  raise_cases :
      (now : ℕ) (o : RuleOutcome) (mode : SystemMode) (links : Links) (skip : Bool) (h : Hub)
      → (raise db cfg now o mode links skip h ≡ (h, none))
        ⊎ (raise db cfg now o mode links skip h ≡ publish db cfg now o mode links h)
  unfolding raise
  raise_cases now o mode links skip h =
      elim (Bool-cases (not skip && is_suppressed db cfg now o.type links.agent_id h.alerts)) [
        | inl e ↦ inl (rw e)
        | inr e ↦ inr (rw e)
      ]

  -- No alert is lost by a raise.
  pub any-raise :
      (p : Alert → Bool) (now : ℕ) (o : RuleOutcome) (mode : SystemMode) (links : Links)
      (skip : Bool) (h : Hub)
      → any p h.alerts ≡ true
      → any p (raise db cfg now o mode links skip h).0.alerts ≡ true
  unfolding publish
  any-raise p now o mode links skip h e = elim (raise_cases now o mode links skip h) [
    | inl same ↦ rw (same, e)
    | inr new ↦ rw (new, db.create_lem, any-snoc, e)
  ]

  pub agents-raise :
      (now : ℕ) (o : RuleOutcome) (mode : SystemMode) (links : Links) (skip : Bool) (h : Hub)
      → (raise db cfg now o mode links skip h).0.agents ≡ h.agents
  unfolding publish
  agents-raise now o mode links skip h = elim (raise_cases now o mode links skip h) [
    | inl same ↦ rw same
    | inr new ↦ rw new
  ]

  recent_is_open :
      (now : ℕ) (id : String) (a : Alert)
      → is_recent_open cfg now agent_offline (some id) a ≡ true
      → is_open_offline id a ≡ true
  unfolding is_recent_open is_open_offline
  recent_is_open now id a e = ground arith

  open_after_raise :
      (now : ℕ) (id : String) (o : RuleOutcome) (mode : SystemMode) (links : Links) (h : Hub)
      → o.type ≡ agent_offline
      → links.agent_id ≡ some id
      → any (is_open_offline id) (raise db cfg now o mode links false h).0.alerts ≡ true
  unfolding publish new_alert is_open_offline
  open_after_raise now id o mode links h type whom = elim (raise_cases now o mode links false h) [
    | inl same ↦
        let silent = (raise_silent_iff db cfg now o mode links h).0 (ap (λ r. r.1) same) in
        rw same (
          any_mono (is_recent_open cfg now agent_offline (some id)) (is_open_offline id) h.alerts
            (recent_is_open now id) (rw (← type, ← whom) silent.1))
    | inr new ↦
        rw (new, db.create_lem, any-snoc) (ground (arith, ==_refl (some id), ==_refl agent_offline))
  ]

  -- After the hub reports an agent as offline, an open offline alert for it is in the table: the new
  -- one, or the one whose cooldown suppressed it.
  pub any-raise_agent_offline :
      (now : ℕ) (a : RuleAgent) (ms : ℕ) (h : Hub)
      → any (is_open_offline a.id) (raise_agent_offline db cfg now a ms h).0.alerts ≡ true
  unfolding raise_agent_offline offline_outcome get_mode
  any-raise_agent_offline now a ms h = open_after_raise now a.id _ _ _ (get_mode db h).0 refl refl

  pub any-raise_agent_offline_mono :
      (p : Alert → Bool) (now : ℕ) (a : RuleAgent) (ms : ℕ) (h : Hub)
      → any p h.alerts ≡ true
      → any p (raise_agent_offline db cfg now a ms h).0.alerts ≡ true
  unfolding raise_agent_offline get_mode
  any-raise_agent_offline_mono p now a ms h e = any-raise p now _ _ _ false (get_mode db h).0 e

  pub agents-raise_agent_offline :
      (now : ℕ) (a : RuleAgent) (ms : ℕ) (h : Hub)
      → (raise_agent_offline db cfg now a ms h).0.agents ≡ h.agents
  unfolding raise_agent_offline get_mode
  agents-raise_agent_offline now a ms h = agents-raise now _ _ _ false (get_mode db h).0

  pub events-raise :
      (now : ℕ) (o : RuleOutcome) (mode : SystemMode) (links : Links) (skip : Bool) (h : Hub)
      → (raise db cfg now o mode links skip h).0.events ≡ h.events
  unfolding publish
  events-raise now o mode links skip h = elim (raise_cases now o mode links skip h) [
    | inl same ↦ rw same
    | inr new ↦ rw new
  ]
