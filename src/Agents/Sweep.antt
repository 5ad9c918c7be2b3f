-- ===== src/Agents/Sweep.antt =====
-- The loops of the sweep and of the reconciliation.
use project.Agents.Liveness.{announce, announce_all, report_all}
use project.Agents.Service.{rule_agent}
use project.Alerts.Offline.{
  agents-raise_agent_offline, any-raise_agent_offline, any-raise_agent_offline_mono,
}
use project.Alerts.Service.{is_open_offline, raise_agent_offline}
use project.Base.{
  ==_iff, Bool, Bool-cases, List, String, [], any, arith, eq_string, eq_ℕ, inl, inr, refl, true, ℕ,
  ◌-◌, ◌==◌, ◌∙◌, ◌∷◌, ◌≡◌,
}
use project.Db.{Prisma}
use project.Hub.{Agent, Alert, Hub}
use project.Settings.{Settings}

module _ (db : Prisma) (cfg : Settings) where
  announce_alerts :
      (now : ℕ) (a : Agent) (h : Hub)
      → (announce db cfg now a h).alerts
        ≡ (raise_agent_offline db cfg now (rule_agent a) (now - a.last_seen_at) h).0.alerts
  unfolding announce
  announce_alerts now a h = ground arith

  announce_agents : (now : ℕ) (a : Agent) (h : Hub) → (announce db cfg now a h).agents ≡ h.agents
  unfolding announce
  announce_agents now a h =
      ground (arith, agents-raise_agent_offline db cfg now (rule_agent a) (now - a.last_seen_at) h)

  pub agents-announce_all :
      (now : ℕ) (rows : List Agent) (h : Hub) → (announce_all db cfg now rows h).agents ≡ h.agents
  unfolding announce_all
  agents-announce_all now [] h = refl
  agents-announce_all now (a ∷ rows) h =
      agents-announce_all now rows (announce db cfg now a h) ∙ announce_agents now a h

  pub any-announce_all :
      (p : Alert → Bool) (now : ℕ) (rows : List Agent) (h : Hub)
      → any p h.alerts ≡ true
      → any p (announce_all db cfg now rows h).alerts ≡ true
  unfolding announce_all
  any-announce_all p now [] h e = e
  any-announce_all p now (a ∷ rows) h e =
      any-announce_all p now rows (announce db cfg now a h)
        (rw announce_alerts (any-raise_agent_offline_mono db cfg p now (rule_agent a) _ h e))

  -- Every agent in the batch has an open offline alert when the loop ends.
  pub announced :
      (now : ℕ) (rows : List Agent) (h : Hub) (id : String)
      → any (λ r. r.id == id) rows ≡ true
      → any (is_open_offline id) (announce_all db cfg now rows h).alerts ≡ true
  unfolding announce_all any
  announced now [] h id e = absurd (ground arith)
  announced now (a ∷ rows) h id e = elim (Bool-cases (a.id == id)) [
    | inl same ↦ rw (← (==_iff a.id id).0 same) (
        any-announce_all (is_open_offline a.id) now rows (announce db cfg now a h)
          (rw announce_alerts (any-raise_agent_offline db cfg now (rule_agent a) _ h)))
    | inr other ↦ announced now rows (announce db cfg now a h) id (ground arith)
  ]

  -- The same for the reconciliation's loop.
  pub agents-report_all :
      (now : ℕ) (rows : List Agent) (h : Hub) → (report_all db cfg now rows h).agents ≡ h.agents
  unfolding report_all
  agents-report_all now [] h = refl
  agents-report_all now (a ∷ rows) h =
      agents-report_all now rows _
      ∙ agents-raise_agent_offline db cfg now (rule_agent a) (now - a.last_seen_at) h

  pub any-report_all :
      (p : Alert → Bool) (now : ℕ) (rows : List Agent) (h : Hub)
      → any p h.alerts ≡ true
      → any p (report_all db cfg now rows h).alerts ≡ true
  unfolding report_all
  any-report_all p now [] h e = e
  any-report_all p now (a ∷ rows) h e =
      any-report_all p now rows _ (any-raise_agent_offline_mono db cfg p now (rule_agent a) _ h e)

  pub reported :
      (now : ℕ) (rows : List Agent) (h : Hub) (id : String)
      → any (λ r. r.id == id) rows ≡ true
      → any (is_open_offline id) (report_all db cfg now rows h).alerts ≡ true
  unfolding report_all any
  reported now [] h id e = absurd (ground arith)
  reported now (a ∷ rows) h id e = elim (Bool-cases (a.id == id)) [
    | inl same ↦ rw (← (==_iff a.id id).0 same) (
        any-report_all (is_open_offline a.id) now rows _
          (any-raise_agent_offline db cfg now (rule_agent a) _ h))
    | inr other ↦ reported now rows _ id (ground arith)
  ]
