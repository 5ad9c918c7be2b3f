-- ===== src/Events/Ingest.antt =====
-- What an ingestion does to the registry and the events.
use project.Agents.Recovery.{agents-record_activity, events-record_activity}
use project.Agents.Service.{record_activity, rule_agent, seen_row}
use project.Alerts.Offline.{agents-raise, events-raise}
use project.Alerts.Rules.{RuleAgent, evaluate}
use project.Alerts.Service.{evaluate_event}
use project.Base.{
  ==_iff, ==_refl, Option, Option-cases, String, [], ap, arith, eq_option, eq_string, eq_ℕ, false,
  find, find-eq-some, find-update, inl, inr, refl, some, sym, ℕ, ◌++◌, ◌==◌, ◌∙◌, ◌∷◌, ◌≡◌,
}
use project.Contracts.Modes.{EventType, eq_alert_type, online}
use project.Db.{Prisma}
use project.Events.{CreateEventRequest, ingest, new_event, store_event}
use project.Http.{ok}
use project.Hub.{Agent, Alert, Event, Hub}
use project.Notifications.Service.{given, told}
use project.Settings.{Settings}
use project.System.{get_mode}

module _ (db : Prisma) (cfg : Settings) where
  agents-evaluate_event :
      (now : ℕ) (a : RuleAgent) (type : EventType) (id : String) (h : Hub)
      → (evaluate_event db cfg now a type id h).0.agents ≡ h.agents
  unfolding evaluate_event get_mode
  agents-evaluate_event now a type id h = elim (Option-cases (evaluate type (get_mode db h).1 a)) [
    | inl silent ↦ rw silent
    | inr (o, told) ↦ rw told (
        agents-raise db cfg now o (get_mode db h).1
          (record { agent_id = some a.id; event_id = some id; location = some a.location }) false
          (get_mode db h).0)
  ]

  events-evaluate_event :
      (now : ℕ) (a : RuleAgent) (type : EventType) (id : String) (h : Hub)
      → (evaluate_event db cfg now a type id h).0.events ≡ h.events
  unfolding evaluate_event get_mode
  events-evaluate_event now a type id h = elim (Option-cases (evaluate type (get_mode db h).1 a)) [
    | inl silent ↦ rw silent
    | inr (o, told) ↦ rw told (
        events-raise db cfg now o (get_mode db h).1
          (record { agent_id = some a.id; event_id = some id; location = some a.location }) false
          (get_mode db h).0)
  ]

  -- The outcome for an agent that was registered before.
  abbrev pub Ingested : ℕ → CreateEventRequest → Hub → Hub → Event → Type 0
  Ingested now dto h h' e =
      (h'.events ≡ h.events ++ e ∷ [])
      × (e.agent_id ≡ dto.agent_id)
      × (e.type ≡ dto.type)
      × (known : Agent) × (find (λ r. r.id == dto.agent_id) h.agents ≡ some known)
      × (a : Agent) × (find (λ r. r.id == dto.agent_id) h'.agents ≡ some a)
      × (a.status ≡ online)
      × (a.last_seen_at ≡ now)

  ingest_known :
      (now : ℕ) (dto : CreateEventRequest) (h h' : Hub) (e : Event) (alert : Option Alert)
      (a : Agent)
      → find (λ r. r.id == dto.agent_id) h.agents ≡ some a
      → ingest db cfg now dto h ≡ ok (h', e, alert)
      → Ingested now dto h h' e
  unfolding ingest store_event new_event
  ingest_known now dto h h' e alert a found given =
      let active = (record_activity db cfg now a h).0 in
      let stored = store_event db cfg now a dto active in
      let judged = evaluate_event db cfg now (rule_agent a) dto.type stored.1.id stored.0 in
      let is_id =
        (==_iff a.id dto.agent_id).0 (find-eq-some (λ r. r.id == dto.agent_id) h.agents found) in
      let known : ingest db cfg now dto h ≡ ok (judged.0, stored.1, judged.1) =
        rw (db.find_unique_lem, found) in
      let same = sym known ∙ given in
      let is_hub : judged.0 ≡ h' = ground arith in
      let is_event : stored.1 ≡ e = ground arith in
      let table =
        events-evaluate_event now (rule_agent a) dto.type stored.1.id stored.0
        ∙ db.create_lem stored.1 active.events
        ∙ ap (λ es. es ++ stored.1 ∷ []) (events-record_activity db cfg now a h) in
      let agents =
        agents-evaluate_event now (rule_agent a) dto.type stored.1.id stored.0
        ∙ agents-record_activity db cfg now a h in
      let row =
        find-update (λ (r : Agent). r.id == dto.agent_id) (λ r. r.id == a.id) (seen_row now)
          h.agents (λ r. ground arith) in
      (
        rw (← is_hub, ← is_event) table,
        rw (← is_event) is_id,
        rw (← is_event) refl,
        a,
        found,
        seen_row now a,
        rw (← is_hub, agents) (row ∙ rw found (ground (arith, ==_refl a.id))),
        refl,
        refl,
      )

  -- An event that is accepted is of an agent that was registered before; it is added to the table
  -- under that agent, with its type, whether or not it raises an alert, and the agent's row is then
  -- online and seen now.
  pub ingest_lem :
      (now : ℕ) (dto : CreateEventRequest) (h h' : Hub) (e : Event) (alert : Option Alert)
      → ingest db cfg now dto h ≡ ok (h', e, alert)
      → Ingested now dto h h' e
  unfolding ingest
  ingest_lem now dto h h' e alert given =
      elim (Option-cases (find (λ (a : Agent). a.id == dto.agent_id) h.agents)) [
        | inl unknown ↦ absurd (
            ground
              (arith, unknown, db.find_unique_lem (λ (a : Agent). a.id == dto.agent_id) h.agents))
        | inr (a, found) ↦ ingest_known now dto h h' e alert a found given
      ]
