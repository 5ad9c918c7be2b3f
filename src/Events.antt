-- ===== src/Events.antt =====
-- hub/src/events/events.service.ts: ingestion of one sensor observation.
pub mod Ingest
use project.Agents.Service.{record_activity, rule_agent}
use project.Alerts.Service.{evaluate_event}
use project.Base.{Option, String, [], eq_option, eq_string, eq_ℕ, none, some, ℕ, ◌++◌, ◌==◌, ◌∷◌}
use project.Contracts.Modes.{EventType, eq_alert_type}
use project.Db.{Prisma}
use project.Http.{Result, err, not_found, ok}
use project.Hub.{Agent, Alert, Event, Hub, event_frame}
use project.Settings.{Settings}

-- `CreateEventRequest`; the metadata is its JSON text.
pub record CreateEventRequest : Type 0 where
  pub agent_id : String
  pub type : EventType
  pub occurred_at : ℕ
  pub metadata : Option String

abbrev metadata_or_empty : Option String → String
metadata_or_empty none = "{}"
metadata_or_empty (some m) = m

unfoldable pub new_event : String → ℕ → String → CreateEventRequest → Event
new_event id now agent_id dto = record {
  id = id;
  agent_id = agent_id;
  type = dto.type;
  metadata = metadata_or_empty dto.metadata;
  occurred_at = dto.occurred_at;
  created_at = now;
}

module _ (db : Prisma) (cfg : Settings) where
  -- Store and broadcast the event of a known agent.
  unfoldable pub store_event : ℕ → Agent → CreateEventRequest → Hub → Hub × Event
  unfolding new_event
  store_event now a dto h =
      let created = new_event (db.uuid (λ r. r.id) h.events) now a.id dto in
      (
        record h {
          events = db.create created h.events;
          frames = h.frames ++ event_frame created a.location ∷ [];
        },
        created,
      )

  unfoldable pub ingest_found :
      ℕ → CreateEventRequest → Hub → Option Agent → Result (Hub × Event × Option Alert)
  ingest_found now dto h none = err not_found
  ingest_found now dto h (some a) =
      let active = (record_activity db cfg now a h).0 in
      let stored = store_event now a dto active in
      let judged = evaluate_event db cfg now (rule_agent a) dto.type stored.1.id stored.0 in
      ok (judged.0, stored.1, judged.1)

  unfoldable pub ingest : ℕ → CreateEventRequest → Hub → Result (Hub × Event × Option Alert)
  unfolding ingest_found
  ingest now dto h = ingest_found now dto h (db.find_unique (λ r. r.id == dto.agent_id) h.agents)
