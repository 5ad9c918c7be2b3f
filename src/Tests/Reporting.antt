-- ===== src/Tests/Reporting.antt =====
-- Agents that enroll, report and come back.
use text.Mathlib.Text.{starts_with}
use project.Agents.Enrollment.{IsEnrolled, register_lem}
use project.Agents.Recovery.{record_activity_recovers}
use project.Agents.Service.{
  Enrollment, RegisterRequest, browser_camera_id_prefix, enroll, record_activity, register,
}
use project.Alerts.Service.{evaluate_event, is_open_offline}
use project.Base.{
  Option, String, [], any, concat, eq_option, eq_string, eq_ℕ, false, find, none, refl, some, ◌==◌,
  ◌∷◌, ◌≡◌,
}
use project.Contracts.Modes.{door_opened, motion, offline}
use project.Events.{CreateEventRequest, ingest, store_event}
use project.Events.Ingest.{Ingested, ingest_lem}
use project.Hub.{Agent, Alert, Event, Hub}
use project.Security.Tokens.{mint_agent_token}
use project.Tests.Database.{list_db}
use project.Tests.Samples.{front_agent, front_door, quiet_hub, settings}

abbrev lost_agent : Agent
lost_agent = record front_agent { status = offline }

record_activity_recovers_example :
    any
      (is_open_offline "door-01")
      (record_activity list_db settings 50000 lost_agent quiet_hub).0.alerts
    ≡ false
record_activity_recovers_example =
    record_activity_recovers list_db settings 50000 lost_agent quiet_hub refl

abbrev opening : CreateEventRequest
opening = record { agent_id = "door-01"; type = door_opened; occurred_at = 49000; metadata = none }

abbrev stored_opening : Hub × Event
stored_opening =
    store_event list_db settings 50000 front_agent opening
      (record_activity list_db settings 50000 front_agent quiet_hub).0

abbrev judged_opening : Hub × Option Alert
judged_opening =
    evaluate_event list_db settings 50000 front_door door_opened stored_opening.1.id
      stored_opening.0

ingest_lem_example :
    Ingested list_db settings 50000 opening quiet_hub judged_opening.0 stored_opening.1
unfolding ingest find
ingest_lem_example =
    ingest_lem list_db settings 50000 opening quiet_hub judged_opening.0 stored_opening.1
      judged_opening.1 refl

abbrev marked : String → String
marked s = concat ("hash of " ∷ s ∷ [])

abbrev hall : RegisterRequest
hall = record {
  id = "motion-01";
  type = motion;
  location = "Hall";
  version = none;
  capabilities = none;
}

abbrev enrolled : Hub × Enrollment
enrolled = enroll list_db settings 50000 (mint_agent_token marked "r") hall quiet_hub

register_lem_example :
    (starts_with "motion-01" browser_camera_id_prefix ≡ false)
    × (a : Agent) × (find (λ r. r.id == "motion-01") enrolled.0.agents ≡ some a)
    × IsEnrolled list_db settings marked 50000 hall enrolled.1.token a
unfolding register
register_lem_example =
    register_lem list_db settings 50000 marked "r" hall quiet_hub enrolled.0 enrolled.1 refl
