-- ===== src/Mqtt.antt =====
-- hub/src/mqtt/mqtt-ingest.service.ts: one message of the broker, routed to the services that the
-- REST controllers use. The broker's client and the logging are not modelled.
pub mod Topic
pub mod Admission
pub mod Transport
use project.Agents.Service.{record_activity}
use project.Base.{
  List, Option, String, eq_option, eq_string, eq_ℕ, if◌then◌else◌, none, not, some, ℕ, ◌==◌,
}
use project.Contracts.Auth.{AuthRole, eq_role}
use project.Contracts.Modes.{EventType, camera_motion, door_closed, door_opened, motion_detected}
use project.Db.{Prisma}
use project.Events.{ingest}
use project.Http.{Result, err, ok, ◌>>=◌}
use project.Hub.{Agent, Alert, Event, Hub}
use project.Maintenance.RollUpWindow.{found}
use project.Mqtt.Topic.{TopicKind, event_topic, heartbeat_topic, match_topic}
use project.Security.Credential.{AuthKeys, Identity, resolve}
use project.Settings.{Settings}

-- What `JSON.parse` makes of a payload that is JSON: `null`, or a value, of which the fields that the
-- handler reads: the token, the type and the date where they are texts, the metadata as its JSON
-- text where it is not null.
pub data Body : Type 0 where
  null_body : Body
  fields : (token type occurred_at metadata : Option String) → Body

-- How a message ended: dropped with a log line, carried out, or an exception that `onModuleInit` logs.
pub data MessageOutcome : Type 0 where
  dropped done raised : MessageOutcome

-- The wire spelling, as `Object.values(EventType).includes` reads it.
unfoldable pub event_type_of : String → Option EventType
event_type_of s =
    if s == "motion_detected"
    then some motion_detected
    else if s == "door_opened"
    then some door_opened
    else if s == "door_closed"
    then some door_closed
    else if s == "camera_motion"
    then some camera_motion
    else none

-- The token proves to be that of the agent in the topic.
abbrev pub as_topic_agent : String → Option Identity → Option Identity
as_topic_agent id none = none
as_topic_agent id (some i) =
    if not (i.role == AuthRole.agent)
    then none
    else if not (i.agent_id == some id)
    then none
    else some i

module _ (db : Prisma) (hash : String → String) (keys : AuthKeys) where
  unfoldable pub authenticate : ℕ → String → Option String → List Agent → Result (Option Identity)
  authenticate now id none agents = ok none
  authenticate now id (some token) agents =
      if token == ""
      then ok none
      else do found ← resolve db hash keys now token agents; ok (as_topic_agent id found)

-- Without a text for it, an event occurred when its message is handled.
abbrev pub occurred : (parse_date : String → Option ℕ) → ℕ → Option String → Option ℕ
occurred parse_date now none = some now
occurred parse_date now (some t) = parse_date t

abbrev pub type_of : Option String → Option EventType
type_of none = none
type_of (some s) = event_type_of s

unfoldable pub finished : Hub → Result (Hub × Event × Option Alert) → Hub × MessageOutcome
finished h (ok r) = (r.0, done)
finished h (err e) = (h, raised)

unfoldable pub admitted :
    Result (Option Identity) → Hub → Hub × MessageOutcome → Hub × MessageOutcome
admitted (err e) h performed = (h, raised)
admitted (ok none) h performed = (h, dropped)
admitted (ok (some i)) h performed = performed

module _ (db : Prisma) (cfg : Settings) where
  -- `new Date` of a text that is no date makes the insertion fail, once the activity is recorded.
  unfoldable pub ingest_at :
      ℕ → Agent → EventType → Option ℕ → String → Option String → Hub → Hub × MessageOutcome
  unfolding finished
  ingest_at now a type none id metadata h = ((record_activity db cfg now a h).0, raised)
  ingest_at now a type (some at) id metadata h = finished h (
      ingest db cfg now
        (record { agent_id = id; type = type; occurred_at = at; metadata = metadata }) h)

  -- The message of a proven agent, with its type and its date read.
  unfoldable pub perform :
      ℕ
      → String
      → TopicKind
      → Option EventType
      → Option ℕ
      → Option String
      → Option Agent
      → Hub
      → Hub × MessageOutcome
  unfolding ingest_at
  perform now id kind type at metadata none h = (h, dropped)
  perform now id heartbeat_topic type at metadata (some a) h =
      ((record_activity db cfg now a h).0, done)
  perform now id event_topic none at metadata (some a) h = (h, dropped)
  perform now id event_topic (some type) at metadata (some a) h =
      ingest_at now a type at id metadata h

module _ (db : Prisma) (cfg : Settings) (hash : String → String) (keys : AuthKeys)
    (parse : String → Option Body) (parse_date : String → Option ℕ) where
  unfoldable pub handle_body : ℕ → String → TopicKind → Option Body → Hub → Hub × MessageOutcome
  unfolding admitted perform authenticate event_type_of
  handle_body now id kind none h = (h, dropped)
  handle_body now id kind (some null_body) h = (h, raised)
  handle_body now id kind (some (fields token type occurred_at metadata)) h =
      admitted (authenticate db hash keys now id token h.agents) h (
        perform db cfg now id kind (type_of type) (occurred parse_date now occurred_at) metadata
          (db.find_unique (λ a. a.id == id) h.agents) h)

  unfoldable pub handle_topic :
      ℕ → Option (String × TopicKind) → String → Hub → Hub × MessageOutcome
  unfolding handle_body
  handle_topic now none payload h = (h, dropped)
  handle_topic now (some topic) payload h = handle_body now topic.0 topic.1 (parse payload) h

  unfoldable pub handle : ℕ → String → String → Hub → Hub × MessageOutcome
  unfolding handle_topic match_topic
  handle now topic payload h = handle_topic now (match_topic topic) payload h
