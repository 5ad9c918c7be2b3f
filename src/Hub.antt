-- ===== src/Hub.antt =====
-- The hub's state: the tables of hub/prisma/schema.prisma that ingestion, alerting and liveness
-- share, the singleton mode row, and what the hub has sent out, oldest first.
use project.Base.{Bool, List, Option, String, ℕ}
use project.Contracts.Modes.{
  AgentOrigin, AgentStatus, AgentType, AlertSeverity, AlertType, EventType, SystemMode,
}

-- Times are milliseconds since the epoch; a wire view differs from its row only in that it prints
-- them as ISO strings, so the rows stand for the views too.
pub record Alert : Type 0 where
  pub id : String
  pub type : AlertType
  pub severity : AlertSeverity
  pub message : String
  pub agent_id : Option String
  pub event_id : Option String
  pub mode_at_trigger : SystemMode
  pub acknowledged : Bool
  pub acknowledged_at : Option ℕ
  pub created_at : ℕ

pub record Agent : Type 0 where
  pub id : String
  pub type : AgentType
  pub location : String
  pub status : AgentStatus
  pub version : Option String
  pub capabilities : List String
  pub registered_at : ℕ
  pub token_hash : Option String
  pub token_issued_at : Option ℕ
  pub token_expires_at : Option ℕ
  pub origin : AgentOrigin
  pub token_rotations : ℕ
  pub last_seen_at : ℕ

pub record Event : Type 0 where
  pub id : String
  pub agent_id : String
  pub type : EventType
  pub metadata : String
  pub occurred_at : ℕ
  pub created_at : ℕ

pub record SystemState : Type 0 where
  pub id : ℕ
  pub mode : SystemMode

-- A frame on the WebSocket, with the location that drives its zone fan-out.
pub data Frame : Type 0 where
  alert_frame : Alert → Option String → Frame
  agent_frame : Agent → Frame
  event_frame : Event → String → Frame
  mode_frame : SystemMode → Frame

pub record Hub : Type 0 where
  pub agents : List Agent
  pub alerts : List Alert
  pub events : List Event
  pub states : List SystemState
  pub frames : List Frame
  -- The alerts handed to the notification dispatcher.
  pub notified : List Alert
