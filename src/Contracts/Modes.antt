-- ===== src/Contracts/Modes.antt =====
-- packages/contracts/src: mode.ts, alert.ts, event.ts and agent.ts, the enums of the wire format.
use project.Base.{Bool, Eq, arith, false, nat_eq, true, ℕ, ◌↔◌, ◌≡◌}

pub data SystemMode : Type 0 where
  disarmed home away : SystemMode

abbrev pub mode_index : SystemMode → ℕ
mode_index disarmed = 0
mode_index home = 1
mode_index away = 2

pub mode_index_iff : (a b : SystemMode) → (nat_eq (mode_index a) (mode_index b) ≡ true) ↔ (a ≡ b)
mode_index_iff a b = ground arith

instance abbrev pub eq_mode : Eq SystemMode
eq_mode = record { same = λ a b. nat_eq (mode_index a) (mode_index b); same_iff = mode_index_iff }

pub data EventType : Type 0 where
  motion_detected door_opened door_closed camera_motion : EventType

abbrev pub event_type_index : EventType → ℕ
event_type_index motion_detected = 0
event_type_index door_opened = 1
event_type_index door_closed = 2
event_type_index camera_motion = 3

pub event_type_index_iff :
    (a b : EventType) → (nat_eq (event_type_index a) (event_type_index b) ≡ true) ↔ (a ≡ b)
event_type_index_iff a b = ground arith

instance abbrev pub eq_event_type : Eq EventType
eq_event_type = record {
  same = λ a b. nat_eq (event_type_index a) (event_type_index b);
  same_iff = event_type_index_iff;
}

pub data AlertType : Type 0 where
  intrusion_motion intrusion_door camera_motion agent_offline agent_recovered : AlertType

abbrev pub alert_type_index : AlertType → ℕ
alert_type_index intrusion_motion = 0
alert_type_index intrusion_door = 1
alert_type_index camera_motion = 2
alert_type_index agent_offline = 3
alert_type_index agent_recovered = 4

pub alert_type_index_iff :
    (a b : AlertType) → (nat_eq (alert_type_index a) (alert_type_index b) ≡ true) ↔ (a ≡ b)
alert_type_index_iff a b = ground arith

instance abbrev pub eq_alert_type : Eq AlertType
eq_alert_type = record {
  same = λ a b. nat_eq (alert_type_index a) (alert_type_index b);
  same_iff = alert_type_index_iff;
}

pub data AlertSeverity : Type 0 where
  info warning critical : AlertSeverity

abbrev pub severity_index : AlertSeverity → ℕ
severity_index info = 0
severity_index warning = 1
severity_index critical = 2

pub severity_index_iff :
    (a b : AlertSeverity) → (nat_eq (severity_index a) (severity_index b) ≡ true) ↔ (a ≡ b)
severity_index_iff a b = ground arith

instance abbrev pub eq_severity : Eq AlertSeverity
eq_severity = record {
  same = λ a b. nat_eq (severity_index a) (severity_index b);
  same_iff = severity_index_iff;
}

pub data AgentType : Type 0 where
  motion door camera : AgentType

pub data AgentStatus : Type 0 where
  online offline : AgentStatus

abbrev pub is_online : AgentStatus → Bool
is_online online = true
is_online offline = false

pub data AgentOrigin : Type 0 where
  device browser : AgentOrigin

abbrev pub is_device : AgentOrigin → Bool
is_device device = true
is_device browser = false
