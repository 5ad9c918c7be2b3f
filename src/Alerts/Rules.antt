-- ===== src/Alerts/Rules.antt =====
-- hub/src/alerts/alert-rules.ts: the decision table, free of state.
use project.Base.{
  Option, String, [], concat, eq_option, eq_string, eq_ℕ, if◌then◌else◌, none, not, some, to_string,
  ℕ, ◌+◌, ◌/◌, ◌==◌, ◌∷◌,
}
use project.Contracts.Modes.{
  AgentType, AlertSeverity, AlertType, EventType, SystemMode, agent_offline, agent_recovered, away,
  camera, critical, disarmed, door, door_closed, door_opened, eq_alert_type, eq_mode, eq_severity,
  home, info, intrusion_door, intrusion_motion, motion, motion_detected, warning,
}

pub record RuleAgent : Type 0 where
  pub id : String
  pub type : AgentType
  pub location : String

pub record RuleOutcome : Type 0 where
  pub type : AlertType
  pub severity : AlertSeverity
  pub message : String

-- The wire spelling of a mode and of an agent type, as a template prints them.
abbrev pub mode_name : SystemMode → String
mode_name disarmed = "disarmed"
mode_name home = "home"
mode_name away = "away"

abbrev agent_type_name : AgentType → String
agent_type_name motion = "motion"
agent_type_name door = "door"
agent_type_name camera = "camera"

abbrev place : RuleAgent → String
place a = concat (a.location ∷ " (" ∷ a.id ∷ ")" ∷ [])

unfoldable pub evaluate : EventType → SystemMode → RuleAgent → Option RuleOutcome
evaluate motion_detected mode agent =
    if not (mode == away)
    then none
    else some (record {
      type = intrusion_motion;
      severity = critical;
      message = concat ("Motion detected at " ∷ place agent ∷ " while system was away" ∷ []);
    })
evaluate EventType.camera_motion mode agent =
    if not (mode == away)
    then none
    else some (record {
      type = AlertType.camera_motion;
      severity = warning;
      message = concat ("Camera motion at " ∷ place agent ∷ " while system was away" ∷ []);
    })
evaluate door_opened mode agent =
    if mode == disarmed
    then none
    else some (record {
      type = intrusion_door;
      severity = if mode == away then critical else warning;
      message =
          concat ("Door opened at " ∷ place agent ∷ " while system was " ∷ mode_name mode ∷ []);
    })
evaluate door_closed mode agent = none

-- `Math.round(ms / 1000)`.
abbrev rounded_seconds : ℕ → ℕ
rounded_seconds ms = (ms + 500) / 1000

unfoldable pub offline_outcome : RuleAgent → SystemMode → ℕ → RuleOutcome
offline_outcome agent mode silent_for_ms = record {
  type = agent_offline;
  severity = if mode == disarmed then warning else critical;
  message = concat (
      agent_type_name agent.type
      ∷ " agent at "
      ∷ agent.location
      ∷ " ("
      ∷ agent.id
      ∷ ") stopped reporting "
      ∷ to_string (rounded_seconds silent_for_ms)
      ∷ "s ago - possible tamper"
      ∷ []);
}

unfoldable pub recovered_outcome : RuleAgent → RuleOutcome
recovered_outcome agent = record {
  type = agent_recovered;
  severity = info;
  message = concat (
      agent_type_name agent.type
      ∷ " agent at "
      ∷ agent.location
      ∷ " ("
      ∷ agent.id
      ∷ ") is reporting again"
      ∷ []);
}
