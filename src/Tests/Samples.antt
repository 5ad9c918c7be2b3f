-- ===== src/Tests/Samples.antt =====
-- The data of the examples: a door sensor at the front, and an operator's shift.
use project.Alerts.Rules.{RuleAgent}
use project.Alerts.Service.{Links}
use project.Base.{[], false, none, some, ◌∷◌}
use project.Contracts.Modes.{AgentOrigin, away, critical, door, intrusion_door, online}
use project.Hub.{Agent, Alert, Hub}
use project.Settings.{Settings}

abbrev pub settings : Settings
settings = record {
  cooldown_ms = 60000;
  timeout_ms = 30000;
  grace_minutes = 15;
  default_limit = 50;
  max_limit = 200;
  batch_size = 1000;
  max_batches = 10;
  max_attempts = 3;
}

abbrev pub front_door : RuleAgent
front_door = record { id = "door-01"; type = door; location = "Front" }

abbrev pub front_links : Links
front_links = record { agent_id = some "door-01"; event_id = none; location = some "Front" }

abbrev pub front_agent : Agent
front_agent = record {
  id = "door-01";
  type = door;
  location = "Front";
  status = online;
  version = none;
  capabilities = [];
  registered_at = 0;
  token_hash = some "hash of ag_1";
  token_issued_at = some 0;
  token_expires_at = none;
  origin = AgentOrigin.device;
  token_rotations = 0;
  last_seen_at = 0;
}

abbrev pub open_alert : Alert
open_alert = record {
  id = "a1";
  type = intrusion_door;
  severity = critical;
  message = "Door opened";
  agent_id = some "door-01";
  event_id = none;
  mode_at_trigger = away;
  acknowledged = false;
  acknowledged_at = none;
  created_at = 5000;
}

abbrev pub quiet_hub : Hub
quiet_hub = record {
  agents = front_agent ∷ [];
  alerts = [];
  events = [];
  states = record { id = 1; mode = away } ∷ [];
  frames = [];
  notified = [];
}

abbrev pub alarmed_hub : Hub
alarmed_hub = record quiet_hub { alerts = open_alert ∷ [] }
