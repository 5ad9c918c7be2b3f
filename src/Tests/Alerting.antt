-- ===== src/Tests/Alerting.antt =====
-- Alerts, and the mode they depend on.
use project.Alerts.Rules.{RuleOutcome, evaluate}
use project.Alerts.Table.{Reports, Triggers, evaluate_iff}
use project.Base.{◌↔◌}
use project.Contracts.Modes.{critical, door_opened, home, intrusion_door, warning}
use project.Tests.Samples.{front_door}

abbrev door_outcome : RuleOutcome
door_outcome = record { type = intrusion_door; severity = critical; message = "Door opened" }

evaluate_iff_example :
    Reports (evaluate door_opened home front_door) intrusion_door warning
    ↔ Triggers door_opened home intrusion_door warning
evaluate_iff_example = evaluate_iff door_opened home front_door intrusion_door warning
