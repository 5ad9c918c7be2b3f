-- ===== src/Alerts/Table.antt =====
-- The decision table against an independent description, and its order by mode.
use project.Alerts.Rules.{RuleAgent, RuleOutcome, evaluate}
use project.Base.{Option, arith, none, refl, some, ◌↔◌, ◌≡◌, ◌≤◌}
use project.Contracts.Modes.{
  AlertSeverity, AlertType, EventType, SystemMode, away, critical, door_opened, home,
  intrusion_door, intrusion_motion, mode_index, motion_detected, severity_index, warning,
}

-- When an event in a mode is worth an alert, and how severe it is.
pub data Triggers : EventType → SystemMode → AlertType → AlertSeverity → Type 0 where
  motion_while_away : Triggers motion_detected away intrusion_motion critical
  picture_while_away : Triggers EventType.camera_motion away AlertType.camera_motion warning
  door_while_away : Triggers door_opened away intrusion_door critical
  door_while_home : Triggers door_opened home intrusion_door warning

-- The outcome's type and severity are as given.
abbrev pub Reports : Option RuleOutcome → AlertType → AlertSeverity → Type 0
Reports none type severity = ⊥
Reports (some o) type severity = (o.type ≡ type) × (o.severity ≡ severity)

evaluate_complete :
    (a : RuleAgent) {e : EventType} {m : SystemMode} {type : AlertType} {severity : AlertSeverity}
    → Triggers e m type severity
    → Reports (evaluate e m a) type severity
unfolding evaluate
evaluate_complete a motion_while_away = (refl, refl)
evaluate_complete a picture_while_away = (refl, refl)
evaluate_complete a door_while_away = (refl, refl)
evaluate_complete a door_while_home = (refl, refl)

evaluate_sound :
    (e : EventType) (m : SystemMode) (a : RuleAgent) (type : AlertType) (severity : AlertSeverity)
    → Reports (evaluate e m a) type severity
    → Triggers e m type severity
unfolding evaluate
evaluate_sound motion_detected away a type severity h = rw (← h.0, ← h.1) motion_while_away
evaluate_sound EventType.camera_motion away a type severity h = rw (← h.0, ← h.1) picture_while_away
evaluate_sound door_opened away a type severity h = rw (← h.0, ← h.1) door_while_away
evaluate_sound door_opened home a type severity h = rw (← h.0, ← h.1) door_while_home
evaluate_sound _ _ a type severity h = absurd h

-- The rule table raises an alert of a type and severity exactly when the event, in that mode, is one
-- of the four cases that trigger it: motion and camera motion only while away, a door in home and
-- away.
pub evaluate_iff :
    (e : EventType) (m : SystemMode) (a : RuleAgent) (type : AlertType) (severity : AlertSeverity)
    → Reports (evaluate e m a) type severity ↔ Triggers e m type severity
evaluate_iff e m a type severity = (evaluate_sound e m a type severity, evaluate_complete a)

Triggers-mono :
    {e : EventType} {m : SystemMode} (n : SystemMode) {type : AlertType} {severity : AlertSeverity}
    → mode_index m ≤ mode_index n
    → Triggers e m type severity
    → (severity' : AlertSeverity) × Triggers e n type severity'
      × (severity_index severity ≤ severity_index severity')
Triggers-mono away h motion_while_away = (critical, motion_while_away, omega arith)
Triggers-mono away h picture_while_away = (warning, picture_while_away, omega arith)
Triggers-mono away h door_while_away = (critical, door_while_away, omega arith)
Triggers-mono away h door_while_home = (critical, door_while_away, omega arith)
Triggers-mono home h door_while_home = (warning, door_while_home, omega arith)
Triggers-mono _ h motion_while_away = absurd (omega arith)
Triggers-mono _ h picture_while_away = absurd (omega arith)
Triggers-mono _ h door_while_away = absurd (omega arith)
Triggers-mono _ h door_while_home = absurd (omega arith)

-- Arming further never silences an event: what alerts in a mode alerts with the same type, and at
-- least the severity, in every mode that protects more.
evaluate_mono :
    (e : EventType) (m n : SystemMode) (a : RuleAgent) (type : AlertType) (severity : AlertSeverity)
    → mode_index m ≤ mode_index n
    → Reports (evaluate e m a) type severity
    → (severity' : AlertSeverity) × Reports (evaluate e n a) type severity'
      × (severity_index severity ≤ severity_index severity')
evaluate_mono e m n a type severity h r =
    let (severity', t, le) = Triggers-mono n h (evaluate_sound e m a type severity r) in
    (severity', evaluate_complete a t, le)
