-- ===== src/Tests/Notifying.antt =====
-- The delivery of an alert.
use project.Base.{Option, String, some, true, ℕ}
use project.Contracts.Modes.{AlertSeverity, warning}
use project.Hub.{Alert}
use project.Notifications.Service.{AlertChannel, NotificationChannel, email}

abbrev broken : ℕ → NotificationChannel → Alert → Option String
broken now channel a = some "timeout"

abbrev mild_text : AlertSeverity → AlertChannel → String
mild_text severity c = "below the threshold"

abbrev mail : AlertChannel
mail = record { name = email; is_configured = true; min_severity = warning }
