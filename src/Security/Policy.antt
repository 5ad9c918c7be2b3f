-- ===== src/Security/Policy.antt =====
-- hub/src/common/security/policy.service.ts: the rules that depend on the state of the hub.
use project.Alerts.Rules.{mode_name}
use project.Base.{
  Bool, List, Option, String, [], concat, eq_option, eq_string, eq_ℕ, false, if◌then◌else◌, none,
  not, some, to_string, ℕ, ◌&&◌, ◌==◌, ◌∷◌,
}
use project.Contracts.Auth.{
  AuthRole, Permission, PolicyDecision, admin, alerts_ack, allow, eq_permission, eq_role, includes,
  operator, schedules_write, system_arm, system_disarm, zone_allows,
}
use project.Contracts.Modes.{SystemMode, critical, disarmed, eq_mode, eq_severity}
use project.Db.{Prisma}
use project.Hub.{Agent, Alert}
use project.Security.Credential.{Identity}

abbrev pub refuse : String → Option AuthRole → PolicyDecision
refuse reason role = record { allowed = false; reason = some reason; requires_role = role }

-- `severity: 'critical', acknowledged: false`.
unfoldable pub is_open_critical : Alert → Bool
is_open_critical a = a.severity == critical && not a.acknowledged

abbrev plural : ℕ → String
plural n = if n == 1 then "" else "s"

abbrev pub incident_reason : ℕ → String
incident_reason open_alerts = concat (
    to_string open_alerts
    ∷ " critical alert"
    ∷ plural open_alerts
    ∷ " still unacknowledged. "
    ∷ "Acknowledge them first, or ask an admin to override — disarming now would "
    ∷ "silence an active incident."
    ∷ [])

abbrev held_reason : ℕ → String
held_reason open_alerts = concat (
    "Scheduled disarm held: "
    ∷ to_string open_alerts
    ∷ " critical alert"
    ∷ plural open_alerts
    ∷ " still "
    ∷ "unacknowledged. A schedule may not be what silences an active incident."
    ∷ [])

module _ (db : Prisma) where
  unfoldable pub can_set_mode : Identity → SystemMode → List Alert → PolicyDecision
  unfolding is_open_critical
  can_set_mode identity target alerts =
      let open_alerts = db.count_rows is_open_critical alerts in
      if not (includes identity.permissions system_disarm) && target == disarmed
      then refuse "This credential cannot disarm the system." (some operator)
      else if not (includes identity.permissions system_arm) && not (target == disarmed)
      then refuse "This credential cannot arm the system." (some operator)
      else if not (target == disarmed)
      then allow
      else if identity.role == admin
      then allow
      else if open_alerts == 0
      then allow
      else refuse (incident_reason open_alerts) (some admin)

  unfoldable pub can_schedule_set_mode : SystemMode → List Alert → PolicyDecision
  unfolding is_open_critical
  can_schedule_set_mode target alerts =
      let open_alerts = db.count_rows is_open_critical alerts in
      if not (target == disarmed)
      then allow
      else if open_alerts == 0
      then allow
      else refuse (held_reason open_alerts) (some admin)

-- The permission that a mode exercises.
abbrev pub needed_for : SystemMode → Permission
needed_for mode = if mode == disarmed then system_disarm else system_arm

-- A permission's wire spelling, where `canManageSchedule` prints it.
abbrev needed_name : SystemMode → String
needed_name mode = if mode == disarmed then "system:disarm" else "system:arm"

unfoldable pub can_manage_schedule : Identity → SystemMode → PolicyDecision
can_manage_schedule identity mode =
    if not (includes identity.permissions schedules_write)
    then refuse "This credential cannot manage schedules." (some operator)
    else if not (includes identity.permissions (needed_for mode))
    then refuse
        (concat (
          "A schedule that sets \""
          ∷ mode_name mode
          ∷ "\" requires "
          ∷ needed_name mode
          ∷ ", which this credential "
          ∷ "does not have. A schedule cannot grant a permission its author lacks."
          ∷ []))
        (some operator)
    else allow

-- `xs.join(', ')`.
unfoldable pub join : List String → String
join [] = ""
join (s ∷ []) = s
join (s ∷ t ∷ ss) = concat (s ∷ ", " ∷ join (t ∷ ss) ∷ [])

module _ (lower : String → String) where
  unfoldable pub can_access_location : Identity → String → PolicyDecision
  unfolding join
  can_access_location identity location =
      if zone_allows lower identity.zones location
      then allow
      else refuse (concat ("This credential is limited to: " ∷ join identity.zones ∷ "." ∷ [])) none

  -- The location of an alert's agent, by the relation; `none` is a system-level or unknown alert.
  abbrev agent_of : Prisma → List Agent → Option Alert → Option Agent
  agent_of db agents none = none
  agent_of db agents (some a) = elim a.agent_id [
    | none ↦ none
    | some id ↦ db.find_unique (λ r. r.id == id) agents
  ]

  in_zone : Identity → Option Agent → PolicyDecision
  in_zone identity none = refuse "This alert is not scoped to your zones." none
  in_zone identity (some a) = can_access_location identity a.location

  unfoldable pub can_acknowledge_alert :
      (db : Prisma) → Identity → String → List Agent → List Alert → PolicyDecision
  unfolding in_zone can_access_location
  can_acknowledge_alert db identity alert_id agents alerts =
      if not (includes identity.permissions alerts_ack)
      then refuse "This credential cannot acknowledge alerts." (some operator)
      else elim identity.zones [
        | [] ↦ allow
        | _ ∷ _ ↦
            in_zone identity (agent_of db agents (db.find_unique (λ r. r.id == alert_id) alerts))
      ]
