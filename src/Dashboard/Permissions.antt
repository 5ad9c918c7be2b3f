-- ===== src/Dashboard/Permissions.antt =====
-- dashboard/src/lib/permissions.tsx: the mirror of the hub's policy that explains a refusal before
-- the request is sent.
use project.Base.{
  List, Option, String, [], any, concat, eq_option, eq_string, eq_ℕ, if◌then◌else◌, length, ltb,
  none, not, select, some, ℕ, ◌&&◌, ◌==◌, ◌∷◌,
}
use project.Contracts.Auth.{
  PolicyDecision, admin, alerts_ack, allow, eq_permission, eq_role, includes, operator, system_arm,
  system_disarm,
}
use project.Contracts.Modes.{SystemMode, critical, disarmed, eq_mode, eq_severity}
use project.Hub.{Alert}
use project.Security.Credential.{Identity}
use project.Security.Policy.{incident_reason, join, refuse}

-- `alerts.filter(...).length`.
unfoldable pub open_critical : List Alert → ℕ
open_critical alerts = length (select (λ a. a.severity == critical && not a.acknowledged) alerts)

unfoldable pub evaluate_mode_change : Identity → SystemMode → List Alert → PolicyDecision
unfolding open_critical
evaluate_mode_change identity target alerts =
    let open_alerts = open_critical alerts in
    if target == disarmed
    then (if not (includes identity.permissions system_disarm)
        then refuse "This credential cannot disarm the system." (some operator)
        else if not (identity.role == admin)
        then (if ltb 0 open_alerts
            then refuse (incident_reason open_alerts) (some admin)
            else allow)
        else allow)
    else if not (includes identity.permissions system_arm)
    then refuse "This credential cannot arm the system." (some operator)
    else allow

-- A location that is unknown or empty is no reason to refuse.
in_zones : (lower : String → String) → List String → Option String → PolicyDecision
in_zones lower zones none = allow
in_zones lower zones (some location) =
    if location == ""
    then allow
    else if any (λ zone. lower zone == lower location) zones
    then allow
    else refuse (concat ("Outside your zones (" ∷ join zones ∷ ")." ∷ [])) none

abbrev location_of_agent : (String → Option String) → Option String → Option String
location_of_agent location_of none = none
location_of_agent location_of (some id) = if id == "" then none else location_of id

-- `canAcknowledgeAlert`; `lower` stands for `toLowerCase`.
unfoldable pub can_acknowledge :
    (lower : String → String) → Identity → Alert → (String → Option String) → PolicyDecision
unfolding in_zones
can_acknowledge lower identity alert location_of =
    if not (includes identity.permissions alerts_ack)
    then refuse "This credential cannot acknowledge alerts." (some operator)
    else elim identity.zones [
      | [] ↦ allow
      | z ∷ zones ↦ in_zones lower (z ∷ zones) (location_of_agent location_of alert.agent_id)
    ]
