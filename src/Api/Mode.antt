-- ===== src/Api/Mode.antt =====
-- hub/src/system/system.controller.ts: reading and changing the mode.
use project.Api.Trail.{AuthenticatedRequest, Detail, Target, audit_row, entry, mode_detail}
use project.Audit.{Audit, AuditOutcome, AuditRow, denied, mode_changed, record_entry}
use project.Base.{String, if◌then◌else◌, none, ℕ}
use project.Contracts.Auth.{PolicyDecision}
use project.Contracts.Modes.{SystemMode}
use project.Db.{Prisma}
use project.Http.{Result, err, forbidden, ok}
use project.Hub.{Hub}
use project.Security.Policy.{can_set_mode}
use project.System.{ModeChange, get_mode, set_mode}

pub record Desk : Type 0 where
  pub hub : Hub
  pub audit : Audit

abbrev pub the_system : Target
the_system = record { type = "system"; id = none }

module _ (db : Prisma) (json : Detail → String) where
  -- The entry of an attempt to change the mode.
  unfoldable pub mode_row :
      ℕ → AuthenticatedRequest → SystemMode → SystemMode → PolicyDecision → AuditRow
  unfolding audit_row
  mode_row now request previous target decision =
      if decision.allowed
      then audit_row json now request mode_changed AuditOutcome.allowed none the_system
          (mode_detail previous target none)
      else audit_row json now request mode_changed denied decision.reason the_system
          (mode_detail previous target decision.requires_role)

  unfoldable pub set_mode_route :
      ℕ → AuthenticatedRequest → SystemMode → Desk → Desk × Result ModeChange
  unfolding mode_row can_set_mode get_mode set_mode record_entry
  set_mode_route now request target p =
      let got = get_mode db p.hub in
      let decision = can_set_mode db request.identity target got.0.alerts in
      let trail =
        record_entry now (entry (mode_row now request got.1 target decision) none) p.audit in
      let done = set_mode db target got.0 in
      if decision.allowed
      then (record { hub = done.0; audit = trail }, ok done.1)
      else (record { hub = got.0; audit = trail }, err forbidden)
