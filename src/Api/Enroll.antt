-- ===== src/Api/Enroll.antt =====
-- hub/src/agents/agents.controller.ts and hub/src/cameras/browser-cameras.controller.ts: the routes
-- that hand out and take back credentials. `hash` stands for SHA-256, `random` and `suffix` for the
-- random texts that the platform draws.
use project.Agents.Service.{Enrollment, RegisterRequest, register}
use project.Api.Cameras.{the_camera}
use project.Api.Mode.{Desk}
use project.Api.Trail.{
  AuthenticatedRequest, Detail, Target, agent_detail, audit_row, browser_detail, entry, no_detail,
}
use project.Audit.{
  AuditAction, AuditOutcome, agent_enrolled, agent_token_rotated, browser_camera_provisioned,
  browser_camera_revoked, record_entry,
}
use project.Base.{Bool, Option, String, false, none, some, true, ℕ}
use project.Cameras.Browser.{BrowserSession, create, revoke}
use project.Db.{Prisma}
use project.Http.{Result, ok, ◌>>=◌}
use project.Settings.{Settings}

abbrev pub the_agent : String → Target
the_agent id = record { type = "agent"; id = some id }

abbrev pub rotation : Bool → AuditAction
rotation true = agent_token_rotated
rotation false = agent_enrolled

module _ (db : Prisma) (cfg : Settings) (hash : String → String) (json : Detail → String) where
  unfoldable pub register_route :
      ℕ
      → (random : String) → AuthenticatedRequest
      → RegisterRequest
      → Desk
      → Result (Desk × Enrollment)
  unfolding register record_entry audit_row
  register_route now random request dto p = do
    (h, result) ← register db cfg now hash random dto p.hub
    ok (
      record {
        hub = h;
        audit =
            record_entry now
              (entry
                (audit_row json now request (rotation result.rotated) AuditOutcome.allowed none
                  (the_agent dto.id) (agent_detail dto.type dto.location dto.version))
                none)
              p.audit;
      },
      result,
    )

  unfoldable pub provision_route :
      ℕ
      → (suffix : String) → (random : String) → AuthenticatedRequest
      → String
      → Option String
      → Desk
      → Result (Desk × BrowserSession)
  unfolding create record_entry audit_row
  provision_route now suffix random request location label p = do
    (agents, session) ← create db hash now suffix random location label p.hub.agents
    ok (
      record {
        hub = record p.hub { agents = agents };
        audit =
            record_entry now
              (entry
                (audit_row json now request browser_camera_provisioned AuditOutcome.allowed none
                  (the_camera session.agent_id) (browser_detail location label session.expires_at))
                none)
              p.audit;
      },
      session,
    )

  unfoldable pub revoke_route : ℕ → AuthenticatedRequest → String → Desk → Result Desk
  unfolding revoke record_entry audit_row
  revoke_route now request id p = do
    agents ← revoke db hash id p.hub.agents
    ok (record {
      hub = record p.hub { agents = agents };
      audit =
          record_entry now
            (entry
              (audit_row json now request browser_camera_revoked AuditOutcome.allowed none
                (the_camera id) no_detail)
              none)
            p.audit;
    })
