-- ===== src/Api/Access.antt =====
-- Who may watch, and who may put a mode on a timer.
use project.Api.Cameras.{Booth, assert_may_watch, is_camera, may_watch, ticket_route}
use project.Api.Trail.{AuthenticatedRequest, Detail}
use project.Audit.{AuditActor}
use project.Base.{
  List, Option, String, ap, arith, eq_option, eq_string, eq_ℕ, find, leb, none, some, sym, true, ℕ,
  ◌&&◌, ◌+◌, ◌==◌, ◌∙◌, ◌≡◌,
}
use project.Cameras.FrameStore.{redeem_ticket, ticket_ttl_ms}
use project.Cameras.StoreLaws.{redeem-issue}
use project.Contracts.Auth.{zone_allows}
use project.Contracts.Modes.{eq_alert_type}
use project.Db.{Prisma}
use project.Http.{>>=-eq-ok, ok, ok-injective}
use project.Hub.{Agent}
use project.Security.Credential.{Identity}
use project.Security.Policy.{can_access_location}

module _ (db : Prisma) (lower : String → String) where
  -- A camera in the caller's zones.
  pub record IsWatchable (identity : Identity) (id : String) (agents : List Agent) : Type 0 where
    pub agent : Agent
    pub found : find (λ a. a.id == id) agents ≡ some agent
    pub is_camera : is_camera agent.type ≡ true
    pub in_zone : zone_allows lower identity.zones agent.location ≡ true

  may_watch-IsWatchable :
      (identity : Identity) (id : String) (agents : List Agent) (o : Option Agent) (a : Agent)
      → find (λ r. r.id == id) agents ≡ o
      → may_watch db lower identity o ≡ ok a
      → IsWatchable identity id agents
  unfolding may_watch can_access_location
  may_watch-IsWatchable identity id agents none a f e = absurd (ground arith)
  may_watch-IsWatchable identity id agents (some b) a f e = record {
    agent = b;
    found = f;
    is_camera = ground arith;
    in_zone = ground arith;
  }

  assert_may_watch-IsWatchable :
      (identity : Identity) (id : String) (agents : List Agent) (a : Agent)
      → assert_may_watch db lower identity id agents ≡ ok a
      → IsWatchable identity id agents
  unfolding assert_may_watch
  assert_may_watch-IsWatchable identity id agents a e =
      may_watch-IsWatchable identity id agents _ a (sym (db.find_unique_lem _ agents)) e

  module _ (json : Detail → String) (actor_name : AuditActor → String) where
    -- A ticket is issued only for a camera in the caller's zones; it opens that camera and no other,
    -- for its lifetime of half a minute; and the hub's tables are as they were.
    pub ticket_route_lem :
        (now later : ℕ) (issued : String) (request : AuthenticatedRequest) (id asked : String)
        (p p' : Booth) (t : String)
        → ticket_route db lower json actor_name now issued request id p ≡ ok (p', t)
        → IsWatchable request.identity id p.hub.agents
          × ((redeem_ticket later t asked p'.frames).1
              ≡ (leb later (now + ticket_ttl_ms) && id == asked))
          × (p'.hub ≡ p.hub)
    unfolding ticket_route
    ticket_route_lem now later issued request id asked p p' t e =
        let (a, watched, rest) =
          >>=-eq-ok (assert_may_watch db lower request.identity id p.hub.agents) _ (p', t) e in
        let same = ok-injective _ (p', t) rest in
        (
          assert_may_watch-IsWatchable request.identity id p.hub.agents a watched,
          ap (λ q. (redeem_ticket later q.1 asked q.0.frames).1) (sym same)
              ∙ redeem-issue now later issued id asked p.frames,
          ap (λ q. q.0.hub) (sym same),
        )
