-- ===== src/Api/Cameras.antt =====
-- hub/src/cameras/cameras.controller.ts and browser-cameras.controller.ts: the camera routes but the
-- stream. `issued`, `suffix` and `random` are the random texts that the platform draws; headers are
-- left out.
use project.Api.Trail.{
  AuthenticatedRequest, Detail, Target, actor_from_request, audit_row, entry, no_detail,
}
use project.Audit.{Audit, AuditActor, AuditOutcome, camera_viewed, record_entry}
use project.Base.{
  Bool, List, Option, String, [], concat, eq_option, eq_string, eq_ℕ, false, if◌then◌else◌, length,
  ltb, none, not, some, true, ℕ, ◌&&◌, ◌==◌, ◌∷◌,
}
use project.Cameras.FrameStore.{FrameStore, StoredFrame, get, issue_ticket, put}
use project.Cameras.Jpeg.{Size, read_jpeg_size}
use project.Contracts.Modes.{AgentType, eq_alert_type}
use project.Db.{Prisma}
use project.Http.{Result, bad_request, err, forbidden, internal, not_found, ok, ◌>>=◌}
use project.Hub.{Agent, Hub}
use project.Security.Credential.{Identity}
use project.Security.Policy.{can_access_location}

-- `MAX_FRAME_BYTES`.
abbrev pub max_frame_bytes : ℕ
max_frame_bytes = 2097152

-- The hub, the frame store and the audit trail.
pub record Booth : Type 0 where
  pub hub : Hub
  pub frames : FrameStore
  pub audit : Audit

abbrev is_jpeg : List ℕ → Bool
is_jpeg (b0 ∷ b1 ∷ bytes) = b0 == 255 && b1 == 216
is_jpeg _ = false

abbrev sized : Option Size → Result Size
sized none = err internal
sized (some size) = ok size

-- `POST :id/frame`.
unfoldable pub ingest_frame : ℕ → String → List ℕ → FrameStore → Result FrameStore
unfolding put read_jpeg_size
ingest_frame now id body st =
    if length body == 0
    then err bad_request
    else if ltb max_frame_bytes (length body)
    then err bad_request
    else if not (is_jpeg body)
    then err bad_request
    else (sized (read_jpeg_size body) >>= λ size. ok (put now id body size st))

abbrev pub is_camera : AgentType → Bool
is_camera AgentType.camera = true
is_camera _ = false

abbrev pub the_camera : String → Target
the_camera id = record { type = "camera"; id = some id }

abbrev or_blank : Option String → String
or_blank none = ""
or_blank (some s) = s

-- The dedupe key; `actor_name` is an actor's wire spelling.
unfoldable pub viewing_key : (AuditActor → String) → AuthenticatedRequest → String → String
unfolding actor_from_request
viewing_key actor_name request id =
    let who = actor_from_request request in
    concat (
      "camera:"
      ∷ id
      ∷ ":"
      ∷ actor_name who.actor
      ∷ ":"
      ∷ or_blank who.actor_label
      ∷ ":"
      ∷ or_blank who.ip
      ∷ [])

module _ (db : Prisma) (lower : String → String) where
  unfoldable pub may_watch : Identity → Option Agent → Result Agent
  may_watch identity none = err not_found
  may_watch identity (some a) =
      if not (is_camera a.type)
      then err not_found
      else if (can_access_location lower identity a.location).allowed
      then ok a
      else err forbidden

  unfoldable pub assert_may_watch : Identity → String → List Agent → Result Agent
  unfolding may_watch can_access_location
  assert_may_watch identity id agents = may_watch identity (db.find_unique (λ a. a.id == id) agents)

  still : Option StoredFrame → Result (List ℕ)
  still none = err not_found
  still (some f) = ok f.bytes

  unfoldable pub snapshot : ℕ → AuthenticatedRequest → String → Booth → Result (List ℕ)
  unfolding assert_may_watch still get
  snapshot now request id p = do
    _ ← assert_may_watch request.identity id p.hub.agents
    still (get now id p.frames)

  module _ (json : Detail → String) where
    module _ (actor_name : AuditActor → String) where
      unfoldable pub ticket_route :
          ℕ → (issued : String) → AuthenticatedRequest → String → Booth → Result (Booth × String)
      unfolding assert_may_watch issue_ticket record_entry audit_row viewing_key
      ticket_route now issued request id p = do
        _ ← assert_may_watch request.identity id p.hub.agents
        ok (
          record p {
            frames = issue_ticket now issued id p.frames;
            audit =
                record_entry now
                  (entry
                    (audit_row json now request camera_viewed AuditOutcome.allowed none
                      (the_camera id) no_detail)
                    (some (viewing_key actor_name request id)))
                  p.audit;
          },
          issued,
        )
