-- ===== src/Tests/Serving.antt =====
-- The controllers at concrete inputs.
use project.Api.Access.{IsWatchable, ticket_route_lem}
use project.Api.Acknowledge.{acknowledge_route}
use project.Api.AcknowledgeLaws.{IsDeclined, IsTaken, acknowledge_route_lem}
use project.Api.Cameras.{Booth, assert_may_watch, may_watch, the_camera, ticket_route, viewing_key}
use project.Api.Mode.{Desk, set_mode_route}
use project.Api.ModeLaws.{IsChanged, IsRefused, set_mode_route_lem}
use project.Api.Queries.{QueryAlertsRequest, QueryEventsRequest, find_alerts, find_events}
use project.Api.StreamLaws.{
  IsTallied, Wall, WallReached, is_overdue, is_silent, opens, reached-IsTallied, serve_turns_silent,
  starts, steps,
}
use project.Api.Streams.{
  Stream, Turn, first_part, open_claimed, open_redeemed, open_stream, serve_turns,
}
use project.Api.Trail.{AuthenticatedRequest, Detail, audit_row, entry, no_detail}
use project.Api.Zones.{is_watched, queries_in_zones}
use project.Audit.{Audit, AuditActor, AuditOutcome, camera_viewed, record_entry}
use project.Base.{
  Bool, String, [], all, any, delete_key, eq_option, eq_string, eq_ℕ, false, find, get_key, leb,
  length, none, refl, set_key, some, true, ℕ, ◌&&◌, ◌+◌, ◌==◌, ◌∷◌, ◌≡◌, ◌≤◌, ◌⊎◌,
}
use project.Cameras.FrameStore.{
  FrameStore, claim_viewer, get, issue_ticket, redeem_found, redeem_ticket, ticket_ttl_ms,
  viewer_count,
}
use project.Contracts.Auth.{operator, zone_allows}
use project.Contracts.Modes.{AgentType, disarmed, eq_mode}
use project.Http.{ok}
use project.Hub.{Agent}
use project.Security.Credential.{human}
use project.Security.Policy.{can_access_location}
use project.Tests.Database.{list_db}
use project.Tests.Samples.{alarmed_hub, front_agent, settings}

abbrev no_json : Detail → String
no_json d = "{}"

abbrev no_log : Audit
no_log = record { log = []; recent = [] }

abbrev desk : Desk
desk = record { hub = alarmed_hub; audit = no_log }

abbrev on_shift : AuthenticatedRequest
on_shift = record { identity = human operator []; label = some "Ada"; ip = none }

-- An operator may not disarm during an open critical alert, and may acknowledge it.
set_mode_route_lem_example :
    IsChanged list_db no_json 7000 on_shift disarmed desk
      (set_mode_route list_db no_json 7000 on_shift disarmed desk)
    ⊎ IsRefused list_db no_json 7000 on_shift disarmed desk
        (set_mode_route list_db no_json 7000 on_shift disarmed desk)
set_mode_route_lem_example = set_mode_route_lem list_db no_json 7000 on_shift disarmed desk

abbrev same_case : String → String
same_case s = s

acknowledge_route_lem_example :
    IsTaken list_db same_case no_json 7000 on_shift "a1" desk
      (acknowledge_route list_db same_case no_json 7000 on_shift "a1" desk)
    ⊎ IsDeclined list_db same_case no_json 7000 on_shift "a1" desk
        (acknowledge_route list_db same_case no_json 7000 on_shift "a1" desk)
acknowledge_route_lem_example =
    acknowledge_route_lem list_db same_case no_json 7000 on_shift "a1" desk

abbrev no_frames : FrameStore
no_frames = record { frames = []; tickets = []; recent = []; viewers = []; sequence = 0 }

-- A ticket, and the stream that it opens.
abbrev ticketed : FrameStore
ticketed = record no_frames {
  tickets = ("t1", record { agent_id = "cam-01"; expires_at = 30000 }) ∷ [];
}

abbrev watching : Stream
watching = record { agent_id = "cam-01"; written = []; last_seq = 0; silent_since = 1000 }

abbrev watched : FrameStore
watched = record no_frames { viewers = ("cam-01", 1) ∷ [] }

opens_one : open_stream 1000 (some "t1") "cam-01" ticketed ≡ (watched, ok watching)
unfolding open_stream redeem_ticket redeem_found open_redeemed claim_viewer viewer_count
    open_claimed first_part get get_key delete_key set_key
opens_one = refl

abbrev wall : Wall
wall = record { store = watched; streams = watching ∷ [] }

wall-WallReached : WallReached wall
wall-WallReached =
    steps (record { store = ticketed; streams = [] }) wall (starts ticketed refl)
      (opens 1000 (some "t1") "cam-01" watched watching opens_one)

reached-IsTallied_example : IsTallied wall
reached-IsTallied_example = reached-IsTallied wall wall-WallReached

abbrev dark : ℕ → Turn
dark now = record { now = now; is_open = true; next = none; store = watched }

both_dark : all (is_silent watching) (dark 6000 ∷ dark 62000 ∷ []) ≡ true
unfolding all is_silent get get_key
both_dark = refl

one_late : any (is_overdue watching) (dark 6000 ∷ dark 62000 ∷ []) ≡ true
unfolding any
one_late = refl

serve_turns_silent_example : serve_turns (dark 6000 ∷ dark 62000 ∷ []) watching ≡ (watching, false)
serve_turns_silent_example =
    serve_turns_silent watching (dark 6000 ∷ dark 62000 ∷ []) both_dark one_late

abbrev lobby : Agent
lobby = record front_agent { id = "cam-01"; type = AgentType.camera; location = "Lobby" }

abbrev booth : Booth
booth = record {
  hub = record alarmed_hub { agents = lobby ∷ [] };
  frames = no_frames;
  audit = no_log;
}

abbrev one_name : AuditActor → String
one_name a = "operator"

abbrev issued_booth : Booth
issued_booth = record booth {
  frames = issue_ticket 1000 "t1" "cam-01" no_frames;
  audit =
      record_entry 1000
        (entry
          (audit_row no_json 1000 on_shift camera_viewed AuditOutcome.allowed none
            (the_camera "cam-01") no_detail)
          (some (viewing_key one_name on_shift "cam-01")))
        no_log;
}

issues_one :
    ticket_route list_db same_case no_json one_name 1000 "t1" on_shift "cam-01" booth
    ≡ ok (issued_booth, "t1")
unfolding ticket_route assert_may_watch may_watch can_access_location find zone_allows
issues_one = refl

ticket_route_lem_example :
    IsWatchable list_db same_case (human operator []) "cam-01" (lobby ∷ [])
    × ((redeem_ticket 2000 "t1" "cam-02" issued_booth.frames).1
        ≡ (leb 2000 (1000 + ticket_ttl_ms) && ◌==◌ {T = String} "cam-01" "cam-02"))
    × (issued_booth.hub ≡ booth.hub)
ticket_route_lem_example =
    ticket_route_lem list_db same_case no_json one_name 1000 2000 "t1" on_shift "cam-01" "cam-02"
      booth issued_booth "t1" issues_one

abbrev every_alert : QueryAlertsRequest
every_alert = record { limit = some 1000; acknowledged = none; type = none; agent_id = none }

abbrev every_event : QueryEventsRequest
every_event = record { limit = none; agent_id = none; type = none; since = none }

abbrev same_place : String → String → Bool
same_place a b = a == b

queries_in_zones_example :
    (all
        (λ a. is_watched list_db settings same_place ("Lobby" ∷ []) alarmed_hub.agents a.agent_id)
        (find_alerts list_db settings same_place every_alert ("Lobby" ∷ []) alarmed_hub)
      ≡ true)
    × (length (find_alerts list_db settings same_place every_alert ("Lobby" ∷ []) alarmed_hub)
        ≤ settings.max_limit)
    × (all
          (λ e.
            is_watched list_db settings same_place
              ("Lobby" ∷ [])
              alarmed_hub.agents
              (some e.agent_id))
          (find_events list_db settings same_place every_event ("Lobby" ∷ []) alarmed_hub)
        ≡ true)
    × (length (find_events list_db settings same_place every_event ("Lobby" ∷ []) alarmed_hub)
        ≤ settings.max_limit)
queries_in_zones_example =
    queries_in_zones list_db settings same_place every_alert every_event ("Lobby" ∷ []) alarmed_hub
