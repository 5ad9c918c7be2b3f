-- ===== src/Tests/Feeding.antt =====
-- The live feed and the broker at concrete inputs.
use project.Base.{
  List, String, [], any, any-append, concat, count, eq_option, eq_string, eq_ℕ, find, if◌then◌else◌,
  none, refl, select, some, utf16_length, ◌++◌, ◌==◌, ◌||◌, ◌↔◌, ◌∷◌, ◌≡◌, ◌≢◌, ◌⊎◌,
}
use project.Contracts.Auth.{
  AuthRole, eq_permission, includes, permissions_for_role, viewer_permissions,
}
use project.Http.{ok}
use project.Hub.{Frame, agent_frame}
use project.Mqtt.{Body, authenticate, done, fields, handle, occurred, type_of}
use project.Mqtt.Admission.{request_of, route_of, same_admission}
use project.Mqtt.Topic.{event_topic, match_topic, segments}
use project.Mqtt.Transport.{Carries, IsHeld, IsProven, handle_proven, handle_unproven}
use project.Realtime.{Handshake, admit, handle_connection, handle_credential, recipients, zone_room}
use project.Realtime.Fanout.{may_see}
use project.Realtime.Sockets.{Socket, SocketIo}
use project.Realtime.Watching.{IsWatching, watching_lem}
use project.Security.Credential.{AuthKeys, Identity, agent_identity, key_matches, resolve}
use project.Security.Guard.{can_activate}
use project.Security.Tokens.{looks_like_agent_token, secret_matches}
use project.Tests.Access.{hash, keys}
use project.Tests.Database.{list_db}
use project.Tests.Samples.{front_agent, quiet_hub, settings}

includes-append :
    (xs ys : List String) (r : String) → includes (xs ++ ys) r ≡ (includes xs r || includes ys r)
unfolding includes
includes-append xs ys r = any-append (λ y. y == r) xs ys

-- A server that holds its sockets in a list.
abbrev list_io : SocketIo
list_io = record {
  join = λ rooms c. record c { rooms = c.rooms ++ rooms };
  to_rooms = λ rooms clients. select (λ c. any (λ r. includes c.rooms r) rooms) clients;
  id-join = λ rooms c. refl;
  includes-join = λ rooms c r. includes-append c.rooms rooms r;
  to_rooms_lem = λ rooms clients. refl;
}

abbrev zoned_keys : AuthKeys
zoned_keys = record keys { viewer_key = some "viewer-key"; viewer_zones = "Front" ∷ [] }

abbrev handshake : Handshake
handshake = record { auth_key = some "viewer-key"; bearer = none }

abbrev watcher : Socket
watcher = record { id = "s1"; rooms = "s1" ∷ "zone:Front" ∷ [] }

abbrev stranger : Socket
stranger = record { id = "s2"; rooms = "s2" ∷ "zone:Back" ∷ [] }

abbrev seen_frame : Frame
seen_frame = agent_frame front_agent

watching_lem_example :
    (i : Identity) × IsWatching
      (λ s. s)
      list_io
      list_db
      hash
      zoned_keys
      1000
      handshake
      (front_agent ∷ [])
      i
    × (count
          (λ s. s.id == "s1")
          (recipients (λ s. s) list_io seen_frame (some ([] ++ watcher ∷ stranger ∷ [])))
        ≡ (if may_see (λ s. s) i.zones seen_frame then 1 else 0))
unfolding handle_connection handle_credential admit resolve secret_matches utf16_length key_matches
    permissions_for_role viewer_permissions includes any zone_room concat count
watching_lem_example =
    watching_lem (λ s. s) list_io list_db hash zoned_keys 1000 handshake (front_agent ∷ []) "s1"
      watcher seen_frame [] (stranger ∷ []) (refl, refl) refl refl

same_admission_example :
    (authenticate list_db hash keys 1000 "door-01" (some "ag_1") (front_agent ∷ [])
      ≡ ok (some (agent_identity "door-01")))
    ↔ ((AuthRole.agent ≡ AuthRole.agent)
        × (can_activate list_db hash keys 1000
              (route_of event_topic)
              (request_of event_topic "door-01" "ag_1")
              (front_agent ∷ [])
            ≡ ok (some (agent_identity "door-01"))))
same_admission_example =
    same_admission event_topic "door-01" "ag_1" list_db hash keys 1000 (front_agent ∷ [])
      (agent_identity "door-01")

abbrev opened : Body
opened = fields (some "ag_1") (some "door_opened") none none

handle_proven_example :
    Carries list_db settings 1000 "door-01" quiet_hub
      (type_of (some "door_opened"))
      (occurred (λ t. none) 1000 none)
      none
      event_topic
      (handle list_db settings hash keys
        (λ p. some opened)
        (λ t. none)
        1000
        "cpe310/agents/door-01/events"
        "payload"
        quiet_hub)
unfolding match_topic segments authenticate resolve secret_matches utf16_length
    looks_like_agent_token find any concat
handle_proven_example =
    handle_proven list_db settings hash keys (λ p. some opened) (λ t. none) 1000
      "cpe310/agents/door-01/events" "payload" quiet_hub
      (record {
        id = "door-01";
        kind = event_topic;
        token = "ag_1";
        type = some "door_opened";
        occurred_at = none;
        metadata = none;
        identity = agent_identity "door-01";
        at_topic = refl;
        body = refl;
        authentic = refl;
        registered = refl;
      })

handle_unproven_example :
    (((handle list_db settings hash keys
          (λ p. some opened)
          (λ t. none)
          1000
          "cpe310/agents/door-02/events"
          "payload"
          quiet_hub).0
        ≡ quiet_hub)
      × ((handle list_db settings hash keys
            (λ p. some opened)
            (λ t. none)
            1000
            "cpe310/agents/door-02/events"
            "payload"
            quiet_hub).1
          ≢ done))
    ⊎ ((m : IsProven list_db settings hash keys
          (λ p. some opened)
          (λ t. none)
          1000
          "cpe310/agents/door-02/events"
          "payload"
          quiet_hub)
        × IsHeld list_db settings hash keys
            (λ p. some opened)
            (λ t. none)
            1000
            "cpe310/agents/door-02/events"
            "payload"
            quiet_hub
            m)
handle_unproven_example =
    handle_unproven list_db settings hash keys (λ p. some opened) (λ t. none) 1000
      "cpe310/agents/door-02/events" "payload" quiet_hub
