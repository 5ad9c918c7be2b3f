-- ===== src/Realtime.antt =====
-- hub/src/realtime/realtime.gateway.ts: who may watch the live feed, and which sockets get a frame.
pub mod Sockets
pub mod Fanout
pub mod Watching
use project.Base.{
  List, Option, String, [], concat, eq_option, eq_string, eq_ℕ, if◌then◌else◌, map, none, not, some,
  ℕ, ◌==◌, ◌∷◌,
}
use project.Contracts.Auth.{alerts_read, eq_permission, includes}
use project.Contracts.Modes.{eq_mode}
use project.Db.{Prisma}
use project.Http.{Result, ok, ◌>>=◌}
use project.Hub.{Agent, Frame, agent_frame, alert_frame, event_frame, mode_frame}
use project.Realtime.Sockets.{Socket, SocketIo}
use project.Security.Credential.{AuthKeys, Identity, resolve}

-- What the gateway reads of a handshake: `auth.key`, and what `extractBearer` finds in the header.
pub record Handshake : Type 0 where
  pub auth_key : Option String
  pub bearer : Option String

-- `auth.key ?? extractBearer(...)`.
abbrev pub provided : Handshake → Option String
provided handshake = elim handshake.auth_key [ none ↦ handshake.bearer | some key ↦ some key ]

-- `ROOM_UNRESTRICTED`.
abbrev pub room_unrestricted : String
room_unrestricted = "scope:all"

module _ (lower : String → String) where
  unfoldable pub zone_room : String → String
  zone_room location = concat ("zone:" ∷ lower location ∷ [])

  abbrev pub rooms_of_zones : List String → List String
  rooms_of_zones [] = room_unrestricted ∷ []
  rooms_of_zones (z ∷ zones) = map zone_room (z ∷ zones)

  -- The rooms of a broadcast; an empty location counts as none.
  unfoldable pub scoped_rooms : Option String → List String
  unfolding zone_room
  scoped_rooms none = room_unrestricted ∷ []
  scoped_rooms (some location) =
      if location == "" then room_unrestricted ∷ [] else room_unrestricted ∷ zone_room location ∷ []

  module _ (io : SocketIo) where
    -- The socket joins its rooms, or is disconnected.
    unfoldable pub admit : Option Identity → Socket → Option Socket
    admit none client = none
    admit (some identity) client =
        if not (includes identity.permissions alerts_read)
        then none
        else some (io.join (rooms_of_zones identity.zones) client)

    -- The rooms are the arguments of `server.to`; a server that is not ready sends nothing.
    unfoldable pub emit_scoped : Option String → Option (List Socket) → List Socket
    emit_scoped location none = []
    emit_scoped location (some clients) = io.to_rooms (scoped_rooms location) clients

    unfoldable pub emit_mode : Option (List Socket) → List Socket
    emit_mode none = []
    emit_mode (some clients) = clients

    -- The sockets that a frame of the hub is sent to.
    unfoldable pub recipients : Frame → Option (List Socket) → List Socket
    unfolding emit_scoped emit_mode
    recipients (alert_frame a location) server = emit_scoped location server
    recipients (agent_frame a) server = emit_scoped (some a.location) server
    recipients (event_frame e location) server = emit_scoped (some location) server
    recipients (mode_frame mode) server = emit_mode server

    module _ (db : Prisma) (hash : String → String) (keys : AuthKeys) where
      unfoldable pub handle_credential :
          ℕ → List Agent → Socket → Option String → Result (Option Socket)
      handle_credential now agents client none = ok none
      handle_credential now agents client (some credential) =
          if credential == ""
          then ok none
          else do identity ← resolve db hash keys now credential agents; ok (admit identity client)

      -- `none` where the client is disconnected.
      unfoldable pub handle_connection :
          ℕ → Handshake → List Agent → Socket → Result (Option Socket)
      unfolding handle_credential admit resolve
      handle_connection now handshake agents client =
          handle_credential now agents client (provided handshake)
