-- ===== src/Realtime/Sockets.antt =====
-- The WebSocket server (socket.io), which is not in this repository: an interface with the documented
-- behaviour of `join` and of `server.to(rooms)`, taken as a parameter by the gateway.
use project.Base.{List, String, [], any, eq_string, eq_ℕ, select, ◌||◌, ◌∷◌, ◌≡◌}
use project.Contracts.Auth.{includes}

-- A connected socket, and the rooms that it has joined.
pub record Socket : Type 0 where
  pub id : String
  pub rooms : List String

pub record SocketIo : Type 0 where
  pub join : List String → Socket → Socket
  -- The sockets that `server.to(rooms).emit` reaches: each one in any of the rooms, once.
  pub to_rooms : List String → List Socket → List Socket
  pub id-join : (rooms : List String) (client : Socket) → (join rooms client).id ≡ client.id
  pub includes-join :
      (rooms : List String) (client : Socket) (r : String)
      → includes (join rooms client).rooms r ≡ (includes client.rooms r || includes rooms r)
  pub to_rooms_lem :
      (rooms : List String) (clients : List Socket)
      → to_rooms rooms clients ≡ select (λ c. any (λ r. includes c.rooms r) rooms) clients

-- A socket starts in a room of its own, named by its id.
abbrev pub new_socket : String → Socket
new_socket id = record { id = id; rooms = id ∷ [] }
