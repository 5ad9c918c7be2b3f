-- ===== src/Cameras/Browser.antt =====
-- hub/src/cameras/browser-camera.service.ts: publishing sessions of browsers. The log lines are left
-- out.
use project.Agents.Service.{browser_camera_id_prefix}
use project.Base.{
  Bool, List, Option, String, [], concat, eq_option, eq_string, eq_ℕ, if◌then◌else◌, is_some, leb,
  ltb, map, none, not, some, ℕ, ◌&&◌, ◌+◌, ◌==◌, ◌∷◌,
}
use project.Contracts.Modes.{AgentType, browser, is_device, online}
use project.Db.{Prisma}
use project.Http.{Result, err, forbidden, not_found, ok, ◌>>=◌}
use project.Hub.{Agent}
use project.Security.Tokens.{mint_agent_token}

-- `MAX_BROWSER_CAMERAS`, `BROWSER_SESSION_TTL_MS`, `BROWSER_CAPTURE_MAX_FPS` and
-- `BROWSER_CAPTURE_WIDTH`.
abbrev pub max_browser_cameras : ℕ
max_browser_cameras = 4

abbrev pub browser_session_ttl_ms : ℕ
browser_session_ttl_ms = 1800000

abbrev pub browser_capture_max_fps : ℕ
browser_capture_max_fps = 15

abbrev pub browser_capture_width : ℕ
browser_capture_width = 640

-- `BrowserCameraSessionResponse`.
pub record BrowserSession : Type 0 where
  pub agent_id : String
  pub token : String
  pub expires_at : ℕ
  pub max_fps : ℕ
  pub max_width : ℕ

-- `origin: browser, tokenHash: { not: null }`.
unfoldable pub is_live : Agent → Bool
is_live a = not (is_device a.origin) && is_some a.token_hash

abbrev pub labelled : String → Option String → String
labelled location none = location
labelled location (some label) =
    if label == "" then location else concat (location ∷ " (" ∷ label ∷ ")" ∷ [])

unfoldable pub new_browser_camera : ℕ → String → String → String → Option String → Agent
new_browser_camera now id hash location label = record {
  id = id;
  type = AgentType.camera;
  location = labelled location label;
  status = online;
  version = some "browser";
  capabilities = "camera" ∷ "stream" ∷ "browser" ∷ [];
  registered_at = now;
  token_hash = some hash;
  token_issued_at = some now;
  token_expires_at = some (now + browser_session_ttl_ms);
  origin = browser;
  token_rotations = 0;
  last_seen_at = now;
}

abbrev pub renewed_row : ℕ → String → Agent → Agent
renewed_row now hash a = record a {
  token_hash = some hash;
  token_issued_at = some now;
  token_expires_at = some (now + browser_session_ttl_ms);
  token_rotations = a.token_rotations + 1;
}

abbrev pub revoked_row : Agent → Agent
revoked_row a = record a { token_hash = none; token_expires_at = none }

-- A session that ended a full lifetime ago.
unfoldable pub is_ended : ℕ → Agent → Bool
is_ended now a =
    not (is_device a.origin)
    && not (is_some a.token_hash)
    && ltb (a.last_seen_at + browser_session_ttl_ms) now

abbrev session : String → String → ℕ → BrowserSession
session id token now = record {
  agent_id = id;
  token = token;
  expires_at = now + browser_session_ttl_ms;
  max_fps = browser_capture_max_fps;
  max_width = browser_capture_width;
}

-- `hash` stands for SHA-256, `suffix` and `random` for the random texts that the platform draws.
module _ (db : Prisma) (hash : String → String) where
  unfoldable pub create :
      ℕ
      → (suffix : String) → (random : String) → String
      → Option String
      → List Agent
      → Result (List Agent × BrowserSession)
  unfolding is_live new_browser_camera mint_agent_token
  create now suffix random location label agents =
      let minted = mint_agent_token hash random in
      let id = concat (browser_camera_id_prefix ∷ suffix ∷ []) in
      if leb max_browser_cameras (db.count_rows is_live agents)
      then err forbidden
      else ok (
        db.create (new_browser_camera now id minted.1 location label) agents,
        session id minted.0 now,
      )

  unfoldable pub active_ids : List Agent → List String
  unfolding is_live
  active_ids agents = map (λ a. a.id) (db.find_many is_live agents)

  -- The rows that refer to a deleted agent are `Maintenance.Sweep.run`'s.
  unfoldable pub reap_ended_sessions : ℕ → List Agent → List Agent × ℕ
  unfolding is_ended
  reap_ended_sessions now agents = db.delete_many (is_ended now) agents

  abbrev browser_only : Option Agent → Result Agent
  browser_only none = err not_found
  browser_only (some a) = if is_device a.origin then err not_found else ok a

  unfoldable pub require_browser_camera : String → List Agent → Result Agent
  require_browser_camera id agents = browser_only (db.find_unique (λ a. a.id == id) agents)

  unfoldable pub renew :
      ℕ → (random : String) → String → List Agent → Result (List Agent × BrowserSession)
  unfolding require_browser_camera mint_agent_token
  renew now random id agents = do
    existing ← require_browser_camera id agents
    ok (
      (db.update_many (λ a. a.id == existing.id) (renewed_row now (mint_agent_token hash random).1)
          agents).0,
      session existing.id (mint_agent_token hash random).0 now,
    )

  unfoldable pub revoke : String → List Agent → Result (List Agent)
  unfolding require_browser_camera
  revoke id agents = do
    existing ← require_browser_camera id agents
    ok (db.update_many (λ a. a.id == existing.id) revoked_row agents).0
