-- ===== src/Agents/Service.antt =====
-- hub/src/agents/agents.service.ts: registration, heartbeats and recovery.
use text.Mathlib.Text.{starts_with}
use project.Alerts.Rules.{RuleAgent}
use project.Alerts.Service.{acknowledge_open_offline_alerts, raise_agent_recovered}
use project.Base.{
  Bool, List, Option, String, [], eq_option, eq_string, eq_ℕ, false, if◌then◌else◌, is_some, none,
  not, some, ℕ, ◌++◌, ◌+◌, ◌==◌, ◌∷◌,
}
use project.Contracts.Modes.{AgentOrigin, AgentType, eq_alert_type, is_online, online}
use project.Db.{Prisma}
use project.Http.{Result, bad_request, err, not_found, ok}
use project.Hub.{Agent, Hub, agent_frame}
use project.Security.Tokens.{mint_agent_token}
use project.Settings.{Settings}

-- `RegisterAgentRequest`.
pub record RegisterRequest : Type 0 where
  pub id : String
  pub type : AgentType
  pub location : String
  pub version : Option String
  pub capabilities : Option (List String)

-- The answer to a registration, with the token that is shown once.
pub record Enrollment : Type 0 where
  pub agent : Agent
  pub token : String
  pub rotated : Bool

-- `BROWSER_CAMERA_ID_PREFIX`.
abbrev pub browser_camera_id_prefix : String
browser_camera_id_prefix = "browser-"

abbrev pub rule_agent : Agent → RuleAgent
rule_agent a = record { id = a.id; type = a.type; location = a.location }

abbrev pub seen_row : ℕ → Agent → Agent
seen_row now a = record a { last_seen_at = now; status = online }

abbrev get_or {ℓ} : {A : Type ℓ} → Option A → A → A
get_or none d = d
get_or (some a) d = a

abbrev has_token : Option Agent → Bool
has_token none = false
has_token (some a) = is_some a.token_hash

abbrev was_offline : Option Agent → Bool
was_offline none = false
was_offline (some a) = not (is_online a.status)

-- The row that a first registration creates.
unfoldable pub new_agent : ℕ → String → RegisterRequest → Agent
new_agent now hash dto = record {
  id = dto.id;
  type = dto.type;
  location = dto.location;
  status = online;
  version = dto.version;
  capabilities = get_or dto.capabilities [];
  registered_at = now;
  token_hash = some hash;
  token_issued_at = some now;
  token_expires_at = none;
  origin = AgentOrigin.device;
  token_rotations = 0;
  last_seen_at = now;
}

-- What a further registration writes; the version and the capabilities only where they are given.
unfoldable pub re_registered : ℕ → String → RegisterRequest → Agent → Agent
re_registered now hash dto a = record a {
  type = dto.type;
  location = dto.location;
  version = elim dto.version [ none ↦ a.version | some v ↦ some v ];
  capabilities = get_or dto.capabilities a.capabilities;
  status = online;
  last_seen_at = now;
  token_hash = some hash;
  token_issued_at = some now;
  token_rotations = a.token_rotations + 1;
}

module _ (db : Prisma) (cfg : Settings) where
  unfoldable pub handle_recovery : ℕ → Agent → Hub → Hub
  handle_recovery now a h =
      let cleared = acknowledge_open_offline_alerts db now a.id h in
      (raise_agent_recovered db cfg now (rule_agent a) cleared.0).0

  unfoldable pub record_activity : ℕ → Agent → Hub → Hub × Agent
  unfolding handle_recovery
  record_activity now previous h =
      let a = seen_row now previous in
      let seen = record h {
        agents = (db.update_many (λ r. r.id == previous.id) (seen_row now) h.agents).0;
      } in
      if is_online previous.status
      then (seen, a)
      else (let recovered = handle_recovery now a seen in
          (record recovered { frames = recovered.frames ++ agent_frame a ∷ [] }, a))

  unfoldable pub heartbeat_found : ℕ → Hub → Option Agent → Result (Hub × Agent)
  heartbeat_found now h none = err not_found
  heartbeat_found now h (some a) = ok (record_activity now a h)

  unfoldable pub heartbeat : ℕ → String → Hub → Result (Hub × Agent)
  unfolding heartbeat_found
  heartbeat now id h = heartbeat_found now h (db.find_unique (λ r. r.id == id) h.agents)

  -- `register` past its check of the identifier.
  unfoldable pub enroll : ℕ → String × String → RegisterRequest → Hub → Hub × Enrollment
  unfolding handle_recovery new_agent re_registered
  enroll now minted dto h =
      let previous = db.find_unique (λ r. r.id == dto.id) h.agents in
      let stored =
        db.upsert (λ r. r.id == dto.id) (new_agent now minted.1 dto)
          (re_registered now minted.1 dto) h.agents in
      let a = stored.1 in
      let registered = record h { agents = stored.0 } in
      let settled = if was_offline previous then handle_recovery now a registered else registered in
      (
        record settled { frames = settled.frames ++ agent_frame a ∷ [] },
        record { agent = a; token = minted.0; rotated = has_token previous },
      )

  unfoldable pub register :
      ℕ
      → (hash : String → String) → (random : String) → RegisterRequest
      → Hub
      → Result (Hub × Enrollment)
  unfolding enroll mint_agent_token
  register now hash random dto h =
      if starts_with dto.id browser_camera_id_prefix
      then err bad_request
      else ok (enroll now (mint_agent_token hash random) dto h)
