-- ===== src/Tests/Access.antt =====
-- Credentials, the guard and the policy.
use project.Base.{
  String, [], concat, eq_option, eq_string, eq_ℕ, false, find, inl, none, refl, select, some, true,
  utf16_length, ◌==◌, ◌↔◌, ◌∷◌, ◌≡◌,
}
use project.Contracts.Auth.{
  AuthRole, agents_heartbeat, eq_permission, includes, operator, permissions_for_role,
}
use project.Contracts.Modes.{disarmed, eq_mode}
use project.Http.{ok}
use project.Hub.{Agent}
use project.Security.Credential.{AuthKeys, agent_identity, human, resolve}
use project.Security.Guard.{Claim, Request, Route, can_activate, text}
use project.Security.GuardLaws.{
  IsOwnToken, IsPermitted, agent_acts_as_itself, can_activate_sound, resolve_sound,
}
use project.Security.Policy.{can_set_mode}
use project.Security.PolicyLaws.{MayChange, can_set_mode_iff}
use project.Security.Tokens.{looks_like_agent_token, secret_matches}
use project.Tests.Database.{list_db}
use project.Tests.Samples.{alarmed_hub, front_agent}

abbrev pub hash : String → String
hash s = concat ("hash of " ∷ s ∷ [])

abbrev pub keys : AuthKeys
keys = record {
  admin_key = some "admin-key";
  operator_key = none;
  viewer_key = none;
  viewer_zones = [];
  bootstrap_key = none;
}

abbrev heartbeat_route : Route
heartbeat_route = record { is_public = false; is_http = true; required = agents_heartbeat ∷ [] }

abbrev heartbeat_request : Request
heartbeat_request = record {
  credential = some "ag_1";
  param_id = text "door-01";
  body_agent_id = Claim.absent;
}

resolve_sound_example :
    ((agent_identity "door-01").permissions ≡ permissions_for_role AuthRole.agent)
    × ((AuthRole.agent ≡ AuthRole.agent)
        → IsOwnToken hash 1000 "ag_1" (front_agent ∷ []) (agent_identity "door-01"))
unfolding resolve find utf16_length concat secret_matches looks_like_agent_token
resolve_sound_example =
    resolve_sound list_db hash keys 1000 "ag_1" (front_agent ∷ []) (agent_identity "door-01") refl

can_activate_sound_example :
    (credential : String) × (some "ag_1" ≡ some credential)
    × (resolve list_db hash keys 1000 credential (front_agent ∷ [])
        ≡ ok (some (agent_identity "door-01")))
    × IsPermitted heartbeat_route heartbeat_request (agent_identity "door-01")
unfolding can_activate find utf16_length concat secret_matches looks_like_agent_token
    permissions_for_role includes select
can_activate_sound_example =
    can_activate_sound list_db hash keys 1000 heartbeat_route heartbeat_request (front_agent ∷ [])
      (agent_identity "door-01") refl refl refl

agent_acts_as_itself_example :
    (credential : String) × (some "ag_1" ≡ some credential)
    × (row : Agent) × (find (λ a. a.token_hash == some (hash credential)) (front_agent ∷ [])
        ≡ some row)
    × (row.id ≡ "door-01")
unfolding can_activate find utf16_length concat secret_matches looks_like_agent_token
    permissions_for_role includes select
agent_acts_as_itself_example =
    agent_acts_as_itself list_db hash keys 1000 heartbeat_route heartbeat_request (front_agent ∷ [])
      (agent_identity "door-01") "door-01" refl refl refl refl (inl refl)

can_set_mode_iff_example :
    ((can_set_mode list_db (human operator []) disarmed alarmed_hub.alerts).allowed ≡ true)
    ↔ MayChange (human operator []) alarmed_hub.alerts disarmed
can_set_mode_iff_example = can_set_mode_iff list_db (human operator []) disarmed alarmed_hub.alerts
