-- ===== src/Security/Credential.antt =====
-- hub/src/common/security/credential.service.ts: from a bearer credential to an identity.
use project.Base.{
  Bool, List, Option, String, [], eq_option, eq_string, eq_ℕ, false, if◌then◌else◌, leb, none, some,
  ℕ, ◌==◌,
}
use project.Contracts.Auth.{
  AuthRole, Permission, admin, bootstrap, eq_permission, eq_role, operator, permissions_for_role,
  viewer,
}
use project.Db.{Prisma}
use project.Http.{Result, ok, ◌>>=◌}
use project.Hub.{Agent}
use project.Security.Tokens.{looks_like_agent_token, secret_matches}

pub record Identity : Type 0 where
  pub role : AuthRole
  pub permissions : List Permission
  pub zones : List String
  pub agent_id : Option String

-- The `auth.*` settings.
pub record AuthKeys : Type 0 where
  pub admin_key : Option String
  pub operator_key : Option String
  pub viewer_key : Option String
  pub viewer_zones : List String
  pub bootstrap_key : Option String

abbrev pub human : AuthRole → List String → Identity
human role zones = record {
  role = role;
  permissions = permissions_for_role role;
  zones = zones;
  agent_id = none;
}

-- A key that is not configured matches nothing.
unfoldable pub key_matches : String → Option String → Result Bool
key_matches credential none = ok false
key_matches credential (some key) = secret_matches credential key

abbrev pub agent_identity : String → Identity
agent_identity id = record {
  role = AuthRole.agent;
  permissions = permissions_for_role AuthRole.agent;
  zones = [];
  agent_id = some id;
}

abbrev pub is_expired : ℕ → Option ℕ → Bool
is_expired now none = false
is_expired now (some at) = leb at now

-- The identity of the row that holds the token's hash.
unfoldable pub agent_of_row : ℕ → Option Agent → Option Identity
agent_of_row now none = none
agent_of_row now (some a) =
    if is_expired now a.token_expires_at then none else some (agent_identity a.id)

module _ (db : Prisma) (hash : String → String) (keys : AuthKeys) where
  unfoldable pub resolve_agent : ℕ → String → List Agent → Option Identity
  unfolding agent_of_row
  resolve_agent now credential agents =
      if looks_like_agent_token credential
      then agent_of_row now (db.find_unique (λ a. a.token_hash == some (hash credential)) agents)
      else none

  unfoldable pub resolve : ℕ → String → List Agent → Result (Option Identity)
  unfolding resolve_agent key_matches
  resolve now credential agents =
      if credential == ""
      then ok none
      else (key_matches credential keys.admin_key >>= λ is_admin.
          if is_admin
          then ok (some (human admin []))
          else (key_matches credential keys.operator_key >>= λ is_operator.
              if is_operator
              then ok (some (human operator []))
              else (key_matches credential keys.viewer_key >>= λ is_viewer.
                  if is_viewer
                  then ok (some (human viewer keys.viewer_zones))
                  else (key_matches credential keys.bootstrap_key >>= λ is_bootstrap.
                      if is_bootstrap
                      then ok (some (human bootstrap []))
                      else ok (resolve_agent now credential agents)))))
