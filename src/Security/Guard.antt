-- ===== src/Security/Guard.antt =====
-- hub/src/common/guards/auth.guard.ts: authentication, and the role half of authorization.
use project.Base.{
  Bool, List, Option, String, [], eq_option, eq_string, eq_ℕ, false, if◌then◌else◌, none, not,
  select, some, true, ℕ, ◌&&◌, ◌==◌, ◌||◌, ◌∷◌,
}
use project.Contracts.Auth.{AuthRole, Permission, eq_permission, eq_role, includes}
use project.Db.{Prisma}
use project.Http.{Result, err, forbidden, ok, unauthorized, ◌>>=◌}
use project.Hub.{Agent}
use project.Security.Credential.{AuthKeys, Identity, resolve}

-- What the decorators say of a route.
pub record Route : Type 0 where
  pub is_public : Bool
  pub is_http : Bool
  pub required : List Permission

-- A value of the path or the body that claims an agent id: absent or null, a text, or neither.
pub data Claim : Type 0 where
  absent : Claim
  text : String → Claim
  other : Claim

-- `credential` is what `extractBearer` finds in the Authorization header.
pub record Request : Type 0 where
  pub credential : Option String
  pub param_id : Claim
  pub body_agent_id : Claim

-- `params.id ?? body.agentId`.
abbrev pub claimed : Request → Claim
claimed r = elim r.param_id [ absent ↦ r.body_agent_id | text s ↦ text s | other ↦ other ]

unfoldable pub acts_as_self : Option String → Claim → Bool
acts_as_self agent_id absent = true
acts_as_self agent_id (text s) = agent_id == some s
acts_as_self agent_id other = false

unfoldable pub missing : List Permission → Identity → List Permission
missing required identity = select (λ p. not (includes identity.permissions p)) required

abbrev is_empty {ℓ} : {A : Type ℓ} → List A → Bool
is_empty [] = true
is_empty (x ∷ xs) = false

-- The checks after the credential resolved.
unfoldable pub authorize : Route → Request → Identity → Result Identity
unfolding acts_as_self missing
authorize route r identity =
    if is_empty route.required || not (is_empty (missing route.required identity))
    then err forbidden
    else (if identity.role == AuthRole.agent && not (acts_as_self identity.agent_id (claimed r))
        then err forbidden
        else ok identity)

unfoldable pub authorize_resolved : Route → Request → Option Identity → Result Identity
authorize_resolved route r none = err unauthorized
authorize_resolved route r (some identity) = authorize route r identity

module _ (db : Prisma) (hash : String → String) (keys : AuthKeys) where
  -- The request's identity, where the route is guarded.
  unfoldable pub guarded : ℕ → Route → Request → List Agent → Option String → Result Identity
  guarded now route r agents none = err unauthorized
  guarded now route r agents (some credential) = do
    found ← resolve db hash keys now credential agents
    authorize_resolved route r found

  unfoldable pub can_activate : ℕ → Route → Request → List Agent → Result (Option Identity)
  unfolding guarded authorize_resolved authorize resolve
  can_activate now route r agents =
      if route.is_public || not route.is_http
      then ok none
      else do identity ← guarded now route r agents r.credential; ok (some identity)
