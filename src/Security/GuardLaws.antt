-- ===== src/Security/GuardLaws.antt =====
-- What the guard admits, and where an agent's identity comes from.
use project.Base.{
  ==_iff, Bool, Bool-cases, List, Option, String, [], all, ap, arith, eq_option, eq_string, eq_ℕ,
  false, find, inl, inr, none, not, refl, select, some, sym, true, ℕ, ◌==◌, ◌↔◌, ◌∙◌, ◌∷◌, ◌≡◌, ◌≢◌,
  ◌⊎◌,
}
use project.Contracts.Auth.{
  AuthRole, Permission, admin, bootstrap, eq_permission, eq_role, includes, operator,
  permissions_for_role, viewer,
}
use project.Db.{Prisma}
use project.Http.{>>=-eq-ok, branch-eq-ok, ok}
use project.Hub.{Agent}
use project.Security.Credential.{
  AuthKeys, Identity, agent_identity, agent_of_row, human, is_expired, key_matches, resolve,
  resolve_agent,
}
use project.Security.Guard.{
  Claim, Request, Route, acts_as_self, authorize, authorize_resolved, can_activate, claimed,
  guarded, text,
}
use project.Security.Tokens.{secret_matches}

-- A secret matches exactly itself, and an empty one nothing.
secret_matches_iff :
    (provided expected : String)
    → (secret_matches provided expected ≡ ok true) ↔ ((expected ≢ "") × (provided ≡ expected))
unfolding secret_matches
secret_matches_iff provided expected = grind (arith, ==_iff expected "", ==_iff provided expected)

-- What a request must satisfy on a guarded route: the route names permissions, the identity holds
-- them all, and the id that an agent claims is its own: the path's, and only where the path has none
-- the body's.
pub record IsPermitted (route : Route) (r : Request) (identity : Identity) : Type 0 where
  pub declared : route.required ≢ []
  pub granted : all (includes identity.permissions) route.required ≡ true
  pub own : identity.role ≡ AuthRole.agent → acts_as_self identity.agent_id (claimed r) ≡ true

select-not_nil :
    (p : Permission → Bool) (required : List Permission)
    → select (λ x. not (p x)) required ≡ []
    → all p required ≡ true
unfolding select all
select-not_nil p [] e = refl
select-not_nil p (x ∷ xs) e = ground (arith, select-not_nil p xs)

pub authorize_sound :
    (route : Route) (r : Request) (i j : Identity)
    → authorize route r i ≡ ok j
    → (i ≡ j) × IsPermitted route r i
unfolding authorize
authorize_sound route r i j e = (
  ground arith,
  record {
    declared = ground arith;
    granted = select-not_nil (includes i.permissions) route.required (ground arith);
    own = λ a. ground (arith, ==_iff i.role AuthRole.agent);
  },
)

-- An agent's identity is that of the row that holds the hash of its token, not expired.
pub record IsOwnToken (hash : String → String) (now : ℕ) (credential : String) (agents : List Agent)
    (i : Identity) : Type 0 where
  pub row : Agent
  pub found : find (λ a. a.token_hash == some (hash credential)) agents ≡ some row
  pub fresh : is_expired now row.token_expires_at ≡ false
  pub same : i.agent_id ≡ some row.id

agent_of_row_sound :
    (now : ℕ) (o : Option Agent) (i : Identity)
    → agent_of_row now o ≡ some i
    → (a : Agent) × (o ≡ some a)
      × (is_expired now a.token_expires_at ≡ false)
      × (agent_identity a.id ≡ i)
unfolding agent_of_row
agent_of_row_sound now none i e = absurd (ground arith)
agent_of_row_sound now (some a) i e = (a, refl, ground arith, ground arith)

pub authorize_resolved_sound :
    (route : Route) (r : Request) (o : Option Identity) (i : Identity)
    → authorize_resolved route r o ≡ ok i
    → (j : Identity) × (o ≡ some j) × (authorize route r j ≡ ok i)
unfolding authorize_resolved
authorize_resolved_sound route r none i e = absurd (ground arith)
authorize_resolved_sound route r (some j) i e = (j, refl, e)

-- The agent that a request names.
abbrev pub Names : Request → String → Type 0
Names r named =
    (r.param_id ≡ text named) ⊎ ((r.param_id ≡ Claim.absent) × (r.body_agent_id ≡ text named))

claimed-text : (r : Request) (named : String) → Names r named → claimed r ≡ text named
claimed-text r named (inl in_path) = rw in_path refl
claimed-text r named (inr (without, in_body)) = rw (without, in_body) refl

module _ (db : Prisma) (hash : String → String) (keys : AuthKeys) where
  resolve_agent_sound :
      (now : ℕ) (credential : String) (agents : List Agent) (i : Identity)
      → resolve_agent db hash keys now credential agents ≡ some i
      → (i.permissions ≡ permissions_for_role i.role) × IsOwnToken hash now credential agents i
  unfolding resolve_agent
  resolve_agent_sound now credential agents i e =
      let o = db.find_unique (λ (a : Agent). a.token_hash == some (hash credential)) agents in
      let h : agent_of_row now o ≡ some i = ground arith in
      let (a, found, fresh, same) = agent_of_row_sound now o i h in
      (
        ap (λ x. x.permissions) (sym same) ∙ ap (λ x. permissions_for_role x.role) same,
        record {
          row = a;
          found = sym (db.find_unique_lem _ agents) ∙ found;
          fresh = fresh;
          same = ap (λ x. x.agent_id) (sym same);
        },
      )

  -- What is claimed of the identity that a credential resolves to.
  IsSound : ℕ → String → List Agent → Identity → Type 0
  IsSound now credential agents i =
      (i.permissions ≡ permissions_for_role i.role)
      × (i.role ≡ AuthRole.agent → IsOwnToken hash now credential agents i)

  human-IsSound :
      (now : ℕ) (credential : String) (agents : List Agent) (i : Identity) (role : AuthRole)
      (zones : List String)
      → role ≢ AuthRole.agent
      → some (human role zones) ≡ some i
      → IsSound now credential agents i
  unfolding IsSound
  human-IsSound now credential agents i role zones n e =
      let same : human role zones ≡ i = ground arith in rw (← same) (refl, λ a. absurd (n a))

  -- Whatever the credential, the identity that it resolves to holds the permissions of its role and
  -- no others; and an agent's identity is that of the unexpired row with the token's hash.
  pub resolve_sound :
      (now : ℕ) (credential : String) (agents : List Agent) (i : Identity)
      → resolve db hash keys now credential agents ≡ ok (some i)
      → (i.permissions ≡ permissions_for_role i.role)
        × (i.role ≡ AuthRole.agent → IsOwnToken hash now credential agents i)
  unfolding resolve IsSound
  resolve_sound now credential agents i e = elim (Bool-cases (credential == "")) [
    | inl blank ↦ absurd (ground arith)
    | inr given ↦
        elim (branch-eq-ok (key_matches credential keys.admin_key) _ _ (some i) (rw given at e)) [
          | inl h ↦ human-IsSound now credential agents i admin [] (ground arith) h
          | inr e1 ↦
              elim (branch-eq-ok (key_matches credential keys.operator_key) _ _ (some i) e1) [
                | inl h ↦ human-IsSound now credential agents i operator [] (ground arith) h
                | inr e2 ↦
                    elim (branch-eq-ok (key_matches credential keys.viewer_key) _ _ (some i) e2) [
                      | inl h ↦
                          human-IsSound now credential agents i viewer keys.viewer_zones
                            (ground arith) h
                      | inr e3 ↦
                          elim (branch-eq-ok (key_matches credential keys.bootstrap_key) _ _
                            (some i) e3) [
                              | inl h ↦
                                  human-IsSound now credential agents i bootstrap [] (ground arith)
                                    h
                              | inr e4 ↦
                                  let (p, own) =
                                    resolve_agent_sound now credential agents i (ground arith) in
                                  (p, λ _. own)
                            ]
                    ]
              ]
        ]
  ]

  pub guarded_sound :
      (now : ℕ) (route : Route) (r : Request) (agents : List Agent) (c : Option String)
      (i : Identity)
      → guarded db hash keys now route r agents c ≡ ok i
      → (credential : String) × (c ≡ some credential)
        × (resolve db hash keys now credential agents ≡ ok (some i))
        × IsPermitted route r i
  unfolding guarded
  guarded_sound now route r agents none i e = absurd (ground arith)
  guarded_sound now route r agents (some credential) i e =
      let (found, resolved, passed) =
        >>=-eq-ok (resolve db hash keys now credential agents) (authorize_resolved route r) i e in
      let (j, is_j, authorized) = authorize_resolved_sound route r found i passed in
      let (same, permitted) = authorize_sound route r j i authorized in
      (credential, refl, rw (← same) (resolved ∙ ap ok is_j), rw (← same) permitted)

  -- On a guarded HTTP route the guard admits only a request whose credential resolves to the
  -- identity that it attaches, and only where that identity holds every permission of a non-empty
  -- list and, if it is an agent, claims its own id or none: the path's or, where the path has none,
  -- the body's. An id in the body is not read beside one in the path.
  pub can_activate_sound :
      (now : ℕ) (route : Route) (r : Request) (agents : List Agent) (i : Identity)
      → route.is_public ≡ false
      → route.is_http ≡ true
      → can_activate db hash keys now route r agents ≡ ok (some i)
      → (credential : String) × (r.credential ≡ some credential)
        × (resolve db hash keys now credential agents ≡ ok (some i))
        × IsPermitted route r i
  unfolding can_activate
  can_activate_sound now route r agents i hidden http e =
      let (j, passed, same) =
        >>=-eq-ok (guarded db hash keys now route r agents r.credential) (λ x. ok (some x)) (some i)
          (rw (hidden, http) at e) in
      let same' : j ≡ i = ground arith in
      guarded_sound now route r agents r.credential i (passed ∙ ap ok same')

  -- An agent token acts only for its own agent: where the guard admits a request under it, an id in
  -- the path, and without one there an id in the body, is the id of the row that holds the token's
  -- hash. Where both are there, the one in the body is not checked.
  pub agent_acts_as_itself :
      (now : ℕ) (route : Route) (r : Request) (agents : List Agent) (i : Identity) (named : String)
      → route.is_public ≡ false
      → route.is_http ≡ true
      → can_activate db hash keys now route r agents ≡ ok (some i)
      → i.role ≡ AuthRole.agent
      → Names r named
      → (credential : String) × (r.credential ≡ some credential)
        × (row : Agent) × (find (λ a. a.token_hash == some (hash credential)) agents ≡ some row)
        × (row.id ≡ named)
  unfolding acts_as_self
  agent_acts_as_itself now route r agents i named hidden http e is_agent names =
      let (credential, sent, resolved, permitted) =
        can_activate_sound now route r agents i hidden http e in
      let own = (resolve_sound now credential agents i resolved).1 is_agent in
      let self : acts_as_self i.agent_id (text named) ≡ true =
        rw (claimed-text r named names) at (permitted.own is_agent) in
      (
        credential,
        sent,
        own.row,
        own.found,
        ground (arith, own.same, ==_iff i.agent_id (some named)),
      )
