-- ===== src/Mqtt/Admission.antt =====
-- A message is accepted from whom the REST route would accept it.
use project.Base.{
  ==_iff, Bool-cases, List, Option, Option-cases, String, [], any, ap, arith, eq_option, eq_string,
  eq_ℕ, false, inl, inr, refl, select, some, sym, true, ℕ, ◌==◌, ◌↔◌, ◌∙◌, ◌∷◌, ◌≡◌,
}
use project.Contracts.Auth.{
  AuthRole, Permission, agents_heartbeat, eq_permission, eq_role, events_write, includes,
  permissions_for_role,
}
use project.Db.{Prisma}
use project.Http.{>>=-eq-ok, ok, ok-injective}
use project.Hub.{Agent}
use project.Mqtt.{as_topic_agent, authenticate}
use project.Mqtt.Topic.{TopicKind, event_topic, heartbeat_topic}
use project.Notifications.Service.{given}
use project.Security.Credential.{AuthKeys, Identity, resolve}
use project.Security.Guard.{
  Claim, Request, Route, acts_as_self, authorize, authorize_resolved, can_activate, claimed,
  guarded, missing, text,
}
use project.Security.GuardLaws.{IsPermitted, can_activate_sound, resolve_sound}

-- The REST route of each topic, and the request that carries the same claim and the same token.
unfoldable pub route_of : TopicKind → Route
route_of event_topic = record { is_public = false; is_http = true; required = events_write ∷ [] }
route_of heartbeat_topic = record {
  is_public = false;
  is_http = true;
  required = agents_heartbeat ∷ [];
}

unfoldable pub request_of : TopicKind → String → String → Request
request_of event_topic id token = record {
  credential = some token;
  param_id = Claim.absent;
  body_agent_id = text id;
}
request_of heartbeat_topic id token = record {
  credential = some token;
  param_id = text id;
  body_agent_id = Claim.absent;
}

module _ (kind : TopicKind) (id token : String) where
  granted-route_of :
      (i : Identity)
      → i.permissions ≡ permissions_for_role i.role
      → i.role ≡ AuthRole.agent
      → missing (route_of kind).required i ≡ []
  unfolding route_of permissions_for_role missing includes any select
  granted-route_of i by_role is_agent =
      let held : i.permissions ≡ permissions_for_role AuthRole.agent =
        by_role ∙ ap permissions_for_role is_agent in
      elim kind as (λ k. missing (route_of k).required i ≡ []) [
        | event_topic ↦ rw held refl
        | heartbeat_topic ↦ rw held refl
      ]

  open_route : ((route_of kind).is_public ≡ false) × ((route_of kind).is_http ≡ true)
  unfolding route_of
  open_route =
      elim kind as (λ k. ((route_of k).is_public ≡ false) × ((route_of k).is_http ≡ true)) [
        | event_topic ↦ (refl, refl)
        | heartbeat_topic ↦ (refl, refl)
      ]

  required_one : (p : Permission) × ((route_of kind).required ≡ p ∷ [])
  unfolding route_of
  required_one = elim kind as (λ k. (p : Permission) × ((route_of k).required ≡ p ∷ [])) [
    | event_topic ↦ (events_write, refl)
    | heartbeat_topic ↦ (agents_heartbeat, refl)
  ]

  credential-request_of : (request_of kind id token).credential ≡ some token
  unfolding request_of
  credential-request_of = elim kind as (λ k. (request_of k id token).credential ≡ some token) [
    | event_topic ↦ refl
    | heartbeat_topic ↦ refl
  ]

  acts-request_of :
      (agent_id : Option String)
      → acts_as_self agent_id (claimed (request_of kind id token)) ≡ (agent_id == some id)
  unfolding acts_as_self request_of
  acts-request_of agent_id =
      elim kind
        as (λ k. acts_as_self agent_id (claimed (request_of k id token)) ≡ (agent_id == some id)) [
          | event_topic ↦ refl
          | heartbeat_topic ↦ refl
        ]

  pub as_topic_agent_sound :
      (i j : Identity)
      → as_topic_agent id (some i) ≡ some j
      → (i.role ≡ AuthRole.agent) × ((i.agent_id == some id) ≡ true) × (i ≡ j)
  as_topic_agent_sound i j e =
      (ground (arith, ==_iff i.role AuthRole.agent), ground arith, ground arith)

  -- What the guard asks of an agent is what the handler asks.
  authorize-as_topic_agent :
      (i j : Identity)
      → i.permissions ≡ permissions_for_role i.role
      → as_topic_agent id (some i) ≡ some j
      → (j.role ≡ AuthRole.agent) × (authorize (route_of kind) (request_of kind id token) i ≡ ok j)
  unfolding authorize
  authorize-as_topic_agent i j by_role e =
      let (is_agent, own, same) = as_topic_agent_sound i j e in
      let (p, one) = required_one in
      (
        ap (λ x. x.role) (sym same) ∙ is_agent,
        ground (arith, one, granted-route_of i by_role is_agent, acts-request_of i.agent_id, own),
      )

  as_topic_agent-IsPermitted :
      (i : Identity)
      → i.role ≡ AuthRole.agent
      → IsPermitted (route_of kind) (request_of kind id token) i
      → as_topic_agent id (some i) ≡ some i
  as_topic_agent-IsPermitted i is_agent permitted =
      let self = sym (acts-request_of i.agent_id) ∙ permitted.own is_agent in
      ground (arith, ==_iff i.role AuthRole.agent, self)

  module _ (db : Prisma) (hash : String → String) (keys : AuthKeys) where
    resolve-ne_blank :
        (now : ℕ) (agents : List Agent) (j : Identity)
        → resolve db hash keys now token agents ≡ ok (some j)
        → (token == "") ≡ false
    unfolding resolve
    resolve-ne_blank now agents j e = ground arith

    pub authenticate_sound :
        (now : ℕ) (agents : List Agent) (j : Identity)
        → authenticate db hash keys now id (some token) agents ≡ ok (some j)
        → (resolve db hash keys now token agents ≡ ok (some j))
          × (as_topic_agent id (some j) ≡ some j)
    unfolding authenticate
    authenticate_sound now agents j e = elim (Bool-cases (token == "")) [
      | inl blank ↦ absurd (ground arith)
      | inr given ↦
          let (o, resolved, same) =
            >>=-eq-ok (resolve db hash keys now token agents) (λ o. ok (as_topic_agent id o))
              (some j) (rw given at e) in
          elim (Option-cases o) [
            | inl nobody ↦ absurd (ground (arith, same, nobody))
            | inr somebody ↦
                let (i, is_i) = somebody in
                let admits = ap (as_topic_agent id) (sym is_i) ∙ ok-injective _ (some j) same in
                let (a, b, i_is_j) = as_topic_agent_sound i j admits in
                (
                  resolved ∙ ap ok (is_i ∙ ap some i_is_j),
                  ap (λ x. as_topic_agent id (some x)) (sym i_is_j) ∙ admits,
                )
          ]
    ]

    can_activate_resolved :
        (now : ℕ) (agents : List Agent) (j : Identity)
        → resolve db hash keys now token agents ≡ ok (some j)
        → authorize (route_of kind) (request_of kind id token) j ≡ ok j
        → can_activate db hash keys now (route_of kind) (request_of kind id token) agents
          ≡ ok (some j)
    unfolding can_activate guarded authorize_resolved
    can_activate_resolved now agents j resolved passed =
        rw (open_route.0, open_route.1, credential-request_of, resolved, passed) refl

    -- A message's token is accepted for the agent in the topic exactly if it is an agent's and the REST
    -- guard would admit a request to the matching route with that token and that agent id: the two
    -- transports let in the same agents.
    pub same_admission :
        (now : ℕ) (agents : List Agent) (j : Identity)
        → (authenticate db hash keys now id (some token) agents ≡ ok (some j)) ↔ (
            (j.role ≡ AuthRole.agent)
            × (can_activate db hash keys now (route_of kind) (request_of kind id token) agents
                ≡ ok (some j)))
    unfolding authenticate
    same_admission now agents j = (
      λ e.
          let (resolved, admits) = authenticate_sound now agents j e in
          let (by_role, own) = resolve_sound db hash keys now token agents j resolved in
          let (is_agent, passed) = authorize-as_topic_agent j j by_role admits in
          (is_agent, can_activate_resolved now agents j resolved passed),
      λ e.
          let (credential, given, resolved, permitted) =
            can_activate_sound db hash keys now (route_of kind) (request_of kind id token) agents j
              open_route.0 open_route.1 e.1 in
          let same : credential ≡ token = ground (arith, given, credential-request_of) in
          let resolved' = ap (λ t. resolve db hash keys now t agents) (sym same) ∙ resolved in
          rw
            (
              resolve-ne_blank now agents j resolved',
              resolved',
              as_topic_agent-IsPermitted j e.0 permitted,
            )
            refl,
    )
