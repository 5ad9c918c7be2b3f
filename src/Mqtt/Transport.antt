-- ===== src/Mqtt/Transport.antt =====
-- What a message does to the hub: what the REST route of its agent does, or nothing.
use project.Agents.Service.{heartbeat, heartbeat_found, record_activity}
use project.Mqtt.Admission.{as_topic_agent_sound, authenticate_sound}
use project.Security.GuardLaws.{resolve_sound}
use project.Contracts.Auth.{AuthRole}
use project.Base.{
  ==_iff, false, Option, Option-cases, String, any, ap, arith, eq_option, eq_string, eq_ℕ, find,
  inl, inr, is_some, is_some-find, none, refl, some, sym, true, ℕ, ◌==◌, ◌∙◌, ◌≡◌, ◌≢◌, ◌⊎◌,
}
use project.Contracts.Modes.{EventType, eq_alert_type}
use project.Db.{Prisma}
use project.Events.{CreateEventRequest, ingest, ingest_found}
use project.Http.{Result, err, ok}
use project.Hub.{Agent, Alert, Event, Hub}
use project.Mqtt.{
  Body, MessageOutcome, admitted, authenticate, done, dropped, fields, finished, handle,
  handle_body, handle_topic, ingest_at, null_body, occurred, perform, raised, type_of,
}
use project.Mqtt.Topic.{TopicKind, event_topic, heartbeat_topic, match_topic}
use project.Security.Credential.{is_expired, AuthKeys, Identity}
use project.Settings.{Settings}

module _ (db : Prisma) (cfg : Settings) where
  -- How the message of a proven agent goes: as the REST heartbeat; as the REST ingestion of the same
  -- event; dropped, for an unknown type; or, for a date that is none, as a heartbeat, the event lost.
  pub data Carries (now : ℕ) (id : String) (h : Hub) (type : Option EventType) (at : Option ℕ)
      (metadata : Option String) : TopicKind → Hub × MessageOutcome → Type 0 where
    as_heartbeat :
        {h' : Hub} (a : Agent)
        → heartbeat db cfg now id h ≡ ok (h', a)
        → Carries now id h type at metadata heartbeat_topic (h', done)
    as_event :
        {h' : Hub} (t : EventType) (n : ℕ) (e : Event) (alert : Option Alert)
        → type ≡ some t
        → at ≡ some n
        → ingest db cfg now
            (record { agent_id = id; type = t; occurred_at = n; metadata = metadata })
            h
          ≡ ok (h', e, alert)
        → Carries now id h type at metadata event_topic (h', done)
    unknown_type : type ≡ none → Carries now id h type at metadata event_topic (h, dropped)
    bad_date :
        {h' : Hub} (a : Agent)
        → at ≡ none
        → heartbeat db cfg now id h ≡ ok (h', a)
        → Carries now id h type at metadata event_topic (h', raised)

  heartbeat_of_row :
      (now : ℕ) (id : String) (h : Hub) (a : Agent)
      → db.find_unique (λ r. r.id == id) h.agents ≡ some a
      → heartbeat db cfg now id h ≡ ok (record_activity db cfg now a h)
  unfolding heartbeat heartbeat_found
  heartbeat_of_row now id h a e = ap (heartbeat_found db cfg now h) e

  ingest_of_row :
      (now : ℕ) (dto : CreateEventRequest) (h : Hub) (a : Agent)
      → db.find_unique (λ r. r.id == dto.agent_id) h.agents ≡ some a
      → (h' : Hub) × (e : Event) × (alert : Option Alert) × (ingest db cfg now dto h
          ≡ ok (h', e, alert))
  unfolding ingest ingest_found
  ingest_of_row now dto h a e = (_, _, _, ap (ingest_found db cfg now dto h) e)

  perform-Carries :
      (now : ℕ) (id : String) (kind : TopicKind) (type : Option EventType) (at : Option ℕ)
      (metadata : Option String) (h : Hub) (a : Agent)
      → db.find_unique (λ r. r.id == id) h.agents ≡ some a
      → Carries now id h type at metadata kind
          (perform db cfg now id kind type at metadata (some a) h)
  unfolding perform ingest_at finished
  perform-Carries now id heartbeat_topic type at metadata h a e =
      as_heartbeat _ (heartbeat_of_row now id h a e)
  perform-Carries now id event_topic none at metadata h a e = unknown_type refl
  perform-Carries now id event_topic (some t) none metadata h a e =
      bad_date _ refl (heartbeat_of_row now id h a e)
  perform-Carries now id event_topic (some t) (some n) metadata h a e =
      let dto : CreateEventRequest = record {
        agent_id = id;
        type = t;
        occurred_at = n;
        metadata = metadata;
      } in
      let (h', event, alert, ingested) = ingest_of_row now dto h a e in
      rw ingested (as_event t n event alert refl refl ingested)

module _ (db : Prisma) (cfg : Settings) (hash : String → String) (keys : AuthKeys)
    (parse : String → Option Body) (parse_date : String → Option ℕ) where
  -- What proves a message to be an agent's own.
  pub record IsProven (now : ℕ) (topic payload : String) (h : Hub) : Type 0 where
    pub id : String
    pub kind : TopicKind
    pub token : String
    pub type : Option String
    pub occurred_at : Option String
    pub metadata : Option String
    pub identity : Identity
    pub at_topic : match_topic topic ≡ some (id, kind)
    pub body : parse payload ≡ some (fields (some token) type occurred_at metadata)
    pub authentic : authenticate db hash keys now id (some token) h.agents ≡ ok (some identity)
    pub registered : any (λ a. a.id == id) h.agents ≡ true

  -- A proven message is carried out as the REST route for the same agent would: a heartbeat as a
  -- heartbeat, an event as its ingestion; only an event of an unknown type is dropped, and one whose
  -- date is none counts as a heartbeat and is lost.
  pub handle_proven :
      (now : ℕ) (topic payload : String) (h : Hub) (m : IsProven now topic payload h)
      → Carries db cfg now m.id h
          (type_of m.type)
          (occurred parse_date now m.occurred_at)
          m.metadata
          m.kind
          (handle db cfg hash keys parse parse_date now topic payload h)
  unfolding handle handle_topic handle_body admitted
  handle_proven now topic payload h m =
      elim (Option-cases (db.find_unique (λ a. a.id == m.id) h.agents)) [
        | inl nobody ↦
            let found = is_some-find (λ a. a.id == m.id) h.agents ∙ m.registered in
            absurd (ground (arith, found, nobody, db.find_unique_lem (λ a. a.id == m.id) h.agents))
        | inr somebody ↦
            let (a, e) = somebody in
            rw (m.at_topic, m.body, m.authentic, e)
              (perform-Carries db cfg now m.id m.kind (type_of m.type)
                (occurred parse_date now m.occurred_at) m.metadata h a e)
      ]

  -- That the token of a message is held by the registered agent in its topic: the row with the
  -- token's hash has not expired and has that agent's id.
  pub IsHeld : (now : ℕ) (topic payload : String) (h : Hub) → IsProven now topic payload h → Type 0
  IsHeld now topic payload h m =
      (m.identity.role ≡ AuthRole.agent)
      × (row : Agent) × (find (λ a. a.token_hash == some (hash m.token)) h.agents ≡ some row)
      × (is_expired now row.token_expires_at ≡ false)
      × (row.id ≡ m.id)

  proven-IsHeld :
      (now : ℕ) (topic payload : String) (h : Hub) (m : IsProven now topic payload h)
      → IsHeld now topic payload h m
  unfolding IsHeld
  proven-IsHeld now topic payload h m =
      let (resolved, admits) =
        authenticate_sound m.kind m.id m.token db hash keys now h.agents m.identity m.authentic in
      let (is_agent, own_id, _) =
        as_topic_agent_sound m.kind m.id m.token m.identity m.identity admits in
      let own = (resolve_sound db hash keys now m.token h.agents m.identity resolved).1 is_agent in
      (
        is_agent,
        own.row,
        own.found,
        own.fresh,
        ground (arith, own.same, ==_iff m.identity.agent_id (some m.id)),
      )

  -- What is claimed of a message's result.
  abbrev Verdict : ℕ → String → String → Hub → Hub × MessageOutcome → Type 0
  Verdict now topic payload h r = ((r.0 ≡ h) × (r.1 ≢ done)) ⊎ IsProven now topic payload h

  found-Verdict :
      (now : ℕ) (topic payload id : String) (kind : TopicKind) (token : String)
      (type occurred_at metadata : Option String) (h : Hub) (i : Identity) (o : Option Agent)
      → match_topic topic ≡ some (id, kind)
      → parse payload ≡ some (fields (some token) type occurred_at metadata)
      → authenticate db hash keys now id (some token) h.agents ≡ ok (some i)
      → find (λ a. a.id == id) h.agents ≡ o
      → Verdict now topic payload h (
          perform db cfg now id kind
            (type_of type)
            (occurred parse_date now occurred_at)
            metadata
            o
            h)
  unfolding perform
  found-Verdict now topic payload id kind token type occurred_at metadata h i none t b u f =
      inl (refl, ground arith)
  found-Verdict now topic payload id kind token type occurred_at metadata h i (some a) t b u f =
      inr (record {
        id = id;
        kind = kind;
        token = token;
        type = type;
        occurred_at = occurred_at;
        metadata = metadata;
        identity = i;
        at_topic = t;
        body = b;
        authentic = u;
        registered = sym (is_some-find (λ a. a.id == id) h.agents) ∙ ap is_some f;
      })

  token-Verdict :
      (now : ℕ) (topic payload id : String) (kind : TopicKind) (token : String)
      (type occurred_at metadata : Option String) (h : Hub) (o : Result (Option Identity))
      → match_topic topic ≡ some (id, kind)
      → parse payload ≡ some (fields (some token) type occurred_at metadata)
      → authenticate db hash keys now id (some token) h.agents ≡ o
      → Verdict now topic payload h (
          admitted o h (
            perform db cfg now id kind
              (type_of type)
              (occurred parse_date now occurred_at)
              metadata
              (db.find_unique (λ a. a.id == id) h.agents)
              h))
  unfolding admitted
  token-Verdict now topic payload id kind token type occurred_at metadata h (err e) t b u =
      inl (refl, ground arith)
  token-Verdict now topic payload id kind token type occurred_at metadata h (ok none) t b u =
      inl (refl, ground arith)
  token-Verdict now topic payload id kind token type occurred_at metadata h (ok (some i)) t b u =
      found-Verdict now topic payload id kind token type occurred_at metadata h i _ t b u
        (sym (db.find_unique_lem (λ a. a.id == id) h.agents))

  body-Verdict :
      (now : ℕ) (topic payload id : String) (kind : TopicKind) (h : Hub) (o : Option Body)
      → match_topic topic ≡ some (id, kind)
      → parse payload ≡ o
      → Verdict now topic payload h (handle_body db cfg hash keys parse parse_date now id kind o h)
  unfolding handle_body admitted authenticate
  body-Verdict now topic payload id kind h none t b = inl (refl, ground arith)
  body-Verdict now topic payload id kind h (some null_body) t b = inl (refl, ground arith)
  body-Verdict now topic payload id kind h (some (fields none type occurred_at metadata)) t b =
      inl (refl, ground arith)
  body-Verdict now topic payload id kind h (some (fields (some token) type at metadata)) t b =
      token-Verdict now topic payload id kind token type at metadata h _ t b refl

  topic-Verdict :
      (now : ℕ) (topic payload : String) (h : Hub) (o : Option (String × TopicKind))
      → match_topic topic ≡ o
      → Verdict now topic payload h (handle_topic db cfg hash keys parse parse_date now o payload h)
  unfolding handle_topic
  topic-Verdict now topic payload h none t = inl (refl, ground arith)
  topic-Verdict now topic payload h (some (id, kind)) t =
      body-Verdict now topic payload id kind h (parse payload) t refl

  -- A message leaves the hub as it is and does not count as carried out, unless its token resolves to
  -- the registered agent in its topic: the row that holds the token's hash has not expired and has the
  -- id in the topic.
  pub handle_unproven :
      (now : ℕ) (topic payload : String) (h : Hub)
      → (((handle db cfg hash keys parse parse_date now topic payload h).0 ≡ h)
          × ((handle db cfg hash keys parse parse_date now topic payload h).1 ≢ done))
        ⊎ ((m : IsProven now topic payload h) × IsHeld now topic payload h m)
  unfolding handle
  handle_unproven now topic payload h =
      elim (topic-Verdict now topic payload h (match_topic topic) refl) [
        | inl nothing ↦ inl nothing
        | inr m ↦ inr (m, proven-IsHeld now topic payload h m)
      ]
