-- ===== src/Api/Queries.antt =====
-- hub/src/alerts/alerts.service.ts, hub/src/events/events.service.ts and
-- hub/src/agents/agents.service.ts: the list queries, with the zones of the caller. `insensitive`
-- stands for the database's comparison of texts without case; a view is its row.
use project.Base.{
  Bool, Eq, List, Option, String, [], any, eq_option, eq_string, eq_ℕ, false, if◌then◌else◌, ltb,
  min, none, not, option_eq, some, suc, true, zero, ℕ, ◌&&◌, ◌==◌, ◌∷◌,
}
use project.Contracts.Modes.{AlertType, EventType, eq_alert_type, eq_event_type}
use project.Dashboard.Cluster.{is_newer, sort}
use project.Db.{Prisma}
use project.Hub.{Agent, Alert, Event, Hub}
use project.Settings.{Settings}

pub record QueryAlertsRequest : Type 0 where
  pub limit : Option ℕ
  pub acknowledged : Option Bool
  pub type : Option AlertType
  pub agent_id : Option String

pub record QueryEventsRequest : Type 0 where
  pub limit : Option ℕ
  pub agent_id : Option String
  pub type : Option EventType
  pub since : Option ℕ

-- `take: limit`.
unfoldable pub take_rows : {R : Type 0} → ℕ → List R → List R
take_rows zero rows = []
take_rows (suc n) [] = []
take_rows (suc n) (r ∷ rows) = r ∷ take_rows n rows

-- A condition of the `where` that is only there where the query asks for it.
abbrev pub asked {ℓ} : {T : Type ℓ} → ⦃by : Eq T⦄ → Option T → T → Bool
asked none x = true
asked (some y) x = x == y

abbrev pub asked_text : Option String → Option String → Bool
asked_text none x = true
asked_text (some y) x = if y == "" then true else option_eq x (some y)

abbrev pub flag_eq : Option Bool → Bool → Bool
flag_eq none b = true
flag_eq (some true) b = b
flag_eq (some false) b = not b

abbrev pub after : Option ℕ → ℕ → Bool
after none t = true
after (some since) t = ltb since t

-- `Math.min(query.limit ?? this.defaultLimit, this.maxLimit)`.
unfoldable pub limited : Settings → Option ℕ → ℕ
limited cfg none = min cfg.default_limit cfg.max_limit
limited cfg (some n) = min n cfg.max_limit

module _ (db : Prisma) (cfg : Settings) (insensitive : String → String → Bool) where
  -- `location: { in: zones, mode: 'insensitive' }`.
  unfoldable pub is_in_zones : List String → String → Bool
  unfolding any
  is_in_zones zones location = any (λ zone. insensitive zone location) zones

  unfoldable pub located : List String → Option Agent → Bool
  located zones none = false
  located zones (some a) = is_in_zones zones a.location

  -- The condition on the agent relation, where the caller has zones.
  unfoldable pub is_visible : List String → List Agent → Option String → Bool
  unfolding located is_in_zones
  is_visible [] agents id = true
  is_visible (z ∷ zones) agents none = false
  is_visible (z ∷ zones) agents (some id) =
      located (z ∷ zones) (db.find_unique (λ a. a.id == id) agents)

  unfoldable pub find_alerts : QueryAlertsRequest → List String → Hub → List Alert
  unfolding take_rows sort is_visible limited
  find_alerts query zones h = take_rows (limited cfg query.limit) (
      sort is_newer (
        db.find_many
          (λ a.
            is_visible zones h.agents a.agent_id
            && (flag_eq query.acknowledged a.acknowledged
                && (asked query.type a.type && asked_text query.agent_id a.agent_id)))
          h.alerts))

  abbrev is_later : Event → Event → Bool
  is_later b a = ltb a.created_at b.created_at

  unfoldable pub find_events : QueryEventsRequest → List String → Hub → List Event
  unfolding take_rows sort is_visible limited
  find_events query zones h = take_rows (limited cfg query.limit) (
      sort is_later (
        db.find_many
          (λ e.
            is_visible zones h.agents (some e.agent_id)
            && (after query.since e.created_at
                && (asked query.type e.type && asked_text query.agent_id (some e.agent_id))))
          h.events))

  -- The order of the rows, by status and identifier, is left to the database.
  unfoldable pub find_agents : List String → Hub → List Agent
  unfolding is_in_zones
  find_agents [] h = db.find_many (λ a. true) h.agents
  find_agents (z ∷ zones) h = db.find_many (λ a. is_in_zones (z ∷ zones) a.location) h.agents
