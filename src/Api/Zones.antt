-- ===== src/Api/Zones.antt =====
-- What a caller with zones gets to read.
use project.Api.Queries.{
  QueryAlertsRequest, QueryEventsRequest, find_alerts, find_events, is_visible, is_in_zones,
  limited, located, take_rows,
}
use project.Base.{
  Bool, Bool-cases, List, Option, Option-cases, String, [], all, all_mono, any, eq_string, false,
  find, inl, inr, some, ◌==◌, all-select, ap, arith, length, none, refl, some, suc, true, zero, ℕ,
  ◌&&◌, ◌∙◌, ◌∷◌, ◌≡◌, ◌≤◌,
}
use project.Dashboard.Cluster.{is_newer, sort}
use project.Dashboard.Clustered.{all-sort}
use project.Db.{Prisma}
use project.Hub.{Agent, Hub}
use project.Settings.{Settings}

all-take_rows :
    {R : Type 0} (p : R → Bool) (n : ℕ) (rows : List R)
    → all p rows ≡ true
    → all p (take_rows n rows) ≡ true
unfolding take_rows all
all-take_rows p zero rows h = refl
all-take_rows p (suc n) [] h = refl
all-take_rows p (suc n) (r ∷ rows) h = ground (arith, all-take_rows p n rows)

length-take_rows : {R : Type 0} (n : ℕ) (rows : List R) → length (take_rows n rows) ≤ n
unfolding take_rows
length-take_rows zero rows = omega arith
length-take_rows (suc n) [] = omega arith
length-take_rows (suc n) (r ∷ rows) = omega (arith, length-take_rows n rows)

both : (b c : Bool) → (b && c) ≡ true → b ≡ true
both b c h = ground arith

limited_le : (cfg : Settings) (limit : Option ℕ) → limited cfg limit ≤ cfg.max_limit
unfolding limited
limited_le cfg none = omega arith
limited_le cfg (some n) = omega arith

length_page :
    {R : Type 0} (cfg : Settings) (limit : Option ℕ) (rows : List R)
    → length (take_rows (limited cfg limit) rows) ≤ cfg.max_limit
length_page cfg limit rows =
    omega (arith, length-take_rows (limited cfg limit) rows, limited_le cfg limit)

module _ (db : Prisma) (cfg : Settings) (insensitive : String → String → Bool) where
  -- The first rows of an ordered query pass the first part of its condition.
  all-page :
      {R : Type 0} (before : R → R → Bool) (q rest : R → Bool) (n : ℕ) (rows : List R)
      → all q (take_rows n (sort before (db.find_many (λ r. q r && rest r) rows))) ≡ true
  all-page before q rest n rows =
      all-take_rows q n (sort before (db.find_many (λ r. q r && rest r) rows)) (
        all-sort before q (db.find_many (λ r. q r && rest r) rows)
        ∙ ap (all q) (db.find_many_lem (λ r. q r && rest r) rows)
        ∙ all-select (λ r. q r && rest r) q rows (λ r. both (q r) (rest r)))

  -- An agent with that id whose location is one of the zones; no zones stand for all of them.
  pub is_watched : List String → List Agent → Option String → Bool
  unfolding any
  is_watched [] agents id = true
  is_watched (z ∷ zones) agents none = false
  is_watched (z ∷ zones) agents (some id) =
      any (λ a. a.id == id && any (λ zone. insensitive zone a.location) (z ∷ zones)) agents

  found-watched :
      (p : Agent → Bool) (id : String) (agents : List Agent) (a : Agent)
      → find (λ a. a.id == id) agents ≡ some a
      → p a ≡ true
      → any (λ a. a.id == id && p a) agents ≡ true
  unfolding find any
  found-watched p id [] a e h = absurd (ground arith)
  found-watched p id (b ∷ agents) a e h = elim (Bool-cases (b.id == id)) [
    | inl f ↦ let same : b ≡ a = ground (arith, f, e) in rw (f, ap p same ∙ h) refl
    | inr f ↦ rw f (found-watched p id agents a (ground (arith, f, e)) h)
  ]

  is_visible-watched :
      (zones : List String) (agents : List Agent) (id : Option String)
      → is_visible db cfg insensitive zones agents id ≡ true
      → is_watched zones agents id ≡ true
  unfolding is_visible is_watched located is_in_zones
  is_visible-watched [] agents id h = refl
  is_visible-watched (z ∷ zones) agents none h = h
  is_visible-watched (z ∷ zones) agents (some id) h =
      elim (Option-cases (find (λ a. a.id == id) agents)) [
        | inl nobody ↦
            absurd (ground (arith, h, nobody, db.find_unique_lem (λ a. a.id == id) agents))
        | inr (a, found) ↦
            found-watched (λ a. any (λ zone. insensitive zone a.location) (z ∷ zones)) id agents a
              found (rw (db.find_unique_lem, found) at h)
      ]

  all-watched :
      {R : Type 0} (zones : List String) (agents : List Agent) (agent_of : R → Option String)
      (rows : List R)
      → all (λ r. is_visible db cfg insensitive zones agents (agent_of r)) rows ≡ true
      → all (λ r. is_watched zones agents (agent_of r)) rows ≡ true
  all-watched zones agents agent_of rows =
      all_mono _ _ rows (λ r. is_visible-watched zones agents (agent_of r))

  -- Whatever a query asks for, of each alert and each event that it returns there is an agent with its
  -- agent's id and with a location in one of the caller's zones, if the caller has any; and it returns
  -- no more than the configured maximum.
  pub queries_in_zones :
      (alerts : QueryAlertsRequest) (events : QueryEventsRequest) (zones : List String) (h : Hub)
      → (all
            (λ a. is_watched zones h.agents a.agent_id)
            (find_alerts db cfg insensitive alerts zones h)
          ≡ true)
        × (length (find_alerts db cfg insensitive alerts zones h) ≤ cfg.max_limit)
        × (all
              (λ e. is_watched zones h.agents (some e.agent_id))
              (find_events db cfg insensitive events zones h)
            ≡ true)
        × (length (find_events db cfg insensitive events zones h) ≤ cfg.max_limit)
  unfolding find_alerts find_events
  queries_in_zones alerts events zones h = (
    all-watched zones h.agents (λ a. a.agent_id) _
        (all-page is_newer _ _ (limited cfg alerts.limit) h.alerts),
    length_page cfg alerts.limit _,
    all-watched zones h.agents (λ e. some e.agent_id) _
        (all-page _ _ _ (limited cfg events.limit) h.events),
    length_page cfg events.limit _,
  )
