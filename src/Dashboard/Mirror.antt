-- ===== src/Dashboard/Mirror.antt =====
-- The dashboard's mirror against the hub's policy.
use project.Base.{
  Bool, List, Option, Option-cases, String, [], arith, count, eq_option, eq_string, eq_ℕ, find, inl,
  inr, length, none, refl, select, some, true, ◌==◌, ◌∷◌, ◌≡◌,
}
use project.Contracts.Auth.{zone_allows}
use project.Contracts.Modes.{SystemMode, eq_mode}
use project.Dashboard.Permissions.{can_acknowledge, evaluate_mode_change, open_critical}
use project.Db.{Prisma}
use project.Hub.{Agent, Alert}
use project.Security.Credential.{Identity}
use project.Security.Policy.{
  can_access_location, can_acknowledge_alert, can_set_mode, is_open_critical,
}

length-select : (p : Alert → Bool) (alerts : List Alert) → length (select p alerts) ≡ count p alerts
unfolding select count
length-select p [] = refl
length-select p (a ∷ alerts) = ground (arith, length-select p alerts)

-- On the same alerts the dashboard reaches the hub's decision on a mode change: allowed or not, the
-- reason, and the role that could act instead.
pub evaluate_mode_change-can_set_mode :
    (db : Prisma) (identity : Identity) (target : SystemMode) (alerts : List Alert)
    → evaluate_mode_change identity target alerts ≡ can_set_mode db identity target alerts
unfolding evaluate_mode_change can_set_mode open_critical is_open_critical
evaluate_mode_change-can_set_mode db identity target alerts =
    ground (arith, length-select is_open_critical alerts, db.count_rows_lem is_open_critical alerts)

-- The location of an agent in the registry.
abbrev pub registry_location : List Agent → String → Option String
registry_location agents id = elim (find (λ (r : Agent). r.id == id) agents) [
  | none ↦ none
  | some a ↦ some a.location
]

-- With the registry's locations, the dashboard offers every acknowledgement that the hub would
-- accept: it never hides an alert that the credential may clear.
can_acknowledge_offered :
    (db : Prisma) (lower : String → String) (identity : Identity) (agents : List Agent)
    (alerts : List Alert) (a : Alert)
    → find (λ r. r.id == a.id) alerts ≡ some a
    → (can_acknowledge_alert lower db identity a.id agents alerts).allowed ≡ true
    → (can_acknowledge lower identity a (registry_location agents)).allowed ≡ true
unfolding can_acknowledge can_acknowledge_alert can_access_location zone_allows
can_acknowledge_offered db lower identity agents alerts a found e =
    let row = db.find_unique_lem (λ (r : Alert). r.id == a.id) alerts in
    elim (Option-cases a.agent_id) [
      | inl unlinked ↦ ground (arith, found, row)
      | inr (id, linked) ↦
          ground (arith, found, row, db.find_unique_lem (λ (r : Agent). r.id == id) agents)
    ]
