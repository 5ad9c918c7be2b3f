-- ===== src/Dashboard/Cluster.antt =====
-- dashboard/src/lib/cluster.ts: the collapse of repeated alerts into rows. A member's time is its
-- number of milliseconds. `sort` is the stable sort that the language prescribes.
use project.Base.{
  Bool, List, Option, String, [], all, concat, eq_option, eq_string, eq_ℕ, if◌then◌else◌, length,
  ltb, map, none, not, select, some, ℕ, ◌++◌, ◌==◌, ◌∷◌,
}
use project.Contracts.Modes.{AlertSeverity, AlertType, eq_alert_type, eq_severity, severity_index}
use project.Hub.{Alert}
use project.Maintenance.RollUp.{groups}

abbrev pub alert_type_text : AlertType → String
alert_type_text AlertType.intrusion_motion = "intrusion_motion"
alert_type_text AlertType.intrusion_door = "intrusion_door"
alert_type_text AlertType.camera_motion = "camera_motion"
alert_type_text AlertType.agent_offline = "agent_offline"
alert_type_text AlertType.agent_recovered = "agent_recovered"

-- `RANK`.
abbrev pub rank : AlertSeverity → ℕ
rank = severity_index

pub record AlertCluster : Type 0 where
  pub key : String
  pub latest : Alert
  pub members : List Alert
  pub count : ℕ
  pub severity : AlertSeverity
  pub acknowledged : Bool
  pub open_ids : List String
  pub first_at : ℕ
  pub last_at : ℕ

abbrev or_system : Option String → String
or_system none = "system"
or_system (some id) = id

unfoldable pub cluster_key : Alert → String
cluster_key a = concat (alert_type_text a.type ∷ "::" ∷ or_system a.agent_id ∷ [])

-- The groups, in the order of their first members; `groups.get(key)` and its two branches.
unfoldable pub add_alert : String → Alert → List (String × List Alert) → List (String × List Alert)
add_alert key a [] = (key, a ∷ []) ∷ []
add_alert key a ((k, members) ∷ groups) =
    if k == key then (k, members ++ a ∷ []) ∷ groups else (k, members) ∷ add_alert key a groups

unfoldable pub group_alerts : List Alert → List (String × List Alert) → List (String × List Alert)
unfolding add_alert cluster_key
group_alerts [] groups = groups
group_alerts (a ∷ alerts) groups = group_alerts alerts (add_alert (cluster_key a) a groups)

-- A stable sort, by whether the second of two elements goes before the first.
module _ {A : Type 0} (goes_before : A → A → Bool) where
  unfoldable pub insert : A → List A → List A
  insert x [] = x ∷ []
  insert x (y ∷ ys) = if goes_before y x then y ∷ insert x ys else x ∷ y ∷ ys

  unfoldable pub sort : List A → List A
  unfolding insert
  sort [] = []
  sort (x ∷ xs) = insert x (sort xs)

-- `b.createdAt - a.createdAt`.
abbrev pub is_newer : Alert → Alert → Bool
is_newer b a = ltb a.created_at b.created_at

-- `sorted.reduce(...)`, from the first member.
unfoldable pub worst_of : Alert → List Alert → Alert
worst_of acc [] = acc
worst_of acc (a ∷ alerts) =
    worst_of (if ltb (rank acc.severity) (rank a.severity) then a else acc) alerts

unfoldable pub last_of : Alert → List Alert → Alert
last_of a [] = a
last_of a (b ∷ alerts) = last_of b alerts

-- The row of a group; a group has a member.
unfoldable pub row_of : String → List Alert → List AlertCluster
unfolding worst_of last_of all select
row_of key [] = []
row_of key (a ∷ alerts) =
    record {
      key = key;
      latest = a;
      members = a ∷ alerts;
      count = length (a ∷ alerts);
      severity = (worst_of a alerts).severity;
      acknowledged = all (λ m. m.acknowledged) (a ∷ alerts);
      open_ids = map (λ m. m.id) (select (λ m. not m.acknowledged) (a ∷ alerts));
      first_at = (last_of a alerts).created_at;
      last_at = a.created_at;
    }
    ∷ []

unfoldable pub rows_of : List (String × List Alert) → List AlertCluster
unfolding row_of sort
rows_of [] = []
rows_of ((key, members) ∷ groups) = row_of key (sort is_newer members) ++ rows_of groups

-- The comparator of the clusters: whether `b` goes before `a`.
unfoldable pub is_more_urgent : AlertCluster → AlertCluster → Bool
is_more_urgent b a =
    if not (if a.acknowledged then b.acknowledged else not b.acknowledged)
    then a.acknowledged
    else if not (a.severity == b.severity)
    then ltb (rank a.severity) (rank b.severity)
    else ltb a.last_at b.last_at

unfoldable pub cluster_alerts : List Alert → List AlertCluster
unfolding group_alerts rows_of sort is_more_urgent
cluster_alerts alerts = sort is_more_urgent (rows_of (group_alerts alerts []))
