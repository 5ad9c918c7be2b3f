-- ===== src/Maintenance/RollUp.antt =====
-- hub/src/maintenance/retention.service.ts: rollUpEvents. The SQL statement that counts and stores
-- the buckets is written out: the groups of the window's events, then the insert that replaces the
-- count of a bucket that is there. The generated id of a row, which nothing reads, and the log line
-- are left out.
use project.Base.{
  Bool, List, Option, String, [], eq_option, eq_string, eq_ℕ, if◌then◌else◌, leb, length, ltb, max,
  min, none, select, some, true, ℕ, ◌&&◌, ◌*◌, ◌+◌, ◌==◌, ◌∷◌,
}
use project.Contracts.Modes.{EventType, eq_event_type}
use project.Hub.{Event}
use project.Maintenance.Retention.{hour_ms, start_of_hour}

-- `MAX_ROLLUP_HOURS_PER_SWEEP`.
abbrev pub max_rollup_hours_per_sweep : ℕ
max_rollup_hours_per_sweep = 2160

-- The unique key of the EventRollup table.
pub record Bucket : Type 0 where
  pub hour : ℕ
  pub agent_id : String
  pub type : EventType

pub record EventRollup : Type 0 where
  pub bucket : Bucket
  pub count : ℕ

unfoldable pub bucket_eq : Bucket → Bucket → Bool
bucket_eq a b = a.hour == b.hour && (a.agent_id == b.agent_id && a.type == b.type)

-- The time at which a bucket ends.
abbrev pub hour_end : Bucket → ℕ
hour_end b = b.hour + hour_ms

unfoldable pub bucket_of : Event → Bucket
unfolding start_of_hour
bucket_of e = record { hour = start_of_hour e.created_at; agent_id = e.agent_id; type = e.type }

-- `GROUP BY date_trunc('hour', "createdAt"), "agentId", "type"` with its `COUNT(*)`.
unfoldable pub add_to_groups : Bucket → List EventRollup → List EventRollup
unfolding bucket_eq
add_to_groups b [] = record { bucket = b; count = 1 } ∷ []
add_to_groups b (g ∷ gs) =
    if bucket_eq b g.bucket then record g { count = g.count + 1 } ∷ gs else g ∷ add_to_groups b gs

unfoldable pub groups : List Event → List EventRollup
unfolding bucket_of add_to_groups
groups [] = []
groups (e ∷ es) = add_to_groups (bucket_of e) (groups es)

-- `INSERT ... ON CONFLICT DO UPDATE SET "count" = EXCLUDED."count"`.
unfoldable pub insert_bucket : EventRollup → List EventRollup → List EventRollup
unfolding bucket_eq
insert_bucket g [] = g ∷ []
insert_bucket g (r ∷ rows) =
    if bucket_eq g.bucket r.bucket
    then record r { count = g.count } ∷ rows
    else r ∷ insert_bucket g rows

unfoldable pub insert_all : List EventRollup → List EventRollup → List EventRollup
unfolding insert_bucket
insert_all [] rows = rows
insert_all (g ∷ gs) rows = insert_bucket g (insert_all gs rows)

-- The first hour that is not counted: one after `SELECT MAX("hour")`, and 0 for no row.
unfoldable pub next_hour : List EventRollup → ℕ
next_hour [] = 0
next_hour (r ∷ rows) = max (hour_end r.bucket) (next_hour rows)

abbrev pub earlier : ℕ → Option ℕ → ℕ
earlier t none = t
earlier t (some u) = min t u

-- `findFirst` ordered by `createdAt`.
unfoldable pub oldest : List Event → Option ℕ
oldest [] = none
oldest (e ∷ es) = some (earlier e.created_at (oldest es))

unfoldable pub in_window : ℕ → ℕ → Event → Bool
in_window from to e = leb from e.created_at && ltb e.created_at to

pub record RolledUp : Type 0 where
  pub rollups : List EventRollup
  pub buckets : ℕ
  pub rolled_through : ℕ
  pub caught_up : Bool

abbrev hour_of : Option ℕ → Option ℕ
hour_of none = none
hour_of (some at) = some (start_of_hour at)

-- Where the count starts, when there is anything to count.
unfoldable pub start_from : List EventRollup → List Event → Option ℕ
unfolding next_hour oldest start_of_hour
start_from [] events = hour_of (oldest events)
start_from (r ∷ rows) events = some (next_hour (r ∷ rows))

unfoldable pub window_end : ℕ → ℕ → ℕ
window_end from current = min (from + max_rollup_hours_per_sweep * hour_ms) current

unfoldable pub roll_up_from : ℕ → List Event → List EventRollup → Option ℕ → RolledUp
unfolding groups insert_all in_window window_end select
roll_up_from current events rows none = record {
  rollups = rows;
  buckets = 0;
  rolled_through = current;
  caught_up = true;
}
roll_up_from current events rows (some from) =
    let to = window_end from current in
    let found = groups (select (in_window from to) events) in
    if leb current from
    then record { rollups = rows; buckets = 0; rolled_through = current; caught_up = true }
    else record {
      rollups = insert_all found rows;
      buckets = length found;
      rolled_through = to;
      caught_up = to == current;
    }

unfoldable pub roll_up_events : ℕ → List Event → List EventRollup → RolledUp
unfolding roll_up_from start_from start_of_hour
roll_up_events now events rows =
    roll_up_from (start_of_hour now) events rows (start_from rows events)
