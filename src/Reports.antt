-- ===== src/Reports.antt =====
-- hub/src/reports/reports.service.ts: the history that the reports page shows. The SQL statements are
-- written out over the tables; `sql_day` and `format` stand for the local day of a time as Postgres's
-- `to_char` and as `Intl.DateTimeFormat` print it in the zone of the request. Of the rows with the same
-- count a query may return either first. The time before 1970 is not modelled.
pub mod Sums
pub mod Daily
pub mod Agreement
use project.Api.Trail.{entry}
use project.Base.{
  Bool, Eq, List, Option, String, [], any, eq_option, eq_string, eq_ℕ, if◌then◌else◌, leb, ltb, map,
  max, none, not, select, some, suc, zero, ℕ, ◌&&◌, ◌*◌, ◌++◌, ◌+◌, ◌-◌, ◌==◌, ◌∷◌,
}
use project.Contracts.Modes.{eq_event_type, eq_severity, AlertSeverity, EventType, eq_alert_type}
use project.Dashboard.Cluster.{sort}
use project.Db.{Prisma}
use project.Hub.{Alert, Event}
use project.Maintenance.Retention.{day_ms}
use project.Maintenance.RollUp.{Bucket, EventRollup, next_hour}

pub record DailyActivity : Type 0 where
  pub date : String
  pub events : ℕ
  pub alerts : ℕ

pub record Totals : Type 0 where
  pub events : ℕ
  pub alerts : ℕ
  pub unacknowledged : ℕ

pub record ReportsSummary : Type 0 where
  pub since : ℕ
  pub rolled_through : Option ℕ
  pub daily : List DailyActivity
  pub by_agent : List (String × ℕ)
  pub by_type : List (EventType × ℕ)
  pub by_severity : List (AlertSeverity × ℕ)
  pub totals : Totals

-- `GROUP BY` with the sum of the counts, and `Map` with `get(...) ?? 0`.
module _ {K : Type 0} ⦃by : Eq K⦄ where
  unfoldable pub add_count : K → ℕ → List (K × ℕ) → List (K × ℕ)
  add_count k n [] = (k, n) ∷ []
  add_count k n ((q, m) ∷ rows) = if q == k then (q, m + n) ∷ rows else (q, m) ∷ add_count k n rows

  unfoldable pub group_sum : List (K × ℕ) → List (K × ℕ)
  unfolding add_count
  group_sum [] = []
  group_sum ((k, n) ∷ rows) = add_count k n (group_sum rows)

  unfoldable pub lookup_count : K → List (K × ℕ) → ℕ
  lookup_count k [] = 0
  lookup_count k ((q, m) ∷ rows) = if q == k then m else lookup_count k rows

-- The rows of the roll-up that are counted, and the events that are not in one yet.
unfoldable pub rolled : (since boundary : ℕ) → List EventRollup → List EventRollup
rolled since boundary rows =
    select (λ r. leb since r.bucket.hour && ltb r.bucket.hour boundary) rows

unfoldable pub raw : (since boundary : ℕ) → List Event → List Event
raw since boundary events = select (λ e. leb (max since boundary) e.created_at) events

abbrev pub is_since : ℕ → Alert → Bool
is_since since a = leb since a.created_at

module _ {K : Type 0} ⦃by : Eq K⦄ where
  -- Events by a key of the bucket and of the event.
  unfoldable pub keyed :
      (of_bucket : Bucket → K) (of_event : Event → K)
      → List EventRollup
      → List Event
      → List (K × ℕ) × List (K × ℕ)
  unfolding group_sum
  keyed of_bucket of_event rows events = (
    group_sum (map (λ r. (of_bucket r.bucket, r.count)) rows),
    group_sum (map (λ e. (of_event e, 1)) events),
  )

  abbrev pub is_fewer : K × ℕ → K × ℕ → Bool
  is_fewer a b = ltb a.1 b.1

  -- The sum over both sources, the largest first.
  unfoldable pub merged :
      (of_bucket : Bucket → K) (of_event : Event → K) → List EventRollup → List Event → List (K × ℕ)
  unfolding keyed group_sum sort
  merged of_bucket of_event rows events =
      let sources = keyed of_bucket of_event rows events in
      sort is_fewer (group_sum (sources.0 ++ sources.1))

-- The dates of the window, oldest first.
unfoldable pub dates : (format : ℕ → String) → ℕ → ℕ → List String
dates format since zero = format since ∷ []
dates format since (suc days) = format since ∷ dates format (since + day_ms) days

-- One entry per date.
unfoldable pub fill :
    List (String × ℕ) → List (String × ℕ) → List String → List DailyActivity → List DailyActivity
unfolding lookup_count any
fill events alerts [] series = series
fill events alerts (date ∷ rest) series = fill events alerts rest (
    if any (λ entry. entry.date == date) series
    then series
    else series
      ++ record {
        date = date;
        events = lookup_count date events;
        alerts = lookup_count date alerts;
      }
        ∷ [])

unfoldable pub merge_daily :
    (format : ℕ → String) → ℕ → ℕ → List (String × ℕ) → List (String × ℕ) → List DailyActivity
unfolding fill dates group_sum
merge_daily format since days event_rows alert_rows =
    fill (group_sum event_rows) alert_rows (dates format since days) []

unfoldable pub total_events : List DailyActivity → ℕ
total_events [] = 0
total_events (entry ∷ series) = entry.events + total_events series

abbrev pub rolled_through : List EventRollup → Option ℕ
rolled_through [] = none
rolled_through (r ∷ rows) = some (next_hour (r ∷ rows))

module _ (db : Prisma) (sql_day format : ℕ → String) where
  unfoldable pub summary : ℕ → ℕ → List EventRollup → List Event → List Alert → ReportsSummary
  unfolding rolled raw keyed merged merge_daily total_events next_hour group_sum select
  summary now days rollups events alerts =
      let since = now - days * day_ms in
      let boundary = next_hour rollups in
      let rows = rolled since boundary rollups in
      let tail = raw since boundary events in
      let daily_rows = keyed (λ b. sql_day b.hour) (λ e. sql_day e.created_at) rows tail in
      let recent = select (is_since since) alerts in
      let alert_rows = group_sum (map (λ a. (sql_day a.created_at, 1)) recent) in
      let daily = merge_daily format since days (daily_rows.0 ++ daily_rows.1) alert_rows in
      record {
        since = since;
        rolled_through = rolled_through rollups;
        daily = daily;
        by_agent = merged (λ b. b.agent_id) (λ e. e.agent_id) rows tail;
        by_type = merged (λ b. b.type) (λ e. e.type) rows tail;
        by_severity = group_sum (map (λ a. (a.severity, 1)) recent);
        totals = record {
          events = total_events daily;
          alerts = db.count_rows (is_since since) alerts;
          unacknowledged = db.count_rows (λ a. is_since since a && not a.acknowledged) alerts;
        };
      }
