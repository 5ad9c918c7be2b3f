-- ===== src/Reports/Agreement.antt =====
-- The parts of a report agree with each other.
use project.Base.{
  leb, ltb, ◌&&◌, ◌∷◌, eq_ℕ, eq_string, List, String, [], count, if◌then◌else◌, ℕ, ◌++◌, ◌+◌,
}
use project.Contracts.Modes.{eq_event_type}
use project.Hub.{Event}
use project.Maintenance.RollUp.{EventRollup, next_hour}
use project.Reports.{keyed}

-- The local days of the events of a window.
abbrev pub days_of : (sql_day : ℕ → String) → List EventRollup → List Event → List (String × ℕ)
days_of sql_day rows tail =
    let sources = keyed (λ b. sql_day b.hour) (λ e. sql_day e.created_at) rows tail in
    sources.0 ++ sources.1

-- The events of the roll-up's hours from `since` to before the boundary, and the events that were
-- stored since, from the boundary on.
pub rolled_since : (since boundary : ℕ) → List EventRollup → ℕ
rolled_since since boundary [] = 0
rolled_since since boundary (r ∷ rows) =
    (if leb since r.bucket.hour && ltb r.bucket.hour boundary then r.count else 0)
    + rolled_since since boundary rows

pub stored_since : (since boundary : ℕ) → List Event → ℕ
stored_since since boundary events =
    count (λ e. leb since e.created_at && leb boundary e.created_at) events

-- What a report counts, of the window that begins at `since`.
abbrev pub in_report : (since : ℕ) → List EventRollup → List Event → ℕ
in_report since rollups events =
    rolled_since since (next_hour rollups) rollups + stored_since since (next_hour rollups) events
