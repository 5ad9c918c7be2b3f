-- ===== src/Schedules/LocalTime.antt =====
-- hub/src/schedules/local-time.ts: what to do with one schedule at one instant of local wall time.
-- `localNow` itself asks the platform's time-zone database; the model takes its answer.
use project.Base.{
  Bool, List, Option, String, [], eq_option, eq_string, eq_ℕ, if◌then◌else◌, leb, ltb, none, not,
  some, true, ℕ, ◌-◌, ◌==◌, ◌∷◌,
}
use project.Contracts.Auth.{includes}
use project.Contracts.Modes.{SystemMode, eq_mode}

pub record LocalNow : Type 0 where
  pub minute_of_day : ℕ
  pub day_of_week : ℕ
  pub date_key : String

-- A row of the ArmSchedule table.
pub record ArmSchedule : Type 0 where
  pub id : String
  pub name : String
  pub enabled : Bool
  pub mode : SystemMode
  pub days_of_week : List ℕ
  pub start_minute : ℕ
  pub timezone : String
  pub last_fired_for : Option String
  pub last_fired_at : Option ℕ

pub data DueVerdict : Type 0 where
  idle : DueVerdict
  due : String → ℕ → DueVerdict
  missed : String → ℕ → DueVerdict

-- An empty list means every day.
unfoldable pub runs_on : List ℕ → ℕ → Bool
unfolding includes
runs_on [] day = true
runs_on (d ∷ days) day = includes (d ∷ days) day

unfoldable pub evaluate_due : ArmSchedule → LocalNow → (grace_minutes : ℕ) → DueVerdict
evaluate_due s now grace_minutes =
    if not s.enabled
    then idle
    else if not (runs_on s.days_of_week now.day_of_week)
    then idle
    else if s.last_fired_for == some now.date_key
    then idle
    else if ltb now.minute_of_day s.start_minute
    then idle
    else if leb (now.minute_of_day - s.start_minute) grace_minutes
    then due now.date_key (now.minute_of_day - s.start_minute)
    else missed now.date_key (now.minute_of_day - s.start_minute)

unfoldable pub seed_last_fired_for : ℕ → LocalNow → Option String
seed_last_fired_for start_minute now =
    if leb start_minute now.minute_of_day then some now.date_key else none
