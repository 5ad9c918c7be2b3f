-- ===== src/Schedules/Editing.antt =====
-- hub/src/schedules/schedules.service.ts: creating, changing and removing schedules.
use project.Base.{
  Bool, List, Option, String, [], eq_option, eq_string, eq_ℕ, if◌then◌else◌, leb, ltb, none, not,
  some, trim, true, utf16_length, ℕ, ◌==◌, ◌||◌, ◌∷◌,
}
use project.Contracts.Modes.{SystemMode, eq_mode}
use project.Db.{Prisma}
use project.Http.{Result, bad_request, err, internal, not_found, ok, ◌>>=◌}
use project.Schedules.LocalTime.{ArmSchedule, LocalNow, seed_last_fired_for}

-- A number of the request: a natural number, or one that the checks reject.
pub data Number : Type 0 where
  natural : ℕ → Number
  negative fractional : Number

-- `UpsertArmScheduleRequest`; the name may be missing.
pub record ScheduleRequest : Type 0 where
  pub name : Option String
  pub mode : SystemMode
  pub start_minute : Number
  pub timezone : String
  pub days_of_week : Option (List Number)
  pub enabled : Option Bool

-- What `validate` returns.
pub record ScheduleData : Type 0 where
  pub name : String
  pub mode : SystemMode
  pub start_minute : ℕ
  pub timezone : String
  pub days_of_week : List ℕ
  pub enabled : Bool

abbrev pub max_name_length : ℕ
max_name_length = 80

abbrev pub minutes_per_day : ℕ
minutes_per_day = 1440

-- The days as a set in ascending order: each is put in its place unless it is there.
unfoldable pub insert_day : ℕ → List ℕ → List ℕ
insert_day d [] = d ∷ []
insert_day d (x ∷ xs) =
    let rest = insert_day d xs in
    if ltb d x then d ∷ x ∷ xs else if d == x then x ∷ xs else x ∷ rest

-- `none` where an entry is no day of the week; whether the check comes before or after the sorting
-- makes no difference to the answer.
unfoldable pub valid_days : List Number → Option (List ℕ)
unfolding insert_day
valid_days [] = some []
valid_days (natural d ∷ days) =
    let rest = valid_days days in
    elim rest [ none ↦ none | some ds ↦ if ltb 6 d then none else some (insert_day d ds) ]
valid_days (_ ∷ days) = none

abbrev pub trimmed : Option String → String
trimmed none = ""
trimmed (some name) = trim name

abbrev pub minute_of : Number → Option ℕ
minute_of (natural n) = if leb minutes_per_day n then none else some n
minute_of _ = none

abbrev pub require {ℓ} : {A : Type ℓ} → Option A → Result A
require none = err bad_request
require (some a) = ok a

-- `is_valid_timezone` and `local_now` ask the platform's time-zone database; the second throws on a
-- zone that it does not know.
module _ (is_valid_timezone : String → Bool) where
  unfoldable pub validate : ScheduleRequest → Result ScheduleData
  unfolding valid_days
  validate input =
      let name = trimmed input.name in
      if name == ""
      then err bad_request
      else if ltb max_name_length (utf16_length name)
      then err bad_request
      else (require (minute_of input.start_minute) >>= λ start_minute.
          if not (is_valid_timezone input.timezone)
          then err bad_request
          else (require (valid_days (elim input.days_of_week [ none ↦ [] | some ds ↦ ds ]))
              >>= λ days. ok (record {
                name = name;
                mode = input.mode;
                start_minute = start_minute;
                timezone = input.timezone;
                days_of_week = days;
                enabled = elim input.enabled [ none ↦ true | some b ↦ b ];
              })))

-- The row of a new schedule.
unfoldable pub new_schedule : String → ScheduleData → Option String → ArmSchedule
new_schedule id data_of seeded = record {
  id = id;
  name = data_of.name;
  enabled = data_of.enabled;
  mode = data_of.mode;
  days_of_week = data_of.days_of_week;
  start_minute = data_of.start_minute;
  timezone = data_of.timezone;
  last_fired_for = seeded;
  last_fired_at = none;
}

-- `data.startMinute !== existing.startMinute || data.timezone !== existing.timezone`.
unfoldable pub moved_boundary : ScheduleData → ArmSchedule → Bool
moved_boundary data_of existing =
    not (data_of.start_minute == existing.start_minute)
    || not (data_of.timezone == existing.timezone)

-- The row after a change, re-seeded where its boundary moved.
unfoldable pub edited_row : ScheduleData → LocalNow → ArmSchedule → ArmSchedule → ArmSchedule
unfolding moved_boundary
edited_row data_of local existing s = record s {
  name = data_of.name;
  enabled = data_of.enabled;
  mode = data_of.mode;
  days_of_week = data_of.days_of_week;
  start_minute = data_of.start_minute;
  timezone = data_of.timezone;
  last_fired_for =
      if moved_boundary data_of existing
      then seed_last_fired_for data_of.start_minute local
      else s.last_fired_for;
}

module _ (db : Prisma) (is_valid_timezone : String → Bool)
    (local_now : ℕ → String → Option LocalNow) where
  abbrev pub local_at : ℕ → String → Result LocalNow
  local_at now zone = elim (local_now now zone) [ none ↦ err internal | some local ↦ ok local ]

  unfoldable pub create_schedule :
      ℕ → ScheduleRequest → List ArmSchedule → Result (List ArmSchedule × ArmSchedule)
  unfolding validate new_schedule
  create_schedule now input rows = do
    data_of ← validate is_valid_timezone input
    local ← local_at now data_of.timezone
    let s =
        new_schedule (db.uuid (λ r. r.id) rows) data_of
          (seed_last_fired_for data_of.start_minute local)
    ok (db.create s rows, s)

  unfoldable pub update_found :
      ℕ
      → String
      → ScheduleRequest
      → List ArmSchedule
      → Option ArmSchedule
      → Result (List ArmSchedule × ArmSchedule)
  update_found now id input rows none = err not_found
  update_found now id input rows (some existing) = do
    data_of ← validate is_valid_timezone input
    local ← local_at now data_of.timezone
    ok (
      (db.update_many (λ r. r.id == id) (edited_row data_of local existing) rows).0,
      edited_row data_of local existing existing,
    )

  unfoldable pub update_schedule :
      ℕ → String → ScheduleRequest → List ArmSchedule → Result (List ArmSchedule × ArmSchedule)
  unfolding update_found validate edited_row
  update_schedule now id input rows =
      update_found now id input rows (db.find_unique (λ r. r.id == id) rows)

  unfoldable pub remove_schedule : String → List ArmSchedule → Result (List ArmSchedule)
  remove_schedule id rows =
      let done = db.delete_many (λ r. r.id == id) rows in
      if done.1 == 0 then err not_found else ok done.0
