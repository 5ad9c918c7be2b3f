-- ===== src/Schedules/Edited.antt =====
-- What an edit stores.
use mathlib.Core.Path.{subst}
use project.Base.{
  ==_iff, Bool, Bool-cases, List, Option, Option-cases, String, [], all, all_mono, any, ap, arith,
  eq_option, eq_string, eq_ℕ, false, if◌then◌else◌, inl, inr, leb, ltb, none, not, refl, some, sym,
  true, utf16_length, ℕ, ◌&&◌, ◌++◌, ◌<◌, ◌==◌, ◌∷◌, ◌≡◌, ◌≢◌, ◌≤◌,
}
use project.Contracts.Modes.{eq_mode}
use project.Db.{Prisma}
use project.Http.{>>=-eq-ok, HttpError, Result, bad_request, err, internal, ok, ok-injective}
use project.Maintenance.History.{known}
use project.Schedules.Editing.{
  Number, ScheduleData, ScheduleRequest, create_schedule, fractional, insert_day, local_at,
  max_name_length, minute_of, minutes_per_day, natural, negative, new_schedule, require, trimmed,
  valid_days, validate,
}
use project.Schedules.LocalTime.{ArmSchedule, LocalNow, seed_last_fired_for}

-- Each element is below those after it.
unfoldable pub is_ascending : List ℕ → Bool
unfolding all
is_ascending [] = true
is_ascending (x ∷ xs) = all (λ y. ltb x y) xs && is_ascending xs

all-insert_day :
    (p : ℕ → Bool) (d : ℕ) (xs : List ℕ)
    → p d ≡ true
    → all p xs ≡ true
    → all p (insert_day d xs) ≡ true
unfolding all insert_day
all-insert_day p d [] e h = ground arith
all-insert_day p d (x ∷ xs) e h = ground (arith, all-insert_day p d xs e)

is_ascending-insert_day :
    (d : ℕ) (xs : List ℕ) → is_ascending xs ≡ true → is_ascending (insert_day d xs) ≡ true
unfolding is_ascending insert_day
is_ascending-insert_day d [] h = ground arith
is_ascending-insert_day d (x ∷ xs) h = elim (Bool-cases (ltb d x)) [
  | inl below ↦
      let beyond = all_mono (λ y. ltb x y) (λ y. ltb d y) xs (λ y e. ground arith) in
      ground (arith, beyond (ground arith))
  | inr above ↦ elim (Bool-cases (d == x)) [
    | inl same ↦ ground arith
    | inr differs ↦
        let beyond : ltb x d ≡ true = ground (arith, ==_iff d x) in
        ground (
          arith,
          is_ascending-insert_day d xs (ground arith),
          all-insert_day (λ y. ltb x y) d xs beyond (ground arith),
        )
  ]
]

-- Days of a week, in order, each once.
abbrev pub AreDays : List ℕ → Type 0
AreDays days = (all (λ d. leb d 6) days ≡ true) × (is_ascending days ≡ true)

valid_days-AreDays : (xs : List Number) (ds : List ℕ) → valid_days xs ≡ some ds → AreDays ds
unfolding valid_days all is_ascending
valid_days-AreDays [] ds e = let is_nil : [] ≡ ds = ground arith in rw (← is_nil) (refl, refl)
valid_days-AreDays (natural d ∷ xs) ds e = elim (Option-cases (valid_days xs)) [
  | inl bad ↦ absurd (ground arith)
  | inr (rest, good) ↦
      let (low, ordered) = valid_days-AreDays xs rest good in
      let is_rest : insert_day d rest ≡ ds = ground arith in
      rw (← is_rest) (
        all-insert_day (λ y. leb y 6) d rest (ground arith) low,
        is_ascending-insert_day d rest ordered,
      )
]
valid_days-AreDays (negative ∷ xs) ds e = absurd (ground arith)
valid_days-AreDays (fractional ∷ xs) ds e = absurd (ground arith)

-- What the evaluator of schedules can act on.
pub record IsValid (s : ScheduleData) : Type 0 where
  pub named : s.name ≢ ""
  pub short : utf16_length s.name ≤ max_name_length
  pub in_day : s.start_minute < minutes_per_day
  pub days : AreDays s.days_of_week

minute_in_day : (n : Number) (m : ℕ) → require (minute_of n) ≡ ok m → m < minutes_per_day
minute_in_day (natural n) m e = ground arith
minute_in_day negative m e = absurd (ground arith)
minute_in_day fractional m e = absurd (ground arith)

required : {A : Type 0} (o : Option A) (a : A) → require o ≡ ok a → o ≡ some a
required none a e = absurd (ground arith)
required (some b) a e = ground arith

pub unless-eq-ok :
    {A : Type 0} (c : Bool) (h : HttpError) (r : Result A) (a : A)
    → (if c then err h else r) ≡ ok a
    → (c ≡ false) × (r ≡ ok a)
unless-eq-ok true h r a e = absurd (ground arith)
unless-eq-ok false h r a e = (refl, e)

validate-IsValid :
    (known : String → Bool) (input : ScheduleRequest) (s : ScheduleData)
    → validate known input ≡ ok s
    → IsValid s
unfolding validate
validate-IsValid known input s e =
    let (named, e1) = unless-eq-ok (trimmed input.name == "") bad_request _ s e in
    let (short, e2) =
      unless-eq-ok (ltb max_name_length (utf16_length (trimmed input.name))) bad_request _ s e1 in
    let (minute, is_minute, e3) = >>=-eq-ok (require (minute_of input.start_minute)) _ s e2 in
    let (zone, e4) = unless-eq-ok (not (known input.timezone)) bad_request _ s e3 in
    let given_days : List Number = elim input.days_of_week [ none ↦ [] | some ds ↦ ds ] in
    let (days, are_days, e5) = >>=-eq-ok (require (valid_days given_days)) _ s e4 in
    let is_name : trimmed input.name ≡ s.name = ground arith in
    let same_minute : minute ≡ s.start_minute = ground arith in
    let same_days : days ≡ s.days_of_week = ground arith in
    record {
      named = rw (← is_name) (ground (arith, ==_iff (trimmed input.name) ""));
      short = rw (← is_name) (ground arith);
      in_day = rw (← same_minute) (minute_in_day input.start_minute minute is_minute);
      days =
          rw (← same_days)
            (valid_days-AreDays given_days days (required (valid_days given_days) days are_days));
    }

-- The mode of a request is the mode that is stored.
pub validate-mode :
    (known : String → Bool) (input : ScheduleRequest) (s : ScheduleData)
    → validate known input ≡ ok s
    → s.mode ≡ input.mode
unfolding validate
validate-mode known input s e =
    let (named, e1) = unless-eq-ok (trimmed input.name == "") bad_request _ s e in
    let (short, e2) =
      unless-eq-ok (ltb max_name_length (utf16_length (trimmed input.name))) bad_request _ s e1 in
    let (minute, is_minute, e3) = >>=-eq-ok (require (minute_of input.start_minute)) _ s e2 in
    let (zone, e4) = unless-eq-ok (not (known input.timezone)) bad_request _ s e3 in
    let given_days : List Number = elim input.days_of_week [ none ↦ [] | some ds ↦ ds ] in
    let (days, are_days, e5) = >>=-eq-ok (require (valid_days given_days)) _ s e4 in
    ap (λ d. d.mode) (sym (ok-injective _ s e5))

module _ (db : Prisma) (known : String → Bool) (local_now : ℕ → String → Option LocalNow) where
  local_known :
      (o : Option LocalNow) (made : LocalNow)
      → (elim o as (λ _. Result LocalNow) [ none ↦ err internal | some l ↦ ok l ]) ≡ ok made
      → o ≡ some made
  local_known none made e = absurd (ground arith)
  local_known (some l) made e = ground arith

  -- What is known of a schedule that was created, and of the table with it.
  pub record IsCreated (now : ℕ) (rows rows' : List ArmSchedule) (s : ArmSchedule) : Type 0 where
    pub named : s.name ≢ ""
    pub short : utf16_length s.name ≤ max_name_length
    pub in_day : s.start_minute < minutes_per_day
    pub days : AreDays s.days_of_week
    pub stored : rows' ≡ rows ++ s ∷ []
    pub fresh_id : any (λ r. r.id == s.id) rows ≡ false
    pub made : LocalNow
    pub converted : local_now now s.timezone ≡ some made
    pub seeded : s.last_fired_for ≡ seed_last_fired_for s.start_minute made

  IsCreated-new_schedule :
      (now : ℕ) (rows : List ArmSchedule) (data_of : ScheduleData) (made : LocalNow)
      → IsValid data_of
      → local_now now data_of.timezone ≡ some made
      → let row =
          new_schedule
            (db.uuid (λ r. r.id) rows)
            data_of
            (seed_last_fired_for data_of.start_minute made) in
        IsCreated now rows (db.create row rows) row
  unfolding new_schedule
  IsCreated-new_schedule now rows data_of made valid converted = record {
    named = valid.named;
    short = valid.short;
    in_day = valid.in_day;
    days = valid.days;
    stored = db.create_lem _ rows;
    fresh_id = db.uuid_fresh (λ r. r.id) rows;
    made = made;
    converted = converted;
    seeded = refl;
  }

  -- A schedule that is created has a name of at most eighty characters, a start within the day, and
  -- days of the week in order, each once; it is added to the table under an identifier of its own;
  -- and it is seeded at the local time of its creation in its own zone.
  create_schedule-IsCreated :
      (now : ℕ) (input : ScheduleRequest) (rows rows' : List ArmSchedule) (s : ArmSchedule)
      → create_schedule db known local_now now input rows ≡ ok (rows', s)
      → IsCreated now rows rows' s
  unfolding create_schedule new_schedule
  create_schedule-IsCreated now input rows rows' s e =
      let (data_of, validated, e1) = >>=-eq-ok (validate known input) _ (rows', s) e in
      let (made, is_made, e2) =
        >>=-eq-ok (local_at db known local_now now data_of.timezone) _ (rows', s) e1 in
      let row =
        new_schedule (db.uuid (λ r. r.id) rows) data_of
          (seed_last_fired_for data_of.start_minute made) in
      let is_row : row ≡ s = ground arith in
      let is_table : db.create row rows ≡ rows' = ground arith in
      subst (λ x. IsCreated now rows x s) is_table
        (subst (λ x. IsCreated now rows (db.create row rows) x) is_row
          (IsCreated-new_schedule now rows data_of made
            (validate-IsValid known input data_of validated)
            (local_known (local_now now data_of.timezone) made is_made)))
