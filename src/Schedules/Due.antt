-- ===== src/Schedules/Due.antt =====
-- The verdicts against what they mean.
use project.Base.{
  ==_iff, Bool, Bool-cases, arith, eq_option, eq_string, eq_ℕ, if◌then◌else◌, inl, inr, leb, not,
  some, true, ℕ, ◌&&◌, ◌-◌, ◌<◌, ◌==◌, ◌≡◌, ◌≢◌, ◌≤◌,
}
use project.Schedules.LocalTime.{
  ArmSchedule, DueVerdict, LocalNow, due, evaluate_due, idle, missed, runs_on, seed_last_fired_for,
}

-- The schedule is on, today is its day, today has not been handled, and its time has come.
pub record IsReached (s : ArmSchedule) (now : LocalNow) : Type 0 where
  pub on : s.enabled ≡ true
  pub today : runs_on s.days_of_week now.day_of_week ≡ true
  pub unhandled : s.last_fired_for ≢ some now.date_key
  pub past : s.start_minute ≤ now.minute_of_day

-- The verdict on a boundary, by how late it is.
abbrev pub verdict_of : ArmSchedule → LocalNow → ℕ → DueVerdict
verdict_of s now grace =
    if leb (now.minute_of_day - s.start_minute) grace
    then due now.date_key (now.minute_of_day - s.start_minute)
    else missed now.date_key (now.minute_of_day - s.start_minute)

-- The same as a test.
reached : ArmSchedule → LocalNow → Bool
reached s now =
    s.enabled
    && runs_on s.days_of_week now.day_of_week
    && not (s.last_fired_for == some now.date_key)
    && leb s.start_minute now.minute_of_day

reached_sound : (s : ArmSchedule) (now : LocalNow) → reached s now ≡ true → IsReached s now
unfolding reached
reached_sound s now e = record {
  on = ground arith;
  today = ground arith;
  unhandled = ground (arith, ==_iff s.last_fired_for (some now.date_key));
  past = ground arith;
}

-- A schedule is acted on, as due within the grace window and as missed beyond it, exactly when its
-- boundary is reached; in every other case the verdict is idle.
pub evaluate_due-IsReached :
    (s : ArmSchedule) (now : LocalNow) (grace : ℕ)
    → (IsReached s now → evaluate_due s now grace ≡ verdict_of s now grace)
      × (¬ IsReached s now → evaluate_due s now grace ≡ idle)
unfolding evaluate_due
evaluate_due-IsReached s now grace = (
  λ r.
      ground
        (arith, r.on, r.today, r.past, r.unhandled, ==_iff s.last_fired_for (some now.date_key)),
  λ n. elim (Bool-cases (reached s now)) [
    | inl e ↦ absurd (n (reached_sound s now e))
    | inr e ↦ unfold reached in ground arith
  ],
)

-- A schedule seeded at its creation is silent for the rest of that local day if its time had come,
-- whatever the grace window: it can only act on a boundary that passes after it was made.
seeded_verdict :
    (s : ArmSchedule) (made now : LocalNow) (grace : ℕ)
    → s.last_fired_for ≡ seed_last_fired_for s.start_minute made
    → now.date_key ≡ made.date_key
    → evaluate_due s now grace ≢ idle
    → (made.minute_of_day < s.start_minute) × (s.start_minute ≤ now.minute_of_day)
unfolding evaluate_due seed_last_fired_for
seeded_verdict s made now grace seeded same acts =
    elim (Bool-cases (leb s.start_minute made.minute_of_day)) [
      | inl past ↦ absurd (acts (ground (arith, ==_iff s.last_fired_for (some now.date_key))))
      | inr ahead ↦ (ground arith, ground arith)
    ]
