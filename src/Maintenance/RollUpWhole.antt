-- ===== src/Maintenance/RollUpWhole.antt =====
-- The roll-up as a whole: wherever it starts, it counts what was not counted.
use project.Base.{
  Bool-cases, List, Option, Option-cases, [], arith, count, inl, inr, leb, min, none, refl, some,
  true, ℕ, ◌<◌, ◌∷◌, ◌≡◌, ◌≤◌,
}
use project.Hub.{Event}
use project.Maintenance.Retention.{start_of_hour}
use project.Maintenance.RollUp.{
  Bucket, EventRollup, earlier, next_hour, oldest, roll_up_events, roll_up_from, start_from,
}
use project.Maintenance.RollUpCounted.{
  IsCounted, IsEmptyFrom, filled-IsCounted, unchanged-IsCounted,
}
use project.Maintenance.RollUpLaws.{is_in}
use project.Maintenance.RollUpWindow.{IsWhole, is_in_hour, start_of_hour-IsWhole}
use project.Security.Guard.{missing}

earlier-left : (t u : ℕ) (o : Option ℕ) → leb t (min t (earlier u o)) ≡ true → t ≤ u
earlier-left t u none h = ground arith
earlier-left t u (some v) h = ground arith

earlier-right :
    (t u : ℕ) (o : Option ℕ) → leb t (min t (earlier u o)) ≡ true → leb t (earlier t o) ≡ true
earlier-right t u none h = ground arith
earlier-right t u (some v) h = ground arith

-- The hour of the oldest event is not past that of any other.
oldest-count :
    (b : Bucket) (at : ℕ) (es : List Event)
    → b.hour < start_of_hour at
    → leb at (earlier at (oldest es)) ≡ true
    → count (is_in b) es ≡ 0
unfolding oldest count
oldest-count b at [] h lo = refl
oldest-count b at (e ∷ es) h lo =
    let rest = oldest-count b at es h (earlier-right at e.created_at (oldest es) lo) in
    elim (Bool-cases (is_in b e)) [
      | inl f ↦
          let hour = is_in_hour b e f in
          let left = earlier-left at e.created_at (oldest es) lo in
          absurd (unfold start_of_hour in omega arith)
      | inr f ↦ rw (f, rest) refl
    ]

module _ (current : ℕ) (events : List Event) (rows : List EventRollup) where
  roll_up_from-IsCounted :
      (from : ℕ)
      → IsWhole (next_hour rows)
      → IsWhole from
      → IsWhole current
      → next_hour rows ≤ from
      → IsEmptyFrom (next_hour rows) from events
      → IsCounted current events rows (roll_up_from current events rows (some from))
  unfolding roll_up_from
  roll_up_from-IsCounted from w v c starts empty = elim (Bool-cases (leb current from)) [
    | inl e ↦
        unchanged-IsCounted current events rows (roll_up_from current events rows (some from))
          (rw e refl) (rw e refl) w (λ b lo hi. empty b lo (ground arith))
    | inr e ↦
        filled-IsCounted current events rows from w v c starts (ground arith) empty
          (roll_up_from current events rows (some from)) (rw e refl) (rw e refl)
  ]

no_event-count : (b : Bucket) (es : List Event) → oldest es ≡ none → count (is_in b) es ≡ 0
unfolding oldest count
no_event-count b [] e = refl
no_event-count b (x ∷ es) e = absurd (ground arith)

pub roll_up_events-IsCounted :
    (now : ℕ) (events : List Event) (rows : List EventRollup)
    → IsWhole (next_hour rows)
    → IsCounted (start_of_hour now) events rows (roll_up_events now events rows)
unfolding roll_up_events start_from
roll_up_events-IsCounted now events [] w = elim (Option-cases (oldest events)) [
  | inl missing ↦ rw missing (
      unchanged-IsCounted (start_of_hour now) events [] _ (unfold roll_up_from in refl)
        (unfold roll_up_from in refl) w (λ b lo hi. no_event-count b events missing))
  | inr (at, first) ↦ rw first (
      roll_up_from-IsCounted (start_of_hour now) events [] (start_of_hour at) w
        (start_of_hour-IsWhole at) (start_of_hour-IsWhole now) (unfold next_hour in omega arith)
        (λ b lo hi. oldest-count b at events hi (rw first (ground arith))))
]
roll_up_events-IsCounted now events (r ∷ rows) w =
    roll_up_from-IsCounted (start_of_hour now) events (r ∷ rows) (next_hour (r ∷ rows)) w w
      (start_of_hour-IsWhole now) (omega arith) (λ b lo hi. absurd (omega arith))
