-- ===== src/Maintenance/Progress.antt =====
-- When the sweep gets on: what moves the watermark, what holds it, and what a finished sweep leaves.
use project.Maintenance.ForeignKeys.{cascade_events, is_gone, unlink_agents, without_agent}
use project.Maintenance.History.{known}
use project.Maintenance.RollUpWhole.{roll_up_events-IsCounted}
use project.Cameras.Browser.{reap_ended_sessions}
use project.Base.{
  [], leb→le, map, ==_iff, Bool, Bool-cases, List, Option, String, any, any-select, any_witness, ap,
  arith, count, eq_option, eq_string, eq_ℕ, false, inl, inr, leb, ltb, min, none, not, refl, select,
  select-eq-nil, some, sym, true, ℕ, ◌&&◌, ◌*◌, ◌+◌, ◌<◌, ◌||◌, ◌∙◌, ◌∷◌, ◌≡◌, ◌≢◌,
}
use project.Db.{Prisma}
use project.Hub.{Alert, Event}
use project.Maintenance.Retention.{
  BatchDelete, day_ms, hour_ms, is_old_alert, is_old_event, is_old_notification, prune_alerts,
  prune_audit, prune_events, prune_notifications, start_of_hour,
}
use project.Maintenance.RetentionLaws.{windowed_exhausted}
use project.Maintenance.RollUp.{
  Bucket, EventRollup, bucket_of, groups, in_window, insert_all, max_rollup_hours_per_sweep,
  next_hour, roll_up_events, roll_up_from, start_from, window_end,
}
use project.Maintenance.RollUpLaws.{
  counted, has-groups, has-insert_all, has-next_hour, is_in, is_in-bucket_of,
}
use project.Maintenance.RollUpWindow.{IsWhole, is_in_hour, leb-start_of_hour}
use project.Maintenance.Sweep.{Store, Windows, run}
use project.Settings.{Settings}

-- The end of a full window.
abbrev full_window : ℕ → ℕ
full_window from = from + max_rollup_hours_per_sweep * hour_ms

inside_from : (from to : ℕ) (e : Event) → in_window from to e ≡ true → leb from e.created_at ≡ true
unfolding in_window
inside_from from to e h = ground arith

-- A window that has an event starts before the current hour.
inside_current :
    (current from : ℕ) (e : Event)
    → in_window from (window_end from current) e ≡ true
    → leb current from ≢ true
unfolding in_window window_end
inside_current current from e h f = ground arith

advanced :
    (current : ℕ) (events : List Event) (rows : List EventRollup) (from : ℕ)
    → IsWhole from
    → any (in_window from (window_end from current)) events ≡ true
    → from < next_hour (roll_up_from current events rows (some from)).rollups
unfolding roll_up_from
advanced current events rows from w some_event =
    let to = window_end from current in
    let (e, inside, member) = any_witness (in_window from to) events some_event in
    let b = bucket_of e in
    let found_groups = groups (select (in_window from to) events) in
    let present =
      has-groups b (select (in_window from to) events)
      ∙ any-select (in_window from to) (is_in b) events
      ∙ member (λ x. in_window from to x && is_in b x) (rw (inside, is_in-bucket_of e) refl) in
    let hour = is_in_hour b e (is_in-bucket_of e) in
    let start = leb-start_of_hour from e.created_at w in
    elim (Bool-cases (leb current from)) [
      | inl f ↦ absurd (inside_current current from e inside f)
      | inr f ↦ rw f (
          let past =
            has-next_hour b (insert_all found_groups rows)
              (has-insert_all b found_groups rows ∙ rw present refl) in
          let lo = inside_from from to e inside in ground arith)
    ]

-- The roll-up moves its watermark forward, strictly, wherever the window of complete hours that it
-- reads has an event.
roll_up_events-advances :
    (now : ℕ) (events : List Event) (r : EventRollup) (rows : List EventRollup)
    → IsWhole (next_hour (r ∷ rows))
    → any
        (in_window (next_hour (r ∷ rows)) (window_end (next_hour (r ∷ rows)) (start_of_hour now)))
        events
      ≡ true
    → next_hour (r ∷ rows) < next_hour (roll_up_events now events (r ∷ rows)).rollups
unfolding roll_up_events start_from
roll_up_events-advances now events r rows w some_event =
    advanced (start_of_hour now) events (r ∷ rows) (next_hour (r ∷ rows)) w some_event

stalled :
    (current : ℕ) (events : List Event) (rows : List EventRollup) (from : ℕ)
    → any (in_window from (full_window from)) events ≡ false
    → full_window from < current
    → roll_up_from current events rows (some from)
      ≡ record { rollups = rows; buckets = 0; rolled_through = full_window from; caught_up = false }
unfolding roll_up_from window_end groups insert_all
stalled current events rows from empty late =
    let whole_window : (min (full_window from) current ≡ full_window from) = omega arith in
    let none_found = select-eq-nil (in_window from (full_window from)) events empty in
    rw (whole_window, none_found) (ground arith)

-- A window of 90 days without events stops the roll-up for good: the table stays as it is and the
-- result says that more remains, at every later time and whatever events lie past the window.
pub roll_up_events_stalls :
    (now : ℕ) (events : List Event) (r : EventRollup) (rows : List EventRollup)
    → any (in_window (next_hour (r ∷ rows)) (full_window (next_hour (r ∷ rows)))) events ≡ false
    → full_window (next_hour (r ∷ rows)) < start_of_hour now
    → roll_up_events now events (r ∷ rows) ≡ record {
      rollups = r ∷ rows;
      buckets = 0;
      rolled_through = full_window (next_hour (r ∷ rows));
      caught_up = false;
    }
unfolding roll_up_events start_from
roll_up_events_stalls now events r rows empty late =
    stalled (start_of_hour now) events (r ∷ rows) (next_hour (r ∷ rows)) empty late

caught_up-rolled_through :
    (current : ℕ) (events : List Event) (rows : List EventRollup) (from : Option ℕ)
    → (roll_up_from current events rows from).caught_up ≡ true
    → (roll_up_from current events rows from).rolled_through ≡ current
unfolding roll_up_from
caught_up-rolled_through current events rows none e = refl
caught_up-rolled_through current events rows (some from) e =
    ground (arith, ==_iff (window_end from current) current)

caught_up_through :
    (now : ℕ) (events : List Event) (rows : List EventRollup)
    → (roll_up_events now events rows).caught_up ≡ true
    → (roll_up_events now events rows).rolled_through ≡ start_of_hour now
unfolding roll_up_events
caught_up_through now events rows e =
    caught_up-rolled_through (start_of_hour now) events rows (start_from rows events) e

flags :
    (a b c d e : Bool)
    → (not a || (b || (c || (d || e)))) ≡ false
    → (a ≡ true) × (b ≡ false) × (c ≡ false) × (d ≡ false) × (e ≡ false)
flags a b c d e h = (ground arith, ground arith, ground arith, ground arith, ground arith)

-- A roll-up that caught up holds what is known of every complete hour.
caught_up_known :
    (now : ℕ) (s : Store) (b : Bucket)
    → IsWhole (next_hour s.rollups)
    → (roll_up_events now s.events s.rollups).caught_up ≡ true
    → b.hour < start_of_hour now
    → counted b (roll_up_events now s.events s.rollups).rollups ≡ known b s
unfolding known
caught_up_known now s b w caught complete =
    let done = roll_up_events-IsCounted now s.events s.rollups w in
    let through = caught_up_through now s.events s.rollups caught in
    elim (Bool-cases (leb (next_hour s.rollups) b.hour)) [
      | inl f ↦ rw f (
          done.covered b (leb→le (next_hour s.rollups) b.hour f) (omega (arith, complete, through)))
      | inr f ↦ rw f (done.kept b (ground arith))
    ]

none_selected :
    {A : Type 0} (q p : A → Bool) (xs : List A) → count q xs ≡ 0 → count q (select p xs) ≡ 0
unfolding count select
none_selected q p [] h = refl
none_selected q p (x ∷ xs) h = ground (arith, h, none_selected q p xs)

count-map :
    {A : Type 0} (q : A → Bool) (f : A → A)
    → ((x : A) → q (f x) ≡ q x)
    → (xs : List A) → count q (map f xs) ≡ count q xs
unfolding count
count-map q f h [] = refl
count-map q f h (x ∷ xs) = ground (arith, h x, count-map q f h xs)

module _ (db : Prisma) (hash : String → String) (sql : BatchDelete) (cfg : Settings)
    (days : Windows) where
  -- An alert is as old without its agent.
  unlinked_old :
      (now : ℕ) (gone : String → Bool) (a : Alert)
      → is_old_alert sql cfg now days.alert_days (without_agent gone a)
        ≡ is_old_alert sql cfg now days.alert_days a
  unfolding is_old_alert
  unlinked_old now gone a = refl

  -- A sweep that reports nothing left, with every retention window set and a roll-up that counts whole
  -- hours, has counted every complete hour: for each such hour, agent and type, the roll-up then holds
  -- as many events as the table held of an hour from the old watermark on, and what it held before of
  -- an earlier one. And it left no event, acknowledged alert, settled notification or audit row past
  -- its window.
  pub run_complete :
      (now : ℕ) (s : Store)
      → 0 < days.event_days
      → 0 < days.alert_days
      → 0 < days.notification_days
      → 0 < days.audit_days
      → IsWhole (next_hour s.rollups)
      → (run db hash sql cfg days now s).1.more_remaining ≡ false
      → ((b : Bucket)
          → b.hour < start_of_hour now
          → counted b (run db hash sql cfg days now s).0.rollups ≡ known b s)
        × (count
              (is_old_event sql cfg now days.event_days (start_of_hour now))
              (run db hash sql cfg days now s).0.events
            ≡ 0)
        × (count
              (is_old_alert sql cfg now days.alert_days)
              (run db hash sql cfg days now s).0.alerts
            ≡ 0)
        × (count
              (is_old_notification sql cfg now days.notification_days)
              (run db hash sql cfg days now s).0.notifications
            ≡ 0)
        × (count
              (λ r. ltb (r.at + days.audit_days * day_ms) now)
              (run db hash sql cfg days now s).0.audit
            ≡ 0)
  unfolding run prune_events prune_alerts prune_notifications prune_audit cascade_events
      unlink_agents
  run_complete now s e a n u w done =
      let up = roll_up_events now s.events s.rollups in
      let parts = flags up.caught_up _ _ _ _ done in
      let through : up.rolled_through ≡ start_of_hour now =
        caught_up_through now s.events s.rollups parts.0 in
      (
        λ b complete. caught_up_known now s b w parts.0 complete,
        none_selected (is_old_event sql cfg now days.event_days (start_of_hour now)) _ _ (
            ap
              (λ t.
                count (is_old_event sql cfg now days.event_days t)
                  (prune_events sql cfg now days.event_days up.rolled_through s.events).0)
              (sym through)
            ∙ windowed_exhausted sql cfg days.event_days
                (is_old_event sql cfg now days.event_days up.rolled_through) s.events e parts.1),
        count-map (is_old_alert sql cfg now days.alert_days) _
              (unlinked_old now
                (is_gone (λ r. r.id) s.agents (reap_ended_sessions db hash now s.agents).0))
              _
            ∙ windowed_exhausted sql cfg days.alert_days (is_old_alert sql cfg now days.alert_days)
                _ a parts.2,
        windowed_exhausted sql cfg days.notification_days
            (is_old_notification sql cfg now days.notification_days) _ n parts.3,
        windowed_exhausted sql cfg days.audit_days (λ r. ltb (r.at + days.audit_days * day_ms) now)
            s.audit u parts.4,
      )
