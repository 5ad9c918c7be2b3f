-- ===== src/Schedules/Runner.antt =====
-- hub/src/schedules/schedule-runner.service.ts: the tick that fires schedules when their boundary
-- passes.
use project.Audit.{Audit, AuditEntry, AuditOutcome, denied, record_entry, schedule_fired, system}
use project.Base.{
  Bool, List, Option, String, [], concat, eq_option, eq_string, eq_ℕ, if◌then◌else◌, ltb, none, not,
  some, to_string, ℕ, ◌&&◌, ◌*◌, ◌+◌, ◌==◌, ◌∷◌,
}
use project.Contracts.Modes.{eq_mode}
use project.Db.{Prisma}
use project.Hub.{Hub}
use project.Schedules.LocalTime.{ArmSchedule, DueVerdict, LocalNow, due, evaluate_due, idle}
use project.Security.Policy.{can_schedule_set_mode}
use project.Settings.{Settings}
use project.System.{ModeChange, set_mode}

-- What a tick reads and writes.
pub record Panel : Type 0 where
  pub hub : Hub
  pub schedules : List ArmSchedule
  pub audit : Audit

pub data Outcome : Type 0 where
  fired held missed : Outcome

pub record TickResult : Type 0 where
  pub fired : ℕ
  pub held : ℕ
  pub missed : ℕ

-- `id` with `lastFiredFor` null or another date: the `where` of the claim.
unfoldable pub is_unclaimed : String → String → ArmSchedule → Bool
is_unclaimed id date_key s = s.id == id && not (s.last_fired_for == some date_key)

abbrev pub claimed_row : String → Option ℕ → ArmSchedule → ArmSchedule
claimed_row date_key fired_at s = record s {
  last_fired_for = some date_key;
  last_fired_at = elim fired_at [ none ↦ s.last_fired_at | some t ↦ some t ];
}

module _ (db : Prisma) where
  -- The claim: the table after the conditional update, and whether it touched a row.
  unfoldable pub claim : String → String → Option ℕ → List ArmSchedule → List ArmSchedule × Bool
  unfolding is_unclaimed
  claim id date_key fired_at rows =
      let done = db.update_many (is_unclaimed id date_key) (claimed_row date_key fired_at) rows in
      (done.0, ltb 0 done.1)

-- The audit entry of a schedule; `held` ones collapse for the length of the grace window.
unfoldable pub schedule_entry :
    ℕ → ArmSchedule → String → AuditOutcome → Option String → ℕ → String → AuditEntry
schedule_entry now s date_key outcome reason window detail = record {
  row = record {
    at = now;
    action = schedule_fired;
    outcome = outcome;
    actor = system;
    actor_agent_id = none;
    actor_label = none;
    reason = reason;
    target_type = some "schedule";
    target_id = some s.id;
    detail = detail;
    ip = none;
  };
  dedupe_key =
      if ltb 0 window then some (concat ("schedule-held:" ∷ s.id ∷ ":" ∷ date_key ∷ [])) else none;
  dedupe_window_ms = if ltb 0 window then some window else none;
}

-- `local_now` stands for the platform's clock conversion, `none` where it throws on the zone, and
-- `detail_of` for the JSON text of an entry's detail, which for a schedule that fired includes the
-- change and its lateness.
module _ (db : Prisma) (cfg : Settings) (local_now : ℕ → String → Option LocalNow)
    (detail_of : ArmSchedule → LocalNow → Option (ModeChange × ℕ) → String) where
  unfoldable pub note :
      ℕ
      → ArmSchedule
      → LocalNow
      → AuditOutcome
      → Option String
      → ℕ
      → Option (ModeChange × ℕ)
      → Audit
      → Audit
  note now s local outcome reason window extra a =
      record_entry now
        (schedule_entry now s local.date_key outcome reason window (detail_of s local extra)) a

  unfoldable pub missed_reason : ℕ → String
  missed_reason late = concat (
      "Boundary passed "
      ∷ to_string late
      ∷ " minutes ago, beyond the "
      ∷ to_string cfg.grace_minutes
      ∷ "-minute grace window. The hub was probably not running. "
      ∷ "Acting now would change the mode at a time nobody chose."
      ∷ [])

  -- A boundary too long past: claimed, recorded, and left alone.
  unfoldable pub skip : ℕ → ArmSchedule → LocalNow → String → ℕ → Panel → Panel × Option Outcome
  skip now s local date_key late p =
      let c = claim db s.id date_key none p.schedules in
      if c.1
      then (
        record p {
          schedules = c.0;
          audit = note now s local denied (some (missed_reason late)) 0 none p.audit;
        },
        some Outcome.missed,
      )
      else (record p { schedules = c.0 }, none)

  -- A boundary inside the grace window: the policy first, then the claim, then the mode.
  unfoldable pub fire : ℕ → ArmSchedule → LocalNow → String → ℕ → Panel → Panel × Option Outcome
  fire now s local date_key late p =
      if (can_schedule_set_mode db s.mode p.hub.alerts).allowed
      then (let c = claim db s.id date_key (some now) p.schedules in
          if c.1
          then (
            record p {
              hub = (set_mode db s.mode p.hub).0;
              schedules = c.0;
              audit =
                  note now s local AuditOutcome.allowed none 0
                    (some ((set_mode db s.mode p.hub).1, late)) p.audit;
            },
            some Outcome.fired,
          )
          else (record p { schedules = c.0 }, none))
      else (
        record p {
          audit =
              note now s local denied (can_schedule_set_mode db s.mode p.hub.alerts).reason
                (cfg.grace_minutes * 60000) none p.audit;
        },
        some held,
      )

  unfoldable pub act : ℕ → ArmSchedule → LocalNow → DueVerdict → Panel → Panel × Option Outcome
  act now s local idle p = (p, none)
  act now s local (due date_key late) p = fire now s local date_key late p
  act now s local (DueVerdict.missed date_key late) p = skip now s local date_key late p

  unfoldable pub evaluate_at : ℕ → ArmSchedule → Option LocalNow → Panel → Panel × Option Outcome
  evaluate_at now s none p = (p, none)
  evaluate_at now s (some local) p = act now s local (evaluate_due s local cfg.grace_minutes) p

  unfoldable pub evaluate_schedule : ℕ → ArmSchedule → Panel → Panel × Option Outcome
  unfolding evaluate_at act fire skip note missed_reason schedule_entry
  evaluate_schedule now s p = evaluate_at now s (local_now now s.timezone) p

  tally : Option Outcome → TickResult → TickResult
  tally none r = r
  tally (some Outcome.fired) r = record r { fired = r.fired + 1 }
  tally (some held) r = record r { held = r.held + 1 }
  tally (some Outcome.missed) r = record r { missed = r.missed + 1 }

  tick_all : ℕ → List ArmSchedule → Panel × TickResult → Panel × TickResult
  tick_all now [] (p, r) = (p, r)
  tick_all now (s ∷ rows) (p, r) =
      let done = evaluate_schedule now s p in tick_all now rows (done.0, tally done.1 r)

  unfoldable pub tick : ℕ → Panel → Panel × TickResult
  unfolding evaluate_schedule tick_all tally
  tick now p =
      tick_all now (db.find_many (λ s. s.enabled) p.schedules)
        (p, record { fired = 0; held = 0; missed = 0 })
