-- ===== src/Tests/Scheduling.antt =====
-- The nightly schedule.
use project.Api.Schedules.{assert_may_manage, create_route}
use project.Base.{
  Bool, List, Option, String, [], all, any, count, eq_option, eq_string, eq_ℕ, none, refl, some,
  trim, true, utf16_length, ℕ, ◌==◌, ◌∷◌, ◌≡◌, ◌≤◌,
}
use project.Contracts.Auth.{eq_permission, includes, operator, permissions_for_role}
use project.Contracts.Modes.{disarmed, eq_mode}
use project.Http.{ok}
use project.Schedules.Due.{IsReached, evaluate_due-IsReached, verdict_of}
use project.Schedules.Editing.{ScheduleRequest, create_schedule, natural}
use project.Schedules.Firing.{HasFired, evaluate_schedule_fired, fires_once}
use project.Schedules.LocalTime.{
  ArmSchedule, LocalNow, evaluate_due, idle, runs_on, seed_last_fired_for,
}
use project.Schedules.Once.{Attempt, serve, serve_once}
use project.Schedules.Runner.{Panel, claim, evaluate_schedule}
use project.Security.Credential.{human}
use project.Security.Policy.{can_manage_schedule, can_schedule_set_mode}
use project.Security.PolicyLaws.{IsQuiet}
use project.System.{ModeChange}
use project.Tests.Database.{fresh, list_db}
use project.Tests.Samples.{quiet_hub, settings}

abbrev nightly : ArmSchedule
nightly = record {
  id = "s1";
  name = "Nightly";
  enabled = true;
  mode = disarmed;
  days_of_week = [];
  start_minute = 420;
  timezone = "UTC";
  last_fired_for = none;
  last_fired_at = none;
}

abbrev morning : LocalNow
morning = record { minute_of_day = 425; day_of_week = 1; date_key = "2025-01-06" }

abbrev clock : ℕ → String → Option LocalNow
clock now zone = some morning

abbrev no_detail : ArmSchedule → LocalNow → Option (ModeChange × ℕ) → String
no_detail s local extra = "{}"

abbrev panel : Panel
panel = record {
  hub = quiet_hub;
  schedules = nightly ∷ [];
  audit = record { log = []; recent = [] };
}

abbrev fired_panel : Panel
fired_panel = (evaluate_schedule list_db settings clock no_detail 7000 nightly panel).0

abbrev two_ticks : List Attempt
two_ticks =
    record { id = "s1"; date_key = "2025-01-06"; fired_at = some 7000 }
    ∷ record { id = "s1"; date_key = "2025-01-06"; fired_at = some 7001 }
    ∷ []

serve_once_example :
    count (λ (a : Attempt). a.id == "s1") (serve list_db two_ticks (nightly ∷ [])).1 ≤ 1
unfolding all
serve_once_example = serve_once list_db "s1" "2025-01-06" two_ticks (nightly ∷ []) refl

evaluate_schedule_fired_example :
    (local : LocalNow) × (clock 7000 "UTC" ≡ some local)
    × HasFired list_db settings clock no_detail 7000 nightly local.date_key panel fired_panel
    × (disarmed ≡ disarmed → IsQuiet panel.hub.alerts)
unfolding evaluate_schedule evaluate_due runs_on claim can_schedule_set_mode count
evaluate_schedule_fired_example =
    evaluate_schedule_fired list_db settings clock no_detail 7000 nightly panel fired_panel refl

fires_once_example :
    (evaluate_schedule list_db settings clock no_detail 8000 nightly fired_panel).0.hub
    ≡ fired_panel.hub
unfolding evaluate_schedule evaluate_due runs_on claim can_schedule_set_mode count
fires_once_example =
    fires_once list_db settings clock no_detail 7000 8000 nightly nightly panel fired_panel morning
      morning refl refl refl refl refl

evaluate_due-IsReached_example :
    (IsReached nightly morning → evaluate_due nightly morning 15 ≡ verdict_of nightly morning 15)
    × (¬ IsReached nightly morning → evaluate_due nightly morning 15 ≡ idle)
evaluate_due-IsReached_example = evaluate_due-IsReached nightly morning 15

abbrev every_zone : String → Bool
every_zone zone = true

abbrev nightly_request : ScheduleRequest
nightly_request = record {
  name = some "Nightly";
  mode = disarmed;
  start_minute = natural 420;
  timezone = "UTC";
  days_of_week = none;
  enabled = none;
}

abbrev nightly_row : ArmSchedule
nightly_row = record nightly {
  id = fresh (λ (r : ArmSchedule). r.id) [];
  last_fired_for = some "2025-01-06";
}

creates_one :
    create_route list_db every_zone clock 7000 (human operator []) nightly_request []
    ≡ ok (nightly_row ∷ [], nightly_row)
unfolding create_route assert_may_manage can_manage_schedule permissions_for_role includes any
    create_schedule trim utf16_length seed_last_fired_for
creates_one = refl
