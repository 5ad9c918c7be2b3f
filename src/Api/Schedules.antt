-- ===== src/Api/Schedules.antt =====
-- hub/src/schedules/schedules.controller.ts: editing the schedules.
use project.Base.{Bool, List, Option, String, if◌then◌else◌, ℕ}
use project.Contracts.Modes.{SystemMode}
use project.Db.{Prisma}
use project.Http.{Result, err, forbidden, ok, ◌>>=◌}
use project.Schedules.Editing.{ScheduleRequest, create_schedule, update_schedule}
use project.Schedules.LocalTime.{ArmSchedule, LocalNow}
use project.Security.Credential.{Identity}
use project.Security.Policy.{can_manage_schedule}

unfoldable pub assert_may_manage : Identity → SystemMode → Result (Unit {0})
unfolding can_manage_schedule
assert_may_manage identity mode =
    if (can_manage_schedule identity mode).allowed then ok tt else err forbidden

module _ (db : Prisma) (is_valid_timezone : String → Bool)
    (local_now : ℕ → String → Option LocalNow) where
  unfoldable pub create_route :
      ℕ → Identity → ScheduleRequest → List ArmSchedule → Result (List ArmSchedule × ArmSchedule)
  unfolding assert_may_manage create_schedule
  create_route now identity dto rows = do
    _ ← assert_may_manage identity dto.mode
    create_schedule db is_valid_timezone local_now now dto rows

  unfoldable pub update_route :
      ℕ
      → Identity
      → String
      → ScheduleRequest
      → List ArmSchedule
      → Result (List ArmSchedule × ArmSchedule)
  unfolding assert_may_manage update_schedule
  update_route now identity id dto rows = do
    _ ← assert_may_manage identity dto.mode
    update_schedule db is_valid_timezone local_now now id dto rows
