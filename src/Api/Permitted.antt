-- ===== src/Api/Permitted.antt =====
-- A schedule cannot grant a permission that its author lacks.
use project.Api.Schedules.{assert_may_manage, create_route, update_route}
use project.Base.{
  Bool, List, Option, String, ap, arith, eq_option, eq_string, eq_ℕ, none, some, sym, true, ℕ, ◌∙◌,
  ◌≡◌,
}
use project.Contracts.Auth.{eq_permission, includes, schedules_write}
use project.Contracts.Modes.{SystemMode, eq_mode}
use project.Db.{Prisma}
use project.Http.{>>=-eq-ok, ok, ok-injective}
use project.Schedules.Edited.{validate-mode}
use project.Schedules.Editing.{
  ScheduleRequest, create_schedule, edited_row, local_at, new_schedule, update_found,
  update_schedule, validate,
}
use project.Schedules.LocalTime.{ArmSchedule, LocalNow}
use project.Security.Credential.{Identity}
use project.Security.Policy.{can_manage_schedule, needed_for}

assert_may_manage_lem :
    (identity : Identity) (mode : SystemMode) (u : Unit {0})
    → assert_may_manage identity mode ≡ ok u
    → (includes identity.permissions schedules_write ≡ true)
      × (includes identity.permissions (needed_for mode) ≡ true)
unfolding assert_may_manage can_manage_schedule
assert_may_manage_lem identity mode u e = (ground arith, ground arith)

-- What the caller holds when a schedule with this mode is stored.
abbrev pub HoldsMode : Identity → SystemMode → Type 0
HoldsMode identity mode =
    (includes identity.permissions schedules_write ≡ true)
    × (includes identity.permissions (needed_for mode) ≡ true)

module _ (db : Prisma) (known : String → Bool) (local_now : ℕ → String → Option LocalNow) where
  create_schedule-mode :
      (now : ℕ) (dto : ScheduleRequest) (rows rows' : List ArmSchedule) (s : ArmSchedule)
      → create_schedule db known local_now now dto rows ≡ ok (rows', s)
      → s.mode ≡ dto.mode
  unfolding create_schedule new_schedule
  create_schedule-mode now dto rows rows' s e =
      let (data_of, valid, e1) = >>=-eq-ok (validate known dto) _ (rows', s) e in
      let (local, at, e2) =
        >>=-eq-ok (local_at db known local_now now data_of.timezone) _ (rows', s) e1 in
      ap (λ r. r.1.mode) (sym (ok-injective _ (rows', s) e2))
      ∙ validate-mode known dto data_of valid

  update_found-mode :
      (now : ℕ) (id : String) (dto : ScheduleRequest) (rows rows' : List ArmSchedule)
      (s : ArmSchedule) (o : Option ArmSchedule)
      → update_found db known local_now now id dto rows o ≡ ok (rows', s)
      → s.mode ≡ dto.mode
  unfolding update_found edited_row
  update_found-mode now id dto rows rows' s none e = absurd (ground arith)
  update_found-mode now id dto rows rows' s (some old) e =
      let (data_of, valid, e1) = >>=-eq-ok (validate known dto) _ (rows', s) e in
      let (local, at, e2) =
        >>=-eq-ok (local_at db known local_now now data_of.timezone) _ (rows', s) e1 in
      ap (λ r. r.1.mode) (sym (ok-injective _ (rows', s) e2))
      ∙ validate-mode known dto data_of valid

  -- A schedule is created only by a caller that may edit schedules and may itself set the mode that
  -- the stored schedule sets.
  create_route_permitted :
      (now : ℕ) (identity : Identity) (dto : ScheduleRequest) (rows rows' : List ArmSchedule)
      (s : ArmSchedule)
      → create_route db known local_now now identity dto rows ≡ ok (rows', s)
      → HoldsMode identity s.mode
  unfolding create_route
  create_route_permitted now identity dto rows rows' s e =
      let (u, may, made) = >>=-eq-ok (assert_may_manage identity dto.mode) _ (rows', s) e in
      rw (create_schedule-mode now dto rows rows' s made)
        (assert_may_manage_lem identity dto.mode u may)

  -- A schedule is changed only by a caller that may edit schedules and may itself set the mode that
  -- the schedule sets from then on.
  update_route_permitted :
      (now : ℕ) (identity : Identity) (id : String) (dto : ScheduleRequest)
      (rows rows' : List ArmSchedule) (s : ArmSchedule)
      → update_route db known local_now now identity id dto rows ≡ ok (rows', s)
      → HoldsMode identity s.mode
  unfolding update_route update_schedule
  update_route_permitted now identity id dto rows rows' s e =
      let (u, may, made) = >>=-eq-ok (assert_may_manage identity dto.mode) _ (rows', s) e in
      rw (update_found-mode now id dto rows rows' s _ made)
        (assert_may_manage_lem identity dto.mode u may)
