-- ===== src/Security/PolicyLaws.antt =====
-- The mode policy: who may change the mode, what a schedule may do, and what delegation allows.
use project.Base.{
  ==_iff, Bool-cases, List, [], any, any_of_count-eq-zero, arith, count-eq-zero, eq_string, eq_ℕ,
  false, inl, inr, true, ◌==◌, ◌↔◌, ◌≡◌, ◌≢◌,
}
use project.Contracts.Auth.{
  admin, eq_permission, eq_role, includes, operator, permissions_for_role, system_arm,
  system_disarm,
}
use project.Contracts.Modes.{SystemMode, disarmed, eq_mode}
use project.Db.{Prisma}
use project.Hub.{Alert}
use project.Security.Credential.{Identity, human}
use project.Security.Policy.{
  can_manage_schedule, can_schedule_set_mode, can_set_mode, is_open_critical,
}

-- No critical alert is open.
abbrev pub IsQuiet : List Alert → Type 0
IsQuiet alerts = any is_open_critical alerts ≡ false

-- The rule as it is meant: to disarm, the disarm permission, and either the admin role or a quiet
-- building; to arm, the arm permission.
pub data MayChange (identity : Identity) (alerts : List Alert) : SystemMode → Type 0 where
  override :
      includes identity.permissions system_disarm ≡ true
      → identity.role ≡ admin
      → MayChange identity alerts disarmed
  stand_down :
      includes identity.permissions system_disarm ≡ true
      → IsQuiet alerts
      → MayChange identity alerts disarmed
  arm :
      {target : SystemMode}
      → includes identity.permissions system_arm ≡ true
      → target ≢ disarmed
      → MayChange identity alerts target

module _ (db : Prisma) where
  count-IsQuiet :
      (alerts : List Alert) → (db.count_rows is_open_critical alerts ≡ 0) ↔ IsQuiet alerts
  count-IsQuiet alerts =
      rw db.count_rows_lem
        (any_of_count-eq-zero is_open_critical alerts, count-eq-zero is_open_critical alerts)

  MayChange-sound :
      (identity : Identity) (target : SystemMode) (alerts : List Alert)
      → (can_set_mode db identity target alerts).allowed ≡ true
      → MayChange identity alerts target
  unfolding can_set_mode
  MayChange-sound identity disarmed alerts e = elim (Bool-cases (identity.role == admin)) [
    | inl r ↦ override (ground arith) ((==_iff identity.role admin).0 r)
    | inr r ↦ stand_down (ground arith) ((count-IsQuiet alerts).0 (ground arith))
  ]
  MayChange-sound identity target alerts e = arm (ground arith) (ground arith)

  MayChange-complete :
      (identity : Identity) {target : SystemMode} (alerts : List Alert)
      → MayChange identity alerts target
      → (can_set_mode db identity target alerts).allowed ≡ true
  unfolding can_set_mode
  MayChange-complete identity alerts (override p r) = ground (arith, r)
  MayChange-complete identity alerts (stand_down p q) = ground (arith, (count-IsQuiet alerts).1 q)
  MayChange-complete identity {target} alerts (arm p n) = ground arith

  -- The hub lets a credential change the mode exactly when the rule allows it.
  pub can_set_mode_iff :
      (identity : Identity) (target : SystemMode) (alerts : List Alert)
      → ((can_set_mode db identity target alerts).allowed ≡ true) ↔ MayChange identity alerts target
  can_set_mode_iff identity target alerts =
      (MayChange-sound identity target alerts, MayChange-complete identity alerts)

  -- A schedule may do exactly what an operator may do at that moment: it never inherits the admin
  -- override.
  can_schedule_as_operator :
      (target : SystemMode) (alerts : List Alert)
      → (can_schedule_set_mode db target alerts).allowed
        ≡ (can_set_mode db (human operator []) target alerts).allowed
  unfolding can_schedule_set_mode can_set_mode permissions_for_role includes
  can_schedule_as_operator target alerts = ground arith

  -- Delegation grants nothing: who may write a schedule for a mode may, while no critical alert is
  -- open, set that mode directly.
  can_manage_direct :
      (identity : Identity) (mode : SystemMode) (alerts : List Alert)
      → (can_manage_schedule identity mode).allowed ≡ true
      → IsQuiet alerts
      → (can_set_mode db identity mode alerts).allowed ≡ true
  unfolding can_manage_schedule can_set_mode
  can_manage_direct identity mode alerts e quiet = ground (arith, (count-IsQuiet alerts).1 quiet)

  -- A scheduled disarm that is allowed finds the building quiet.
  pub IsQuiet-of_allowed :
      (alerts : List Alert)
      → (can_schedule_set_mode db disarmed alerts).allowed ≡ true
      → IsQuiet alerts
  unfolding can_schedule_set_mode
  IsQuiet-of_allowed alerts e = (count-IsQuiet alerts).0 (ground arith)
