-- ===== src/Schedules/Firing.antt =====
-- What an evaluation that fires, holds or misses has done.
use project.Base.{
  Option, Option-cases, String, any, arith, false, inl, inr, refl, some, true, ℕ, ◌≡◌,
}
use project.Contracts.Modes.{disarmed}
use project.Db.{Prisma}
use project.Schedules.LocalTime.{ArmSchedule, DueVerdict, LocalNow, due, evaluate_due, idle}
use project.Schedules.Once.{claim_closes, claim_lost}
use project.Schedules.Runner.{
  Outcome, Panel, act, claim, evaluate_schedule, fire, is_unclaimed, skip,
}
use project.Security.Policy.{can_schedule_set_mode}
use project.Security.PolicyLaws.{IsQuiet, IsQuiet-of_allowed}
use project.Settings.{Settings}
use project.System.{ModeChange, get_mode, set_mode}
use project.System.Laws.{get_mode-set_mode}

module _ (db : Prisma) (cfg : Settings) (local_now : ℕ → String → Option LocalNow)
    (detail_of : ArmSchedule → LocalNow → Option (ModeChange × ℕ) → String) where
  -- What is known of a schedule that fired: the policy allowed it, the claim was won, and the system
  -- is in the schedule's mode.
  pub record HasFired (now : ℕ) (s : ArmSchedule) (date_key : String) (p p' : Panel) : Type 0 where
    pub policy : (can_schedule_set_mode db s.mode p.hub.alerts).allowed ≡ true
    pub won : (claim db s.id date_key (some now) p.schedules).1 ≡ true
    pub stored : p'.schedules ≡ (claim db s.id date_key (some now) p.schedules).0
    pub in_mode : (get_mode db p'.hub).1 ≡ s.mode

  fire_fired :
      (now : ℕ) (s : ArmSchedule) (local : LocalNow) (date_key : String) (late : ℕ) (p p' : Panel)
      → fire db cfg local_now detail_of now s local date_key late p ≡ (p', some Outcome.fired)
      → HasFired now s date_key p p'
  unfolding fire
  fire_fired now s local date_key late p p' e =
      let policy : (can_schedule_set_mode db s.mode p.hub.alerts).allowed ≡ true = ground arith in
      let won : (claim db s.id date_key (some now) p.schedules).1 ≡ true = ground arith in
      let hub : p'.hub ≡ (set_mode db s.mode p.hub).0 = ground arith in
      record {
        policy = policy;
        won = won;
        stored = ground arith;
        in_mode = rw hub (get_mode-set_mode db p.hub s.mode);
      }

  due_date :
      (s : ArmSchedule) (local : LocalNow) (grace : ℕ) (date_key : String) (late : ℕ)
      → evaluate_due s local grace ≡ due date_key late
      → date_key ≡ local.date_key
  unfolding evaluate_due
  due_date s local grace date_key late e = ground arith

  act_fired :
      (now : ℕ) (s : ArmSchedule) (local : LocalNow) (v : DueVerdict) (p p' : Panel)
      → evaluate_due s local cfg.grace_minutes ≡ v
      → act db cfg local_now detail_of now s local v p ≡ (p', some Outcome.fired)
      → HasFired now s local.date_key p p'
  unfolding act skip
  act_fired now s local idle p p' v e = absurd (ground arith)
  act_fired now s local (due date_key late) p p' v e =
      rw (← due_date s local cfg.grace_minutes date_key late v)
        (fire_fired now s local date_key late p p' e)
  act_fired now s local (DueVerdict.missed date_key late) p p' v e = absurd (ground arith)

  -- A schedule fires only where the platform knows its zone, and then has won the claim of its local
  -- date under a policy that allowed it, and has put the system in its mode. In particular one that
  -- disarms fires only while no critical alert is open.
  pub evaluate_schedule_fired :
      (now : ℕ) (s : ArmSchedule) (p p' : Panel)
      → evaluate_schedule db cfg local_now detail_of now s p ≡ (p', some Outcome.fired)
      → (local : LocalNow) × (local_now now s.timezone ≡ some local)
        × HasFired now s local.date_key p p'
        × (s.mode ≡ disarmed → IsQuiet p.hub.alerts)
  unfolding evaluate_schedule
  evaluate_schedule_fired now s p p' e = elim (Option-cases (local_now now s.timezone)) [
    | inl unknown ↦ absurd (ground arith)
    | inr (local, known) ↦
        let h = act_fired now s local _ p p' refl (rw known at e) in
        (local, known, h, λ disarms. IsQuiet-of_allowed db p.hub.alerts (rw disarms at h.policy))
  ]

  -- With its local date closed, no evaluation of a schedule touches the hub.
  act_closed :
      (now : ℕ) (s : ArmSchedule) (local : LocalNow) (v : DueVerdict) (p : Panel)
      → evaluate_due s local cfg.grace_minutes ≡ v
      → any (is_unclaimed s.id local.date_key) p.schedules ≡ false
      → (act db cfg local_now detail_of now s local v p).0.hub ≡ p.hub
  unfolding act skip fire
  act_closed now s local idle p v closed = refl
  act_closed now s local (due date_key late) p v closed =
      let lost =
        claim_lost db s.id date_key (some now) p.schedules
          (rw (due_date s local cfg.grace_minutes date_key late v) closed) in
      ground arith
  act_closed now s local (DueVerdict.missed date_key late) p v closed = ground arith

  -- It fires once: after a schedule has fired, no evaluation of it for the same local date changes
  -- the hub, whether it starts from the new row or from one read before the claim, on this instance
  -- or another.
  pub fires_once :
      (now later : ℕ) (s s' : ArmSchedule) (p p' : Panel) (local local' : LocalNow)
      → evaluate_schedule db cfg local_now detail_of now s p ≡ (p', some Outcome.fired)
      → local_now now s.timezone ≡ some local
      → local_now later s'.timezone ≡ some local'
      → s'.id ≡ s.id
      → local'.date_key ≡ local.date_key
      → (evaluate_schedule db cfg local_now detail_of later s' p').0.hub ≡ p'.hub
  unfolding evaluate_schedule
  fires_once now later s s' p p' local local' e known known' same_id same_date =
      let h = act_fired now s local _ p p' refl (rw known at e) in
      let closed : any (is_unclaimed s'.id local'.date_key) p'.schedules ≡ false =
        rw (same_id, same_date, h.stored)
          (claim_closes db s.id local.date_key (some now) p.schedules) in
      rw known' (act_closed later s' local' _ p' refl closed)
