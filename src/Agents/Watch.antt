-- ===== src/Agents/Watch.antt =====
-- What a sweep does to the registry and the alert table.
use project.Agents.Liveness.{
  Sweeper, announce_all, is_one_of, is_stale, is_unreported, offline_row, reconcile_offline_agents,
  report_all, sweep, sweep_agents,
}
use project.Agents.Sweep.{
  agents-announce_all, agents-report_all, announced, any-announce_all, any-report_all, reported,
}
use project.Alerts.Service.{is_open_offline}
use project.Base.{
  ==_refl, Bool, Bool-cases, List, [], all, all-update, all_mono, any, any_none, any_of_all-not,
  arith, eq_string, eq_ℕ, false, if◌then◌else◌, inl, inr, ltb, map, not, refl, select,
  select-eq-nil, select_covers, true, update_row, update_same, ℕ, ◌+◌, ◌==◌, ◌||◌, ◌≡◌, ◌≤◌,
}
use project.Contracts.Modes.{is_device, is_online}
use project.Db.{Prisma}
use project.Hub.{Agent, Alert, Hub}
use project.Settings.{Settings}

-- An agent that needs no report, or has one.
pub is_reported : List Alert → Agent → Bool
is_reported alerts a =
    is_online a.status || not (is_device a.origin) || any (is_open_offline a.id) alerts

abbrev pub AllReported : Hub → Type 0
AllReported h = all (is_reported h.alerts) h.agents ≡ true

module _ (db : Prisma) (cfg : Settings) where
  covered :
      (p : Agent → Bool) (rows : List Agent)
      → all (λ a. not (p a) || is_one_of (select p rows) a) rows ≡ true
  unfolding is_one_of
  covered p rows = select_covers p (λ r a. r.id == a.id) rows (λ a. ==_refl a.id)

  -- More alerts report no agent less.
  is_reported_mono :
      (before after : List Alert) (a : Agent)
      → (any (is_open_offline a.id) before ≡ true → any (is_open_offline a.id) after ≡ true)
      → is_reported before a ≡ true
      → is_reported after a ≡ true
  unfolding is_reported
  is_reported_mono before after a h e = ground arith

  unreported_row :
      (before after : List Alert) (rows : List Agent) (a : Agent)
      → (any (is_open_offline a.id) before ≡ true → any (is_open_offline a.id) after ≡ true)
      → (is_one_of rows a ≡ true → any (is_open_offline a.id) after ≡ true)
      → (not (is_unreported before a) || is_one_of rows a) ≡ true
      → is_reported after a ≡ true
  unfolding is_reported is_unreported
  unreported_row before after rows a h k e = elim (Bool-cases (any (is_open_offline a.id) before)) [
    | inl open_now ↦ ground (arith, h open_now)
    | inr _ ↦ elim (Bool-cases (is_one_of rows a)) [
      | inl listed ↦ ground (arith, k listed)
      | inr _ ↦ ground arith
    ]
  ]

  -- The reconciliation leaves every offline device with an open alert, whatever it started from.
  reconcile-AllReported : (now : ℕ) (h : Hub) → AllReported (reconcile_offline_agents db cfg now h)
  unfolding reconcile_offline_agents
  reconcile-AllReported now h =
      let rows = select (is_unreported h.alerts) h.agents in
      rw (db.find_many_lem, agents-report_all)
        (all_mono (λ a. not (is_unreported h.alerts a) || is_one_of rows a)
          (is_reported (report_all db cfg now rows h).alerts) h.agents
          (λ a.
            unreported_row h.alerts (report_all db cfg now rows h).alerts rows a
              (any-report_all db cfg (is_open_offline a.id) now rows h)
              (λ e. reported db cfg now rows h a.id (unfold is_one_of in e)))
          (covered (is_unreported h.alerts) h.agents))

  swept_row :
      (now : ℕ) (rows : List Agent) (h : Hub) (a : Agent)
      → is_reported h.alerts a ≡ true
      → is_reported
          (announce_all db cfg now rows h).alerts
          (update_row (is_one_of rows) offline_row a)
        ≡ true
  unfolding is_one_of
  swept_row now rows h a e = elim (Bool-cases (is_one_of rows a)) [
    | inl listed ↦
        rw listed (unfold is_reported in ground (arith, announced db cfg now rows h a.id listed))
    | inr spared ↦ rw spared (
        is_reported_mono h.alerts _ a (any-announce_all db cfg (is_open_offline a.id) now rows h) e)
  ]

  sweep_agents-AllReported :
      (now : ℕ) (h : Hub) → AllReported h → AllReported (sweep_agents db cfg now h)
  unfolding sweep_agents
  sweep_agents-AllReported now h e =
      let rows = select (is_stale cfg now) h.agents in
      let marked = record h {
        agents = map (λ r. if is_one_of rows r then offline_row r else r) h.agents;
      } in
      rw (db.find_many_lem, agents-announce_all, db.update_many_lem)
        (all-update (is_reported h.alerts)
          (is_reported (announce_all db cfg now rows marked).alerts) (is_one_of rows) offline_row
          h.agents (swept_row now rows marked) e)

  stale_row :
      (now : ℕ) (rows : List Agent) (a : Agent)
      → (not (is_stale cfg now a) || is_one_of rows a) ≡ true
      → not (is_stale cfg now (update_row (is_one_of rows) offline_row a)) ≡ true
  unfolding is_stale
  stale_row now rows a e = elim (Bool-cases (is_one_of rows a)) [
    | inl listed ↦ rw listed
    | inr spared ↦ rw spared (ground arith)
  ]

  sweep_agents_none_stale :
      (now : ℕ) (h : Hub)
      → all (λ a. not (is_stale cfg now a)) (sweep_agents db cfg now h).agents ≡ true
  unfolding sweep_agents
  sweep_agents_none_stale now h =
      let rows = select (is_stale cfg now) h.agents in
      rw (db.find_many_lem, agents-announce_all, db.update_many_lem)
        (all-update (λ a. not (is_stale cfg now a) || is_one_of rows a)
          (λ a. not (is_stale cfg now a)) (is_one_of rows) offline_row h.agents (stale_row now rows)
          (covered (is_stale cfg now) h.agents))

  -- The hub that the pass over the registry starts from.
  prepared : ℕ → Sweeper → Hub → Hub
  prepared now s h = if s.reconciled then h else reconcile_offline_agents db cfg now h

  sweep_runs :
      (now : ℕ) (s : Sweeper) (h : Hub)
      → s.booted_at + cfg.timeout_ms ≤ now
      → s.sweeping ≡ false
      → sweep db cfg now (s, h)
        ≡ (record s { reconciled = true }, sweep_agents db cfg now (prepared now s h))
  unfolding sweep prepared
  sweep_runs now s h up free =
      let late : ltb now (s.booted_at + cfg.timeout_ms) ≡ false = ground arith in rw (late, free)

  prepared-AllReported :
      (now : ℕ) (s : Sweeper) (h : Hub)
      → (s.reconciled ≡ true → AllReported h)
      → AllReported (prepared now s h)
  unfolding prepared
  prepared-AllReported now s h before = elim (Bool-cases s.reconciled) [
    | inl done ↦ rw done (before done)
    | inr first ↦ rw first (reconcile-AllReported now h)
  ]

  -- A sweep that runs, outside the startup grace and not overlapping another, leaves no device
  -- marked online that has been silent for longer than the timeout, and leaves every device that is
  -- marked offline with an open offline alert. Its first run needs nothing of the state before; a
  -- later one needs that every offline device had its alert.
  pub sweep_lem :
      (now : ℕ) (s : Sweeper) (h : Hub)
      → s.booted_at + cfg.timeout_ms ≤ now
      → s.sweeping ≡ false
      → (s.reconciled ≡ true → AllReported h)
      → (all (λ a. not (is_stale cfg now a)) (sweep db cfg now (s, h)).1.agents ≡ true)
        × AllReported (sweep db cfg now (s, h)).1
  sweep_lem now s h up free before = rw (sweep_runs now s h up free) (
    sweep_agents_none_stale now (prepared now s h),
    sweep_agents-AllReported now (prepared now s h) (prepared-AllReported now s h before),
  )

  sweep_agents_idle :
      (now : ℕ) (h : Hub)
      → all (λ a. not (is_stale cfg now a)) h.agents ≡ true
      → sweep_agents db cfg now h ≡ h
  unfolding sweep_agents is_one_of any
  sweep_agents_idle now h e = rw (
    db.find_many_lem,
    select-eq-nil (is_stale cfg now) h.agents (any_of_all-not (is_stale cfg now) h.agents e),
    db.update_many_lem,
    update_same (is_one_of []) offline_row h.agents (any_none (is_one_of []) h.agents (λ x. refl)),
  )

  -- Each silence is reported once: a second sweep at the same time changes nothing, and sends
  -- nothing.
  sweep_again :
      (now : ℕ) (s : Sweeper) (h : Hub)
      → s.booted_at + cfg.timeout_ms ≤ now
      → s.sweeping ≡ false
      → sweep db cfg now (sweep db cfg now (s, h)) ≡ sweep db cfg now (s, h)
  unfolding prepared
  sweep_again now s h up free =
      let k = sweep_agents db cfg now (prepared now s h) in
      rw (sweep_runs now s h up free, sweep_runs now (record s { reconciled = true }) k up free)
        (rw (sweep_agents_idle now k (sweep_agents_none_stale now (prepared now s h))))
