-- ===== src/Agents/Liveness.antt =====
-- hub/src/agents/agent-liveness.service.ts: the sweep, with its startup grace, its overlap guard and
-- its one-shot reconciliation. A database that fails is outside the model.
use project.Agents.Service.{rule_agent}
use project.Alerts.Service.{is_open_offline, raise_agent_offline}
use project.Base.{
  Bool, List, Option, [], any, eq_option, eq_string, eq_ℕ, if◌then◌else◌, ltb, none, not, some,
  true, ℕ, ◌&&◌, ◌++◌, ◌+◌, ◌-◌, ◌==◌, ◌||◌, ◌∷◌,
}
use project.Contracts.Modes.{is_device, is_online, offline}
use project.Db.{Prisma}
use project.Hub.{Agent, Alert, Hub, agent_frame}
use project.Settings.{Settings}

pub record Sweeper : Type 0 where
  pub booted_at : ℕ
  pub sweeping : Bool
  pub reconciled : Bool

-- A device that is marked online and has been silent for longer than the timeout.
unfoldable pub is_stale : Settings → ℕ → Agent → Bool
is_stale cfg now a =
    is_online a.status && ltb (a.last_seen_at + cfg.timeout_ms) now && is_device a.origin

-- A device that is marked offline and has no open offline alert.
unfoldable pub is_unreported : List Alert → Agent → Bool
unfolding any is_open_offline
is_unreported alerts a =
    not (is_online a.status) && is_device a.origin && not (any (is_open_offline a.id) alerts)

abbrev pub offline_row : Agent → Agent
offline_row a = record a { status = offline }

-- `id: { in: rows.map((r) => r.id) }`.
unfoldable pub is_one_of : List Agent → Agent → Bool
unfolding any
is_one_of rows a = any (λ r. r.id == a.id) rows

module _ (db : Prisma) (cfg : Settings) where
  in_startup_grace : ℕ → Sweeper → Bool
  in_startup_grace now s = ltb now (s.booted_at + cfg.timeout_ms)

  -- The loop of `reconcileOfflineAgents`.
  unfoldable pub report_all : ℕ → List Agent → Hub → Hub
  report_all now [] h = h
  report_all now (a ∷ rows) h =
      report_all now rows (raise_agent_offline db cfg now (rule_agent a) (now - a.last_seen_at) h).0

  unfoldable pub reconcile_offline_agents : ℕ → Hub → Hub
  unfolding report_all is_unreported
  reconcile_offline_agents now h = report_all now (db.find_many (is_unreported h.alerts) h.agents) h

  abbrev emit_agent : Option Agent → Hub → Hub
  emit_agent none h = h
  emit_agent (some a) h = record h { frames = h.frames ++ agent_frame a ∷ [] }

  -- One round of the sweep's loop: the alert, then the agent's frame.
  unfoldable pub announce : ℕ → Agent → Hub → Hub
  announce now a h =
      let told = (raise_agent_offline db cfg now (rule_agent a) (now - a.last_seen_at) h).0 in
      emit_agent (db.find_unique (λ r. r.id == a.id) told.agents) told

  unfoldable pub announce_all : ℕ → List Agent → Hub → Hub
  unfolding announce
  announce_all now [] h = h
  announce_all now (a ∷ rows) h = announce_all now rows (announce now a h)

  -- The transaction: the stale rows, and the table with those marked offline.
  unfoldable pub mark_offline : List Agent → Hub → Hub
  unfolding is_one_of
  mark_offline stale h = record h {
    agents = (db.update_many (is_one_of stale) offline_row h.agents).0;
  }

  unfoldable pub sweep_agents : ℕ → Hub → Hub
  unfolding announce_all mark_offline is_stale
  sweep_agents now h =
      let stale = db.find_many (is_stale cfg now) h.agents in
      announce_all now stale (mark_offline stale h)

  unfoldable pub sweep : ℕ → Sweeper × Hub → Sweeper × Hub
  unfolding in_startup_grace reconcile_offline_agents sweep_agents
  sweep now (s, h) = if in_startup_grace now s || s.sweeping then (s, h) else (
    record s { reconciled = true },
    sweep_agents now (if s.reconciled then h else reconcile_offline_agents now h),
  )
