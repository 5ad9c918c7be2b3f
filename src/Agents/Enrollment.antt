-- ===== src/Agents/Enrollment.antt =====
-- What a registration leaves in the registry.
use text.Mathlib.Text.{starts_with}
use project.Agents.Service.{
  Enrollment, RegisterRequest, browser_camera_id_prefix, enroll, handle_recovery, new_agent,
  re_registered, register,
}
use project.Alerts.Service.{acknowledge_open_offline_alerts, publish, raise, raise_agent_recovered}
use project.Base.{
  ==_iff, ==_refl, Option-cases, String, ap, arith, eq_option, eq_string, eq_ℕ, false, find,
  find-eq-some, find-snoc, find-update, inl, inr, refl, some, ℕ, ◌==◌, ◌∙◌, ◌≡◌,
}
use project.Contracts.Modes.{online}
use project.Db.{Prisma}
use project.Http.{ok}
use project.Hub.{Agent, Hub}
use project.Security.Guard.{missing}
use project.Security.Tokens.{mint_agent_token}
use project.Settings.{Settings}
use project.System.{get_mode}

module _ (db : Prisma) (cfg : Settings) where
  agents-handle_recovery :
      (now : ℕ) (a : Agent) (h : Hub) → (handle_recovery db cfg now a h).agents ≡ h.agents
  unfolding handle_recovery raise_agent_recovered raise publish get_mode
      acknowledge_open_offline_alerts
  agents-handle_recovery now a h = ground arith

  agents-enroll :
      (now : ℕ) (minted : String × String) (dto : RegisterRequest) (h : Hub)
      → (enroll db cfg now minted dto h).0.agents
        ≡ (db.upsert
            (λ r. r.id == dto.id)
            (new_agent now minted.1 dto)
            (re_registered now minted.1 dto)
            h.agents).0
  unfolding enroll
  agents-enroll now minted dto h = ground (
    arith,
    agents-handle_recovery now (enroll db cfg now minted dto h).1.agent (record h {
      agents =
          (db.upsert (λ r. r.id == dto.id) (new_agent now minted.1 dto)
            (re_registered now minted.1 dto) h.agents).0;
    }),
  )

  -- The row that is stored under the registered identifier.
  pub record IsEnrolled (hash : String → String) (now : ℕ) (dto : RegisterRequest) (token : String)
      (a : Agent) : Type 0 where
    pub is_id : a.id ≡ dto.id
    pub current : a.token_hash ≡ some (hash token)
    pub up : a.status ≡ online
    pub seen : a.last_seen_at ≡ now

  IsEnrolled-row :
      (now : ℕ) (hash : String → String) (random : String) (dto : RegisterRequest) (h : Hub)
      → let minted = mint_agent_token hash random in
        (a : Agent) × (find
            (λ r. r.id == dto.id)
            (db.upsert
              (λ r. r.id == dto.id)
              (new_agent now minted.1 dto)
              (re_registered now minted.1 dto)
              h.agents).0
          ≡ some a)
        × IsEnrolled hash now dto minted.0 a
  unfolding mint_agent_token new_agent re_registered
  IsEnrolled-row now hash random dto h =
      let minted = mint_agent_token hash random in
      elim (Option-cases (find (λ (r : Agent). r.id == dto.id) h.agents)) [
        | inl missing ↦ (
          new_agent now minted.1 dto,
          rw (db.upsert_lem, missing)
              (find-snoc (λ (r : Agent). r.id == dto.id) h.agents (new_agent now minted.1 dto)
                missing (==_refl dto.id)),
          record { is_id = refl; current = refl; up = refl; seen = refl },
        )
        | inr (r, found) ↦ (
          re_registered now minted.1 dto r,
          rw (db.upsert_lem, found)
              (find-update (λ (r : Agent). r.id == dto.id) (λ r. r.id == dto.id)
                  (re_registered now minted.1 dto) h.agents (λ r. ground arith)
                ∙ rw found
                    (ground (arith, find-eq-some (λ (r : Agent). r.id == dto.id) h.agents found))),
          record {
            is_id = (==_iff r.id dto.id).0 (find-eq-some (λ r. r.id == dto.id) h.agents found);
            current = refl;
            up = refl;
            seen = refl;
          },
        )
      ]

  -- A registration is accepted only for an identifier without the reserved browser prefix, and then
  -- the row found under the identifier is online, seen now, and holds the hash of the token that was
  -- handed out, so any token before it is replaced.
  pub register_lem :
      (now : ℕ) (hash : String → String) (random : String) (dto : RegisterRequest) (h h' : Hub)
      (e : Enrollment)
      → register db cfg now hash random dto h ≡ ok (h', e)
      → (starts_with dto.id browser_camera_id_prefix ≡ false)
        × (a : Agent) × (find (λ r. r.id == dto.id) h'.agents ≡ some a)
        × IsEnrolled hash now dto e.token a
  unfolding register
  register_lem now hash random dto h h' e accepted =
      let minted = mint_agent_token hash random in
      let same : enroll db cfg now minted dto h ≡ (h', e) = ground arith in
      let is_hub : (enroll db cfg now minted dto h).0 ≡ h' = ap (λ r. r.0) same in
      let is_token : (enroll db cfg now minted dto h).1.token ≡ e.token =
        ap (λ r. r.1.token) same in
      let (row, found, kept) = IsEnrolled-row now hash random dto h in
      (ground arith, row, rw (← is_hub, agents-enroll) found, rw (← is_token) kept)
