-- ===== src/Cameras/BrowserLaws.antt =====
-- The cap on browser cameras, and what their endpoints may not touch.
use project.Agents.Service.{browser_camera_id_prefix}
use project.Base.{
  ==_refl, List, Option, Option-cases, String, [], arith, concat, count, count-snoc, eq_option,
  eq_string, eq_ℕ, find, find-update, inl, inr, none, refl, select, select_spared, some, sym, ℕ,
  ◌<◌, ◌==◌, ◌∙◌, ◌∷◌, ◌≡◌, ◌≤◌,
}
use project.Cameras.Browser.{
  BrowserSession, create, is_ended, is_live, max_browser_cameras, new_browser_camera,
  reap_ended_sessions, renew, require_browser_camera, revoke, revoked_row,
}
use project.Contracts.Modes.{device, is_device}
use project.Db.{Prisma}
use project.Http.{err, not_found, ok}
use project.Hub.{Agent}
use project.Security.Guard.{missing}
use project.Security.Tokens.{mint_agent_token}

-- At most the cap of browser cameras hold a token.
abbrev pub IsCapped : List Agent → Type 0
IsCapped agents = count is_live agents ≤ max_browser_cameras

module _ (db : Prisma) (hash : String → String) where
  -- A session is granted only below the cap, and the number of live browser cameras is then still
  -- within it.
  pub create-IsCapped :
      (now : ℕ) (suffix random location : String) (label : Option String)
      (agents agents' : List Agent) (s : BrowserSession)
      → create db hash now suffix random location label agents ≡ ok (agents', s)
      → (count is_live agents < max_browser_cameras) × IsCapped agents'
  unfolding create
  create-IsCapped now suffix random location label agents agents' s e =
      let id = concat (browser_camera_id_prefix ∷ suffix ∷ []) in
      let row = new_browser_camera now id (mint_agent_token hash random).1 location label in
      let stored : db.create row agents ≡ agents' = ground arith in
      let added = sym (db.create_lem row agents) ∙ stored in
      let counted = db.count_rows_lem is_live agents in
      (
        ground (arith, counted),
        ground (arith, counted, rw added at (count-snoc is_live agents row)),
      )

  -- Reaping removes only browser cameras without a token: every device, and every live session, is
  -- as it was.
  reap_spares :
      (now : ℕ) (agents : List Agent)
      → (select (λ a. is_device a.origin) (reap_ended_sessions db hash now agents).0
          ≡ select (λ a. is_device a.origin) agents)
        × (select is_live (reap_ended_sessions db hash now agents).0 ≡ select is_live agents)
  unfolding reap_ended_sessions
  reap_spares now agents = rw db.delete_many_lem (
    select_spared (is_ended now) (λ a. is_device a.origin) agents
        (λ a h. unfold is_ended in ground arith),
    select_spared (is_ended now) is_live agents (λ a h. unfold is_ended is_live in ground arith),
  )

  -- A device cannot be revoked or renewed through these endpoints: they answer not found.
  device_not_found :
      (now : ℕ) (random id : String) (agents : List Agent) (a : Agent)
      → find (λ r. r.id == id) agents ≡ some a
      → a.origin ≡ device
      → (revoke db hash id agents ≡ err not_found)
        × (renew db hash now random id agents ≡ err not_found)
  unfolding revoke renew require_browser_camera
  device_not_found now random id agents a found is_dev =
      ground (arith, found, is_dev, db.find_unique_lem (λ (r : Agent). r.id == id) agents)

  -- A revoked session holds no token: the row that is found under its identifier afterwards has
  -- none.
  revoke_lem :
      (id : String) (agents agents' : List Agent)
      → revoke db hash id agents ≡ ok agents'
      → (a : Agent) × (find (λ r. r.id == id) agents' ≡ some a) × (a.token_hash ≡ none)
  unfolding revoke require_browser_camera
  revoke_lem id agents agents' e = elim (Option-cases (find (λ (r : Agent). r.id == id) agents)) [
    | inl missing ↦
        absurd (ground (arith, missing, db.find_unique_lem (λ (r : Agent). r.id == id) agents))
    | inr (a, found) ↦
        let look = db.find_unique_lem (λ (r : Agent). r.id == id) agents in
        let stored : (db.update_many (λ (r : Agent). r.id == a.id) revoked_row agents).0 ≡ agents' =
          ground (arith, found, look) in
        let kept =
          find-update (λ (r : Agent). r.id == id) (λ r. r.id == a.id) revoked_row agents
            (λ r. ground arith) in
        (
          revoked_row a,
          rw (← stored, db.update_many_lem) (kept ∙ rw found (ground (arith, ==_refl a.id))),
          refl,
        )
  ]
