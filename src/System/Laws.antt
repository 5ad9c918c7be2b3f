-- ===== src/System/Laws.antt =====
-- The mode service: reads after writes.
use project.Base.{
  ==_iff, Bool-cases, List, Option, Option-cases, arith, eq_option, eq_string, eq_ℕ, find,
  find-eq-some, find-snoc, find-update, inl, inr, none, refl, some, ◌==◌, ◌∙◌, ◌≡◌,
}
use project.Contracts.Modes.{SystemMode, disarmed, eq_mode}
use project.Db.{Prisma}
use project.Hub.{Hub, SystemState}
use project.Maintenance.RollUpWindow.{found}
use project.Security.Guard.{missing}
use project.System.{change_mode, default_state, get_mode, is_state, set_mode}

-- The mode that a table of states stands for.
abbrev mode_of_row : Option SystemState → SystemMode
mode_of_row none = disarmed
mode_of_row (some s) = s.mode

pub mode_of : List SystemState → SystemMode
mode_of states = mode_of_row (find is_state states)

row-mode_of :
    (states : List SystemState) (s : SystemState)
    → find is_state states ≡ some s
    → mode_of states ≡ s.mode
unfolding mode_of
row-mode_of states s found = rw found refl

module _ (db : Prisma) where
  pub get_mode-mode_of : (h : Hub) → (get_mode db h).1 ≡ mode_of h.states
  unfolding get_mode mode_of
  get_mode-mode_of h = elim (Option-cases (find is_state h.states)) [
    | inl missing ↦ rw (db.upsert_lem, missing)
    | inr (s, found) ↦ rw (db.upsert_lem, found)
  ]

  -- A read leaves a row behind, and the mode as it was.
  get_mode_row :
      (h : Hub)
      → (s : SystemState) × (find is_state (get_mode db h).0.states ≡ some s)
        × (s.mode ≡ (get_mode db h).1)
  unfolding get_mode
  get_mode_row h = elim (Option-cases (find is_state h.states)) [
    | inl missing ↦ (
      default_state,
      rw (db.upsert_lem, missing) (find-snoc is_state h.states default_state missing refl),
      rw (db.upsert_lem, missing),
    )
    | inr (s, found) ↦ (
      s,
      rw (db.upsert_lem, found)
          (find-update is_state is_state (λ r. r) h.states (λ r. ground arith)
            ∙ rw found (ground arith)),
      rw (db.upsert_lem, found),
    )
  ]

  change_mode-mode_of :
      (target : SystemMode) (h : Hub) (previous : SystemMode) (s : SystemState)
      → find is_state h.states ≡ some s
      → s.mode ≡ previous
      → mode_of (change_mode db target h previous).0.states ≡ target
  unfolding change_mode mode_of
  change_mode-mode_of target h previous s found same = elim (Bool-cases (previous == target)) [
    | inl e ↦ rw (e, found) (same ∙ (==_iff previous target).0 e)
    | inr e ↦
        rw (e, db.update_many_lem)
          (rw
            (
              find-update is_state is_state (λ r. record r { mode = target }) h.states
                  (λ r. ground arith),
              found,
            )
            (ground (arith, find-eq-some is_state h.states found)))
  ]

  -- After a change to `target` the mode that is read is `target`, whatever the table held.
  pub get_mode-set_mode :
      (h : Hub) (target : SystemMode) → (get_mode db (set_mode db target h).0).1 ≡ target
  unfolding set_mode
  get_mode-set_mode h target =
      let (s, found, same) = get_mode_row h in
      get_mode-mode_of (set_mode db target h).0
      ∙ change_mode-mode_of target (get_mode db h).0 (get_mode db h).1 s found same

  -- Reading the mode does not change what is read next.
  pub get_mode_again : (h : Hub) → (get_mode db (get_mode db h).0).1 ≡ (get_mode db h).1
  get_mode_again h =
      let (s, found, same) = get_mode_row h in
      get_mode-mode_of (get_mode db h).0 ∙ row-mode_of (get_mode db h).0.states s found ∙ same
