-- ===== src/System.antt =====
-- hub/src/system/system.service.ts: the arm mode, kept in one row.
pub mod Laws
use project.Base.{Bool, [], eq_string, eq_ℕ, false, if◌then◌else◌, true, ◌++◌, ◌==◌, ◌∷◌}
use project.Contracts.Modes.{SystemMode, disarmed, eq_mode}
use project.Db.{Prisma}
use project.Hub.{Hub, SystemState, mode_frame}

pub record ModeChange : Type 0 where
  pub mode : SystemMode
  pub previous : SystemMode
  pub changed : Bool

abbrev is_state : SystemState → Bool
is_state s = s.id == 1

abbrev default_state : SystemState
default_state = record { id = 1; mode = disarmed }

module _ (db : Prisma) where
  -- `getMode`: the row is created where it is missing.
  unfoldable pub get_mode : Hub → Hub × SystemMode
  get_mode h =
      let found = db.upsert is_state default_state (λ s. s) h.states in
      (record h { states = found.0 }, found.1.mode)

  -- What `setMode` does once the previous mode is known.
  change_mode : SystemMode → Hub → SystemMode → Hub × ModeChange
  change_mode target h previous =
      if previous == target
      then (h, record { mode = previous; previous = previous; changed = false })
      else (
        record h {
          states = (db.update_many is_state (λ s. record s { mode = target }) h.states).0;
          frames = h.frames ++ mode_frame target ∷ [];
        },
        record { mode = target; previous = previous; changed = true },
      )

  unfoldable pub set_mode : SystemMode → Hub → Hub × ModeChange
  unfolding change_mode get_mode
  set_mode target h = let got = get_mode h in change_mode target got.0 got.1
