-- ===== src/Tests/Watching.antt =====
-- The registry's sweep, the audit trail and the frame store.
use project.Agents.Liveness.{Sweeper, is_stale, sweep}
use project.Agents.Watch.{AllReported, sweep_lem}
use project.Base.{List, [], all, arith, false, not, refl, some, true, ℕ, ◌∷◌, ◌≡◌}
use project.Cameras.FrameStore.{FrameStore}
use project.Cameras.Jpeg.{Size, read_jpeg_size, read_jpeg_size_total}
use project.Tests.Database.{list_db}
use project.Tests.Samples.{quiet_hub, settings}

abbrev started : Sweeper
started = record { booted_at = 0; sweeping = false; reconciled = false }

sweep_lem_example :
    (all
        (λ a. not (is_stale settings 100000 a))
        (sweep list_db settings 100000 (started, quiet_hub)).1.agents
      ≡ true)
    × AllReported (sweep list_db settings 100000 (started, quiet_hub)).1
sweep_lem_example =
    sweep_lem list_db settings 100000 started quiet_hub (omega arith) refl (λ e. ground arith)

abbrev jpeg : List ℕ
jpeg = 255 ∷ 216 ∷ 255 ∷ 192 ∷ 0 ∷ 17 ∷ 8 ∷ 1 ∷ 224 ∷ 2 ∷ 128 ∷ 3 ∷ []

abbrev store : FrameStore
store = record { frames = []; tickets = []; recent = []; viewers = ("cam", 2) ∷ []; sequence = 0 }

read_jpeg_size_total_example : (size : Size) × (read_jpeg_size jpeg ≡ some size)
read_jpeg_size_total_example = read_jpeg_size_total jpeg
