-- ===== src/Tests/Streaming.antt =====
-- A tile of the dashboard at concrete inputs.
use project.Base.{any, eq_string, eq_ℕ, false, refl, true, ◌==◌, ◌≡◌}
use project.Dashboard.Stream.{Tile, connect, enable, minted, mounted, run_effect, stop}
use project.Dashboard.StreamLive.{IsSound}
use project.Dashboard.StreamReached.{reached-IsSound}
use project.Dashboard.StreamStale.{Follows, here, onward}
use project.Dashboard.StreamSteps.{TileReached, enables, goes_on, mints, mounts, polls}

-- A tile that was enabled, got a ticket, and shows its first picture.
abbrev asked : Tile
asked = enable true (mounted true)

abbrev showing : Tile
showing = minted 1 "t1" asked

asked-TileReached : TileReached asked
asked-TileReached = goes_on (mounted true) asked (mounts true) (enables true)

one_request : any (λ r. r == 1) asked.minting ≡ true
unfolding any enable run_effect connect mounted
one_request = refl

showing-TileReached : TileReached showing
showing-TileReached = goes_on asked showing asked-TileReached (mints 1 "t1" one_request)

reached-IsSound_example : IsSound showing
reached-IsSound_example = reached-IsSound showing showing-TileReached

-- A poll after the tile was stopped.
abbrev polled : Tile
polled = record (stop showing) { streaming = false }

polled-Follows : Follows (stop showing) polled
polled-Follows = onward (stop showing) polled here (polls false) refl
