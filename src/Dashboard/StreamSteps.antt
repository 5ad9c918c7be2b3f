-- ===== src/Dashboard/StreamSteps.antt =====
-- What can happen to a tile, in any order.
use project.Base.{Bool, String, any, eq_string, eq_ℕ, false, is_some, some, true, ℕ, ◌==◌, ◌≡◌}
use project.Dashboard.Stream.{
  StreamState, Tile, enable, healthy, mint_failed, minted, mounted, on_image_error, on_image_load,
  retry, retry_due, revive, stop,
}

abbrev pub has_failed : StreamState → Bool
has_failed StreamState.failed = true
has_failed _ = false

-- An image reports only while it has a source; the retry button is shown on a tile that has failed
-- (dashboard/src/components/LiveView.tsx).
pub data TileStep (t : Tile) : Tile → Type 0 where
  enables : (wanted : Bool) → TileStep t (enable wanted t)
  polls : (streaming : Bool) → TileStep t (record t { streaming = streaming })
  revives : TileStep t (revive t)
  mints :
      (run : ℕ) (ticket : String)
      → any (λ r. r == run) t.minting ≡ true
      → TileStep t (minted run ticket t)
  mint_fails :
      (run : ℕ) (message : String)
      → any (λ r. r == run) t.minting ≡ true
      → TileStep t (mint_failed run message t)
  retries_due : (run : ℕ) → t.timer ≡ some run → TileStep t (retry_due run t)
  heals : (run : ℕ) → t.health_timer ≡ some run → TileStep t (healthy run t)
  breaks : is_some t.src ≡ true → TileStep t (on_image_error t)
  loads : (now : ℕ) → is_some t.src ≡ true → TileStep t (on_image_load now t)
  retries : has_failed t.state ≡ true → TileStep t (retry t)
  stops : TileStep t (stop t)

pub data TileReached : Tile → Type 0 where
  mounts : (streaming : Bool) → TileReached (mounted streaming)
  goes_on : (t t' : Tile) → TileReached t → TileStep t t' → TileReached t'
