-- ===== src/Api/Streams.antt =====
-- hub/src/cameras/cameras.controller.ts: the MJPEG stream. The response's headers and the boundary of
-- its parts are left out; what `next` resolves to is an input of each turn of the loop.
use project.Base.{
  Bool, List, Option, String, [], eq_option, eq_string, eq_ℕ, false, if◌then◌else◌, leb, none, some,
  true, ℕ, ◌++◌, ◌+◌, ◌==◌, ◌∷◌,
}
use project.Cameras.FrameStore.{
  FrameStore, StoredFrame, claim_viewer, get, redeem_ticket, release_viewer,
}
use project.Http.{Result, err, forbidden, ok, too_many_requests}

-- `STREAM_IDLE_TIMEOUT_MS`.
abbrev pub stream_idle_timeout_ms : ℕ
stream_idle_timeout_ms = 60000

-- A response that is held open: what has been sent, and what the loop keeps.
pub record Stream : Type 0 where
  pub agent_id : String
  pub written : List (List ℕ)
  pub last_seq : ℕ
  pub silent_since : ℕ

-- The first part, where a frame is there.
unfoldable pub first_part : ℕ → String → Option StoredFrame → Stream
first_part now id none = record { agent_id = id; written = []; last_seq = 0; silent_since = now }
first_part now id (some f) = record {
  agent_id = id;
  written = f.bytes ∷ [];
  last_seq = f.seq;
  silent_since = now;
}

-- The ticket, then the slot.
unfoldable pub open_claimed : ℕ → String → FrameStore × Bool → FrameStore × Result Stream
unfolding first_part get
open_claimed now id (st, true) = (st, ok (first_part now id (get now id st)))
open_claimed now id (st, false) = (st, err too_many_requests)

unfoldable pub open_redeemed : String → ℕ → FrameStore × Bool → FrameStore × Result Stream
unfolding open_claimed claim_viewer
open_redeemed id now (st, true) = open_claimed now id (claim_viewer id st)
open_redeemed id now (st, false) = (st, err forbidden)

unfoldable pub open_stream : ℕ → Option String → String → FrameStore → FrameStore × Result Stream
unfolding open_redeemed redeem_ticket
open_stream now none id st = (st, err forbidden)
open_stream now (some ticket) id st =
    if ticket == ""
    then (st, err forbidden)
    else open_redeemed id now (redeem_ticket now ticket id st)

abbrev part : List ℕ → Stream → Stream
part bytes s = record s { written = s.written ++ bytes ∷ [] }

-- Nothing new arrived: the last frame again, or nothing, and the end after a silent minute.
unfoldable pub idle_turn : ℕ → Stream → Option StoredFrame → Stream × Bool
idle_turn now s (some f) = (part f.bytes s, true)
idle_turn now s none = (s, leb now (s.silent_since + stream_idle_timeout_ms))

abbrev fresh_part : ℕ → StoredFrame → Stream → Stream
fresh_part now f s = record s {
  written = s.written ++ f.bytes ∷ [];
  last_seq = f.seq;
  silent_since = now;
}

unfoldable pub awaited : ℕ → FrameStore → Stream → Option StoredFrame → Stream × Bool
unfolding idle_turn get
awaited now st s none = idle_turn now s (get now s.agent_id st)
awaited now st s (some f) =
    if f.seq == s.last_seq
    then idle_turn now s (get now s.agent_id st)
    else (fresh_part now f s, true)

-- One turn of the loop; the flag tells whether there is another.
unfoldable pub turn :
    ℕ → (is_open : Bool) → (next : Option StoredFrame) → FrameStore → Stream → Stream × Bool
unfolding awaited
turn now is_open next st s = if is_open then awaited now st s next else (s, false)

-- What one turn meets.
pub record Turn : Type 0 where
  pub now : ℕ
  pub is_open : Bool
  pub next : Option StoredFrame
  pub store : FrameStore

unfoldable pub serve_turns : List Turn → Stream → Stream × Bool
unfolding turn
serve_turns [] s = (s, true)
serve_turns (t ∷ ts) s =
    let done = turn t.now t.is_open t.next t.store s in
    let rest = serve_turns ts done.0 in if done.1 then rest else done

-- The `finally` of the handler.
unfoldable pub close_stream : Stream → FrameStore → FrameStore
unfolding release_viewer
close_stream s st = release_viewer s.agent_id st
