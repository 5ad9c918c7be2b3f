-- ===== src/Dashboard/Stream.antt =====
-- dashboard/src/lib/useCameraStream.ts: one camera's connection, as the functions that the component,
-- its timers and the ticket requests call. A record holds the refs and the state of the hook, and with
-- them what is outstanding: the timers that are set and the ticket requests in flight, each with the
-- generation that it belongs to. The URL is kept as its ticket and its cache-buster;
-- the length of a backoff is left out.
use project.Base.{
  Bool, List, Option, String, [], eq_option, eq_string, eq_ℕ, false, if◌then◌else◌, ltb, none, not,
  some, true, ℕ, ◌+◌, ◌==◌, ◌||◌, ◌∷◌,
}

-- `MAX_ATTEMPTS`.
abbrev pub max_attempts : ℕ
max_attempts = 6

pub data StreamState : Type 0 where
  idle standby connecting playing waiting failed : StreamState

pub record Source : Type 0 where
  pub ticket : String
  pub attempt : ℕ

pub record Tile : Type 0 where
  pub src : Option Source
  pub attempt_key : ℕ
  pub state : StreamState
  pub error : Option String
  pub attempts : ℕ
  pub timer : Option ℕ
  pub health_timer : Option ℕ
  pub first_load_at : ℕ
  pub run_id : ℕ
  pub key : ℕ
  pub streaming : Bool
  pub enabled : Bool
  pub minting : List ℕ

unfoldable pub clear_timers : Tile → Tile
clear_timers t = record t { timer = none; health_timer = none }

-- `connect`, up to its request for a ticket.
unfoldable pub connect : ℕ → Tile → Tile
connect run t =
    if not (t.run_id == run)
    then t
    else if not t.streaming
    then record t { state = standby; src = none }
    else record t { state = connecting; error = none; minting = run ∷ t.minting }

unfoldable pub schedule_retry : ℕ → Tile → Tile
unfolding clear_timers
schedule_retry run t =
    let cleared = clear_timers (record t { src = none }) in
    if not (t.run_id == run)
    then t
    else if not t.streaming
    then record cleared { state = standby }
    else record cleared {
      attempts = t.attempts + 1;
      state = if ltb max_attempts (t.attempts + 1) then failed else waiting;
      timer = some run;
    }

-- A request that is no longer in flight.
unfoldable pub settle : ℕ → List ℕ → List ℕ
settle run [] = []
settle run (r ∷ rs) = if r == run then rs else r ∷ settle run rs

-- `connect` after its ticket has come, and after the request has failed.
unfoldable pub minted : ℕ → String → Tile → Tile
unfolding settle
minted run ticket t =
    let left = record t { minting = settle run t.minting } in
    if not (t.run_id == run) then left else record left {
      key = t.key + 1;
      first_load_at = 0;
      src = some (record { ticket = ticket; attempt = t.key + 1 });
      attempt_key = t.key + 1;
    }

unfoldable pub mint_failed : ℕ → String → Tile → Tile
unfolding settle schedule_retry
mint_failed run message t =
    let left = record t { minting = settle run t.minting } in
    if not (t.run_id == run)
    then left
    else schedule_retry run (record left { error = some message })

-- The effect on `agentId` and `enabled`: its cleanup, where it was enabled, and its body.
unfoldable pub tear_down : Tile → Tile
unfolding clear_timers
tear_down t = record (clear_timers (record t { run_id = t.run_id + 1 })) { src = none }

unfoldable pub run_effect : Bool → Tile → Tile
unfolding clear_timers connect
run_effect false t = record (clear_timers (record t { run_id = t.run_id + 1; enabled = false })) {
  src = none;
  state = idle;
  attempts = 0;
}
run_effect true t =
    connect (t.run_id + 1) (record t { run_id = t.run_id + 1; enabled = true; attempts = 0 })

unfoldable pub enable : Bool → Tile → Tile
unfolding tear_down run_effect
enable wanted t = run_effect wanted (if t.enabled then tear_down t else t)

abbrev pub is_standby : StreamState → Bool
is_standby standby = true
is_standby _ = false

-- The effect that reconnects from standby.
unfoldable pub revive : Tile → Tile
unfolding connect
revive t =
    if not t.enabled || (not t.streaming || not (is_standby t.state))
    then t
    else connect t.run_id (record t { attempts = 0 })

unfoldable pub on_image_error : Tile → Tile
unfolding schedule_retry
on_image_error t = schedule_retry t.run_id t

unfoldable pub on_image_load : ℕ → Tile → Tile
on_image_load now t =
    let shown = record t { state = playing } in
    if not (t.first_load_at == 0)
    then shown
    else record shown { first_load_at = now; health_timer = some t.run_id }

-- The two timers, when they go off.
unfoldable pub retry_due : ℕ → Tile → Tile
unfolding connect
retry_due run t = connect run (record t { timer = none })

unfoldable pub healthy : ℕ → Tile → Tile
healthy run t =
    let fired = record t { health_timer = none } in
    if t.run_id == run then record fired { attempts = 0 } else fired

unfoldable pub retry : Tile → Tile
unfolding clear_timers connect
retry t =
    connect (t.run_id + 1)
      (record (clear_timers (record t { attempts = 0 })) { run_id = t.run_id + 1 })

unfoldable pub stop : Tile → Tile
unfolding clear_timers
stop t = record (clear_timers (record t { run_id = t.run_id + 1 })) { src = none; state = idle }

-- A tile as it is mounted.
unfoldable pub mounted : Bool → Tile
mounted streaming = record {
  src = none;
  attempt_key = 0;
  state = idle;
  error = none;
  attempts = 0;
  timer = none;
  health_timer = none;
  first_load_at = 0;
  run_id = 0;
  key = 0;
  streaming = streaming;
  enabled = false;
  minting = [];
}
