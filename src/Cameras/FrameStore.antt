-- ===== src/Cameras/FrameStore.antt =====
-- hub/src/cameras/frame-store.service.ts: the newest frame of each camera, single-use tickets, and
-- the cap on viewers. `now` is the clock at the call. The waiters of `next` are not modelled.
use project.Base.{
  Bool, List, Option, String, [], delete_key, eq_option, eq_string, eq_ℕ, false, get_key,
  if◌then◌else◌, leb, ltb, none, not, select, set_key, some, true, ℕ, ◌&&◌, ◌++◌, ◌+◌, ◌-◌, ◌==◌,
  ◌∷◌,
}
use project.Cameras.Jpeg.{Size}

pub record StoredFrame : Type 0 where
  pub bytes : List ℕ
  pub received_at : ℕ
  pub width : Option ℕ
  pub height : Option ℕ
  pub seq : ℕ

pub record Ticket : Type 0 where
  pub agent_id : String
  pub expires_at : ℕ

pub record FrameStore : Type 0 where
  pub frames : List (String × StoredFrame)
  pub tickets : List (String × Ticket)
  pub recent : List (String × List ℕ)
  pub viewers : List (String × ℕ)
  pub sequence : ℕ

-- `FRAME_TTL_MS`, `TICKET_TTL_MS`, `MAX_VIEWERS_PER_CAMERA` and `FPS_WINDOW_MS`.
abbrev pub frame_ttl_ms : ℕ
frame_ttl_ms = 10000

abbrev pub ticket_ttl_ms : ℕ
ticket_ttl_ms = 30000

abbrev pub max_viewers_per_camera : ℕ
max_viewers_per_camera = 4

abbrev pub fps_window_ms : ℕ
fps_window_ms = 5000

abbrev or_empty : Option (List ℕ) → List ℕ
or_empty none = []
or_empty (some stamps) = stamps

abbrev or_zero : Option ℕ → ℕ
or_zero none = 0
or_zero (some n) = n

-- `while (stamps.length > 0 && now - stamps[0] > FPS_WINDOW_MS) stamps.shift()`.
unfoldable pub shift_old : ℕ → List ℕ → List ℕ
shift_old now [] = []
shift_old now (s ∷ stamps) =
    let rest = shift_old now stamps in if ltb (s + fps_window_ms) now then rest else s ∷ stamps

-- `put`; the dimensions are those that `readJpegSize` finds.
unfoldable pub put : ℕ → String → List ℕ → Size → FrameStore → FrameStore
unfolding shift_old
put now agent_id bytes (width, height) st =
    let sequence = st.sequence + 1 in
    record st {
      sequence = sequence;
      frames =
          set_key agent_id
            (record {
              bytes = bytes;
              received_at = now;
              width = width;
              height = height;
              seq = sequence;
            })
            st.frames;
      recent =
          set_key agent_id (shift_old now (or_empty (get_key agent_id st.recent) ++ now ∷ []))
            st.recent;
    }

fresh_frame : ℕ → Option StoredFrame → Option StoredFrame
fresh_frame now none = none
fresh_frame now (some f) = if ltb (f.received_at + frame_ttl_ms) now then none else some f

unfoldable pub get : ℕ → String → FrameStore → Option StoredFrame
unfolding fresh_frame
get now agent_id st = fresh_frame now (get_key agent_id st.frames)

unfoldable pub viewer_count : String → FrameStore → ℕ
viewer_count agent_id st = or_zero (get_key agent_id st.viewers)

unfoldable pub claim_viewer : String → FrameStore → FrameStore × Bool
unfolding viewer_count
claim_viewer agent_id st =
    if leb max_viewers_per_camera (viewer_count agent_id st)
    then (st, false)
    else (record st { viewers = set_key agent_id (viewer_count agent_id st + 1) st.viewers }, true)

unfoldable pub release_viewer : String → FrameStore → FrameStore
unfolding viewer_count
release_viewer agent_id st =
    if leb (viewer_count agent_id st) 1
    then record st { viewers = delete_key agent_id st.viewers }
    else record st { viewers = set_key agent_id (viewer_count agent_id st - 1) st.viewers }

unfoldable pub sweep_tickets : ℕ → List (String × Ticket) → List (String × Ticket)
sweep_tickets now tickets = select (λ e. not (ltb e.1.expires_at now)) tickets

-- `ticket` is the random text that the platform draws.
unfoldable pub issue_ticket : ℕ → (ticket : String) → String → FrameStore → FrameStore
unfolding sweep_tickets
issue_ticket now ticket agent_id st = record st {
  tickets =
      set_key ticket (record { agent_id = agent_id; expires_at = now + ticket_ttl_ms })
        (sweep_tickets now st.tickets);
}

unfoldable pub redeem_found : ℕ → String → String → FrameStore → Option Ticket → FrameStore × Bool
redeem_found now ticket agent_id st none = (st, false)
redeem_found now ticket agent_id st (some t) = (
  record st { tickets = delete_key ticket st.tickets },
  not (ltb t.expires_at now) && t.agent_id == agent_id,
)

unfoldable pub redeem_ticket : ℕ → String → String → FrameStore → FrameStore × Bool
unfolding redeem_found
redeem_ticket now ticket agent_id st =
    redeem_found now ticket agent_id st (get_key ticket st.tickets)
