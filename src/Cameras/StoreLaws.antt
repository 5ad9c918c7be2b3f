-- ===== src/Cameras/StoreLaws.antt =====
-- The frame store's frames, tickets and viewers.
use project.Base.{
  ==_refl, List, Option-cases, String, arith, eq_option, eq_string, eq_ℕ, false, get_key,
  get_key-delete_key, get_key-set_key, get_key-set_key_self, if◌then◌else◌, inl, inr, leb, ltb,
  none, some, ℕ, ◌&&◌, ◌+◌, ◌-◌, ◌==◌, ◌≡◌, ◌≤◌,
}
use project.Cameras.FrameStore.{
  FrameStore, StoredFrame, Ticket, claim_viewer, frame_ttl_ms, get, issue_ticket,
  max_viewers_per_camera, put, redeem_ticket, release_viewer, sweep_tickets, ticket_ttl_ms,
  viewer_count,
}
use project.Cameras.Jpeg.{Size}
use project.Security.Guard.{missing}

abbrev pub framed : ℕ → List ℕ → Size → FrameStore → StoredFrame
framed now bytes (width, height) st = record {
  bytes = bytes;
  received_at = now;
  width = width;
  height = height;
  seq = st.sequence + 1;
}

abbrev issued : ℕ → String → Ticket
issued now id = record { agent_id = id; expires_at = now + ticket_ttl_ms }

-- After a frame is put, its camera shows that frame until it is stale and nothing from then on, and
-- every other camera shows what it showed.
get-put :
    (now later : ℕ) (id asked : String) (bytes : List ℕ) (size : Size) (st : FrameStore)
    → get later asked (put now id bytes size st) ≡ (
        if id == asked
        then (if ltb (now + frame_ttl_ms) later then none else some (framed now bytes size st))
        else get later asked st)
unfolding get put
get-put now later id asked bytes size st =
    ground (arith, get_key-set_key id asked (framed now bytes size st) st.frames)

-- A ticket admits exactly its own camera, for as long as it is valid.
pub redeem-issue :
    (now later : ℕ) (ticket id asked : String) (st : FrameStore)
    → (redeem_ticket later ticket asked (issue_ticket now ticket id st)).1
      ≡ (leb later (now + ticket_ttl_ms) && id == asked)
unfolding redeem_ticket issue_ticket
redeem-issue now later ticket id asked st =
    ground (arith, get_key-set_key_self ticket (issued now id) (sweep_tickets now st.tickets))

-- A ticket works once: whatever the first redemption answered, the next one is refused.
redeem_once :
    (now later : ℕ) (ticket id id' : String) (st : FrameStore)
    → (redeem_ticket later ticket id' (redeem_ticket now ticket id st).0).1 ≡ false
unfolding redeem_ticket
redeem_once now later ticket id id' st = elim (Option-cases (get_key ticket st.tickets)) [
  | inl missing ↦ simp missing
  | inr (t, found) ↦ simp (found, get_key-delete_key, ==_refl)
]

-- Every camera's count of viewers is at most the cap.
abbrev pub IsBounded : FrameStore → Type 0
IsBounded st = (id : String) → viewer_count id st ≤ max_viewers_per_camera

claim_viewer-IsBounded :
    (id : String) (st : FrameStore) → IsBounded st → IsBounded (claim_viewer id st).0
unfolding claim_viewer
claim_viewer-IsBounded id st b other_id =
    ground
      (arith, get_key-set_key id other_id (viewer_count id st + 1) st.viewers, b id, b other_id)

release_viewer-IsBounded :
    (id : String) (st : FrameStore) → IsBounded st → IsBounded (release_viewer id st)
unfolding release_viewer
release_viewer-IsBounded id st b other_id = ground (
  arith,
  get_key-set_key id other_id (viewer_count id st - 1) st.viewers,
  get_key-delete_key id other_id st.viewers,
  b id,
  b other_id,
)

-- No sequence of claims and releases takes a camera past the cap on viewers: both keep every count
-- within it.
viewers-IsBounded :
    (id : String) (st : FrameStore)
    → IsBounded st
    → IsBounded (claim_viewer id st).0 × IsBounded (release_viewer id st)
viewers-IsBounded id st b = (claim_viewer-IsBounded id st b, release_viewer-IsBounded id st b)
