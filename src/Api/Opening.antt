-- ===== src/Api/Opening.antt =====
-- What a request for a stream does to the frame store.
use project.Api.Streams.{Stream, first_part, open_claimed, open_redeemed, open_stream}
use project.Base.{
  Bool, Option, Option-cases, String, ap, arith, eq_option, eq_string, eq_ℕ, false, get_key,
  get_key-delete_key, get_key-set_key, if◌then◌else◌, inl, inr, none, refl, some, sym, true, ℕ, ◌+◌,
  ◌-◌, ◌<◌, ◌==◌, ◌∙◌, ◌≡◌, ◌⊎◌,
}
use project.Cameras.FrameStore.{
  FrameStore, StoredFrame, claim_viewer, get, max_viewers_per_camera, redeem_found, redeem_ticket,
  release_viewer, viewer_count,
}
use project.Http.{HttpError, Result, err, forbidden, ok, ok-injective}
use project.Maintenance.RollUpWindow.{found}
use project.Security.Guard.{claimed, missing}

first_part-agent_id :
    (now : ℕ) (id : String) (o : Option StoredFrame) → (first_part now id o).agent_id ≡ id
unfolding first_part
first_part-agent_id now id none = refl
first_part-agent_id now id (some f) = refl

-- The change of a store by one more viewer of a camera, where there was room for it.
pub record IsAdmitted (id : String) (before after : FrameStore) (s : Stream) : Type 0 where
  pub owner : s.agent_id ≡ id
  pub room : viewer_count id before < max_viewers_per_camera
  pub viewers :
      (j : String)
      → viewer_count j after
        ≡ (if id == j then viewer_count id before + 1 else viewer_count j before)

opened-claimed :
    (now : ℕ) (id : String) (c : FrameStore × Bool) (st : FrameStore) (s : Stream)
    → open_claimed now id c ≡ (st, ok s)
    → (c.1 ≡ true) × (c.0 ≡ st) × (s.agent_id ≡ id)
unfolding open_claimed
opened-claimed now id (st', true) st s e =
    let answer = ap (λ r. r.1) e in
    (
      refl,
      ap (λ r. r.0) e,
      ap (λ x. x.agent_id) (sym (ok-injective (first_part now id (get now id st')) s answer))
          ∙ first_part-agent_id now id (get now id st'),
    )
opened-claimed now id (st', false) st s e = absurd (ground (arith, ap (λ r. r.1) e))

refused-claimed :
    (now : ℕ) (id : String) (c : FrameStore × Bool) (st : FrameStore) (h : HttpError)
    → open_claimed now id c ≡ (st, err h)
    → (c.1 ≡ false) × (c.0 ≡ st)
unfolding open_claimed
refused-claimed now id (st', true) st h e = absurd (ground (arith, ap (λ r. r.1) e))
refused-claimed now id (st', false) st h e = (refl, ap (λ r. r.0) e)

claim_viewer-count :
    (id j : String) (st : FrameStore)
    → (claim_viewer id st).1 ≡ true
    → (viewer_count j (claim_viewer id st).0
        ≡ (if id == j then viewer_count id st + 1 else viewer_count j st))
      × (viewer_count id st < max_viewers_per_camera)
unfolding claim_viewer viewer_count
claim_viewer-count id j st e =
    (ground (arith, get_key-set_key id j (viewer_count id st + 1) st.viewers), ground arith)

claim_viewer-refused :
    (id : String) (st : FrameStore) → (claim_viewer id st).1 ≡ false → (claim_viewer id st).0 ≡ st
unfolding claim_viewer
claim_viewer-refused id st e = ground arith

pub release_viewer-count :
    (id j : String) (st : FrameStore)
    → viewer_count j (release_viewer id st)
      ≡ (if id == j then viewer_count id st - 1 else viewer_count j st)
unfolding release_viewer viewer_count
release_viewer-count id j st = ground (
  arith,
  get_key-set_key id j (viewer_count id st - 1) st.viewers,
  get_key-delete_key id j st.viewers,
)

redeem_ticket-viewers :
    (now : ℕ) (ticket id : String) (st : FrameStore)
    → (redeem_ticket now ticket id st).0.viewers ≡ st.viewers
unfolding redeem_ticket redeem_found
redeem_ticket-viewers now ticket id st = elim (Option-cases (get_key ticket st.tickets)) [
  | inl missing ↦ rw missing refl
  | inr (t, found) ↦ rw found refl
]

viewer_count_same :
    (j : String) (st st' : FrameStore)
    → st.viewers ≡ st'.viewers
    → viewer_count j st ≡ viewer_count j st'
unfolding viewer_count
viewer_count_same j st st' e = rw e refl

opened-redeemed :
    (now : ℕ) (id : String) (r : FrameStore × Bool) (st : FrameStore) (s : Stream)
    → open_redeemed id now r ≡ (st, ok s)
    → (r.1 ≡ true) × IsAdmitted id r.0 st s
unfolding open_redeemed
opened-redeemed now id (st', true) st s e =
    let (claimed, same, owner) = opened-claimed now id (claim_viewer id st') st s e in
    (
      refl,
      record {
        owner = owner;
        room = (claim_viewer-count id id st' claimed).1;
        viewers = λ j. ap (viewer_count j) (sym same) ∙ (claim_viewer-count id j st' claimed).0;
      },
    )
opened-redeemed now id (st', false) st s e = absurd (ground (arith, ap (λ r. r.1) e))

refused-redeemed :
    (now : ℕ) (id : String) (r : FrameStore × Bool) (st : FrameStore) (h : HttpError)
    → open_redeemed id now r ≡ (st, err h)
    → (j : String) → viewer_count j st ≡ viewer_count j r.0
unfolding open_redeemed
refused-redeemed now id (st', true) st h e j =
    let (claimed, same) = refused-claimed now id (claim_viewer id st') st h e in
    ap (viewer_count j) (sym same ∙ claim_viewer-refused id st' claimed)
refused-redeemed now id (st', false) st h e j = ap (viewer_count j) (sym (ap (λ r. r.0) e))

abbrev Reply : Type 0
Reply = FrameStore × Result Stream

-- The test of the ticket's text.
opened-if :
    (b : Bool) (st st' : FrameStore) (s : Stream) (x : Reply)
    → (if b then (st, err forbidden) else x) ≡ (st', ok s)
    → x ≡ (st', ok s)
opened-if true st st' s x e = absurd (ground (arith, ap (λ r. r.1) e))
opened-if false st st' s x e = e

refused-if :
    (b : Bool) (st st' : FrameStore) (h : HttpError) (x : Reply)
    → (if b then (st, err forbidden) else x) ≡ (st', err h)
    → (st ≡ st') ⊎ (x ≡ (st', err h))
refused-if true st st' h x e = inl (ap (λ r. r.0) e)
refused-if false st st' h x e = inr e

redeem_ticket-viewer_count :
    (now : ℕ) (ticket id j : String) (st : FrameStore)
    → viewer_count j (redeem_ticket now ticket id st).0 ≡ viewer_count j st
redeem_ticket-viewer_count now ticket id j st =
    viewer_count_same j (redeem_ticket now ticket id st).0 st
      (redeem_ticket-viewers now ticket id st)

-- A stream that opens adds one viewer to its camera, which had room.
pub open_stream-IsAdmitted :
    (now : ℕ) (o : Option String) (id : String) (st st' : FrameStore) (s : Stream)
    → open_stream now o id st ≡ (st', ok s)
    → IsAdmitted id st st' s
unfolding open_stream
open_stream-IsAdmitted now none id st st' s e = absurd (ground (arith, ap (λ r. r.1) e))
open_stream-IsAdmitted now (some ticket) id st st' s e =
    let left = redeem_ticket now ticket id st in
    let i = (opened-redeemed now id left st' s (opened-if (ticket == "") st st' s _ e)).1 in
    let same = redeem_ticket-viewer_count now ticket id in
    record {
      owner = i.owner;
      room = ground (arith, i.room, same id st);
      viewers = λ j. ground (arith, i.viewers j, same id st, same j st);
    }

-- A request that is refused leaves every camera's viewers.
pub open_stream_refused :
    (now : ℕ) (o : Option String) (id : String) (st st' : FrameStore) (h : HttpError)
    → open_stream now o id st ≡ (st', err h)
    → (j : String) → viewer_count j st' ≡ viewer_count j st
unfolding open_stream
open_stream_refused now none id st st' h e j = ap (viewer_count j) (sym (ap (λ r. r.0) e))
open_stream_refused now (some ticket) id st st' h e j =
    let left = redeem_ticket now ticket id st in
    elim (refused-if (ticket == "") st st' h _ e) [
      | inl same ↦ ap (viewer_count j) (sym same)
      | inr later ↦
          refused-redeemed now id left st' h later j ∙ redeem_ticket-viewer_count now ticket id j st
    ]
