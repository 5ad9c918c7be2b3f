-- ===== src/Api/StreamLaws.antt =====
-- The streams that are open, and the viewers that the frame store counts.
use project.Api.Opening.{
  IsAdmitted, open_stream-IsAdmitted, open_stream_refused, release_viewer-count,
}
use project.Api.Streams.{
  Stream, Turn, awaited, close_stream, idle_turn, open_stream, serve_turns, stream_idle_timeout_ms,
  turn,
}
use project.Base.{
  ==_iff, ==_refl, Bool, Bool-cases, List, Option, String, [], all, any, ap, arith, count,
  count_middle, eq_option, eq_string, eq_ℕ, false, get_key, inl, inr, is_some, leb, ltb, none, not,
  refl, some, sym, true, ℕ, ◌&&◌, ◌++◌, ◌+◌, ◌==◌, ◌∙◌, ◌∷◌, ◌≡◌, ◌≤◌,
}
use project.Cameras.FrameStore.{
  FrameStore, StoredFrame, get, issue_ticket, max_viewers_per_camera, put, viewer_count,
}
use project.Cameras.Jpeg.{Size}
use project.Http.{HttpError, err, ok}

pub record Wall : Type 0 where
  pub store : FrameStore
  pub streams : List Stream

abbrev pub is_of : String → Stream → Bool
is_of id s = s.agent_id == id

-- What can happen: requests for a stream, turns of the open ones, their ends, frames and tickets.
pub data WallStep (w : Wall) : Wall → Type 0 where
  opens :
      (now : ℕ) (ticket : Option String) (id : String) (st : FrameStore) (s : Stream)
      → open_stream now ticket id w.store ≡ (st, ok s)
      → WallStep w (record { store = st; streams = s ∷ w.streams })
  refuses :
      (now : ℕ) (ticket : Option String) (id : String) (st : FrameStore) (e : HttpError)
      → open_stream now ticket id w.store ≡ (st, err e)
      → WallStep w (record w { store = st })
  turns :
      (before after : List Stream) (s : Stream) (now : ℕ) (is_open : Bool)
      (next : Option StoredFrame)
      → w.streams ≡ before ++ s ∷ after
      → WallStep w (record w { streams = before ++ (turn now is_open next w.store s).0 ∷ after })
  closes :
      (before after : List Stream) (s : Stream)
      → w.streams ≡ before ++ s ∷ after
      → WallStep w (record { store = close_stream s w.store; streams = before ++ after })
  receives :
      (now : ℕ) (id : String) (bytes : List ℕ) (size : Size)
      → WallStep w (record w { store = put now id bytes size w.store })
  issues :
      (now : ℕ) (ticket id : String)
      → WallStep w (record w { store = issue_ticket now ticket id w.store })

pub data WallReached : Wall → Type 0 where
  starts : (st : FrameStore) → st.viewers ≡ [] → WallReached (record { store = st; streams = [] })
  steps : (w w' : Wall) → WallReached w → WallStep w w' → WallReached w'

-- Each camera has as many viewers as open streams, and no more than the cap.
pub record IsTallied (w : Wall) : Type 0 where
  pub counts : (id : String) → viewer_count id w.store ≡ count (is_of id) w.streams
  pub capped : (id : String) → viewer_count id w.store ≤ max_viewers_per_camera

idle_turn-agent_id :
    (now : ℕ) (s : Stream) (o : Option StoredFrame) → (idle_turn now s o).0.agent_id ≡ s.agent_id
unfolding idle_turn
idle_turn-agent_id now s none = refl
idle_turn-agent_id now s (some f) = refl

awaited-agent_id :
    (now : ℕ) (st : FrameStore) (s : Stream) (o : Option StoredFrame)
    → (awaited now st s o).0.agent_id ≡ s.agent_id
unfolding awaited
awaited-agent_id now st s none = idle_turn-agent_id now s (get now s.agent_id st)
awaited-agent_id now st s (some f) = elim (Bool-cases (f.seq == s.last_seq)) [
  | inl same ↦ rw same (idle_turn-agent_id now s (get now s.agent_id st))
  | inr new ↦ rw new refl
]

turn-agent_id :
    (now : ℕ) (is_open : Bool) (next : Option StoredFrame) (st : FrameStore) (s : Stream)
    → (turn now is_open next st s).0.agent_id ≡ s.agent_id
unfolding turn
turn-agent_id now false next st s = refl
turn-agent_id now true next st s = awaited-agent_id now st s next

opens-IsTallied :
    (w : Wall) (id : String) (st : FrameStore) (s : Stream)
    → IsTallied w
    → IsAdmitted id w.store st s
    → IsTallied (record { store = st; streams = s ∷ w.streams })
unfolding count
opens-IsTallied w id st s i a = record {
  counts = λ j.
      ground
        (arith, i.counts j, i.counts id, a.viewers j, a.owner, ==_iff id j, ==_iff s.agent_id j);
  capped = λ j. ground (arith, i.capped j, a.room, a.viewers j);
}

closes-IsTallied :
    (w : Wall) (before after : List Stream) (s : Stream)
    → IsTallied w
    → w.streams ≡ before ++ s ∷ after
    → IsTallied (record { store = close_stream s w.store; streams = before ++ after })
unfolding close_stream
closes-IsTallied w before after s i e = record {
  counts = λ j.
      let split = ap (count (is_of j)) e ∙ count_middle (is_of j) before s after in
      let own = ap (count (is_of s.agent_id)) e ∙ count_middle (is_of s.agent_id) before s after in
      ground (
        arith,
        release_viewer-count s.agent_id j w.store,
        i.counts j,
        i.counts s.agent_id,
        split,
        own,
        ==_iff s.agent_id j,
        ==_refl s.agent_id,
      );
  capped = λ j.
      ground (arith, release_viewer-count s.agent_id j w.store, i.capped j, i.capped s.agent_id);
}

turns-IsTallied :
    (w : Wall) (before after : List Stream) (s s' : Stream)
    → IsTallied w
    → w.streams ≡ before ++ s ∷ after
    → s'.agent_id ≡ s.agent_id
    → IsTallied (record w { streams = before ++ s' ∷ after })
turns-IsTallied w before after s s' i e same = record {
  counts = λ j.
      i.counts j
      ∙ ap (count (is_of j)) e
      ∙ count_middle (is_of j) before s after
      ∙ rw (sym same) (sym (count_middle (is_of j) before s' after));
  capped = i.capped;
}

-- A change of the store that keeps the viewers.
keeps-IsTallied :
    (w : Wall) (st : FrameStore)
    → IsTallied w
    → ((j : String) → viewer_count j st ≡ viewer_count j w.store)
    → IsTallied (record w { store = st })
keeps-IsTallied w st i same = record {
  counts = λ j. same j ∙ i.counts j;
  capped = λ j. ground (arith, same j, i.capped j);
}

step-IsTallied : (w w' : Wall) → WallStep w w' → IsTallied w → IsTallied w'
step-IsTallied w w' (opens now ticket id st s e) i =
    opens-IsTallied w id st s i (open_stream-IsAdmitted now ticket id w.store st s e)
step-IsTallied w w' (refuses now ticket id st h e) i =
    keeps-IsTallied w st i (open_stream_refused now ticket id w.store st h e)
step-IsTallied w w' (turns before after s now is_open next e) i =
    turns-IsTallied w before after s (turn now is_open next w.store s).0 i e
      (turn-agent_id now is_open next w.store s)
step-IsTallied w w' (closes before after s e) i = closes-IsTallied w before after s i e
step-IsTallied w w' (receives now id bytes size) i =
    keeps-IsTallied w (put now id bytes size w.store) i (unfold put viewer_count in (λ j. refl))
step-IsTallied w w' (issues now ticket id) i =
    keeps-IsTallied w (issue_ticket now ticket id w.store) i
      (unfold issue_ticket viewer_count in (λ j. refl))

-- In every state that requests, turns, disconnects, frames and tickets lead to from a hub without
-- viewers, each camera's count of viewers is the number of its open streams, and at most four.
pub reached-IsTallied : (w : Wall) → WallReached w → IsTallied w
reached-IsTallied w (starts st e) = record {
  counts = λ j. unfold viewer_count count in rw e (unfold get_key in refl);
  capped = λ j. unfold viewer_count in rw e (unfold get_key in omega arith);
}
reached-IsTallied w (steps w0 w1 r s) = step-IsTallied w0 w1 s (reached-IsTallied w0 r)

-- A turn that finds nothing, on a connection that is open.
unfoldable pub is_silent : Stream → Turn → Bool
unfolding get
is_silent s t = t.is_open && (not (is_some t.next) && not (is_some (get t.now s.agent_id t.store)))

-- Whether the silence has lasted for more than the idle timeout.
abbrev pub is_overdue : Stream → Turn → Bool
is_overdue s t = ltb (s.silent_since + stream_idle_timeout_ms) t.now

silent_turn :
    (s : Stream) (t : Turn)
    → is_silent s t ≡ true
    → turn t.now t.is_open t.next t.store s
      ≡ (s, leb t.now (s.silent_since + stream_idle_timeout_ms))
unfolding is_silent turn awaited idle_turn
silent_turn s t h = ground arith

-- The stream of a camera that has stopped ends: where every turn finds nothing and one of them comes
-- more than a minute after the last part, the loop ends, and sends nothing meanwhile.
pub serve_turns_silent :
    (s : Stream) (ts : List Turn)
    → all (is_silent s) ts ≡ true
    → any (is_overdue s) ts ≡ true
    → serve_turns ts s ≡ (s, false)
unfolding serve_turns any all
serve_turns_silent s [] h e = absurd (ground arith)
serve_turns_silent s (t ∷ ts) h e =
    rw (silent_turn s t (ground arith)) (ground (arith, serve_turns_silent s ts))
