-- ===== src/Dashboard/CaptureLight.antt =====
-- The camera's light: a track is live only while the capture holds its stream.
use project.Base.{
  ◌&&◌, ==_refl, Bool, List, Option, String, [], ap, arith, eq_option, eq_string, eq_ℕ, false,
  if_holds, is_some, leb, ltb, none, not, refl, select, some, sym, true, ℕ, ◌+◌, ◌==◌, ◌∙◌, ◌∷◌,
  ◌≡◌,
}
use project.Dashboard.Capture.{
  is_at, stop, mounted, settle, turn, Awaiting, CameraSession, Capture, Loop, acquired, begin,
  captured, created, creation, delivered, encoded, enumerate_failed, failed_once, finish_cycle,
  mounted, on_exit, on_visibility, pause, previous_revoked, publish_loop, release_camera, resume,
  revocation, settle, settled, signed_out, start, start_failed, stop, stop_tracks, timer_due,
  track_ended, turn, unmounted, upload_failed, uploaded, user_media, with_error,
}
use project.Dashboard.CapturePace.{lowered, max_capture_bytes}
use project.Dashboard.CaptureStarts.{dropped, is_single, lone_start}
use project.Dashboard.CaptureSteps.{
  goes_orderly, in_flight, is_start, mounts_first, OrderlyReached, CaptureStep, acquires, comes_due,
  creates, encodes, ends, exits, fails_to_list, revokes, sets_fps, signs_out, start_fails, starts,
  stops, turns, unmounts, upload_fails, uploads,
}

abbrev pub held : Option ℕ → List ℕ
held none = []
held (some s) = s ∷ []

-- Whether the capture may hold a stream: once it is acquired, and as long as there is a session.
abbrev pub may_hold : List (ℕ × Awaiting) → Option CameraSession → Bool
may_hold ((fps, revocation) ∷ calls) session = false
may_hold ((fps, user_media) ∷ calls) session = false
may_hold ((fps, creation) ∷ calls) session = true
may_hold [] none = false
may_hold [] (some s) = true

pub record IsLit (c : Capture) : Type 0 where
  -- The live tracks are those of the stream that the capture holds.
  pub light : c.live ≡ held c.stream
  -- At most one start is in flight.
  pub single : is_single c.awaiting ≡ true
  -- It holds a stream only with a session or while a session is being created.
  pub reason : may_hold c.awaiting c.session ≡ false → c.stream ≡ none

stopped : (stream : Option ℕ) → stop_tracks stream (held stream) ≡ []
unfolding select
stopped none = refl
stopped (some s) = simp (==_refl s)

pub released_live : (c : Capture) → IsLit c → (release_camera c).live ≡ []
unfolding release_camera
released_live c i = ap (stop_tracks c.stream) i.light ∙ stopped c.stream

-- A step that leaves the camera, the session and the call in flight as they are.
kept-IsLit :
    (c c' : Capture)
    → IsLit c
    → c'.live ≡ c.live
    → c'.stream ≡ c.stream
    → c'.session ≡ c.session
    → c'.awaiting ≡ c.awaiting
    → IsLit c'
kept-IsLit c c' i l s n a = record {
  light = l ∙ i.light ∙ ap held (sym s);
  single = ap is_single a ∙ i.single;
  reason = λ e. s ∙ i.reason (sym (λ j. may_hold (a j) (n j)) ∙ e);
}

-- A step that lets go of the camera.
dark-IsLit :
    (c c' : Capture)
    → IsLit c
    → c'.live ≡ (release_camera c).live
    → c'.stream ≡ none
    → is_single c'.awaiting ≡ true
    → IsLit c'
dark-IsLit c c' i l s one = record {
  light = l ∙ released_live c i ∙ ap held (sym s);
  single = one;
  reason = λ e. s;
}

stop-IsLit : (c : Capture) → IsLit c → IsLit (stop c)
unfolding stop release_camera
stop-IsLit c i = dark-IsLit c (stop c) i refl refl i.single

none_in_flight : (calls : List (ℕ × Awaiting)) → in_flight calls ≡ false → calls ≡ []
none_in_flight [] e = refl
none_in_flight (call ∷ calls) e = absurd (ground arith)

begin-IsLit :
    (c : Capture) (o : Option CameraSession)
    → c.awaiting ≡ []
    → c.session ≡ o
    → IsLit c
    → IsLit (begin c o)
unfolding begin release_camera
begin-IsLit c none ready e i =
    let blank = i.reason (λ j. may_hold (ready j) (e j)) in
    record { light = i.light; single = rw ready refl; reason = λ _. blank }
begin-IsLit c (some previous) ready e i = dark-IsLit c _ i refl refl (rw ready refl)

start-IsLit : (now : ℕ) (c : Capture) → c.awaiting ≡ [] → IsLit c → IsLit (start now c)
unfolding start
start-IsLit now c ready i =
    if_holds IsLit (not c.is_supported) _ _ (λ e. kept-IsLit c _ i refl refl refl refl)
      (λ e. begin-IsLit _ c.session ready refl (kept-IsLit c _ i refl refl refl refl))

publish_loop-IsLit : (l : Loop) (c : Capture) → IsLit c → IsLit (publish_loop l c)
unfolding publish_loop
publish_loop-IsLit l c i =
    if_holds IsLit (not (c.run == l.run)) _ _ (λ e. i) (λ e. kept-IsLit c _ i refl refl refl refl)

created-IsLit :
    (fps : ℕ) (session : CameraSession) (c : Capture)
    → is_at fps creation c.awaiting ≡ true
    → IsLit c
    → IsLit (created fps session c)
unfolding created
created-IsLit fps session c waits i =
    let over = dropped fps creation c.awaiting i.single waits in
    publish_loop-IsLit _ _ (record {
      light = i.light;
      single = ap is_single over;
      reason = λ h. absurd (ground (arith, rw over at h));
    })

-- What the next step finds while the camera is awaited.
acquired-IsLit :
    (fps s : ℕ) (c : Capture)
    → is_at fps user_media c.awaiting ≡ true
    → IsLit c
    → IsLit (acquired fps s c)
unfolding acquired
acquired-IsLit fps s c waits i =
    let lone = lone_start fps user_media c.awaiting i.single waits in
    let blank = i.reason (ap (λ calls. may_hold calls c.session) lone) in
    record {
      light = ap (λ l. s ∷ l) (i.light ∙ ap held blank);
      single = rw (dropped fps user_media c.awaiting i.single waits) refl;
      reason = λ h. absurd (ground (arith, h));
    }

previous_revoked-IsLit :
    (fps : ℕ) (c : Capture)
    → is_at fps revocation c.awaiting ≡ true
    → IsLit c
    → IsLit (previous_revoked fps c)
unfolding previous_revoked
previous_revoked-IsLit fps c waits i =
    let lone = lone_start fps revocation c.awaiting i.single waits in
    record {
      light = i.light;
      single = rw (dropped fps revocation c.awaiting i.single waits) refl;
      reason = λ h. i.reason (ap (λ calls. may_hold calls c.session) lone);
    }

start_failed-IsLit :
    (fps : ℕ) (at : Awaiting) (message : String) (c : Capture)
    → is_at fps at c.awaiting ≡ true
    → IsLit c
    → IsLit (start_failed fps at message c)
unfolding start_failed release_camera
start_failed-IsLit fps at message c waits i =
    dark-IsLit c _ i refl refl (ap is_single (dropped fps at c.awaiting i.single waits))

finish_cycle-IsLit : (now : ℕ) (l : Loop) (c : Capture) → IsLit c → IsLit (finish_cycle now l c)
unfolding finish_cycle
finish_cycle-IsLit now l c i =
    if_holds IsLit (leb (c.sample.since + 1000) now) _ _ (λ e. kept-IsLit c _ i refl refl refl refl)
      (λ e. kept-IsLit c _ i refl refl refl refl)

captured-IsLit :
    (now : ℕ) (l : Loop) (blob : Option ℕ) (c : Capture) → IsLit c → IsLit (captured now l blob c)
unfolding captured
captured-IsLit now l none c i = finish_cycle-IsLit now l c i
captured-IsLit now l (some size) c i =
    if_holds IsLit (ltb max_capture_bytes size) _ _
      (λ e.
        finish_cycle-IsLit now l (record c { quality = lowered c.quality })
          (kept-IsLit c _ i refl refl refl refl))
      (λ e. kept-IsLit c _ i refl refl refl refl)

encoded-IsLit :
    (now : ℕ) (l : Loop) (blob : Option ℕ) (c : Capture) → IsLit c → IsLit (encoded now l blob c)
unfolding encoded
encoded-IsLit now l blob c i =
    let left =
      kept-IsLit c (record c { encoding = settle l.run c.encoding }) i refl refl refl refl in
    if_holds IsLit (not (c.run == l.run)) _ _ (λ e. left) (λ e. captured-IsLit now l blob _ left)

settled-IsLit : (l : Loop) (c : Capture) → IsLit c → IsLit (settled l c)
settled-IsLit l c i = kept-IsLit c _ i refl refl refl refl

uploaded-IsLit :
    (now : ℕ) (l : Loop) (encode_ms upload_ms size : ℕ) (c : Capture)
    → IsLit c
    → IsLit (uploaded now l encode_ms upload_ms size c)
unfolding uploaded
uploaded-IsLit now l encode_ms upload_ms size c i =
    if_holds IsLit (not (c.run == l.run)) _ _ (λ e. settled-IsLit l c i)
      (λ e.
        finish_cycle-IsLit now l (delivered encode_ms upload_ms size (settled l c))
          (kept-IsLit c _ i refl refl refl refl))

upload_failed-IsLit :
    (now : ℕ) (l : Loop) (refused : Bool) (c : Capture)
    → IsLit c
    → IsLit (upload_failed now l refused c)
unfolding upload_failed
upload_failed-IsLit now l refused c i =
    if_holds IsLit (not (c.run == l.run)) _ _ (λ e. settled-IsLit l c i)
      (λ e.
        if_holds IsLit refused _ _
          (λ _.
            stop-IsLit
              (with_error "The publishing session ended. Start it again to continue." (settled l c))
              (kept-IsLit c _ i refl refl refl refl))
          (λ _.
            finish_cycle-IsLit now l (failed_once (settled l c))
              (kept-IsLit c _ i refl refl refl refl)))

turn-IsLit :
    (hidden : Bool) (c : Capture) (o : Option CameraSession) → IsLit c → IsLit (turn hidden c o)
unfolding turn pause resume
turn-IsLit hidden c none i = i
turn-IsLit true c (some session) i = kept-IsLit c _ i refl refl refl refl
turn-IsLit false c (some session) i = publish_loop-IsLit _ _ (kept-IsLit c _ i refl refl refl refl)

enumerate_failed-IsLit :
    (message : String) (c : Capture) → IsLit c → IsLit (enumerate_failed message c)
unfolding enumerate_failed
enumerate_failed-IsLit message c i =
    if_holds IsLit c.is_supported _ _ (λ e. kept-IsLit c _ i refl refl refl refl)
      (λ e. kept-IsLit c _ i refl refl refl refl)

pub step-IsLit :
    (c c' : Capture) (s : CaptureStep c c')
    → (is_start s && in_flight c.awaiting) ≡ false
    → IsLit c
    → IsLit c'
unfolding on_visibility signed_out on_exit unmounted timer_due track_ended release_camera
step-IsLit c c' (starts now ready) o i = start-IsLit now c (none_in_flight c.awaiting o) i
step-IsLit c c' (revokes fps waits) o i = previous_revoked-IsLit fps c waits i
step-IsLit c c' (acquires fps s waits fresh) o i = acquired-IsLit fps s c waits i
step-IsLit c c' (creates fps session waits) o i = created-IsLit fps session c waits i
step-IsLit c c' (start_fails fps at message waits fails) o i =
    start_failed-IsLit fps at message c waits i
step-IsLit c c' (encodes now l blob inside) o i = encoded-IsLit now l blob c i
step-IsLit c c' (uploads now encode_ms upload_ms size l inside) o i =
    uploaded-IsLit now l encode_ms upload_ms size c i
step-IsLit c c' (upload_fails now l refused inside) o i = upload_failed-IsLit now l refused c i
step-IsLit c c' (comes_due l set) o i =
    publish_loop-IsLit l _ (kept-IsLit c _ i refl refl refl refl)
step-IsLit c c' ends o i =
    stop-IsLit (with_error "The camera was disconnected." c) (kept-IsLit c _ i refl refl refl refl)
step-IsLit c c' (turns hidden) o i = turn-IsLit hidden c c.session i
step-IsLit c c' signs_out o i =
    if_holds IsLit (is_some c.session) _ _ (λ e. stop-IsLit c i) (λ e. i)
step-IsLit c c' exits o i = dark-IsLit c _ i refl refl i.single
step-IsLit c c' unmounts o i = dark-IsLit c _ i refl refl i.single
step-IsLit c c' stops o i = stop-IsLit c i
step-IsLit c c' (fails_to_list message) o i = enumerate_failed-IsLit message c i
step-IsLit c c' (sets_fps fps) o i = kept-IsLit c _ i refl refl refl refl

-- In every state that a capture reaches with no two starts in flight at a time, from a mount that may
-- find a session left in the store: the live tracks are those of the one stream that it holds, and it
-- holds one only with a session or while a session is being created.
pub reached-IsLit : (c : Capture) → OrderlyReached c → IsLit c
unfolding mounted
reached-IsLit c (mounts_first is_supported session now fps) = record {
  light = refl;
  single = refl;
  reason = λ e. refl;
}
reached-IsLit c (goes_orderly c0 c1 s r o) = step-IsLit c0 c1 s o (reached-IsLit c0 r)
