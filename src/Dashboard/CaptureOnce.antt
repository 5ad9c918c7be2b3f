-- ===== src/Dashboard/CaptureOnce.antt =====
-- One cycle at a time, in every state that a capture reaches.
use project.Base.{
  ==_iff, ==_refl, Bool, Option, String, arith, count, eq_option, eq_string, eq_ℕ, false, find,
  if_holds, is_some, ltb, none, not, refl, some, sym, true, ℕ, ◌+◌, ◌==◌, ◌≡◌,
}
use project.Dashboard.Capture.{
  Awaiting, creation, drop_start, stop, mounted, settle, turn, CameraSession, Capture, Loop,
  acquired, begin, captured, created, delivered, encoded, enumerate_failed, failed_once, mounted,
  on_exit, on_visibility, pause, previous_revoked, publish_loop, publishing, release_camera, reset,
  resume, settle, settled, signed_out, start, start_failed, stop, timer_due, track_ended, turn,
  unmounted, upload_failed, uploaded, with_error,
}
use project.Dashboard.CaptureLoops.{
  IsPaced, cycles, encoding_over, finish_cycle-IsPaced, none_encoding, none_uploading,
  publish_loop-IsPaced, release_camera-IsPaced, same-IsPaced, uploading_over,
}
use project.Dashboard.CapturePace.{lowered, max_capture_bytes}
use project.Dashboard.CaptureSteps.{
  mounts, goes_on, starts, stops, turns, CaptureReached, CaptureStep, acquires, comes_due, creates,
  encodes, ends, exits, fails_to_list, goes_on, mounts, revokes, sets_fps, signs_out, start_fails,
  starts, stops, turns, unmounts, upload_fails, uploads,
}

start_failed-IsPaced :
    (fps : ℕ) (at : Awaiting) (message : String) (c : Capture)
    → IsPaced c
    → IsPaced (start_failed fps at message c)
unfolding start_failed
start_failed-IsPaced fps at message c i =
    same-IsPaced (release_camera c) (start_failed fps at message c) (release_camera-IsPaced c i)
      refl refl refl refl refl

stop-IsPaced : (c : Capture) → IsPaced c → IsPaced (stop c)
unfolding stop
stop-IsPaced c i =
    same-IsPaced (release_camera c) (stop c) (release_camera-IsPaced c i) refl refl refl refl refl

exit-IsPaced : (c : Capture) → IsPaced c → IsPaced (on_exit c)
unfolding on_exit
exit-IsPaced c i =
    same-IsPaced (release_camera c) (on_exit c) (release_camera-IsPaced c i) refl refl refl refl
      refl

begin-IsPaced : (c : Capture) (o : Option CameraSession) → IsPaced c → IsPaced (begin c o)
unfolding begin
begin-IsPaced c none i = same-IsPaced c _ i refl refl refl refl refl
begin-IsPaced c (some previous) i =
    same-IsPaced (release_camera c) (begin c (some previous)) (release_camera-IsPaced c i) refl refl
      refl refl refl

start-IsPaced : (now : ℕ) (c : Capture) → IsPaced c → IsPaced (start now c)
unfolding start
start-IsPaced now c i =
    if_holds IsPaced (not c.is_supported) _ _ (λ e. same-IsPaced c _ i refl refl refl refl refl)
      (λ e.
        begin-IsPaced (reset now c) c.session
          (record { one = i.one; past = i.past; low = omega arith; high = omega arith }))

-- A new run has nothing outstanding.
new_run-IsPaced :
    (c c' : Capture)
    → IsPaced c
    → c'.run ≡ c.run + 1
    → c'.timer ≡ c.timer
    → c'.encoding ≡ c.encoding
    → c'.uploading ≡ c.uploading
    → c'.quality ≡ c.quality
    → (cycles c'.run c' ≡ 0) × IsPaced c'
new_run-IsPaced c c' i r t e u q =
    let clear : cycles c'.run c' ≡ 0 = rw (r, t, e, u) (i.past (c.run + 1) (omega arith)) in
    (
      clear,
      record {
        one = omega (arith, clear);
        past = λ n h. rw (t, e, u) (i.past n (omega (arith, r, h)));
        low = rw q i.low;
        high = rw q i.high;
      },
    )

created-IsPaced :
    (fps : ℕ) (session : CameraSession) (c : Capture) → IsPaced c → IsPaced (created fps session c)
unfolding created
created-IsPaced fps session c i =
    let next : Capture = record c {
      session = some session;
      state = publishing;
      run = c.run + 1;
      awaiting = drop_start fps creation c.awaiting;
    } in
    let (clear, paced) = new_run-IsPaced c next i refl refl refl refl refl in
    publish_loop-IsPaced _ next clear paced

turn-IsPaced :
    (hidden : Bool) (c : Capture) (o : Option CameraSession) → IsPaced c → IsPaced (turn hidden c o)
unfolding turn pause resume release_camera
turn-IsPaced hidden c none i = i
turn-IsPaced true c (some session) i =
    same-IsPaced (release_camera c) (pause c) (release_camera-IsPaced c i) refl refl refl refl refl
turn-IsPaced false c (some session) i =
    let next : Capture = record c { state = publishing; run = c.run + 1 } in
    let (clear, paced) = new_run-IsPaced c next i refl refl refl refl refl in
    publish_loop-IsPaced _ next clear paced

captured-IsPaced :
    (now : ℕ) (l : Loop) (blob : Option ℕ) (c : Capture)
    → l.run ≡ c.run
    → cycles c.run c ≡ 0
    → IsPaced c
    → IsPaced (captured now l blob c)
unfolding captured count
captured-IsPaced now l none c own clear i =
    finish_cycle-IsPaced now l c own (omega (arith, clear)) i
captured-IsPaced now l (some size) c own clear i =
    if_holds IsPaced (ltb max_capture_bytes size) _ _
      (λ e.
        finish_cycle-IsPaced now l (record c { quality = lowered c.quality }) own
          (omega (arith, clear))
          (record {
            one = i.one;
            past = i.past;
            low = omega arith;
            high = omega (arith, i.high, i.low);
          }))
      (λ e. record {
        one = ground (arith, clear, own);
        past = λ r h. ground (arith, i.past r h, own);
        low = i.low;
        high = i.high;
      })

encoded-IsPaced :
    (now : ℕ) (l : Loop) (blob : Option ℕ) (c : Capture)
    → find (λ r. r.run == l.run) c.encoding ≡ some l
    → IsPaced c
    → IsPaced (encoded now l blob c)
unfolding encoded
encoded-IsPaced now l blob c e i =
    if_holds IsPaced (not (c.run == l.run)) _ _ (λ _. encoding_over c l e i)
      (λ h.
        let own = (==_iff c.run l.run).0 (ground arith) in
        captured-IsPaced now l blob (record c { encoding = settle l.run c.encoding }) (sym own)
          (none_encoding c l e own i.one) (encoding_over c l e i))

uploaded-IsPaced :
    (now : ℕ) (l : Loop) (encode_ms upload_ms size : ℕ) (c : Capture)
    → find (λ r. r.run == l.run) c.uploading ≡ some l
    → IsPaced c
    → IsPaced (uploaded now l encode_ms upload_ms size c)
unfolding uploaded
uploaded-IsPaced now l encode_ms upload_ms size c e i =
    if_holds IsPaced (not (c.run == l.run)) _ _ (λ _. uploading_over c l e i)
      (λ h.
        let own = (==_iff c.run l.run).0 (ground arith) in
        let left = settled l c in
        finish_cycle-IsPaced now l (delivered encode_ms upload_ms size left) (sym own)
          (omega (arith, none_uploading c l e own i.one))
          (same-IsPaced left (delivered encode_ms upload_ms size left) (uploading_over c l e i) refl
            refl refl refl refl))

upload_failed-IsPaced :
    (now : ℕ) (l : Loop) (refused : Bool) (c : Capture)
    → find (λ r. r.run == l.run) c.uploading ≡ some l
    → IsPaced c
    → IsPaced (upload_failed now l refused c)
unfolding upload_failed
upload_failed-IsPaced now l refused c e i =
    if_holds IsPaced (not (c.run == l.run)) _ _ (λ _. uploading_over c l e i)
      (λ h.
        let own = (==_iff c.run l.run).0 (ground arith) in
        let left = settled l c in
        let paced = uploading_over c l e i in
        let ended : String = "The publishing session ended. Start it again to continue." in
        if_holds IsPaced refused _ _
          (λ _.
            stop-IsPaced (with_error ended left)
              (same-IsPaced left (with_error ended left) paced refl refl refl refl refl))
          (λ _.
            finish_cycle-IsPaced now l (failed_once left) (sym own)
              (omega (arith, none_uploading c l e own i.one))
              (same-IsPaced left (failed_once left) paced refl refl refl refl refl)))

timer_due-IsPaced :
    (l : Loop) (c : Capture) → c.timer ≡ some l → IsPaced c → IsPaced (timer_due l c)
unfolding timer_due publish_loop count
timer_due-IsPaced l c e i =
    if_holds IsPaced (not (c.run == l.run)) _ _
      (λ h. record {
        one = omega (arith, i.one);
        past = λ r h. omega (arith, i.past r h);
        low = i.low;
        high = i.high;
      })
      (λ h.
        let own = (==_iff c.run l.run).0 (ground arith) in
        record {
          one = ground (arith, e, i.one, own, ==_refl l.run);
          past = λ r h. ground (arith, e, i.past r h, own);
          low = i.low;
          high = i.high;
        })

step-IsPaced : (c c' : Capture) → CaptureStep c c' → IsPaced c → IsPaced c'
unfolding on_visibility signed_out unmounted track_ended previous_revoked acquired enumerate_failed
step-IsPaced c c' (starts now ready) i = start-IsPaced now c i
step-IsPaced c c' (revokes fps waits) i = same-IsPaced c _ i refl refl refl refl refl
step-IsPaced c c' (acquires fps s waits fresh) i = same-IsPaced c _ i refl refl refl refl refl
step-IsPaced c c' (creates fps session waits) i = created-IsPaced fps session c i
step-IsPaced c c' (start_fails fps at message waits fails) i =
    start_failed-IsPaced fps at message c i
step-IsPaced c c' (encodes now l blob inside) i = encoded-IsPaced now l blob c inside i
step-IsPaced c c' (uploads now encode_ms upload_ms size l inside) i =
    uploaded-IsPaced now l encode_ms upload_ms size c inside i
step-IsPaced c c' (upload_fails now l refused inside) i =
    upload_failed-IsPaced now l refused c inside i
step-IsPaced c c' (comes_due l set) i = timer_due-IsPaced l c set i
step-IsPaced c c' ends i =
    stop-IsPaced (with_error "The camera was disconnected." c)
      (same-IsPaced c _ i refl refl refl refl refl)
step-IsPaced c c' (turns hidden) i = turn-IsPaced hidden c c.session i
step-IsPaced c c' signs_out i =
    if_holds IsPaced (is_some c.session) _ _ (λ e. stop-IsPaced c i) (λ e. i)
step-IsPaced c c' exits i = exit-IsPaced c i
step-IsPaced c c' unmounts i = release_camera-IsPaced c i
step-IsPaced c c' stops i = stop-IsPaced c i
step-IsPaced c c' (fails_to_list message) i =
    if_holds IsPaced c.is_supported _ _ (λ e. same-IsPaced c _ i refl refl refl refl refl)
      (λ e. same-IsPaced c _ i refl refl refl refl refl)
step-IsPaced c c' (sets_fps fps) i = same-IsPaced c _ i refl refl refl refl refl

-- In every state that a capture reaches after its component's mount, starts that overlap included, its
-- present run has at most one cycle, a frame that is encoded or uploaded or a timer that is set; no
-- later run has any; and the quality is from 0.3 to 0.65.
pub reached-IsPaced : (c : Capture) → CaptureReached c → IsPaced c
unfolding mounted count
reached-IsPaced c (mounts is_supported session now fps) = record {
  one = omega arith;
  past = λ r h. refl;
  low = omega arith;
  high = omega arith;
}
reached-IsPaced c (goes_on c0 c1 r s) = step-IsPaced c0 c1 s (reached-IsPaced c0 r)
