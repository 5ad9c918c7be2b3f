-- ===== src/Dashboard/Capture.antt =====
-- dashboard/src/lib/useBrowserCamera.ts: the capture of this browser's camera, as the functions that
-- the panel, the page and the awaited calls continue with. A record holds the refs and the state of the
-- hook and the capture store's session, and with them what is outside: the streams whose tracks are
-- live, the awaited calls, and the revocations sent. A timeout that a later one replaced belongs to a
-- run that is over, where it does nothing, so only the last one is kept. Times are in milliseconds and
-- the quality in hundredths. The preview element, the measured rates and the list of devices are left out.
use project.Base.{
  ◌&&◌, ◌||◌, Bool, List, Option, String, [], eq_option, eq_string, eq_ℕ, false, if◌then◌else◌,
  is_some, leb, ltb, min, none, not, select, some, true, ℕ, ◌++◌, ◌+◌, ◌==◌, ◌∷◌,
}
use project.Dashboard.CapturePace.{jpeg_quality, lowered, max_capture_bytes}

-- `BrowserCameraSessionResponse`.
pub record CameraSession : Type 0 where
  pub agent_id : String
  pub token : String
  pub expires_at : ℕ
  pub max_fps : ℕ

pub data CaptureState : Type 0 where
  unsupported idle starting publishing paused_hidden error : CaptureState

-- What `publishLoop` closes over.
pub record Loop : Type 0 where
  pub run : ℕ
  pub session : CameraSession
  pub max_fps : ℕ

-- What a `start` in flight awaits: a revocation, the camera, or the hub's answer to the creation, with
-- the preview's `play` before it.
pub data Awaiting : Type 0 where
  revocation user_media creation : Awaiting

pub record Sample : Type 0 where
  pub frames : ℕ
  pub encode_ms : ℕ
  pub upload_ms : ℕ
  pub bytes : ℕ
  pub since : ℕ

pub record Capture : Type 0 where
  pub is_supported : Bool
  pub state : CaptureState
  pub error : Option String
  pub fps : ℕ
  pub frames_sent : ℕ
  pub sample : Sample
  pub stream : Option ℕ
  pub live : List ℕ
  pub timer : Option Loop
  pub run : ℕ
  pub failures : ℕ
  pub quality : ℕ
  pub session : Option CameraSession
  -- The frame rates that the calls of `start` in flight closed over, and what they await.
  pub awaiting : List (ℕ × Awaiting)
  -- The loops that encode a frame, and those that upload one.
  pub encoding : List Loop
  pub uploading : List Loop
  pub revoked : List String

abbrev pub no_sample : ℕ → Sample
no_sample now = record { frames = 0; encode_ms = 0; upload_ms = 0; bytes = 0; since = now }

abbrev pub resting : Bool → CaptureState
resting is_supported = if is_supported then idle else unsupported

abbrev pub stop_tracks : Option ℕ → List ℕ → List ℕ
stop_tracks none live = live
stop_tracks (some s) live = select (λ t. not (t == s)) live

abbrev pub revoke : Option CameraSession → List String → List String
revoke none revoked = revoked
revoke (some s) revoked = revoked ++ s.agent_id ∷ []

unfoldable pub release_camera : Capture → Capture
release_camera c = record c {
  run = c.run + 1;
  timer = none;
  live = stop_tracks c.stream c.live;
  stream = none;
}

unfoldable pub stop : Capture → Capture
unfolding release_camera
stop c = record (release_camera c) {
  revoked = revoke c.session c.revoked;
  session = none;
  frames_sent = 0;
  state = resting c.is_supported;
}

abbrev pub is_same : Awaiting → Awaiting → Bool
is_same revocation revocation = true
is_same user_media user_media = true
is_same creation creation = true
is_same _ _ = false

-- Whether a call with that frame rate is at that point, and the calls without it.
unfoldable pub is_at : ℕ → Awaiting → List (ℕ × Awaiting) → Bool
is_at fps at [] = false
is_at fps at ((f, a) ∷ calls) = (f == fps && is_same a at) || is_at fps at calls

unfoldable pub drop_start : ℕ → Awaiting → List (ℕ × Awaiting) → List (ℕ × Awaiting)
drop_start fps at [] = []
drop_start fps at ((f, a) ∷ calls) =
    let rest = drop_start fps at calls in if f == fps && is_same a at then calls else (f, a) ∷ rest

-- `start` with its fields reset, by the session that it finds.
unfoldable pub begin : Capture → Option CameraSession → Capture
unfolding release_camera
begin c none = record c { awaiting = (c.fps, user_media) ∷ c.awaiting }
begin c (some previous) = record (release_camera c) {
  revoked = revoke (some previous) c.revoked;
  awaiting = (c.fps, revocation) ∷ c.awaiting;
}

abbrev pub reset : ℕ → Capture → Capture
reset now c = record c {
  state = starting;
  error = none;
  frames_sent = 0;
  sample = no_sample now;
  quality = jpeg_quality;
  failures = 0;
}

-- `start`, up to the first call that it awaits.
unfoldable pub start : ℕ → Capture → Capture
unfolding begin
start now c =
    if not c.is_supported then record c { state = unsupported } else begin (reset now c) c.session

-- `start` once the previous session is revoked, once it has the camera, once the hub has created the
-- session, and where one of these failed.
unfoldable pub previous_revoked : ℕ → Capture → Capture
unfolding drop_start
previous_revoked fps c = record c {
  session = none;
  awaiting = (fps, user_media) ∷ drop_start fps revocation c.awaiting;
}

unfoldable pub acquired : ℕ → ℕ → Capture → Capture
unfolding drop_start
acquired fps s c = record c {
  stream = some s;
  live = s ∷ c.live;
  awaiting = (fps, creation) ∷ drop_start fps user_media c.awaiting;
}

-- `publishLoop`, up to the frame that it awaits.
unfoldable pub publish_loop : Loop → Capture → Capture
publish_loop l c = if not (c.run == l.run) then c else record c { encoding = l ∷ c.encoding }

unfoldable pub created : ℕ → CameraSession → Capture → Capture
unfolding publish_loop drop_start
created fps session c =
    publish_loop (record { run = c.run + 1; session = session; max_fps = min fps session.max_fps })
      (record c {
        session = some session;
        state = publishing;
        run = c.run + 1;
        awaiting = drop_start fps creation c.awaiting;
      })

unfoldable pub start_failed : ℕ → Awaiting → String → Capture → Capture
unfolding release_camera drop_start
start_failed fps at message c = record (release_camera c) {
  state = error;
  error = some message;
  awaiting = drop_start fps at c.awaiting;
}

-- A loop that no longer awaits its call.
unfoldable pub settle : ℕ → List Loop → List Loop
settle run [] = []
settle run (l ∷ ls) = if l.run == run then ls else l ∷ settle run ls

-- The end of a cycle: the sample is published once a second, and the next cycle is set.
unfoldable pub finish_cycle : ℕ → Loop → Capture → Capture
finish_cycle now l c =
    let next = record c { timer = some l } in
    if leb (c.sample.since + 1000) now
    then record next { frames_sent = c.frames_sent + c.sample.frames; sample = no_sample now }
    else next

-- The cycle with its frame, as the size of the JPEG, or with none.
unfoldable pub captured : ℕ → Loop → Option ℕ → Capture → Capture
unfolding finish_cycle
captured now l none c = finish_cycle now l c
captured now l (some size) c =
    if ltb max_capture_bytes size
    then finish_cycle now l (record c { quality = lowered c.quality })
    else record c { uploading = l ∷ c.uploading }

unfoldable pub encoded : ℕ → Loop → Option ℕ → Capture → Capture
unfolding settle captured
encoded now l blob c =
    let left = record c { encoding = settle l.run c.encoding } in
    if not (c.run == l.run) then left else captured now l blob left

-- A frame more in the sample.
abbrev pub delivered : (encode_ms upload_ms size : ℕ) → Capture → Capture
delivered encode_ms upload_ms size c = record c {
  failures = 0;
  sample = record c.sample {
    frames = c.sample.frames + 1;
    encode_ms = c.sample.encode_ms + encode_ms;
    upload_ms = c.sample.upload_ms + upload_ms;
    bytes = size;
  };
}

-- A loop's upload is over.
abbrev pub settled : Loop → Capture → Capture
settled l c = record c { uploading = settle l.run c.uploading }

unfoldable pub uploaded : ℕ → Loop → (encode_ms upload_ms size : ℕ) → Capture → Capture
unfolding settle finish_cycle
uploaded now l encode_ms upload_ms size c =
    if not (c.run == l.run)
    then settled l c
    else finish_cycle now l (delivered encode_ms upload_ms size (settled l c))

abbrev pub with_error : String → Capture → Capture
with_error message c = record c { error = some message }

abbrev pub failed_once : Capture → Capture
failed_once c = record c { failures = c.failures + 1 }

-- An upload that failed; a 401 or 403 ends the session.
unfoldable pub upload_failed : ℕ → Loop → (refused : Bool) → Capture → Capture
unfolding settle finish_cycle stop
upload_failed now l refused c =
    if not (c.run == l.run)
    then settled l c
    else if refused
    then stop (with_error "The publishing session ended. Start it again to continue." (settled l c))
    else finish_cycle now l (failed_once (settled l c))

unfoldable pub timer_due : Loop → Capture → Capture
unfolding publish_loop
timer_due l c = publish_loop l (record c { timer = none })

unfoldable pub track_ended : Capture → Capture
unfolding stop
track_ended c = stop (with_error "The camera was disconnected." c)

unfoldable pub pause : Capture → Capture
pause c = record c { run = c.run + 1; timer = none; state = paused_hidden }

unfoldable pub resume : CameraSession → Capture → Capture
unfolding publish_loop
resume session c =
    publish_loop (record { run = c.run + 1; session = session; max_fps = session.max_fps })
      (record c { state = publishing; run = c.run + 1 })

unfoldable pub turn : (hidden : Bool) → Capture → Option CameraSession → Capture
unfolding pause resume
turn hidden c none = c
turn true c (some session) = pause c
turn false c (some session) = resume session c

unfoldable pub on_visibility : (hidden : Bool) → Capture → Capture
unfolding turn
on_visibility hidden c = turn hidden c c.session

-- A change of the dashboard's own session, and the tab that closes.
unfoldable pub signed_out : Capture → Capture
unfolding stop
signed_out c = if is_some c.session then stop c else c

unfoldable pub on_exit : Capture → Capture
unfolding release_camera
on_exit c = record (release_camera c) { revoked = revoke c.session c.revoked }

-- The effect's cleanup is `releaseCamera` itself.
unfoldable pub unmounted : Capture → Capture
unfolding release_camera
unmounted c = release_camera c

-- `enumerate`, where the listing failed; its own stream is stopped at once.
unfoldable pub enumerate_failed : String → Capture → Capture
enumerate_failed message c =
    if c.is_supported
    then record c { state = error; error = some message }
    else record c { state = unsupported }

-- The capture store keeps a session that an earlier mount has left.
unfoldable pub mounted : (is_supported : Bool) → Option CameraSession → (now fps : ℕ) → Capture
mounted is_supported session now fps = record {
  is_supported = is_supported;
  state = resting is_supported;
  error = none;
  fps = fps;
  frames_sent = 0;
  sample = no_sample now;
  stream = none;
  live = [];
  timer = none;
  run = 0;
  failures = 0;
  quality = jpeg_quality;
  session = session;
  awaiting = [];
  encoding = [];
  uploading = [];
  revoked = [];
}
