-- ===== src/Dashboard/CaptureSteps.antt =====
-- What can happen to a capture, in any order.
use project.Base.{
  List, [], ◌&&◌, ◌∷◌, Bool, Option, String, eq_option, eq_string, eq_ℕ, false, find, some, true, ℕ,
  ◌==◌, ◌≡◌,
}
use project.Contracts.Auth.{includes}
use project.Dashboard.Capture.{
  CaptureState, is_at, starting, stop, mounted, Awaiting, CameraSession, Capture, Loop, acquired,
  created, creation, encoded, enumerate_failed, mounted, on_exit, on_visibility, previous_revoked,
  revocation, signed_out, start, start_failed, stop, timer_due, track_ended, unmounted,
  upload_failed, uploaded, user_media,
}

-- A failed revocation is ignored.
abbrev pub can_fail : Awaiting → Bool
can_fail revocation = false
can_fail user_media = true
can_fail creation = true

abbrev pub is_starting : CaptureState → Bool
is_starting starting = true
is_starting _ = false

-- The panel's button is disabled while the state is `starting`
-- (dashboard/src/components/BrowserCameraPanel.tsx), which a lost device or a failed listing ends while
-- the call is still in flight; a new stream is none of those that are live.
pub data CaptureStep (c : Capture) : Capture → Type 0 where
  starts : (now : ℕ) → is_starting c.state ≡ false → CaptureStep c (start now c)
  revokes :
      (fps : ℕ) → is_at fps revocation c.awaiting ≡ true → CaptureStep c (previous_revoked fps c)
  acquires :
      (fps s : ℕ)
      → is_at fps user_media c.awaiting ≡ true
      → includes c.live s ≡ false
      → CaptureStep c (acquired fps s c)
  creates :
      (fps : ℕ) (session : CameraSession)
      → is_at fps creation c.awaiting ≡ true
      → CaptureStep c (created fps session c)
  start_fails :
      (fps : ℕ) (at : Awaiting) (message : String)
      → is_at fps at c.awaiting ≡ true
      → can_fail at ≡ true
      → CaptureStep c (start_failed fps at message c)
  encodes :
      (now : ℕ) (l : Loop) (blob : Option ℕ)
      → find (λ r. r.run == l.run) c.encoding ≡ some l
      → CaptureStep c (encoded now l blob c)
  uploads :
      (now encode_ms upload_ms size : ℕ) (l : Loop)
      → find (λ r. r.run == l.run) c.uploading ≡ some l
      → CaptureStep c (uploaded now l encode_ms upload_ms size c)
  upload_fails :
      (now : ℕ) (l : Loop) (refused : Bool)
      → find (λ r. r.run == l.run) c.uploading ≡ some l
      → CaptureStep c (upload_failed now l refused c)
  comes_due : (l : Loop) → c.timer ≡ some l → CaptureStep c (timer_due l c)
  ends : CaptureStep c (track_ended c)
  turns : (hidden : Bool) → CaptureStep c (on_visibility hidden c)
  signs_out : CaptureStep c (signed_out c)
  exits : CaptureStep c (on_exit c)
  unmounts : CaptureStep c (unmounted c)
  stops : CaptureStep c (stop c)
  fails_to_list : (message : String) → CaptureStep c (enumerate_failed message c)
  sets_fps : (fps : ℕ) → CaptureStep c (record c { fps = fps })

-- The states of one mount of the component; the calls that an earlier mount left in flight, which can
-- still write the store's session, are left out.
pub data CaptureReached : Capture → Type 0 where
  mounts :
      (is_supported : Bool) (session : Option CameraSession) (now fps : ℕ)
      → CaptureReached (mounted is_supported session now fps)
  goes_on : (c c' : Capture) → CaptureReached c → CaptureStep c c' → CaptureReached c'

-- Whether a step begins a start, and whether it does while another is in flight.
abbrev pub is_start : {c c' : Capture} → CaptureStep c c' → Bool
is_start (starts now ready) = true
is_start _ = false

abbrev pub in_flight : List (ℕ × Awaiting) → Bool
in_flight [] = false
in_flight (call ∷ calls) = true

-- The states that are reached with no two starts in flight at a time.
pub data OrderlyReached : Capture → Type 0 where
  mounts_first :
      (is_supported : Bool) (session : Option CameraSession) (now fps : ℕ)
      → OrderlyReached (mounted is_supported session now fps)
  goes_orderly :
      (c c' : Capture) (s : CaptureStep c c')
      → OrderlyReached c
      → (is_start s && in_flight c.awaiting) ≡ false
      → OrderlyReached c'

pub orderly-CaptureReached : (c : Capture) → OrderlyReached c → CaptureReached c
orderly-CaptureReached c (mounts_first is_supported session now fps) =
    mounts is_supported session now fps
orderly-CaptureReached c (goes_orderly c0 c1 s r o) = goes_on c0 c1 (orderly-CaptureReached c0 r) s
