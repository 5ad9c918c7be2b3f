-- ===== src/Dashboard/CaptureAfter.antt =====
-- What follows a Stop.
use project.Base.{
  String, select, ==_refl, [], any, ap, arith, eq_option, eq_string, eq_ℕ, false, length, none,
  refl, some, true, ℕ, ◌+◌, ◌==◌, ◌∙◌, ◌∷◌, ◌≡◌,
}
use project.Contracts.Auth.{includes}
use project.Dashboard.Capture.{
  begin, start, is_at, stop, turn, CameraSession, Capture, acquired, created, creation,
  enumerate_failed, publish_loop, publishing, release_camera, stop, track_ended, turn, unmounted,
  user_media,
}
use project.Dashboard.CaptureLight.{reached-IsLit, released_live}
use project.Dashboard.CaptureOff.{IsOff}
use project.Dashboard.CaptureSteps.{
  goes_on, CaptureReached, goes_orderly, is_start, starts, stops, turns, OrderlyReached,
  CaptureStep, acquires, creates, ends, fails_to_list, starts, stops, turns, unmounts,
}

-- The states that follow one, as long as nothing is started.
pub data Follows (c : Capture) : Capture → Type 0 where
  here : Follows c c
  then_step :
      (c' c'' : Capture) (s : CaptureStep c' c'')
      → Follows c c'
      → is_start s ≡ false
      → Follows c c''

pub record IsDown (c : Capture) : Type 0 where
  pub over : c.awaiting ≡ []
  pub closed : c.session ≡ none
  pub off : IsOff c

same-IsDown :
    (c c' : Capture)
    → IsDown c
    → c'.awaiting ≡ c.awaiting
    → c'.session ≡ c.session
    → IsOff c'
    → IsDown c'
same-IsDown c c' d a s off = record { over = a ∙ d.over; closed = s ∙ d.closed; off = off }

-- In a capture that never has had two starts in flight at a time, a device that goes while the hub
-- creates the session does not end the start: once the hub answers,
-- the capture says that it publishes, with an open session, a cycle that goes on, and no camera.
pub device_lost :
    (c : Capture) (fps : ℕ) (session : CameraSession)
    → OrderlyReached c
    → is_at fps creation c.awaiting ≡ true
    → OrderlyReached (created fps session (track_ended c))
      × ((created fps session (track_ended c)).state ≡ publishing)
      × ((created fps session (track_ended c)).session ≡ some session)
      × (length (created fps session (track_ended c)).encoding ≡ length c.encoding + 1)
      × ((created fps session (track_ended c)).live ≡ [])
unfolding created publish_loop stop release_camera track_ended
device_lost c fps session r waits =
    let dark = released_live c (reached-IsLit c r) in
    (
      goes_orderly (track_ended c) (created fps session (track_ended c)) (creates fps session waits)
          (goes_orderly c (track_ended c) ends r refl) refl,
      rw (==_refl (c.run + 1 + 1)) refl,
      rw (==_refl (c.run + 1 + 1)) refl,
      rw (==_refl (c.run + 1 + 1)) (omega arith),
      rw (==_refl (c.run + 1 + 1)) dark,
    )

-- A component that goes while the browser still asks for the camera does not keep the light off: once
-- the browser gives the camera, its track is live, although the component has released everything.
camera_left_on :
    (c : Capture) (fps s : ℕ)
    → OrderlyReached c
    → is_at fps user_media c.awaiting ≡ true
    → OrderlyReached (acquired fps s (unmounted c)) × ((acquired fps s (unmounted c)).live ≡ s ∷ [])
unfolding acquired unmounted includes any
camera_left_on c fps s r waits =
    let dark = released_live c (reached-IsLit c r) in
    (
      goes_orderly (unmounted c) (acquired fps s (unmounted c))
          (acquires fps s waits (ap (λ l. includes l s) dark))
          (goes_orderly c (unmounted c) unmounts r refl) refl,
      ap (λ l. s ∷ l) dark,
    )

-- The state that a failed listing, a second start with its camera, and a Stop leave.
abbrev leaked : Capture → (now second : ℕ) → (message : String) → Capture
leaked c now second message = stop (acquired c.fps second (start now (enumerate_failed message c)))

-- A listing that fails while a start is in flight enables the panel's button again. Of two starts in
-- flight the second overwrites the first one's stream, which then no Stop ends.
camera_leaked :
    (c : Capture) (now first second : ℕ) (message : String)
    → CaptureReached c
    → c.is_supported ≡ true
    → c.session ≡ none
    → c.live ≡ first ∷ []
    → (first == second) ≡ false
    → CaptureReached (leaked c now second message)
      × ((leaked c now second message).live ≡ first ∷ [])
unfolding enumerate_failed start begin acquired stop release_camera select is_at includes any
camera_leaked c now first second message r supported closed lit apart =
    let failed = enumerate_failed message c in
    let began = start now failed in
    let held_two = acquired c.fps second began in
    (
      goes_on held_two (stop held_two)
          (goes_on began held_two
            (goes_on failed began (goes_on c failed r (fails_to_list message))
              (starts now (rw supported refl)))
            (acquires c.fps second (rw (supported, closed, ==_refl c.fps) refl)
              (rw (supported, closed, lit, apart) refl)))
          stops,
      ground (arith, supported, closed, lit, ==_refl second, apart),
    )
