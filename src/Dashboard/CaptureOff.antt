-- ===== src/Dashboard/CaptureOff.antt =====
-- The ways out of a capture, and what follows them.
use project.Base.{String, [], arith, eq_string, eq_ℕ, is_some, refl, true, ℕ, ◌+◌, ◌==◌, ◌∙◌, ◌≡◌}
use project.Dashboard.Capture.{
  Awaiting, stop, Capture, Loop, on_exit, release_camera, signed_out, start_failed, stop,
  track_ended, unmounted, upload_failed,
}
use project.Dashboard.CaptureLight.{IsLit, reached-IsLit, released_live}
use project.Dashboard.CaptureLoops.{IsPaced, count-settle, cycles}
use project.Dashboard.CaptureOnce.{reached-IsPaced}
use project.Dashboard.CaptureSteps.{OrderlyReached, orderly-CaptureReached}

-- The ways out: Stop, a device that is gone, a refused upload of the present run, a sign-out while a
-- session is open, a start that fails, the page that is left, and the component that goes.
pub data Exit (c : Capture) : Capture → Type 0 where
  by_stop : Exit c (stop c)
  by_device : Exit c (track_ended c)
  by_refusal : (now : ℕ) (l : Loop) → (c.run == l.run) ≡ true → Exit c (upload_failed now l true c)
  by_sign_out : is_some c.session ≡ true → Exit c (signed_out c)
  by_failure : (fps : ℕ) (at : Awaiting) (message : String) → Exit c (start_failed fps at message c)
  by_page : Exit c (on_exit c)
  by_unmount : Exit c (unmounted c)

released_cycles : (c : Capture) → IsPaced c → cycles (release_camera c).run (release_camera c) ≡ 0
unfolding release_camera
released_cycles c i = ground (arith, i.past (c.run + 1) (omega arith))

-- What is off: no live track, and nothing that the present run captures, uploads or waits for.
pub record IsOff (c : Capture) : Type 0 where
  pub dark : c.live ≡ []
  pub quiet : cycles c.run c ≡ 0

release_camera-IsOff : (c : Capture) → IsLit c → IsPaced c → IsOff (release_camera c)
release_camera-IsOff c lit paced = record {
  dark = released_live c lit;
  quiet = released_cycles c paced;
}

same-IsOff :
    (c c' : Capture)
    → IsOff c
    → c'.live ≡ c.live
    → c'.run ≡ c.run
    → c'.timer ≡ c.timer
    → c'.encoding ≡ c.encoding
    → c'.uploading ≡ c.uploading
    → IsOff c'
same-IsOff c c' i l r t e u = record { dark = l ∙ i.dark; quiet = rw (r, t, e, u) i.quiet }

pub stop-IsOff : (c : Capture) → IsLit c → IsPaced c → IsOff (stop c)
unfolding stop
stop-IsOff c lit paced =
    same-IsOff (release_camera c) (stop c) (release_camera-IsOff c lit paced) refl refl refl refl
      refl

refused-IsOff :
    (now : ℕ) (l : Loop) (c : Capture)
    → (c.run == l.run) ≡ true
    → IsLit c
    → IsPaced c
    → IsOff (upload_failed now l true c)
unfolding upload_failed stop release_camera
refused-IsOff now l c same lit paced = rw same (record {
  dark = released_live c lit;
  quiet =
      ground
        (arith, paced.past (c.run + 1) (omega arith), count-settle l.run (c.run + 1) c.uploading);
})

-- From every state that a capture reaches with no two starts in flight at a time, each way out leaves
-- no track live, and nothing of the present run outstanding: no frame that is encoded or uploaded and
-- no timer.
pub Exit-IsOff : (c c' : Capture) → OrderlyReached c → Exit c c' → IsOff c'
unfolding stop release_camera track_ended signed_out start_failed on_exit unmounted
Exit-IsOff c c' r by_stop =
    stop-IsOff c (reached-IsLit c r) (reached-IsPaced c (orderly-CaptureReached c r))
Exit-IsOff c c' r by_device =
    same-IsOff (stop c) (track_ended c)
      (stop-IsOff c (reached-IsLit c r) (reached-IsPaced c (orderly-CaptureReached c r))) refl refl
      refl refl refl
Exit-IsOff c c' r (by_refusal now l same) =
    refused-IsOff now l c same (reached-IsLit c r) (reached-IsPaced c (orderly-CaptureReached c r))
Exit-IsOff c c' r (by_sign_out open_session) =
    rw open_session
      (stop-IsOff c (reached-IsLit c r) (reached-IsPaced c (orderly-CaptureReached c r)))
Exit-IsOff c c' r (by_failure fps at message) =
    same-IsOff (release_camera c) _
      (release_camera-IsOff c (reached-IsLit c r) (reached-IsPaced c (orderly-CaptureReached c r)))
      refl refl refl refl refl
Exit-IsOff c c' r by_page =
    same-IsOff (release_camera c) _
      (release_camera-IsOff c (reached-IsLit c r) (reached-IsPaced c (orderly-CaptureReached c r)))
      refl refl refl refl refl
Exit-IsOff c c' r by_unmount =
    release_camera-IsOff c (reached-IsLit c r) (reached-IsPaced c (orderly-CaptureReached c r))
