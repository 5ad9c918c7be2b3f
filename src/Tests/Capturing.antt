-- ===== src/Tests/Capturing.antt =====
-- A browser's capture at concrete inputs.
use project.Base.{none, [], any, eq_option, eq_string, eq_ℕ, length, refl, some, true, ◌+◌, ◌≡◌}
use project.Contracts.Auth.{includes}
use project.Dashboard.Capture.{
  is_at, drop_start, stop, mounted, CameraSession, Capture, acquired, begin, created, mounted,
  publishing, start, stop, track_ended,
}
use project.Dashboard.CaptureAfter.{here, device_lost, here}
use project.Dashboard.CaptureLight.{IsLit, reached-IsLit}
use project.Dashboard.CaptureLoops.{IsPaced}
use project.Dashboard.CaptureOff.{IsOff, by_stop, Exit-IsOff}
use project.Dashboard.CaptureOnce.{reached-IsPaced}
use project.Dashboard.Mint.{MintGate, drop_call, enter, go_on, idle_gate, leave, wake}
use project.Dashboard.MintSlots.{
  IsGated, MintReached, enters, leaves, minted-IsGated, opens, resumes,
}
use project.Dashboard.CaptureSteps.{
  starts, OrderlyReached, acquires, creates, goes_orderly, mounts_first, orderly-CaptureReached,
}

abbrev front_session : CameraSession
front_session = record { agent_id = "browser-1"; token = "ag_b"; expires_at = 9000; max_fps = 15 }

abbrev fresh_capture : Capture
fresh_capture = mounted true none 0 10

abbrev asking : Capture
asking = start 0 fresh_capture

abbrev lit : Capture
lit = acquired 10 7 asking

abbrev on_air : Capture
on_air = created 10 front_session lit

asking-Reached : OrderlyReached asking
unfolding start mounted
asking-Reached =
    goes_orderly fresh_capture asking (starts 0 refl) (mounts_first true none 0 10) refl

lit-Reached : OrderlyReached lit
unfolding start mounted begin includes any is_at
lit-Reached = goes_orderly asking lit (acquires 10 7 refl refl) asking-Reached refl

on_air-Reached : OrderlyReached on_air
unfolding acquired start mounted begin is_at drop_start
on_air-Reached = goes_orderly lit on_air (creates 10 front_session refl) lit-Reached refl

reached-IsLit_example : IsLit on_air
reached-IsLit_example = reached-IsLit on_air on_air-Reached

reached-IsPaced_example : IsPaced on_air
reached-IsPaced_example = reached-IsPaced on_air (orderly-CaptureReached on_air on_air-Reached)

Exit-IsOff_example : IsOff (stop on_air)
Exit-IsOff_example = Exit-IsOff on_air (stop on_air) on_air-Reached by_stop

device_lost_example :
    OrderlyReached (created 10 front_session (track_ended lit))
    × ((created 10 front_session (track_ended lit)).state ≡ publishing)
    × ((created 10 front_session (track_ended lit)).session ≡ some front_session)
    × (length (created 10 front_session (track_ended lit)).encoding ≡ length lit.encoding + 1)
    × ((created 10 front_session (track_ended lit)).live ≡ [])
unfolding acquired start mounted begin is_at drop_start
device_lost_example = device_lost lit 10 front_session lit-Reached refl

-- Two requests are out, a third call waits, the first request ends, and a fourth call overtakes the
-- third.
abbrev two_out : MintGate
two_out = enter 3 (enter 2 (enter 1 idle_gate))

abbrev overtaken : MintGate
overtaken = go_on (leave 1 two_out).woken (enter 4 (leave 1 two_out))

overtaken-Reached : MintReached 1 overtaken
unfolding enter leave wake go_on drop_call includes any
overtaken-Reached = resumes 1 (enter 4 (leave 1 two_out)) (
    enters 0 4 (leave 1 two_out)
      (leaves 0 1 two_out (enters 0 3 _ (enters 0 2 _ (enters 0 1 idle_gate opens))) refl))

minted-IsGated_example : IsGated 1 overtaken
minted-IsGated_example = minted-IsGated 1 overtaken overtaken-Reached
