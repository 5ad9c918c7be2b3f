-- ===== src/Dashboard/CapturePace.antt =====
-- How fast the capture loop goes round: `nextBackoffMs` of dashboard/src/lib/useCameraStream.ts, and
-- the delay and the JPEG quality of dashboard/src/lib/useBrowserCamera.ts.
use project.Base.{if◌then◌else◌, ltb, max, min, ℕ, ◌*◌, ◌+◌, ◌-◌, ◌/◌, ◌^◌}
use project.Notifications.Service.{attempt}

-- `Math.random()`, a multiple of 2 ^ -53 below 1.
abbrev pub random_scale : ℕ
random_scale = 2 ^ 53

-- `nextBackoffMs`; `Math.round` rounds a half up.
unfoldable pub next_backoff_ms : ℕ → (random : ℕ) → ℕ
next_backoff_ms attempt random =
    let ceiling = min 30000 (1000 * 2 ^ (attempt - 1)) in
    (ceiling * (random_scale + random) + random_scale) / (2 * random_scale)

-- The timer counts whole milliseconds, so the interval is cut to them.
unfoldable pub delay_ms : (failures random max_fps spent : ℕ) → ℕ
unfolding next_backoff_ms
delay_ms failures random max_fps spent =
    if ltb 0 failures then next_backoff_ms failures random else 1000 / max 1 max_fps - spent

-- `BROWSER_CAPTURE_JPEG_QUALITY`, in hundredths.
abbrev pub jpeg_quality : ℕ
jpeg_quality = 65

-- `Math.max(0.3, quality - 0.2)`.
abbrev pub lowered : ℕ → ℕ
lowered quality = max 30 (quality - 20)

-- `BROWSER_CAPTURE_MAX_FRAME_BYTES`.
abbrev pub max_capture_bytes : ℕ
max_capture_bytes = 512 * 1024
