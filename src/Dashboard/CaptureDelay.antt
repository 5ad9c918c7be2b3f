-- ===== src/Dashboard/CaptureDelay.antt =====
-- The bounds of the capture loop's delay.
use native.Mathlib.Nat.{mul-le-mul_left, one-le-pow, div-le_self}
use project.Base.{arith, if_holds, ltb, max, min, true, ℕ, ◌*◌, ◌+◌, ◌-◌, ◌/◌, ◌<◌, ◌^◌, ◌≡◌, ◌≤◌}
use project.Dashboard.CapturePace.{delay_ms, next_backoff_ms, random_scale}
use project.Notifications.Service.{attempt}

ceiling_bounds :
    (attempt : ℕ)
    → (1000 ≤ min 30000 (1000 * 2 ^ (attempt - 1))) × (min 30000 (1000 * 2 ^ (attempt - 1)) ≤ 30000)
ceiling_bounds attempt =
    let positive = one-le-pow (attempt - 1) 2 (omega arith) in
    (omega (arith, positive), omega arith)

spread_bounds :
    (c r : ℕ)
    → 1000 ≤ c
    → c ≤ 30000
    → r < random_scale
    → (500 ≤ (c * (random_scale + r) + random_scale) / (2 * random_scale))
      × ((c * (random_scale + r) + random_scale) / (2 * random_scale) ≤ 30000)
spread_bounds c r low high h =
    let least : c * random_scale ≤ c * (random_scale + r) =
      mul-le-mul_left {m = random_scale} {n = random_scale + r} c (omega arith) in
    let most : c * (random_scale + r) ≤ c * (2 * random_scale - 1) =
      mul-le-mul_left {m = random_scale + r} {n = 2 * random_scale - 1} c (omega arith) in
    (omega (arith, least), omega (arith, most))

backoff_bounds :
    (attempt random : ℕ)
    → random < random_scale
    → (500 ≤ next_backoff_ms attempt random) × (next_backoff_ms attempt random ≤ 30000)
unfolding next_backoff_ms
backoff_bounds attempt random h =
    let (low, high) = ceiling_bounds attempt in
    spread_bounds (min 30000 (1000 * 2 ^ (attempt - 1))) random low high h

-- Whatever the failures, the frame rate and the time that the cycle took, the next one is set within
-- half a minute; and after a failure it waits for half a second or more.
delay_bounds :
    (failures random max_fps spent : ℕ)
    → random < random_scale
    → (delay_ms failures random max_fps spent ≤ 30000)
      × (500 ≤ delay_ms (failures + 1) random max_fps spent)
unfolding delay_ms
delay_bounds failures random max_fps spent h =
    let later = backoff_bounds (failures + 1) random h in
    let waits : ltb 0 (failures + 1) ≡ true = ground arith in
    (
      if_holds (λ d. d ≤ 30000) (ltb 0 failures) _ _ (λ e. (backoff_bounds failures random h).1)
          (λ e. omega (arith, div-le_self 1000 (max 1 max_fps))),
      rw waits later.0,
    )
