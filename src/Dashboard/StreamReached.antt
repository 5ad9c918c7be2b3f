-- ===== src/Dashboard/StreamReached.antt =====
-- A tile's connection, in every state that can be reached.
use project.Base.{
  Bool, Option, arith, count, eq_option, eq_string, eq_ℕ, false, if_holds, if◌then◌else◌, is_some,
  none, not, refl, some, true, ℕ, ◌+◌, ◌<◌, ◌==◌, ◌||◌, ◌≡◌,
}
use project.Dashboard.Stream.{
  Tile, clear_timers, enable, is_standby, mounted, on_image_error, on_image_load, playing, retry,
  revive, run_effect, stop, tear_down,
}
use project.Dashboard.StreamLive.{
  IsSound, connect-IsSound, is_run, no_source, schedule_retry-IsSound, shown-IsLost,
}
use project.Dashboard.StreamOnce.{
  healthy-IsSound, mint_failed-IsSound, minted-IsSound, retry_due-IsSound,
}
use project.Dashboard.StreamSteps.{
  TileReached, TileStep, breaks, enables, goes_on, has_failed, heals, loads, mint_fails, mints,
  mounts, polls, retries, retries_due, revives, stops,
}

-- A change that touches neither the connection nor its generation.
kept-IsSound :
    (t : Tile) (attempts first_load_at : ℕ) (health : Option ℕ) (streaming : Bool)
    → IsSound t
    → IsSound (record t {
      attempts = attempts;
      first_load_at = first_load_at;
      health_timer = health;
      streaming = streaming;
    })
kept-IsSound t attempts first_load_at health streaming i = record {
  timer = i.timer;
  one = i.one;
  shown = i.shown;
  past = i.past;
  off = i.off;
  keyed = i.keyed;
  own = i.own;
}

stop-IsSound : (t : Tile) → IsSound t → IsSound (stop t)
unfolding stop clear_timers
stop-IsSound t i = record {
  timer = refl;
  one = ground (arith, i.past (t.run_id + 1) (omega arith));
  shown = λ h. absurd (ground arith);
  past = λ r h. i.past r (omega arith);
  off = λ h. refl;
  keyed = i.keyed;
  own = λ s h. absurd (ground arith);
}

-- What the effect needs of the tile that it starts from.
record IsFresh (t : Tile) : Type 0 where
  timer : t.timer ≡ none
  blank : t.src ≡ none
  past : (r : ℕ) → t.run_id < r → count (is_run r) t.minting ≡ 0
  keyed : t.attempt_key ≡ t.key

tear_down-IsFresh : (t : Tile) → IsSound t → IsFresh (tear_down t)
unfolding tear_down clear_timers
tear_down-IsFresh t i = record {
  timer = refl;
  blank = refl;
  past = λ r h. i.past r (omega arith);
  keyed = i.keyed;
}

off-IsFresh : (t : Tile) → IsSound t → t.enabled ≡ false → IsFresh t
off-IsFresh t i off = record {
  timer = ground (arith, i.timer, i.off);
  blank = no_source t.src (ground (arith, i.one, i.off));
  past = i.past;
  keyed = i.keyed;
}

run_effect-IsSound : (t : Tile) (wanted : Bool) → IsFresh t → IsSound (run_effect wanted t)
unfolding run_effect clear_timers
run_effect-IsSound t true f =
    connect-IsSound (record t { run_id = t.run_id + 1; enabled = true; attempts = 0 })
      (record {
        timer = f.timer;
        blank = f.blank;
        none_minting = f.past (t.run_id + 1) (omega arith);
        past = λ r h. f.past r (omega arith);
        on = refl;
        keyed = f.keyed;
      })
run_effect-IsSound t false f = record {
  timer = refl;
  one = ground (arith, f.past (t.run_id + 1) (omega arith));
  shown = λ h. absurd (ground arith);
  past = λ r h. f.past r (omega arith);
  off = λ h. refl;
  keyed = f.keyed;
  own = λ s h. absurd (ground arith);
}

enable-IsSound : (t : Tile) (wanted : Bool) → IsSound t → IsSound (enable wanted t)
unfolding enable
enable-IsSound t wanted i = run_effect-IsSound (if t.enabled then tear_down t else t) wanted (
    if_holds IsFresh t.enabled (tear_down t) t (λ _. tear_down-IsFresh t i)
      (λ e. off-IsFresh t i e))

revive-IsSound : (t : Tile) → IsSound t → IsSound (revive t)
unfolding revive
revive-IsSound t i =
    if_holds IsSound (not t.enabled || (not t.streaming || not (is_standby t.state))) t _ (λ e. i)
      (λ e.
        connect-IsSound (record t { attempts = 0 })
          (record {
            timer = ground (arith, i.timer);
            blank = no_source t.src (ground (arith, i.one));
            none_minting = ground (arith, i.one);
            past = i.past;
            on = ground arith;
            keyed = i.keyed;
          }))

retry-IsSound : (t : Tile) → IsSound t → has_failed t.state ≡ true → IsSound (retry t)
unfolding retry clear_timers
retry-IsSound t i e =
    connect-IsSound
      (record t { attempts = 0; timer = none; health_timer = none; run_id = t.run_id + 1 })
      (record {
        timer = refl;
        blank = no_source t.src (ground (arith, i.one));
        none_minting = i.past (t.run_id + 1) (omega arith);
        past = λ r h. i.past r (omega arith);
        on = ground (arith, i.off);
        keyed = i.keyed;
      })

on_image_error-IsSound : (t : Tile) → IsSound t → is_some t.src ≡ true → IsSound (on_image_error t)
unfolding on_image_error
on_image_error-IsSound t i e =
    schedule_retry-IsSound t (shown-IsLost t i (ground (arith, i.off, i.one)) e)

shown-IsSound :
    (t : Tile) (first_load_at : ℕ) (health : Option ℕ)
    → IsSound t
    → is_some t.src ≡ true
    → IsSound (record t { state = playing; first_load_at = first_load_at; health_timer = health })
shown-IsSound t first_load_at health i e = record {
  timer = ground (arith, i.timer, i.one);
  one = ground (arith, i.one);
  shown = λ h. ground arith;
  past = i.past;
  off = λ h. absurd (ground (arith, i.off, i.one));
  keyed = i.keyed;
  own = i.own;
}

on_image_load-IsSound :
    (t : Tile) (now : ℕ) → IsSound t → is_some t.src ≡ true → IsSound (on_image_load now t)
unfolding on_image_load
on_image_load-IsSound t now i e =
    if_holds IsSound (not (t.first_load_at == 0)) _ _
      (λ _. shown-IsSound t t.first_load_at t.health_timer i e)
      (λ _. shown-IsSound t now (some t.run_id) i e)

step-IsSound : (t t' : Tile) → TileStep t t' → IsSound t → IsSound t'
step-IsSound t t' (enables wanted) i = enable-IsSound t wanted i
step-IsSound t t' (polls streaming) i =
    kept-IsSound t t.attempts t.first_load_at t.health_timer streaming i
step-IsSound t t' revives i = revive-IsSound t i
step-IsSound t t' (mints run ticket e) i = minted-IsSound t run ticket i e
step-IsSound t t' (mint_fails run message e) i = mint_failed-IsSound t run message i e
step-IsSound t t' (retries_due run e) i = retry_due-IsSound t run i e
step-IsSound t t' (heals run e) i = healthy-IsSound t run i
step-IsSound t t' (breaks e) i = on_image_error-IsSound t i e
step-IsSound t t' (loads now e) i = on_image_load-IsSound t now i e
step-IsSound t t' (retries e) i = retry-IsSound t i e
step-IsSound t t' stops i = stop-IsSound t i

mounted-IsSound : (streaming : Bool) → IsSound (mounted streaming)
unfolding mounted
mounted-IsSound streaming = record {
  timer = refl;
  one = unfold count in refl;
  shown = λ h. absurd (ground arith);
  past = λ r h. unfold count in refl;
  off = λ h. refl;
  keyed = refl;
  own = λ s h. absurd (ground arith);
}

-- In every state that a tile reaches: it waits or has failed exactly while a timer of its present
-- generation is set to connect it again; it has one attempt, a ticket request or a picture, while it
-- connects or plays, and none otherwise; and the picture it shows is that of its latest attempt.
pub reached-IsSound : (t : Tile) → TileReached t → IsSound t
reached-IsSound t (mounts streaming) = mounted-IsSound streaming
reached-IsSound t (goes_on t0 t1 r s) = step-IsSound t0 t1 s (reached-IsSound t0 r)
