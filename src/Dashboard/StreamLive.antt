-- ===== src/Dashboard/StreamLive.antt =====
-- A tile's connection: one attempt at a time, and always another after a failure.
use project.Base.{
  ==_refl, Bool, List, Option, [], arith, count, eq_option, eq_string, eq_ℕ, false, if_holds,
  if◌then◌else◌, is_some, none, not, refl, some, true, ℕ, ◌+◌, ◌-◌, ◌<◌, ◌==◌, ◌∷◌, ◌≡◌,
}
use project.Dashboard.Stream.{
  Source, StreamState, Tile, clear_timers, connect, connecting, schedule_retry, settle, standby,
}

abbrev pub is_run : ℕ → ℕ → Bool
is_run run r = r == run

abbrev pub has_source : Option Source → ℕ
has_source none = 0
has_source (some s) = 1

-- Whether a state waits for a timer, shows a picture, or is switched off.
abbrev pub is_retrying : StreamState → Bool
is_retrying StreamState.waiting = true
is_retrying StreamState.failed = true
is_retrying _ = false

abbrev pub is_playing : StreamState → Bool
is_playing StreamState.playing = true
is_playing _ = false

abbrev pub is_idle : StreamState → Bool
is_idle StreamState.idle = true
is_idle _ = false

-- How many attempts a state stands for: a ticket request of this generation, or a source.
abbrev pub live_attempts : StreamState → ℕ
live_attempts StreamState.connecting = 1
live_attempts StreamState.playing = 1
live_attempts _ = 0

abbrev pub retry_timer : StreamState → ℕ → Option ℕ
retry_timer state run = if is_retrying state then some run else none

pub record IsSound (t : Tile) : Type 0 where
  pub timer : t.timer ≡ retry_timer t.state t.run_id
  pub one : count (is_run t.run_id) t.minting + has_source t.src ≡ live_attempts t.state
  pub shown : is_playing t.state ≡ true → has_source t.src ≡ 1
  pub past : (r : ℕ) → t.run_id < r → count (is_run r) t.minting ≡ 0
  pub off : t.enabled ≡ false → is_idle t.state ≡ true
  pub keyed : t.attempt_key ≡ t.key
  pub own : (s : Source) → t.src ≡ some s → s.attempt ≡ t.key

pub count-settle :
    (run r : ℕ) (rs : List ℕ)
    → count (is_run r) (settle run rs)
      ≡ (if run == r then count (is_run r) rs - 1 else count (is_run r) rs)
unfolding count settle
count-settle run r [] = ground arith
count-settle run r (q ∷ rs) = ground (arith, count-settle run r rs)

-- What `connect` needs of a tile with nothing outstanding.
pub record IsClear (t : Tile) : Type 0 where
  pub timer : t.timer ≡ none
  pub blank : t.src ≡ none
  pub none_minting : count (is_run t.run_id) t.minting ≡ 0
  pub past : (r : ℕ) → t.run_id < r → count (is_run r) t.minting ≡ 0
  pub on : t.enabled ≡ true
  pub keyed : t.attempt_key ≡ t.key

pub no_source : (o : Option Source) → has_source o ≡ 0 → o ≡ none
no_source none e = refl
no_source (some s) e = absurd (ground arith)

pub connecting-IsSound :
    (t : Tile)
    → IsClear t
    → IsSound (record t { state = connecting; error = none; minting = t.run_id ∷ t.minting })
unfolding count
connecting-IsSound t c = record {
  timer = c.timer;
  one = rw c.blank (ground (arith, c.none_minting));
  shown = λ h. absurd (ground arith);
  past = λ r h. ground (arith, c.past r h);
  off = λ h. absurd (ground (arith, c.on));
  keyed = c.keyed;
  own = λ s h. absurd (ground (arith, c.blank));
}

pub standby-IsSound : (t : Tile) → IsClear t → IsSound (record t { state = standby; src = none })
standby-IsSound t c = record {
  timer = c.timer;
  one = ground (arith, c.none_minting);
  shown = λ h. absurd (ground arith);
  past = c.past;
  off = λ h. absurd (ground (arith, c.on));
  keyed = c.keyed;
  own = λ s h. absurd (ground arith);
}

pub connect-IsSound : (t : Tile) → IsClear t → IsSound (connect t.run_id t)
unfolding connect
connect-IsSound t c =
    if_holds IsSound (not (t.run_id == t.run_id)) t _
      (λ e. absurd (ground (arith, ==_refl t.run_id)))
      (λ _.
        if_holds IsSound (not t.streaming) _ _ (λ _. standby-IsSound t c)
          (λ _. connecting-IsSound t c))

-- What a failed attempt leaves: nothing outstanding of this generation.
pub record IsLost (t : Tile) : Type 0 where
  pub none_minting : count (is_run t.run_id) t.minting ≡ 0
  pub past : (r : ℕ) → t.run_id < r → count (is_run r) t.minting ≡ 0
  pub on : t.enabled ≡ true
  pub keyed : t.attempt_key ≡ t.key

waits-IsSound :
    (t : Tile) (state : StreamState)
    → is_retrying state ≡ true
    → IsLost t
    → IsSound (record (clear_timers (record t { src = none })) {
      attempts = t.attempts + 1;
      state = state;
      timer = some t.run_id;
    })
unfolding clear_timers
waits-IsSound t state e l = record {
  timer = rw e refl;
  one = ground (arith, l.none_minting);
  shown = λ h. absurd (ground arith);
  past = l.past;
  off = λ h. absurd (ground (arith, l.on));
  keyed = l.keyed;
  own = λ s h. absurd (ground arith);
}

parks-IsSound :
    (t : Tile)
    → IsLost t
    → IsSound (record (clear_timers (record t { src = none })) { state = standby })
unfolding clear_timers
parks-IsSound t l = record {
  timer = refl;
  one = ground (arith, l.none_minting);
  shown = λ h. absurd (ground arith);
  past = l.past;
  off = λ h. absurd (ground (arith, l.on));
  keyed = l.keyed;
  own = λ s h. absurd (ground arith);
}

pub schedule_retry-IsSound : (t : Tile) → IsLost t → IsSound (schedule_retry t.run_id t)
unfolding schedule_retry
schedule_retry-IsSound t l =
    if_holds IsSound (not (t.run_id == t.run_id)) t _
      (λ e. absurd (ground (arith, ==_refl t.run_id)))
      (λ _.
        if_holds IsSound (not t.streaming) _ _ (λ _. parks-IsSound t l)
          (λ _. waits-IsSound t _ (ground arith) l))

-- Nothing is outstanding while a tile waits, is parked or is off.
pub unwanted-IsClear :
    (t : Tile)
    → IsSound t
    → t.enabled ≡ true
    → (none_left : t.timer ≡ none) → live_attempts t.state ≡ 0
    → IsClear t
unwanted-IsClear t i on none_left e = record {
  timer = none_left;
  blank = no_source t.src (omega (arith, i.one));
  none_minting = omega (arith, i.one);
  past = i.past;
  on = on;
  keyed = i.keyed;
}

-- A source excludes a request.
pub shown-IsLost : (t : Tile) → IsSound t → t.enabled ≡ true → is_some t.src ≡ true → IsLost t
shown-IsLost t i on e = record {
  none_minting = ground (arith, i.one);
  past = i.past;
  on = on;
  keyed = i.keyed;
}
