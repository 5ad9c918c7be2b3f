-- ===== src/Dashboard/StreamOnce.antt =====
-- Every step of a tile keeps what is known of it.
use project.Base.{
  ==_iff, Option, String, any, any_of_count-eq-zero, ap, arith, count, eq_option, eq_string, eq_ℕ,
  false, if_holds, none, not, refl, some, sym, true, ℕ, ◌<◌, ◌==◌, ◌≡◌,
}
use project.Dashboard.Stream.{
  Source, Tile, healthy, mint_failed, minted, retry_due, schedule_retry, settle,
}
use project.Dashboard.StreamLive.{
  IsSound, connect-IsSound, count-settle, has_source, is_playing, is_run, live_attempts, no_source,
  schedule_retry-IsSound,
}

-- A request of this generation excludes a source, and a tile that is switched off.
asking :
    (t : Tile)
    → IsSound t
    → any (λ r. r == t.run_id) t.minting ≡ true
    → (count (is_run t.run_id) t.minting ≡ 1)
      × (has_source t.src ≡ 0)
      × (live_attempts t.state ≡ 1)
      × (is_playing t.state ≡ false)
      × (t.enabled ≡ true)
asking t i e =
    let some_request = any_of_count-eq-zero (is_run t.run_id) t.minting in
    let one = i.one in
    (
      ground (arith, some_request),
      ground (arith, some_request),
      ground (arith, some_request),
      ground (arith, some_request, i.shown),
      ground (arith, some_request, i.off),
    )

settled-past :
    (t : Tile) (run : ℕ)
    → IsSound t
    → (r : ℕ) → t.run_id < r
    → count (is_run r) (settle run t.minting) ≡ 0
settled-past t run i r h = ground (arith, count-settle run r t.minting, i.past r h)

stale-IsSound :
    (t : Tile) (run : ℕ)
    → IsSound t
    → (t.run_id == run) ≡ false
    → IsSound (record t { minting = settle run t.minting })
stale-IsSound t run i e = record {
  timer = i.timer;
  one = ground (arith, i.one, count-settle run t.run_id t.minting);
  shown = i.shown;
  past = settled-past t run i;
  off = i.off;
  keyed = i.keyed;
  own = i.own;
}

abbrev pub attempt_of : Option Source → ℕ
attempt_of none = 0
attempt_of (some s) = s.attempt

pub minted-IsSound :
    (t : Tile) (run : ℕ) (ticket : String)
    → IsSound t
    → any (λ r. r == run) t.minting ≡ true
    → IsSound (minted run ticket t)
unfolding minted
minted-IsSound t run ticket i e =
    if_holds IsSound (not (t.run_id == run)) _ _ (λ other. stale-IsSound t run i (ground arith))
      (λ same.
        let is_same = (==_iff t.run_id run).0 (ground arith) in
        let (single, blank, wants, not_playing, on) = asking t i (rw is_same e) in
        record {
          timer = i.timer;
          one = ground (arith, count-settle run t.run_id t.minting);
          shown = λ h. refl;
          past = settled-past t run i;
          off = i.off;
          keyed = refl;
          own = λ s h. ap attempt_of (sym h);
        })

lost_request :
    (t : Tile) (run : ℕ) (message : String)
    → IsSound t
    → t.run_id ≡ run
    → any (λ r. r == run) t.minting ≡ true
    → IsSound
        (schedule_retry run (record t { minting = settle run t.minting; error = some message }))
lost_request t run message i same e = rw (sym same) (
    let (single, blank, wants, not_playing, on) = asking t i (rw same e) in
    schedule_retry-IsSound (record t { minting = settle t.run_id t.minting; error = some message })
      (record {
        none_minting = ground (arith, count-settle t.run_id t.run_id t.minting);
        past = settled-past t t.run_id i;
        on = on;
        keyed = i.keyed;
      }))

pub mint_failed-IsSound :
    (t : Tile) (run : ℕ) (message : String)
    → IsSound t
    → any (λ r. r == run) t.minting ≡ true
    → IsSound (mint_failed run message t)
unfolding mint_failed
mint_failed-IsSound t run message i e =
    if_holds IsSound (not (t.run_id == run)) _ _ (λ other. stale-IsSound t run i (ground arith))
      (λ same.
        let is_same = (==_iff t.run_id run).0 (ground arith) in
        lost_request t run message i is_same e)

pub retry_due-IsSound :
    (t : Tile) (run : ℕ) → IsSound t → t.timer ≡ some run → IsSound (retry_due run t)
unfolding retry_due
retry_due-IsSound t run i e =
    let same : t.run_id ≡ run = ground (arith, i.timer) in
    rw (sym same) (
      connect-IsSound (record t { timer = none })
        (record {
          timer = refl;
          blank = no_source t.src (ground (arith, i.timer, i.one));
          none_minting = ground (arith, i.timer, i.one);
          past = i.past;
          on = ground (arith, i.timer, i.off);
          keyed = i.keyed;
        }))

pub healthy-IsSound : (t : Tile) (run : ℕ) → IsSound t → IsSound (healthy run t)
unfolding healthy
healthy-IsSound t run i =
    if_holds IsSound (t.run_id == run) _ _
      (λ e. record {
        timer = i.timer;
        one = i.one;
        shown = i.shown;
        past = i.past;
        off = i.off;
        keyed = i.keyed;
        own = i.own;
      })
      (λ e. record {
        timer = i.timer;
        one = i.one;
        shown = i.shown;
        past = i.past;
        off = i.off;
        keyed = i.keyed;
        own = i.own;
      })
