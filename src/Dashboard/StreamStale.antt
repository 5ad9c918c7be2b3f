-- ===== src/Dashboard/StreamStale.antt =====
-- What a stale attempt cannot do: bring back a tile that was stopped, or show an old source again.
use project.Base.{
  ==_iff, Bool, Bool-cases, List, [], any, any_of_count-eq-zero, ap, arith, eq_string, eq_ℕ, false,
  if_holds, inl, inr, none, not, refl, true, ℕ, ◌+◌, ◌==◌, ◌||◌, ◌∷◌, ◌≡◌,
}
use project.Dashboard.Stream.{
  StreamState, Tile, clear_timers, healthy, is_standby, mint_failed, minted, revive, settle, stop,
}
use project.Dashboard.StreamLive.{IsSound, is_run}
use project.Dashboard.StreamReached.{reached-IsSound}
use project.Dashboard.StreamSteps.{
  TileReached, TileStep, breaks, enables, goes_on, heals, loads, mint_fails, mints, polls, retries,
  retries_due, revives, stops,
}

-- Every step but the effect on `agentId` and `enabled`.
abbrev pub is_event : {t t' : Tile} → TileStep t t' → Bool
is_event (enables wanted) = false
is_event _ = true

-- A tile without connection: no timer, no source, and no request of this generation.
pub record IsStopped (t : Tile) : Type 0 where
  pub state : t.state ≡ StreamState.idle
  pub src : t.src ≡ none
  pub timer : t.timer ≡ none
  pub none_minting : any (λ r. r == t.run_id) t.minting ≡ false

-- A tile that is stopped is without connection.
stop-IsStopped : (t : Tile) → IsSound t → IsStopped (stop t)
unfolding stop clear_timers
stop-IsStopped t i = record {
  state = refl;
  src = refl;
  timer = refl;
  none_minting =
      any_of_count-eq-zero (is_run (t.run_id + 1)) t.minting (i.past (t.run_id + 1) (omega arith));
}

any-settle :
    (run r : ℕ) (rs : List ℕ)
    → any (λ q. q == r) rs ≡ false
    → any (λ q. q == r) (settle run rs) ≡ false
unfolding any settle
any-settle run r [] e = refl
any-settle run r (q ∷ rs) e = ground (arith, any-settle run r rs)

-- A request of a generation that is over.
other_run :
    (t : Tile) (run : ℕ)
    → IsStopped t
    → any (λ r. r == run) t.minting ≡ true
    → (t.run_id == run) ≡ false
other_run t run i e = elim (Bool-cases (t.run_id == run)) [
  | inl same ↦ absurd (
      ground (
        arith,
        (ap (λ r. any (λ q. q == r) t.minting) ((==_iff t.run_id run).0 same)),
        i.none_minting,
      ))
  | inr other ↦ other
]

settles-IsStopped :
    (t : Tile) (run : ℕ) → IsStopped t → IsStopped (record t { minting = settle run t.minting })
settles-IsStopped t run i = record {
  state = i.state;
  src = i.src;
  timer = i.timer;
  none_minting = any-settle run t.run_id t.minting i.none_minting;
}

step-IsStopped :
    (t t' : Tile) → IsSound t → (s : TileStep t t') → is_event s ≡ true → IsStopped t → IsStopped t'
step-IsStopped t t' u (enables wanted) h i = absurd (ground arith)
step-IsStopped t t' u (polls streaming) h i = (record {
  state = i.state;
  src = i.src;
  timer = i.timer;
  none_minting = i.none_minting;
})
step-IsStopped t t' u revives h i =
    (unfold revive in
      if_holds IsStopped (not t.enabled || (not t.streaming || not (is_standby t.state))) t _
        (λ _. i) (λ e. absurd (ground (arith, i.state))))
step-IsStopped t t' u (mints run ticket e) h i =
    (unfold minted in
      if_holds IsStopped (not (t.run_id == run)) _ _ (λ _. settles-IsStopped t run i)
        (λ same. absurd (ground (arith, other_run t run i e))))
step-IsStopped t t' u (mint_fails run message e) h i =
    (unfold mint_failed in
      if_holds IsStopped (not (t.run_id == run)) _ _ (λ _. settles-IsStopped t run i)
        (λ same. absurd (ground (arith, other_run t run i e))))
step-IsStopped t t' u (retries_due run e) h i = absurd (ground (arith, i.timer))
step-IsStopped t t' u (heals run e) h i =
    (unfold healthy in
      if_holds IsStopped (t.run_id == run) _ _
        (λ _. record {
          state = i.state;
          src = i.src;
          timer = i.timer;
          none_minting = i.none_minting;
        })
        (λ _. record {
          state = i.state;
          src = i.src;
          timer = i.timer;
          none_minting = i.none_minting;
        }))
step-IsStopped t t' u (breaks e) h i = absurd (ground (arith, i.src))
step-IsStopped t t' u (loads now e) h i = absurd (ground (arith, i.src))
step-IsStopped t t' u (retries e) h i = absurd (ground (arith, i.state))
step-IsStopped t t' u stops h i = stop-IsStopped t u

-- What follows a tile without being told to enable it.
pub data Follows (t : Tile) : Tile → Type 0 where
  here : Follows t t
  onward :
      (t' t'' : Tile) → Follows t t' → (s : TileStep t' t'') → is_event s ≡ true → Follows t t''

Follows-TileReached : (t t' : Tile) → TileReached t → Follows t t' → TileReached t'
Follows-TileReached t t' r here = r
Follows-TileReached t t' r (onward t1 t2 f s n) = goes_on t1 t2 (Follows-TileReached t t1 r f) s

-- A tile that is stopped stays idle, without a source, a timer or a request of its own, through
-- whatever tickets, failures, timers, polls and image events still come, until it is enabled anew.
stop_stays : (t t' : Tile) → TileReached t → Follows (stop t) t' → IsStopped t'
stop_stays t t' r here = stop-IsStopped t (reached-IsSound t r)
stop_stays t t' r (onward t1 t2 f s n) =
    let again = Follows-TileReached (stop t) t1 (goes_on t (stop t) r stops) f in
    step-IsStopped t1 t2 (reached-IsSound t1 again) s n (stop_stays t t1 r f)
