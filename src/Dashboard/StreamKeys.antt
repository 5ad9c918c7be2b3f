-- ===== src/Dashboard/StreamKeys.antt =====
-- No source of a tile is shown twice: each is of a later attempt than those before.
use project.Base.{
  Bool, String, ap, arith, eq_string, eq_ℕ, false, if_holds, inl, inr, none, not, refl, some, sym,
  true, ℕ, ◌+◌, ◌<◌, ◌==◌, ◌||◌, ◌∙◌, ◌≡◌, ◌≤◌, ◌⊎◌,
}
use project.Dashboard.Stream.{
  Source, Tile, clear_timers, connect, enable, healthy, is_standby, mint_failed, minted,
  on_image_error, on_image_load, retry, retry_due, revive, run_effect, schedule_retry, stop,
  tear_down,
}
use project.Dashboard.StreamOnce.{attempt_of}
use project.Dashboard.StreamSteps.{
  TileStep, breaks, enables, heals, loads, mint_fails, mints, polls, retries, retries_due, revives,
  stops,
}

-- How a step moves the counter of attempts: never back, and on with every new source.
pub record IsLater (t t' : Tile) : Type 0 where
  pub mono : t.key ≤ t'.key
  pub fresh : (s : Source) → t'.src ≡ some s → (t.src ≡ some s) ⊎ (t.key < s.attempt)

-- A step that keeps the source, or drops it.
keeps-IsLater : (t t' : Tile) → t'.key ≡ t.key → t'.src ≡ t.src → IsLater t t'
keeps-IsLater t t' k e = record { mono = omega (arith, k); fresh = λ s h. inl (sym e ∙ h) }

drops-IsLater : (t t' : Tile) → t'.key ≡ t.key → t'.src ≡ none → IsLater t t'
drops-IsLater t t' k e = record {
  mono = omega (arith, k);
  fresh = λ s h. absurd (ground (arith, e, h));
}

same-IsLater : (t t' : Tile) → t'.key ≡ t.key → (t'.src ≡ t.src) ⊎ (t'.src ≡ none) → IsLater t t'
same-IsLater t t' k (inl e) = keeps-IsLater t t' k e
same-IsLater t t' k (inr e) = drops-IsLater t t' k e

connect-IsLater :
    (t u : Tile) (run : ℕ)
    → u.key ≡ t.key
    → (u.src ≡ t.src) ⊎ (u.src ≡ none)
    → IsLater t (connect run u)
unfolding connect
connect-IsLater t u run k e =
    if_holds (IsLater t) (not (u.run_id == run)) u _ (λ _. same-IsLater t u k e)
      (λ _.
        if_holds (IsLater t) (not u.streaming) _ _ (λ _. drops-IsLater t _ k refl)
          (λ _. same-IsLater t _ k e))

schedule_retry-IsLater :
    (t u : Tile) (run : ℕ) → u.key ≡ t.key → u.src ≡ t.src → IsLater t (schedule_retry run u)
unfolding schedule_retry clear_timers
schedule_retry-IsLater t u run k e =
    if_holds (IsLater t) (not (u.run_id == run)) u _ (λ _. keeps-IsLater t u k e)
      (λ _.
        if_holds (IsLater t) (not u.streaming) _ _ (λ _. drops-IsLater t _ k refl)
          (λ _. drops-IsLater t _ k refl))

minted-IsLater : (t : Tile) (run : ℕ) (ticket : String) → IsLater t (minted run ticket t)
unfolding minted
minted-IsLater t run ticket =
    if_holds (IsLater t) (not (t.run_id == run)) _ _ (λ _. keeps-IsLater t _ refl refl)
      (λ _. record {
        mono = omega arith;
        fresh = λ s h. inr (let own = ap attempt_of h in omega arith);
      })

mint_failed-IsLater :
    (t : Tile) (run : ℕ) (message : String) → IsLater t (mint_failed run message t)
unfolding mint_failed
mint_failed-IsLater t run message =
    if_holds (IsLater t) (not (t.run_id == run)) _ _ (λ _. keeps-IsLater t _ refl refl)
      (λ _. schedule_retry-IsLater t _ run refl refl)

effect-IsLater :
    (t u : Tile) (wanted : Bool)
    → u.key ≡ t.key
    → (u.src ≡ t.src) ⊎ (u.src ≡ none)
    → IsLater t (run_effect wanted u)
unfolding run_effect clear_timers
effect-IsLater t u true k e = connect-IsLater t _ (u.run_id + 1) k e
effect-IsLater t u false k e = drops-IsLater t _ k refl

enable-IsLater : (t : Tile) (wanted : Bool) → IsLater t (enable wanted t)
unfolding enable tear_down clear_timers
enable-IsLater t wanted =
    if_holds (λ u. IsLater t (run_effect wanted u)) t.enabled (tear_down t) t
      (λ _. effect-IsLater t (tear_down t) wanted refl (inr refl))
      (λ _. effect-IsLater t t wanted refl (inl refl))

-- No source is shown twice: in every step of a tile the counter of attempts does not go back, and a
-- source that was not shown before is of an attempt past all those before.
step-IsLater : (t t' : Tile) → TileStep t t' → IsLater t t'
step-IsLater t t' (enables wanted) = enable-IsLater t wanted
step-IsLater t t' (polls streaming) = keeps-IsLater t _ refl refl
step-IsLater t t' revives =
    unfold revive in
    if_holds (IsLater t) (not t.enabled || (not t.streaming || not (is_standby t.state))) t _
      (λ _. keeps-IsLater t t refl refl) (λ _. connect-IsLater t _ t.run_id refl (inl refl))
step-IsLater t t' (mints run ticket e) = minted-IsLater t run ticket
step-IsLater t t' (mint_fails run message e) = mint_failed-IsLater t run message
step-IsLater t t' (retries_due run e) = unfold retry_due in connect-IsLater t _ run refl (inl refl)
step-IsLater t t' (heals run e) =
    unfold healthy in
    if_holds (IsLater t) (t.run_id == run) _ _ (λ _. keeps-IsLater t _ refl refl)
      (λ _. keeps-IsLater t _ refl refl)
step-IsLater t t' (breaks e) =
    unfold on_image_error in schedule_retry-IsLater t t t.run_id refl refl
step-IsLater t t' (loads now e) =
    unfold on_image_load in
    if_holds (IsLater t) (not (t.first_load_at == 0)) _ _ (λ _. keeps-IsLater t _ refl refl)
      (λ _. keeps-IsLater t _ refl refl)
step-IsLater t t' (retries e) =
    unfold retry clear_timers in connect-IsLater t _ (t.run_id + 1) refl (inl refl)
step-IsLater t t' stops = unfold stop clear_timers in drops-IsLater t _ refl refl
