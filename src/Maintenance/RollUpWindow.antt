-- ===== src/Maintenance/RollUpWindow.antt =====
-- One roll-up: the buckets of its window are counted from the events, and no other bucket changes.
use project.Base.{
  Bool-cases, List, any-select, any_witness, ap, arith, count, count-select, false, inl, inr, leb,
  max, not, select, sym, true, ℕ, ◌&&◌, ◌+◌, ◌<◌, ◌∙◌, ◌≡◌, ◌≤◌,
}
use project.Hub.{Event}
use project.Maintenance.Retention.{hour_ms, start_of_hour}
use project.Maintenance.RollUp.{
  Bucket, EventRollup, bucket_of, groups, hour_end, in_window, window_end,
}
use project.Maintenance.RollUpLaws.{bucket_eq_iff, counted, counted-groups, has, has-groups, is_in}

pub start_of_hour_le : (t : ℕ) → (start_of_hour t ≤ t) × (t < start_of_hour t + hour_ms)
unfolding start_of_hour
start_of_hour_le t = (omega arith, omega arith)

abbrev pub IsWhole : ℕ → Type 0
IsWhole t = start_of_hour t ≡ t

pub start_of_hour-IsWhole : (t : ℕ) → IsWhole (start_of_hour t)
unfolding start_of_hour
start_of_hour-IsWhole t = omega arith

pub hour_end-IsWhole : (b : Bucket) → IsWhole b.hour → IsWhole (hour_end b)
unfolding start_of_hour
hour_end-IsWhole b w = omega arith

pub hour_end_le :
    (b : Bucket) (m n : ℕ) → IsWhole b.hour → IsWhole n → b.hour < n → hour_end b ≤ max m n
unfolding start_of_hour
hour_end_le b m n w v h = omega arith

pub window_end-IsWhole :
    (from current : ℕ) → IsWhole from → IsWhole current → IsWhole (window_end from current)
unfolding start_of_hour window_end
window_end-IsWhole from current w v = omega arith

-- A time is at or past a whole hour exactly if its hour is.
pub leb-start_of_hour : (n t : ℕ) → IsWhole n → leb n (start_of_hour t) ≡ leb n t
unfolding start_of_hour
leb-start_of_hour n t w = ground arith

-- The hour of a bucket that holds an event.
pub is_in_hour : (b : Bucket) (e : Event) → is_in b e ≡ true → b.hour ≡ start_of_hour e.created_at
unfolding is_in bucket_of
is_in_hour b e h = ap (λ c. c.hour) ((bucket_eq_iff b (bucket_of e)).0 h)

-- The groups that the statement reads off the window.
abbrev pub found : ℕ → ℕ → List Event → List EventRollup
found from to events = groups (select (in_window from to) events)

module _ (from to : ℕ) (from-IsWhole : IsWhole from) (to-IsWhole : IsWhole to) where
  -- An event of a bucket is in the window exactly if the bucket's hour is.
  in_window-is_in :
      (b : Bucket) (e : Event)
      → is_in b e ≡ true
      → in_window from to e ≡ (leb from b.hour && not (leb to b.hour))
  unfolding in_window
  in_window-is_in b e h =
      rw
        (
          is_in_hour b e h,
          leb-start_of_hour from e.created_at from-IsWhole,
          leb-start_of_hour to e.created_at to-IsWhole,
        )
        (ground arith)

  pub counted-inside :
      (b : Bucket) (events : List Event)
      → from ≤ b.hour
      → b.hour < to
      → counted b (found from to events) ≡ count (is_in b) events
  counted-inside b events lo hi =
      counted-groups b (select (in_window from to) events)
      ∙ count-select (in_window from to) (is_in b) events
          (λ e h. in_window-is_in b e h ∙ ground arith)

  -- A bucket that was found is of the window.
  pub has-inside :
      (b : Bucket) (events : List Event)
      → has b (found from to events) ≡ true
      → (from ≤ b.hour) × (b.hour < to) × IsWhole b.hour
  has-inside b events h =
      let (e, both, _) =
        any_witness (λ x. in_window from to x && is_in b x) events
          (sym (any-select (in_window from to) (is_in b) events)
            ∙ sym (has-groups b (select (in_window from to) events))
            ∙ h) in
      let inside = in_window-is_in b e (ground (arith, both)) in
      (
        ground (arith, both, inside),
        ground (arith, both, inside),
        rw (is_in_hour b e (ground (arith, both))) (start_of_hour-IsWhole e.created_at),
      )

-- An event at or past a whole hour is in no bucket before it.
pub is_in-late :
    (n : ℕ) (b : Bucket) (e : Event) → IsWhole n → n ≤ e.created_at → b.hour < n → is_in b e ≡ false
is_in-late n b e w late h = elim (Bool-cases (is_in b e)) [
  | inl f ↦
      let hour = is_in_hour b e f in
      let same = leb-start_of_hour n e.created_at w in absurd (ground arith)
  | inr f ↦ f
]

-- An event is not before the hour of its bucket.
pub is_in-after :
    (n : ℕ) (b : Bucket) (e : Event)
    → leb n b.hour ≡ true
    → is_in b e ≡ true
    → leb n e.created_at ≡ true
is_in-after n b e h f =
    let hour = is_in_hour b e f in let start = (start_of_hour_le e.created_at).0 in ground arith
