-- ===== src/Maintenance/RollUpCounted.antt =====
-- What one roll-up leaves behind, wherever it starts.
use project.Base.{
  Bool-cases, List, ap, arith, count, inl, inr, leb, leb→le, max, refl, sym, true, ℕ, ◌<◌, ◌∙◌, ◌≡◌,
  ◌≤◌, ◌⊎◌,
}
use project.Hub.{Event}
use project.Maintenance.RollUp.{
  Bucket, EventRollup, RolledUp, hour_end, insert_all, next_hour, window_end,
}
use project.Maintenance.RollUpLaws.{
  counted, counted-insert_all, counted_none, has, has-insert_all, has-next_hour, is_in,
  next_hour-cases,
}
use project.Maintenance.RollUpWindow.{
  IsWhole, counted-inside, found, has-inside, hour_end-IsWhole, hour_end_le, window_end-IsWhole,
}

pub record IsCounted (current : ℕ) (events : List Event) (rows : List EventRollup) (up : RolledUp)
    : Type 0 where
  -- The buckets before the watermark stay, and those up to the bound are the events' own.
  pub kept : (b : Bucket) → b.hour < next_hour rows → counted b up.rollups ≡ counted b rows
  pub covered :
      (b : Bucket)
      → next_hour rows ≤ b.hour
      → b.hour < up.rolled_through
      → counted b up.rollups ≡ count (is_in b) events
  -- The watermark moves forward, and not past the bound.
  pub ahead : next_hour rows ≤ next_hour up.rollups
  pub behind : next_hour up.rollups ≤ max (next_hour rows) up.rolled_through
  pub whole : IsWhole (next_hour up.rollups)
  pub in_time : up.rolled_through ≤ current

-- No event lies in an hour that is neither counted nor still to be counted.
abbrev pub IsEmptyFrom : ℕ → ℕ → List Event → Type 0
IsEmptyFrom lo hi events = (b : Bucket) → lo ≤ b.hour → b.hour < hi → count (is_in b) events ≡ 0

-- A bucket at or past the watermark is not in the table.
pub counted_ahead :
    (b : Bucket) (rows : List EventRollup) → next_hour rows ≤ b.hour → counted b rows ≡ 0
counted_ahead b rows h = elim (Bool-cases (has b rows)) [
  | inl e ↦ let past = has-next_hour b rows e in absurd (omega arith)
  | inr e ↦ counted_none b rows e
]

module _ (current : ℕ) (events : List Event) (rows : List EventRollup) where
  pub unchanged-IsCounted :
      (up : RolledUp)
      → up.rollups ≡ rows
      → up.rolled_through ≡ current
      → IsWhole (next_hour rows)
      → IsEmptyFrom (next_hour rows) current events
      → IsCounted current events rows up
  unchanged-IsCounted up same through w empty = record {
    kept = λ b h. rw same refl;
    covered =
        λ b lo hi. rw same (counted_ahead b rows lo) ∙ sym (empty b lo (omega (arith, through)));
    ahead = rw same (omega arith);
    behind = rw same (omega arith);
    whole = rw same w;
    in_time = omega (arith, through);
  }

  -- The window itself, from an hour that is not before the watermark.
  module _ (from : ℕ) (w : IsWhole (next_hour rows)) (from-IsWhole : IsWhole from)
      (current-IsWhole : IsWhole current) (starts : next_hour rows ≤ from) (runs : from < current)
      (empty : IsEmptyFrom (next_hour rows) from events) where
    window-IsWhole : IsWhole (window_end from current)
    window-IsWhole = window_end-IsWhole from current from-IsWhole current-IsWhole

    abbrev filled : List EventRollup
    filled = insert_all (found from (window_end from current) events) rows

    -- A bucket of the new table was there, or lies in the window.
    has-filled :
        (b : Bucket)
        → has b filled ≡ true
        → (has b rows ≡ true)
          ⊎ ((from ≤ b.hour) × (b.hour < window_end from current) × IsWhole b.hour)
    has-filled b h = elim (Bool-cases (has b (found from (window_end from current) events))) [
      | inl e ↦
          inr (has-inside from (window_end from current) from-IsWhole window-IsWhole b events e)
      | inr e ↦ inl (
          ground (arith, h, e, has-insert_all b (found from (window_end from current) events) rows))
    ]

    filled-kept : (b : Bucket) → b.hour < next_hour rows → counted b filled ≡ counted b rows
    filled-kept b h =
        counted-insert_all b (found from (window_end from current) events) rows
        ∙ elim (Bool-cases (has b (found from (window_end from current) events))) [
          | inl e ↦
              let inside =
                has-inside from (window_end from current) from-IsWhole window-IsWhole b events e in
              absurd (omega (arith, inside.0))
          | inr e ↦ rw e refl
        ]

    found-covered :
        (b : Bucket)
        → next_hour rows ≤ b.hour
        → b.hour < window_end from current
        → counted b (found from (window_end from current) events) ≡ count (is_in b) events
    found-covered b lo hi = elim (Bool-cases (leb from b.hour)) [
      | inl e ↦
          counted-inside from (window_end from current) from-IsWhole window-IsWhole b events
            (leb→le from b.hour e) hi
      | inr e ↦ elim (Bool-cases (has b (found from (window_end from current) events))) [
        | inl f ↦
            let inside =
              has-inside from (window_end from current) from-IsWhole window-IsWhole b events f in
            let before = inside.0 in absurd (ground arith)
        | inr f ↦
            counted_none b (found from (window_end from current) events) f
            ∙ sym (empty b lo (ground arith))
      ]
    ]

    filled-covered :
        (b : Bucket)
        → next_hour rows ≤ b.hour
        → b.hour < window_end from current
        → counted b filled ≡ count (is_in b) events
    filled-covered b lo hi =
        counted-insert_all b (found from (window_end from current) events) rows
        ∙ elim (Bool-cases (has b (found from (window_end from current) events))) [
          | inl e ↦ rw e refl ∙ found-covered b lo hi
          | inr e ↦
              rw e refl
              ∙ counted_ahead b rows lo
              ∙ sym (counted_none b (found from (window_end from current) events) e)
              ∙ found-covered b lo hi
        ]

    filled-ahead : next_hour rows ≤ next_hour filled
    filled-ahead = elim (next_hour-cases rows) [
      | inl z ↦ omega arith
      | inr (b, h, same) ↦
          let past = has-next_hour b filled (
            has-insert_all b (found from (window_end from current) events) rows
            ∙ rw h (ground arith)) in
          omega arith
    ]

    -- The new watermark is the old one, or the end of a bucket of the window.
    filled-end :
        (next_hour filled ≡ next_hour rows)
        ⊎ ((b : Bucket) × (next_hour filled ≡ hour_end b)
            × (b.hour < window_end from current)
            × IsWhole b.hour)
    filled-end = elim (next_hour-cases filled) [
      | inl z ↦ inl (let ahead = filled-ahead in omega arith)
      | inr (b, h, same) ↦ elim (has-filled b h) [
        | inl old ↦
            let ahead = filled-ahead in let past = has-next_hour b rows old in inl (omega arith)
        | inr (lo, hi, b-IsWhole) ↦ inr (b, same, hi, b-IsWhole)
      ]
    ]

    filled-behind : next_hour filled ≤ max (next_hour rows) (window_end from current)
    filled-behind = elim filled-end [
      | inl same ↦ omega arith
      | inr (b, same, hi, b-IsWhole) ↦
          rw same
            (hour_end_le b (next_hour rows) (window_end from current) b-IsWhole window-IsWhole hi)
    ]

    filled-IsWhole : IsWhole (next_hour filled)
    filled-IsWhole = elim filled-end [
      | inl same ↦ rw same w
      | inr (b, same, hi, b-IsWhole) ↦ rw same (hour_end-IsWhole b b-IsWhole)
    ]

    pub filled-IsCounted :
        (up : RolledUp)
        → up.rollups ≡ filled
        → up.rolled_through ≡ window_end from current
        → IsCounted current events rows up
    filled-IsCounted up same through = record {
      kept = λ b h. ap (counted b) same ∙ filled-kept b h;
      covered = λ b lo hi. ap (counted b) same ∙ filled-covered b lo (omega (arith, through));
      ahead = rw same filled-ahead;
      behind = rw (same, through) filled-behind;
      whole = rw same filled-IsWhole;
      in_time = unfold window_end in omega (arith, through);
    }
