-- ===== src/Reports/Daily.antt =====
-- The daily series: one entry for each date of the window, with that date's events.
use project.Api.Trail.{entry}
use project.Base.{
  ==_iff, Bool, Bool-cases, List, String, [], all, any, any-snoc, ap, arith, count,
  count-append_one, eq_string, eq_ℕ, false, if_holds, if◌then◌else◌, inl, inr, refl, sym, true, ℕ,
  ◌++◌, ◌+◌, ◌==◌, ◌||◌, ◌∙◌, ◌∷◌, ◌≡◌,
}
use project.Reports.{DailyActivity, add_count, fill, group_sum, lookup_count, total_events}
use project.Reports.Sums.{sum_counts}

abbrev pub is_date : String → DailyActivity → Bool
is_date d entry = entry.date == d

abbrev pub listed : List String → String → Bool
listed ds d = any (λ x. x == d) ds

unfoldable pub sum_lookup : List DailyActivity → List (String × ℕ) → ℕ
sum_lookup [] rows = 0
sum_lookup (entry ∷ series) rows = lookup_count entry.date rows + sum_lookup series rows

here :
    (k d q : String) (n m x : ℕ)
    → q ≡ k
    → (if q == d then m + n else x) ≡ (if k == d then n else 0) + (if q == d then m else x)
here k d q n m x e = rw e (ground arith)

aside :
    (k d q : String) (n m x y : ℕ)
    → (q == k) ≡ false
    → x ≡ (if k == d then n else 0) + y
    → (if q == d then m else x) ≡ (if k == d then n else 0) + (if q == d then m else y)
aside k d q n m x y e h = elim (Bool-cases (q == d)) [
  | inl f ↦
      let same = (==_iff q d).0 f in
      let other : (k == d) ≡ false = rw (← same) (elim (Bool-cases (k == q)) [
        | inl g ↦ absurd (ground (arith, sym e ∙ (==_iff q k).1 (sym ((==_iff k q).0 g))))
        | inr g ↦ g
      ]) in
      rw (f, other) (omega arith)
  | inr f ↦ rw f h
]

module _ (k : String) (n : ℕ) where
  lookup-add_count :
      (d : String) (rows : List (String × ℕ))
      → lookup_count d (add_count k n rows) ≡ (if k == d then n else 0) + lookup_count d rows
  unfolding add_count lookup_count
  lookup-add_count d [] = ground arith
  lookup-add_count d ((q, m) ∷ rows) = elim (Bool-cases (q == k)) [
    | inl e ↦ let same = (==_iff q k).0 e in rw e (rw same (ground arith))
    | inr e ↦ rw e (aside k d q n m _ _ e (lookup-add_count d rows))
  ]

  not_here : (d : String) → (d == k) ≡ false → (k == d) ≡ false
  not_here d e = elim (Bool-cases (k == d)) [
    | inl f ↦ absurd (ground (arith, sym e ∙ (==_iff d k).1 (sym ((==_iff k d).0 f))))
    | inr f ↦ f
  ]

  lookup_aside :
      (d : String) (rows : List (String × ℕ))
      → (d == k) ≡ false
      → lookup_count d (add_count k n rows) ≡ lookup_count d rows
  lookup_aside d rows e = lookup-add_count d rows ∙ rw (not_here d e) (omega arith)

  lookup_here :
      (d : String) (rows : List (String × ℕ))
      → (d == k) ≡ true
      → lookup_count d (add_count k n rows) ≡ n + lookup_count d rows
  lookup_here d rows e = lookup-add_count d rows ∙ rw ((==_iff k d).1 (sym ((==_iff d k).0 e))) refl

  sum_lookup-absent :
      (series : List DailyActivity) (rows : List (String × ℕ))
      → count (is_date k) series ≡ 0
      → sum_lookup series (add_count k n rows) ≡ sum_lookup series rows
  unfolding sum_lookup count
  sum_lookup-absent [] rows e = refl
  sum_lookup-absent (entry ∷ series) rows e = elim (Bool-cases (entry.date == k)) [
    | inl f ↦ absurd (ground (arith, f))
    | inr f ↦
        omega (arith, lookup_aside entry.date rows f, sum_lookup-absent series rows (rw f at e))
  ]

  sum_lookup-present :
      (series : List DailyActivity) (rows : List (String × ℕ))
      → count (is_date k) series ≡ 1
      → sum_lookup series (add_count k n rows) ≡ n + sum_lookup series rows
  unfolding sum_lookup count
  sum_lookup-present [] rows e = absurd (ground arith)
  sum_lookup-present (entry ∷ series) rows e = elim (Bool-cases (entry.date == k)) [
    | inl f ↦
        let rest : count (is_date k) series ≡ 0 = ground (arith, f) in
        omega (arith, lookup_here entry.date rows f, sum_lookup-absent series rows rest)
    | inr f ↦
        omega (arith, lookup_aside entry.date rows f, sum_lookup-present series rows (rw f at e))
  ]

-- The dates of the rows are among those of the series.
abbrev pub all_listed : List String → List (String × ℕ) → Bool
all_listed ds rows = all (λ row. listed ds row.0) rows

module _ (series : List DailyActivity) (ds : List String)
    (once : (d : String) → count (is_date d) series ≡ (if listed ds d then 1 else 0)) where
  sum_lookup-nil : (s : List DailyActivity) → sum_lookup s [] ≡ 0
  unfolding sum_lookup lookup_count
  sum_lookup-nil [] = refl
  sum_lookup-nil (entry ∷ s) = omega (arith, sum_lookup-nil s)

  pub sum_lookup-group_sum :
      (rows : List (String × ℕ))
      → all_listed ds rows ≡ true
      → sum_lookup series (group_sum rows) ≡ sum_counts rows
  unfolding group_sum sum_counts all
  sum_lookup-group_sum [] e = sum_lookup-nil series
  sum_lookup-group_sum ((k, n) ∷ rows) e =
      let here : listed ds k ≡ true = ground (arith, e) in
      let rest : all_listed ds rows ≡ true = ground (arith, e) in
      sum_lookup-present k n series (group_sum rows) (once k ∙ rw here refl)
      ∙ ap (λ t. n + t) (sum_lookup-group_sum rows rest)

total_events-snoc :
    (series : List DailyActivity) (entry : DailyActivity)
    → total_events (series ++ entry ∷ []) ≡ total_events series + entry.events
unfolding total_events
total_events-snoc [] entry = omega arith
total_events-snoc (x ∷ series) entry = omega (arith, total_events-snoc series entry)

sum_lookup-snoc :
    (series : List DailyActivity) (entry : DailyActivity) (rows : List (String × ℕ))
    → sum_lookup (series ++ entry ∷ []) rows ≡ sum_lookup series rows + lookup_count entry.date rows
unfolding sum_lookup
sum_lookup-snoc [] entry rows = omega arith
sum_lookup-snoc (x ∷ series) entry rows = omega (arith, sum_lookup-snoc series entry rows)

-- How the series counts a date once another is pushed.
record IsPushed (d x : String) (series next : List DailyActivity) : Type 0 where
  single : count (is_date d) next ≡ (if any (is_date d) next then 1 else 0)
  grown : any (is_date d) next ≡ (any (is_date d) series || x == d)

old_date :
    (d x : String) (series : List DailyActivity)
    → any (is_date x) series ≡ true
    → any (is_date d) series ≡ (any (is_date d) series || x == d)
old_date d x series e = elim (Bool-cases (x == d)) [
  | inl f ↦ let same = (==_iff x d).0 f in rw (f, ← same, e) refl
  | inr f ↦ rw f (ground arith)
]

pushed :
    (d x : String) (series : List DailyActivity) (entry : DailyActivity)
    → entry.date ≡ x
    → any (is_date x) series ≡ false
    → count (is_date d) series ≡ (if any (is_date d) series then 1 else 0)
    → IsPushed d x series (series ++ entry ∷ [])
unfolding count
pushed d x series entry dated e single =
    let grown : any (is_date d) (series ++ entry ∷ []) ≡ (any (is_date d) series || x == d) =
      any-snoc (is_date d) series entry ∙ ap (λ t. any (is_date d) series || t == d) dated in
    record {
      grown = grown;
      single =
          count-append_one (is_date d) series entry
          ∙ rw grown (elim (Bool-cases (x == d)) [
            | inl f ↦
                let same = (==_iff x d).0 f in
                let absent : any (is_date d) series ≡ false = rw (← same) e in
                rw (dated, f, single, absent) refl
            | inr f ↦ rw (dated, f) (ground (arith, single))
          ]);
    }

module _ (events alerts : List (String × ℕ)) where
  -- What the series keeps while it is filled.
  pub total-fill :
      (ds : List String) (series : List DailyActivity)
      → total_events series ≡ sum_lookup series events
      → total_events (fill events alerts ds series)
        ≡ sum_lookup (fill events alerts ds series) events
  unfolding fill
  total-fill [] series e = e
  total-fill (d ∷ ds) series e =
      let entry : DailyActivity = record {
        date = d;
        events = lookup_count d events;
        alerts = lookup_count d alerts;
      } in
      total-fill ds _ (
        if_holds (λ s. total_events s ≡ sum_lookup s events) (any (is_date d) series) series
          (series ++ entry ∷ []) (λ _. e)
          (λ _.
            omega (arith, total_events-snoc series entry, sum_lookup-snoc series entry events, e)))

  pub once-fill :
      (d : String) (ds : List String) (series : List DailyActivity)
      → count (is_date d) series ≡ (if any (is_date d) series then 1 else 0)
      → count (is_date d) (fill events alerts ds series)
        ≡ (if any (is_date d) series || listed ds d then 1 else 0)
  unfolding fill any
  once-fill d [] series e = e ∙ ground arith
  once-fill d (x ∷ ds) series e =
      let entry : DailyActivity = record {
        date = x;
        events = lookup_count x events;
        alerts = lookup_count x alerts;
      } in
      let next = if any (is_date x) series then series else series ++ entry ∷ [] in
      let step : IsPushed d x series next =
        if_holds (IsPushed d x series) (any (is_date x) series) series (series ++ entry ∷ [])
          (λ f. record { single = e; grown = old_date d x series f })
          (λ f. pushed d x series entry refl f e) in
      once-fill d ds next step.single ∙ rw step.grown (ground arith)
