-- ===== src/Reports/Sums.antt =====
-- The sums of a report.
use project.Base.{
  Bool, Bool-cases, Eq, List, [], ap, arith, eq_string, eq_ℕ, inl, inr, length, map, refl, ℕ, ◌++◌,
  ◌+◌, ◌==◌, ◌∙◌, ◌∷◌, ◌≡◌,
}
use project.Dashboard.Cluster.{insert, sort}
use project.Hub.{Event}
use project.Maintenance.RollUp.{Bucket, EventRollup}
use project.Reports.{add_count, group_sum, is_fewer, keyed, merged}

unfoldable pub sum_counts {ℓ} : {K : Type ℓ} → List (K × ℕ) → ℕ
sum_counts [] = 0
sum_counts ((k, n) ∷ rows) = n + sum_counts rows

sum_counts-append :
    {K : Type 0} (xs ys : List (K × ℕ)) → sum_counts (xs ++ ys) ≡ sum_counts xs + sum_counts ys
unfolding sum_counts
sum_counts-append [] ys = omega arith
sum_counts-append ((k, n) ∷ xs) ys = omega (arith, sum_counts-append xs ys)

module _ {K : Type 0} ⦃by : Eq K⦄ where
  sum_counts-add_count :
      (k : K) (n : ℕ) (rows : List (K × ℕ)) → sum_counts (add_count k n rows) ≡ n + sum_counts rows
  unfolding sum_counts add_count
  sum_counts-add_count k n [] = refl
  sum_counts-add_count k n ((q, m) ∷ rows) = elim (Bool-cases (q == k)) [
    | inl e ↦ rw e (omega arith)
    | inr e ↦ rw e (omega (arith, sum_counts-add_count k n rows))
  ]

  sum_counts-group_sum : (rows : List (K × ℕ)) → sum_counts (group_sum rows) ≡ sum_counts rows
  unfolding sum_counts group_sum
  sum_counts-group_sum [] = refl
  sum_counts-group_sum ((k, n) ∷ rows) =
      sum_counts-add_count k n (group_sum rows) ∙ ap (λ t. n + t) (sum_counts-group_sum rows)

module _ {A : Type 0} (goes_before : (A × ℕ) → (A × ℕ) → Bool) where
  sum_counts-insert :
      (x : A × ℕ) (rows : List (A × ℕ))
      → sum_counts (insert goes_before x rows) ≡ x.1 + sum_counts rows
  unfolding sum_counts insert
  sum_counts-insert x [] = refl
  sum_counts-insert x (y ∷ rows) = elim (Bool-cases (goes_before y x)) [
    | inl e ↦ rw e (omega (arith, sum_counts-insert x rows))
    | inr e ↦ rw e refl
  ]

  sum_counts-sort : (rows : List (A × ℕ)) → sum_counts (sort goes_before rows) ≡ sum_counts rows
  unfolding sum_counts sort
  sum_counts-sort [] = refl
  sum_counts-sort (x ∷ rows) =
      sum_counts-insert x (sort goes_before rows) ∙ ap (λ t. x.1 + t) (sum_counts-sort rows)

-- The events that the window holds: counted ones, and those that are not counted yet.
unfoldable pub counted_events : List EventRollup → ℕ
counted_events [] = 0
counted_events (r ∷ rows) = r.count + counted_events rows

module _ {K : Type 0} ⦃by : Eq K⦄ (of_bucket : Bucket → K) (of_event : Event → K) where
  sum_counts-rows :
      (rows : List EventRollup)
      → sum_counts (map (λ r. (of_bucket r.bucket, r.count)) rows) ≡ counted_events rows
  unfolding sum_counts counted_events
  sum_counts-rows [] = refl
  sum_counts-rows (r ∷ rows) = ap (λ t. r.count + t) (sum_counts-rows rows)

  sum_counts-events :
      (events : List Event) → sum_counts (map (λ e. (of_event e, 1)) events) ≡ length events
  unfolding sum_counts
  sum_counts-events [] = refl
  sum_counts-events (e ∷ events) = omega (arith, sum_counts-events events)

  pub sum_counts-keyed :
      (rows : List EventRollup) (events : List Event)
      → sum_counts
          ((keyed of_bucket of_event rows events).0 ++ (keyed of_bucket of_event rows events).1)
        ≡ counted_events rows + length events
  unfolding keyed
  sum_counts-keyed rows events =
      sum_counts-append (group_sum (map (λ r. (of_bucket r.bucket, r.count)) rows))
        (group_sum (map (λ e. (of_event e, 1)) events))
      ∙ omega (
        arith,
        sum_counts-group_sum (map (λ r. (of_bucket r.bucket, r.count)) rows),
        sum_counts-group_sum (map (λ e. (of_event e, 1)) events),
        sum_counts-rows rows,
        sum_counts-events events,
      )

  pub sum_counts-merged :
      (rows : List EventRollup) (events : List Event)
      → sum_counts (merged of_bucket of_event rows events) ≡ counted_events rows + length events
  unfolding merged
  sum_counts-merged rows events =
      let sources = keyed of_bucket of_event rows events in
      sum_counts-sort is_fewer (group_sum (sources.0 ++ sources.1))
      ∙ sum_counts-group_sum (sources.0 ++ sources.1)
      ∙ sum_counts-keyed rows events
