-- ===== src/Dashboard/Clustered.antt =====
-- What the rows of the alert list hold: every alert once, in the row of its kind.
use project.Base.{
  Bool, Bool-cases, List, String, [], all, ap, arith, count, count-append_one, eq_string, eq_ℕ, inl,
  inr, refl, ℕ, ◌&&◌, ◌++◌, ◌+◌, ◌==◌, ◌∙◌, ◌∷◌, ◌≡◌,
}
use project.Dashboard.Cluster.{
  AlertCluster, add_alert, cluster_alerts, cluster_key, group_alerts, insert, is_more_urgent,
  is_newer, row_of, rows_of, sort,
}
use project.Hub.{Alert}
use project.Maintenance.RollUp.{groups}

-- The sort, which moves elements and neither adds nor drops one.
module _ {A : Type 0} (goes_before : A → A → Bool) where
  count-insert :
      (q : A → Bool) (x : A) (ys : List A) → count q (insert goes_before x ys) ≡ count q (x ∷ ys)
  unfolding insert count
  count-insert q x [] = refl
  count-insert q x (y ∷ ys) = ground (arith, count-insert q x ys)

  count-sort : (q : A → Bool) (xs : List A) → count q (sort goes_before xs) ≡ count q xs
  unfolding sort count
  count-sort q [] = refl
  count-sort q (x ∷ xs) = count-insert q x (sort goes_before xs) ∙ ground (arith, count-sort q xs)

  all-insert :
      (q : A → Bool) (x : A) (ys : List A) → all q (insert goes_before x ys) ≡ (q x && all q ys)
  unfolding insert all
  all-insert q x [] = refl
  all-insert q x (y ∷ ys) = ground (arith, all-insert q x ys)

  pub all-sort : (q : A → Bool) (xs : List A) → all q (sort goes_before xs) ≡ all q xs
  unfolding sort all
  all-sort q [] = refl
  all-sort q (x ∷ xs) = all-insert q x (sort goes_before xs) ∙ ap (λ b. q x && b) (all-sort q xs)

-- How many members of the rows, and of the groups, pass a test.
pub total : (Alert → Bool) → List AlertCluster → ℕ
total q [] = 0
total q (c ∷ cs) = count q c.members + total q cs

grouped : (Alert → Bool) → List (String × List Alert) → ℕ
grouped q [] = 0
grouped q ((k, members) ∷ groups) = count q members + grouped q groups

total-append :
    (q : Alert → Bool) (cs ds : List AlertCluster) → total q (cs ++ ds) ≡ total q cs + total q ds
unfolding total
total-append q [] ds = omega arith
total-append q (c ∷ cs) ds = omega (arith, total-append q cs ds)

total-insert :
    (q : Alert → Bool) (c : AlertCluster) (cs : List AlertCluster)
    → total q (insert is_more_urgent c cs) ≡ count q c.members + total q cs
unfolding total insert
total-insert q c [] = refl
total-insert q c (d ∷ cs) = elim (Bool-cases (is_more_urgent d c)) [
  | inl e ↦ rw e (omega (arith, total-insert q c cs))
  | inr e ↦ rw e refl
]

total-sort :
    (q : Alert → Bool) (cs : List AlertCluster) → total q (sort is_more_urgent cs) ≡ total q cs
unfolding sort total
total-sort q [] = refl
total-sort q (c ∷ cs) = total-insert q c (sort is_more_urgent cs) ∙ omega (arith, total-sort q cs)

total-row_of :
    (q : Alert → Bool) (key : String) (members : List Alert)
    → total q (row_of key members) ≡ count q members
unfolding total row_of
total-row_of q key [] = unfold count in refl
total-row_of q key (a ∷ alerts) = omega arith

total-rows_of :
    (q : Alert → Bool) (groups : List (String × List Alert))
    → total q (rows_of groups) ≡ grouped q groups
unfolding rows_of grouped
total-rows_of q [] = unfold total in refl
total-rows_of q ((k, members) ∷ groups) =
    total-append q (row_of k (sort is_newer members)) (rows_of groups)
    ∙ omega (
      arith,
      total-row_of q k (sort is_newer members),
      count-sort is_newer q members,
      total-rows_of q groups,
    )

grouped-add_alert :
    (q : Alert → Bool) (key : String) (a : Alert) (groups : List (String × List Alert))
    → grouped q (add_alert key a groups) ≡ grouped q groups + count q (a ∷ [])
unfolding grouped add_alert
grouped-add_alert q key a [] = omega arith
grouped-add_alert q key a ((k, members) ∷ groups) = elim (Bool-cases (k == key)) [
  | inl e ↦ rw e (omega (arith, count-append_one q members a))
  | inr e ↦ rw e (omega (arith, grouped-add_alert q key a groups))
]

grouped-group_alerts :
    (q : Alert → Bool) (alerts : List Alert) (groups : List (String × List Alert))
    → grouped q (group_alerts alerts groups) ≡ grouped q groups + count q alerts
unfolding group_alerts
grouped-group_alerts q [] groups = unfold count in omega arith
grouped-group_alerts q (a ∷ alerts) groups =
    grouped-group_alerts q alerts (add_alert (cluster_key a) a groups)
    ∙ (let added = grouped-add_alert q (cluster_key a) a groups in
        unfold count in ground (arith, added))

-- No alert is lost or shown twice: for any test, as many members of all the rows pass it as alerts do.
total-cluster_alerts :
    (q : Alert → Bool) (alerts : List Alert) → total q (cluster_alerts alerts) ≡ count q alerts
unfolding cluster_alerts
total-cluster_alerts q alerts =
    total-sort q (rows_of (group_alerts alerts []))
    ∙ total-rows_of q (group_alerts alerts [])
    ∙ grouped-group_alerts q alerts []
    ∙ unfold grouped in omega arith
