-- ===== src/Dashboard/ClusterRows.antt =====
-- What a row says of its members.
use project.Base.{
  ==_iff, ==_refl, Bool, Bool-cases, List, String, [], all, all-append, all-snoc, any, arith,
  eq_string, eq_ℕ, if_holds, if◌then◌else◌, inl, inr, leb, length, le→leb, ltb, map, not, refl,
  select, sym, true, ◌&&◌, ◌==◌, ◌∙◌, ◌∷◌, ◌≡◌, ◌≤◌,
}
use project.Contracts.Modes.{eq_severity}
use project.Dashboard.Cluster.{
  AlertCluster, add_alert, cluster_alerts, cluster_key, group_alerts, is_more_urgent, is_newer,
  rank, row_of, rows_of, sort, worst_of,
}
use project.Dashboard.Clustered.{all-sort}
use project.Hub.{Alert}
use project.Maintenance.RollUp.{groups}

-- They are of the row's kind.
abbrev is_of_kind : String → Alert → Bool
is_of_kind key m = cluster_key m == key

-- Its severity is the worst among them, and one of theirs.
unfoldable pub is_worst : AlertCluster → Bool
unfolding all any
is_worst c =
    all (λ m. leb (rank m.severity) (rank c.severity)) c.members
    && any (λ m. m.severity == c.severity) c.members

-- It counts as acknowledged exactly where no member is left to acknowledge.
unfoldable pub is_settled : AlertCluster → Bool
is_settled c = if c.acknowledged then length c.open_ids == 0 else not (length c.open_ids == 0)

unfoldable pub is_faithful : AlertCluster → Bool
unfolding is_worst is_settled all cluster_key
is_faithful c = all (is_of_kind c.key) c.members && (is_worst c && is_settled c)

worst_of-rank :
    (acc : Alert) (xs : List Alert)
    → (rank acc.severity ≤ rank (worst_of acc xs).severity)
      × (all (λ m. leb (rank m.severity) (rank (worst_of acc xs).severity)) xs ≡ true)
unfolding worst_of all
worst_of-rank acc [] = (omega arith, refl)
worst_of-rank acc (x ∷ xs) =
    if_holds
      (λ c.
        (rank acc.severity ≤ rank (worst_of c xs).severity)
        × (all (λ m. leb (rank m.severity) (rank (worst_of c xs).severity)) (x ∷ xs) ≡ true))
      (ltb (rank acc.severity) (rank x.severity)) x acc
      (λ e. let (first, rest) = worst_of-rank x xs in (ground arith, ground arith))
      (λ e. let (first, rest) = worst_of-rank acc xs in (ground arith, ground arith))

worst_of-member :
    (acc : Alert) (xs : List Alert)
    → any (λ m. m.severity == (worst_of acc xs).severity) (acc ∷ xs) ≡ true
unfolding worst_of any
worst_of-member acc [] = ground (arith, ==_refl acc.severity)
worst_of-member acc (x ∷ xs) =
    if_holds (λ c. any (λ m. m.severity == (worst_of c xs).severity) (acc ∷ x ∷ xs) ≡ true)
      (ltb (rank acc.severity) (rank x.severity)) x acc
      (λ e. let member = worst_of-member x xs in ground arith)
      (λ e. let member = worst_of-member acc xs in ground arith)

-- The members that are open, against all being acknowledged.
open_none :
    (xs : List Alert)
    → (if all (λ m. m.acknowledged) xs
        then length (map (λ m. m.id) (select (λ m. not m.acknowledged) xs)) == 0
        else not (length (map (λ m. m.id) (select (λ m. not m.acknowledged) xs)) == 0))
      ≡ true
unfolding all select
open_none [] = refl
open_none (x ∷ xs) = ground (arith, open_none xs)

and_true : (b c : Bool) → b ≡ true → c ≡ true → (b && c) ≡ true
and_true b c h g = ground arith

row_of-is_faithful :
    (key : String) (members : List Alert)
    → all (is_of_kind key) members ≡ true
    → all is_faithful (row_of key members) ≡ true
unfolding row_of all is_faithful is_worst is_settled
row_of-is_faithful key [] h = refl
row_of-is_faithful key (a ∷ alerts) h =
    let (first, rest) = worst_of-rank a alerts in
    and_true _ _
      (and_true _ _ h (
        and_true _ _
          (and_true _ _ (and_true _ _ (le→leb _ _ first) rest) (worst_of-member a alerts))
          (open_none (a ∷ alerts))))
      refl

-- The groups hold alerts of their kind.
well_keyed : List (String × List Alert) → Bool
unfolding all cluster_key
well_keyed groups = all (λ g. all (is_of_kind g.0) g.1) groups

add_alert-well_keyed :
    (a : Alert) (groups : List (String × List Alert))
    → well_keyed groups ≡ true
    → well_keyed (add_alert (cluster_key a) a groups) ≡ true
unfolding well_keyed add_alert all
add_alert-well_keyed a [] h = ground (arith, ==_refl (cluster_key a))
add_alert-well_keyed a ((k, members) ∷ groups) h = elim (Bool-cases (k == cluster_key a)) [
  | inl e ↦
      let same = (==_iff k (cluster_key a)).0 e in
      let kept = all-snoc (is_of_kind k) members a in
      let own = (==_iff (cluster_key a) k).1 (sym same) in rw e (ground arith)
  | inr e ↦ rw e (ground (arith, add_alert-well_keyed a groups))
]

group_alerts-well_keyed :
    (alerts : List Alert) (groups : List (String × List Alert))
    → well_keyed groups ≡ true
    → well_keyed (group_alerts alerts groups) ≡ true
unfolding group_alerts
group_alerts-well_keyed [] groups h = h
group_alerts-well_keyed (a ∷ alerts) groups h =
    group_alerts-well_keyed alerts (add_alert (cluster_key a) a groups)
      (add_alert-well_keyed a groups h)

rows_of-is_faithful :
    (groups : List (String × List Alert))
    → well_keyed groups ≡ true
    → all is_faithful (rows_of groups) ≡ true
unfolding rows_of well_keyed all
rows_of-is_faithful [] h = refl
rows_of-is_faithful ((k, members) ∷ groups) h =
    all-append is_faithful (row_of k (sort is_newer members)) (rows_of groups)
    ∙ (let row =
          row_of-is_faithful k (sort is_newer members)
            (all-sort is_newer (is_of_kind k) members ∙ ground arith) in
        let rest = rows_of-is_faithful groups (ground arith) in ground arith)

-- In every row the members are of the row's kind, the severity is the worst of theirs, and the row
-- counts as acknowledged exactly where it names no member that is still to be acknowledged.
pub cluster_alerts-is_faithful :
    (alerts : List Alert) → all is_faithful (cluster_alerts alerts) ≡ true
unfolding cluster_alerts
cluster_alerts-is_faithful alerts =
    all-sort is_more_urgent is_faithful (rows_of (group_alerts alerts []))
    ∙ rows_of-is_faithful (group_alerts alerts [])
        (group_alerts-well_keyed alerts [] (unfold well_keyed all in refl))
