-- ===== src/Maintenance/Retention.antt =====
-- hub/src/maintenance/retention.service.ts: the deletes, by batches. The roll-up enters as the time
-- through which it has counted; the pause between batches and the log lines are left out.
use project.Audit.{AuditRow}
use project.Base.{
  String, Bool, List, count, false, if◌then◌else◌, leb, ltb, min, not, select, suc, true, zero, ℕ,
  ◌&&◌, ◌*◌, ◌+◌, ◌/◌, ◌≡◌, ◌≤◌,
}
use project.Hub.{Alert, Event}
use project.Settings.{Settings}

-- `DELETE ... WHERE id IN (SELECT id ... WHERE p LIMIT n)`, a statement of the database: which of the
-- matching rows it takes is the database's choice.
pub record BatchDelete : Type 1 where
  pub delete_batch : {R : Type 0} → (R → Bool) → ℕ → List R → List R × ℕ
  -- It takes as many matching rows as the limit allows, and no other row.
  pub deleted_lem :
      {R : Type 0} (p : R → Bool) (n : ℕ) (rows : List R)
      → (delete_batch p n rows).1 ≡ min n (count p rows)
  pub matching_lem :
      {R : Type 0} (p : R → Bool) (n : ℕ) (rows : List R)
      → count p (delete_batch p n rows).0 + (delete_batch p n rows).1 ≡ count p rows
  pub others_lem :
      {R : Type 0} (p : R → Bool) (n : ℕ) (rows : List R)
      → select (λ r. not (p r)) (delete_batch p n rows).0 ≡ select (λ r. not (p r)) rows
  -- It adds no row.
  pub fewer_lem :
      {R : Type 0} (p q : R → Bool) (n : ℕ) (rows : List R)
      → count q (delete_batch p n rows).0 ≤ count q rows

-- `HOUR_MS` and `DAY_MS`.
abbrev pub hour_ms : ℕ
hour_ms = 3600000

abbrev pub day_ms : ℕ
day_ms = 86400000

unfoldable pub start_of_hour : ℕ → ℕ
start_of_hour at = at / hour_ms * hour_ms

pub record Pruned : Type 0 where
  pub deleted : ℕ
  pub capped : Bool

-- The rows of the notification table that the sweep reads.
pub record NotificationRow : Type 0 where
  pub alert_id : String
  pub created_at : ℕ
  pub is_pending : Bool

module _ (sql : BatchDelete) (cfg : Settings) where
  module _ {R : Type 0} (p : R → Bool) where
    -- The loop, for the batches that are left.
    unfoldable pub delete_from : ℕ → ℕ → List R → List R × Pruned
    delete_from zero deleted rows = (rows, record { deleted = deleted; capped = true })
    delete_from (suc batches) deleted rows =
        let done = sql.delete_batch p cfg.batch_size rows in
        let rest = delete_from batches (deleted + done.1) done.0 in
        if ltb done.1 cfg.batch_size
        then (done.0, record { deleted = deleted + done.1; capped = false })
        else rest

    unfoldable pub delete_in_batches : List R → List R × Pruned
    unfolding delete_from
    delete_in_batches rows = delete_from cfg.max_batches 0 rows

  -- A window of zero days keeps everything.
  abbrev pub windowed : {R : Type 0} → ℕ → (R → Bool) → List R → List R × Pruned
  windowed days p rows =
      if leb days 0
      then (rows, record { deleted = 0; capped = false })
      else delete_in_batches p rows

  -- `createdAt < min(now - days, rolledThrough)`.
  unfoldable pub is_old_event : ℕ → ℕ → ℕ → Event → Bool
  is_old_event now days rolled_through e =
      ltb (e.created_at + days * day_ms) now && ltb e.created_at rolled_through

  unfoldable pub prune_events : ℕ → ℕ → ℕ → List Event → List Event × Pruned
  unfolding delete_in_batches is_old_event
  prune_events now days rolled_through rows =
      windowed days (is_old_event now days rolled_through) rows

  unfoldable pub is_old_alert : ℕ → ℕ → Alert → Bool
  is_old_alert now days a = ltb (a.created_at + days * day_ms) now && a.acknowledged

  unfoldable pub prune_alerts : ℕ → ℕ → List Alert → List Alert × Pruned
  unfolding delete_in_batches is_old_alert
  prune_alerts now days rows = windowed days (is_old_alert now days) rows

  unfoldable pub is_old_notification : ℕ → ℕ → NotificationRow → Bool
  is_old_notification now days n = ltb (n.created_at + days * day_ms) now && not n.is_pending

  unfoldable pub prune_notifications : ℕ → ℕ → List NotificationRow → List NotificationRow × Pruned
  unfolding delete_in_batches is_old_notification
  prune_notifications now days rows = windowed days (is_old_notification now days) rows

  unfoldable pub prune_audit : ℕ → ℕ → List AuditRow → List AuditRow × Pruned
  unfolding delete_in_batches
  prune_audit now days rows = windowed days (λ r. ltb (r.at + days * day_ms) now) rows
