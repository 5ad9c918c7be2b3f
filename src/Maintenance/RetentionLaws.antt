-- ===== src/Maintenance/RetentionLaws.antt =====
-- What the deletes keep, and what they leave to the next night.
use project.Base.{
  Bool, List, ap, arith, count, count-select, false, leb, not, refl, select, select_spared, suc,
  sym, true, zero, ℕ, ◌+◌, ◌<◌, ◌∙◌, ◌≡◌, ◌≤◌,
}
use project.Hub.{Alert, Event}
use project.Maintenance.Retention.{
  BatchDelete, delete_from, delete_in_batches, is_old_alert, is_old_event, prune_alerts,
  prune_events, windowed,
}
use project.Settings.{Settings}

module _ (sql : BatchDelete) (cfg : Settings) where
  module _ {R : Type 0} (p : R → Bool) where
    delete_from_kept :
        (batches deleted : ℕ) (rows : List R)
        → select (λ r. not (p r)) (delete_from sql cfg p batches deleted rows).0
          ≡ select (λ r. not (p r)) rows
    unfolding delete_from
    delete_from_kept zero deleted rows = refl
    delete_from_kept (suc batches) deleted rows =
        let done = sql.delete_batch p cfg.batch_size rows in
        ground (
          arith,
          sql.others_lem p cfg.batch_size rows,
          delete_from_kept batches (deleted + done.1) done.0,
        )

    delete_from_counted :
        (batches deleted : ℕ) (rows : List R)
        → count p (delete_from sql cfg p batches deleted rows).0
            + (delete_from sql cfg p batches deleted rows).1.deleted
          ≡ deleted + count p rows
    unfolding delete_from
    delete_from_counted zero deleted rows = omega arith
    delete_from_counted (suc batches) deleted rows =
        let done = sql.delete_batch p cfg.batch_size rows in
        ground (
          arith,
          sql.matching_lem p cfg.batch_size rows,
          delete_from_counted batches (deleted + done.1) done.0,
        )

    delete_from_exhausted :
        (batches deleted : ℕ) (rows : List R)
        → (delete_from sql cfg p batches deleted rows).1.capped ≡ false
        → count p (delete_from sql cfg p batches deleted rows).0 ≡ 0
    unfolding delete_from
    delete_from_exhausted zero deleted rows e = absurd (ground arith)
    delete_from_exhausted (suc batches) deleted rows e =
        let done = sql.delete_batch p cfg.batch_size rows in
        ground (
          arith,
          sql.matching_lem p cfg.batch_size rows,
          sql.deleted_lem p cfg.batch_size rows,
          delete_from_exhausted batches (deleted + done.1) done.0,
        )

    delete_from_fewer :
        (q : R → Bool) (batches deleted : ℕ) (rows : List R)
        → count q (delete_from sql cfg p batches deleted rows).0 ≤ count q rows
    unfolding delete_from
    delete_from_fewer q zero deleted rows = omega arith
    delete_from_fewer q (suc batches) deleted rows =
        let done = sql.delete_batch p cfg.batch_size rows in
        ground (
          arith,
          sql.fewer_lem p q cfg.batch_size rows,
          delete_from_fewer q batches (deleted + done.1) done.0,
        )

    -- A batched delete keeps every row that does not match, in order; the number it reports is the
    -- number of matching rows that are gone; and where it reports that no cap stopped it, no matching
    -- row is left.
    pub delete_in_batches_lem :
        (rows : List R)
        → (select (λ r. not (p r)) (delete_in_batches sql cfg p rows).0
            ≡ select (λ r. not (p r)) rows)
          × (count p (delete_in_batches sql cfg p rows).0
                + (delete_in_batches sql cfg p rows).1.deleted
              ≡ count p rows)
          × ((delete_in_batches sql cfg p rows).1.capped ≡ false
              → count p (delete_in_batches sql cfg p rows).0 ≡ 0)
    unfolding delete_in_batches
    delete_in_batches_lem rows = (
      delete_from_kept cfg.max_batches 0 rows,
      omega (arith, delete_from_counted cfg.max_batches 0 rows),
      delete_from_exhausted cfg.max_batches 0 rows,
    )

  spared :
      {R : Type 0} (p q : R → Bool) (rows : List R)
      → ((x : R) → q x ≡ true → p x ≡ false)
      → select q (delete_in_batches sql cfg p rows).0 ≡ select q rows
  spared p q rows h =
      sym (select_spared p q (delete_in_batches sql cfg p rows).0 h)
      ∙ ap (select q) (delete_in_batches_lem p rows).0
      ∙ select_spared p q rows h

  -- No event is deleted before it has been counted: those from the roll-up's bound on are untouched,
  -- whatever the window.
  pub prune_events_counted :
      (now days rolled_through : ℕ) (rows : List Event)
      → select
          (λ e. leb rolled_through e.created_at)
          (prune_events sql cfg now days rolled_through rows).0
        ≡ select (λ e. leb rolled_through e.created_at) rows
  unfolding prune_events
  prune_events_counted now days rolled_through rows =
      let kept =
        spared (is_old_event sql cfg now days rolled_through) (λ e. leb rolled_through e.created_at)
          rows (λ e h. unfold is_old_event in ground arith) in
      ground (arith, kept)

  -- An alert that nobody acknowledged is never deleted, at any age.
  prune_alerts_open :
      (now days : ℕ) (rows : List Alert)
      → select (λ a. not a.acknowledged) (prune_alerts sql cfg now days rows).0
        ≡ select (λ a. not a.acknowledged) rows
  unfolding prune_alerts
  prune_alerts_open now days rows =
      let kept =
        spared (is_old_alert sql cfg now days) (λ a. not a.acknowledged) rows
          (λ a h. unfold is_old_alert in ground arith) in
      ground (arith, kept)

  pub prune_events_fewer :
      (now days rolled_through : ℕ) (q : Event → Bool) (rows : List Event)
      → count q (prune_events sql cfg now days rolled_through rows).0 ≤ count q rows
  unfolding prune_events delete_in_batches
  prune_events_fewer now days rolled_through q rows =
      let fewer =
        delete_from_fewer (is_old_event sql cfg now days rolled_through) q cfg.max_batches 0 rows in
      ground (arith, fewer)

  -- The events that have not been counted are as many before and after.
  pub prune_events_spares :
      (now days rolled_through : ℕ) (q : Event → Bool) (rows : List Event)
      → ((e : Event) → q e ≡ true → leb rolled_through e.created_at ≡ true)
      → count q (prune_events sql cfg now days rolled_through rows).0 ≡ count q rows
  prune_events_spares now days rolled_through q rows h =
      sym (
        count-select (λ e. leb rolled_through e.created_at) q
          (prune_events sql cfg now days rolled_through rows).0 h)
      ∙ ap (count q) (prune_events_counted now days rolled_through rows)
      ∙ count-select (λ e. leb rolled_through e.created_at) q rows h

  -- A prune that no cap stopped leaves nothing of what it deletes.
  pub windowed_exhausted :
      {R : Type 0} (days : ℕ) (p : R → Bool) (rows : List R)
      → 0 < days
      → (windowed sql cfg days p rows).1.capped ≡ false
      → count p (windowed sql cfg days p rows).0 ≡ 0
  windowed_exhausted days p rows h e =
      let exhausted = (delete_in_batches_lem p rows).2 in ground (arith, exhausted)
