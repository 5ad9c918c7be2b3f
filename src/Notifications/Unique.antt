-- ===== src/Notifications/Unique.antt =====
-- The rows that deliveries write, by alert and channel.
use project.Base.{
  ==_iff, Bool, List, Option, Option-cases, String, [], ap, arith, count, count-eq-zero, count-snoc,
  count-snoc_none, count-update, eq_option, eq_string, eq_ℕ, false, find, if◌then◌else◌, inl, inr,
  is_some-find, none, not, refl, some, true, ℕ, ◌+◌, ◌∷◌, ◌≡◌, ◌≤◌,
}
use project.Contracts.Modes.{AlertSeverity, eq_severity}
use project.Db.{Prisma, upserted}
use project.Hub.{Alert}
use project.Notifications.Service.{
  AlertChannel, Changes, Notification, NotificationChannel, attempt, changed_row, created_row,
  dispatch, dispatch_to, eq_channel, is_due, is_for, meets_threshold, outcome_of, record_outcome,
  retry_all, retry_on, retry_pending, skipped, take, told, unconfigured,
}
use project.Settings.{Settings}

-- At most one row for each alert and channel.
abbrev pub IsUnique : List Notification → Type 0
IsUnique rows = (id : String) (channel : NotificationChannel) → count (is_for id channel) rows ≤ 1

-- A row of one key that passes the test of another has that key.
key_of_row :
    (id : String) (channel : NotificationChannel) (id' : String) (channel' : NotificationChannel)
    (n : Notification)
    → n.alert_id ≡ id
    → n.channel ≡ channel
    → is_for id' channel' n ≡ true
    → (id' ≡ id) × (channel' ≡ channel)
unfolding is_for
key_of_row id channel id' channel' n e e' t =
    ground (arith, ==_iff n.alert_id id', ==_iff n.channel channel')

none_yet :
    (id : String) (channel : NotificationChannel) (rows : List Notification)
    → find (is_for id channel) rows ≡ none
    → count (is_for id channel) rows ≡ 0
none_yet id channel rows e =
    count-eq-zero (is_for id channel) rows (ground (arith, is_some-find (is_for id channel) rows))

branch-IsUnique :
    (b c : Bool) (off mild severe : List Notification)
    → IsUnique off
    → IsUnique mild
    → IsUnique severe
    → IsUnique (if not b then off else if not c then mild else severe)
branch-IsUnique false c _ _ _ x y z = x
branch-IsUnique true false _ _ _ x y z = y
branch-IsUnique true true _ _ _ x y z = z

module _ (db : Prisma) (cfg : Settings) (send : ℕ → NotificationChannel → Alert → Option String)
    (explain : AlertSeverity → AlertChannel → String) where
  pub record_rows :
      (now : ℕ) (id : String) (channel : NotificationChannel) (c : Changes)
      (rows : List Notification)
      → record_outcome db cfg send explain now id channel c rows
        ≡ (upserted
            (is_for id channel)
            (created_row (db.uuid (λ n. n.id) rows) now id channel c)
            (changed_row c)
            rows
            (find (is_for id channel) rows)).0
  unfolding record_outcome
  record_rows now id channel c rows = ap (λ r. r.0) (db.upsert_lem _ _ _ rows)

  record_outcome-IsUnique :
      (now : ℕ) (id : String) (channel : NotificationChannel) (c : Changes)
      (rows : List Notification)
      → IsUnique rows
      → IsUnique (record_outcome db cfg send explain now id channel c rows)
  record_outcome-IsUnique now id channel c rows u id' channel' =
      elim (Option-cases (find (is_for id channel) rows)) [
        | inl unseen ↦
            let row = created_row (db.uuid (λ n. n.id) rows) now id channel c in
            rw (record_rows, unseen)
              (ground (
                arith,
                u id' channel',
                key_of_row id channel id' channel' row refl refl,
                count-snoc (is_for id' channel') rows row,
                count-snoc_none (is_for id' channel') rows row,
                none_yet id channel rows unseen,
              ))
        | inr (n, found) ↦
            rw (record_rows, found)
              (rw
                (count-update (is_for id' channel') (is_for id channel) (changed_row c) rows
                  (λ x. unfold is_for in ground arith))
                (u id' channel'))
      ]

  attempt-IsUnique :
      (now : ℕ) (a : Alert) (channel : NotificationChannel) (prior : ℕ) (rows : List Notification)
      → IsUnique rows
      → IsUnique (attempt db cfg send explain now a channel prior rows)
  unfolding attempt
  attempt-IsUnique now a channel prior rows u =
      record_outcome-IsUnique now a.id channel
        (outcome_of cfg.max_attempts now (prior + 1) (send now channel a)) rows u

  dispatch_to-IsUnique :
      (now : ℕ) (a : Alert) (c : AlertChannel) (rows : List Notification)
      → IsUnique rows
      → IsUnique (dispatch_to db cfg send explain now a c rows)
  unfolding dispatch_to
  dispatch_to-IsUnique now a c rows u =
      branch-IsUnique c.is_configured (meets_threshold a.severity c.min_severity) rows
        (record_outcome db cfg send explain now a.id c.name
          (told skipped (explain a.severity c) none) rows)
        (attempt db cfg send explain now a c.name 0 rows) u
        (record_outcome-IsUnique now a.id c.name (told skipped (explain a.severity c) none) rows u)
        (attempt-IsUnique now a c.name 0 rows u)

  dispatch-IsUnique :
      (now : ℕ) (a : Alert) (channels : List AlertChannel) (rows : List Notification)
      → IsUnique rows
      → IsUnique (dispatch db cfg send explain now a channels rows)
  unfolding dispatch
  dispatch-IsUnique now a [] rows u = u
  dispatch-IsUnique now a (c ∷ channels) rows u =
      dispatch-IsUnique now a channels (dispatch_to db cfg send explain now a c rows)
        (dispatch_to-IsUnique now a c rows u)

  retry_on-IsUnique :
      (now : ℕ) (n : Notification) (a : Option Alert) (c : Option AlertChannel)
      (rows : List Notification)
      → IsUnique rows
      → IsUnique (retry_on db cfg send explain now n a c rows)
  unfolding retry_on
  retry_on-IsUnique now n a none rows u =
      record_outcome-IsUnique now n.alert_id n.channel unconfigured rows u
  retry_on-IsUnique now n none (some c) rows u = u
  retry_on-IsUnique now n (some a) (some c) rows u =
      branch-IsUnique c.is_configured true
        (record_outcome db cfg send explain now n.alert_id n.channel unconfigured rows) rows
        (attempt db cfg send explain now a c.name n.attempts rows)
        (record_outcome-IsUnique now n.alert_id n.channel unconfigured rows u) u
        (attempt-IsUnique now a c.name n.attempts rows u)

  retry_all-IsUnique :
      (now : ℕ) (alerts : List Alert) (channels : List AlertChannel)
      (due_rows rows : List Notification)
      → IsUnique rows
      → IsUnique (retry_all db cfg send explain now alerts channels due_rows rows)
  unfolding retry_all
  retry_all-IsUnique now alerts channels [] rows u = u
  retry_all-IsUnique now alerts channels (n ∷ due_rows) rows u =
      retry_all-IsUnique now alerts channels due_rows _ (retry_on-IsUnique now n _ _ rows u)

  -- No alert ever has two rows for one channel: a dispatch, repeated or not, and a sweep of the
  -- retries both keep the table so.
  deliveries-IsUnique :
      (now : ℕ) (a : Alert) (alerts : List Alert) (channels : List AlertChannel)
      (rows : List Notification)
      → IsUnique rows
      → IsUnique (dispatch db cfg send explain now a channels rows)
        × IsUnique (retry_pending db cfg send explain now alerts channels rows)
  unfolding retry_pending
  deliveries-IsUnique now a alerts channels rows u = (
    dispatch-IsUnique now a channels rows u,
    retry_all-IsUnique now alerts channels (take 25 (db.find_many (is_due now) rows)) rows u,
  )
