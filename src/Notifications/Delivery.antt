-- ===== src/Notifications/Delivery.antt =====
-- What an attempt leaves on record.
use native.Mathlib.Nat.{one-le-pow}
use project.Base.{
  ==_iff, List, Option, Option-cases, String, arith, eq_option, eq_string, eq_ℕ, find, find-eq-some,
  find-snoc, find-update, inl, inr, none, refl, some, true, ℕ, ◌+◌, ◌-◌, ◌<◌, ◌∙◌, ◌≡◌, ◌≤◌,
}
use project.Contracts.Modes.{AlertSeverity}
use project.Db.{Prisma}
use project.Hub.{Alert}
use project.Notifications.Service.{
  AlertChannel, Changes, Notification, NotificationChannel, attempt, backoff_ms, changed_row,
  created_row, eq_channel, failed, is_for, outcome_of, pending, record_outcome, sent,
}
use project.Notifications.Unique.{record_rows}
use project.Settings.{Settings}

own_key :
    (id : String) (channel : NotificationChannel) (n : Notification)
    → n.alert_id ≡ id
    → n.channel ≡ channel
    → is_for id channel n ≡ true
unfolding is_for
own_key id channel n e e' = ground (arith, ==_iff n.alert_id id, ==_iff n.channel channel)

module _ (db : Prisma) (cfg : Settings) (send : ℕ → NotificationChannel → Alert → Option String)
    (explain : AlertSeverity → AlertChannel → String) where
  -- The row is there after it is recorded, new or changed.
  recorded :
      (P : Notification → Type 0) (now : ℕ) (id : String) (channel : NotificationChannel)
      (c : Changes) (rows : List Notification)
      → P (created_row (db.uuid (λ n. n.id) rows) now id channel c)
      → ((old : Notification) → P (changed_row c old))
      → (n : Notification) × (find
            (is_for id channel)
            (record_outcome db cfg send explain now id channel c rows)
          ≡ some n)
        × P n
  recorded P now id channel c rows fits_new fits_old =
      elim (Option-cases (find (is_for id channel) rows)) [
        | inl unseen ↦
            let row = created_row (db.uuid (λ n. n.id) rows) now id channel c in
            (
              row,
              rw (record_rows, unseen)
                  (find-snoc (is_for id channel) rows row unseen
                    (own_key id channel row refl refl)),
              fits_new,
            )
        | inr (n, found) ↦ (
          changed_row c n,
          rw (record_rows, found)
              (find-update (is_for id channel) (is_for id channel) (changed_row c) rows
                  (λ x. unfold is_for in ground arith)
                ∙ rw found (ground (arith, find-eq-some (is_for id channel) rows found))),
          fits_old n,
        )
      ]

  -- What a delivery that was tried leaves: sent where the channel took it; otherwise pending with a
  -- later time of its own while attempts are left, and failed for good once they are used up.
  abbrev pub IsSettled : ℕ → ℕ → Option String → Notification → Type 0
  IsSettled now attempts none n = (n.status ≡ sent) × (n.delivered_at ≡ some now)
  IsSettled now attempts (some message) n =
      (attempts < cfg.max_attempts
        → (n.status ≡ pending)
          × (t : ℕ) × (n.next_attempt_at ≡ some t)
          × (now + 30000 ≤ t)
          × (t ≤ now + 900000))
      × (cfg.max_attempts ≤ attempts → (n.status ≡ failed) × (n.next_attempt_at ≡ none))

  backoff_bounds : (attempts : ℕ) → (30000 ≤ backoff_ms attempts) × (backoff_ms attempts ≤ 900000)
  unfolding backoff_ms
  backoff_bounds attempts =
      let one = one-le-pow (attempts - 1) 2 (omega arith) in (omega (arith, one), omega arith)

  IsSettled-new :
      (now attempts : ℕ) (o : Option String) (id alert_id : String) (channel : NotificationChannel)
      → IsSettled now attempts o
          (created_row id now alert_id channel (outcome_of cfg.max_attempts now attempts o))
  unfolding outcome_of
  IsSettled-new now attempts none id alert_id channel = (refl, refl)
  IsSettled-new now attempts (some message) id alert_id channel = (
    λ left. (
      ground arith,
      now + backoff_ms attempts,
      ground arith,
      omega (arith, (backoff_bounds attempts).0),
      omega (arith, (backoff_bounds attempts).1),
    ),
    λ used. (ground arith, ground arith),
  )

  IsSettled-old :
      (now attempts : ℕ) (o : Option String) (n : Notification)
      → IsSettled now attempts o (changed_row (outcome_of cfg.max_attempts now attempts o) n)
  unfolding outcome_of
  IsSettled-old now attempts none n = (refl, refl)
  IsSettled-old now attempts (some message) n = (
    λ left. (
      ground arith,
      now + backoff_ms attempts,
      ground arith,
      omega (arith, (backoff_bounds attempts).0),
      omega (arith, (backoff_bounds attempts).1),
    ),
    λ used. (ground arith, ground arith),
  )

  -- Every attempt is on record: afterwards the alert has a row for the channel, which is sent where
  -- the channel took it; where it threw, the row is pending with a next attempt between half a
  -- minute and a quarter of an hour ahead while attempts are left, and failed, with none ahead, once
  -- they are used up.
  attempt_lem :
      (now : ℕ) (a : Alert) (channel : NotificationChannel) (prior : ℕ) (rows : List Notification)
      → (n : Notification) × (find
            (is_for a.id channel)
            (attempt db cfg send explain now a channel prior rows)
          ≡ some n)
        × IsSettled now (prior + 1) (send now channel a) n
  unfolding attempt
  attempt_lem now a channel prior rows =
      let o = send now channel a in
      recorded (IsSettled now (prior + 1) o) now a.id channel
        (outcome_of cfg.max_attempts now (prior + 1) o) rows
        (IsSettled-new now (prior + 1) o (db.uuid (λ n. n.id) rows) a.id channel)
        (IsSettled-old now (prior + 1) o)
