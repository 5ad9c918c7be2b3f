-- ===== src/Notifications/Service.antt =====
-- hub/src/notifications/notifications.service.ts: the fan-out of an alert, one attempt, and the
-- retries. The error that `record` swallows, of a database that fails, is outside the model.
use project.Base.{
  Bool, Eq, List, Option, String, [], arith, eq_option, eq_string, eq_ℕ, false, find, if◌then◌else◌,
  leb, min, nat_eq, none, not, some, suc, true, zero, ℕ, ◌&&◌, ◌*◌, ◌+◌, ◌-◌, ◌==◌, ◌^◌, ◌↔◌, ◌∷◌,
  ◌≡◌,
}
use project.Contracts.Modes.{AlertSeverity, eq_severity, severity_index}
use project.Db.{Prisma}
use project.Hub.{Alert}
use project.Settings.{Settings}

-- packages/contracts/src/notification.ts.
pub data NotificationChannel : Type 0 where
  email webhook log : NotificationChannel

abbrev pub channel_index : NotificationChannel → ℕ
channel_index email = 0
channel_index webhook = 1
channel_index log = 2

pub channel_index_iff :
    (a b : NotificationChannel) → (nat_eq (channel_index a) (channel_index b) ≡ true) ↔ (a ≡ b)
channel_index_iff a b = ground arith

instance abbrev pub eq_channel : Eq NotificationChannel
eq_channel = record {
  same = λ a b. nat_eq (channel_index a) (channel_index b);
  same_iff = channel_index_iff;
}

pub data NotificationStatus : Type 0 where
  sent failed pending skipped : NotificationStatus

abbrev pub is_pending_status : NotificationStatus → Bool
is_pending_status pending = true
is_pending_status _ = false

-- A row of the Notification table.
pub record Notification : Type 0 where
  pub id : String
  pub alert_id : String
  pub channel : NotificationChannel
  pub status : NotificationStatus
  pub attempts : ℕ
  pub error : Option String
  pub created_at : ℕ
  pub delivered_at : Option ℕ
  pub next_attempt_at : Option ℕ

-- The columns that a caller of `record` gives; `none` leaves a column as it is.
pub record Changes : Type 0 where
  pub status : NotificationStatus
  pub attempts : Option ℕ
  pub error : Option String
  pub delivered_at : Option (Option ℕ)
  pub next_attempt_at : Option (Option ℕ)

-- `AlertChannel`: what is asked of a channel before it is used.
pub record AlertChannel : Type 0 where
  pub name : NotificationChannel
  pub is_configured : Bool
  pub min_severity : AlertSeverity

unfoldable pub meets_threshold : AlertSeverity → AlertSeverity → Bool
meets_threshold severity minimum = leb (severity_index minimum) (severity_index severity)

abbrev pub given {ℓ} : {A : Type ℓ} → Option A → A → A
given none old = old
given (some new) old = new

abbrev pub changed_row : Changes → Notification → Notification
changed_row c n = record n {
  status = c.status;
  attempts = given c.attempts n.attempts;
  error = c.error;
  delivered_at = given c.delivered_at n.delivered_at;
  next_attempt_at = given c.next_attempt_at n.next_attempt_at;
}

abbrev pub created_row : String → ℕ → String → NotificationChannel → Changes → Notification
created_row id now alert_id channel c = record {
  id = id;
  alert_id = alert_id;
  channel = channel;
  status = c.status;
  attempts = given c.attempts 0;
  error = c.error;
  created_at = now;
  delivered_at = given c.delivered_at none;
  next_attempt_at = given c.next_attempt_at none;
}

-- The unique key (alertId, channel).
unfoldable pub is_for : String → NotificationChannel → Notification → Bool
is_for alert_id channel n = n.alert_id == alert_id && n.channel == channel

unfoldable pub backoff_ms : ℕ → ℕ
backoff_ms attempts = min 900000 (30000 * 2 ^ (attempts - 1))

-- What an attempt records, by what the channel threw.
unfoldable pub outcome_of : (max_attempts : ℕ) → (now attempts : ℕ) → Option String → Changes
unfolding backoff_ms
outcome_of max_attempts now attempts none = record {
  status = sent;
  attempts = some attempts;
  error = none;
  delivered_at = some (some now);
  next_attempt_at = some none;
}
outcome_of max_attempts now attempts (some message) = record {
  status = if leb max_attempts attempts then failed else pending;
  attempts = some attempts;
  error = some message;
  delivered_at = none;
  next_attempt_at =
      some (if leb max_attempts attempts then none else some (now + backoff_ms attempts));
}

abbrev pub told : NotificationStatus → String → Option (Option ℕ) → Changes
told status error next = record {
  status = status;
  attempts = none;
  error = some error;
  delivered_at = none;
  next_attempt_at = next;
}

abbrev pub unconfigured : Changes
unconfigured = told failed "channel is no longer configured" (some none)

unfoldable pub take {ℓ} : {A : Type ℓ} → ℕ → List A → List A
take zero xs = []
take (suc n) [] = []
take (suc n) (x ∷ xs) = x ∷ take n xs

abbrev is_reached : ℕ → Option ℕ → Bool
is_reached now none = false
is_reached now (some at) = leb at now

-- The `where` of the retry sweep.
unfoldable pub is_due : ℕ → Notification → Bool
is_due now n = is_pending_status n.status && is_reached now n.next_attempt_at

-- `send` is the channel's delivery at a time, with the message of what it throws, cut to 500
-- characters; `explain` stands for the text of a skipped delivery.
module _ (db : Prisma) (cfg : Settings) (send : ℕ → NotificationChannel → Alert → Option String)
    (explain : AlertSeverity → AlertChannel → String) where
  unfoldable pub record_outcome :
      ℕ → String → NotificationChannel → Changes → List Notification → List Notification
  unfolding is_for
  record_outcome now alert_id channel c rows =
      (db.upsert (is_for alert_id channel)
        (created_row (db.uuid (λ n. n.id) rows) now alert_id channel c) (changed_row c) rows).0

  unfoldable pub attempt :
      ℕ → Alert → NotificationChannel → ℕ → List Notification → List Notification
  unfolding record_outcome outcome_of
  attempt now a channel prior_attempts rows =
      record_outcome now a.id channel
        (outcome_of cfg.max_attempts now (prior_attempts + 1) (send now channel a)) rows

  -- One round of the loop of `dispatch`.
  unfoldable pub dispatch_to : ℕ → Alert → AlertChannel → List Notification → List Notification
  unfolding attempt meets_threshold
  dispatch_to now a c rows =
      if not c.is_configured
      then rows
      else if not (meets_threshold a.severity c.min_severity)
      then record_outcome now a.id c.name (told skipped (explain a.severity c) none) rows
      else attempt now a c.name 0 rows

  unfoldable pub dispatch : ℕ → Alert → List AlertChannel → List Notification → List Notification
  unfolding dispatch_to
  dispatch now a [] rows = rows
  dispatch now a (c ∷ channels) rows = dispatch now a channels (dispatch_to now a c rows)

  -- The row's alert is there by its foreign key.
  unfoldable pub retry_on :
      ℕ → Notification → Option Alert → Option AlertChannel → List Notification → List Notification
  unfolding record_outcome attempt
  retry_on now n a none rows = record_outcome now n.alert_id n.channel unconfigured rows
  retry_on now n none (some c) rows = rows
  retry_on now n (some a) (some c) rows =
      if not c.is_configured
      then record_outcome now n.alert_id n.channel unconfigured rows
      else attempt now a c.name n.attempts rows

  unfoldable pub retry_all :
      ℕ → List Alert → List AlertChannel → List Notification → List Notification → List Notification
  unfolding retry_on
  retry_all now alerts channels [] rows = rows
  retry_all now alerts channels (n ∷ due_rows) rows = retry_all now alerts channels due_rows (
      retry_on now n (db.find_unique (λ a. a.id == n.alert_id) alerts)
        (find (λ c. c.name == n.channel) channels) rows)

  -- At most 25 due rows a sweep, in the order in which the database returns them.
  unfoldable pub retry_pending :
      ℕ → List Alert → List AlertChannel → List Notification → List Notification
  unfolding retry_all retry_on record_outcome attempt is_due take
  retry_pending now alerts channels rows =
      retry_all now alerts channels (take 25 (db.find_many (is_due now) rows)) rows
