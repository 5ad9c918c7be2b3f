-- ===== src/Environment.antt =====
-- hub/src/config/env.validation.ts: the checks at start-up. The libraries that build and validate the
-- instance (class-transformer and class-validator) are parameters; the decorators' constraints are
-- written out. `to_number` stands for the conversion of a text to a number.
pub mod Credentials
pub mod Checked
use project.Base.{
  Bool, List, Option, String, [], any, eq_option, eq_string, eq_ℕ, false, if◌then◌else◌, inl, inr,
  leb, ltb, none, not, some, true, ℕ, ◌&&◌, ◌++◌, ◌==◌, ◌↔◌, ◌∷◌, ◌≡◌, ◌⊎◌,
}
use project.Contracts.Modes.{eq_severity}
use project.Schedules.Editing.{Number, natural}

pub data Value : Type 0 where
  text : String → Value
  number : Number → Value
  flag : Bool → Value

-- The instance. An optional key that is not set is `none`.
pub record EnvVars : Type 0 where
  pub node_env : String
  pub port : Number
  pub agent_bootstrap_key : String
  pub operator_key : String
  pub viewer_key : Option String
  pub viewer_zones : String
  pub admin_key : Option String
  pub database_url : String
  pub heartbeat_timeout_ms : Number
  pub heartbeat_interval_ms : Number
  pub liveness_sweep_cron : String
  pub alert_cooldown_ms : Number
  pub events_page_limit : Number
  pub events_page_max : Number
  pub cors_origin : String
  pub notify_max_attempts : Number
  pub notify_retry_cron : String
  pub smtp_host : Option String
  pub smtp_port : Number
  pub smtp_secure : Bool
  pub smtp_user : Option String
  pub smtp_pass : Option String
  pub alert_email_from : String
  pub alert_email_to : Option String
  pub alert_webhook_url : Option String
  pub alert_webhook_secret : Option String
  pub alert_webhook_timeout_ms : Number
  pub email_min_severity : String
  pub webhook_min_severity : String
  pub log_min_severity : String
  pub retention_sweep_cron : String
  pub retention_event_days : Number
  pub retention_alert_days : Number
  pub retention_notification_days : Number
  pub retention_audit_days : Number
  pub retention_batch_size : Number
  pub retention_max_batches : Number
  pub retention_batch_pause_ms : Number
  pub schedule_tick_cron : String
  pub schedule_grace_minutes : Number
  pub mqtt_url : Option String

-- `IsInt` with `Min`, and with `Min` and `Max`.
abbrev pub at_least : ℕ → Number → Bool
at_least low (natural n) = leb low n
at_least low _ = false

abbrev pub in_range : ℕ → ℕ → Number → Bool
in_range low high (natural n) = leb low n && leb n high
in_range low high _ = false

abbrev is_one_of : List String → String → Bool
is_one_of options s = any (λ o. o == s) options

-- `IsNotEmpty` and `MinLength(8)`; `min_length` stands for class-validator's `minLength`, which says
-- how the characters of a text are counted.
abbrev is_key : (min_length : String → ℕ → Bool) → String → Bool
is_key min_length s = not (s == "") && min_length s 8

abbrev is_optional_key : (min_length : String → ℕ → Bool) → Option String → Bool
is_optional_key min_length none = true
is_optional_key min_length (some s) = min_length s 8

abbrev severities : List String
severities = "info" ∷ "warning" ∷ "critical" ∷ []

-- The constraints that the decorators state, by the kind of the field.
unfoldable pub texts_hold : (min_length : String → ℕ → Bool) → EnvVars → Bool
unfolding any
texts_hold min_length c =
    is_one_of ("development" ∷ "production" ∷ "test" ∷ []) c.node_env
    && (is_key min_length c.agent_bootstrap_key
        && (is_key min_length c.operator_key
            && (is_optional_key min_length c.viewer_key
                && (is_optional_key min_length c.admin_key
                    && (not (c.database_url == "")
                        && (not (c.liveness_sweep_cron == "")
                            && (not (c.notify_retry_cron == "")
                                && (not (c.retention_sweep_cron == "")
                                    && (not (c.schedule_tick_cron == "")
                                        && (is_one_of severities c.email_min_severity
                                            && (is_one_of severities c.webhook_min_severity
                                                && is_one_of severities
                                                    c.log_min_severity)))))))))))

-- The windows and bounds of the nightly sweep, and the grace of the schedules.
unfoldable pub retention_holds : EnvVars → Bool
retention_holds c =
    at_least 0 c.retention_event_days
    && (at_least 0 c.retention_alert_days
        && (at_least 0 c.retention_notification_days
            && (at_least 0 c.retention_audit_days
                && (in_range 100 10000 c.retention_batch_size
                    && (at_least 1 c.retention_max_batches
                        && (at_least 0 c.retention_batch_pause_ms
                            && in_range 0 720 c.schedule_grace_minutes))))))

unfoldable pub numbers_hold : EnvVars → Bool
unfolding retention_holds
numbers_hold c =
    in_range 1 65535 c.port
    && (at_least 5000 c.heartbeat_timeout_ms
        && (at_least 1000 c.heartbeat_interval_ms
            && (at_least 0 c.alert_cooldown_ms
                && (at_least 1 c.events_page_limit
                    && (in_range 1 1000 c.events_page_max
                        && (in_range 1 20 c.notify_max_attempts
                            && (in_range 1 65535 c.smtp_port
                                && (at_least 500 c.alert_webhook_timeout_ms
                                    && retention_holds c))))))))

-- `SAMPLE_KEYS`.
unfoldable pub sample_keys : List String
sample_keys =
    "dev-bootstrap-key-change-me" ∷ "dev-operator-key-change-me" ∷ "dev-viewer-key-change-me"
    ∷ "dev-admin-key-change-me" ∷ "dev-key-change-me" ∷ []

abbrev pub given : Option String → List String
given none = []
given (some s) = if s == "" then [] else s ∷ []

-- The credentials that are configured, in the order of the checks.
unfoldable pub configured : EnvVars → List String
configured c =
    given (some c.agent_bootstrap_key)
    ++ given (some c.operator_key)
    ++ given c.viewer_key
    ++ given c.admin_key

unfoldable pub has_sample : List String → Bool
unfolding any sample_keys
has_sample keys = any (λ k. any (λ s. s == k) sample_keys) keys

-- The loop over the configured credentials, with those already seen.
unfoldable pub has_duplicate : List String → List String → Bool
unfolding any
has_duplicate seen [] = false
has_duplicate seen (k ∷ keys) =
    let rest = has_duplicate (k ∷ seen) keys in if any (λ s. s == k) seen then true else rest

-- A number that the constraints have let through.
abbrev pub value : Number → ℕ
value (natural n) = n
value _ = 0

-- `notificationWindow < alertWindow`, where 0 is for ever.
unfoldable pub is_shorter : ℕ → ℕ → Bool
is_shorter notifications alerts =
    if notifications == 0 then false else if alerts == 0 then true else ltb notifications alerts

pub data EnvError : Type 0 where
  invalid sample_value same_value timeout_too_short page_too_long window_too_short : EnvError

-- The checks on the instance, once the constraints have been validated.
unfoldable pub check_env : EnvVars → EnvError ⊎ EnvVars
unfolding has_sample configured has_duplicate is_shorter
check_env c =
    if c.node_env == "production" && has_sample (configured c)
    then inl sample_value
    else if has_duplicate [] (configured c)
    then inl same_value
    else if leb (value c.heartbeat_timeout_ms) (value c.heartbeat_interval_ms)
    then inl timeout_too_short
    else if ltb (value c.events_page_max) (value c.events_page_limit)
    then inl page_too_long
    else if is_shorter (value c.retention_notification_days) (value c.retention_alert_days)
    then inl window_too_short
    else inr c

-- `validateSync`: the number of its errors, none exactly where every constraint holds; `min_length` is
-- its check of a text's length.
pub record ClassValidator : Type 0 where
  pub min_length : String → ℕ → Bool
  pub errors : EnvVars → ℕ
  pub errors_lem :
      (c : EnvVars) → (errors c ≡ 0) ↔ ((texts_hold min_length c && numbers_hold c) ≡ true)

-- `NUMERIC_KEYS` and `BOOLEAN_KEYS`.
unfoldable pub numeric_keys : List String
numeric_keys =
    "PORT" ∷ "HEARTBEAT_TIMEOUT_MS" ∷ "HEARTBEAT_INTERVAL_MS" ∷ "ALERT_COOLDOWN_MS"
    ∷ "EVENTS_PAGE_LIMIT" ∷ "EVENTS_PAGE_MAX" ∷ "NOTIFY_MAX_ATTEMPTS" ∷ "SMTP_PORT"
    ∷ "ALERT_WEBHOOK_TIMEOUT_MS" ∷ "RETENTION_EVENT_DAYS" ∷ "RETENTION_ALERT_DAYS"
    ∷ "RETENTION_NOTIFICATION_DAYS" ∷ "RETENTION_AUDIT_DAYS" ∷ "RETENTION_BATCH_SIZE"
    ∷ "RETENTION_MAX_BATCHES" ∷ "RETENTION_BATCH_PAUSE_MS" ∷ "SCHEDULE_GRACE_MINUTES" ∷ []

module _ (to_number : String → Number) (lower : String → String) where
  -- The conversion of one value, by its key.
  unfoldable pub convert : String → String → Value
  unfolding any numeric_keys
  convert key s =
      if any (λ k. k == key) numeric_keys
      then number (to_number s)
      else if key == "SMTP_SECURE"
      then flag (is_one_of ("true" ∷ "1" ∷ "yes" ∷ []) (lower s))
      else text s

  -- Blank values are dropped, so that a default takes their place.
  unfoldable pub clean : List (String × String) → List (String × Value)
  unfolding convert
  clean [] = []
  clean ((key, s) ∷ raw) =
      let rest = clean raw in if s == "" then rest else (key, convert key s) ∷ rest

  module _ (plain_to_instance : List (String × Value) → EnvVars) (validator : ClassValidator) where
    unfoldable pub validate_env : List (String × String) → EnvError ⊎ EnvVars
    unfolding clean check_env
    validate_env raw =
        let config = plain_to_instance (clean raw) in
        if ltb 0 (validator.errors config) then inl invalid else check_env config
