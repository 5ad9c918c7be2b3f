-- ===== src/Tests/Starting.antt =====
-- The start-up checks and the clusters of the dashboard at concrete inputs.
use project.Base.{
  leb, utf16_length, Bool, List, String, [], all, any, arith, false, if◌then◌else◌, inr, none, refl,
  some, true, ℕ, ◌&&◌, ◌↔◌, ◌∷◌, ◌≡◌,
}
use project.Dashboard.Cluster.{cluster_alerts}
use project.Dashboard.ClusterRows.{cluster_alerts-is_faithful, is_faithful}
use project.Environment.{
  ClassValidator, EnvVars, Value, check_env, clean, configured, has_duplicate, has_sample,
  is_shorter, numbers_hold, sample_keys, texts_hold, validate_env,
}
use project.Environment.Checked.{IsConfigured, validate_env_iff}
use project.Hub.{Alert}
use project.Schedules.Editing.{Number, natural}
use project.Tests.Samples.{open_alert}

abbrev env : EnvVars
env = record {
  node_env = "production";
  port = natural 3000;
  agent_bootstrap_key = "bootstrap-1";
  operator_key = "operator-1";
  viewer_key = none;
  viewer_zones = "";
  admin_key = some "admin-key-1";
  database_url = "postgresql://db";
  heartbeat_timeout_ms = natural 30000;
  heartbeat_interval_ms = natural 10000;
  liveness_sweep_cron = "*/5 * * * * *";
  alert_cooldown_ms = natural 60000;
  events_page_limit = natural 50;
  events_page_max = natural 200;
  cors_origin = "*";
  notify_max_attempts = natural 5;
  notify_retry_cron = "*/30 * * * * *";
  smtp_host = none;
  smtp_port = natural 1025;
  smtp_secure = false;
  smtp_user = none;
  smtp_pass = none;
  alert_email_from = "security-hub@localhost";
  alert_email_to = none;
  alert_webhook_url = none;
  alert_webhook_secret = none;
  alert_webhook_timeout_ms = natural 5000;
  email_min_severity = "warning";
  webhook_min_severity = "warning";
  log_min_severity = "info";
  retention_sweep_cron = "0 30 3 * * *";
  retention_event_days = natural 0;
  retention_alert_days = natural 30;
  retention_notification_days = natural 0;
  retention_audit_days = natural 365;
  retention_batch_size = natural 1000;
  retention_max_batches = natural 50;
  retention_batch_pause_ms = natural 100;
  schedule_tick_cron = "*/30 * * * * *";
  schedule_grace_minutes = natural 60;
  mqtt_url = none;
}

all_or_one : Bool → ℕ
all_or_one b = if b then 0 else 1

all_or_one_lem : (b : Bool) → (all_or_one b ≡ 0) ↔ (b ≡ true)
unfolding all_or_one
all_or_one_lem b = ground arith

abbrev counting : ClassValidator
counting = record {
  min_length = λ s n. leb n (utf16_length s);
  errors = λ c. all_or_one (texts_hold (λ s n. leb n (utf16_length s)) c && numbers_hold c);
  errors_lem = λ c. all_or_one_lem (texts_hold (λ s n. leb n (utf16_length s)) c && numbers_hold c);
}

abbrev no_conversion : String → Number
no_conversion s = natural 0

abbrev kept_case : String → String
kept_case s = s

abbrev one_env : List (String × Value) → EnvVars
one_env cleaned = env

-- The example is an environment that starts.
env_starts : check_env env ≡ inr env
unfolding check_env has_sample any sample_keys has_duplicate configured is_shorter
env_starts = refl

validate_env_iff_example :
    (validate_env no_conversion kept_case one_env counting (("PORT", "3000") ∷ []) ≡ inr env) ↔ (
      (one_env (clean no_conversion kept_case (("PORT", "3000") ∷ [])) ≡ env)
      × IsConfigured
          (λ s n. leb n (utf16_length s))
          (one_env (clean no_conversion kept_case (("PORT", "3000") ∷ []))))
validate_env_iff_example =
    validate_env_iff no_conversion kept_case one_env counting (("PORT", "3000") ∷ []) env

abbrev again : Alert
again = record open_alert { id = "a2"; acknowledged = true; created_at = 6000 }

abbrev is_done : Alert → Bool
is_done a = a.acknowledged

cluster_alerts-is_faithful_example :
    all is_faithful (cluster_alerts (open_alert ∷ again ∷ [])) ≡ true
cluster_alerts-is_faithful_example = cluster_alerts-is_faithful (open_alert ∷ again ∷ [])
