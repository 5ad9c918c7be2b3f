-- ===== src/Settings.antt =====
-- hub/src/config/configuration.ts: the settings that the modelled services read.
use project.Base.{ℕ}

pub record Settings : Type 0 where
  pub cooldown_ms : ℕ
  pub timeout_ms : ℕ
  pub grace_minutes : ℕ
  pub default_limit : ℕ
  pub max_limit : ℕ
  pub batch_size : ℕ
  pub max_batches : ℕ
  pub max_attempts : ℕ
