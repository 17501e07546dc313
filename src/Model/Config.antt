-- ===== src/Model/Config.antt =====
-- app/config.py: the settings that the modelled code reads, and their defaults.
use edtech_back.Base.{ℕ, ◌*◌}

pub record Settings : Type 0 where
  pub refresh_token_expire_days : ℕ
  pub max_failed_logins : ℕ
  pub lockout_minutes : ℕ
  pub max_lockout_minutes : ℕ
  pub failed_login_window_minutes : ℕ
  pub login_ip_max_failures : ℕ
  pub login_ip_window_minutes : ℕ
  pub login_ip_ban_cycles : ℕ
  pub login_ip_cycle_window_minutes : ℕ
  pub login_ip_block_hours : ℕ
  pub lesson_unlock_wait_days : ℕ
  pub ai_teacher_daily_limit : ℕ
  pub ai_teacher_hourly_limit : ℕ
  pub ai_admin_daily_limit : ℕ
  pub ai_admin_hourly_limit : ℕ
  pub signin_window_minutes : ℕ

abbrev pub default_settings : Settings
default_settings = record {
  refresh_token_expire_days = 7;
  max_failed_logins = 5;
  lockout_minutes = 15;
  max_lockout_minutes = 1440;
  failed_login_window_minutes = 60;
  login_ip_max_failures = 5;
  login_ip_window_minutes = 15;
  login_ip_ban_cycles = 2;
  login_ip_cycle_window_minutes = 120;
  login_ip_block_hours = 24;
  lesson_unlock_wait_days = 7;
  ai_teacher_daily_limit = 40;
  ai_teacher_hourly_limit = 15;
  ai_admin_daily_limit = 15;
  ai_admin_hourly_limit = 5;
  signin_window_minutes = 10;
}

-- `timedelta(minutes=n)`, `timedelta(hours=n)` and `timedelta(days=n)`, in microseconds
abbrev pub minutes : ℕ → ℕ
minutes n = n * 60000000

abbrev pub hours : ℕ → ℕ
hours n = n * 3600000000

abbrev pub days : ℕ → ℕ
days n = n * 86400000000
