-- ===== src/Auth/Lockout.antt =====
-- The account lockout: `_account_lock_minutes`, the counting of failures in `login`, and
-- `User.clear_lockout`.
use edtech_back.Base.{
  ℕ, ◌+◌, ◌-◌, ◌*◌, ◌/◌, ◌^◌, min, max, Bool, true, false, Option, none, some, leb, ltb,
  if◌then◌else◌, not, ◌&&◌, ◌==◌,
}
use edtech_back.Model.{User, Settings, minutes}

unfoldable pub account_lock_minutes : Settings → ℕ → ℕ
account_lock_minutes settings failed_count =
    let lockouts = max 1 (failed_count / settings.max_failed_logins) in
    min (settings.lockout_minutes * 2 ^ (lockouts - 1)) settings.max_lockout_minutes

-- `x is None or x <= now - window`
abbrev pub is_over : ℕ → ℕ → Option ℕ → Bool
is_over window now none = true
is_over window now (some started) = leb (started + window) now

-- `locked_until and locked_until > now`
abbrev pub is_locked : ℕ → Option ℕ → Bool
is_locked now none = false
is_locked now (some until) = ltb now until

-- the run of failures that this one belongs to
unfoldable pub in_window : Settings → ℕ → User → User
in_window settings now user =
    if is_over (minutes settings.failed_login_window_minutes) now
      user.failed_login_window_started_at
    then record user { failed_login_count = 0; failed_login_window_started_at = some now }
    else user

-- the failure is counted, and locks the account if it is one too many
unfoldable pub count_failure : Settings → ℕ → User → User
count_failure settings now user =
    let count = user.failed_login_count + 1 in
    record user {
      failed_login_count = count;
      locked_until =
          if leb settings.max_failed_logins count
          then some (now + minutes (account_lock_minutes settings count))
          else user.locked_until;
    }

-- the failure crosses the limit: `locked_for` is set, and not 0
unfoldable pub failure_locks : Settings → User → Bool
failure_locks settings user =
    leb settings.max_failed_logins user.failed_login_count
    && not (account_lock_minutes settings user.failed_login_count == 0)

-- a wrong password for an account
unfoldable pub wrong_password : Settings → ℕ → User → User
wrong_password settings now user =
    if is_locked now user.locked_until
    then user
    else count_failure settings now (in_window settings now user)

unfoldable pub clear_lockout : User → User
clear_lockout user = record user {
  failed_login_count = 0;
  locked_until = none;
  failed_login_window_started_at = none;
}
