-- ===== src/Tests/Accounts.antt =====
-- Runs of the two limits on guessing, and of a refused sign-in.
use edtech_back.Base.{
  ◌+◌, ◌≡◌, ◌<◌, refl, true, false, some, [], ◌∷◌, Text, codes, text_eq, contains_text, lower_code,
  find, any, all, select, update_where, delete_where, count_where, ok, http_error, arith,
}
use edtech_back.Model.{User, LoginThrottle, Db, default_settings, minutes}
use edtech_back.Permissions.{Capability, can, user_can}
use edtech_back.Auth.Lockout.{account_lock_minutes}
use edtech_back.Auth.Locking.{account_lock_minutes-bounds, fail_all, fail_all-lock_stays}
use edtech_back.Auth.Throttle.{
  new_throttle, enforce_ip_throttle, open_window, open_cycles, end_cycle, fail_row,
}
use edtech_back.Auth.Network.{AreThrottles, login-AreThrottles}
use edtech_back.Auth.Tokens.{issue_session, rotate, refresh_row, refresh}
use edtech_back.Auth.Login.{LoginRequest, is_valid, login}
use edtech_back.Auth.Answers.{account_of, login-invalid}
use edtech_back.Tests.Fixtures.{
  admin_2, teacher_1, token_60, db_1, plain_tokens, plain_passwords, classroom,
}

-- what the runs below compute with
accounts_program : Unit {0}
unfolding find any all select update_where delete_where count_where text_eq contains_text lower_code
    enforce_ip_throttle open_window open_cycles end_cycle fail_row issue_session rotate refresh_row
    refresh
accounts_program = tt

may_create : user_can admin_2 Capability.create_users ≡ true
unfolding user_can can
may_create = refl

-- three wrong passwords so far
abbrev guessed : User
guessed = record teacher_1 { failed_login_count = 3; failed_login_window_started_at = some 0 }

still_locked : 20 < 20 + minutes (account_lock_minutes default_settings 5)
still_locked = let long = (account_lock_minutes-bounds default_settings 5).0 in omega (arith, long)

fail_all-lock_stays_example :
    ((fail_all default_settings (10 ∷ 20 ∷ []) guessed).locked_until
      ≡ some (20 + minutes (account_lock_minutes default_settings 5)))
    × (fail_all default_settings (20 ∷ []) (fail_all default_settings (10 ∷ 20 ∷ []) guessed)
        ≡ fail_all default_settings (10 ∷ 20 ∷ []) guessed)
fail_all-lock_stays_example =
    fail_all-lock_stays default_settings 0 3 20 (10 ∷ []) (20 ∷ []) guessed refl refl refl
      (omega arith, tt) (omega arith) refl (still_locked, tt)

-- four failures and a cycle so far
abbrev failing : LoginThrottle
failing = record (new_throttle (codes "10.0.0.1")) {
  failed_count = 4;
  cycle_count = 1;
  window_started_at = some 10;
  cycle_started_at = some 5;
}

abbrev db_failing : Db
db_failing = record db_1 { throttles = failing ∷ [] }

throttled : AreThrottles default_settings 20 db_failing
throttled =
    (record { below = omega arith; instead = λ b. refl; earned = λ b. absurd (ground arith) }, tt)

abbrev attempt : Text → LoginRequest
attempt password = record { email = codes "Rima@school"; password = password }

login-AreThrottles_example :
    AreThrottles default_settings 20
      (login
        (plain_passwords text_eq)
        plain_tokens
        default_settings
        (λ _ _ _. [])
        20
        classroom
        (attempt (codes "guess"))
        (codes "new")
        db_failing).1
login-AreThrottles_example =
    login-AreThrottles (plain_passwords text_eq) plain_tokens default_settings (λ _ _ _. []) 20
      classroom (attempt (codes "guess")) (codes "new") db_failing (omega arith) throttled

passes : enforce_ip_throttle default_settings 20 (codes "10.0.0.1") db_1 ≡ ok db_1
unfolding accounts_program
passes = refl

wrong_guess :
    is_valid
      (plain_passwords text_eq)
      plain_tokens
      default_settings
      (λ _ _ _. [])
      20
      classroom
      (account_of
        (plain_passwords text_eq)
        plain_tokens
        default_settings
        (λ _ _ _. [])
        20
        classroom
        (attempt (codes "guess"))
        db_1)
      (codes "guess")
    ≡ false
unfolding accounts_program
wrong_guess = refl

login-invalid_example :
    ((login
        (plain_passwords text_eq)
        plain_tokens
        default_settings
        (λ _ _ _. [])
        20
        classroom
        (attempt (codes "guess"))
        (codes "new")
        db_1).0
      ≡ http_error 401)
    × ((login
          (plain_passwords text_eq)
          plain_tokens
          default_settings
          (λ _ _ _. [])
          20
          classroom
          (attempt (codes "guess"))
          (codes "new")
          db_1).1.tokens
        ≡ token_60 ∷ [])
login-invalid_example =
    login-invalid (plain_passwords text_eq) plain_tokens default_settings (λ _ _ _. []) 20 classroom
      (attempt (codes "guess")) (codes "new") db_1 db_1 passes wrong_guess
