-- ===== src/Auth/Locking.antt =====
-- What the account lockout does to a run of wrong passwords.
use edtech_back.Base.{
  ℕ, zero, suc, ◌+◌, ◌-◌, ◌*◌, ◌/◌, ◌^◌, ◌≤◌, ◌<◌, min, max, ◌≡◌, ◌∙◌, refl, ap, none, some, List,
  [], ◌∷◌, ◌++◌, length, All, arith,
}
use edtech_back.Model.{User, Settings, minutes}
use edtech_back.Auth.Lockout.{account_lock_minutes, in_window, count_failure, wrong_password}

pow_pos : (n : ℕ) → 1 ≤ 2 ^ n
pow_pos zero = omega arith
pow_pos (suc n) = omega (arith, pow_pos n)

le_scale : (a b : ℕ) → 1 ≤ b → a ≤ a * b
le_scale a zero h = absurd (omega arith)
le_scale a (suc b) h = omega arith

-- A lock lasts at least as long as the first one may, and never longer than the longest one.
pub account_lock_minutes-bounds :
    (settings : Settings) (failed_count : ℕ)
    → (min settings.lockout_minutes settings.max_lockout_minutes
        ≤ account_lock_minutes settings failed_count)
      × (account_lock_minutes settings failed_count ≤ settings.max_lockout_minutes)
unfolding account_lock_minutes
account_lock_minutes-bounds settings failed_count =
    let grown =
      le_scale settings.lockout_minutes
        (2 ^ (max 1 (failed_count / settings.max_failed_logins) - 1))
        (pow_pos (max 1 (failed_count / settings.max_failed_logins) - 1)) in
    (omega (arith, grown), omega arith)

module _ (settings : Settings) where
  -- wrong passwords for one account, at the moments of the list
  unfoldable pub fail_all : List ℕ → User → User
  fail_all [] user = user
  fail_all (now ∷ moments) user = fail_all moments (wrong_password settings now user)

  -- within the window of the run, before the limit
  record IsRun (started count : ℕ) (user : User) : Type 0 where
    pub window : user.failed_login_window_started_at ≡ some started
    pub counted : user.failed_login_count ≡ count
    pub free : user.locked_until ≡ none

  wrong_password-IsRun :
      (started count now : ℕ) (user : User)
      → IsRun started count user
      → now < started + minutes settings.failed_login_window_minutes
      → count + 1 < settings.max_failed_logins
      → IsRun started (count + 1) (wrong_password settings now user)
  unfolding wrong_password in_window count_failure
  wrong_password-IsRun started count now user run within below = record {
    window = ground (arith, run.window, run.counted, run.free);
    counted = ground (arith, run.window, run.counted, run.free);
    free = ground (arith, run.window, run.counted, run.free);
  }

  wrong_password-locks :
      (started count now : ℕ) (user : User)
      → IsRun started count user
      → now < started + minutes settings.failed_login_window_minutes
      → count + 1 ≡ settings.max_failed_logins
      → (wrong_password settings now user).locked_until
        ≡ some (now + minutes (account_lock_minutes settings settings.max_failed_logins))
  unfolding wrong_password in_window count_failure
  wrong_password-locks started count now user run within limit =
      ground (arith, run.window, run.counted, run.free, limit)

  fail_all-locks :
      (started count last : ℕ) (moments : List ℕ) (user : User)
      → IsRun started count user
      → All (λ m. m < started + minutes settings.failed_login_window_minutes) moments
      → last < started + minutes settings.failed_login_window_minutes
      → count + length moments + 1 ≡ settings.max_failed_logins
      → (fail_all (moments ++ last ∷ []) user).locked_until
        ≡ some (last + minutes (account_lock_minutes settings settings.max_failed_logins))
  unfolding fail_all
  fail_all-locks started count last [] user run early late limit =
      wrong_password-locks started count last user run late (omega arith)
  fail_all-locks started count last (now ∷ moments) user run early late limit =
      fail_all-locks started (count + 1) last moments (wrong_password settings now user)
        (wrong_password-IsRun started count now user run early.0 (omega arith)) early.1 late
        (omega arith)

  wrong_password-locked :
      (until now : ℕ) (user : User)
      → user.locked_until ≡ some until
      → now < until
      → wrong_password settings now user ≡ user
  unfolding wrong_password
  wrong_password-locked until now user locked before = ground (arith, locked)

  fail_all-locked :
      (until : ℕ) (moments : List ℕ) (user : User)
      → user.locked_until ≡ some until
      → All (λ m. m < until) moments
      → fail_all moments user ≡ user
  unfolding fail_all
  fail_all-locked until [] user locked before = refl
  fail_all-locked until (now ∷ moments) user locked before =
      ap (fail_all moments) (wrong_password-locked until now user locked before.0)
      ∙ fail_all-locked until moments user locked before.1

  -- An account that is not locked and in a run of `count` failures is locked by the failure that reaches the limit, all of
  -- them within the window; and wrong passwords before the lock has expired leave the account as it
  -- is then: they do not prolong the lock.
  pub fail_all-lock_stays :
      (started count last : ℕ) (moments later : List ℕ) (user : User)
      → user.failed_login_window_started_at ≡ some started
      → user.failed_login_count ≡ count
      → user.locked_until ≡ none
      → All (λ m. m < started + minutes settings.failed_login_window_minutes) moments
      → last < started + minutes settings.failed_login_window_minutes
      → count + length moments + 1 ≡ settings.max_failed_logins
      → All
          (λ m. m < last + minutes (account_lock_minutes settings settings.max_failed_logins))
          later
      → ((fail_all (moments ++ last ∷ []) user).locked_until
          ≡ some (last + minutes (account_lock_minutes settings settings.max_failed_logins)))
        × (fail_all later (fail_all (moments ++ last ∷ []) user)
            ≡ fail_all (moments ++ last ∷ []) user)
  fail_all-lock_stays started count last moments later user window counted free early late limit
        before =
      let run : IsRun started count user = record {
        window = window;
        counted = counted;
        free = free;
      } in
      let locked = fail_all-locks started count last moments user run early late limit in
      (locked, fail_all-locked _ later _ locked before)
