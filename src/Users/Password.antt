-- ===== src/Users/Password.antt =====
-- What a new password, set by an administrator, does to the account and to its sessions.
use edtech_back.Base.{
  ℕ, ◌≡◌, ◌∙◌, refl, sym, none, some, Text, ◌==◌, ==_refl, find, find-update_where,
  find-update_where_any, http_error,
}
use mathlib.Core.Path.{subst}
use edtech_back.Model.{User, RefreshToken, Db, Settings}
use edtech_back.Auth.Lockout.{clear_lockout}
use edtech_back.Auth.Tokens.{
  TokenLibrary, Origin, of_token, refresh, end_all_sessions, record_event,
}
use edtech_back.Auth.Login.{PasswordLibrary}
use edtech_back.Auth.Rotation.{find_revoked-refused, end_all_sessions-find}
use edtech_back.Users.{reset_password}

-- the account after the reset: the new password, no lockout, and no earlier session
pub record IsRenewed (passwords : PasswordLibrary) (now : ℕ) (password : Text) (u : User)
    : Type 0 where
  pub hashed : u.password_hash ≡ passwords.hash_password password
  pub unlocked : u.locked_until ≡ none
  pub uncounted : u.failed_login_count ≡ 0
  pub cut : u.sessions_valid_from ≡ some now

module _ (passwords : PasswordLibrary) (lib : TokenLibrary) (settings : Settings) (now : ℕ)
    (origin : Origin) (password : Text) (db : Db) (user : User)
    (known : find (λ u. u.id == user.id) db.users ≡ some user) where
  -- the database after the reset
  abbrev pub after_reset : Db
  after_reset = (reset_password passwords lib settings now origin user.id password db).1

  reset_password-tokens :
      (reset_password passwords lib settings now origin user.id password db).1.tokens
      ≡ (end_all_sessions lib settings now user.id db).1.tokens
  unfolding reset_password record_event end_all_sessions
  reset_password-tokens = rw (known, reset_password) refl

  -- After a reset no refresh token that was issued to the account before it is answered with new
  -- tokens.
  pub reset_password-refused :
      (later : ℕ) (raw fresh : Text) (t : RefreshToken)
      → find (of_token lib settings now raw) db.tokens ≡ some t
      → t.user_id ≡ user.id
      → refresh lib settings later raw fresh after_reset ≡ (http_error 401, after_reset)
  reset_password-refused later raw fresh t e same =
      let (r, found, revoked) = end_all_sessions-find lib settings now user.id raw db t e same in
      find_revoked-refused lib settings later raw fresh after_reset r
        (subst (λ ts. find (of_token lib settings now raw) ts ≡ some r) (sym reset_password-tokens)
          found)
        revoked

  reset_password-users :
      find
        (λ v. v.id == user.id)
        (reset_password passwords lib settings now origin user.id password db).1.users
      ≡ some (record user {
        password_hash = passwords.hash_password password;
        failed_login_count = 0;
        locked_until = none;
        failed_login_window_started_at = none;
        sessions_valid_from = some now;
      })
  unfolding reset_password record_event end_all_sessions clear_lockout
  reset_password-users =
      rw (known, reset_password)
        (find-update_where_any (λ v. v.id == user.id) (λ v. v.id == user.id)
            (λ v. record v { sessions_valid_from = some now }) (λ v. refl) _
          ∙ rw
              (find-update_where (λ v. v.id == user.id)
                (λ _.
                  clear_lockout (record user { password_hash = passwords.hash_password password }))
                (λ v h. ==_refl user.id) db.users)
              (rw known (rw (==_refl user.id) refl)))

  -- A reset leaves the account with the new password, without a lockout, and with every access
  -- token of an earlier second cut off.
  pub reset_password-IsRenewed :
      (u : User) × (find (λ v. v.id == user.id) after_reset.users ≡ some u)
      × IsRenewed passwords now password u
  reset_password-IsRenewed = (
    record user {
      password_hash = passwords.hash_password password;
      failed_login_count = 0;
      locked_until = none;
      failed_login_window_started_at = none;
      sessions_valid_from = some now;
    },
    reset_password-users,
    record { hashed = refl; unlocked = refl; uncounted = refl; cut = refl },
  )
