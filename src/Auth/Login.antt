-- ===== src/Auth/Login.antt =====
-- `login`. Argon2 is library code: a parameter. The rows that `note_unfamiliar_signin` and
-- `check_sign_in` add to the security log are an argument; SigninWatch has them.
use edtech_back.Base.{
  ℕ, Bool, false, not, ◌&&◌, Option, none, some, List, ◌++◌, length, ◌+◌, Text, text_eq, ◌==◌,
  lower_code, map, find, update_where, if◌then◌else◌, Outcome, ok, http_error,
}
use edtech_back.Model.{
  User, UserStatus, SecurityLog, SecurityEvent, SecurityStatus, Db, Settings, Role, Sections,
  is_active,
}
use edtech_back.Auth.Lockout.{is_locked, failure_locks, wrong_password, clear_lockout}
use edtech_back.Auth.Throttle.{enforce_ip_throttle, record_ip_failure, clear_ip_failures}
use edtech_back.Auth.Tokens.{AccessToken, Origin, TokenLibrary, record_event, issue_session}

pub record PasswordLibrary : Type 0 where
  pub verify_password : Text → Text → Bool
  pub hash_password : Text → Text
  pub needs_rehash : Text → Bool

pub record LoginRequest : Type 0 where
  pub email : Text
  pub password : Text

-- `SessionUser`
pub record SessionUser : Type 0 where
  pub user_id : ℕ
  pub name : Text
  pub email : Text
  pub role : Role
  pub school_id : Option ℕ
  pub ict_fair_access : Bool
  pub grades : List Text
  pub sections : Sections
  pub access_token : AccessToken

abbrev pub put_user : User → Db → Db
put_user user db = record db { users = update_where (λ u. u.id == user.id) (λ _. user) db.users }

unfoldable pub session_user : User → AccessToken → SessionUser
session_user user access = record {
  user_id = user.id;
  name = user.name;
  email = user.email;
  role = user.role;
  school_id = user.school_id;
  ict_fair_access = user.ict_fair_access;
  grades = user.grades;
  sections = user.sections;
  access_token = access;
}

module _ (passwords : PasswordLibrary) (lib : TokenLibrary) (settings : Settings)
    (watch : User → Origin → Db → List SecurityLog) (now : ℕ) (origin : Origin) where
  -- the log rows of a wrong password for the account as it was, and as it is now
  unfoldable pub log_failure : User → User → Db → Db
  log_failure before user db =
      let failed =
        record_event now origin SecurityEvent.failed_login SecurityStatus.warning (some user) db in
      if not (is_locked now before.locked_until) && failure_locks settings user
      then record_event now origin SecurityEvent.account_locked SecurityStatus.blocked (some user)
          failed
      else failed

  -- the branch `if not valid` for the account
  unfoldable pub fail_account : User → Db → Db
  fail_account user db =
      let failed = wrong_password settings now user in log_failure user failed (put_user failed db)

  abbrev pub is_valid : Option User → Text → Bool
  is_valid none password = false
  is_valid (some user) password = passwords.verify_password password user.password_hash

  -- the event of the right password on an account that is not active
  abbrev pub inactive_event : UserStatus → SecurityEvent
  inactive_event UserStatus.pending = SecurityEvent.blocked_second_device
  inactive_event _ = SecurityEvent.failed_login

  -- the account as a successful sign-in leaves it
  unfoldable pub signed_in : Text → User → User
  signed_in password user =
      let cleared = record (clear_lockout user) { last_login_at = some now } in
      if passwords.needs_rehash user.password_hash
      then record cleared { password_hash = passwords.hash_password password }
      else cleared

  -- the success branch
  unfoldable pub sign_in : User → Text → Text → Db → SessionUser × Db
  sign_in user password fresh db =
      let user' = signed_in password user in
      let cleared = clear_ip_failures now origin.ip (put_user user' db) in
      let rows = watch user' origin cleared in
      let watched = record cleared {
        log = cleared.log ++ rows;
        next_id = cleared.next_id + length rows;
      } in
      let (access, issued) = issue_session lib settings now user' fresh watched in
      (
        session_user user' access,
        record_event now origin SecurityEvent.normal_login SecurityStatus.ok (some user) issued,
      )

  -- the branches behind the right password
  unfoldable pub admit : User → Text → Text → Db → Outcome SessionUser × Db
  admit user password fresh db =
      let (session, signed) = sign_in user password fresh db in
      if is_locked now user.locked_until
      then (
        http_error 429,
        record_event now origin SecurityEvent.account_locked SecurityStatus.blocked (some user) db,
      )
      else if not (is_active user.status)
      then (
        http_error 403,
        record_event now origin (inactive_event user.status) SecurityStatus.blocked (some user) db,
      )
      else (ok session, signed)

  -- the handler behind the throttle
  unfoldable pub check_password : Option User → Text → Text → Db → Outcome SessionUser × Db
  check_password none password fresh db =
      (http_error 401, record_ip_failure settings now origin.ip db)
  check_password (some user) password fresh db =
      if passwords.verify_password password user.password_hash
      then admit user password fresh db
      else (http_error 401, record_ip_failure settings now origin.ip (fail_account user db))

  -- `login`; `fresh` is the new random refresh token
  unfoldable pub login : LoginRequest → Text → Db → Outcome SessionUser × Db
  login payload fresh db = elim (enforce_ip_throttle settings now origin.ip db) [
    | http_error code ↦ (http_error code, db)
    | ok db' ↦
        check_password (find (λ u. text_eq u.email (map lower_code payload.email)) db.users)
          payload.password fresh db'
  ]
