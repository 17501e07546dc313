-- ===== src/SecurityRoutes.antt =====
-- app/routers/security.py: the rows of the security log that an account is shown, and what surrounds
-- one of them. The locations and the labels of browsers are left out.
use edtech_back.Base.{
  ℕ, ◌+◌, Bool, true, false, not, ◌&&◌, ◌||◌, Option, none, some, List, [], ◌∷◌, Text, text_eq,
  nonempty, take, ◌==◌, ltb, leb, latest_first, length, find, select, map, count_where, is_some,
  if◌then◌else◌, Outcome, ok, http_error,
}
use edtech_back.Model.{User, SecurityLog, SecurityEvent, RefreshToken, Db, is_super_admin}
use edtech_back.Lessons.{same_school, is_school_admin}
use edtech_back.Assignments.Many.{sorted_names}
use edtech_back.SigninWatch.{is_of, is_normal_login}
pub mod Scoped
pub mod Detail

-- `FILE_ACCESS_EVENTS`
abbrev pub is_file_access : SecurityEvent → Bool
is_file_access SecurityEvent.lesson_file_served = true
is_file_access SecurityEvent.lesson_file_refused = true
is_file_access _ = false

abbrev pub is_failed_login : SecurityEvent → Bool
is_failed_login SecurityEvent.failed_login = true
is_failed_login _ = false

-- the position of an event in its enumeration
abbrev pub event_number : SecurityEvent → ℕ
event_number SecurityEvent.normal_login = 0
event_number SecurityEvent.foreign_device = 1
event_number SecurityEvent.new_ip = 2
event_number SecurityEvent.suspicious_location = 3
event_number SecurityEvent.blocked_second_device = 4
event_number SecurityEvent.failed_login = 5
event_number SecurityEvent.account_locked = 6
event_number SecurityEvent.password_reset = 7
event_number SecurityEvent.signed_out_all = 8
event_number SecurityEvent.progress_reset = 9
event_number SecurityEvent.lesson_file_served = 10
event_number SecurityEvent.lesson_file_refused = 11

-- the event that is asked for, or all but the accesses to files
unfoldable pub is_listed : Option SecurityEvent → SecurityEvent → Bool
is_listed none event = not (is_file_access event)
is_listed (some wanted) event = event_number event == event_number wanted

-- `_scope`
unfoldable pub in_scope_of : User → SecurityLog → Bool
in_scope_of current log =
    if is_super_admin current.role
    then true
    else if is_school_admin current.role
    then same_school log.school_id current.school_id
    else is_of current.id log.user_id

-- `_may_read`
unfoldable pub may_read : User → SecurityLog → Bool
may_read current log =
    if is_super_admin current.role
    then true
    else if is_school_admin current.role
    then is_some log.school_id && same_school log.school_id current.school_id
    else is_of current.id log.user_id

-- `_may_see_account`
unfoldable pub may_see_account : User → Option User → Bool
may_see_account current none = false
may_see_account current (some account) =
    if is_super_admin current.role
    then true
    else if is_school_admin current.role
    then is_some account.school_id && same_school account.school_id current.school_id
    else account.id == current.id

-- `order_by(SecurityLog.timestamp.desc())`
unfoldable pub insert_log : SecurityLog → List SecurityLog → List SecurityLog
insert_log e [] = e ∷ []
insert_log e (f ∷ fs) = if ltb e.timestamp f.timestamp then f ∷ insert_log e fs else e ∷ f ∷ fs

unfoldable pub newest_logs : List SecurityLog → List SecurityLog
newest_logs [] = []
newest_logs (e ∷ es) = insert_log e (newest_logs es)

-- `list_security_logs`; FastAPI answers 422 to a limit out of its range
unfoldable pub list_security_logs :
    Db → User → ℕ → Option SecurityEvent → Outcome (List SecurityLog)
list_security_logs db current limit event =
    if leb 1 limit && leb limit 500
    then ok (
        take limit
          (newest_logs (select (λ e. in_scope_of current e && is_listed event e.event) db.log)))
    else http_error 422

-- `SecurityLogDetail`, with the counts and names of `IpHistory`
pub record LogDetail : Type 0 where
  pub log : SecurityLog
  pub sign_ins : ℕ
  pub failed_attempts : ℕ
  pub users : List Text
  pub recent_events : List SecurityLog
  pub active_sessions : List RefreshToken

-- the rows of an address that the account may be shown
unfoldable pub ip_rows : Db → User → Text → List SecurityLog
ip_rows db current ip =
    if nonempty ip then select (λ e. text_eq e.ip ip && in_scope_of current e) db.log else []

-- the other events of the account of a row
unfoldable pub recent_of : Db → User → SecurityLog → List SecurityLog
recent_of db current log = elim log.user_id [
  | none ↦ []
  | some id ↦ take 10 (
      newest_logs
        (select (λ e. is_of id e.user_id && not (e.id == log.id) && in_scope_of current e) db.log))
]

-- a token that is neither revoked nor expired
abbrev pub is_live_token : ℕ → ℕ → RefreshToken → Bool
is_live_token now user_id t = t.user_id == user_id && not t.revoked && ltb now t.expires_at

unfoldable pub sessions_of : ℕ → Db → User → SecurityLog → List RefreshToken
sessions_of now db current log = elim log.user_id [
  | none ↦ []
  | some id ↦
      if may_see_account current (find (λ u. u.id == id) db.users)
      then latest_first (select (is_live_token now id) db.tokens)
      else []
]

-- `security_log_detail`
unfoldable pub security_log_detail : ℕ → Db → User → ℕ → Outcome LogDetail
security_log_detail now db current log_id = elim (find (λ e. e.id == log_id) db.log) [
  | none ↦ http_error 404
  | some log ↦
      let rows = ip_rows db current log.ip in
      if not (may_read current log)
      then http_error 403
      else ok (record {
        log = log;
        sign_ins = count_where (λ e. is_normal_login e.event) rows;
        failed_attempts = count_where (λ e. is_failed_login e.event) rows;
        users = sorted_names (select nonempty (map (λ e. e.user_name) rows));
        recent_events = recent_of db current log;
        active_sessions = sessions_of now db current log;
      })
]
