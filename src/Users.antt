-- ===== src/Users.antt =====
-- app/routers/users.py: creating, editing, suspending and deleting accounts, and setting a new
-- password. `require_capability` is `Permissions.user_can`. A request that is refused is rolled
-- back. Listings are left out, and so are the bounds of pydantic on the fields of a payload.
use edtech_back.Base.{
  ℕ, ◌+◌, Bool, true, false, not, ◌&&◌, ◌||◌, Option, none, some, List, [], ◌∷◌, ◌++◌, map, Text,
  codes, text_eq, strip, lower_code, show_nat, contains_text, get_key, set_key, ◌==◌, find,
  update_where, delete_where, is_some, or_default, if◌then◌else◌, Outcome, ok, http_error,
}
use edtech_back.Model.{
  User, Role, UserStatus, Language, Settings, Sections, Db, SecurityEvent, SecurityStatus,
  is_super_admin, is_teacher, is_active,
}
use edtech_back.Sections.Normalize.{normalize_sections}
use edtech_back.Sections.Rename.{rename_section, sync_progress_sections}
use edtech_back.AutoAssign.{sync_teacher_assignments, prune_teacher_assignments}
use edtech_back.Auth.Lockout.{clear_lockout}
use edtech_back.Auth.Tokens.{TokenLibrary, Origin, record_event, end_all_sessions}
use edtech_back.Auth.Login.{PasswordLibrary, put_user}
pub mod Edit
pub mod Account
pub mod Password

pub record UserCreate : Type 0 where
  pub name : Text
  pub email : Text
  pub password : Text
  pub role : Role
  pub school_id : Option ℕ
  pub grades : List Text
  pub sections : Sections
  pub language : Option Language
  pub ict_fair_access : Bool

-- `_school_for_role`; the role of an edit that sends `null` is `none`
unfoldable pub school_for_role : Db → Option Role → Option ℕ → Outcome (Option ℕ)
school_for_role db (some Role.super_admin) school_id = ok none
school_for_role db role none = http_error 400
school_for_role db role (some id) =
    if is_some (find (λ s. s.id == id) db.schools) then ok (some id) else http_error 400

-- the account that `create_user` builds
unfoldable pub new_user : PasswordLibrary → ℕ → UserCreate → Option ℕ → User
new_user passwords id payload school_id =
    let teaches = is_teacher payload.role in
    record {
      id = id;
      name = strip payload.name;
      email = map lower_code payload.email;
      password_hash = passwords.hash_password payload.password;
      role = payload.role;
      status = UserStatus.active;
      school_id = school_id;
      grades = if teaches then payload.grades else [];
      sections = if teaches then normalize_sections payload.sections payload.grades else [];
      language = if teaches then payload.language else none;
      ict_fair_access = if teaches then payload.ict_fair_access else false;
      last_login_at = none;
      failed_login_count = 0;
      locked_until = none;
      failed_login_window_started_at = none;
      sessions_valid_from = none;
    }

unfoldable pub add_user : User → Db → Db
add_user user db = record db { users = db.users ++ user ∷ []; next_id = db.next_id + 1 }

unfoldable pub create_user : PasswordLibrary → UserCreate → Db → Outcome User × Db
create_user passwords payload db =
    if is_some (find (λ u. text_eq u.email (map lower_code payload.email)) db.users)
    then (http_error 409, db)
    else elim (school_for_role db (some payload.role) payload.school_id) [
      | http_error code ↦ (http_error code, db)
      | ok school_id ↦
          let user = new_user passwords db.next_id payload school_id in
          (ok user, (sync_teacher_assignments (add_user user db) user).0)
    ]

-- the account with its new status
unfoldable pub with_status : UserStatus → User → User
with_status status user =
    let changed = record user { status = status } in
    if is_active status then clear_lockout changed else changed

-- both directions of the rule-based assignment
unfoldable pub resync : User → Db → Db
resync user db = (prune_teacher_assignments (sync_teacher_assignments db user).0 user).0

unfoldable pub update_status : User → ℕ → UserStatus → Db → Outcome User × Db
update_status current user_id status db = elim (find (λ u. u.id == user_id) db.users) [
  | none ↦ (http_error 404, db)
  | some user ↦
      let user' = with_status status user in
      let stored = put_user user' db in
      if user.id == current.id
      then (http_error 400, db)
      else if is_active status && is_teacher user.role
      then (ok user', resync user' stored)
      else (ok user', stored)
]

unfoldable pub reset_password :
    PasswordLibrary → TokenLibrary → Settings → ℕ → Origin → ℕ → Text → Db → Outcome Text × Db
reset_password passwords lib settings now origin user_id password db =
    elim (find (λ u. u.id == user_id) db.users) [
      | none ↦ (http_error 404, db)
      | some user ↦
          let user' =
            clear_lockout (record user { password_hash = passwords.hash_password password }) in
          (
            ok (codes "Password updated"),
            record_event now origin SecurityEvent.password_reset SecurityStatus.warning (some user)
                (end_all_sessions lib settings now user.id (put_user user' db)).1,
          )
    ]

-- `ON DELETE SET NULL`
abbrev pub clear_id : ℕ → Option ℕ → Option ℕ
clear_id id none = none
clear_id id (some other) = if other == id then none else some other

-- `db.delete(user)`, with what the foreign keys of the other tables do to their rows
unfoldable pub drop_user : ℕ → Db → Db
drop_user id db = record db {
  users = delete_where (λ u. u.id == id) db.users;
  assignments = delete_where (λ a. a.teacher_id == id) db.assignments;
  progress = delete_where (λ p. p.teacher_id == id) db.progress;
  requests =
      update_where (λ _. true) (λ r. record r { resolved_by = clear_id id r.resolved_by })
        (delete_where (λ r. r.teacher_id == id) db.requests);
  chats = delete_where (λ m. m.teacher_id == id) db.chats;
  tokens = delete_where (λ t. t.user_id == id) db.tokens;
  log = update_where (λ _. true) (λ e. record e { user_id = clear_id id e.user_id }) db.log;
  usage = update_where (λ _. true) (λ e. record e { user_id = clear_id id e.user_id }) db.usage;
}

unfoldable pub delete_user : User → ℕ → Db → Outcome Text × Db
delete_user current user_id db = elim (find (λ u. u.id == user_id) db.users) [
  | none ↦ (http_error 404, db)
  | some user ↦
      if user.id == current.id then (http_error 400, db) else (ok [], drop_user user.id db)
]
