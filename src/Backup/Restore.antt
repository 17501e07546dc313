-- ===== src/Backup/Restore.antt =====
-- app/services/backup.py: the JSON snapshot of the database and its restore, which keeps the
-- conversations that the snapshot leaves out. `json.loads`, together with the reading of the values
-- of a row (Values), is an argument; an error of the database while rows are inserted is left out,
-- and so are the tables that the model does not have.
use edtech_back.Base.{
  ℕ, ◌≡◌, Bool, true, false, not, ◌&&◌, ◌||◌, Option, none, some, List, [], ◌∷◌, Text, codes,
  text_eq, text_lt, ◌==◌, ltb, select, map, any, if◌then◌else◌, Outcome, ok, http_error,
}
use edtech_back.Model.{
  User, School, Lesson, LessonAssignment, Progress, AccessRequest, ChatMessage, RefreshToken,
  LoginThrottle, SecurityLog, AiUsage, FairSection, FairProject, UploadedFile, Db, Role, UserStatus,
}
pub mod Kept

-- a row of the file: its columns, if they can be read
pub data RawRow (A : Type 0) : Type 0 where
  not_a_dict unreadable : RawRow A
  row : A → RawRow A

pub data RawTable (A : Type 0) : Type 0 where
  missing null not_a_list : RawTable A
  a_list : List (RawRow A) → RawTable A

-- `payload["tables"]`
pub record Tables : Type 0 where
  pub users : RawTable User
  pub schools : RawTable School
  pub lessons : RawTable Lesson
  pub assignments : RawTable LessonAssignment
  pub progress : RawTable Progress
  pub requests : RawTable AccessRequest
  pub tokens : RawTable RefreshToken
  pub throttles : RawTable LoginThrottle
  pub log : RawTable SecurityLog
  pub usage : RawTable AiUsage
  pub fair_sections : RawTable FairSection
  pub fair_projects : RawTable FairProject
  pub files : RawTable UploadedFile

-- the payload, with its tables if they are a dict
pub record Payload : Type 0 where
  pub format : Option Text
  pub version : Option ℕ
  pub tables : Option Tables

pub data Parsed : Type 0 where
  not_json not_an_object : Parsed
  object : Payload → Parsed

-- `BACKUP_FORMAT`
abbrev pub backup_format : Text
backup_format = codes "im-telligence-backup"

-- `BACKUP_VERSION`
abbrev pub backup_version : ℕ
backup_version = 1

-- `order_by(*primary_key)`
unfoldable pub insert_by : {A : Type 0} → (A → A → Bool) → A → List A → List A
insert_by lt a [] = a ∷ []
insert_by lt a (b ∷ bs) = if lt b a then b ∷ insert_by lt a bs else a ∷ b ∷ bs

unfoldable pub sort_by : {A : Type 0} → (A → A → Bool) → List A → List A
sort_by lt [] = []
sort_by lt (a ∷ rest) = insert_by lt a (sort_by lt rest)

-- `select(table).order_by(...)`, serialized
abbrev pub dump : {A : Type 0} → (A → A → Bool) → List A → RawTable A
dump lt rows = RawTable.a_list (map (λ a. RawRow.row a) (sort_by lt rows))

-- `_json_snapshot_bytes`, before it is written as text
unfoldable pub json_snapshot : Db → Payload
json_snapshot db = record {
  format = some backup_format;
  version = some backup_version;
  tables = some (record {
    users = dump (λ a b. ltb a.id b.id) db.users;
    schools = dump (λ a b. ltb a.id b.id) db.schools;
    lessons = dump (λ a b. ltb a.id b.id) db.lessons;
    assignments = dump (λ a b. ltb a.id b.id) db.assignments;
    progress = dump (λ a b. ltb a.id b.id) db.progress;
    requests = dump (λ a b. ltb a.id b.id) db.requests;
    tokens = dump (λ a b. ltb a.id b.id) db.tokens;
    throttles = dump (λ a b. text_lt a.ip b.ip) db.throttles;
    log = dump (λ a b. ltb a.id b.id) db.log;
    usage = dump (λ a b. ltb a.id b.id) db.usage;
    fair_sections = dump (λ a b. ltb a.id b.id) db.fair_sections;
    fair_projects = dump (λ a b. ltb a.id b.id) db.fair_projects;
    files = dump (λ a b. ltb a.id b.id) db.files;
  });
}

abbrev pub and_then : {A B : Type 0} → Outcome A → (A → Outcome B) → Outcome B
and_then (ok a) f = f a
and_then (http_error code) f = http_error code

-- the rows of a table; `InvalidBackup` is answered with 400, another exception with 500
unfoldable pub read_rows : {A : Type 0} → List (RawRow A) → Outcome (List A)
read_rows [] = ok []
read_rows (RawRow.not_a_dict ∷ rows) = http_error 400
read_rows (RawRow.unreadable ∷ rows) = http_error 500
read_rows (RawRow.row a ∷ rows) = and_then (read_rows rows) (λ rest. ok (a ∷ rest))

-- a table that the file has not is left empty
unfoldable pub read_table : {A : Type 0} → RawTable A → Outcome (List A)
read_table RawTable.missing = ok []
read_table RawTable.null = ok []
read_table RawTable.not_a_list = http_error 400
read_table (RawTable.a_list rows) = read_rows rows

-- the database that the tables are read into, without conversations
unfoldable pub read_tables : ℕ → Tables → Outcome Db
read_tables next_id t = and_then (read_table t.users) (λ users.
    and_then (read_table t.schools) (λ schools. and_then (read_table t.lessons) (λ lessons.
      and_then (read_table t.assignments) (λ assignments.
        and_then (read_table t.progress) (λ progress. and_then (read_table t.requests) (λ requests.
          and_then (read_table t.tokens) (λ tokens. and_then (read_table t.throttles) (λ throttles.
            and_then (read_table t.log) (λ log. and_then (read_table t.usage) (λ usage.
              and_then (read_table t.fair_sections) (λ fair_sections.
                and_then (read_table t.fair_projects) (λ fair_projects.
                  and_then (read_table t.files) (λ files. ok (record {
                    users = users;
                    schools = schools;
                    lessons = lessons;
                    assignments = assignments;
                    progress = progress;
                    requests = requests;
                    chats = [];
                    tokens = tokens;
                    throttles = throttles;
                    log = log;
                    usage = usage;
                    fair_sections = fair_sections;
                    fair_projects = fair_projects;
                    files = files;
                    next_id = next_id;
                  }))))))))))))))

-- the teacher and the lesson of a message are there
abbrev pub still_points : Db → ChatMessage → Bool
still_points db m =
    any (λ u. u.id == m.teacher_id) db.users && any (λ l. l.id == m.lesson_id) db.lessons

-- `_return_stashed_tables`
unfoldable pub return_stashed : List ChatMessage → Db → Db
return_stashed stash db = record db { chats = select (still_points db) stash }

abbrev pub is_format : Option Text → Bool
is_format none = false
is_format (some t) = text_eq t backup_format

abbrev pub is_version : Option ℕ → Bool
is_version none = false
is_version (some v) = v == backup_version

abbrev pub is_missing_table : {A : Type 0} → RawTable A → Bool
is_missing_table RawTable.missing = true
is_missing_table _ = false

unfoldable pub restore_tables : Tables → Db → Outcome (Unit {0}) × Db
restore_tables t db =
    if is_missing_table t.users then (http_error 400, db) else elim (read_tables db.next_id t) [
      | http_error code ↦ (http_error code, db)
      | ok restored ↦ (ok tt, return_stashed db.chats restored)
    ]

unfoldable pub restore_payload : Payload → Db → Outcome (Unit {0}) × Db
restore_payload p db =
    if not (is_format p.format)
    then (http_error 400, db)
    else if not (is_version p.version)
    then (http_error 400, db)
    else elim p.tables [ none ↦ (http_error 400, db) | some t ↦ restore_tables t db ]

unfoldable pub restore_parsed : Parsed → Db → Outcome (Unit {0}) × Db
restore_parsed Parsed.not_json db = (http_error 400, db)
restore_parsed Parsed.not_an_object db = (http_error 500, db)
restore_parsed (Parsed.object p) db = restore_payload p db

-- `_restore_json_database`
unfoldable pub restore_json : (List ℕ → Parsed) → List ℕ → Db → Outcome (Unit {0}) × Db
restore_json loads content db = restore_parsed (loads content) db

-- the acting account, as `wipe_database` inserts it again
unfoldable pub kept_account : User → User
kept_account user = record {
  id = user.id;
  name = user.name;
  email = user.email;
  password_hash = user.password_hash;
  role = user.role;
  status = user.status;
  school_id = none;
  grades = [];
  sections = [];
  language = none;
  ict_fair_access = false;
  last_login_at = none;
  failed_login_count = 0;
  locked_until = none;
  failed_login_window_started_at = none;
  sessions_valid_from = none;
}

-- `wipe_database`
unfoldable pub wipe_database : User → Db → Db
wipe_database keep db = record {
  users = kept_account keep ∷ [];
  schools = [];
  lessons = [];
  assignments = [];
  progress = [];
  requests = [];
  chats = [];
  tokens = [];
  throttles = [];
  log = [];
  usage = [];
  fair_sections = [];
  fair_projects = [];
  files = [];
  next_id = db.next_id;
}
