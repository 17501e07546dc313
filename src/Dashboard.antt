-- ===== src/Dashboard.antt =====
-- app/routers/dashboard.py, and `list_pending` of app/services/access_requests.py, without the names
-- that it adds to a request. The moments at which the accounts were created are an argument.
use edtech_back.Base.{
  ℕ, ◌+◌, Bool, true, false, not, ◌&&◌, ◌||◌, Option, none, some, List, [], ◌∷◌, ℤ, int_eq, Text,
  nonempty, take, ◌==◌, ltb, length, select, map, any, count_where, latest_first, is_some,
  if◌then◌else◌, Outcome, ok, http_error,
}
use edtech_back.Model.{
  User, UserStatus, Lesson, AccessRequest, SecurityLog, UploadedFile, Db, days, is_teacher,
  is_super_admin, is_completed, is_active, is_pending,
}
use edtech_back.AutoAssign.Upload.{course_eq}
use edtech_back.Files.{is_fair_backed}
use edtech_back.SecurityRoutes.{newest_logs}
use edtech_back.ReportMetrics.{quiet_after_days, is_since, is_candidate, is_ok_row, last_seen}
pub mod Agrees

-- `ATTENTION_LIMIT`
abbrev pub attention_limit : ℕ
attention_limit = 8

-- `STALLED_AFTER_DAYS`
abbrev pub stalled_after_days : ℕ
stalled_after_days = 14

-- `list_pending`
unfoldable pub list_pending : Db → Option ℕ → List AccessRequest
list_pending db limit =
    let waiting = latest_first (select (λ r. is_pending r.status) db.requests) in
    elim limit [ none ↦ waiting | some n ↦ take n waiting ]

-- `StalledTeacher`
pub record StalledTeacher : Type 0 where
  pub teacher_id : ℕ
  pub name : Text
  pub email : Text
  pub school_id : Option ℕ
  pub last_activity_at : Option ℕ
  pub completed_count : ℕ

-- `created_at < cutoff`
abbrev pub is_before_window : ℕ → Option ℕ → Bool
is_before_window now none = false
is_before_window now (some m) = ltb (m + days stalled_after_days) now

-- an active teacher who joined before the window
abbrev pub has_joined : ℕ → (User → Option ℕ) → User → Bool
has_joined now created_at t =
    is_teacher t.role && is_active t.status && is_before_window now (created_at t)

-- a teacher, unless she opened a lesson within the window
unfoldable pub stalled_rows : ℕ → Db → List User → List StalledTeacher
stalled_rows now db [] = []
stalled_rows now db (t ∷ ts) =
    let last = last_seen db t.id in
    let rest = stalled_rows now db ts in
    if is_since now (days stalled_after_days) last
    then rest
    else record {
      teacher_id = t.id;
      name = t.name;
      email = t.email;
      school_id = t.school_id;
      last_activity_at = last;
      completed_count =
          count_where (λ p. p.teacher_id == t.id && is_completed p.status) db.progress;
    }
      ∷ rest

-- who stands before whom: those who opened none, then those whose last one was earlier
abbrev pub is_earlier : Option ℕ → Option ℕ → Bool
is_earlier none none = false
is_earlier none (some n) = true
is_earlier (some m) none = false
is_earlier (some m) (some n) = ltb m n

unfoldable pub insert_stalled : StalledTeacher → List StalledTeacher → List StalledTeacher
insert_stalled s [] = s ∷ []
insert_stalled s (r ∷ rs) =
    if is_earlier r.last_activity_at s.last_activity_at then r ∷ insert_stalled s rs else s ∷ r ∷ rs

unfoldable pub sorted_stalled : List StalledTeacher → List StalledTeacher
sorted_stalled [] = []
sorted_stalled (s ∷ ss) = insert_stalled s (sorted_stalled ss)

-- `stalled_teachers`
unfoldable pub stalled_teachers : ℕ → (User → Option ℕ) → Db → List StalledTeacher
stalled_teachers now created_at db =
    sorted_stalled (stalled_rows now db (select (has_joined now created_at) db.users))

-- what a lesson is counted as: the two languages of a numbered lesson are one
pub data LessonKey : Type 0 where
  numbered : ℤ → ℕ → Option Text → ℕ → LessonKey
  legacy : ℕ → LessonKey

abbrev pub lesson_key : Lesson → LessonKey
lesson_key l = elim l.lesson_no [
  | none ↦ LessonKey.legacy l.id
  | some n ↦ LessonKey.numbered l.grade n l.course l.year
]

abbrev pub lesson_key_eq : LessonKey → LessonKey → Bool
lesson_key_eq (LessonKey.numbered g n c y) (LessonKey.numbered g' n' c' y') =
    int_eq g g' && n == n' && course_eq c c' && y == y'
lesson_key_eq (LessonKey.legacy a) (LessonKey.legacy b) = a == b
lesson_key_eq _ _ = false

unfoldable pub lesson_keys : List Lesson → List LessonKey
lesson_keys [] = []
lesson_keys (l ∷ ls) =
    let rest = lesson_keys ls in
    if any (λ k. lesson_key_eq k (lesson_key l)) rest then rest else lesson_key l ∷ rest

abbrev pub is_pending_status : UserStatus → Bool
is_pending_status UserStatus.pending = true
is_pending_status _ = false

abbrev pub is_waiting : User → Bool
is_waiting u = is_pending_status u.status

abbrev pub is_unsorted : Db → UploadedFile → Bool
is_unsorted db f = not (is_some f.linked_lesson_id) && not (is_fair_backed db f.id)

-- `SuperAdminOverview`
pub record SuperAdminOverview : Type 0 where
  pub school_count : ℕ
  pub teacher_count : ℕ
  pub lesson_count : ℕ
  pub pending_count : ℕ
  pub pending_approvals : List User
  pub security_alerts : List SecurityLog
  pub access_requests : List AccessRequest
  pub access_request_count : ℕ
  pub stalled_teachers : List StalledTeacher
  pub stalled_teacher_count : ℕ
  pub unsorted_uploads : List UploadedFile
  pub unsorted_upload_count : ℕ

unfoldable pub overview_of : ℕ → (User → Option ℕ) → Db → SuperAdminOverview
overview_of now created_at db =
    let stalled = stalled_teachers now created_at db in
    record {
      school_count = length db.schools;
      teacher_count = count_where (λ u. is_teacher u.role) db.users;
      lesson_count = length (lesson_keys db.lessons);
      pending_count = count_where is_waiting db.users;
      pending_approvals = take 20 (latest_first (select is_waiting db.users));
      security_alerts = take 5 (newest_logs (select (λ e. not (is_ok_row e.status)) db.log));
      access_requests = list_pending db (some attention_limit);
      access_request_count = count_where (λ r. is_pending r.status) db.requests;
      stalled_teachers = take attention_limit stalled;
      stalled_teacher_count = length stalled;
      unsorted_uploads = take attention_limit (latest_first (select (is_unsorted db) db.files));
      unsorted_upload_count = count_where (is_unsorted db) db.files;
    }

-- `super_admin_overview`
unfoldable pub super_admin_overview : ℕ → (User → Option ℕ) → Db → User → Outcome SuperAdminOverview
super_admin_overview now created_at db current =
    if is_super_admin current.role then ok (overview_of now created_at db) else http_error 403
