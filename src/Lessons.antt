-- ===== src/Lessons.antt =====
-- app/routers/lessons.py: which lessons an account is shown, and with whose assignments; a lesson
-- created by hand or deleted; and the route of the reset of progress. The bytes of the files are
-- outside the model.
use edtech_back.Base.{
  ℕ, ◌+◌, Bool, true, false, not, ◌&&◌, ◌||◌, Option, none, some, List, [], ◌∷◌, ◌++◌, ℤ, Text,
  codes, contains_text, strip, ◌==◌, find, select, map, any, delete_where, update_where,
  if◌then◌else◌, contains, is_some, latest_first, Outcome, ok, http_error,
}
use edtech_back.Model.{
  User, Lesson, LessonAssignment, Progress, Db, Settings, UploadedFile, Role, SecurityEvent,
  SecurityStatus, is_teacher, is_super_admin,
}
use edtech_back.Permissions.{Capability, user_can}
use edtech_back.Sections.{sections_for, sections_for_token}
use edtech_back.LessonAccess.{AccessStatus, LessonAccess, is_available}
use edtech_back.LessonAccess.Tracks.{is_assigned, section_access_at, passes}
use edtech_back.FairAccess.{refuse_fair_backed}
use edtech_back.ProgressReset.{ResetResult, reset_progress}
use edtech_back.Auth.Tokens.{Origin, record_event}
pub mod Shown
pub mod Classes
pub mod Edits

-- `LessonOut`; the columns that are copied are those of the lesson
pub record LessonOut : Type 0 where
  pub lesson : Lesson
  pub file_id : Option ℕ
  pub assigned_teacher_ids : List ℕ
  pub access : Option LessonAccess

-- `User.school_id == school_id`, which is `IS NULL` for no school
abbrev pub same_school : Option ℕ → Option ℕ → Bool
same_school none none = true
same_school (some s) (some r) = s == r
same_school _ _ = false

abbrev pub is_school_admin : Role → Bool
is_school_admin Role.school_admin = true
is_school_admin _ = false

-- `_visible_teacher_ids`, of which `None` is all
unfoldable pub visible_teacher_ids : Db → User → Option (List ℕ)
visible_teacher_ids db current =
    if is_super_admin current.role
    then none
    else if is_school_admin current.role
    then some (map (λ u. u.id) (select (λ u. same_school u.school_id current.school_id) db.users))
    else some (current.id ∷ [])

-- `visible_teacher_ids is None or teacher_id in visible_teacher_ids`
abbrev pub is_visible : Option (List ℕ) → ℕ → Bool
is_visible none id = true
is_visible (some ids) id = contains id ids

-- the file of a lesson that is linked last
unfoldable pub file_of : List UploadedFile → ℕ → Option ℕ
file_of files lesson_id =
    elim (find (λ f. same_school f.linked_lesson_id (some lesson_id)) (latest_first files)) [
      | none ↦ none
      | some f ↦ some f.id
    ]

-- `_to_out`
unfoldable pub to_out : Db → Option (List ℕ) → Option LessonAccess → Lesson → LessonOut
to_out db visible access lesson = record {
  lesson = lesson;
  file_id = file_of db.files lesson.id;
  assigned_teacher_ids =
      map (λ a. a.teacher_id)
        (select (λ a. a.lesson_id == lesson.id && is_visible visible a.teacher_id) db.assignments);
  access = access;
}

-- a lesson that is authored for the school, or assigned to somebody of the school
unfoldable pub in_school_lessons : Db → Option ℕ → Lesson → Bool
in_school_lessons db school_id l =
    same_school l.school_id school_id
    || any (λ u. same_school u.school_id school_id && is_assigned db.assignments u.id l.id) db.users

-- `list_lessons`, newest first
unfoldable pub list_lessons : Settings → ℕ → Db → User → Option Text → List LessonOut
list_lessons settings now db current section =
    let visible = visible_teacher_ids db current in
    if is_teacher current.role
    then map (λ l. to_out db visible (section_access_at settings now db current section l.id) l)
        (latest_first (select (λ l. is_assigned db.assignments current.id l.id) db.lessons))
    else if is_school_admin current.role
    then map (to_out db visible none)
        (latest_first (select (in_school_lessons db current.school_id) db.lessons))
    else map (to_out db visible none) (latest_first db.lessons)

-- `assert_school_scope`
unfoldable pub in_school_scope : User → Option ℕ → Bool
in_school_scope user school_id =
    is_super_admin user.role || not (is_some school_id) || same_school user.school_id school_id

unfoldable pub get_lesson : Settings → ℕ → Db → User → Option Text → ℕ → Outcome LessonOut
get_lesson settings now db current section lesson_id =
    let visible = visible_teacher_ids db current in
    elim (find (λ l. l.id == lesson_id) db.lessons) [
      | none ↦ http_error 404
      | some lesson ↦
          let access = section_access_at settings now db current section lesson.id in
          if is_teacher current.role
          then if not (is_assigned db.assignments current.id lesson.id)
            then http_error 403
            else if not (passes is_available access)
            then http_error 403
            else ok (to_out db visible access lesson)
          else if in_school_scope current lesson.school_id
          then ok (to_out db visible none lesson)
          else http_error 403
    ]

-- `LessonCreate`, without the slides and the subject
pub record LessonCreate : Type 0 where
  pub title : Text
  pub grade : ℤ
  pub school_id : ℕ

-- the columns that the code does not set have their defaults
unfoldable pub new_lesson : ℕ → LessonCreate → Lesson
new_lesson id payload = record {
  id = id;
  title = strip payload.title;
  grade = payload.grade;
  school_id = some payload.school_id;
  language = none;
  year = 2;
  course = none;
  lesson_no = none;
  slide_count = none;
}

unfoldable pub create_lesson : Db → User → LessonCreate → Outcome Lesson × Db
create_lesson db current payload =
    let lesson = new_lesson db.next_id payload in
    if not (user_can current Capability.upload_files)
    then (http_error 403, db)
    else (ok lesson, record db { lessons = db.lessons ++ lesson ∷ []; next_id = db.next_id + 1 })

-- the rows that go with a lesson: its files, and what the database deletes in cascade
unfoldable pub drop_lesson : ℕ → Db → Db
drop_lesson id db = record db {
  files = delete_where (λ f. same_school f.linked_lesson_id (some id)) db.files;
  lessons = delete_where (λ l. l.id == id) db.lessons;
  assignments = delete_where (λ a. a.lesson_id == id) db.assignments;
  progress = delete_where (λ p. p.lesson_id == id) db.progress;
  requests = delete_where (λ r. r.lesson_id == id) db.requests;
  chats = delete_where (λ m. m.lesson_id == id) db.chats;
}

unfoldable pub delete_lesson : Db → User → ℕ → Outcome (Unit {0}) × Db
delete_lesson db current lesson_id =
    let doomed = select (λ f. same_school f.linked_lesson_id (some lesson_id)) db.files in
    if not (user_can current Capability.upload_files)
    then (http_error 403, db)
    else if not (is_some (find (λ l. l.id == lesson_id) db.lessons))
    then (http_error 404, db)
    else if not (refuse_fair_backed db (map (λ f. f.id) doomed))
    then (http_error 409, db)
    else (ok tt, drop_lesson lesson_id db)

-- `payload.section in allowed`: the classes of the lesson's grade, or of all grades
unfoldable pub is_allowed : Db → User → Option ℕ → Text → Bool
is_allowed db teacher none section =
    any (λ token. contains_text section (sections_for_token teacher token)) teacher.grades
is_allowed db teacher (some lesson_id) section = elim (find (λ l. l.id == lesson_id) db.lessons) [
  | none ↦ any (λ token. contains_text section (sections_for_token teacher token)) teacher.grades
  | some lesson ↦ contains_text section (sections_for teacher lesson.grade)
]

abbrev pub names_lesson : Db → Option ℕ → Bool
names_lesson db none = true
names_lesson db (some id) = is_some (find (λ l. l.id == id) db.lessons)

abbrev pub names_class : Db → User → Option ℕ → Option Text → Bool
names_class db teacher lesson_id none = true
names_class db teacher lesson_id (some section) = is_allowed db teacher lesson_id section

unfoldable pub reset_teacher_progress :
    ℕ → Origin → Db → User → ℕ → Option ℕ → Option Text → Outcome ResetResult × Db
reset_teacher_progress now origin db admin teacher_id lesson_id section =
    if not (is_super_admin admin.role)
    then (http_error 403, db)
    else elim (find (λ u. u.id == teacher_id) db.users) [
      | none ↦ (http_error 404, db)
      | some teacher ↦
          let result =
            reset_progress db teacher lesson_id section (codes "Reset by " ++ admin.name) in
          if not (is_teacher teacher.role) || not (names_lesson db lesson_id)
          then (http_error 404, db)
          else if not (names_class db teacher lesson_id section)
          then (http_error 400, db)
          else (
            ok result.0,
            record_event now origin SecurityEvent.progress_reset SecurityStatus.warning (some admin)
                result.1,
          )
    ]
