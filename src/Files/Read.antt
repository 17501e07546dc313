-- ===== src/Files/Read.antt =====
-- Who may open a PDF, and the line that each request for one leaves in the log.
use edtech_back.Base.{
  ℕ, Bool, true, false, not, ◌&&◌, Option, none, some, List, ◌==◌, find, nonempty, if◌then◌else◌,
  Outcome, ok, http_error,
}
use edtech_back.Model.{
  User, Lesson, Db, Settings, UploadedFile, SecurityEvent, SecurityStatus, is_teacher,
  is_super_admin,
}
use edtech_back.LessonAccess.Tracks.{is_assigned, is_lesson_available}
use edtech_back.FairAccess.{can_open_fair_file}
use edtech_back.Auth.Tokens.{Origin, record_event}
use edtech_back.Lessons.{same_school, is_school_admin}
use edtech_back.Files.{is_fair_backed}
pub mod Logged

-- the lesson that a file is linked to
abbrev pub lesson_of_file : Db → Option ℕ → Option Lesson
lesson_of_file db none = none
lesson_of_file db (some id) = find (λ l. l.id == id) db.lessons

-- `_can_access`
unfoldable pub can_access : Settings → ℕ → Db → User → UploadedFile → Bool
can_access settings now db user uploaded =
    if is_super_admin user.role
    then true
    else if is_fair_backed db uploaded.id
    then (if is_teacher user.role then can_open_fair_file db user uploaded.id else false)
    else elim (lesson_of_file db uploaded.linked_lesson_id) [
      | none ↦ false
      | some lesson ↦
          if is_school_admin user.role
          then same_school lesson.school_id user.school_id
          else if is_assigned db.assignments user.id lesson.id
          then is_lesson_available settings now db user lesson.id none
          else false
    ]

-- `_record_access`
unfoldable pub record_access : ℕ → Origin → User → Bool → Db → Db
record_access now origin current served db =
    if served
    then record_event now origin SecurityEvent.lesson_file_served SecurityStatus.ok (some current)
        db
    else record_event now origin SecurityEvent.lesson_file_refused SecurityStatus.blocked
        (some current) db

abbrev pub has_path : UploadedFile → Bool
has_path f = elim f.storage_path [ none ↦ false | some path ↦ nonempty path ]

-- `_readable_file`, where the bytes of a stored file are on the disk or not
unfoldable pub readable_file :
    (UploadedFile → Bool) → Settings → ℕ → Origin → Db → User → ℕ → Outcome UploadedFile × Db
readable_file on_disk settings now origin db current file_id =
    elim (find (λ f. f.id == file_id) db.files) [
      | none ↦ (http_error 404, db)
      | some uploaded ↦
          if not (has_path uploaded)
          then (http_error 404, db)
          else if not (can_access settings now db current uploaded)
          then (http_error 403, record_access now origin current false db)
          else if not (on_disk uploaded)
          then (http_error 404, db)
          else (ok uploaded, record_access now origin current true db)
    ]
