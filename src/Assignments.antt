-- ===== src/Assignments.antt =====
-- app/routers/lessons.py: the assignment of lessons to teachers by hand, one at a time, for the
-- teachers of a school, and for many lessons at once. A set is a list without repetitions, in the
-- order of the request; the handlers answer the database, from which the lessons are shown.
use edtech_back.Base.{
  ℕ, ◌+◌, Bool, true, false, not, ◌&&◌, ◌||◌, Option, none, some, List, [], ◌∷◌, ◌++◌, Text, codes,
  ◌==◌, find, select, map, any, all, delete_where, if◌then◌else◌, nonempty, length, ltb, contains,
  distinct, Outcome, ok, http_error,
}
use edtech_back.Model.{User, Lesson, LessonAssignment, Progress, Db, Source, is_teacher, is_active}
use edtech_back.Permissions.{Capability, user_can}
use edtech_back.Sections.Ensure.{ensure_progress_rows}
use edtech_back.LessonAccess.Tracks.{is_assigned}
use edtech_back.AutoAssign.{in_school}
pub mod Exact
pub mod Many
pub mod Bulk
pub mod Preview

-- `LessonAssignment(..., source="manual")`
unfoldable pub manual_assignment : ℕ → ℕ → ℕ → LessonAssignment
manual_assignment id lesson_id teacher_id = record {
  id = id;
  lesson_id = lesson_id;
  teacher_id = teacher_id;
  source = Source.manual;
}

abbrev pub manual_note : Option Text
manual_note = some (codes "Manually assigned — not opened yet")

-- `ensure_progress_rows(db, teacher, lesson, ...)`, if the teacher is there
unfoldable pub seed_rows : Option User → Lesson → Db → Db
seed_rows none lesson db = db
seed_rows (some teacher) lesson db = (ensure_progress_rows db teacher lesson manual_note).0

unfoldable pub add_assignment : ℕ → Lesson → Db → Db
add_assignment teacher_id lesson db = record db {
  assignments = db.assignments ++ manual_assignment db.next_id lesson.id teacher_id ∷ [];
  next_id = db.next_id + 1;
}

-- the loop that assigns a lesson to the teachers of a set
unfoldable pub add_teachers : List User → Lesson → List ℕ → Db → Db
add_teachers teachers lesson [] db = db
add_teachers teachers lesson (t ∷ ts) db =
    add_teachers teachers lesson ts
      (seed_rows (find (λ u. u.id == t) teachers) lesson (add_assignment t lesson db))

-- the assignments of a set of teachers to a lesson are deleted, with their progress
unfoldable pub remove_teachers : ℕ → List ℕ → Db → Db
remove_teachers lesson_id gone db = record db {
  assignments =
      delete_where (λ a. a.lesson_id == lesson_id && contains a.teacher_id gone) db.assignments;
  progress = delete_where (λ p. p.lesson_id == lesson_id && contains p.teacher_id gone) db.progress;
}

-- an active teacher of the school
abbrev pub school_teacher : ℕ → User → Bool
school_teacher school_id u =
    is_teacher u.role && in_school u.school_id school_id && is_active u.status

unfoldable pub school_teachers : Db → ℕ → List User
school_teachers db school_id = select (school_teacher school_id) db.users

-- `teacher_id in school_teachers`
unfoldable pub is_in_school : Db → ℕ → ℕ → Bool
is_in_school db school_id teacher_id = any (λ u. u.id == teacher_id) (school_teachers db school_id)

unfoldable pub assign_teacher : Db → User → ℕ → ℕ → Outcome Lesson × Db
assign_teacher db current lesson_id teacher_id =
    if not (user_can current Capability.assign_files)
    then (http_error 403, db)
    else elim (find (λ l. l.id == lesson_id) db.lessons) [
      | none ↦ (http_error 404, db)
      | some lesson ↦ elim (find (λ u. u.id == teacher_id) db.users) [
        | none ↦ (http_error 400, db)
        | some teacher ↦
            if not (is_teacher teacher.role) || not (is_active teacher.status)
            then (http_error 400, db)
            else if is_assigned db.assignments teacher_id lesson.id
            then (ok lesson, db)
            else (ok lesson, seed_rows (some teacher) lesson (add_assignment teacher_id lesson db))
      ]
    ]

-- the teachers of the lesson among those of the school
unfoldable pub current_in_school : Db → ℕ → ℕ → List ℕ
current_in_school db school_id lesson_id = distinct (
    select (is_in_school db school_id)
      (map (λ a. a.teacher_id) (select (λ a. a.lesson_id == lesson_id) db.assignments)))

-- the edit of `replace_assignments`
unfoldable pub set_teachers : Db → ℕ → Lesson → List ℕ → Db
set_teachers db school_id lesson wanted =
    let current = current_in_school db school_id lesson.id in
    remove_teachers lesson.id (select (λ t. not (contains t wanted)) current) (
      add_teachers (school_teachers db school_id) lesson
        (select (λ t. not (contains t current)) wanted) db)

unfoldable pub replace_assignments : Db → User → ℕ → ℕ → List ℕ → Outcome Lesson × Db
replace_assignments db current lesson_id school_id teacher_ids =
    if not (user_can current Capability.assign_files)
    then (http_error 403, db)
    else elim (find (λ l. l.id == lesson_id) db.lessons) [
      | none ↦ (http_error 404, db)
      | some lesson ↦
          if not (all (is_in_school db school_id) (distinct teacher_ids))
          then (http_error 400, db)
          else (ok lesson, set_teachers db school_id lesson (distinct teacher_ids))
    ]

-- the assignment that the query finds is deleted by its key, and every row of progress
unfoldable pub unassign : ℕ → ℕ → Db → Db
unassign lesson_id teacher_id db = record db {
  assignments =
      elim (find (λ a. a.lesson_id == lesson_id && a.teacher_id == teacher_id) db.assignments) [
        | none ↦ db.assignments
        | some found ↦ delete_where (λ a. a.id == found.id) db.assignments
      ];
  progress = delete_where (λ p. p.lesson_id == lesson_id && p.teacher_id == teacher_id) db.progress;
}

unfoldable pub unassign_teacher : Db → User → ℕ → ℕ → Outcome Lesson × Db
unassign_teacher db current lesson_id teacher_id =
    if not (user_can current Capability.assign_files)
    then (http_error 403, db)
    else elim (find (λ l. l.id == lesson_id) db.lessons) [
      | none ↦ (http_error 404, db)
      | some lesson ↦ (ok lesson, unassign lesson_id teacher_id db)
    ]
