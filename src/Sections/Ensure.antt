-- ===== src/Sections/Ensure.antt =====
-- `ensure_progress_for_lessons`: the missing progress rows of a teacher. Whether a pair of a lesson
-- and a class is in `existing` is read off the rows, among which are those just added.
use edtech_back.Base.{ℕ, ◌+◌, Option, List, [], ◌∷◌, ◌++◌, Text, if◌then◌else◌, is_some}
use edtech_back.Model.{User, Lesson, Progress, Db}
use edtech_back.Sections.{sections_for, find_progress, new_progress}

-- `Progress(...)` of an assignment
unfoldable pub assigned_progress : ℕ → ℕ → ℕ → Text → Option Text → Progress
unfolding new_progress
assigned_progress id teacher_id lesson_id section message =
    record (new_progress id teacher_id lesson_id section) { watchdog_message = message }

-- one round of the inner loop, with the number of rows created so far
unfoldable pub ensure_row : ℕ → ℕ → Option Text → Text → Db × ℕ → Db × ℕ
ensure_row teacher_id lesson_id message section (db, created) =
    if is_some (find_progress db.progress teacher_id lesson_id section) then (db, created) else (
      record db {
        progress =
            db.progress ++ assigned_progress db.next_id teacher_id lesson_id section message ∷ [];
        next_id = db.next_id + 1;
      },
      created + 1,
    )

unfoldable pub ensure_sections : ℕ → ℕ → Option Text → List Text → Db × ℕ → Db × ℕ
ensure_sections teacher_id lesson_id message [] acc = acc
ensure_sections teacher_id lesson_id message (s ∷ ss) acc =
    ensure_sections teacher_id lesson_id message ss (ensure_row teacher_id lesson_id message s acc)

unfoldable pub ensure_from : User → Option Text → List Lesson → Db × ℕ → Db × ℕ
ensure_from teacher message [] acc = acc
ensure_from teacher message (l ∷ ls) acc =
    ensure_from teacher message ls
      (ensure_sections teacher.id l.id message (sections_for teacher l.grade) acc)

unfoldable pub ensure_progress_for_lessons : Db → User → List Lesson → Option Text → Db × ℕ
ensure_progress_for_lessons db teacher lessons message = ensure_from teacher message lessons (db, 0)

-- `ensure_progress_rows`
unfoldable pub ensure_progress_rows : Db → User → Lesson → Option Text → Db × ℕ
ensure_progress_rows db teacher lesson message =
    ensure_progress_for_lessons db teacher (lesson ∷ []) message
