-- ===== src/Lessons/Edits.antt =====
-- The requests of app/routers/lessons.py that change something, as one type: refused ones, and the
-- rows of progress.
use edtech_back.Base.{ℕ, ◌≡◌, Bool, Option, List, Text, Outcome, ok, http_error, arith}
use edtech_back.Model.{User, Db}
use edtech_back.AccessRequests.{set_lesson_override}
use edtech_back.Assignments.{assign_teacher, replace_assignments, unassign_teacher}
use edtech_back.Assignments.Many.{BulkAssignment, bulk_assignments}
use edtech_back.Auth.Tokens.{Origin}
use edtech_back.Lessons.{LessonCreate, create_lesson, delete_lesson, reset_teacher_progress}

pub data LessonEdit : Type 0 where
  create_edit : LessonCreate → LessonEdit
  delete_edit : ℕ → LessonEdit
  assign_edit : ℕ → ℕ → LessonEdit
  unassign_edit : ℕ → ℕ → LessonEdit
  replace_edit : ℕ → ℕ → List ℕ → LessonEdit
  bulk_edit : BulkAssignment → LessonEdit
  override_edit : ℕ → ℕ → Option Text → Bool → LessonEdit
  reset_edit : ℕ → Option ℕ → Option Text → LessonEdit

-- the answer, of which only a refusal is kept
abbrev pub forget : {A : Type 0} → Outcome A × Db → Outcome (Unit {0}) × Db
forget (ok a, db) = (ok tt, db)
forget (http_error code, db) = (http_error code, db)

unfoldable pub run_edit : ℕ → Origin → Db → User → LessonEdit → Outcome (Unit {0}) × Db
run_edit now origin db user (LessonEdit.create_edit payload) =
    forget (create_lesson db user payload)
run_edit now origin db user (LessonEdit.delete_edit id) = delete_lesson db user id
run_edit now origin db user (LessonEdit.assign_edit l t) = forget (assign_teacher db user l t)
run_edit now origin db user (LessonEdit.unassign_edit l t) = forget (unassign_teacher db user l t)
run_edit now origin db user (LessonEdit.replace_edit l s ts) =
    forget (replace_assignments db user l s ts)
run_edit now origin db user (LessonEdit.bulk_edit payload) =
    forget (bulk_assignments db user payload)
run_edit now origin db user (LessonEdit.override_edit t l section unlocked) =
    set_lesson_override now db t l section unlocked user
run_edit now origin db user (LessonEdit.reset_edit t l section) =
    forget (reset_teacher_progress now origin db user t l section)

-- An edit of lessons or of their assignments that is refused, for whatever reason, leaves the
-- database as it was.
pub run_edit-refused :
    (now : ℕ) (origin : Origin) (db : Db) (user : User) (e : LessonEdit) (code : ℕ)
    → (run_edit now origin db user e).0 ≡ http_error code
    → (run_edit now origin db user e).1 ≡ db
unfolding run_edit create_lesson delete_lesson assign_teacher unassign_teacher replace_assignments
    bulk_assignments set_lesson_override reset_teacher_progress
run_edit-refused now origin db user (LessonEdit.create_edit payload) code h = ground arith
run_edit-refused now origin db user (LessonEdit.delete_edit id) code h = ground arith
run_edit-refused now origin db user (LessonEdit.assign_edit l t) code h = ground arith
run_edit-refused now origin db user (LessonEdit.unassign_edit l t) code h = ground arith
run_edit-refused now origin db user (LessonEdit.replace_edit l s ts) code h = ground arith
run_edit-refused now origin db user (LessonEdit.bulk_edit payload) code h = ground arith
run_edit-refused now origin db user (LessonEdit.override_edit t l section unlocked) code h =
    ground arith
run_edit-refused now origin db user (LessonEdit.reset_edit t l section) code h = ground arith
