-- ===== src/Workflow.antt =====
-- Operations on the rows of progress as a step relation, one after the other in any order: reports,
-- resets, requests and their answers, overrides, the rule that assigns lessons and its pruning, edits
-- of lessons and of their assignments, and the renaming of a class. Other writers of these rows are
-- no steps: `assign_uploaded_file`, `sync_progress_sections` in `update_user`, the deletions of files
-- and of accounts, `restore_json` and `wipe_database`.
use edtech_back.Base.{ℕ, Bool, Option, List, Text, ℤ}
use edtech_back.Model.{User, Db, Settings}
use edtech_back.ProgressRoute.{ProgressUpdate, update_progress}
use edtech_back.ProgressReset.{reset_progress}
use edtech_back.AccessRequests.{RequestCreate, create_request, answer_request, set_lesson_override}
use edtech_back.AutoAssign.{sync_teacher_assignments, prune_teacher_assignments}
use edtech_back.Sections.Rename.{rename_section_at}
use edtech_back.Auth.Tokens.{Origin}
use edtech_back.Lessons.Edits.{LessonEdit, run_edit}
pub mod Assigned
pub mod Edited
pub mod Requests
pub mod Sound

module _ (percent_of : ℕ → ℕ → ℕ) (settings : Settings) where
  -- one request, or one part of a request, at any moment
  pub data Step : Db → Db → Type 0 where
    reported :
        (db : Db) (now : ℕ) (current : User) (lesson_id : ℕ) (payload : ProgressUpdate)
        → Step db (update_progress percent_of settings now db current lesson_id payload).1
    was_reset :
        (db : Db) (teacher : User) (lesson_id : Option ℕ) (section : Option Text) (note : Text)
        → Step db (reset_progress db teacher lesson_id section note).1
    asked :
        (db : Db) (now : ℕ) (current : User) (payload : RequestCreate)
        → Step db (create_request settings now db current payload).1
    answered :
        (db : Db) (now id : ℕ) (admin : User) (granted : Bool)
        → Step db (answer_request now db id admin granted).1
    overridden :
        (db : Db) (now teacher_id lesson_id : ℕ) (requested : Option Text) (unlocked : Bool)
        (admin : User)
        → Step db (set_lesson_override now db teacher_id lesson_id requested unlocked admin).1
    edited :
        (db : Db) (now : ℕ) (origin : Origin) (user : User) (e : LessonEdit)
        → Step db (run_edit now origin db user e).1
    synced : (db : Db) (teacher : User) → Step db (sync_teacher_assignments db teacher).0
    pruned : (db : Db) (teacher : User) → Step db (prune_teacher_assignments db teacher).0
    renamed :
        (db : Db) (teacher_id : ℕ) (grade : ℤ) (old new : Text)
        → Step db (rename_section_at db teacher_id grade old new).0

  -- what is reached from a database by any number of steps
  pub data Reach (db : Db) : Db → Type 0 where
    here : Reach db db
    next : {mid after : Db} → Reach db mid → Step mid after → Reach db after
