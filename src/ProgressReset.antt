-- ===== src/ProgressReset.antt =====
-- app/services/progress_reset.py: putting a teacher's recorded progress back to untouched.
use edtech_back.Base.{
  ℕ, suc, ◌+◌, Bool, true, false, not, ◌&&◌, ◌||◌, Option, none, some, List, [], ◌∷◌, Text, text_eq,
  contains_text, ◌==◌, length, select, update_where, count_where, if◌then◌else◌,
}
use edtech_back.Model.{
  User, Progress, Db, LessonStatus, WatchdogStatus, is_teacher, is_completed, is_not_started,
}
pub mod Laws

pub record ResetResult : Type 0 where
  pub lessons : ℕ
  pub completed_cleared : ℕ
  pub started_cleared : ℕ
  pub overrides_cleared : ℕ
  pub classes : ℕ

abbrev pub no_reset : ResetResult
no_reset = record {
  lessons = 0;
  completed_cleared = 0;
  started_cleared = 0;
  overrides_cleared = 0;
  classes = 0;
}

-- a condition that is there only if its value is given
abbrev pub wanted_lesson : Option ℕ → ℕ → Bool
wanted_lesson none id = true
wanted_lesson (some wanted) id = id == wanted

abbrev pub wanted_section : Option Text → Text → Bool
wanted_section none section = true
wanted_section (some wanted) section = text_eq section wanted

-- the query: the rows in the scope of the reset
unfoldable pub in_scope : ℕ → Option ℕ → Option Text → Progress → Bool
in_scope teacher_id lesson_id section p =
    p.teacher_id == teacher_id
    && wanted_lesson lesson_id p.lesson_id
    && wanted_section section p.section

-- `row.status != LessonStatus.not_started or row.percent_complete`, for a row not completed
abbrev pub is_started : Progress → Bool
is_started p =
    not (is_completed p.status) && (not (is_not_started p.status) || not (p.percent_complete == 0))

unfoldable pub reset_row : Text → Progress → Progress
reset_row note p = record p {
  status = LessonStatus.not_started;
  percent_complete = 0;
  last_slide = none;
  slide_total = none;
  last_opened_at = none;
  completed_at = none;
  unlocked_override = false;
  watchdog = WatchdogStatus.not_opened;
  watchdog_message = some note;
}

-- `len({r.section for r in rows})`
unfoldable pub distinct_sections : List Progress → List Text → ℕ
distinct_sections [] seen = length seen
distinct_sections (p ∷ ps) seen =
    distinct_sections ps (if contains_text p.section seen then seen else p.section ∷ seen)

unfoldable pub reset_progress : Db → User → Option ℕ → Option Text → Text → ResetResult × Db
reset_progress db teacher lesson_id section note =
    let scope = in_scope teacher.id lesson_id section in
    if not (is_teacher teacher.role) then (no_reset, db) else (
      record {
        lessons = length (select scope db.progress);
        completed_cleared = count_where (λ p. scope p && is_completed p.status) db.progress;
        started_cleared = count_where (λ p. scope p && is_started p) db.progress;
        overrides_cleared = count_where (λ p. scope p && p.unlocked_override) db.progress;
        classes = distinct_sections (select scope db.progress) [];
      },
      record db { progress = update_where scope (reset_row note) db.progress },
    )
