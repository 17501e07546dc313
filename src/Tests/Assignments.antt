-- ===== src/Tests/Assignments.antt =====
-- Runs of the edits of assignments and of the lists of lessons.
use edtech_back.Base.{
  ◌≡◌, refl, ◌&&◌, not, none, [], ◌∷◌, find, select, any, all, text_eq, contains_text, get_key,
  delete_where, count_where, contains, distinct, ◌==◌, if◌then◌else◌, ◌||◌, ok, http_error, ◌+◌,
  codes,
}
use edtech_back.Model.{default_settings}
use edtech_back.Permissions.{user_can, can}
use edtech_back.LessonAccess.{is_available}
use edtech_back.LessonAccess.Tracks.{is_assigned, passes}
use edtech_back.Assignments.{
  is_in_school, school_teachers, replace_assignments, set_teachers, current_in_school, add_teachers,
  remove_teachers, add_assignment, seed_rows, unassign,
}
use edtech_back.Assignments.Exact.{replace_assignments-exact}
use edtech_back.Assignments.Many.{
  BulkAssignment, BulkResult, edit_lesson, edit_lessons, bulk_of, resolve_bulk, preview_of,
  BulkPreview, preview_bulk_assignments, bulk_assignments, count_edits, new_for, gone_for, touch,
  remove_pairs, has_pair, add_name, sorted_names,
}
use edtech_back.Assignments.Bulk.{bulk_assignments-exact}
use edtech_back.Assignments.Preview.{has_begun, preview_bulk_assignments-agrees}
use edtech_back.Lessons.{list_lessons, get_lesson}
use edtech_back.Lessons.Shown.{is_ok, get_lesson-list_lessons}
use edtech_back.Lessons.Edits.{LessonEdit, run_edit, run_edit-refused}
use edtech_back.Tests.Fixtures.{teacher_1, admin_2, lesson_10, db_1, classroom}

-- what the runs below compute with
assignments_program : Unit {0}
unfolding find select any all text_eq contains_text get_key delete_where count_where contains
    distinct user_can can is_in_school school_teachers replace_assignments set_teachers
    current_in_school resolve_bulk preview_of preview_bulk_assignments count_edits new_for gone_for
    touch remove_pairs has_pair add_name sorted_names is_assigned bulk_assignments bulk_of
    edit_lessons edit_lesson add_teachers remove_teachers add_assignment seed_rows unassign
assignments_program = tt

-- nobody of the school keeps the first lesson
emptied : (replace_assignments db_1 admin_2 10 7 []).0 ≡ ok lesson_10
unfolding assignments_program
emptied = refl

replace_assignments-exact_example :
    is_assigned (replace_assignments db_1 admin_2 10 7 []).1.assignments 1 10 ≡ (
      if 10 == 10 && is_in_school db_1 7 1
      then contains 1 []
      else is_assigned db_1.assignments 1 10)
replace_assignments-exact_example =
    replace_assignments-exact db_1 admin_2 10 7 [] lesson_10 1 10 emptied

-- both lessons are taken from the teacher
abbrev taken : BulkAssignment
taken = record {
  school_id = 7;
  lesson_ids = 10 ∷ 11 ∷ 10 ∷ [];
  add_teacher_ids = [];
  remove_teacher_ids = 1 ∷ [];
}

abbrev taken_result : BulkResult
taken_result = record { lessons_touched = 2; assignments_added = 0; assignments_removed = 2 }

taken_away : (bulk_assignments db_1 admin_2 taken).0 ≡ ok taken_result
unfolding assignments_program
taken_away = refl

bulk_assignments-exact_example :
    is_assigned (bulk_assignments db_1 admin_2 taken).1.assignments 1 10 ≡ (
      if contains 10 (10 ∷ 11 ∷ 10 ∷ []) && any (λ m. m.id == 10) db_1.lessons
      then contains 1 [] || (is_assigned db_1.assignments 1 10 && not (contains 1 (1 ∷ [])))
      else is_assigned db_1.assignments 1 10)
bulk_assignments-exact_example =
    bulk_assignments-exact db_1 admin_2 taken taken_result 1 10 taken_away

-- the two started rows of the first lesson are told as lost
abbrev taken_preview : BulkPreview
taken_preview = record {
  lessons = 2;
  adds = 0;
  removes = 2;
  progress_lost = 2;
  teachers_losing_progress = codes "Rima" ∷ [];
}

taken_previewed : preview_bulk_assignments db_1 admin_2 taken ≡ ok taken_preview
unfolding assignments_program
taken_previewed = refl

preview_bulk_assignments-agrees_example :
    let out = bulk_assignments db_1 admin_2 taken in
    (out.0 ≡ ok (record { lessons_touched = 2; assignments_added = 0; assignments_removed = 2 }))
    × (count_where has_begun out.1.progress + 2 ≡ count_where has_begun db_1.progress)
preview_bulk_assignments-agrees_example =
    preview_bulk_assignments-agrees db_1 admin_2 taken taken_preview taken_previewed

get_lesson-list_lessons_example :
    is_ok (get_lesson default_settings 9 db_1 teacher_1 none 11)
    ≡ any
        (λ o. o.lesson.id == 11 && passes is_available o.access)
        (list_lessons default_settings 9 db_1 teacher_1 none)
get_lesson-list_lessons_example =
    get_lesson-list_lessons db_1 teacher_1 default_settings 9 none 11 refl

-- a teacher of another school is refused
foreign :
    (run_edit 9 classroom db_1 admin_2 (LessonEdit.replace_edit 10 8 (1 ∷ []))).0 ≡ http_error 400
unfolding assignments_program run_edit
foreign = refl

run_edit-refused_example :
    (run_edit 9 classroom db_1 admin_2 (LessonEdit.replace_edit 10 8 (1 ∷ []))).1 ≡ db_1
run_edit-refused_example =
    run_edit-refused 9 classroom db_1 admin_2 (LessonEdit.replace_edit 10 8 (1 ∷ [])) 400 foreign
