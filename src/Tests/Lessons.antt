-- ===== src/Tests/Lessons.antt =====
-- Runs of the sequence of lessons, of the classes and of the reports on them.
use edtech_back.Base.{
  List, ℕ, ◌≡◌, refl, Bool, true, false, none, some, [], ◌∷◌, pos, Text, codes, text_eq,
  contains_text, get_key, find, any, all, select, is_some, get_elem?, ◌≤◌, All, ok, digits_from,
  show_nat, int_eq,
}
use edtech_back.Model.{Progress, LessonStatus, Sections, Db, default_settings}
use edtech_back.Grades.{grade_token, kg_int_to_token, show_int}
use edtech_back.Sections.{
  or_no_section, sections_for_token, sections_for, resolve_section, find_progress,
}
use edtech_back.Sections.Normalize.{IsStored, normalize_sections, normalize_sections-IsStored}
use edtech_back.LessonAccess.{
  AccessStatus, walk, start, gate_after_finished, access_at, gate_behind,
}
use edtech_back.LessonAccess.Order.{
  course_order, lesson_order_key, key_lt, insert_lesson, sort_lessons, has_lesson,
}
use edtech_back.LessonAccess.Sequence.{expected, preceding, walk-expected}
use edtech_back.LessonAccess.Current.{current_lessons, current-le-one}
use edtech_back.LessonAccess.Tracks.{
  track_key, track_key_eq, append_to_track, group_sections, group_lessons, get_access, set_access,
  store_track, walk_tracks, is_assigned, compute_access, chosen_section, section_access_at,
  any_available, is_lesson_available, get_access_status,
}
use edtech_back.LessonAccess.Grouping.{IsTracked}
use edtech_back.ProgressRoute.{ProgressUpdate, proceed, guard_write_access, update_progress}
use edtech_back.ProgressRoute.Completed.{IsAdmitted, update_progress-complete}
use edtech_back.ProgressRoute.Kept.{Report, run_reports, run_reports-kept}
use edtech_back.Tests.Fixtures.{class_a, class_b, teacher_1, lesson_10, done_30, open_31, db_1}

-- what the runs below compute with
program : Unit {0}
unfolding find any all select text_eq contains_text get_key or_no_section sections_for_token
    sections_for resolve_section find_progress digits_from show_nat grade_token kg_int_to_token
    show_int is_assigned
program = tt

walk-expected_example :
    get_elem? (walk 7 100 start (some done_30 ∷ some open_31 ∷ [])) 1
    ≡ some (expected 7 100 (preceding (some done_30 ∷ []) []) (some open_31))
walk-expected_example = walk-expected 7 100 (some done_30 ∷ []) (some open_31) []

current-le-one_example :
    current_lessons (some done_30 ∷ none ∷ []) (walk 7 100 start (some done_30 ∷ none ∷ [])) ≤ 1
current-le-one_example = current-le-one 7 100 (some done_30 ∷ none ∷ [])

done_30-IsTracked : IsTracked db_1 teacher_1 lesson_10 class_a done_30
unfolding program
done_30-IsTracked = record {
  by_teacher = refl;
  known = refl;
  assigned = refl;
  taken = refl;
  row = refl;
}

open_31-IsTracked : IsTracked db_1 teacher_1 lesson_10 class_b open_31
unfolding program
open_31-IsTracked = record {
  by_teacher = refl;
  known = refl;
  assigned = refl;
  taken = refl;
  row = refl;
}

abbrev typed_labels : Sections
typed_labels = (codes "G6", codes " A " ∷ codes "a" ∷ codes "B" ∷ []) ∷ (codes "G9", []) ∷ []

normalize_sections-IsStored_example :
    All (IsStored (codes "G6" ∷ [])) (normalize_sections typed_labels (codes "G6" ∷ []))
normalize_sections-IsStored_example = normalize_sections-IsStored typed_labels (codes "G6" ∷ [])

resolved_b : resolve_section teacher_1 (pos 6) (some class_b) ≡ some class_b
unfolding program
resolved_b = refl

abbrev report : Text → Bool → ProgressUpdate
report section complete = record {
  slide = some 3;
  total = some 10;
  section = some section;
  complete = complete;
}

report_a-IsAdmitted :
    (complete : Bool) → IsAdmitted db_1 teacher_1 lesson_10 (report class_a complete) class_a
unfolding program
report_a-IsAdmitted complete = record {
  by_teacher = refl;
  known = refl;
  assigned = refl;
  resolved = refl;
}

proceeds : guard_write_access default_settings 6 db_1 teacher_1 10 class_b ≡ proceed
unfolding program gate_after_finished access_at gate_behind walk course_order lesson_order_key
    key_lt insert_lesson sort_lessons has_lesson track_key track_key_eq append_to_track
    group_sections group_lessons get_access set_access store_track walk_tracks compute_access
    chosen_section section_access_at any_available is_lesson_available get_access_status
    guard_write_access int_eq
proceeds = refl

report_b-IsAdmitted :
    (complete : Bool) → IsAdmitted db_1 teacher_1 lesson_10 (report class_b complete) class_b
unfolding program
report_b-IsAdmitted complete = record {
  by_teacher = refl;
  known = refl;
  assigned = refl;
  resolved = refl;
}

update_progress-complete_example :
    (p : Progress) × (db' : Db) × (update_progress
        (λ s t. s)
        default_settings
        6
        db_1
        teacher_1
        10
        (report class_b true)
      ≡ (ok p, db'))
    × (p.status ≡ LessonStatus.completed)
    × (p.unlocked_override ≡ false)
    × (is_some p.completed_at ≡ true)
    × ((later : ℕ)
        → get_access_status default_settings later db' teacher_1 10 (some class_b)
          ≡ some AccessStatus.completed)
update_progress-complete_example =
    update_progress-complete (λ s t. s) default_settings 6 db_1 teacher_1 lesson_10
      (report class_b true) class_b (report_b-IsAdmitted true) proceeds refl

-- a report on the completed lesson, and one on the other class
abbrev reports_2 : List Report
reports_2 =
    record { now = 6; current = teacher_1; lesson_id = 10; payload = report class_a false }
    ∷ record { now = 7; current = teacher_1; lesson_id = 10; payload = report class_b true }
    ∷ []

run_reports-kept_example :
    find_progress (run_reports (λ s t. s) default_settings reports_2 db_1).progress 1 10 class_a
    ≡ some done_30
run_reports-kept_example =
    run_reports-kept (λ s t. s) default_settings reports_2 db_1 done_30 1 10 class_a
      (done_30-IsTracked.row) refl refl
