-- ===== src/Tests/Swap.antt =====
-- A run of `update_user` that swaps the names of two classes.
use edtech_back.Base.{
  text_eq, text_lt, is_space, lstrip, strip, lower_code, upper_code, casefold, contains_text,
  digits_from, show_nat, all_digits, read_from, read_nat, get_key, set_key, int_eq, int_lt, ◌≡◌,
  refl, none, some, [], ◌∷◌, codes, find, any, all, select, update_where, delete_where, count_where,
}
use edtech_back.Grades.{
  kg_int_to_token, is_kindergarten_token, is_kindergarten, show_int, grade_token, drop_g,
  in_range_number, grade_number,
}
use edtech_back.Sections.{
  or_no_section, sections_for_token, sections_for, has_named_sections, all_sections_from,
  all_sections, resolve_section, find_progress, new_progress,
}
use edtech_back.Sections.Normalize.{clean_label, clean_labels, normalize_from, normalize_sections}
use edtech_back.Sections.Rename.{
  in_grade, already_keyed, moves, move_rows, moved_count, rename_section_at, rename_section,
  first_label, sync_token, sync_tokens, sync_progress_sections,
}
use edtech_back.Sections.Ensure.{
  assigned_progress, ensure_row, ensure_sections, ensure_from, ensure_progress_for_lessons,
  ensure_progress_rows,
}
use edtech_back.AutoAssign.{
  language_matches, school_of, year_matches, lesson_matches_teacher, progress_untouched,
  rule_assignment, assign_one, assign_from, matching_lessons, sync_teacher_assignments,
  all_untouched, prunable, prunes_lesson, prune_teacher_assignments, resync_from,
  resync_school_teachers,
}
use edtech_back.Users.{school_for_role, with_status, resync}
use edtech_back.Users.Edit.{
  apply_name, apply_email, effective_role, apply_role, apply_role_and_school, apply_teacher_fields,
  apply_edits, plan_renames, holding, stage_renames, settle_renames, apply_section_renames,
  update_rows, update_user, UserUpdate,
}
use edtech_back.LessonAccess.Tracks.{is_assigned}
use edtech_back.Model.{Db}
use edtech_back.LessonAccess.Order.{has_lesson}
use edtech_back.Tests.Fixtures.{class_a, class_b, open_31, db_1}

-- the classes A and B swap their names, where only B has a row of the first lesson
abbrev swap : UserUpdate
swap = record {
  name = none;
  email = none;
  role = none;
  school_id = none;
  grades = none;
  sections = some ((codes "G6", class_b ∷ class_a ∷ []) ∷ []);
  section_renames =
      record { grade = codes "G6"; from_section = class_a; to_section = class_b }
      ∷ record { grade = codes "G6"; from_section = class_b; to_section = class_a }
      ∷ [];
  language = none;
  ict_fair_access = none;
}

abbrev db_swap : Db
db_swap = record db_1 { progress = open_31 ∷ []; requests = []; chats = [] }

-- The row of the class that is now called A is left under the name B, which is now the other's.
swapped_row :
    find_progress (update_user (codes "G6" ∷ []) 1 swap db_swap).1.progress 1 10 class_b
    ≡ some (record open_31 { section = class_b })
unfolding text_eq text_lt is_space lstrip strip lower_code upper_code casefold contains_text
    digits_from show_nat all_digits read_from read_nat get_key set_key int_eq int_lt kg_int_to_token
    is_kindergarten_token is_kindergarten show_int grade_token drop_g in_range_number grade_number
    or_no_section sections_for_token sections_for has_named_sections all_sections_from all_sections
    resolve_section find_progress new_progress clean_label clean_labels normalize_from
    normalize_sections in_grade already_keyed moves move_rows moved_count rename_section_at
    rename_section first_label sync_token sync_tokens sync_progress_sections assigned_progress
    ensure_row ensure_sections ensure_from ensure_progress_for_lessons ensure_progress_rows
    language_matches school_of year_matches lesson_matches_teacher progress_untouched
    rule_assignment assign_one assign_from matching_lessons sync_teacher_assignments all_untouched
    prunable prunes_lesson prune_teacher_assignments resync_from resync_school_teachers
    school_for_role with_status resync apply_name apply_email effective_role apply_role
    apply_role_and_school apply_teacher_fields apply_edits plan_renames holding stage_renames
    settle_renames apply_section_renames update_rows update_user is_assigned find any all select
    update_where delete_where count_where has_lesson
swapped_row = refl
