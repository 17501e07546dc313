-- ===== src/Tests/Rows.antt =====
-- Runs of the operations on the rows of progress, the requests and the assignments.
use edtech_back.Base.{
  ℕ, ◌≡◌, ◌≢◌, ◌||◌, ◌*◌, refl, true, false, not, some, pos, codes, text_eq, text_eq_iff,
  contains_text, get_key, find, any, all, select, count_where, ok, digits_from, show_nat, int_eq,
  arith,
}
use edtech_back.Model.{Db, default_settings, is_pending, is_rule}
use edtech_back.Grades.{grade_token, kg_int_to_token, show_int}
use edtech_back.Sections.{or_no_section, sections_for_token, sections_for, find_progress}
use edtech_back.Sections.Keys.{HasUniqueKeys}
use edtech_back.Sections.Rename.{in_grade, already_keyed, rename_section_at}
use edtech_back.LessonAccess.Tracks.{is_assigned}
use edtech_back.LessonAccess.Order.{has_lesson}
use edtech_back.ProgressRoute.{ProgressUpdate, resolve_percent, update_progress}
use edtech_back.ProgressRoute.Record.{IsSound}
use edtech_back.AccessRequests.{RequestCreate, create_request}
use edtech_back.AccessRequests.Pending.{HasOnePending, create_request-HasOnePending}
use edtech_back.AutoAssign.{matching_lessons, progress_untouched, prune_teacher_assignments}
use edtech_back.AutoAssign.Prune.{prune_teacher_assignments-keeps}
use edtech_back.Workflow.{Step, Reach}
use edtech_back.Workflow.Sound.{Reach-IsSound}
use edtech_back.Tests.Fixtures.{class_a, class_b, teacher_1, db_1}

-- what the runs below compute with
rows_program : Unit {0}
unfolding find any all select text_eq contains_text get_key or_no_section sections_for_token
    sections_for find_progress digits_from show_nat grade_token kg_int_to_token show_int int_eq
    is_assigned in_grade already_keyed count_where has_lesson resolve_percent
rows_program = tt

unique_1 : HasUniqueKeys db_1.progress
unfolding rows_program
unique_1 = (refl, (refl, tt))

db_1-IsSound : IsSound db_1
db_1-IsSound = record {
  unique = unique_1;
  shaped = (
    record { bounded = omega arith; finished = refl; stamped = refl; untouched = refl },
    (record { bounded = omega arith; finished = refl; stamped = refl; untouched = refl }, tt),
  );
}

a_is_not_b : class_a ≢ class_b
unfolding rows_program
a_is_not_b h =
    let e : text_eq class_a class_b ≡ true = (text_eq_iff class_a class_b).1 h in ground (arith, e)

a_is_not_c : class_a ≢ codes "C"
unfolding rows_program
a_is_not_c h =
    let e : text_eq class_a (codes "C") ≡ true = (text_eq_iff class_a (codes "C")).1 h in
    ground (arith, e)

in_grade_6 : in_grade db_1.lessons (pos 6) 10 ≡ true
unfolding rows_program
in_grade_6 = refl

free_c : already_keyed db_1 1 (codes "C") 10 ≡ false
unfolding rows_program
free_c = refl

keyed_b : already_keyed db_1 1 class_b 10 ≡ true
unfolding rows_program
keyed_b = refl

abbrev report_7 : ProgressUpdate
report_7 = record { slide = some 7; total = some 10; complete = false; section = some class_b }

-- `round(s / t * 100)` for the slides of the runs
abbrev tenths : ℕ → ℕ → ℕ
tenths s t = s * 10

percent_7 : resolve_percent tenths report_7 10 ≡ ok 70
unfolding rows_program
percent_7 = refl

one_pending : HasOnePending db_1.requests
unfolding rows_program
one_pending t l s = ground arith

ask_again : RequestCreate
ask_again = record { lesson_id = 11; section = some class_a; note = some (codes "Please") }

create_request-HasOnePending_example :
    HasOnePending (create_request default_settings 6 db_1 teacher_1 ask_again).1.requests
create_request-HasOnePending_example =
    create_request-HasOnePending default_settings 6 db_1 teacher_1 ask_again one_pending

assigned_11 :
    (is_assigned db_1.assignments 1 11 || has_lesson 11 (matching_lessons db_1 teacher_1)) ≡ true
unfolding rows_program
assigned_11 = refl

prune_teacher_assignments-keeps_example :
    let db' = (prune_teacher_assignments db_1 teacher_1).0 in
    (select (λ a. not (is_rule a.source)) db'.assignments
      ≡ select (λ a. not (is_rule a.source)) db_1.assignments)
    × (select (λ p. not (progress_untouched p)) db'.progress
        ≡ select (λ p. not (progress_untouched p)) db_1.progress)
    × (select (λ r. not (is_pending r.status)) db'.requests
        ≡ select (λ r. not (is_pending r.status)) db_1.requests)
prune_teacher_assignments-keeps_example = prune_teacher_assignments-keeps db_1 teacher_1

abbrev db_reported : Db
db_reported = (update_progress tenths default_settings 6 db_1 teacher_1 10 report_7).1

abbrev run_2 :
    Reach tenths default_settings db_1
      (rename_section_at db_reported 1 (pos 6) class_b (codes "C")).0
run_2 =
    Reach.next (Reach.next Reach.here (Step.reported db_1 6 teacher_1 10 report_7))
      (Step.renamed db_reported 1 (pos 6) class_b (codes "C"))

Reach-IsSound_example : IsSound (rename_section_at db_reported 1 (pos 6) class_b (codes "C")).0
Reach-IsSound_example = Reach-IsSound tenths default_settings db_1 _ run_2 db_1-IsSound
