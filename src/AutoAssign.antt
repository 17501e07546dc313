-- ===== src/AutoAssign.antt =====
-- app/services/auto_assign.py: which teachers hold which lessons. The name of an uploaded file is
-- parsed in the child `Filename`.
use edtech_back.Base.{
  ℕ, ◌+◌, Bool, true, false, not, ◌&&◌, ◌||◌, Option, none, some, List, [], ◌∷◌, ◌++◌, Text, codes,
  text_eq, contains_text, nonempty, ◌==◌, find, select, any, all, map, delete_where, count_where,
  update_where, length, if◌then◌else◌, is_some,
}
use edtech_back.Model.{
  User, School, Lesson, LessonAssignment, Progress, AccessRequest, Db, Language, Source, Role,
  language_eq, is_teacher, is_active, is_rule, is_pending, is_not_started,
}
use edtech_back.Grades.{grade_token}
use edtech_back.Sections.Ensure.{ensure_progress_for_lessons}
use edtech_back.LessonAccess.Tracks.{is_assigned}
pub mod Sync
pub mod Prune
pub mod Filename
pub mod Upload

unfoldable pub language_matches : Option Language → Option Language → Bool
language_matches none lesson = false
language_matches (some t) none = false
language_matches (some t) (some l) = language_eq t l || language_eq t Language.both

-- `teacher.school`
unfoldable pub school_of : List School → User → Option School
school_of schools teacher = elim teacher.school_id [
  | none ↦ none
  | some id ↦ find (λ s. s.id == id) schools
]

abbrev pub has_year : Option School → ℕ → Bool
has_year none year = false
has_year (some s) year = year == s.program_year

unfoldable pub year_matches : List School → User → Lesson → Bool
year_matches schools teacher lesson = has_year (school_of schools teacher) lesson.year

unfoldable pub lesson_matches_teacher : List School → Lesson → User → Bool
lesson_matches_teacher schools lesson teacher =
    contains_text (grade_token lesson.grade) teacher.grades
    && language_matches teacher.language lesson.language
    && year_matches schools teacher lesson

-- `_progress_untouched` of a row
unfoldable pub progress_untouched : Progress → Bool
progress_untouched p =
    is_not_started p.status && p.percent_complete == 0 && not (is_some p.last_opened_at)

-- `LessonAssignment(...)` of the rule
unfoldable pub rule_assignment : ℕ → ℕ → ℕ → LessonAssignment
rule_assignment id lesson_id teacher_id = record {
  id = id;
  lesson_id = lesson_id;
  teacher_id = teacher_id;
  source = Source.rule;
}

-- one round of the loop over the matching lessons; `already` are the assignments before it
unfoldable pub assign_one : List LessonAssignment → ℕ → Lesson → Db × ℕ → Db × ℕ
assign_one already teacher_id l (db, created) =
    if is_assigned already teacher_id l.id then (db, created) else (
      record db {
        assignments = db.assignments ++ rule_assignment db.next_id l.id teacher_id ∷ [];
        next_id = db.next_id + 1;
      },
      created + 1,
    )

unfoldable pub assign_from : List LessonAssignment → ℕ → List Lesson → Db × ℕ → Db × ℕ
assign_from already teacher_id [] acc = acc
assign_from already teacher_id (l ∷ ls) acc =
    assign_from already teacher_id ls (assign_one already teacher_id l acc)

-- the lessons with a language that match the teacher
unfoldable pub matching_lessons : Db → User → List Lesson
matching_lessons db teacher =
    select (λ l. is_some l.language && lesson_matches_teacher db.schools l teacher) db.lessons

unfoldable pub sync_teacher_assignments : Db → User → Db × ℕ
sync_teacher_assignments db teacher =
    let matching = matching_lessons db teacher in
    let assigned = assign_from db.assignments teacher.id matching (db, 0) in
    let message = some (codes "Assigned by grade/language rule") in
    if not (is_teacher teacher.role) || not (is_active teacher.status)
    then (db, 0)
    else if not (nonempty teacher.grades) || not (is_some teacher.language)
    then (db, 0)
    else ((ensure_progress_for_lessons assigned.0 teacher matching message).0, assigned.1)

-- Every class's row of the lesson is untouched.
unfoldable pub all_untouched : List Progress → ℕ → ℕ → Bool
all_untouched rows teacher_id lesson_id =
    all (λ p. not (p.teacher_id == teacher_id && p.lesson_id == lesson_id) || progress_untouched p)
      rows

-- The assignment is one that `prune_teacher_assignments` removes. The loop there reads tables that
-- were loaded before it, and what it deletes for one lesson it does not read for another.
unfoldable pub prunable : Db → User → LessonAssignment → Bool
prunable db teacher a =
    a.teacher_id == teacher.id
    && is_rule a.source
    && (elim (find (λ l. l.id == a.lesson_id) db.lessons) [
      | none ↦ false
      | some l ↦ not (lesson_matches_teacher db.schools l teacher)
    ])
    && all_untouched db.progress teacher.id a.lesson_id

-- an assignment of the lesson is removed
unfoldable pub prunes_lesson : Db → User → ℕ → Bool
prunes_lesson db teacher lesson_id =
    any (λ a. prunable db teacher a && a.lesson_id == lesson_id) db.assignments

unfoldable pub prune_teacher_assignments : Db → User → Db × ℕ
prune_teacher_assignments db teacher = if not (is_teacher teacher.role) then (db, 0) else (
  record db {
    assignments = delete_where (prunable db teacher) db.assignments;
    progress =
        delete_where (λ p. p.teacher_id == teacher.id && prunes_lesson db teacher p.lesson_id)
          db.progress;
    requests =
        delete_where
          (λ r.
            r.teacher_id == teacher.id
            && prunes_lesson db teacher r.lesson_id
            && is_pending r.status)
          db.requests;
  },
  count_where (prunable db teacher) db.assignments,
)

-- the loop over the teachers of a school
unfoldable pub resync_from : List User → Db × ℕ × ℕ → Db × ℕ × ℕ
resync_from [] acc = acc
resync_from (t ∷ ts) (db, assigned, removed) =
    let (synced, new) = sync_teacher_assignments db t in
    let (pruned, gone) = prune_teacher_assignments synced t in
    resync_from ts (pruned, assigned + new, removed + gone)

abbrev pub in_school : Option ℕ → ℕ → Bool
in_school none id = false
in_school (some s) id = s == id

unfoldable pub resync_school_teachers : Db → School → Db × ℕ × ℕ
resync_school_teachers db school =
    resync_from (select (λ u. in_school u.school_id school.id && is_teacher u.role) db.users)
      (db, 0, 0)
