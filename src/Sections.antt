-- ===== src/Sections.antt =====
-- app/services/sections.py: the classes that a teacher takes through a grade.
use edtech_back.Base.{
  ℕ, ◌+◌, Bool, true, false, ◌&&◌, Option, none, some, List, [], ◌∷◌, ◌++◌, ℤ, Text, text_eq,
  contains_text, get_key, length, ltb, ◌==◌, find, if◌then◌else◌, or_default,
}
use edtech_back.Model.{
  User, Lesson, Progress, Db, Sections as SectionMap, LessonStatus, WatchdogStatus,
}
use edtech_back.Grades.{grade_token}
pub mod Normalize
pub mod Ensure
pub mod Rename
pub mod Keys
pub mod Moves
pub mod Resolve

-- `NO_SECTION`
abbrev pub no_section : Text
no_section = []

-- `list(named) if named else [NO_SECTION]`
unfoldable pub or_no_section : Option (List Text) → List Text
or_no_section none = no_section ∷ []
or_no_section (some []) = no_section ∷ []
or_no_section (some (l ∷ ls)) = l ∷ ls

-- `sections_for` of a token
unfoldable pub sections_for_token : User → Text → List Text
sections_for_token teacher token = or_no_section (get_key token teacher.sections)

unfoldable pub sections_for : User → ℤ → List Text
sections_for teacher grade = sections_for_token teacher (grade_token grade)

unfoldable pub has_named_sections : User → ℤ → Bool
has_named_sections teacher grade = ltb 1 (length (sections_for teacher grade))

unfoldable pub all_sections_from : User → List Text → List (Text × List Text)
all_sections_from teacher [] = []
all_sections_from teacher (t ∷ ts) =
    (t, sections_for_token teacher t) ∷ all_sections_from teacher ts

unfoldable pub all_sections : User → List (Text × List Text)
all_sections teacher = all_sections_from teacher teacher.grades

-- `xs[0]`; the list of a teacher's sections is never empty
abbrev pub first_section : List Text → Text
first_section [] = no_section
first_section (s ∷ _) = s

unfoldable pub resolve_section : User → ℤ → Option Text → Option Text
resolve_section teacher grade none = some (first_section (sections_for teacher grade))
resolve_section teacher grade (some s) =
    if contains_text s (sections_for teacher grade) then some s else none

-- the key of a row: teacher, lesson and class
abbrev pub has_key : ℕ → ℕ → Text → Progress → Bool
has_key teacher_id lesson_id section p =
    p.teacher_id == teacher_id && p.lesson_id == lesson_id && text_eq p.section section

-- The unique constraint on `progress` makes the first row that is found the only one.
unfoldable pub find_progress : List Progress → ℕ → ℕ → Text → Option Progress
find_progress rows teacher_id lesson_id section = find (has_key teacher_id lesson_id section) rows

-- a row with the defaults of the columns
unfoldable pub new_progress : ℕ → ℕ → ℕ → Text → Progress
new_progress id teacher_id lesson_id section = record {
  id = id;
  teacher_id = teacher_id;
  lesson_id = lesson_id;
  section = section;
  status = LessonStatus.not_started;
  percent_complete = 0;
  last_opened_at = none;
  last_slide = none;
  slide_total = none;
  completed_at = none;
  unlocked_override = false;
  watchdog = WatchdogStatus.not_opened;
  watchdog_message = none;
}
