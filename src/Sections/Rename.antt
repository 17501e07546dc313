-- ===== src/Sections/Rename.antt =====
-- `rename_section` and `sync_progress_sections`: moving what is recorded of a class from one label
-- to another, in the three tables that are keyed by the class.
use edtech_back.Base.{
  ℕ, ◌+◌, Bool, not, ◌&&◌, ◌||◌, none, some, List, [], ◌∷◌, ℤ, int_eq, Text, text_eq, ◌==◌, any,
  nonempty, get_key, update_where, count_where, if◌then◌else◌,
}
use edtech_back.Model.{User, Lesson, Db, Sections, is_teacher}
use edtech_back.Sections.{or_no_section, first_section}
use edtech_back.Grades.{grade_number}

-- `lesson_id in (select Lesson.id where Lesson.grade == grade)`
unfoldable pub in_grade : List Lesson → ℤ → ℕ → Bool
in_grade lessons grade id = any (λ l. l.id == id && int_eq l.grade grade) lessons

abbrev pub row_is : ℕ → Text → ℕ → ℕ → ℕ → Text → Bool
row_is teacher_id section id row_teacher row_lesson row_section =
    row_teacher == teacher_id && row_lesson == id && text_eq row_section section

-- the lesson is in `_lessons_already_keyed`: some table has a row of it for the class
unfoldable pub already_keyed : Db → ℕ → Text → ℕ → Bool
already_keyed db teacher_id section id =
    any (λ r. row_is teacher_id section id r.teacher_id r.lesson_id r.section) db.progress
    || any (λ r. row_is teacher_id section id r.teacher_id r.lesson_id r.section) db.chats
    || any (λ r. row_is teacher_id section id r.teacher_id r.lesson_id r.section) db.requests

module _ (db : Db) (teacher_id : ℕ) (grade : ℤ) (old new : Text) where
  -- a row of the class in the grade, of a lesson that the new label has no history of
  unfoldable pub moves : ℕ → ℕ → Text → Bool
  moves row_teacher row_lesson row_section =
      row_teacher == teacher_id
      && text_eq row_section old
      && in_grade db.lessons grade row_lesson
      && not (already_keyed db teacher_id new row_lesson)

  -- the loop over the three tables
  unfoldable pub move_rows : Db
  move_rows = record db {
    progress =
        update_where (λ r. moves r.teacher_id r.lesson_id r.section)
          (λ r. record r { section = new }) db.progress;
    requests =
        update_where (λ r. moves r.teacher_id r.lesson_id r.section)
          (λ r. record r { section = new }) db.requests;
    chats =
        update_where (λ r. moves r.teacher_id r.lesson_id r.section)
          (λ r. record r { section = new }) db.chats;
  }

  unfoldable pub moved_count : ℕ
  moved_count =
      count_where (λ r. moves r.teacher_id r.lesson_id r.section) db.progress
      + count_where (λ r. moves r.teacher_id r.lesson_id r.section) db.chats
      + count_where (λ r. moves r.teacher_id r.lesson_id r.section) db.requests

-- `rename_section` at a number
unfoldable pub rename_section_at : Db → ℕ → ℤ → Text → Text → Db × ℕ
rename_section_at db teacher_id grade old new =
    if text_eq old new || (not (nonempty old) && not (nonempty new))
    then (db, 0)
    else (move_rows db teacher_id grade old new, moved_count db teacher_id grade old new)

-- `rename_section` at a token
unfoldable pub rename_section : Db → ℕ → Text → Text → Text → Db × ℕ
rename_section db teacher_id token old new = elim (grade_number token) [
  | none ↦ (db, 0)
  | some grade ↦ rename_section_at db teacher_id grade old new
]

-- `(sections.get(token) or [NO_SECTION])[0]`
unfoldable pub first_label : Sections → Text → Text
first_label sections token = first_section (or_no_section (get_key token sections))

-- one round of `sync_progress_sections`
unfoldable pub sync_token : ℕ → Sections → Sections → Text → Db → Db
sync_token teacher_id before after token db =
    let old = first_label before token in
    let new = first_label after token in
    let moved : Db = elim (grade_number token) [
      | none ↦ db
      | some grade ↦ move_rows db teacher_id grade old new
    ] in
    if text_eq old new then db else moved

unfoldable pub sync_tokens : ℕ → Sections → Sections → List Text → Db → Db
sync_tokens teacher_id before after [] db = db
sync_tokens teacher_id before after (t ∷ ts) db =
    sync_tokens teacher_id before after ts (sync_token teacher_id before after t db)

-- `tokens` is the set of the grades before, after and of the teacher, in the order in which Python
-- goes through it.
unfoldable pub sync_progress_sections : List Text → Db → User → Sections → Sections → Db
sync_progress_sections tokens db teacher before after =
    if is_teacher teacher.role then sync_tokens teacher.id before after tokens db else db
