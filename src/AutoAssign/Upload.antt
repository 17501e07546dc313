-- ===== src/AutoAssign/Upload.antt =====
-- The upload of a file of the curriculum: the lesson that its name stands for is found or made, and
-- assigned to the teachers that it matches; and the preview of several uploads.
use edtech_back.Base.{
  ℕ, ◌+◌, Bool, true, false, not, ◌&&◌, ◌||◌, Option, none, some, List, [], ◌∷◌, ◌++◌, ℤ, int_eq,
  Text, codes, text_eq, contains_text, ◌==◌, find, select, map, update_where, if◌then◌else◌, length,
  is_some,
}
use edtech_back.Model.{
  User, Lesson, LessonAssignment, Db, Language, UploadedFile, is_teacher, is_active, language_eq,
}
use edtech_back.Sections.Ensure.{ensure_progress_for_lessons}
use edtech_back.LessonAccess.Tracks.{is_assigned}
use edtech_back.AutoAssign.{language_matches, year_matches, lesson_matches_teacher, rule_assignment}
use edtech_back.AutoAssign.Filename.{ParsedName, parse_lesson_filename}
pub mod Preview

abbrev pub course_eq : Option Text → Option Text → Bool
course_eq none none = true
course_eq (some a) (some b) = text_eq a b
course_eq _ _ = false

abbrev pub is_language : Option Language → Language → Bool
is_language none language = false
is_language (some l) language = language_eq l language

abbrev pub is_number : Option ℕ → ℕ → Bool
is_number none n = false
is_number (some m) n = m == n

-- the query for the lesson of a name
unfoldable pub is_named : ParsedName → Language → ℕ → Lesson → Bool
is_named parsed language year l =
    int_eq l.grade parsed.grade
    && is_number l.lesson_no parsed.lesson_no
    && is_language l.language language
    && course_eq l.course parsed.course
    && l.year == year

-- `Lesson(...)` of a name
unfoldable pub named_lesson : ℕ → ParsedName → Language → ℕ → Lesson
named_lesson id parsed language year = record {
  id = id;
  title = parsed.title;
  grade = parsed.grade;
  school_id = none;
  language = some language;
  year = year;
  course = parsed.course;
  lesson_no = some parsed.lesson_no;
  slide_count = none;
}

-- the lesson is found, and takes the title of the name, or it is created
unfoldable pub find_or_create : Db → ParsedName → Language → ℕ → Lesson × Db
find_or_create db parsed language year = elim (find (is_named parsed language year) db.lessons) [
  | none ↦
      let lesson = named_lesson db.next_id parsed language year in
      (lesson, record db { lessons = db.lessons ++ lesson ∷ []; next_id = db.next_id + 1 })
  | some found ↦ (
    record found { title = parsed.title },
    record db {
      lessons =
          update_where (λ l. l.id == found.id) (λ l. record l { title = parsed.title }) db.lessons;
    },
  )
]

-- `uploaded.linked_lesson_id = lesson.id`
unfoldable pub link_file : ℕ → ℕ → Db → Db
link_file file_id lesson_id db = record db {
  files =
      update_where (λ f. f.id == file_id) (λ f. record f { linked_lesson_id = some lesson_id })
        db.files;
}

unfoldable pub active_teachers : Db → List User
active_teachers db = select (λ u. is_teacher u.role && is_active u.status) db.users

-- `matched`
unfoldable pub matched_teachers : Db → ParsedName → Language → Lesson → List User
matched_teachers db parsed language lesson =
    select
      (λ t.
        contains_text parsed.token t.grades
        && language_matches t.language (some language)
        && year_matches db.schools t lesson)
      (active_teachers db)

-- `LessonAssignment(..., source="rule")`, where the teacher does not have the lesson
unfoldable pub assign_missing : List LessonAssignment → Lesson → User → Db → Db
assign_missing existing lesson t db =
    if is_assigned existing t.id lesson.id then db else record db {
      assignments = db.assignments ++ rule_assignment db.next_id lesson.id t.id ∷ [];
      next_id = db.next_id + 1;
    }

-- the loop over the teachers
unfoldable pub assign_matched : List LessonAssignment → Lesson → List User → Db → Db
assign_matched existing lesson [] db = db
assign_matched existing lesson (t ∷ ts) db =
    assign_matched existing lesson ts
      (ensure_progress_for_lessons (assign_missing existing lesson t db) t (lesson ∷ [])
        (some (codes "Newly assigned — not opened yet"))).0

-- `AssignResult`; a name that does not parse gives one without a lesson
pub record AssignResult : Type 0 where
  pub lesson_id : ℕ
  pub lesson_title : Text
  pub token : Text
  pub language : Language
  pub assigned_count : ℕ
  pub teacher_names : List Text

unfoldable pub assign_uploaded_file : Db → UploadedFile → Language → ℕ → Option AssignResult × Db
assign_uploaded_file db uploaded language year = elim (parse_lesson_filename uploaded.filename) [
  | none ↦ (none, db)
  | some parsed ↦
      let found = find_or_create db parsed language year in
      let linked = link_file uploaded.id found.0.id found.1 in
      let matched = matched_teachers linked parsed language found.0 in
      (
        some (record {
          lesson_id = found.0.id;
          lesson_title = found.0.title;
          token = parsed.token;
          language = language;
          assigned_count = length matched;
          teacher_names = map (λ t. t.name) matched;
        }),
        assign_matched linked.assignments found.0 matched linked,
      )
]

-- `UploadPreview` of a name that parses
pub record UploadPreview : Type 0 where
  pub lesson_title : Text
  pub grade : ℤ
  pub course : Option Text
  pub lesson_no : ℕ
  pub existing_lesson : Bool
  pub teacher_names : List Text

-- `existing or Lesson(id="preview", ...)`
unfoldable pub candidate : Db → ParsedName → Language → ℕ → Lesson
candidate db parsed language year = elim (find (is_named parsed language year) db.lessons) [
  | none ↦ named_lesson 0 parsed language year
  | some found ↦ found
]

-- the preview of one name, which is `None` where it would not become a lesson
unfoldable pub preview_upload : Db → Text → Language → ℕ → Option UploadPreview
preview_upload db filename language year = elim (parse_lesson_filename filename) [
  | none ↦ none
  | some parsed ↦
      let lesson = candidate db parsed language year in
      some (record {
        lesson_title = parsed.title;
        grade = parsed.grade;
        course = parsed.course;
        lesson_no = parsed.lesson_no;
        existing_lesson = is_some (find (is_named parsed language year) db.lessons);
        teacher_names =
            map (λ t. t.name)
              (select (lesson_matches_teacher db.schools lesson) (active_teachers db));
      })
]

unfoldable pub preview_uploads : Db → List Text → Language → ℕ → List (Option UploadPreview)
preview_uploads db [] language year = []
preview_uploads db (name ∷ names) language year =
    preview_upload db name language year ∷ preview_uploads db names language year

-- files that are uploaded one after the other
unfoldable pub upload_all : Db → List UploadedFile → Language → ℕ → List (Option AssignResult) × Db
upload_all db [] language year = ([], db)
upload_all db (f ∷ fs) language year =
    let first = assign_uploaded_file db f language year in
    let rest = upload_all first.1 fs language year in (first.0 ∷ rest.0, rest.1)
