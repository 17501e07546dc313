-- ===== src/Files.antt =====
-- app/routers/files.py: the PDFs of the lessons, uploaded, opened, linked and deleted. The bytes on
-- the disk are outside the model: of an upload they are an argument, of a stored file whether they
-- are there.
use edtech_back.Base.{
  ℕ, zero, suc, ◌+◌, ◌*◌, Bool, true, false, not, ◌&&◌, ◌||◌, Option, none, some, List, [], ◌∷◌,
  ◌++◌, Text, codes, show_nat, casefold, text_eq, nonempty, take, ◌==◌, ltb, length, find, select,
  map, any, delete_where, update_where, count_where, contains, distinct, latest_first, is_some,
  if◌then◌else◌, Outcome, ok, http_error,
}
use edtech_back.Model.{
  User, Lesson, Progress, Db, Settings, UploadedFile, FairProject, Language, Role, SecurityEvent,
  SecurityStatus, is_teacher, is_super_admin, is_not_started,
}
use edtech_back.Permissions.{Capability, user_can}
use edtech_back.LessonAccess.Tracks.{is_assigned, is_lesson_available}
use edtech_back.FairAccess.{is_id, can_open_fair_file, refuse_fair_backed}
use edtech_back.AutoAssign.Upload.{
  AssignResult, assign_uploaded_file, UploadPreview, preview_uploads,
}
use edtech_back.Auth.Tokens.{Origin, record_event}
use edtech_back.Lessons.{same_school, is_school_admin}
pub mod Read
pub mod Impact
pub mod Linked
pub mod Capped

-- whether the file backs a project of the fair
abbrev pub is_fair_backed : Db → ℕ → Bool
is_fair_backed db id = any (λ p. is_id p.file_id id) db.fair_projects

unfoldable pub list_files : Db → User → Outcome (List UploadedFile)
list_files db current =
    if user_can current Capability.upload_files
    then ok (latest_first (select (λ f. not (is_fair_backed db f.id)) db.files))
    else http_error 403

abbrev pub is_year : ℕ → Bool
is_year year = year == 1 || year == 2

abbrev pub is_curriculum_language : Language → Bool
is_curriculum_language Language.both = false
is_curriculum_language _ = true

-- the route of the preview, of at most 200 names
unfoldable pub preview_route :
    Db → User → List Text → Language → ℕ → Outcome (List (Option UploadPreview))
preview_route db current filenames language year =
    if not (user_can current Capability.upload_files)
    then http_error 403
    else if not (is_year year)
    then http_error 400
    else if not (is_curriculum_language language)
    then http_error 400
    else ok (preview_uploads db (take 200 filenames) language year)

-- `filename.lower().endswith(".pdf")`
unfoldable pub ends_with_pdf : Text → Bool
ends_with_pdf [] = false
ends_with_pdf (c ∷ s) = text_eq (casefold (c ∷ s)) (codes ".pdf") || ends_with_pdf s

-- `content.startswith(prefix)`
unfoldable pub starts_with : List ℕ → List ℕ → Bool
starts_with [] content = true
starts_with (b ∷ bs) [] = false
starts_with (b ∷ bs) (c ∷ content) = b == c && starts_with bs content

-- `PDF_MAGIC`
abbrev pub pdf_magic : List ℕ
pdf_magic = codes "%PDF-"

-- the slide count that is recorded for the lesson, if the pages could be counted
unfoldable pub record_pages : Option AssignResult → Option ℕ → Db → Db
record_pages none pages db = db
record_pages (some r) none db = db
record_pages (some r) (some pages) db = if pages == 0 then db else record db {
  lessons =
      update_where (λ l. l.id == r.lesson_id) (λ l. record l { slide_count = some pages })
        db.lessons;
}

unfoldable pub new_file : ℕ → Text → UploadedFile
new_file id filename = record {
  id = id;
  filename = filename;
  storage_path = some (show_nat id ++ codes ".pdf");
  linked_lesson_id = none;
}

-- `upload_file`; the page count is that of the PDF library
unfoldable pub upload_file :
    ℕ
    → (List ℕ → Option ℕ)
    → Db
    → User
    → Text
    → List ℕ
    → Language
    → ℕ
    → Outcome (UploadedFile × Option AssignResult) × Db
upload_file max_bytes page_count db current filename content language year =
    let uploaded = new_file db.next_id filename in
    let added : Db = record db { files = db.files ++ uploaded ∷ []; next_id = db.next_id + 1 } in
    let result = assign_uploaded_file added uploaded language year in
    if not (user_can current Capability.upload_files)
    then (http_error 403, db)
    else if not (is_year year)
    then (http_error 400, db)
    else if not (ends_with_pdf filename)
    then (http_error 400, db)
    else if ltb max_bytes (length content)
    then (http_error 413, db)
    else if not (starts_with pdf_magic content)
    then (http_error 400, db)
    else (ok (uploaded, result.0), record_pages result.0 (page_count content) result.1)

-- `MAX_SELECTION`
abbrev pub max_selection : ℕ
max_selection = 2000

-- `_selected_ids`
unfoldable pub selected_ids : List ℕ → Outcome (List ℕ)
selected_ids file_ids =
    let ids = distinct file_ids in
    if not (nonempty ids)
    then http_error 400
    else if ltb max_selection (length ids)
    then http_error 400
    else ok ids

-- the lessons that files are linked to
unfoldable pub linked_ids : List UploadedFile → List ℕ
linked_ids [] = []
linked_ids (f ∷ fs) = elim f.linked_lesson_id [
  | none ↦ linked_ids fs
  | some id ↦ id ∷ linked_ids fs
]

-- what a selection touches: the lessons of its files, and every file of these lessons
unfoldable pub lessons_of : Db → List ℕ → List ℕ
lessons_of db ids = distinct (linked_ids (select (λ f. contains f.id ids) db.files))

abbrev pub is_linked : List ℕ → Option ℕ → Bool
is_linked lesson_ids none = false
is_linked lesson_ids (some id) = contains id lesson_ids

-- a file of `_expand_selection`
unfoldable pub is_doomed : List ℕ → List ℕ → UploadedFile → Bool
is_doomed ids lesson_ids f = contains f.id ids || is_linked lesson_ids f.linked_lesson_id

-- `DeletionImpact`, without the titles and the number of missing files
pub record DeletionImpact : Type 0 where
  pub files : ℕ
  pub lessons : ℕ
  pub teachers : ℕ
  pub assignments : ℕ
  pub progress : ℕ
  pub chat_messages : ℕ
  pub access_requests : ℕ
  pub lessons_in_progress : ℕ

unfoldable pub impact_of : Db → List ℕ → DeletionImpact
impact_of db ids =
    let lesson_ids = lessons_of db ids in
    record {
      files = length (select (is_doomed ids lesson_ids) db.files);
      lessons = length lesson_ids;
      teachers = length (
          distinct (
            map (λ a. a.teacher_id)
              (select (λ a. contains a.lesson_id lesson_ids) db.assignments)));
      assignments = count_where (λ a. contains a.lesson_id lesson_ids) db.assignments;
      progress = count_where (λ p. contains p.lesson_id lesson_ids) db.progress;
      chat_messages = count_where (λ m. contains m.lesson_id lesson_ids) db.chats;
      access_requests = count_where (λ r. contains r.lesson_id lesson_ids) db.requests;
      lessons_in_progress = length (
          distinct (
            map (λ p. p.lesson_id)
              (select (λ p. contains p.lesson_id lesson_ids && not (is_not_started p.status))
                db.progress)));
    }

unfoldable pub deletion_impact : Db → User → List ℕ → Outcome DeletionImpact
deletion_impact db current file_ids =
    if not (user_can current Capability.upload_files)
    then http_error 403
    else elim (selected_ids file_ids) [
      | http_error code ↦ http_error code
      | ok ids ↦ ok (impact_of db ids)
    ]

-- the files are deleted, and the lessons, with what the database deletes in cascade
unfoldable pub drop_files : (UploadedFile → Bool) → List ℕ → Db → Db
drop_files doomed lesson_ids db = record db {
  files = delete_where doomed db.files;
  lessons = delete_where (λ l. contains l.id lesson_ids) db.lessons;
  assignments = delete_where (λ a. contains a.lesson_id lesson_ids) db.assignments;
  progress = delete_where (λ p. contains p.lesson_id lesson_ids) db.progress;
  requests = delete_where (λ r. contains r.lesson_id lesson_ids) db.requests;
  chats = delete_where (λ m. contains m.lesson_id lesson_ids) db.chats;
}

-- no file among the doomed backs a project of the fair
abbrev pub spares_fair : Db → (UploadedFile → Bool) → Bool
spares_fair db doomed = refuse_fair_backed db (map (λ f. f.id) (select doomed db.files))

-- `BulkDeleteResult`
pub record BulkDeleteResult : Type 0 where
  pub deleted_files : ℕ
  pub deleted_lessons : ℕ

unfoldable pub bulk_delete : Db → User → List ℕ → Outcome BulkDeleteResult × Db
bulk_delete db current file_ids =
    if not (user_can current Capability.upload_files)
    then (http_error 403, db)
    else elim (selected_ids file_ids) [
      | http_error code ↦ (http_error code, db)
      | ok ids ↦
          let lesson_ids = lessons_of db ids in
          let doomed = is_doomed ids lesson_ids in
          if not (spares_fair db doomed) then (http_error 409, db) else (
            ok (record {
              deleted_files = length (select doomed db.files);
              deleted_lessons = count_where (λ l. contains l.id lesson_ids) db.lessons;
            }),
            drop_files doomed lesson_ids db,
          )
    ]

-- the lesson of one file, as a list
abbrev pub lesson_list : Option ℕ → List ℕ
lesson_list none = []
lesson_list (some id) = id ∷ []

-- what goes with a file: every file of its lesson, or the file alone
unfoldable pub goes_with : UploadedFile → UploadedFile → Bool
goes_with file f = elim file.linked_lesson_id [
  | none ↦ f.id == file.id
  | some id ↦ same_school f.linked_lesson_id (some id)
]

unfoldable pub delete_file : Db → User → ℕ → Outcome (Unit {0}) × Db
delete_file db current file_id =
    if not (user_can current Capability.upload_files)
    then (http_error 403, db)
    else elim (find (λ f. f.id == file_id) db.files) [
      | none ↦ (http_error 404, db)
      | some file ↦
          if not (spares_fair db (goes_with file))
          then (http_error 409, db)
          else (ok tt, drop_files (goes_with file) (lesson_list file.linked_lesson_id) db)
    ]

unfoldable pub link_file_to_lesson : Db → User → ℕ → ℕ → Outcome (Unit {0}) × Db
link_file_to_lesson db current file_id lesson_id =
    if not (user_can current Capability.assign_files)
    then (http_error 403, db)
    else if not (any (λ f. f.id == file_id) db.files)
    then (http_error 404, db)
    else if not (any (λ l. l.id == lesson_id) db.lessons)
    then (http_error 404, db)
    else (
      ok tt,
      record db {
        files =
            update_where (λ f. f.id == file_id)
              (λ f. record f { linked_lesson_id = some lesson_id }) db.files;
      },
    )
