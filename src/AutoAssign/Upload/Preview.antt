-- ===== src/AutoAssign/Upload/Preview.antt =====
-- `preview_uploads` and the uploads themselves, side by side.
use edtech_back.Base.{
  ℕ, ◌≡◌, ◌∙◌, refl, sym, Bool, true, ◌&&◌, Option, none, some, List, [], ◌∷◌, int_eq_iff, Text,
  codes, contains_text, find, find_sound, select, map, is_some, arith, Bool-cases, Option-cases,
  inl, inr,
}
use edtech_back.Model.{
  User, School, Lesson, LessonAssignment, Db, Language, UploadedFile, is_teacher, is_active,
}
use edtech_back.Grades.{grade_token}
use edtech_back.Sections.{sections_for, find_progress}
use edtech_back.Sections.Ensure.{
  ensure_row, ensure_sections, ensure_from, ensure_progress_for_lessons,
}
use edtech_back.LessonAccess.Tracks.{is_assigned}
use edtech_back.AutoAssign.{
  language_matches, year_matches, has_year, school_of, lesson_matches_teacher,
}
use edtech_back.AutoAssign.Filename.{ParsedName, parse_lesson_filename}
use edtech_back.AutoAssign.Upload.{
  is_named, is_language, named_lesson, find_or_create, link_file, active_teachers, matched_teachers,
  assign_missing, assign_matched, AssignResult, assign_uploaded_file, UploadPreview, candidate,
  preview_upload, preview_uploads, upload_all,
}

ensure_row-staff :
    (t l : ℕ) (message : Option Text) (s : Text) (acc : Db × ℕ)
    → ((ensure_row t l message s acc).0.users ≡ acc.0.users)
      × ((ensure_row t l message s acc).0.schools ≡ acc.0.schools)
unfolding ensure_row
ensure_row-staff t l message s (db, created) =
    elim (Bool-cases (is_some (find_progress db.progress t l s))) [
      | inl there ↦ rw there (refl, refl)
      | inr absent ↦ rw absent (refl, refl)
    ]

ensure_sections-staff :
    (t l : ℕ) (message : Option Text) (ss : List Text) (acc : Db × ℕ)
    → ((ensure_sections t l message ss acc).0.users ≡ acc.0.users)
      × ((ensure_sections t l message ss acc).0.schools ≡ acc.0.schools)
unfolding ensure_sections
ensure_sections-staff t l message [] acc = (refl, refl)
ensure_sections-staff t l message (s ∷ ss) acc =
    let row = ensure_row-staff t l message s acc in
    let rest = ensure_sections-staff t l message ss (ensure_row t l message s acc) in
    (rest.0 ∙ row.0, rest.1 ∙ row.1)

assign_missing-staff :
    (existing : List LessonAssignment) (lesson : Lesson) (t : User) (db : Db)
    → ((assign_missing existing lesson t db).users ≡ db.users)
      × ((assign_missing existing lesson t db).schools ≡ db.schools)
unfolding assign_missing
assign_missing-staff existing lesson t db =
    elim (Bool-cases (is_assigned existing t.id lesson.id)) [
      | inl old ↦ rw old (refl, refl)
      | inr new ↦ rw new (refl, refl)
    ]

-- An upload leaves the users and the schools.
assign_matched-staff :
    (existing : List LessonAssignment) (lesson : Lesson) (ts : List User) (db : Db)
    → ((assign_matched existing lesson ts db).users ≡ db.users)
      × ((assign_matched existing lesson ts db).schools ≡ db.schools)
unfolding assign_matched ensure_progress_for_lessons ensure_from
assign_matched-staff existing lesson [] db = (refl, refl)
assign_matched-staff existing lesson (t ∷ ts) db =
    let message = some (codes "Newly assigned — not opened yet") in
    let added = assign_missing existing lesson t db in
    let first = assign_missing-staff existing lesson t db in
    let rows =
      ensure_sections-staff t.id lesson.id message (sections_for t lesson.grade) (added, 0) in
    let rest = assign_matched-staff existing lesson ts _ in
    (rest.0 ∙ rows.0 ∙ first.0, rest.1 ∙ rows.1 ∙ first.1)

-- What becomes of a name: the title of the lesson, and the names of its teachers.
abbrev pub of_result : Option AssignResult → Option (Text × List Text)
of_result none = none
of_result (some r) = some (r.lesson_title, r.teacher_names)

abbrev pub of_preview : Option UploadPreview → Option (Text × List Text)
of_preview none = none
of_preview (some p) = some (p.lesson_title, p.teacher_names)

parse_lesson_filename-token :
    (name : Text) {parsed : ParsedName}
    → parse_lesson_filename name ≡ some parsed
    → parsed.token ≡ grade_token parsed.grade
unfolding parse_lesson_filename
parse_lesson_filename-token name {parsed} h = ground arith

is_language-some :
    (l : Option Language) (language : Language) → is_language l language ≡ true → l ≡ some language
is_language-some none language h = cc
is_language-some (some Language.en) Language.en h = refl
is_language-some (some Language.fr) Language.fr h = refl
is_language-some (some Language.both) Language.both h = refl
is_language-some (some a) b h = cc

select-same :
    (p q : User → Bool) → ((u : User) → p u ≡ q u) → (us : List User) → select p us ≡ select q us
unfolding select
select-same p q same [] = refl
select-same p q same (u ∷ us) = ground (arith, same u, select-same p q same us)

-- the rule for a name: the teachers of its grade, language and year
abbrev fits : List School → ParsedName → Language → ℕ → User → Bool
fits schools parsed language year t =
    contains_text parsed.token t.grades
    && language_matches t.language (some language)
    && has_year (school_of schools t) year

abbrev taught : List User → List School → ParsedName → Language → ℕ → Option (Text × List Text)
taught users schools parsed language year = some (
  parsed.title,
  map (λ t. t.name)
      (select (fits schools parsed language year)
        (select (λ u. is_teacher u.role && is_active u.status) users)),
)

-- what becomes of a file with this name
foretold : List User → List School → Text → Language → ℕ → Option (Text × List Text)
foretold users schools name language year = elim (parse_lesson_filename name) [
  | none ↦ none
  | some parsed ↦ taught users schools parsed language year
]

module _ (db : Db) (parsed : ParsedName) (language : Language) (year : ℕ)
    (token : parsed.token ≡ grade_token parsed.grade) where
  -- the lesson of an upload, and the one that stands for it in the preview, fit the same teachers
  named_alike :
      let found = (find_or_create db parsed language year).0 in
      let shown = candidate db parsed language year in
      (found.title ≡ parsed.title)
      × (found.year ≡ year)
      × ((t : User)
          → lesson_matches_teacher db.schools shown t ≡ fits db.schools parsed language year t)
  unfolding find_or_create candidate lesson_matches_teacher named_lesson year_matches
  named_alike = elim (Option-cases (find (is_named parsed language year) db.lessons)) [
    | inl new ↦ rw (new, find_or_create, candidate) (refl, refl, λ t. rw token refl)
    | inr (lesson, e) ↦
        let same = find_sound (is_named parsed language year) db.lessons e in
        let grade = (int_eq_iff lesson.grade parsed.grade).0 (unfold is_named in ground arith) in
        let spoken = is_language-some lesson.language language (unfold is_named in ground arith) in
        let when : lesson.year ≡ year = unfold is_named in ground arith in
        rw (e, find_or_create, candidate) (refl, when, λ t. rw (token, grade, spoken, when) refl)
  ]

  find_or_create-staff :
      ((find_or_create db parsed language year).1.users ≡ db.users)
      × ((find_or_create db parsed language year).1.schools ≡ db.schools)
  unfolding find_or_create
  find_or_create-staff = elim (Option-cases (find (is_named parsed language year) db.lessons)) [
    | inl new ↦ rw (new, find_or_create) (refl, refl)
    | inr (lesson, e) ↦ rw (e, find_or_create) (refl, refl)
  ]

module _ (db : Db) (f : UploadedFile) (language : Language) (year : ℕ) where
  assign_uploaded_file-staff :
      ((assign_uploaded_file db f language year).1.users ≡ db.users)
      × ((assign_uploaded_file db f language year).1.schools ≡ db.schools)
  unfolding assign_uploaded_file link_file
  assign_uploaded_file-staff = elim (Option-cases (parse_lesson_filename f.filename)) [
    | inl bare ↦ rw (bare, assign_uploaded_file) (refl, refl)
    | inr (parsed, e) ↦
        let made =
          find_or_create-staff db parsed language year (parse_lesson_filename-token f.filename e) in
        let given = assign_matched-staff _ (find_or_create db parsed language year).0 _ _ in
        rw (e, assign_uploaded_file) (given.0 ∙ made.0, given.1 ∙ made.1)
  ]

  -- What becomes of an uploaded file depends on its name, the users and the schools.
  assign_uploaded_file-taught :
      of_result (assign_uploaded_file db f language year).0
      ≡ foretold db.users db.schools f.filename language year
  unfolding foretold assign_uploaded_file link_file matched_teachers active_teachers year_matches
  assign_uploaded_file-taught = elim (Option-cases (parse_lesson_filename f.filename)) [
    | inl bare ↦ rw (bare, assign_uploaded_file, of_result, foretold) refl
    | inr (parsed, e) ↦
        let token = parse_lesson_filename-token f.filename e in
        let made = find_or_create-staff db parsed language year token in
        let alike = named_alike db parsed language year token in
        rw (e, assign_uploaded_file, of_result, foretold)
          (rw (alike.0, alike.1, made.0, made.1) refl)
  ]

module _ (db : Db) (name : Text) (language : Language) (year : ℕ) where
  preview_upload-taught :
      of_preview (preview_upload db name language year)
      ≡ foretold db.users db.schools name language year
  unfolding foretold preview_upload active_teachers
  preview_upload-taught = elim (Option-cases (parse_lesson_filename name)) [
    | inl bare ↦ rw (bare, preview_upload, of_preview, foretold) refl
    | inr (parsed, e) ↦
        let token = parse_lesson_filename-token name e in
        let alike = named_alike db parsed language year token in
        let same =
          select-same (lesson_matches_teacher db.schools (candidate db parsed language year))
            (fits db.schools parsed language year) alike.2
            (select (λ u. is_teacher u.role && is_active u.status) db.users) in
        rw (e, preview_upload, of_preview, foretold) (rw same refl)
  ]

-- The files may be uploaded to a later database with the same users and schools.
upload_all-later :
    (db later : Db) (fs : List UploadedFile) (language : Language) (year : ℕ)
    → later.users ≡ db.users
    → later.schools ≡ db.schools
    → map of_result (upload_all later fs language year).0
      ≡ map of_preview (preview_uploads db (map (λ f. f.filename) fs) language year)
unfolding upload_all preview_uploads
upload_all-later db later [] language year u s = refl
upload_all-later db later (f ∷ fs) language year u s =
    let kept = assign_uploaded_file-staff later f language year in
    let rest =
      upload_all-later db (assign_uploaded_file later f language year).1 fs language year
        (kept.0 ∙ u) (kept.1 ∙ s) in
    let first : of_result (assign_uploaded_file later f language year).0
        ≡ of_preview (preview_upload db f.filename language year) =
      assign_uploaded_file-taught later f language year
      ∙ rw (u, s) (sym (preview_upload-taught db f.filename language year)) in
    cc (first, rest)

-- Files that are uploaded one after the other become lessons, with the titles and the teachers that
-- the preview of their names told beforehand, or are stored without, as it told.
pub upload_all-preview_uploads :
    (db : Db) (fs : List UploadedFile) (language : Language) (year : ℕ)
    → map of_result (upload_all db fs language year).0
      ≡ map of_preview (preview_uploads db (map (λ f. f.filename) fs) language year)
upload_all-preview_uploads db fs language year = upload_all-later db db fs language year refl refl
