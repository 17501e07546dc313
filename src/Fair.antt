-- ===== src/Fair.antt =====
-- app/routers/fair.py and app/schemas/fair.py: the sections of the ICT Fair and the projects that are
-- filed under them. The bytes of an upload are an argument.
use edtech_back.Base.{
  ℕ, ◌+◌, ◌*◌, Bool, true, false, not, ◌&&◌, ◌||◌, Option, none, some, List, [], ◌∷◌, ◌++◌, Text,
  codes, show_nat, strip, upper_code, casefold, text_eq, contains_text, nonempty, take, ◌==◌, ◌-◌,
  ltb, leb, length, find, select, map, any, delete_where, update_where, contains, latest_first,
  if◌then◌else◌, Outcome, ok, http_error,
}
use edtech_back.Model.{User, School, FairSection, FairProject, UploadedFile, Db}
use edtech_back.Permissions.{Capability, user_can}
use edtech_back.FairAccess.{is_id, can_see_fair, get_section, visible_sections}
use edtech_back.Files.{ends_with_pdf, starts_with, pdf_magic, new_file}
pub mod Filed
pub mod Listed

-- `ALL_GRADE_TOKENS`
unfoldable pub all_grade_tokens : List Text
all_grade_tokens =
    codes "KG1"
    ∷ codes "KG2"
    ∷ codes "KG3"
    ∷ map (λ i. codes "G" ++ show_nat i) (1 ∷ 2 ∷ 3 ∷ 4 ∷ 5 ∷ 6 ∷ 7 ∷ 8 ∷ 9 ∷ 10 ∷ 11 ∷ 12 ∷ [])

-- `_clean_grades`
unfoldable pub clean_grades : List Text → List Text
clean_grades value =
    let seen = map (λ g. map upper_code (strip g)) (select (λ g. nonempty (strip g)) value) in
    select (λ code. contains_text code seen) all_grade_tokens

-- `_title_from_filename`
unfoldable pub title_from_filename : Text → Text
title_from_filename filename =
    let base = if ends_with_pdf filename then take (length filename - 4) filename else filename in
    if nonempty (strip base) then strip base else codes "Untitled project"

-- a text that is stored stripped, and not at all if nothing is left
abbrev pub stripped_or_none : Option Text → Option Text
stripped_or_none none = none
stripped_or_none (some t) = if nonempty (strip t) then some (strip t) else none

-- `FairSectionOut`
pub record FairSectionOut : Type 0 where
  pub section : FairSection
  pub school_name : Option Text
  pub projects : List FairProject

abbrev pub school_name_of : Option School → Option Text
school_name_of none = none
school_name_of (some school) = some school.name

-- `_serialize`
unfoldable pub serialize : Db → FairSection → FairSectionOut
serialize db section = record {
  section = section;
  school_name = school_name_of (find (λ s. s.id == section.school_id) db.schools);
  projects = select (λ p. is_id p.section_id section.id) db.fair_projects;
}

unfoldable pub list_sections : Db → User → Option ℕ → List FairSectionOut
list_sections db current school_id = map (serialize db) (visible_sections db current school_id)

-- `FairSectionCreate`
pub record FairSectionCreate : Type 0 where
  pub school_id : ℕ
  pub title : Text
  pub blurb : Option Text
  pub grades : List Text

unfoldable pub new_section : ℕ → FairSectionCreate → FairSection
new_section id payload = record {
  id = id;
  school_id = payload.school_id;
  title = strip payload.title;
  blurb = stripped_or_none payload.blurb;
  grades = clean_grades payload.grades;
}

-- `create_section`
unfoldable pub create_fair_section : Db → User → FairSectionCreate → Outcome FairSection × Db
create_fair_section db current payload =
    if not (user_can current Capability.upload_files)
    then (http_error 403, db)
    else if not (any (λ s. s.id == payload.school_id) db.schools)
    then (http_error 404, db)
    else (
      ok (new_section db.next_id payload),
      record db {
        fair_sections = db.fair_sections ++ new_section db.next_id payload ∷ [];
        next_id = db.next_id + 1;
      },
    )

-- `FairSectionUpdate`: of the blurb, whether it was sent, and what
pub record FairSectionUpdate : Type 0 where
  pub title : Option Text
  pub blurb : Option (Option Text)
  pub grades : Option (List Text)

unfoldable pub edit_section : FairSectionUpdate → FairSection → FairSection
edit_section payload s = record s {
  title = elim payload.title [ none ↦ s.title | some t ↦ strip t ];
  blurb = elim payload.blurb [ none ↦ s.blurb | some b ↦ stripped_or_none b ];
  grades = elim payload.grades [ none ↦ s.grades | some gs ↦ clean_grades gs ];
}

-- `update_section`
unfoldable pub update_fair_section : Db → User → ℕ → FairSectionUpdate → Outcome (Unit {0}) × Db
update_fair_section db current section_id payload =
    if not (user_can current Capability.upload_files)
    then (http_error 403, db)
    else if not (any (λ s. s.id == section_id) db.fair_sections)
    then (http_error 404, db)
    else (
      ok tt,
      record db {
        fair_sections =
            update_where (λ s. s.id == section_id) (edit_section payload) db.fair_sections;
      },
    )

-- `delete_section`
unfoldable pub delete_fair_section : Db → User → ℕ → Outcome (Unit {0}) × Db
delete_fair_section db current section_id =
    if not (user_can current Capability.upload_files)
    then (http_error 403, db)
    else if not (any (λ s. s.id == section_id) db.fair_sections)
    then (http_error 404, db)
    else if any (λ p. is_id p.section_id section_id) db.fair_projects
    then (http_error 409, db)
    else (
      ok tt,
      record db { fair_sections = delete_where (λ s. s.id == section_id) db.fair_sections },
    )

abbrev pub is_unfiled : FairProject → Bool
is_unfiled p = elim p.section_id [ none ↦ true | some id ↦ false ]

unfoldable pub list_unfiled_projects : Db → User → Outcome (List FairProject)
list_unfiled_projects db current =
    if user_can current Capability.upload_files
    then ok (latest_first (select is_unfiled db.fair_projects))
    else http_error 403

-- a project is filed under one of the sections
abbrev pub is_filed_in : List ℕ → FairProject → Bool
is_filed_in ids p = elim p.section_id [ none ↦ false | some id ↦ contains id ids ]

unfoldable pub list_fair_projects : Db → User → List FairProject
list_fair_projects db current =
    if not (can_see_fair current)
    then []
    else latest_first
        (select (is_filed_in (map (λ s. s.id) (visible_sections db current none))) db.fair_projects)

-- the section that is named, if one is, is there
abbrev pub has_section : List FairSection → Option ℕ → Bool
has_section sections none = true
has_section sections (some id) = any (λ s. s.id == id) sections

unfoldable pub new_project : ℕ → ℕ → Text → Option ℕ → FairProject
new_project id file_id filename section_id = record {
  id = id;
  title = title_from_filename filename;
  file_id = some file_id;
  section_id = section_id;
}

unfoldable pub upload_fair_project :
    ℕ → Db → User → Text → List ℕ → Option ℕ → Outcome FairProject × Db
upload_fair_project max_bytes db current filename content section_id =
    let project = new_project (db.next_id + 1) db.next_id filename section_id in
    if not (user_can current Capability.upload_files)
    then (http_error 403, db)
    else if not (ends_with_pdf filename)
    then (http_error 400, db)
    else if not (has_section db.fair_sections section_id)
    then (http_error 404, db)
    else if ltb max_bytes (length content)
    then (http_error 413, db)
    else if not (starts_with pdf_magic content)
    then (http_error 400, db)
    else (
      ok project,
      record db {
        files = db.files ++ new_file db.next_id filename ∷ [];
        fair_projects = db.fair_projects ++ project ∷ [];
        next_id = db.next_id + 2;
      },
    )

-- `FairProjectUpdate`: of the section, whether it was sent, and what
pub record FairProjectUpdate : Type 0 where
  pub title : Option Text
  pub section_id : Option (Option ℕ)

unfoldable pub edit_project : FairProjectUpdate → FairProject → FairProject
edit_project payload p = record p {
  title = elim payload.title [ none ↦ p.title | some t ↦ strip t ];
  section_id = elim payload.section_id [ none ↦ p.section_id | some id ↦ id ];
}

-- the section that is sent, if one is, is there
abbrev pub has_sent : List FairSection → Option (Option ℕ) → Bool
has_sent sections none = true
has_sent sections (some id) = has_section sections id

unfoldable pub update_fair_project : Db → User → ℕ → FairProjectUpdate → Outcome (Unit {0}) × Db
update_fair_project db current project_id payload =
    if not (user_can current Capability.upload_files)
    then (http_error 403, db)
    else if not (any (λ p. p.id == project_id) db.fair_projects)
    then (http_error 404, db)
    else if not (has_sent db.fair_sections payload.section_id)
    then (http_error 404, db)
    else (
      ok tt,
      record db {
        fair_projects =
            update_where (λ p. p.id == project_id) (edit_project payload) db.fair_projects;
      },
    )

-- the file of a project is there
abbrev pub is_stored : List UploadedFile → Option ℕ → Bool
is_stored files none = false
is_stored files (some id) = any (λ f. f.id == id) files

-- what goes with a project: itself, and in cascade what is backed by the same file
abbrev pub goes_with_project : List UploadedFile → FairProject → FairProject → Bool
goes_with_project files project p = p.id == project.id || elim project.file_id [
  | none ↦ false
  | some id ↦ is_stored files (some id) && is_id p.file_id id
]

unfoldable pub delete_fair_project : Db → User → ℕ → Outcome (Unit {0}) × Db
delete_fair_project db current project_id =
    if not (user_can current Capability.upload_files)
    then (http_error 403, db)
    else elim (find (λ p. p.id == project_id) db.fair_projects) [
      | none ↦ (http_error 404, db)
      | some project ↦ (
        ok tt,
        record db {
          files = delete_where (λ f. is_id project.file_id f.id) db.files;
          fair_projects = delete_where (goes_with_project db.files project) db.fair_projects;
        },
      )
    ]
