-- ===== src/FairAccess.antt =====
-- app/services/fair_access.py: which sections of the ICT Fair, which projects and which of their
-- PDFs a user reaches. The order of a list by title is left out: a list stands in the order of the
-- table.
use edtech_back.Base.{
  ℕ, Bool, true, false, not, ◌&&◌, ◌||◌, Option, none, some, List, [], ◌∷◌, Text, contains_text,
  any, ◌==◌, find, select, is_some, if◌then◌else◌,
}
use edtech_back.Model.{User, Role, FairSection, FairProject, Db, is_teacher, is_super_admin}
pub mod Gates

-- a comparison of an optional column with an id
abbrev pub is_id : Option ℕ → ℕ → Bool
is_id none id = false
is_id (some other) id = other == id

unfoldable pub teaches_any_grade : User → List Text → Bool
teaches_any_grade user grades = any (λ g. contains_text g user.grades) grades

unfoldable pub can_see_fair : User → Bool
can_see_fair user =
    if is_teacher user.role && not user.ict_fair_access
    then false
    else if not (is_super_admin user.role) && not (is_some user.school_id)
    then false
    else true

unfoldable pub section_visible_to : User → FairSection → Bool
section_visible_to user section =
    if not (can_see_fair user)
    then false
    else if is_super_admin user.role
    then true
    else if not (is_id user.school_id section.school_id)
    then false
    else if is_teacher user.role
    then teaches_any_grade user section.grades
    else true

-- the condition that `scope_sections` adds to a query
unfoldable pub scope_sections : User → Option ℕ → FairSection → Bool
scope_sections user school_id section =
    if is_super_admin user.role
    then not (is_some school_id) || is_id school_id section.school_id
    else is_id user.school_id section.school_id

unfoldable pub visible_sections : Db → User → Option ℕ → List FairSection
visible_sections db user school_id =
    if not (can_see_fair user)
    then []
    else select (section_visible_to user) (select (scope_sections user school_id) db.fair_sections)

-- `db.get(FairSection, id)`
abbrev pub get_section : Db → ℕ → Option FairSection
get_section db id = find (λ s. s.id == id) db.fair_sections

-- the section of a project that is filed
abbrev pub section_of : Db → Option ℕ → Option FairSection
section_of db none = none
section_of db (some id) = get_section db id

abbrev pub sees : User → Option FairSection → Bool
sees user none = false
sees user (some section) = section_visible_to user section

unfoldable pub visible_project : Db → User → ℕ → Option FairProject
visible_project db user project_id = elim (find (λ p. p.id == project_id) db.fair_projects) [
  | none ↦ none
  | some project ↦
      if not (can_see_fair user)
      then none
      else if is_super_admin user.role
      then some project
      else if sees user (section_of db project.section_id)
      then some project
      else none
]

-- a row of the join of the sections with the projects of the file
abbrev pub is_filed_behind : Db → ℕ → FairProject → Bool
is_filed_behind db file_id p = is_id p.file_id file_id && is_some (section_of db p.section_id)

unfoldable pub can_open_fair_file : Db → User → ℕ → Bool
can_open_fair_file db user file_id = elim (find (is_filed_behind db file_id) db.fair_projects) [
  | none ↦ false
  | some p ↦ sees user (section_of db p.section_id)
]

-- `refuse_fair_backed`: whether a deletion of the files goes on
unfoldable pub refuse_fair_backed : Db → List ℕ → Bool
refuse_fair_backed db file_ids =
    not (any (λ id. any (λ p. is_id p.file_id id) db.fair_projects) file_ids)
