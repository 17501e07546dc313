-- ===== src/FairAccess/Gates.antt =====
-- The gates of app/services/fair_access.py: the sections, a project and its PDF.
use edtech_back.Base.{
  ℕ, ◌≡◌, ◌↔◌, refl, true, not, Option, none, some, contains_text, any, ◌==◌, find, find-select,
  select-All, All, is_some, if◌then◌else◌, arith, Bool-cases, inl, inr,
}
use edtech_back.Model.{User, Role, FairSection, FairProject, Db, is_super_admin}
use edtech_back.FairAccess.{
  teaches_any_grade, can_see_fair, section_visible_to, scope_sections, visible_sections, section_of,
  visible_project, is_filed_behind, can_open_fair_file,
}

-- A teacher is shown a section exactly if she takes part in the fair, it is filed under her school,
-- and it is tagged with one of her grades.
pub section_visible_to-teacher :
    (user : User) (section : FairSection)
    → user.role ≡ Role.teacher
    → (section_visible_to user section ≡ true) ↔ (
        (user.ict_fair_access ≡ true)
        × (user.school_id ≡ some section.school_id)
        × (any (λ g. contains_text g user.grades) section.grades ≡ true))
unfolding section_visible_to can_see_fair teaches_any_grade
section_visible_to-teacher user section teaches =
    (λ h. (ground arith, ground arith, ground arith), λ h. ground arith)

pub visible-scope :
    (user : User) (section : FairSection)
    → section_visible_to user section ≡ true
    → scope_sections user none section ≡ true
unfolding section_visible_to scope_sections can_see_fair
visible-scope user section h = ground arith

pub visible-can_see :
    (user : User) (section : FairSection)
    → section_visible_to user section ≡ true
    → can_see_fair user ≡ true
unfolding section_visible_to
visible-can_see user section h = ground arith

project_gate :
    (user : User) (section : FairSection) (p : FairProject)
    → is_some (
        if not (can_see_fair user)
        then none
        else if is_super_admin user.role
        then some p
        else if section_visible_to user section
        then some p
        else none)
      ≡ section_visible_to user section
unfolding section_visible_to
project_gate user section p = ground arith

visible_sections-All :
    (db : Db) (user : User) (school_id : Option ℕ)
    → All (λ s. section_visible_to user s ≡ true) (visible_sections db user school_id)
unfolding visible_sections
visible_sections-All db user school_id = elim (Bool-cases (can_see_fair user)) [
  | inl reaches ↦ rw reaches (select-All (section_visible_to user) _)
  | inr kept_out ↦ rw kept_out tt
]

-- The list of a user holds nothing that is not hers to see, whatever school she asks for; and,
-- without a filter, it holds every section that is.
pub visible_sections-exact :
    (db : Db) (user : User) (school_id : Option ℕ) (section : FairSection)
    → find (λ s. s.id == section.id) db.fair_sections ≡ some section
    → section_visible_to user section ≡ true
    → All (λ s. section_visible_to user s ≡ true) (visible_sections db user school_id)
      × (find (λ s. s.id == section.id) (visible_sections db user none) ≡ some section)
unfolding visible_sections
visible_sections-exact db user school_id section known h = (
  visible_sections-All db user school_id,
  rw (visible-can_see user section h) (
      find-select (λ s. s.id == section.id) (section_visible_to user) _
        (find-select (λ s. s.id == section.id) (scope_sections user none) db.fair_sections known
          (visible-scope user section h))
        h),
)

-- For a project that is filed under a section, the project and the PDF behind it open to a user
-- exactly if the section is hers to see.
pub fair_gates_agree :
    (db : Db) (user : User) (p : FairProject) (section : FairSection) (file_id : ℕ)
    → find (λ q. q.id == p.id) db.fair_projects ≡ some p
    → section_of db p.section_id ≡ some section
    → find (is_filed_behind db file_id) db.fair_projects ≡ some p
    → (is_some (visible_project db user p.id) ≡ section_visible_to user section)
      × (can_open_fair_file db user file_id ≡ section_visible_to user section)
unfolding visible_project can_open_fair_file
fair_gates_agree db user p section file_id known filed behind = (
  rw (known, visible_project) (rw filed (project_gate user section p)),
  rw (behind, can_open_fair_file) (rw filed refl),
)
