-- ===== src/Users/Edit.antt =====
-- `update_user`: the fields of an account, and the renaming of its classes.
use edtech_back.Base.{
  ℕ, ◌+◌, Bool, false, not, ◌&&◌, Option, none, some, List, [], ◌∷◌, ◌++◌, map, Text, codes,
  text_eq, strip, lower_code, show_nat, contains_text, get_key, set_key, ◌==◌, find, is_some,
  or_default, if◌then◌else◌, Outcome, ok, http_error,
}
use edtech_back.Model.{User, Role, Language, Sections, Db, is_teacher}
use edtech_back.Sections.Normalize.{normalize_sections}
use edtech_back.Sections.Rename.{rename_section, sync_progress_sections}
use edtech_back.Auth.Login.{put_user}
use edtech_back.Users.{school_for_role, resync}

pub record SectionRename : Type 0 where
  pub grade : Text
  pub from_section : Text
  pub to_section : Text

-- `none` is a field that the payload leaves out; `role` and `school_id` may also be sent as `null`
pub record UserUpdate : Type 0 where
  pub name : Option Text
  pub email : Option Text
  pub role : Option (Option Role)
  pub school_id : Option (Option ℕ)
  pub grades : Option (List Text)
  pub sections : Option Sections
  pub section_renames : List SectionRename
  pub language : Option Language
  pub ict_fair_access : Option Bool

unfoldable pub apply_name : UserUpdate → User → User
apply_name payload user = elim payload.name [
  | none ↦ user
  | some name ↦ record user { name = strip name }
]

-- `_apply_email_change`
unfoldable pub apply_email : Db → UserUpdate → User → Outcome User
apply_email db payload user = elim payload.email [
  | none ↦ ok user
  | some email ↦
      let new_email = map lower_code email in
      if is_some (find (λ u. text_eq u.email new_email && not (u.id == user.id)) db.users)
      then http_error 409
      else ok (record user { email = new_email })
]

-- `data.get("role", user.role)`
unfoldable pub effective_role : UserUpdate → User → Option Role
effective_role payload user = or_default payload.role (some user.role)

-- the role, where one is sent that is not `null`
unfoldable pub apply_role : UserUpdate → User → User
apply_role payload user = elim payload.role [
  | some (some role) ↦ record user { role = role }
  | _ ↦ user
]

-- `_apply_role_and_school`
unfoldable pub apply_role_and_school : Db → UserUpdate → User → Outcome User
apply_role_and_school db payload user =
    elim (school_for_role db (effective_role payload (apply_role payload user))
      (or_default payload.school_id user.school_id)) [
        | http_error code ↦ http_error code
        | ok school_id ↦ ok (record (apply_role payload user) { school_id = school_id })
      ]

-- `effective_role != Role.teacher`, as the caller passes it
abbrev pub teaches : Option Role → Bool
teaches none = false
teaches (some role) = is_teacher role

-- `data["language"]`, where it is sent and not `null`
abbrev pub or_kept : Option Language → Option Language → Option Language
or_kept none kept = kept
or_kept (some new) kept = some new

-- `_apply_teacher_fields`
unfoldable pub apply_teacher_fields : UserUpdate → Option Role → User → User
apply_teacher_fields payload role user =
    let grades = or_default payload.grades user.grades in
    if not (teaches role)
    then record user { grades = []; sections = []; language = none; ict_fair_access = false }
    else record user {
      grades = grades;
      language = or_kept payload.language user.language;
      ict_fair_access = or_default payload.ict_fair_access user.ict_fair_access;
      sections = normalize_sections (or_default payload.sections user.sections) grades;
    }

-- the edits of the account before the renaming
unfoldable pub apply_edits : Db → UserUpdate → User → Outcome User
apply_edits db payload user = elim (apply_email db payload (apply_name payload user)) [
  | http_error code ↦ http_error code
  | ok named ↦ elim (apply_role_and_school db payload named) [
    | http_error code ↦ http_error code
    | ok placed ↦ ok (apply_teacher_fields payload (effective_role payload placed) placed)
  ]
]

-- `sections.get(grade, [])`
abbrev pub labels_of : Sections → Text → List Text
labels_of sections grade = or_default (get_key grade sections) []

-- the labels after a rename
abbrev pub relabel : Text → Text → List Text → List Text
relabel old new = map (λ label. if text_eq label old then new else label)

-- the loop of `_apply_section_renames` over the renames: those planned, and the classes as though
-- they had always had their new names
unfoldable pub plan_renames :
    Sections
    → List SectionRename
    → List SectionRename × Sections
    → Outcome (List SectionRename × Sections)
plan_renames after [] acc = ok acc
plan_renames after (r ∷ rs) (planned, rewritten) =
    let skipped = plan_renames after rs (planned, rewritten) in
    let taken = plan_renames after rs (
      planned ++ r ∷ [],
      set_key r.grade (relabel r.from_section r.to_section (labels_of rewritten r.grade)) rewritten,
    ) in
    if text_eq r.from_section r.to_section
    then skipped
    else if not (contains_text r.to_section (labels_of after r.grade))
    then http_error 400
    else if not (contains_text r.from_section (labels_of rewritten r.grade))
    then http_error 400
    else taken

-- `f"~mv{i}~"`
unfoldable pub holding : ℕ → Text
holding i = codes "~mv" ++ show_nat i ++ codes "~"

-- the first pass, from the i-th rename on
unfoldable pub stage_renames : ℕ → ℕ → List SectionRename → Db → Db
stage_renames user_id i [] db = db
stage_renames user_id i (r ∷ rs) db =
    stage_renames user_id (i + 1) rs
      (rename_section db user_id r.grade r.from_section (holding i)).0

-- the second pass
unfoldable pub settle_renames : ℕ → ℕ → List SectionRename → Db → Db
settle_renames user_id i [] db = db
settle_renames user_id i (r ∷ rs) db =
    settle_renames user_id (i + 1) rs (rename_section db user_id r.grade (holding i) r.to_section).0

-- `_apply_section_renames`
unfoldable pub apply_section_renames : Db → User → UserUpdate → Sections → Outcome (Sections × Db)
apply_section_renames db user payload before =
    elim (plan_renames user.sections payload.section_renames ([], before)) [
      | http_error code ↦ http_error code
      | ok (planned, rewritten) ↦
          ok (rewritten, settle_renames user.id 0 planned (stage_renames user.id 0 planned db))
    ]

-- what `update_user` does to the rows of a teacher; `tokens` as for `sync_progress_sections`
unfoldable pub update_rows : List Text → UserUpdate → Sections → User → Db → Db → Outcome User × Db
update_rows tokens payload before user stored rolled_back =
    elim (apply_section_renames stored user payload before) [
      | http_error code ↦ (http_error code, rolled_back)
      | ok (rewritten, renamed) ↦ (
        ok user,
        resync user (sync_progress_sections tokens renamed user rewritten user.sections),
      )
    ]

unfoldable pub update_user : List Text → ℕ → UserUpdate → Db → Outcome User × Db
update_user tokens user_id payload db = elim (find (λ u. u.id == user_id) db.users) [
  | none ↦ (http_error 404, db)
  | some user ↦ elim (apply_edits db payload user) [
    | http_error code ↦ (http_error code, db)
    | ok edited ↦
        let stored = put_user edited db in
        if is_teacher edited.role
        then update_rows tokens payload user.sections edited stored db
        else (ok edited, stored)
  ]
]
