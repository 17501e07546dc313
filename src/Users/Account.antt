-- ===== src/Users/Account.antt =====
-- `create_user` and `update_user` of app/routers/users.py, and the account they leave.
use edtech_back.Base.{
  ℕ, ◌≡◌, refl, Bool, true, false, Option, none, some, List, [], Text, ◌==◌, find, All, is_some,
  or_default, ok, Outcome-cases, Option-cases, arith, Bool-cases, inl, inr,
}
use mathlib.Core.Path.{subst}
use edtech_back.Model.{User, Role, Sections, Db, is_super_admin, is_teacher}
use edtech_back.Sections.Normalize.{IsStored, normalize_sections-IsStored}
use edtech_back.Auth.Login.{PasswordLibrary, put_user}
use edtech_back.Users.{UserCreate, school_for_role, new_user, create_user}
use edtech_back.Users.Edit.{
  UserUpdate, apply_name, apply_email, effective_role, apply_role, apply_role_and_school,
  apply_teacher_fields, apply_edits, apply_section_renames, update_rows, update_user,
}

-- A school exactly for those below super-admin, and one that there is; the fields of a teacher only
-- for teachers; classes as they are stored, and only of the account's grades.
pub record IsAccount (db : Db) (u : User) : Type 0 where
  pub unplaced : is_super_admin u.role ≡ true → u.school_id ≡ none
  pub placed :
      is_super_admin u.role ≡ false
      → (id : ℕ) × (u.school_id ≡ some id) × (is_some (find (λ s. s.id == id) db.schools) ≡ true)
  pub cleared :
      is_teacher u.role ≡ false
      → (u.grades ≡ []) × (u.sections ≡ []) × (u.language ≡ none) × (u.ict_fair_access ≡ false)
  pub stored : All (IsStored u.grades) u.sections

-- the two cases of `_school_for_role`
school_for_role-super :
    (db : Db) (role : Role) (school_id found : Option ℕ)
    → school_for_role db (some role) school_id ≡ ok found
    → is_super_admin role ≡ true
    → found ≡ none
unfolding school_for_role
school_for_role-super db Role.super_admin school_id found h s = ground arith
school_for_role-super db Role.school_admin school_id found h s = absurd (ground arith)
school_for_role-super db Role.teacher school_id found h s = absurd (ground arith)

school_for_role-placed :
    (db : Db) (role : Role) (school_id found : Option ℕ)
    → school_for_role db (some role) school_id ≡ ok found
    → is_super_admin role ≡ false
    → (id : ℕ) × (found ≡ some id) × (is_some (find (λ s. s.id == id) db.schools) ≡ true)
unfolding school_for_role
school_for_role-placed db Role.super_admin school_id found h s = absurd (ground arith)
school_for_role-placed db Role.school_admin none found h s = absurd (ground arith)
school_for_role-placed db Role.school_admin (some id) found h s = (id, ground arith, ground arith)
school_for_role-placed db Role.teacher none found h s = absurd (ground arith)
school_for_role-placed db Role.teacher (some id) found h s = (id, ground arith, ground arith)

new_user-IsAccount :
    (passwords : PasswordLibrary) (db : Db) (id : ℕ) (payload : UserCreate) (found : Option ℕ)
    → school_for_role db (some payload.role) payload.school_id ≡ ok found
    → IsAccount db (new_user passwords id payload found)
unfolding new_user
new_user-IsAccount passwords db id payload found h = record {
  unplaced = school_for_role-super db payload.role payload.school_id found h;
  placed = school_for_role-placed db payload.role payload.school_id found h;
  cleared = λ other. (ground arith, ground arith, ground arith, ground arith);
  stored = elim (Bool-cases (is_teacher payload.role)) [
    | inl t ↦ rw t (normalize_sections-IsStored payload.sections payload.grades)
    | inr f ↦ rw f tt
  ];
}

apply_teacher_fields-IsAccount :
    (db : Db) (payload : UserUpdate) (user : User)
    → (is_super_admin user.role ≡ true → user.school_id ≡ none)
    → (is_super_admin user.role ≡ false
        → (id : ℕ) × (user.school_id ≡ some id)
          × (is_some (find (λ s. s.id == id) db.schools) ≡ true))
    → IsAccount db (apply_teacher_fields payload (some user.role) user)
unfolding apply_teacher_fields
apply_teacher_fields-IsAccount db payload user unplaced placed =
    elim (Bool-cases (is_teacher user.role)) [
      | inl t ↦ rw t (record {
        unplaced = unplaced;
        placed = placed;
        cleared = λ other. absurd (ground arith);
        stored =
            normalize_sections-IsStored (or_default payload.sections user.sections)
              (or_default payload.grades user.grades);
      })
      | inr f ↦ rw f (record {
        unplaced = unplaced;
        placed = placed;
        cleared = λ other. (refl, refl, refl, refl);
        stored = tt;
      })
    ]

-- whether a payload sends `null` for the role
abbrev pub sends_null_role : UserUpdate → Bool
sends_null_role payload = elim payload.role [ some none ↦ true | _ ↦ false ]

effective_role-apply_role :
    (payload : UserUpdate) (user placed : User)
    → sends_null_role payload ≡ false
    → placed.role ≡ (apply_role payload user).role
    → effective_role payload placed ≡ some placed.role
unfolding effective_role apply_role
effective_role-apply_role payload user placed sent same = ground arith

placed-IsAccount :
    (db : Db) (payload : UserUpdate) (named placed : User)
    → sends_null_role payload ≡ false
    → apply_role_and_school db payload named ≡ ok placed
    → IsAccount db (apply_teacher_fields payload (effective_role payload placed) placed)
unfolding apply_role_and_school
placed-IsAccount db payload named placed sent h =
    elim (Outcome-cases (
      school_for_role db (effective_role payload (apply_role payload named))
        (or_default payload.school_id named.school_id))) [
          | inl (code, refused) ↦ absurd (ground arith)
          | inr (found, accepted) ↦
              let q : User = record (apply_role payload named) { school_id = found } in
              let same : q ≡ placed = ground arith in
              let role : effective_role payload q ≡ some q.role =
                effective_role-apply_role payload named q sent refl in
              let accepted' : school_for_role db (some q.role)
                    (or_default payload.school_id named.school_id)
                  ≡ ok found =
                subst
                  (λ r.
                    school_for_role db r (or_default payload.school_id named.school_id) ≡ ok found)
                  (effective_role-apply_role payload named (apply_role payload named) sent refl)
                  accepted in
              let sound : IsAccount db (apply_teacher_fields payload (some q.role) q) =
                apply_teacher_fields-IsAccount db payload q
                  (school_for_role-super db q.role (or_default payload.school_id named.school_id)
                    found accepted')
                  (school_for_role-placed db q.role (or_default payload.school_id named.school_id)
                    found accepted') in
              subst (λ u. IsAccount db (apply_teacher_fields payload (effective_role payload u) u))
                same (rw role sound)
        ]

apply_edits-IsAccount :
    (db : Db) (payload : UserUpdate) (user edited : User)
    → sends_null_role payload ≡ false
    → apply_edits db payload user ≡ ok edited
    → IsAccount db edited
unfolding apply_edits
apply_edits-IsAccount db payload user edited sent h =
    elim (Outcome-cases (apply_email db payload (apply_name payload user))) [
      | inl (code, refused) ↦ absurd (ground arith)
      | inr (named, accepted) ↦ elim (Outcome-cases (apply_role_and_school db payload named)) [
        | inl (code, refused) ↦ absurd (ground arith)
        | inr (placed, found) ↦
            let same : apply_teacher_fields payload (effective_role payload placed) placed
                ≡ edited =
              ground arith in
            subst (λ u. IsAccount db u) same (placed-IsAccount db payload named placed sent found)
      ]
    ]

update_rows-ok :
    (tokens : List Text) (payload : UserUpdate) (before : Sections) (user : User)
    (stored db db' : Db) (edited : User)
    → update_rows tokens payload before user stored db ≡ (ok edited, db')
    → user ≡ edited
unfolding update_rows
update_rows-ok tokens payload before user stored db db' edited h =
    elim (Outcome-cases (apply_section_renames stored user payload before)) [
      | inl (code, refused) ↦ absurd (ground arith)
      | inr (moved, accepted) ↦ ground arith
    ]

-- Every edit that is not refused leaves an account with a school exactly if it is below
-- super-admin, with the fields of a teacher only if it is a teacher's, and with classes as they are
-- stored; unless the payload sends `null` for the role.
pub update_user-IsAccount :
    (tokens : List Text) (user_id : ℕ) (payload : UserUpdate) (db db' : Db) (edited : User)
    → sends_null_role payload ≡ false
    → update_user tokens user_id payload db ≡ (ok edited, db')
    → IsAccount db edited
unfolding update_user
update_user-IsAccount tokens user_id payload db db' edited sent h =
    elim (Option-cases (find (λ u. u.id == user_id) db.users)) [
      | inl missing ↦ absurd (ground arith)
      | inr (user, known) ↦ elim (Outcome-cases (apply_edits db payload user)) [
        | inl (code, refused) ↦ absurd (ground arith)
        | inr (e, accepted) ↦
            let same : e ≡ edited = elim (Bool-cases (is_teacher e.role)) [
              | inl t ↦
                  update_rows-ok tokens payload user.sections e (put_user e db) db db' edited
                    (ground arith)
              | inr f ↦ ground arith
            ] in
            subst (λ u. IsAccount db u) same (apply_edits-IsAccount db payload user e sent accepted)
      ]
    ]

-- Every account that is created has a school exactly if it is below super-admin, the fields of a
-- teacher only if it is a teacher's, and classes as they are stored.
pub create_user-IsAccount :
    (passwords : PasswordLibrary) (payload : UserCreate) (db db' : Db) (user : User)
    → create_user passwords payload db ≡ (ok user, db')
    → IsAccount db user
unfolding create_user
create_user-IsAccount passwords payload db db' user h =
    elim (Outcome-cases (school_for_role db (some payload.role) payload.school_id)) [
      | inl (code, refused) ↦ absurd (ground arith)
      | inr (found, placed) ↦
          let same : new_user passwords db.next_id payload found ≡ user = ground arith in
          subst (λ u. IsAccount db u) same
            (new_user-IsAccount passwords db db.next_id payload found placed)
    ]
