-- ===== src/Tests/Users.antt =====
-- Runs of the creation and the editing of accounts and of the removal of a school.
use edtech_back.Base.{
  ◌≡◌, refl, false, none, some, [], ◌∷◌, codes, text_eq, contains_text, get_key, lower_code, strip,
  find, any, all, select, update_where, delete_where, count_where, ◌==◌, ok,
}
use edtech_back.Model.{User, Role, Db, default_settings}
use edtech_back.Auth.Tokens.{of_token}
use edtech_back.Users.{UserCreate, school_for_role, new_user, add_user, create_user}
use edtech_back.Users.Edit.{
  UserUpdate, apply_name, apply_email, effective_role, apply_role, apply_role_and_school,
  apply_teacher_fields, apply_edits, update_user,
}
use edtech_back.Users.Account.{IsAccount, update_user-IsAccount}
use edtech_back.Schools.{holds_school, delete_school}
use edtech_back.AutoAssign.{sync_teacher_assignments}
use edtech_back.Tests.Fixtures.{teacher_1, admin_2, token_60, db_1, plain_tokens, plain_passwords}

-- what the runs below compute with
users_program : Unit {0}
unfolding find any all select update_where delete_where count_where text_eq contains_text get_key
    lower_code holds_school delete_school
users_program = tt

-- the teacher becomes a school admin
abbrev promotion : UserUpdate
promotion = record {
  name = none;
  email = none;
  role = some (some Role.school_admin);
  school_id = none;
  grades = none;
  sections = none;
  section_renames = [];
  language = none;
  ict_fair_access = none;
}

abbrev promoted : User
promoted = record teacher_1 {
  role = Role.school_admin;
  grades = [];
  sections = [];
  language = none;
  ict_fair_access = false;
}

promotes :
    update_user [] 1 promotion db_1 ≡ (ok promoted, record db_1 { users = promoted ∷ admin_2 ∷ [] })
unfolding users_program update_user apply_edits apply_email apply_role_and_school school_for_role
    effective_role apply_name apply_teacher_fields apply_role
promotes = refl

update_user-IsAccount_example : IsAccount db_1 promoted
update_user-IsAccount_example =
    update_user-IsAccount [] 1 promotion db_1 (record db_1 { users = promoted ∷ admin_2 ∷ [] })
      promoted refl promotes

abbrev new_admin : UserCreate
new_admin = record {
  name = codes "Sami";
  email = codes "Sami@school";
  password = codes "secret";
  role = Role.school_admin;
  school_id = some 7;
  grades = [];
  sections = [];
  language = none;
  ict_fair_access = false;
}

abbrev created : User
created = record promoted {
  id = 100;
  name = codes "Sami";
  email = codes "sami@school";
  password_hash = codes "secret";
}

abbrev created_db : Db
created_db = record db_1 { users = teacher_1 ∷ admin_2 ∷ created ∷ []; next_id = 101 }

creates : create_user (plain_passwords text_eq) new_admin db_1 ≡ (ok created, created_db)
unfolding users_program create_user school_for_role new_user sync_teacher_assignments strip add_user
creates = refl

known_1 : find (λ u. u.id == 1) db_1.users ≡ some teacher_1
unfolding users_program
known_1 = refl

known_60 :
    find (of_token plain_tokens default_settings 20 (codes "raw")) db_1.tokens ≡ some token_60
unfolding users_program
known_60 = refl

-- a second school, with nobody in it
abbrev db_spare : Db
db_spare = record db_1 { schools = record { id = 8; name = codes "South"; program_year = 2 } ∷ [] }

removes : delete_school 8 db_spare ≡ (ok [], record db_spare { schools = [] })
unfolding users_program
removes = refl
