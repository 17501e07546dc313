-- ===== src/Tests/Sessions.antt =====
-- Runs of signing in, of the rotation of tokens and of their end.
use edtech_back.Base.{
  ◌≡◌, refl, true, some, [], ◌∷◌, Text, codes, text_eq, contains_text, lower_code, find, any, all,
  select, update_where, delete_where, count_where, ok, Outcome, http_error, ◌==◌,
}
use edtech_back.Model.{Role, Db, default_settings}
use edtech_back.Auth.Lockout.{clear_lockout}
use edtech_back.Auth.Throttle.{enforce_ip_throttle, open_window, open_cycles, end_cycle, fail_row}
use edtech_back.Auth.Tokens.{
  AccessToken, of_token, issue_session, rotate, refresh_row, refresh, end_all_sessions,
}
use edtech_back.Auth.Rotation.{refresh_once, end_all_sessions-refused}
use edtech_back.Auth.Login.{
  LoginRequest, SessionUser, session_user, signed_in, sign_in, admit, check_password, login,
}
use edtech_back.Auth.Answers.{IsSignIn, login-IsSignIn}
use edtech_back.Tests.Fixtures.{teacher_1, token_60, db_1, plain_tokens, plain_passwords, classroom}

-- what the runs below compute with
sessions_program : Unit {0}
unfolding find any all select update_where delete_where count_where text_eq contains_text lower_code
    enforce_ip_throttle open_window open_cycles end_cycle fail_row issue_session rotate refresh_row
    refresh
sessions_program = tt

abbrev sign_in_with : Text → LoginRequest
sign_in_with password = record { email = codes "Rima@school"; password = password }

-- a sign-in and the refresh after it
abbrev signed : Outcome SessionUser × Db
signed =
    login (plain_passwords text_eq) plain_tokens default_settings (λ _ _ _. []) 20 classroom
      (sign_in_with (codes "pw")) (codes "new") db_1

abbrev session_1 : SessionUser
session_1 = record {
  user_id = 1;
  name = codes "Rima";
  email = codes "rima@school";
  role = Role.teacher;
  school_id = some 7;
  ict_fair_access = true;
  grades = codes "G6" ∷ [];
  sections = teacher_1.sections;
  access_token = record { sub = 1; iat = 0 };
}

signs_in : signed ≡ (ok session_1, signed.1)
unfolding sessions_program login check_password admit sign_in session_user signed_in clear_lockout
signs_in = refl

login-IsSignIn_example :
    IsSignIn
      (plain_passwords text_eq)
      plain_tokens
      default_settings
      (λ _ _ _. [])
      20
      classroom
      (sign_in_with (codes "pw"))
      (codes "new")
      session_1
      db_1
      signed.1
login-IsSignIn_example =
    login-IsSignIn (plain_passwords text_eq) plain_tokens default_settings (λ _ _ _. []) 20
      classroom (sign_in_with (codes "pw")) (codes "new") session_1 db_1 signed.1 signs_in

abbrev refreshed : Outcome AccessToken × Db
refreshed = refresh plain_tokens default_settings 20 (codes "raw") (codes "new") db_1

refreshes : refreshed ≡ (ok (record { sub = 1; iat = 0 }), refreshed.1)
unfolding sessions_program
refreshes = refl

refresh_once_example :
    refresh plain_tokens default_settings 30 (codes "raw") (codes "newer") refreshed.1
    ≡ (http_error 401, refreshed.1)
refresh_once_example =
    refresh_once plain_tokens default_settings 20 30 (codes "raw") (codes "new") (codes "newer")
      db_1 refreshed.1 (record { sub = 1; iat = 0 }) refreshes

found_60 :
    find (of_token plain_tokens default_settings 20 (codes "raw")) db_1.tokens ≡ some token_60
unfolding sessions_program
found_60 = refl

abbrev db_ended : Db
db_ended = (end_all_sessions plain_tokens default_settings 20 1 db_1).1

end_all_sessions-refused_example :
    refresh plain_tokens default_settings 30 (codes "raw") (codes "new") db_ended
    ≡ (http_error 401, db_ended)
end_all_sessions-refused_example =
    end_all_sessions-refused plain_tokens default_settings 20 30 1 (codes "raw") (codes "new") db_1
      token_60 found_60 refl

found_1 : find (λ u. u.id == 1) db_1.users ≡ some teacher_1
unfolding sessions_program
found_1 = refl
