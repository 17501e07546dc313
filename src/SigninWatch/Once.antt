-- ===== src/SigninWatch/Once.antt =====
-- The warnings of app/services/signin_watch.py about a shared account.
use edtech_back.Base.{
  ℕ, ◌≡◌, ◌≤◌, ◌+◌, true, not, ◌||◌, List, [], ◌∷◌, ◌++◌, nonempty, ◌==◌, any, any-append, arith,
  Bool-cases, Option-cases, inl, inr,
}
use edtech_back.Model.{User, SecurityLog, SecurityEvent, Db, Settings}
use edtech_back.Auth.Tokens.{Origin}
use edtech_back.SigninWatch.{
  WatchLibrary, warning, last_signin, window, already_warned, is_elsewhere, check_sign_in,
}

module _ (lib : WatchLibrary) (settings : Settings) where
  check_sign_in-row :
      (now : ℕ) (user : User) (origin : Origin) (db : Db) {row : SecurityLog}
      → check_sign_in lib settings now user origin db ≡ row ∷ []
      → row ≡ warning db.next_id now origin user SecurityEvent.suspicious_location
  unfolding check_sign_in
  check_sign_in-row now user origin db {row} h =
      elim (Bool-cases (not (nonempty origin.ip) || settings.signin_window_minutes == 0)) [
        | inl off ↦ absurd (ground arith)
        | inr on ↦ elim (Option-cases (last_signin lib settings now db.log user.id)) [
          | inl first ↦ absurd (ground arith)
          | inr (previous, e) ↦ elim (Bool-cases (is_elsewhere lib settings now origin previous)) [
            | inr near ↦ absurd (ground arith)
            | inl far ↦ elim (Bool-cases (already_warned lib settings now db.log user.id)) [
              | inl warned ↦ absurd (ground arith)
              | inr fresh ↦ ground arith
            ]
          ]
        ]
      ]

  already_warned-check_sign_in :
      (now : ℕ) (user : User) (origin : Origin) (db : Db)
      → already_warned lib settings now db.log user.id ≡ true
      → check_sign_in lib settings now user origin db ≡ []
  unfolding check_sign_in
  already_warned-check_sign_in now user origin db h = ground arith

  contains-already_warned :
      (now now' : ℕ) (user : User) (before after : List SecurityLog) (id : ℕ) (origin : Origin)
      {row : SecurityLog}
      → now' ≤ now + window lib settings now
      → row ≡ warning id now origin user SecurityEvent.suspicious_location
      → already_warned lib settings now' (before ++ row ∷ after) user.id ≡ true
  unfolding already_warned any warning
  contains-already_warned now now' user before after id origin {row} soon shape =
      rw (shape, any-append) (ground arith)

  -- An account whose sign-in was warned of is not warned of again within the window, wherever it
  -- signs in from and whatever the log has besides.
  pub check_sign_in_once :
      (now now' : ℕ) (user user' : User) (origin origin' : Origin) (db db' : Db) (row : SecurityLog)
      (before after : List SecurityLog)
      → check_sign_in lib settings now user origin db ≡ row ∷ []
      → db'.log ≡ before ++ row ∷ after
      → user'.id ≡ user.id
      → now' ≤ now + window lib settings now
      → check_sign_in lib settings now' user' origin' db' ≡ []
  check_sign_in_once now now' user user' origin origin' db db' row before after h e same soon =
      already_warned-check_sign_in now' user' origin' db' (
        let shape = check_sign_in-row now user origin db h in
        rw (same, e)
          (contains-already_warned now now' user before after db.next_id origin soon shape))
