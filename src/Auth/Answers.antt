-- ===== src/Auth/Answers.antt =====
-- What `login` answers: who gets in, and what a refusal tells and leaves behind.
use edtech_back.Base.{
  ℕ, length, ◌+◌, ◌≡◌, ◌∙◌, refl, sym, ap, true, false, Option, none, some, List, [], ◌∷◌, ◌++◌,
  Text, text_eq, lower_code, map, find, ok, http_error, arith, Bool-cases, Option-cases,
  Outcome-cases, inl, inr,
}
use edtech_back.Model.{User, SecurityLog, RefreshToken, Db, Settings, days, is_active}
use edtech_back.Auth.Lockout.{is_locked, clear_lockout}
use edtech_back.Auth.Throttle.{
  of_ip, enforce_ip_throttle, record_ip_failure, clear_ip_failures, with_throttle,
}
use edtech_back.Auth.Tokens.{Origin, TokenLibrary, record_event, issue_session}
use edtech_back.Auth.Login.{
  PasswordLibrary, LoginRequest, SessionUser, session_user, put_user, log_failure, fail_account,
  is_valid, signed_in, sign_in, admit, check_password, login,
}

-- The throttle's verdict changes no row but the throttle's.
enforce_ip_throttle-keeps :
    (settings : Settings) (now : ℕ) (ip : Text) (db db' : Db)
    → enforce_ip_throttle settings now ip db ≡ ok db'
    → db'.tokens ≡ db.tokens
unfolding enforce_ip_throttle
enforce_ip_throttle-keeps settings now ip db db' h =
    elim (Option-cases (find (of_ip ip) db.throttles)) [
      | inl missing ↦ ground arith
      | inr (t, found) ↦ ground arith
    ]

module _ (passwords : PasswordLibrary) (lib : TokenLibrary) (settings : Settings)
    (watch : User → Origin → Db → List SecurityLog) (now : ℕ) (origin : Origin) where
  -- the account of an email address, however it is capitalised
  abbrev pub account_of : LoginRequest → Db → Option User
  account_of payload db = find (λ u. text_eq u.email (map lower_code payload.email)) db.users

  -- the answer to a password that is not the account's, and the tokens it leaves
  check_password-invalid :
      (user : Option User) (password fresh : Text) (db : Db)
      → is_valid passwords lib settings watch now origin user password ≡ false
      → ((check_password passwords lib settings watch now origin user password fresh db).0
          ≡ http_error 401)
        × ((check_password passwords lib settings watch now origin user password fresh db).1.tokens
            ≡ db.tokens)
  unfolding check_password record_ip_failure with_throttle fail_account log_failure record_event
  check_password-invalid none password fresh db h = ground arith
  check_password-invalid (some user) password fresh db h = ground arith

  -- Behind the throttle, a wrong password and an unknown email address are answered alike, with
  -- 401, whether the account is active, locked, pending or missing; no token is issued or revoked.
  pub login-invalid :
      (payload : LoginRequest) (fresh : Text) (db db' : Db)
      → enforce_ip_throttle settings now origin.ip db ≡ ok db'
      → is_valid passwords lib settings watch now origin (account_of payload db) payload.password
        ≡ false
      → ((login passwords lib settings watch now origin payload fresh db).0 ≡ http_error 401)
        × ((login passwords lib settings watch now origin payload fresh db).1.tokens ≡ db.tokens)
  unfolding login
  login-invalid payload fresh db db' through wrong =
      rw (through, login)
        (simp (sym (enforce_ip_throttle-keeps settings now origin.ip db db' through))
          (check_password-invalid (account_of payload db) payload.password fresh db' wrong))

  -- the account signed in: who it is, and the one new row among the tokens
  pub record IsSignIn (payload : LoginRequest) (fresh : Text) (session : SessionUser) (db db' : Db)
      : Type 0 where
    pub user : User
    pub known : account_of payload db ≡ some user
    pub verified : passwords.verify_password payload.password user.password_hash ≡ true
    pub unlocked : is_locked now user.locked_until ≡ false
    pub active : is_active user.status ≡ true
    pub same : session.user_id ≡ user.id
    pub token : RefreshToken
    pub issued : db'.tokens ≡ db.tokens ++ token ∷ []
    pub of_user : token.user_id ≡ user.id
    pub hashed : token.token_hash ≡ lib.hash_token fresh
    pub live : token.revoked ≡ false
    pub expires : token.expires_at ≡ now + days settings.refresh_token_expire_days

  clear_ip_failures-tokens : (db : Db) → (clear_ip_failures now origin.ip db).tokens ≡ db.tokens
  unfolding clear_ip_failures
  clear_ip_failures-tokens db = ground arith

  signed_in-id :
      (user : User) (password : Text)
      → (signed_in passwords lib settings watch now origin password user).id ≡ user.id
  unfolding signed_in clear_lockout
  signed_in-id user password = ground arith

  sign_in-tokens :
      (user : User) (password fresh : Text) (db : Db)
      → (t : RefreshToken) × ((sign_in passwords lib settings watch now origin user password fresh
            db).1.tokens
          ≡ db.tokens ++ t ∷ [])
        × (t.user_id ≡ user.id)
        × (t.token_hash ≡ lib.hash_token fresh)
        × (t.revoked ≡ false)
        × (t.expires_at ≡ now + days settings.refresh_token_expire_days)
  unfolding sign_in issue_session record_event
  sign_in-tokens user password fresh db =
      let stored = put_user (signed_in passwords lib settings watch now origin password user) db in
      (
        record {
          id =
              (clear_ip_failures now origin.ip stored).next_id
              + length (
                  watch (signed_in passwords lib settings watch now origin password user) origin
                    (clear_ip_failures now origin.ip stored));
          user_id = (signed_in passwords lib settings watch now origin password user).id;
          token_hash = lib.hash_token fresh;
          expires_at = now + days settings.refresh_token_expire_days;
          revoked = false;
          created_at = now;
        },
        rw (clear_ip_failures-tokens stored) refl,
        signed_in-id user password,
        refl,
        refl,
        refl,
      )

  sign_in-user_id :
      (user : User) (password fresh : Text) (db : Db)
      → (sign_in passwords lib settings watch now origin user password fresh db).0.user_id ≡ user.id
  unfolding sign_in session_user
  sign_in-user_id user password fresh db = signed_in-id user password

  admit-ok :
      (payload : LoginRequest) (user : User) (fresh : Text) (session : SessionUser)
      (db0 db db' : Db)
      → account_of payload db0 ≡ some user
      → passwords.verify_password payload.password user.password_hash ≡ true
      → db.tokens ≡ db0.tokens
      → admit passwords lib settings watch now origin user payload.password fresh db
        ≡ (ok session, db')
      → IsSignIn payload fresh session db0 db'
  unfolding admit
  admit-ok payload user fresh session db0 db db' known verified kept h =
      let (t, added, of_user, hashed, live, expires) =
        sign_in-tokens user payload.password fresh db in
      let unlocked : is_locked now user.locked_until ≡ false = ground arith in
      let active : is_active user.status ≡ true = ground arith in
      let done : sign_in passwords lib settings watch now origin user payload.password fresh db
          ≡ (session, db') =
        ground arith in
      record {
        user = user;
        known = known;
        verified = verified;
        unlocked = unlocked;
        active = active;
        same = sym (ap (λ r. r.0.user_id) done) ∙ sign_in-user_id user payload.password fresh db;
        token = t;
        issued = sym (ap (λ r. r.1.tokens) done) ∙ added ∙ ap (λ ts. ts ++ t ∷ []) kept;
        of_user = of_user;
        hashed = hashed;
        live = live;
        expires = expires;
      }

  -- Only an active account that is not locked signs in, with its password, and only to itself; one
  -- new refresh token, which is live, is all that a sign-in adds to the tokens.
  pub login-IsSignIn :
      (payload : LoginRequest) (fresh : Text) (session : SessionUser) (db db' : Db)
      → login passwords lib settings watch now origin payload fresh db ≡ (ok session, db')
      → IsSignIn payload fresh session db db'
  unfolding login check_password
  login-IsSignIn payload fresh session db db' h =
      elim (Outcome-cases (enforce_ip_throttle settings now origin.ip db)) [
        | inl (code, shut) ↦ absurd (ground arith)
        | inr (db0, through) ↦ elim (Option-cases (account_of payload db)) [
          | inl missing ↦ absurd (ground arith)
          | inr (user, known) ↦
              elim (Bool-cases (passwords.verify_password payload.password user.password_hash)) [
                | inr wrong ↦ absurd (ground arith)
                | inl verified ↦
                    admit-ok payload user fresh session db db0 db' known verified
                      (enforce_ip_throttle-keeps settings now origin.ip db db0 through)
                      (ground arith)
              ]
        ]
      ]
