-- ===== src/Auth/Network.antt =====
-- The rows of the throttle through a sign-in as a whole.
use edtech_back.Base.{
  ℕ, ◌≤◌, ◌≡◌, ◌⊎◌, refl, Option, none, some, List, Text, nonempty, find, All, All-append_one,
  update_where-All, find-All, is_some, ok, Outcome-cases, arith, Bool-cases, Option-cases, inl, inr,
}
use mathlib.Core.Path.{subst}
use edtech_back.Model.{User, SecurityLog, LoginThrottle, Db, Settings, is_active}
use edtech_back.Auth.Lockout.{is_locked}
use edtech_back.Auth.Throttle.{
  Verdict, refused, passed, of_ip, new_throttle, enforce_row, put_throttle, enforce_ip_throttle,
  fail_row, with_throttle, record_ip_failure, forgive_row, clear_ip_failures,
}
use edtech_back.Auth.Banning.{
  IsThrottle, fail_row-IsThrottle, forgive_row-IsThrottle, enforce_row-IsThrottle,
}
use edtech_back.Auth.Tokens.{Origin, TokenLibrary, record_event, issue_session}
use edtech_back.Auth.Login.{
  PasswordLibrary, LoginRequest, put_user, log_failure, fail_account, signed_in, sign_in, admit,
  check_password, login,
}

module _ (settings : Settings) (now : ℕ) where
  abbrev pub AreThrottles : Db → Type 0
  AreThrottles db = All (IsThrottle settings) db.throttles

  Verdict-cases : (v : Verdict) → (v ≡ refused) ⊎ ((t : LoginThrottle) × (v ≡ passed t))
  Verdict-cases refused = inl refl
  Verdict-cases (passed t) = inr (t, refl)

  enforce_ip_throttle-AreThrottles :
      (ip : Text) (db db' : Db)
      → AreThrottles db
      → enforce_ip_throttle settings now ip db ≡ ok db'
      → AreThrottles db'
  unfolding enforce_ip_throttle
  enforce_ip_throttle-AreThrottles ip db db' h e = elim (Bool-cases (nonempty ip)) [
    | inr empty ↦ let same : db ≡ db' = ground arith in subst (λ d. AreThrottles d) same h
    | inl there ↦ elim (Option-cases (find (of_ip ip) db.throttles)) [
      | inl missing ↦ let same : db ≡ db' = ground arith in subst (λ d. AreThrottles d) same h
      | inr (t, found) ↦ elim (Verdict-cases (enforce_row settings now t)) [
        | inl shut ↦ absurd (ground arith)
        | inr (t', open_row) ↦
            let same : put_throttle t' db ≡ db' = ground arith in
            subst (λ d. AreThrottles d) same
              (update_where-All (IsThrottle settings) (of_ip t'.ip) (λ _. t')
                (λ _ _.
                  (enforce_row-IsThrottle settings now t t'
                    (find-All (IsThrottle settings) (of_ip ip) db.throttles h found) open_row).0)
                db.throttles h)
      ]
    ]
  ]

  with_throttle-AreThrottles :
      (ip : Text) (db : Db)
      → 1 ≤ settings.login_ip_max_failures
      → AreThrottles db
      → AreThrottles (with_throttle ip db)
  unfolding with_throttle
  with_throttle-AreThrottles ip db some_allowed h =
      elim (Bool-cases (is_some (find (of_ip ip) db.throttles))) [
        | inl there ↦ rw there h
        | inr missing ↦ rw missing (
            All-append_one (IsThrottle settings) db.throttles (new_throttle ip) h (record {
              below = omega arith;
              instead = λ b. refl;
              earned = λ b. absurd (ground arith);
            }))
      ]

  record_ip_failure-AreThrottles :
      (ip : Text) (db : Db)
      → 1 ≤ settings.login_ip_max_failures
      → AreThrottles db
      → AreThrottles (record_ip_failure settings now ip db)
  unfolding record_ip_failure
  record_ip_failure-AreThrottles ip db some_allowed h = elim (Bool-cases (nonempty ip)) [
    | inr empty ↦ rw empty h
    | inl there ↦ rw there (
        update_where-All (IsThrottle settings) (of_ip ip) (fail_row settings now)
          (fail_row-IsThrottle settings now) (with_throttle ip db).throttles
          (with_throttle-AreThrottles ip db some_allowed h))
  ]

  clear_ip_failures-AreThrottles :
      (ip : Text) (db : Db) → AreThrottles db → AreThrottles (clear_ip_failures now ip db)
  unfolding clear_ip_failures
  clear_ip_failures-AreThrottles ip db h = elim (Bool-cases (nonempty ip)) [
    | inr empty ↦ rw empty h
    | inl there ↦ rw there (
        update_where-All (IsThrottle settings) (of_ip ip) (forgive_row now)
          (forgive_row-IsThrottle settings now) db.throttles h)
  ]

module _ (passwords : PasswordLibrary) (lib : TokenLibrary) (settings : Settings)
    (watch : User → Origin → Db → List SecurityLog) (now : ℕ) (origin : Origin) where
  sign_in-AreThrottles :
      (user : User) (password fresh : Text) (db : Db)
      → AreThrottles settings now db
      → AreThrottles settings now
          (sign_in passwords lib settings watch now origin user password fresh db).1
  unfolding sign_in issue_session record_event
  sign_in-AreThrottles user password fresh db h =
      clear_ip_failures-AreThrottles settings now origin.ip
        (put_user (signed_in passwords lib settings watch now origin password user) db) h

  admit-AreThrottles :
      (user : User) (password fresh : Text) (db : Db)
      → AreThrottles settings now db
      → AreThrottles settings now
          (admit passwords lib settings watch now origin user password fresh db).1
  unfolding admit record_event
  admit-AreThrottles user password fresh db h =
      let signed = sign_in-AreThrottles user password fresh db h in
      elim (Bool-cases (is_locked now user.locked_until)) [
        | inl locked ↦ rw (locked, admit) h
        | inr unlocked ↦ elim (Bool-cases (is_active user.status)) [
          | inl active ↦ rw (unlocked, admit) (rw active signed)
          | inr inactive ↦ rw (unlocked, admit) (rw inactive h)
        ]
      ]

  fail_account-throttles :
      (user : User) (db : Db)
      → (fail_account passwords lib settings watch now origin user db).throttles ≡ db.throttles
  unfolding fail_account log_failure record_event
  fail_account-throttles user db = ground arith

  check_password-AreThrottles :
      (user : Option User) (password fresh : Text) (db : Db)
      → 1 ≤ settings.login_ip_max_failures
      → AreThrottles settings now db
      → AreThrottles settings now
          (check_password passwords lib settings watch now origin user password fresh db).1
  unfolding check_password
  check_password-AreThrottles none password fresh db some_allowed h =
      record_ip_failure-AreThrottles settings now origin.ip db some_allowed h
  check_password-AreThrottles (some user) password fresh db some_allowed h =
      elim (Bool-cases (passwords.verify_password password user.password_hash)) [
        | inl right_one ↦ rw right_one (admit-AreThrottles user password fresh db h)
        | inr wrong ↦ rw wrong (
            record_ip_failure-AreThrottles settings now origin.ip _ some_allowed
              (rw (fail_account-throttles user db) h))
      ]

  -- Where at least one failure is allowed, a sign-in attempt, whatever comes of it, keeps what holds of the rows of the throttle: failures
  -- below the limit, and bans only in place of a lock and behind all of their cycles.
  pub login-AreThrottles :
      (payload : LoginRequest) (fresh : Text) (db : Db)
      → 1 ≤ settings.login_ip_max_failures
      → AreThrottles settings now db
      → AreThrottles settings now (login passwords lib settings watch now origin payload fresh db).1
  unfolding login
  login-AreThrottles payload fresh db some_allowed h =
      elim (Outcome-cases (enforce_ip_throttle settings now origin.ip db)) [
        | inl (code, shut) ↦ rw (shut, login) h
        | inr (db', through) ↦
            rw (through, login)
              (check_password-AreThrottles _ payload.password fresh db' some_allowed
                (enforce_ip_throttle-AreThrottles settings now origin.ip db db' h through))
      ]
