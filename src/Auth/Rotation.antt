-- ===== src/Auth/Rotation.antt =====
-- `refresh` and `end_all_sessions`, and what becomes of a refresh token.
use edtech_back.Base.{
  ℕ, ◌≡◌, ◌∙◌, refl, true, Option, some, Text, nonempty, ◌==◌, ==_refl, ltb, find, find-append_some,
  find-update_where_any, if◌then◌else◌, ok, http_error, arith, Bool-cases, Option-cases, inl, inr,
}
use mathlib.Core.Path.{subst}
use edtech_back.Model.{User, RefreshToken, Db, Settings, is_active}
use edtech_back.Auth.Tokens.{
  TokenLibrary, AccessToken, issue_session, of_token, rotate, refresh_row, refresh,
  end_all_sessions, is_live_of, is_stale, current_of, timestamp,
}

module _ (lib : TokenLibrary) (settings : Settings) where
  -- A row that is revoked is answered with 401 and changes nothing.
  revoked-refused :
      (now : ℕ) (t : RefreshToken) (fresh : Text) (db : Db)
      → t.revoked ≡ true
      → refresh_row lib settings now t fresh db ≡ (http_error 401, db)
  unfolding refresh_row
  revoked-refused now t fresh db h = ground arith

  pub find_revoked-refused :
      (now : ℕ) (raw fresh : Text) (db : Db) (t : RefreshToken)
      → find (of_token lib settings now raw) db.tokens ≡ some t
      → t.revoked ≡ true
      → refresh lib settings now raw fresh db ≡ (http_error 401, db)
  unfolding refresh
  find_revoked-refused now raw fresh db t e h = elim (Bool-cases (nonempty raw)) [
    | inr empty ↦ rw empty refl
    | inl there ↦ rw there (rw (e, revoked-refused now t fresh db h) refl)
  ]

  -- the row of a token, after it was rotated
  find-rotate :
      (now : ℕ) (raw fresh : Text) (user : User) (db : Db) (t : RefreshToken)
      → find (of_token lib settings now raw) db.tokens ≡ some t
      → find (of_token lib settings now raw) (rotate lib settings now t user fresh db).1.tokens
        ≡ some (record t { revoked = true })
  unfolding rotate issue_session
  find-rotate now raw fresh user db t e = find-append_some (of_token lib settings now raw) _ _ (
      find-update_where_any (of_token lib settings now raw) (λ r. r.id == t.id)
        (λ r. record r { revoked = true }) (λ r. refl) db.tokens
      ∙ rw e (rw (==_refl t.id) refl))

  -- What the answer to a row leaves behind: the row is revoked if tokens were issued.
  refresh_row-find :
      (now : ℕ) (raw fresh : Text) (db db' : Db) (t : RefreshToken) (access : AccessToken)
      → find (of_token lib settings now raw) db.tokens ≡ some t
      → refresh_row lib settings now t fresh db ≡ (ok access, db')
      → find (of_token lib settings now raw) db'.tokens ≡ some (record t { revoked = true })
  unfolding refresh_row
  refresh_row-find now raw fresh db db' t access e h =
      elim (Option-cases (find (λ u. u.id == t.user_id) db.users)) [
        | inl missing ↦ absurd (ground arith)
        | inr (user, found) ↦
            let moved : (rotate lib settings now t user fresh db).1 ≡ db' = ground arith in
            subst
              (λ d.
                find (of_token lib settings now raw) d.tokens ≡ some (record t { revoked = true }))
              moved (find-rotate now raw fresh user db t e)
      ]

  -- A refresh token that was answered with new tokens is refused from then on, at any moment and
  -- whatever is presented as the next random token; the second request changes nothing.
  pub refresh_once :
      (now later : ℕ) (raw fresh fresh' : Text) (db db' : Db) (access : AccessToken)
      → refresh lib settings now raw fresh db ≡ (ok access, db')
      → refresh lib settings later raw fresh' db' ≡ (http_error 401, db')
  unfolding refresh
  refresh_once now later raw fresh fresh' db db' access h =
      elim (Option-cases (find (of_token lib settings now raw) db.tokens)) [
        | inl missing ↦ absurd (ground arith)
        | inr (t, e) ↦
            find_revoked-refused later raw fresh' db' (record t { revoked = true })
              (refresh_row-find now raw fresh db db' t access e (ground arith)) refl
      ]

  -- the sign-out of a user, seen by the rows of the tokens
  revoked_of : ℕ → RefreshToken → RefreshToken
  revoked_of user_id t =
      if is_live_of lib settings 0 user_id t then record t { revoked = true } else t

  revoked_of-revoked :
      (user_id : ℕ) (t : RefreshToken) → t.user_id ≡ user_id → (revoked_of user_id t).revoked ≡ true
  unfolding revoked_of
  revoked_of-revoked user_id t same = ground arith

  -- the row of a token of the user, after every session of hers was ended
  pub end_all_sessions-find :
      (now user_id : ℕ) (raw : Text) (db : Db) (t : RefreshToken)
      → find (of_token lib settings now raw) db.tokens ≡ some t
      → t.user_id ≡ user_id
      → (r : RefreshToken) × (find
            (of_token lib settings now raw)
            (end_all_sessions lib settings now user_id db).1.tokens
          ≡ some r)
        × (r.revoked ≡ true)
  unfolding end_all_sessions
  end_all_sessions-find now user_id raw db t e same = (
    revoked_of user_id t,
    find-update_where_any (of_token lib settings now raw) (is_live_of lib settings now user_id)
          (λ r. record r { revoked = true }) (λ r. refl) db.tokens
        ∙ rw e (unfold revoked_of in refl),
    revoked_of-revoked user_id t same,
  )

  -- After every session of a user was ended, no refresh token that was issued to her before, live
  -- or not, is answered with new tokens, at any moment, and the attempt changes nothing.
  pub end_all_sessions-refused :
      (now later user_id : ℕ) (raw fresh : Text) (db : Db) (t : RefreshToken)
      → find (of_token lib settings now raw) db.tokens ≡ some t
      → t.user_id ≡ user_id
      → refresh lib settings later raw fresh (end_all_sessions lib settings now user_id db).1
        ≡ (http_error 401, (end_all_sessions lib settings now user_id db).1)
  end_all_sessions-refused now later user_id raw fresh db t e same =
      let (r, found, revoked) = end_all_sessions-find now user_id raw db t e same in
      find_revoked-refused later raw fresh _ r found revoked

  current_of-found :
      (later sub : ℕ) (iat : Option ℕ) (user : User) (db : Db)
      → find (λ u. u.id == sub) db.users ≡ some user
      → is_active user.status ≡ true
      → current_of lib settings later sub iat db ≡ (
          if is_stale lib settings later user.sessions_valid_from iat
          then http_error 401
          else ok user)
  unfolding current_of
  current_of-found later sub iat user db e active = rw (e, current_of) (rw active refl)

  -- The access token of a session that was issued at `past` is, after every session of its user
  -- was ended at `now`, refused exactly if `past` lies in an earlier second than `now`: a token of
  -- the same second still signs an active user in.
  pub end_all_sessions-current_of :
      (past now later : ℕ) (user : User) (raw : Text) (issued db : Db)
      → find (λ u. u.id == user.id) db.users ≡ some user
      → is_active user.status ≡ true
      → current_of lib settings later user.id
          (some (issue_session lib settings past user raw issued).0.iat)
          (end_all_sessions lib settings now user.id db).1
        ≡ (if ltb (timestamp past) (timestamp now)
            then http_error 401
            else ok (record user { sessions_valid_from = some now }))
  unfolding end_all_sessions issue_session
  end_all_sessions-current_of past now later user raw issued db e active =
      let found : find (λ u. u.id == user.id) (end_all_sessions lib settings now user.id db).1.users
          ≡ some (record user { sessions_valid_from = some now }) =
        find-update_where_any (λ u. u.id == user.id) (λ u. u.id == user.id)
          (λ u. record u { sessions_valid_from = some now }) (λ u. refl) db.users
        ∙ rw e (rw (==_refl user.id) refl) in
      current_of-found later user.id _ (record user { sessions_valid_from = some now }) _ found
        active
