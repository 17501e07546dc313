-- ===== src/Auth/Tokens.antt =====
-- Tokens: `_issue_session`, `refresh`, `logout`, `logout_all`, `end_all_sessions`, and
-- `get_current_user`. Hashing, random tokens and JSON web tokens are library code: parameters.
use edtech_back.Base.{
  ℕ, ◌+◌, ◌/◌, Bool, true, false, not, ◌&&◌, ◌||◌, Option, none, some, [], ◌∷◌, ◌++◌, Text, codes,
  text_eq, nonempty, ◌==◌, leb, ltb, find, update_where, count_where, if◌then◌else◌, Outcome, ok,
  http_error,
}
use edtech_back.Model.{
  User, RefreshToken, SecurityEvent, SecurityStatus, Db, Settings, days, is_active,
}

-- the claims of a decoded JSON web token that the program reads
pub record Claims : Type 0 where
  pub token_type : Text
  pub sub : Option ℕ
  pub iat : Option ℕ

-- the SHA-256 digest, and `jwt.decode`, which fails on a bad signature or an expired token
pub record TokenLibrary : Type 0 where
  pub hash_token : Text → Text
  pub jwt_decode : Text → Option Claims

-- the claims of a new access token: `sub` and `iat`, in seconds
pub record AccessToken : Type 0 where
  pub sub : ℕ
  pub iat : ℕ

-- `int(moment.timestamp())`
abbrev pub timestamp : ℕ → ℕ
timestamp moment = moment / 1000000

-- where a request comes from
pub record Origin : Type 0 where
  pub ip : Text
  pub device : Text

abbrev id_of : Option User → Option ℕ
id_of none = none
id_of (some user) = some user.id

abbrev school_of_user : Option User → Option ℕ
school_of_user none = none
school_of_user (some user) = user.school_id

abbrev name_of : Option User → Text
name_of none = []
name_of (some user) = user.name

-- `record_event`, without the detail and the location
unfoldable pub record_event : ℕ → Origin → SecurityEvent → SecurityStatus → Option User → Db → Db
record_event now origin event status user db = record db {
  log =
      db.log
      ++ record {
        id = db.next_id;
        user_id = id_of user;
        user_name = name_of user;
        school_id = school_of_user user;
        ip = origin.ip;
        device = origin.device;
        event = event;
        status = status;
        timestamp = now;
      }
        ∷ [];
  next_id = db.next_id + 1;
}

module _ (lib : TokenLibrary) (settings : Settings) (now : ℕ) where
  -- `_issue_session`: the access token, and a row for the refresh token `raw`
  unfoldable pub issue_session : User → Text → Db → AccessToken × Db
  issue_session user raw db = (
    record { sub = user.id; iat = timestamp now },
    record db {
      tokens =
          db.tokens
          ++ record {
            id = db.next_id;
            user_id = user.id;
            token_hash = lib.hash_token raw;
            expires_at = now + days settings.refresh_token_expire_days;
            revoked = false;
            created_at = now;
          }
            ∷ [];
      next_id = db.next_id + 1;
    },
  )

  -- the row of a token, by its hash
  abbrev pub of_token : Text → RefreshToken → Bool
  of_token raw t = text_eq t.token_hash (lib.hash_token raw)

  -- `cutoff is not None and token.created_at < cutoff`: the row is older than the user's cutoff
  abbrev pub is_cut_off : Option ℕ → ℕ → Bool
  is_cut_off none created_at = false
  is_cut_off (some cutoff) created_at = ltb created_at cutoff

  -- the presented token is revoked and a new pair issued
  unfoldable pub rotate : RefreshToken → User → Text → Db → AccessToken × Db
  rotate t user fresh db = issue_session user fresh (record db {
    tokens = update_where (λ r. r.id == t.id) (λ r. record r { revoked = true }) db.tokens;
  })

  -- `refresh` of a row that is there
  unfoldable pub refresh_row : RefreshToken → Text → Db → Outcome AccessToken × Db
  refresh_row t fresh db =
      if t.revoked || leb t.expires_at now
      then (http_error 401, db)
      else elim (find (λ u. u.id == t.user_id) db.users) [
        | none ↦ (http_error 401, db)
        | some user ↦
            let (access, rotated) = rotate t user fresh db in
            if not (is_active user.status)
            then (http_error 401, db)
            else if is_cut_off user.sessions_valid_from t.created_at
            then (http_error 401, db)
            else (ok access, rotated)
      ]

  -- `refresh`: `raw` is the cookie, empty where there is none, and `fresh` the new random token
  unfoldable pub refresh : Text → Text → Db → Outcome AccessToken × Db
  refresh raw fresh db =
      if not (nonempty raw) then (http_error 401, db) else elim (find (of_token raw) db.tokens) [
        | none ↦ (http_error 401, db)
        | some t ↦ refresh_row t fresh db
      ]

  unfoldable pub logout : Text → Db → Db
  logout raw db = if not (nonempty raw) then db else elim (find (of_token raw) db.tokens) [
    | none ↦ db
    | some t ↦ record db {
      tokens = update_where (λ r. r.id == t.id) (λ r. record r { revoked = true }) db.tokens;
    }
  ]

  abbrev pub is_live_of : ℕ → RefreshToken → Bool
  is_live_of user_id t = t.user_id == user_id && not t.revoked

  -- `end_all_sessions`: the number of live sessions, and the database
  unfoldable pub end_all_sessions : ℕ → Db → ℕ × Db
  end_all_sessions user_id db = (
    count_where (is_live_of user_id) db.tokens,
    record db {
      tokens = update_where (is_live_of user_id) (λ t. record t { revoked = true }) db.tokens;
      users =
          update_where (λ u. u.id == user_id) (λ u. record u { sessions_valid_from = some now })
            db.users;
    },
  )

  unfoldable pub logout_all : Origin → User → Db → Db
  logout_all origin user db =
      record_event now origin SecurityEvent.signed_out_all SecurityStatus.ok (some user)
        (end_all_sessions user.id db).1

  -- `issued_at < int(cutoff.timestamp())`, or no number at all
  abbrev pub is_stale : Option ℕ → Option ℕ → Bool
  is_stale none iat = false
  is_stale (some cutoff) none = true
  is_stale (some cutoff) (some issued_at) = ltb issued_at (timestamp cutoff)

  -- the account of a token, if it is there and the token is not stale
  unfoldable pub current_of : ℕ → Option ℕ → Db → Outcome User
  current_of sub iat db = elim (find (λ u. u.id == sub) db.users) [
    | none ↦ http_error 401
    | some user ↦
        if is_stale user.sessions_valid_from iat
        then http_error 401
        else if not (is_active user.status)
        then http_error 403
        else ok user
  ]

  -- `decode_access_token`
  unfoldable pub decode_access_token : Text → Option Claims
  decode_access_token token = elim (lib.jwt_decode token) [
    | none ↦ none
    | some claims ↦ if text_eq claims.token_type (codes "access") then some claims else none
  ]

  -- the account of the claims
  unfoldable pub of_claims : Claims → Db → Outcome User
  of_claims claims db = elim claims.sub [
    | none ↦ http_error 401
    | some sub ↦ current_of sub claims.iat db
  ]

  -- `get_current_user`; `token` is what `_extract_token` found, empty where it found nothing
  unfoldable pub get_current_user : Text → Db → Outcome User
  get_current_user token db =
      if not (nonempty token) then http_error 401 else elim (decode_access_token token) [
        | none ↦ http_error 401
        | some claims ↦ of_claims claims db
      ]
