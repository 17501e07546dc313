-- ===== src/SigninWatch.antt =====
-- app/services/signin_watch.py, and `note_unfamiliar_signin` of app/audit.py: the rows that the
-- security log gets for a sign-in from an address, a browser or a network that is not expected.
-- Reading an address (`network_of`) and a browser (`family`) is an argument.
use edtech_back.Base.{
  ℕ, ◌+◌, Bool, true, false, not, ◌&&◌, ◌||◌, Option, none, some, List, [], ◌∷◌, ◌++◌, Text, codes,
  text_eq, contains_text, nonempty, ◌==◌, ltb, leb, select, map, any, if◌then◌else◌, length,
}
use edtech_back.Model.{User, SecurityLog, SecurityEvent, SecurityStatus, Db, Settings, minutes}
use edtech_back.Auth.Tokens.{Origin}
pub mod Once

pub record WatchLibrary : Type 0 where
  pub network_of : Text → Text
  pub family : Text → Text

abbrev pub is_of : ℕ → Option ℕ → Bool
is_of id none = false
is_of id (some user_id) = user_id == id

abbrev pub is_normal_login : SecurityEvent → Bool
is_normal_login SecurityEvent.normal_login = true
is_normal_login _ = false

abbrev pub is_suspicious : SecurityEvent → Bool
is_suspicious SecurityEvent.suspicious_location = true
is_suspicious _ = false

-- a successful sign-in of the user
unfoldable pub is_signin_of : ℕ → SecurityLog → Bool
is_signin_of id e = is_of id e.user_id && is_normal_login e.event

-- `_seen_before` of an address
unfoldable pub seen_before : List SecurityLog → User → Text → Bool
seen_before log user ip =
    not (nonempty ip) || any (λ e. is_signin_of user.id e && text_eq e.ip ip) log

-- the row of a warning
unfoldable pub warning : ℕ → ℕ → Origin → User → SecurityEvent → SecurityLog
warning id now origin user event = record {
  id = id;
  user_id = some user.id;
  user_name = user.name;
  school_id = user.school_id;
  ip = origin.ip;
  device = origin.device;
  event = event;
  status = SecurityStatus.warning;
  timestamp = now;
}

module _ (lib : WatchLibrary) (settings : Settings) (now : ℕ) where
  -- whether the browser is unknown of the user
  unfoldable pub is_foreign_device : List SecurityLog → User → Text → Bool
  is_foreign_device log user device =
      let family = lib.family device in
      not (text_eq family (codes "Unknown on Unknown"))
      && not (
          contains_text family (map (λ e. lib.family e.device) (select (is_signin_of user.id) log)))

  -- `note_unfamiliar_signin`
  unfoldable pub note_unfamiliar_signin : User → Origin → Db → List SecurityLog
  note_unfamiliar_signin user origin db =
      let address =
        if seen_before db.log user origin.ip
        then []
        else warning db.next_id now origin user SecurityEvent.new_ip ∷ [] in
      let device =
        if is_foreign_device db.log user origin.device
        then warning (db.next_id + length address) now origin user SecurityEvent.foreign_device ∷ []
        else [] in
      address ++ device

  -- the later of two rows, the first of them if they are of one moment
  unfoldable pub later : SecurityLog → Option SecurityLog → Option SecurityLog
  later e none = some e
  later e (some f) = if ltb e.timestamp f.timestamp then some f else some e

  -- the last sign-in of the user
  unfoldable pub last_signin : List SecurityLog → ℕ → Option SecurityLog
  last_signin [] id = none
  last_signin (e ∷ log) id =
      let rest = last_signin log id in if is_signin_of id e then later e rest else rest

  -- the window, as a number of microseconds
  abbrev pub window : ℕ
  window = minutes settings.signin_window_minutes

  -- `_already_warned`, since `now - window`
  unfoldable pub already_warned : List SecurityLog → ℕ → Bool
  already_warned log id =
      any (λ e. is_of id e.user_id && is_suspicious e.event && leb now (e.timestamp + window)) log

  -- the previous sign-in came from another network, within the window
  unfoldable pub is_elsewhere : Origin → SecurityLog → Bool
  is_elsewhere origin previous =
      nonempty previous.ip
      && leb now (previous.timestamp + window)
      && not (text_eq (lib.network_of previous.ip) (lib.network_of origin.ip))

  -- `check_sign_in`
  unfoldable pub check_sign_in : User → Origin → Db → List SecurityLog
  check_sign_in user origin db =
      if not (nonempty origin.ip) || settings.signin_window_minutes == 0
      then []
      else elim (last_signin db.log user.id) [
        | none ↦ []
        | some previous ↦
            if not (is_elsewhere origin previous)
            then []
            else if already_warned db.log user.id
            then []
            else warning db.next_id now origin user SecurityEvent.suspicious_location ∷ []
      ]

  -- the rows that a sign-in adds before its own
  unfoldable pub watch_rows : User → Origin → Db → List SecurityLog
  watch_rows user origin db =
      let noted = note_unfamiliar_signin user origin db in
      noted
      ++ check_sign_in user origin
          (record db { log = db.log ++ noted; next_id = db.next_id + length noted })
