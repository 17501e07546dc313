-- ===== src/Auth/Throttle.antt =====
-- The throttle of a network: `_get_ip_throttle`, `_enforce_ip_throttle`, `_record_ip_failure` and
-- `_clear_ip_failures`.
use edtech_back.Base.{
  ℕ, ◌+◌, Bool, false, not, ◌&&◌, Option, none, some, [], ◌∷◌, ◌++◌, Text, codes, text_eq, nonempty,
  leb, ltb, find, update_where, if◌then◌else◌, is_some, Outcome, ok, http_error,
}
use edtech_back.Model.{LoginThrottle, Db, Settings, minutes, hours}
use edtech_back.Auth.Lockout.{is_over, is_locked}

abbrev pub of_ip : Text → LoginThrottle → Bool
of_ip ip t = text_eq t.ip ip

-- `LoginThrottle(ip=ip)`
abbrev pub new_throttle : Text → LoginThrottle
new_throttle ip = record {
  ip = ip;
  failed_count = 0;
  cycle_count = 0;
  window_started_at = none;
  locked_until = none;
  blocked_at = none;
  reason = [];
  cycle_started_at = none;
  last_success_at = none;
}

-- what the throttle of a network says to an attempt
pub data Verdict : Type 0 where
  refused : Verdict
  passed : LoginThrottle → Verdict

-- the fields that the end of a ban clears
unfoldable pub lift_ban : LoginThrottle → LoginThrottle
lift_ban t = record t {
  blocked_at = none;
  cycle_count = 0;
  cycle_started_at = none;
  failed_count = 0;
  window_started_at = none;
  locked_until = none;
  reason = [];
}

-- the second half of `_enforce_ip_throttle`: a lock that stands, or that has expired
unfoldable pub enforce_lock : ℕ → LoginThrottle → Verdict
enforce_lock now t =
    if is_locked now t.locked_until
    then refused
    else if is_some t.locked_until
    then passed (record t { locked_until = none; failed_count = 0; window_started_at = none })
    else passed t

unfoldable pub enforce_row : Settings → ℕ → LoginThrottle → Verdict
enforce_row settings now t = elim t.blocked_at [
  | none ↦ enforce_lock now t
  | some at ↦
      if leb (at + hours settings.login_ip_block_hours) now
      then enforce_lock now (lift_ban t)
      else refused
]

abbrev pub put_throttle : LoginThrottle → Db → Db
put_throttle t db = record db { throttles = update_where (of_ip t.ip) (λ _. t) db.throttles }

-- `_enforce_ip_throttle`
unfoldable pub enforce_ip_throttle : Settings → ℕ → Text → Db → Outcome Db
enforce_ip_throttle settings now ip db =
    if not (nonempty ip) then ok db else elim (find (of_ip ip) db.throttles) [
      | none ↦ ok db
      | some t ↦ elim (enforce_row settings now t) [
        | refused ↦ http_error 429
        | passed t' ↦ ok (put_throttle t' db)
      ]
    ]

-- the window of failures that this one belongs to
unfoldable pub open_window : Settings → ℕ → LoginThrottle → LoginThrottle
open_window settings now t =
    if is_over (minutes settings.login_ip_window_minutes) now t.window_started_at
    then record t { window_started_at = some now; failed_count = 0 }
    else t

-- the run of cycles that this one belongs to
unfoldable pub open_cycles : Settings → ℕ → LoginThrottle → LoginThrottle
open_cycles settings now t =
    if is_over (minutes settings.login_ip_cycle_window_minutes) now t.cycle_started_at
    then record t { cycle_count = 0; cycle_started_at = some now }
    else t

-- `last_success is not None and last_success >= cycle_started`
abbrev pub signed_someone_in : Option ℕ → Option ℕ → Bool
signed_someone_in (some success) (some cycle_started) = leb cycle_started success
signed_someone_in _ _ = false

-- a whole window spent failing: a ban, or a lock
unfoldable pub end_cycle : Settings → ℕ → LoginThrottle → LoginThrottle
end_cycle settings now t =
    let counted = record t {
      cycle_count = t.cycle_count + 1;
      failed_count = 0;
      window_started_at = none;
    } in
    if leb settings.login_ip_ban_cycles (t.cycle_count + 1)
      && not (signed_someone_in t.last_success_at t.cycle_started_at)
    then record counted {
      blocked_at = some now;
      locked_until = none;
      reason = codes "Repeated failed login cycles";
    }
    else record counted { locked_until = some (now + minutes settings.lockout_minutes) }

-- a failure from the network, whose row it is
unfoldable pub fail_row : Settings → ℕ → LoginThrottle → LoginThrottle
fail_row settings now t =
    let opened = open_window settings now t in
    let counted = record opened { failed_count = opened.failed_count + 1 } in
    if is_some t.blocked_at
    then t
    else if ltb counted.failed_count settings.login_ip_max_failures
    then counted
    else end_cycle settings now (open_cycles settings now counted)

-- `_get_ip_throttle`: the row of the network, created if it is missing
unfoldable pub with_throttle : Text → Db → Db
with_throttle ip db =
    if is_some (find (of_ip ip) db.throttles)
    then db
    else record db { throttles = db.throttles ++ new_throttle ip ∷ [] }

-- `_record_ip_failure`
unfoldable pub record_ip_failure : Settings → ℕ → Text → Db → Db
record_ip_failure settings now ip db =
    let there = with_throttle ip db in
    if not (nonempty ip) then db else record there {
      throttles = update_where (of_ip ip) (fail_row settings now) there.throttles;
    }

-- the fields that a sign-in forgives
unfoldable pub forgive_row : ℕ → LoginThrottle → LoginThrottle
forgive_row now t = if is_some t.blocked_at then t else record t {
  failed_count = 0;
  window_started_at = none;
  locked_until = none;
  reason = [];
  last_success_at = some now;
}

-- `_clear_ip_failures`
unfoldable pub clear_ip_failures : ℕ → Text → Db → Db
clear_ip_failures now ip db =
    if not (nonempty ip)
    then db
    else record db { throttles = update_where (of_ip ip) (forgive_row now) db.throttles }
