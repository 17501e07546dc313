-- ===== src/AiUsage.antt =====
-- app/services/ai_usage.py: the hourly and the daily limit on questions to the assistant, what is
-- charged and refunded, and what a user is told she has left. `teacher_usage_report` is left out.
use edtech_back.Base.{
  ℕ, ◌+◌, ◌-◌, Bool, true, false, ◌&&◌, Option, none, some, List, [], ◌∷◌, ◌++◌, map, Text, codes,
  text_eq, ◌==◌, leb, ltb, length, select, delete_where, count_where, if◌then◌else◌, Outcome, ok,
  http_error,
}
use edtech_back.Model.{User, AiUsage, Db, Settings, hours, days}
pub mod Limits

abbrev pub has_user : Option ℕ → ℕ → Bool
has_user none id = false
has_user (some owner) id = owner == id

-- `AiUsage.user_id == user.id, AiUsage.kind == kind, AiUsage.created_at >= now - span`
abbrev pub counts_for : ℕ → Text → ℕ → ℕ → AiUsage → Bool
counts_for user_id kind span now row =
    has_user row.user_id user_id && text_eq row.kind kind && leb now (row.created_at + span)

unfoldable pub hourly_limit : Settings → Text → ℕ
hourly_limit settings kind =
    if text_eq kind (codes "teacher")
    then settings.ai_teacher_hourly_limit
    else settings.ai_admin_hourly_limit

unfoldable pub daily_limit : Settings → Text → ℕ
daily_limit settings kind =
    if text_eq kind (codes "teacher")
    then settings.ai_teacher_daily_limit
    else settings.ai_admin_daily_limit

-- `limit > 0 and used >= limit`
abbrev pub is_exhausted : ℕ → ℕ → Bool
is_exhausted limit used = ltb 0 limit && leb limit used

-- which limit `AILimitExceeded` names, if it is raised
pub data LimitCheck : Type 0 where
  within : LimitCheck
  hourly_exceeded : LimitCheck
  daily_exceeded : LimitCheck

abbrev pub is_within : LimitCheck → Bool
is_within within = true
is_within _ = false

unfoldable pub enforce_ai_limit : Settings → ℕ → User → Text → Db → LimitCheck
enforce_ai_limit settings now user kind db =
    let last_hour = count_where (counts_for user.id kind (hours 1) now) db.usage in
    let last_day = count_where (counts_for user.id kind (days 1) now) db.usage in
    if is_exhausted (hourly_limit settings kind) last_hour
    then hourly_exceeded
    else if is_exhausted (daily_limit settings kind) last_day
    then daily_exceeded
    else within

-- `record_ai_usage`: the id of the row, and the database
unfoldable pub record_ai_usage : ℕ → User → Text → Db → ℕ × Db
record_ai_usage now user kind db = (
  db.next_id,
  record db {
    usage =
        db.usage
        ++ record {
          id = db.next_id;
          user_id = some user.id;
          school_id = user.school_id;
          kind = kind;
          created_at = now;
        }
          ∷ [];
    next_id = db.next_id + 1;
  },
)

-- `refund_ai_usage`: ids are unique, so at most one row goes
unfoldable pub refund_ai_usage : ℕ → Db → Db
refund_ai_usage usage_id db = record db {
  usage = delete_where (λ row. row.id == usage_id) db.usage;
}

-- the stamps of the rows that count, as `sorted` leaves them
unfoldable pub insert_sorted : ℕ → List ℕ → List ℕ
insert_sorted x [] = x ∷ []
insert_sorted x (y ∷ ys) = let rest = insert_sorted x ys in if leb x y then x ∷ y ∷ ys else y ∷ rest

unfoldable pub sorted : List ℕ → List ℕ
sorted [] = []
sorted (x ∷ xs) = insert_sorted x (sorted xs)

unfoldable pub frees_at : List ℕ → ℕ → ℕ → Option ℕ
frees_at [] limit span = none
frees_at (oldest ∷ window) limit span =
    if is_exhausted limit (length (oldest ∷ window)) then some (oldest + span) else none

-- `max(0, limit - used) if limit > 0 else None`
abbrev pub remaining : ℕ → ℕ → Option ℕ
remaining limit used = if ltb 0 limit then some (limit - used) else none

pub record Quota : Type 0 where
  pub hourly_used : ℕ
  pub hourly_remaining : Option ℕ
  pub hourly_resets_at : Option ℕ
  pub daily_used : ℕ
  pub daily_remaining : Option ℕ
  pub daily_resets_at : Option ℕ

-- the two windows of `quota_for`
unfoldable pub day_stamps : ℕ → User → Text → Db → List ℕ
day_stamps now user kind db =
    sorted (map (λ row. row.created_at) (select (counts_for user.id kind (days 1) now) db.usage))

unfoldable pub hour_stamps : ℕ → User → Text → Db → List ℕ
hour_stamps now user kind db = select (λ s. leb now (s + hours 1)) (day_stamps now user kind db)

unfoldable pub quota_for : Settings → ℕ → User → Text → Db → Quota
quota_for settings now user kind db =
    let in_hour = hour_stamps now user kind db in
    let stamps = day_stamps now user kind db in
    record {
      hourly_used = length in_hour;
      hourly_remaining = remaining (hourly_limit settings kind) (length in_hour);
      hourly_resets_at = frees_at in_hour (hourly_limit settings kind) (hours 1);
      daily_used = length stamps;
      daily_remaining = remaining (daily_limit settings kind) (length stamps);
      daily_resets_at = frees_at stamps (daily_limit settings kind) (days 1);
    }
