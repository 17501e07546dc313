-- ===== src/AiUsage/Limits.antt =====
-- `enforce_ai_limit` and `quota_for` of app/services/ai_usage.py, the limit that is enforced and
-- the one that is shown.
use edtech_back.Base.{
  ℕ, suc, ◌+◌, ◌≤◌, ◌<◌, ◌≡◌, ◌∙◌, refl, Bool, true, false, ◌&&◌, Option, none, some, List, [], ◌∷◌,
  ◌++◌, map, Text, ◌==◌, leb, ltb, length, select, count_where, count-append_one, delete_where, All,
  ap, if◌then◌else◌, arith,
}
use edtech_back.Model.{User, AiUsage, Db, Settings, hours, days}
use edtech_back.AiUsage.{
  counts_for, hourly_limit, daily_limit, within, is_within, enforce_ai_limit, record_ai_usage,
  refund_ai_usage, insert_sorted, sorted, frees_at, day_stamps, hour_stamps, quota_for,
}

count-insert_sorted :
    (p : ℕ → Bool) (x : ℕ) (xs : List ℕ)
    → count_where p (insert_sorted x xs) ≡ (if p x then 1 else 0) + count_where p xs
unfolding count_where insert_sorted
count-insert_sorted p x [] = refl
count-insert_sorted p x (y ∷ ys) = ground (arith, count-insert_sorted p x ys)

count-sorted : (p : ℕ → Bool) (xs : List ℕ) → count_where p (sorted xs) ≡ count_where p xs
unfolding count_where sorted
count-sorted p [] = refl
count-sorted p (x ∷ xs) = omega (arith, count-insert_sorted p x (sorted xs), count-sorted p xs)

length-select : {A : Type 0} (p : A → Bool) (xs : List A) → length (select p xs) ≡ count_where p xs
unfolding count_where select
length-select p [] = refl
length-select p (x ∷ xs) = ground (arith, length-select p xs)

length-insert_sorted : (x : ℕ) (xs : List ℕ) → length (insert_sorted x xs) ≡ suc (length xs)
unfolding insert_sorted
length-insert_sorted x [] = refl
length-insert_sorted x (y ∷ ys) = ground (arith, length-insert_sorted x ys)

length-sorted : (xs : List ℕ) → length (sorted xs) ≡ length xs
unfolding sorted
length-sorted [] = refl
length-sorted (x ∷ xs) = omega (arith, length-insert_sorted x (sorted xs), length-sorted xs)

length-map : {A B : Type 0} (f : A → B) (xs : List A) → length (map f xs) ≡ length xs
length-map f [] = refl
length-map f (x ∷ xs) = omega (arith, length-map f xs)

-- of the rows of the day, those that are in the hour at this moment or later
count-hour :
    (user_id : ℕ) (kind : Text) (now later : ℕ) (rows : List AiUsage)
    → now ≤ later
    → count_where
        (λ s. leb later (s + hours 1))
        (map (λ row. row.created_at) (select (counts_for user_id kind (days 1) now) rows))
      ≡ count_where (counts_for user_id kind (hours 1) later) rows
unfolding count_where select
count-hour user_id kind now later [] after = refl
count-hour user_id kind now later (row ∷ rows) after =
    ground (arith, count-hour user_id kind now later rows after)

hour_stamps-length :
    (now : ℕ) (user : User) (kind : Text) (db : Db)
    → length (hour_stamps now user kind db)
      ≡ count_where (counts_for user.id kind (hours 1) now) db.usage
unfolding hour_stamps day_stamps
hour_stamps-length now user kind db =
    length-select (λ s. leb now (s + hours 1)) _
    ∙ count-sorted (λ s. leb now (s + hours 1)) _
    ∙ count-hour user.id kind now now db.usage (omega arith)

day_stamps-length :
    (now : ℕ) (user : User) (kind : Text) (db : Db)
    → length (day_stamps now user kind db)
      ≡ count_where (counts_for user.id kind (days 1) now) db.usage
unfolding day_stamps
day_stamps-length now user kind db =
    length-sorted _
    ∙ length-map (λ row. row.created_at) (select (counts_for user.id kind (days 1) now) db.usage)
    ∙ length-select (counts_for user.id kind (days 1) now) db.usage

-- `is_left none` where there is no limit
abbrev pub is_left : Option ℕ → Bool
is_left none = true
is_left (some left) = ltb 0 left

-- A question is let through at a moment exactly if the quota that is shown at that moment has
-- something left in both windows.
pub enforce_ai_limit-quota_for :
    (settings : Settings) (now : ℕ) (user : User) (kind : Text) (db : Db)
    → (is_left (quota_for settings now user kind db).hourly_remaining
        && is_left (quota_for settings now user kind db).daily_remaining)
      ≡ is_within (enforce_ai_limit settings now user kind db)
unfolding enforce_ai_limit quota_for
enforce_ai_limit-quota_for settings now user kind db =
    rw (hour_stamps-length now user kind db, day_stamps-length now user kind db) (ground arith)

-- more than a limit that there is
abbrev pub is_over_limit : ℕ → ℕ → Bool
is_over_limit limit used = ltb 0 limit && ltb limit used

-- A question that is let through and charged leaves the account within both limits at that moment.
pub record_ai_usage-within :
    (settings : Settings) (now : ℕ) (user : User) (kind : Text) (db : Db)
    → enforce_ai_limit settings now user kind db ≡ within
    → (is_over_limit (hourly_limit settings kind) (
          count_where
            (counts_for user.id kind (hours 1) now)
            (record_ai_usage now user kind db).1.usage)
        ≡ false)
      × (is_over_limit (daily_limit settings kind) (
            count_where
              (counts_for user.id kind (days 1) now)
              (record_ai_usage now user kind db).1.usage)
          ≡ false)
unfolding enforce_ai_limit record_ai_usage
record_ai_usage-within settings now user kind db h = (
  rw (count-append_one (counts_for user.id kind (hours 1) now) db.usage _) (ground arith),
  rw (count-append_one (counts_for user.id kind (days 1) now) db.usage _) (ground arith),
)

delete-append_one :
    (id : ℕ) (row : AiUsage) (rows : List AiUsage)
    → row.id ≡ id
    → All (λ r. (r.id == id) ≡ false) rows
    → delete_where (λ r. r.id == id) (rows ++ row ∷ []) ≡ rows
unfolding delete_where
delete-append_one id row [] same fresh = ground arith
delete-append_one id row (r ∷ rows) same fresh =
    rw (fresh.0) (ap (λ rs. r ∷ rs) (delete-append_one id row rows same fresh.1))

-- A question that is charged and then refunded leaves the usage as it was, where the new id is
-- fresh.
pub refund_ai_usage-record_ai_usage :
    (now : ℕ) (user : User) (kind : Text) (db : Db)
    → All (λ r. (r.id == db.next_id) ≡ false) db.usage
    → (refund_ai_usage
        (record_ai_usage now user kind db).0
        (record_ai_usage now user kind db).1).usage
      ≡ db.usage
unfolding record_ai_usage refund_ai_usage
refund_ai_usage-record_ai_usage now user kind db fresh =
    delete-append_one db.next_id _ db.usage refl fresh

count_le-head :
    (t : ℕ) (p : ℕ → Bool) (x : ℕ) (xs : List ℕ) → p x ≡ false → count_where p (x ∷ xs) ≤ length xs
unfolding count_where
count_le-head t p x [] h = ground arith
count_le-head t p x (y ∷ ys) h = ground (arith, count_le-head t p x ys h)

count_le-select :
    (p q : ℕ → Bool) (xs : List ℕ)
    → ((x : ℕ) → p x ≡ true → q x ≡ true)
    → count_where p xs ≡ count_where p (select q xs)
unfolding count_where select
count_le-select p q [] imp = refl
count_le-select p q (x ∷ xs) imp = ground (arith, imp x, count_le-select p q xs imp)

frees_at-at :
    (window : List ℕ) (limit span at later : ℕ)
    → frees_at window limit span ≡ some at
    → length window ≡ limit
    → at < later
    → count_where (λ s. leb later (s + span)) window < limit
unfolding frees_at
frees_at-at [] limit span at later h full after = absurd (ground arith)
frees_at-at (oldest ∷ window) limit span at later h full after =
    let gone : leb later (oldest + span) ≡ false = ground arith in
    let fewer = count_le-head later (λ s. leb later (s + span)) oldest window gone in omega arith

-- When the hour of an account is full, and no more than full, the moment that it is shown is one
-- after which the hour has room again, as long as nothing else is charged.
pub quota_for-hourly_resets_at :
    (settings : Settings) (now at later : ℕ) (user : User) (kind : Text) (db : Db)
    → (quota_for settings now user kind db).hourly_resets_at ≡ some at
    → (quota_for settings now user kind db).hourly_used ≡ hourly_limit settings kind
    → now ≤ later
    → at < later
    → count_where (counts_for user.id kind (hours 1) later) db.usage < hourly_limit settings kind
unfolding quota_for
quota_for-hourly_resets_at settings now at later user kind db shown full after past =
    rw⁻¹ (count-hour user.id kind now later db.usage after) (
      rw⁻¹
        (count-sorted (λ s. leb later (s + hours 1))
          (map (λ row. row.created_at) (select (counts_for user.id kind (days 1) now) db.usage)))
        (rw
          (count_le-select (λ s. leb later (s + hours 1)) (λ s. leb now (s + hours 1))
            (sorted (
              map (λ row. row.created_at) (select (counts_for user.id kind (days 1) now) db.usage)))
            (λ s h. ground arith))
          (unfold hour_stamps day_stamps in
            frees_at-at (hour_stamps now user kind db) (hourly_limit settings kind) (hours 1) at
              later shown full past)))
