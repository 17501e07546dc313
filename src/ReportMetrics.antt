-- ===== src/ReportMetrics.antt =====
-- app/services/report_metrics.py: the counts that a report is built from. Rounding a quotient, which
-- the program does in floating point, is an argument, and so are the moments at which the accounts
-- were created. The sentences that the counts are put in are left out.
use edtech_back.Base.{
  ℕ, ◌+◌, ◌*◌, ◌-◌, ◌/◌, Bool, true, false, not, ◌&&◌, ◌||◌, Option, none, some, List, [], ◌∷◌,
  Text, codes, text_eq, nonempty, ◌==◌, ltb, leb, max, length, select, map, any, count_where,
  contains, distinct, is_some, if◌then◌else◌,
}
use edtech_back.Model.{
  User, Progress, ChatMessage, SecurityLog, SecurityEvent, SecurityStatus, Db, days, is_teacher,
  is_active, is_completed, is_not_started,
}
use edtech_back.Lessons.{same_school}
use edtech_back.SecurityRoutes.{event_number}
pub mod Weeks
pub mod Anomalies
pub mod Quiet

-- `QUIET_AFTER_DAYS`
abbrev pub quiet_after_days : ℕ
quiet_after_days = 14

-- `WEEK`
abbrev pub week : ℕ
week = days 7

-- `ProgressStats`
pub record ProgressStats : Type 0 where
  pub assigned : ℕ
  pub started : ℕ
  pub completed : ℕ
  pub not_started : ℕ
  pub completion_rate : ℕ
  pub avg_of_started : Option ℕ
  pub sectioned : Bool

abbrev pub sum : List ℕ → ℕ
sum [] = 0
sum (n ∷ ns) = n + sum ns

-- `progress_stats`; `round_div m n` stands for `round(m / n)`
unfoldable pub progress_stats : (ℕ → ℕ → ℕ) → List Progress → ProgressStats
progress_stats round_div rows =
    let begun = select (λ p. not (is_not_started p.status)) rows in
    record {
      assigned = length rows;
      started = length begun;
      completed = count_where (λ p. is_completed p.status) rows;
      not_started = count_where (λ p. is_not_started p.status) rows;
      completion_rate =
          if nonempty rows
          then round_div (100 * count_where (λ p. is_completed p.status) rows) (length rows)
          else 0;
      avg_of_started =
          if nonempty begun
          then some (round_div (sum (map (λ p. p.percent_complete) begun)) (length begun))
          else none;
      sectioned = any (λ p. nonempty p.section) rows;
    }

-- `moment >= now - span`, where there is a moment
abbrev pub is_since : ℕ → ℕ → Option ℕ → Bool
is_since now span none = false
is_since now span (some moment) = leb now (moment + span)

-- from `now - span` on, and before `now - until`
abbrev pub is_between : ℕ → ℕ → ℕ → Option ℕ → Bool
is_between now span until none = false
is_between now span until (some moment) = leb now (moment + span) && ltb (moment + until) now

-- `Delta`, without its label
pub record Delta : Type 0 where
  pub this_week : ℕ
  pub prior_week : ℕ

-- `Movement`
pub record Movement : Type 0 where
  pub completed : Delta
  pub questions : Delta
  pub teachers_active : ℕ
  pub lessons_touched : ℕ
  pub new_alerts : ℕ
  pub sectioned : Bool

abbrev pub is_question : List ℕ → ChatMessage → Bool
is_question teacher_ids m = contains m.teacher_id teacher_ids && text_eq m.role (codes "user")

abbrev pub is_ok_row : SecurityStatus → Bool
is_ok_row SecurityStatus.ok = true
is_ok_row _ = false

-- an alert of the school, or of any
abbrev pub is_alert : ℕ → ℕ → Option ℕ → SecurityLog → Bool
is_alert now span school_id e =
    not (is_ok_row e.status)
    && leb now (e.timestamp + span)
    && (not (is_some school_id) || same_school e.school_id school_id)

-- a row of one of the teachers that was opened this week
abbrev pub is_opened : ℕ → List ℕ → Progress → Bool
is_opened now teacher_ids p =
    contains p.teacher_id teacher_ids && is_since now week p.last_opened_at

unfoldable pub movement_of : ℕ → Db → List ℕ → Option ℕ → Movement
movement_of now db teacher_ids school_id =
    let active = select (is_opened now teacher_ids) db.progress in
    record {
      completed = record {
        this_week =
            count_where (λ p. contains p.teacher_id teacher_ids && is_since now week p.completed_at)
              db.progress;
        prior_week =
            count_where
              (λ p.
                contains p.teacher_id teacher_ids && is_between now (2 * week) week p.completed_at)
              db.progress;
      };
      questions = record {
        this_week =
            count_where (λ m. is_question teacher_ids m && is_since now week (some m.created_at))
              db.chats;
        prior_week =
            count_where
              (λ m. is_question teacher_ids m && is_between now (2 * week) week (some m.created_at))
              db.chats;
      };
      teachers_active = length (distinct (map (λ p. p.teacher_id) active));
      lessons_touched = length active;
      new_alerts = count_where (is_alert now week school_id) db.log;
      sectioned = any (λ p. contains p.teacher_id teacher_ids && nonempty p.section) db.progress;
    }

abbrev pub no_movement : Movement
no_movement = record {
  completed = record { this_week = 0; prior_week = 0 };
  questions = record { this_week = 0; prior_week = 0 };
  teachers_active = 0;
  lessons_touched = 0;
  new_alerts = 0;
  sectioned = false;
}

-- `movement`
unfoldable pub movement : ℕ → Db → List ℕ → Option ℕ → Movement
movement now db teacher_ids school_id =
    if not (nonempty teacher_ids) then no_movement else movement_of now db teacher_ids school_id

-- `QuietTeacher`
pub record QuietTeacher : Type 0 where
  pub name : Text
  pub email : Text
  pub days_quiet : Option ℕ
  pub completed : ℕ

-- `func.max`, of moments of which some are missing
unfoldable pub latest : List (Option ℕ) → Option ℕ
latest [] = none
latest (none ∷ ms) = latest ms
latest (some m ∷ ms) = elim (latest ms) [ none ↦ some m | some n ↦ some (max m n) ]

abbrev pub last_seen : Db → ℕ → Option ℕ
last_seen db id =
    latest (map (λ p. p.last_opened_at) (select (λ p. p.teacher_id == id) db.progress))

-- an active teacher who joined before the window
abbrev pub is_candidate : ℕ → (User → Option ℕ) → User → Bool
is_candidate now created_at t =
    is_teacher t.role
    && is_active t.status
    && (elim (created_at t) [ none ↦ false | some m ↦ ltb (m + days quiet_after_days) now ])

-- a candidate, unless she opened a lesson within the window
unfoldable pub quiet_rows : ℕ → Db → List User → List QuietTeacher
quiet_rows now db [] = []
quiet_rows now db (t ∷ ts) =
    let last = last_seen db t.id in
    let rest = quiet_rows now db ts in
    if is_since now (days quiet_after_days) last
    then rest
    else record {
      name = t.name;
      email = t.email;
      days_quiet = elim last [ none ↦ none | some m ↦ some ((now - m) / days 1) ];
      completed = count_where (λ p. p.teacher_id == t.id && is_completed p.status) db.progress;
    }
      ∷ rest

-- who stands before whom: those who opened none, then those who opened none for longer
abbrev pub is_quieter : Option ℕ → Option ℕ → Bool
is_quieter none none = false
is_quieter none (some n) = true
is_quieter (some m) none = false
is_quieter (some m) (some n) = ltb n m

unfoldable pub insert_quiet : QuietTeacher → List QuietTeacher → List QuietTeacher
insert_quiet q [] = q ∷ []
insert_quiet q (r ∷ rs) =
    if is_quieter r.days_quiet q.days_quiet then r ∷ insert_quiet q rs else q ∷ r ∷ rs

unfoldable pub sorted_quiet : List QuietTeacher → List QuietTeacher
sorted_quiet [] = []
sorted_quiet (q ∷ qs) = insert_quiet q (sorted_quiet qs)

-- `quiet_teachers`
unfoldable pub quiet_teachers : ℕ → (User → Option ℕ) → Db → List User → List QuietTeacher
quiet_teachers now created_at db teachers =
    sorted_quiet (quiet_rows now db (select (is_candidate now created_at) teachers))
