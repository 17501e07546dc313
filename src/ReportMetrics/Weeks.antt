-- ===== src/ReportMetrics/Weeks.antt =====
-- `movement` of app/services/report_metrics.py, and the windows it counts in.
use edtech_back.Base.{
  ℕ, ◌≡◌, ◌≤◌, ◌+◌, ◌*◌, refl, Bool, true, false, not, ◌&&◌, Option, some, List, [], ◌∷◌, nonempty,
  ◌==◌, length, select, count_where, distinct, contains, map, arith,
}
use edtech_back.Model.{Progress, LessonStatus, Db, is_completed, is_not_started}
use edtech_back.ReportMetrics.{
  week, progress_stats, is_since, is_between, is_question, is_opened, movement_of, movement,
}

length-not :
    {A : Type 0} (p : A → Bool) (xs : List A)
    → length (select (λ x. not (p x)) xs) + count_where p xs ≡ length xs
unfolding select count_where
length-not p [] = refl
length-not p (x ∷ xs) = ground (arith, length-not p xs)

count-le-length-not :
    {A : Type 0} (p q : A → Bool)
    → ((x : A) → p x ≡ true → q x ≡ false)
    → (xs : List A) → count_where p xs ≤ length (select (λ x. not (q x)) xs)
unfolding select count_where
count-le-length-not p q h [] = omega arith
count-le-length-not p q h (x ∷ xs) = ground (arith, h x, count-le-length-not p q h xs)

completed-started : (s : LessonStatus) → is_completed s ≡ true → is_not_started s ≡ false
completed-started LessonStatus.completed h = refl
completed-started LessonStatus.not_started h = cc
completed-started LessonStatus.in_progress h = refl

-- Every row that is counted is either started or not, and those that are completed are started.
pub progress_stats-partition :
    (round_div : ℕ → ℕ → ℕ) (rows : List Progress)
    → ((progress_stats round_div rows).started + (progress_stats round_div rows).not_started
        ≡ (progress_stats round_div rows).assigned)
      × ((progress_stats round_div rows).completed ≤ (progress_stats round_div rows).started)
unfolding progress_stats
progress_stats-partition round_div rows = (
  length-not (λ p. is_not_started p.status) rows,
  count-le-length-not (λ p. is_completed p.status) (λ p. is_not_started p.status)
      (λ p. completed-started p.status) rows,
)

count-split :
    {A : Type 0} (now : ℕ) (q : A → Bool) (moment : A → Option ℕ) (xs : List A)
    → count_where (λ x. q x && is_since now week (moment x)) xs
        + count_where (λ x. q x && is_between now (2 * week) week (moment x)) xs
      ≡ count_where (λ x. q x && is_since now (2 * week) (moment x)) xs
unfolding count_where
count-split now q moment [] = refl
count-split now q moment (x ∷ xs) = ground (arith, count-split now q moment xs)

length-select-le : (p : ℕ → Bool) (ids : List ℕ) → length (select p ids) ≤ length ids
unfolding select
length-select-le p [] = omega arith
length-select-le p (x ∷ xs) = ground (arith, length-select-le p xs)

length-distinct-le : (ids : List ℕ) → length (distinct ids) ≤ length ids
unfolding distinct
length-distinct-le [] = omega arith
length-distinct-le (x ∷ xs) =
    ground (arith, length-select-le (λ y. not (y == x)) (distinct xs), length-distinct-le xs)

length-map-ids : (ps : List Progress) → length (map (λ p. p.teacher_id) ps) ≡ length ps
length-map-ids [] = refl
length-map-ids (p ∷ ps) = omega (arith, length-map-ids ps)

-- What a report says of this week and of the week before adds up to what happened in the two weeks,
-- for lessons that were completed and for questions that were asked: nothing is counted in both or in
-- neither. At most as many teachers are active as lessons are touched.
pub movement-weeks :
    (now : ℕ) (db : Db) (teacher_ids : List ℕ) (school_id : Option ℕ)
    → nonempty teacher_ids ≡ true
    → ((movement now db teacher_ids school_id).completed.this_week
          + (movement now db teacher_ids school_id).completed.prior_week
        ≡ count_where
            (λ p. contains p.teacher_id teacher_ids && is_since now (2 * week) p.completed_at)
            db.progress)
      × ((movement now db teacher_ids school_id).questions.this_week
            + (movement now db teacher_ids school_id).questions.prior_week
          ≡ count_where
              (λ m. is_question teacher_ids m && is_since now (2 * week) (some m.created_at))
              db.chats)
      × ((movement now db teacher_ids school_id).teachers_active
          ≤ (movement now db teacher_ids school_id).lessons_touched)
unfolding movement movement_of
movement-weeks now db teacher_ids school_id some_teacher = rw some_teacher (
  count-split now (λ p. contains p.teacher_id teacher_ids) (λ p. p.completed_at) db.progress,
  count-split now (is_question teacher_ids) (λ m. some m.created_at) db.chats,
  ground (
    arith,
    length-distinct-le (map (λ p. p.teacher_id) (select (is_opened now teacher_ids) db.progress)),
    length-map-ids (select (is_opened now teacher_ids) db.progress),
  ),
)
