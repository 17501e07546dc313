-- ===== src/ReportMetrics/Quiet.antt =====
-- `quiet_teachers` of app/services/report_metrics.py.
use edtech_back.Base.{
  ℕ, suc, ◌≡◌, refl, ap, ◌∙◌, Bool, not, ◌&&◌, ◌||◌, Option, none, some, List, [], ◌∷◌, ◌==◌, max,
  length, select, map, any, count_where, arith, Bool-cases, Option-cases, inl, inr,
}
use edtech_back.Model.{User, Progress, Db, days}
use edtech_back.ReportMetrics.{
  quiet_after_days, is_since, latest, is_candidate, QuietTeacher, quiet_rows, insert_quiet,
  sorted_quiet, quiet_teachers,
}

is_since-max :
    (now span m n : ℕ)
    → is_since now span (some (max m n))
      ≡ (is_since now span (some m) || is_since now span (some n))
is_since-max now span m n = ground arith

is_since-cons :
    (now span : ℕ) (m : Option ℕ) (ms : List (Option ℕ))
    → is_since now span (latest (m ∷ ms)) ≡ (is_since now span m || is_since now span (latest ms))
unfolding latest
is_since-cons now span none ms = refl
is_since-cons now span (some m) ms = elim (Option-cases (latest ms)) [
  | inl e ↦ rw e (ground arith)
  | inr (n, e) ↦ rw e (is_since-max now span m n)
]

is_since-latest :
    (now span id : ℕ) (ps : List Progress)
    → is_since now span (latest (map (λ p. p.last_opened_at) (select (λ p. p.teacher_id == id) ps)))
      ≡ any (λ p. p.teacher_id == id && is_since now span p.last_opened_at) ps
unfolding select any
is_since-latest now span id [] = unfold latest in refl
is_since-latest now span id (p ∷ ps) = elim (Bool-cases (p.teacher_id == id)) [
  | inl hers ↦ rw hers (
      is_since-cons now span p.last_opened_at
        (map (λ q. q.last_opened_at) (select (λ q. q.teacher_id == id) ps))
      ∙ ap (λ b. is_since now span p.last_opened_at || b) (is_since-latest now span id ps))
  | inr other ↦ rw other (is_since-latest now span id ps)
]

length-insert_quiet :
    (q : QuietTeacher) (qs : List QuietTeacher) → length (insert_quiet q qs) ≡ suc (length qs)
unfolding insert_quiet
length-insert_quiet q [] = refl
length-insert_quiet q (r ∷ rs) = ground (arith, length-insert_quiet q rs)

length-sorted_quiet : (qs : List QuietTeacher) → length (sorted_quiet qs) ≡ length qs
unfolding sorted_quiet
length-sorted_quiet [] = refl
length-sorted_quiet (q ∷ qs) =
    ground (arith, length-insert_quiet q (sorted_quiet qs), length-sorted_quiet qs)

-- an active teacher of some standing of whom no row was opened within the window
pub is_quiet : ℕ → (User → Option ℕ) → Db → User → Bool
is_quiet now created_at db t =
    is_candidate now created_at t
    && not (
        any (λ p. p.teacher_id == t.id && is_since now (days quiet_after_days) p.last_opened_at)
          db.progress)

length-quiet_rows :
    (now : ℕ) (created_at : User → Option ℕ) (db : Db) (ts : List User)
    → length (quiet_rows now db (select (is_candidate now created_at) ts))
      ≡ count_where (is_quiet now created_at db) ts
unfolding quiet_rows select count_where is_quiet
length-quiet_rows now created_at db [] = refl
length-quiet_rows now created_at db (t ∷ ts) = elim (Bool-cases (is_candidate now created_at t)) [
  | inl candidate ↦ rw candidate (
      ground (
        arith,
        is_since-latest now (days quiet_after_days) t.id db.progress,
        length-quiet_rows now created_at db ts,
      ))
  | inr other ↦ rw other (ground (arith, length-quiet_rows now created_at db ts))
]

-- As many teachers are reported as quiet as there are active ones who joined before the window and
-- have no row of progress that was opened within it.
pub quiet_teachers-is_quiet :
    (now : ℕ) (created_at : User → Option ℕ) (db : Db) (ts : List User)
    → length (quiet_teachers now created_at db ts) ≡ count_where (is_quiet now created_at db) ts
unfolding quiet_teachers
quiet_teachers-is_quiet now created_at db ts =
    length-sorted_quiet (quiet_rows now db (select (is_candidate now created_at) ts))
    ∙ length-quiet_rows now created_at db ts
