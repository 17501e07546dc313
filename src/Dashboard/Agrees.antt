-- ===== src/Dashboard/Agrees.antt =====
-- `stalled_teachers` of app/routers/dashboard.py and `quiet_teachers` of
-- app/services/report_metrics.py, side by side.
use edtech_back.Base.{
  ℕ, ◌≡◌, refl, sym, ◌∙◌, Bool, Option, List, [], ◌∷◌, Text, select, count_where, arith,
  Option-cases, select-same, inl, inr,
}
use edtech_back.Model.{User, Db}
use edtech_back.ReportMetrics.{
  is_candidate, QuietTeacher, quiet_rows, insert_quiet, sorted_quiet, quiet_teachers,
}
use edtech_back.Dashboard.{
  StalledTeacher, has_joined, stalled_rows, insert_stalled, sorted_stalled, stalled_teachers,
}

module _ (p : StalledTeacher → Bool) where
  count-insert_stalled :
      (s : StalledTeacher) (ss : List StalledTeacher)
      → count_where p (insert_stalled s ss) ≡ count_where p (s ∷ ss)
  unfolding count_where insert_stalled
  count-insert_stalled s [] = refl
  count-insert_stalled s (r ∷ rs) = ground (arith, count-insert_stalled s rs)

  count-sorted_stalled :
      (ss : List StalledTeacher) → count_where p (sorted_stalled ss) ≡ count_where p ss
  unfolding count_where sorted_stalled
  count-sorted_stalled [] = refl
  count-sorted_stalled (s ∷ ss) =
      ground (arith, count-insert_stalled s (sorted_stalled ss), count-sorted_stalled ss)

module _ (p : QuietTeacher → Bool) where
  count-insert_quiet :
      (q : QuietTeacher) (qs : List QuietTeacher)
      → count_where p (insert_quiet q qs) ≡ count_where p (q ∷ qs)
  unfolding count_where insert_quiet
  count-insert_quiet q [] = refl
  count-insert_quiet q (r ∷ rs) = ground (arith, count-insert_quiet q rs)

  count-sorted_quiet : (qs : List QuietTeacher) → count_where p (sorted_quiet qs) ≡ count_where p qs
  unfolding count_where sorted_quiet
  count-sorted_quiet [] = refl
  count-sorted_quiet (q ∷ qs) =
      ground (arith, count-insert_quiet q (sorted_quiet qs), count-sorted_quiet qs)

has_joined-is_candidate :
    (now : ℕ) (created_at : User → Option ℕ) (t : User)
    → has_joined now created_at t ≡ is_candidate now created_at t
has_joined-is_candidate now created_at t = elim (Option-cases (created_at t)) [
  | inl e ↦ rw e refl
  | inr (m, e) ↦ rw e refl
]

module _ (told : Text → Text → ℕ → Bool) where
  count-rows :
      (now : ℕ) (db : Db) (ts : List User)
      → count_where (λ s. told s.name s.email s.completed_count) (stalled_rows now db ts)
        ≡ count_where (λ q. told q.name q.email q.completed) (quiet_rows now db ts)
  unfolding count_where stalled_rows quiet_rows
  count-rows now db [] = refl
  count-rows now db (t ∷ ts) = ground (arith, count-rows now db ts)

  -- The teachers that the dashboard tells as stalled are those that a report on all accounts tells as
  -- quiet, with the same names, addresses and numbers of completed lessons: whatever is asked of
  -- these three, as many of the ones answer it as of the others.
  pub stalled_teachers-quiet_teachers :
      (now : ℕ) (created_at : User → Option ℕ) (db : Db)
      → count_where
          (λ s. told s.name s.email s.completed_count)
          (stalled_teachers now created_at db)
        ≡ count_where
            (λ q. told q.name q.email q.completed)
            (quiet_teachers now created_at db db.users)
  unfolding stalled_teachers quiet_teachers
  stalled_teachers-quiet_teachers now created_at db =
      let ts = select (is_candidate now created_at) db.users in
      let same =
        select-same (has_joined now created_at) (is_candidate now created_at)
          (has_joined-is_candidate now created_at) db.users in
      rw same (
        count-sorted_stalled (λ s. told s.name s.email s.completed_count) (stalled_rows now db ts)
        ∙ count-rows now db ts
        ∙ sym (count-sorted_quiet (λ q. told q.name q.email q.completed) (quiet_rows now db ts)))
