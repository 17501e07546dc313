-- ===== src/AutoAssign/Prune.antt =====
-- `prune_teacher_assignments` of app/services/auto_assign.py, and what it leaves.
use edtech_back.Base.{
  ℕ, ◌≡◌, refl, Bool, true, false, not, ◌&&◌, some, List, [], ◌∷◌, ◌==◌, find, select, any, all,
  all_self, All, All-imp, select-delete_where, arith, Bool-cases, inl, inr,
}
use mathlib.Core.Path.{subst}
use edtech_back.Model.{
  User, Lesson, LessonAssignment, Progress, Db, is_teacher, is_rule, is_pending,
}
use edtech_back.AutoAssign.{
  lesson_matches_teacher, progress_untouched, all_untouched, prunable, prunes_lesson,
  prune_teacher_assignments,
}

All-every {ℓ κ} : {A : Type ℓ} (P : A → Type κ) → ((a : A) → P a) → (xs : List A) → All P xs
All-every P h [] = tt
All-every P h (x ∷ xs) = (h x, All-every P h xs)

module _ (db : Db) (teacher : User) where
  prunable-all_untouched :
      (a : LessonAssignment)
      → prunable db teacher a ≡ true
      → all_untouched db.progress teacher.id a.lesson_id ≡ true
  unfolding prunable
  prunable-all_untouched a h = ground arith

  -- A lesson of which some assignment is removed has no touched row of the teacher.
  prunes_lesson-all_untouched :
      (l : ℕ) (rest : List LessonAssignment)
      → any (λ a. prunable db teacher a && a.lesson_id == l) rest ≡ true
      → all_untouched db.progress teacher.id l ≡ true
  unfolding any
  prunes_lesson-all_untouched l [] h = cc
  prunes_lesson-all_untouched l (a ∷ rest) h =
      elim (Bool-cases (prunable db teacher a && a.lesson_id == l)) [
        | inl hit ↦
            let e : a.lesson_id ≡ l = ground arith in
            subst (λ i. all_untouched db.progress teacher.id i ≡ true) e
              (prunable-all_untouched a (ground arith))
        | inr miss ↦ prunes_lesson-all_untouched l rest (ground arith)
      ]

  touched-stays :
      (p : Progress)
      → ((f : Progress → Bool) → all f db.progress ≡ true → f p ≡ true)
      → not (progress_untouched p) ≡ true
      → (p.teacher_id == teacher.id && prunes_lesson db teacher p.lesson_id) ≡ false
  unfolding prunes_lesson all_untouched
  touched-stays p each touched =
      elim (Bool-cases
        (any (λ a. prunable db teacher a && a.lesson_id == p.lesson_id) db.assignments)) [
          | inr free ↦ rw free (ground arith)
          | inl hit ↦
              let whole = prunes_lesson-all_untouched p.lesson_id db.assignments hit in
              let mine = each _ whole in rw hit (ground arith)
        ]

  manual-stays :
      (a : LessonAssignment) → not (is_rule a.source) ≡ true → prunable db teacher a ≡ false
  unfolding prunable
  manual-stays a h = ground arith

  -- Pruning a teacher's assignments keeps, in their order, every assignment that was not made by
  -- the rule, every row of progress that a class has touched, of any teacher, and every request
  -- that somebody has decided.
  pub prune_teacher_assignments-keeps :
      let db' = (prune_teacher_assignments db teacher).0 in
      (select (λ a. not (is_rule a.source)) db'.assignments
        ≡ select (λ a. not (is_rule a.source)) db.assignments)
      × (select (λ p. not (progress_untouched p)) db'.progress
          ≡ select (λ p. not (progress_untouched p)) db.progress)
      × (select (λ r. not (is_pending r.status)) db'.requests
          ≡ select (λ r. not (is_pending r.status)) db.requests)
  unfolding prune_teacher_assignments
  prune_teacher_assignments-keeps = elim (Bool-cases (is_teacher teacher.role)) [
    | inr other ↦ simp other (refl, refl, refl)
    | inl same ↦ simp same (
      select-delete_where (λ a. not (is_rule a.source)) (prunable db teacher) db.assignments
          (All-every _ manual-stays db.assignments),
      select-delete_where (λ p. not (progress_untouched p))
          (λ p. p.teacher_id == teacher.id && prunes_lesson db teacher p.lesson_id) db.progress
          (All-imp _ _ touched-stays db.progress (all_self db.progress)),
      select-delete_where (λ r. not (is_pending r.status))
          (λ r.
            r.teacher_id == teacher.id
            && prunes_lesson db teacher r.lesson_id
            && is_pending r.status)
          db.requests (All-every _ (λ r h. ground arith) db.requests),
    )
  ]

  matching-stays :
      (a : LessonAssignment) (l : Lesson)
      → find (λ m. m.id == a.lesson_id) db.lessons ≡ some l
      → lesson_matches_teacher db.schools l teacher ≡ true
      → prunable db teacher a ≡ false
  unfolding prunable
  matching-stays a l e h = ground (arith, e)
