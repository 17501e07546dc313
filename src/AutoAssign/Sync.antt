-- ===== src/AutoAssign/Sync.antt =====
-- `sync_teacher_assignments` of app/services/auto_assign.py, and the assignments before and after
-- it.
use edtech_back.Base.{
  ℕ, ◌≡◌, ◌∙◌, refl, true, ◌&&◌, ◌||◌, Option, some, List, [], ◌∷◌, ◌++◌, ◌==◌, is_some, nonempty,
  arith, Bool-cases, inl, inr, Text, codes,
}
use edtech_back.Model.{User, Lesson, LessonAssignment, Db, Role, UserStatus}
use edtech_back.LessonAccess.Tracks.{is_assigned}
use edtech_back.LessonAccess.Order.{has_lesson}
use edtech_back.Sections.{sections_for, find_progress}
use edtech_back.Sections.Ensure.{
  ensure_row, ensure_sections, ensure_from, ensure_progress_for_lessons,
}
use edtech_back.AutoAssign.{
  assign_one, assign_from, rule_assignment, matching_lessons, sync_teacher_assignments,
}

pub is_assigned-append :
    (xs : List LessonAssignment) (a : LessonAssignment) (t l : ℕ)
    → is_assigned (xs ++ a ∷ []) t l
      ≡ (is_assigned xs t l || (a.teacher_id == t && a.lesson_id == l))
unfolding is_assigned
is_assigned-append [] a t l = ground arith
is_assigned-append (x ∷ xs) a t l = ground (arith, is_assigned-append xs a t l)

module _ (already : List LessonAssignment) (t : ℕ) where
  assign_one-keeps :
      (m : Lesson) (acc : Db × ℕ) (i : ℕ)
      → is_assigned acc.0.assignments t i ≡ true
      → is_assigned (assign_one already t m acc).0.assignments t i ≡ true
  unfolding assign_one
  assign_one-keeps m (db, created) i h = elim (Bool-cases (is_assigned already t m.id)) [
    | inl old ↦ rw old h
    | inr new ↦
        rw (new, is_assigned-append db.assignments (rule_assignment db.next_id m.id t) t i, h) refl
  ]

  assign_one-has :
      (m : Lesson) (acc : Db × ℕ)
      → ((i : ℕ) → is_assigned already t i ≡ true → is_assigned acc.0.assignments t i ≡ true)
      → is_assigned (assign_one already t m acc).0.assignments t m.id ≡ true
  unfolding assign_one
  assign_one-has m (db, created) up = elim (Bool-cases (is_assigned already t m.id)) [
    | inl old ↦ rw old (up m.id old)
    | inr new ↦
        rw (new, is_assigned-append db.assignments (rule_assignment db.next_id m.id t) t m.id)
          (unfold rule_assignment in ground arith)
  ]

  -- What is assigned stays assigned, and each lesson of the list is assigned at the end.
  assign_from-is_assigned :
      (ls : List Lesson) (acc : Db × ℕ) (l : ℕ)
      → ((i : ℕ) → is_assigned already t i ≡ true → is_assigned acc.0.assignments t i ≡ true)
      → (is_assigned acc.0.assignments t l || has_lesson l ls) ≡ true
      → is_assigned (assign_from already t ls acc).0.assignments t l ≡ true
  unfolding assign_from has_lesson
  assign_from-is_assigned [] acc l up h = ground arith
  assign_from-is_assigned (m ∷ ms) acc l up h =
      assign_from-is_assigned ms (assign_one already t m acc) l
        (λ i a. assign_one-keeps m acc i (up i a))
        (elim (Bool-cases (m.id == l)) [
          | inl same ↦ let e : m.id ≡ l = ground arith in rw (← e, assign_one-has m acc up) refl
          | inr other ↦ ground (arith, assign_one-keeps m acc l)
        ])

ensure_row-assignments :
    (t l : ℕ) (message : Option Text) (s : Text) (acc : Db × ℕ)
    → (ensure_row t l message s acc).0.assignments ≡ acc.0.assignments
unfolding ensure_row
ensure_row-assignments t l message s (db, created) =
    elim (Bool-cases (is_some (find_progress db.progress t l s))) [
      | inl there ↦ rw there refl
      | inr absent ↦ rw absent refl
    ]

ensure_sections-assignments :
    (t l : ℕ) (message : Option Text) (ss : List Text) (acc : Db × ℕ)
    → (ensure_sections t l message ss acc).0.assignments ≡ acc.0.assignments
unfolding ensure_sections
ensure_sections-assignments t l message [] acc = refl
ensure_sections-assignments t l message (s ∷ ss) acc =
    ensure_sections-assignments t l message ss (ensure_row t l message s acc)
    ∙ ensure_row-assignments t l message s acc

pub ensure_from-assignments :
    (teacher : User) (message : Option Text) (ls : List Lesson) (acc : Db × ℕ)
    → (ensure_from teacher message ls acc).0.assignments ≡ acc.0.assignments
unfolding ensure_from
ensure_from-assignments teacher message [] acc = refl
ensure_from-assignments teacher message (l ∷ ls) acc =
    ensure_from-assignments teacher message ls
      (ensure_sections teacher.id l.id message (sections_for teacher l.grade) acc)
    ∙ ensure_sections-assignments teacher.id l.id message (sections_for teacher l.grade) acc

-- An active teacher with grades and a language is assigned, after the rule has run, every lesson
-- that matches her, and every lesson that she was assigned before.
pub sync_teacher_assignments-assigns :
    (db : Db) (teacher : User) (l : ℕ)
    → teacher.role ≡ Role.teacher
    → teacher.status ≡ UserStatus.active
    → nonempty teacher.grades ≡ true
    → is_some teacher.language ≡ true
    → (is_assigned db.assignments teacher.id l || has_lesson l (matching_lessons db teacher)) ≡ true
    → is_assigned (sync_teacher_assignments db teacher).0.assignments teacher.id l ≡ true
unfolding sync_teacher_assignments ensure_progress_for_lessons
sync_teacher_assignments-assigns db teacher l r s g la h =
    let matching = matching_lessons db teacher in
    let message = some (codes "Assigned by grade/language rule") in
    let assigned = assign_from db.assignments teacher.id matching (db, 0) in
    simp (r, s, g, la)
      (rw (ensure_from-assignments teacher message matching (assigned.0, 0))
        (assign_from-is_assigned db.assignments teacher.id matching (db, 0) l (λ i a. a) h))
