-- ===== src/Workflow/Assigned.antt =====
-- What the rule and its pruning do to the soundness of the rows of progress.
use edtech_back.Base.{
  ℕ, ◌≡◌, ◌∙◌, refl, sym, Bool, not, ◌||◌, Option, none, some, List, [], ◌∷◌, Text, codes, nonempty,
  find, delete_where, is_some, All, All-append_one, arith, Bool-cases, inl, inr,
}
use mathlib.Core.Path.{subst}
use edtech_back.Model.{User, Lesson, Progress, Db, is_teacher, is_active}
use edtech_back.Sections.{find_progress, new_progress, sections_for}
use edtech_back.Sections.Ensure.{
  assigned_progress, ensure_row, ensure_sections, ensure_from, ensure_progress_for_lessons,
}
use edtech_back.Sections.Keys.{HasUniqueKeys, ensure_progress_for_lessons-HasUniqueKeys}
use edtech_back.ProgressRoute.Record.{IsWellFormed, IsSound}
use edtech_back.AutoAssign.{
  assign_one, assign_from, matching_lessons, sync_teacher_assignments, prune_teacher_assignments,
}

abbrev AreWellFormed : Db × ℕ → Type 0
AreWellFormed acc = All IsWellFormed acc.0.progress

ensure_row-AreWellFormed :
    (t l : ℕ) (message : Option Text) (s : Text) (acc : Db × ℕ)
    → AreWellFormed acc
    → AreWellFormed (ensure_row t l message s acc)
unfolding ensure_row
ensure_row-AreWellFormed t l message s (db, created) h =
    elim (Bool-cases (is_some (find_progress db.progress t l s))) [
      | inl there ↦ rw there h
      | inr absent ↦ rw absent (
          All-append_one IsWellFormed db.progress _ h (
            unfold assigned_progress new_progress in
            record { bounded = omega arith; finished = refl; stamped = refl; untouched = refl }))
    ]

ensure_sections-AreWellFormed :
    (t l : ℕ) (message : Option Text) (ss : List Text) (acc : Db × ℕ)
    → AreWellFormed acc
    → AreWellFormed (ensure_sections t l message ss acc)
unfolding ensure_sections
ensure_sections-AreWellFormed t l message [] acc h = h
ensure_sections-AreWellFormed t l message (s ∷ ss) acc h =
    ensure_sections-AreWellFormed t l message ss _ (ensure_row-AreWellFormed t l message s acc h)

ensure_from-AreWellFormed :
    (teacher : User) (message : Option Text) (ls : List Lesson) (acc : Db × ℕ)
    → AreWellFormed acc
    → AreWellFormed (ensure_from teacher message ls acc)
unfolding ensure_from
ensure_from-AreWellFormed teacher message [] acc h = h
ensure_from-AreWellFormed teacher message (l ∷ ls) acc h =
    ensure_from-AreWellFormed teacher message ls _
      (ensure_sections-AreWellFormed teacher.id l.id message (sections_for teacher l.grade) acc h)

pub ensure_progress_for_lessons-IsSound :
    (db : Db) (teacher : User) (ls : List Lesson) (message : Option Text)
    → IsSound db
    → IsSound (ensure_progress_for_lessons db teacher ls message).0
unfolding ensure_progress_for_lessons
ensure_progress_for_lessons-IsSound db teacher ls message h = record {
  unique = ensure_progress_for_lessons-HasUniqueKeys db teacher ls message h.unique;
  shaped = ensure_from-AreWellFormed teacher message ls (db, 0) h.shaped;
}

assign_from-progress :
    (already : _) (t : ℕ) (ls : List Lesson) (acc : Db × ℕ)
    → (assign_from already t ls acc).0.progress ≡ acc.0.progress
unfolding assign_from
assign_from-progress already t [] acc = refl
assign_from-progress already t (l ∷ ls) acc =
    assign_from-progress already t ls (assign_one already t l acc) ∙ assign_one-progress acc
  where
    assign_one-progress : (acc : Db × ℕ) → (assign_one already t l acc).0.progress ≡ acc.0.progress
    assign_one-progress (db, n) = unfold assign_one in ground arith

pub IsSound-progress : (a b : Db) → a.progress ≡ b.progress → IsSound b → IsSound a
IsSound-progress a b same h = record {
  unique = subst HasUniqueKeys (sym same) h.unique;
  shaped = subst (λ ps. All IsWellFormed ps) (sym same) h.shaped;
}

pub sync_teacher_assignments-IsSound :
    (db : Db) (teacher : User) → IsSound db → IsSound (sync_teacher_assignments db teacher).0
unfolding sync_teacher_assignments
sync_teacher_assignments-IsSound db teacher h =
    let assigned = assign_from db.assignments teacher.id (matching_lessons db teacher) (db, 0) in
    let w =
      ensure_progress_for_lessons-IsSound assigned.0 teacher (matching_lessons db teacher)
        (some (codes "Assigned by grade/language rule"))
        (IsSound-progress assigned.0 db
          (assign_from-progress db.assignments teacher.id (matching_lessons db teacher) (db, 0))
          h) in
    elim (Bool-cases (not (is_teacher teacher.role) || not (is_active teacher.status))) [
      | inl out ↦ rw out h
      | inr eligible ↦
          elim (Bool-cases (not (nonempty teacher.grades) || not (is_some teacher.language))) [
            | inl bare ↦ rw eligible (rw bare h)
            | inr placed ↦ rw eligible (rw placed w)
          ]
    ]

delete-find :
    (m : Progress → Bool) (t l : ℕ) (s : Text) (ps : List Progress)
    → find_progress ps t l s ≡ none
    → find_progress (delete_where m ps) t l s ≡ none
unfolding find_progress find delete_where
delete-find m t l s [] h = refl
delete-find m t l s (p ∷ ps) h = ground (arith, delete-find m t l s ps)

pub delete-HasUniqueKeys :
    (m : Progress → Bool) (ps : List Progress)
    → HasUniqueKeys ps
    → HasUniqueKeys (delete_where m ps)
unfolding delete_where
delete-HasUniqueKeys m [] h = tt
delete-HasUniqueKeys m (p ∷ ps) h = elim (Bool-cases (m p)) [
  | inl gone ↦ rw gone (delete-HasUniqueKeys m ps h.1)
  | inr kept ↦
      rw kept
        (delete-find m p.teacher_id p.lesson_id p.section ps h.0, delete-HasUniqueKeys m ps h.1)
]

pub delete-All :
    (P : Progress → Type 0) (m : Progress → Bool) (ps : List Progress)
    → All P ps
    → All P (delete_where m ps)
unfolding delete_where
delete-All P m [] h = tt
delete-All P m (p ∷ ps) h = elim (Bool-cases (m p)) [
  | inl gone ↦ rw gone (delete-All P m ps h.1)
  | inr kept ↦ rw kept (h.0, delete-All P m ps h.1)
]

pub prune_teacher_assignments-IsSound :
    (db : Db) (teacher : User) → IsSound db → IsSound (prune_teacher_assignments db teacher).0
unfolding prune_teacher_assignments
prune_teacher_assignments-IsSound db teacher h = elim (Bool-cases (is_teacher teacher.role)) [
  | inr other ↦ rw other h
  | inl same ↦ rw same (record {
    unique = delete-HasUniqueKeys _ db.progress h.unique;
    shaped = delete-All IsWellFormed _ db.progress h.shaped;
  })
]
