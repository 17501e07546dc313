-- ===== src/Sections/Keys.antt =====
-- The unique constraint on teacher, lesson and class, and the operations of
-- app/services/sections.py on the rows of progress.
use edtech_back.Base.{
  ℕ, ◌≡◌, refl, Bool, false, Option, none, List, [], ◌∷◌, ◌++◌, Text, text_eq_iff, find, is_some,
  arith, Bool-cases, inl, inr,
}
use edtech_back.Model.{User, Lesson, Progress, Db}
use edtech_back.Sections.{has_key, find_progress, new_progress, sections_for}
use edtech_back.Sections.Ensure.{
  assigned_progress, ensure_row, ensure_sections, ensure_from, ensure_progress_for_lessons,
}

-- No two rows have the same teacher, lesson and class.
abbrev pub HasUniqueKeys : List Progress → Type 0
HasUniqueKeys [] = Unit
HasUniqueKeys (p ∷ ps) =
    (find_progress ps p.teacher_id p.lesson_id p.section ≡ none) × HasUniqueKeys ps

-- a row with the key of another
abbrev same_key : Progress → Progress → Bool
same_key p q = has_key p.teacher_id p.lesson_id p.section q

find_progress-append_one :
    (ps : List Progress) (q : Progress) (t l : ℕ) (s : Text)
    → find_progress ps t l s ≡ none
    → has_key t l s q ≡ false
    → find_progress (ps ++ q ∷ []) t l s ≡ none
unfolding find_progress find
find_progress-append_one [] q t l s h k = ground arith
find_progress-append_one (p ∷ ps) q t l s h k = ground (arith, find_progress-append_one ps q t l s)

-- A row whose key is not there yet can be added.
pub append-HasUniqueKeys :
    (ps : List Progress) (q : Progress)
    → HasUniqueKeys ps
    → find_progress ps q.teacher_id q.lesson_id q.section ≡ none
    → HasUniqueKeys (ps ++ q ∷ [])
unfolding find_progress find
append-HasUniqueKeys [] q h n = (refl, tt)
append-HasUniqueKeys (p ∷ ps) q h n = (
  find_progress-append_one ps q p.teacher_id p.lesson_id p.section h.0
      (ground (arith, text_eq_iff p.section q.section, text_eq_iff q.section p.section)),
  append-HasUniqueKeys ps q h.1 (ground arith),
)

ensure_row-HasUniqueKeys :
    (t l : ℕ) (message : Option Text) (s : Text) (acc : Db × ℕ)
    → HasUniqueKeys acc.0.progress
    → HasUniqueKeys (ensure_row t l message s acc).0.progress
unfolding ensure_row assigned_progress new_progress
ensure_row-HasUniqueKeys t l message s (db, created) h =
    elim (Bool-cases (is_some (find_progress db.progress t l s))) [
      | inl there ↦ rw there h
      | inr absent ↦ rw absent (append-HasUniqueKeys db.progress _ h (ground arith))
    ]

ensure_sections-HasUniqueKeys :
    (t l : ℕ) (message : Option Text) (ss : List Text) (acc : Db × ℕ)
    → HasUniqueKeys acc.0.progress
    → HasUniqueKeys (ensure_sections t l message ss acc).0.progress
unfolding ensure_sections
ensure_sections-HasUniqueKeys t l message [] acc h = h
ensure_sections-HasUniqueKeys t l message (s ∷ ss) acc h =
    ensure_sections-HasUniqueKeys t l message ss _ (ensure_row-HasUniqueKeys t l message s acc h)

ensure_from-HasUniqueKeys :
    (teacher : User) (message : Option Text) (ls : List Lesson) (acc : Db × ℕ)
    → HasUniqueKeys acc.0.progress
    → HasUniqueKeys (ensure_from teacher message ls acc).0.progress
unfolding ensure_from
ensure_from-HasUniqueKeys teacher message [] acc h = h
ensure_from-HasUniqueKeys teacher message (l ∷ ls) acc h =
    ensure_from-HasUniqueKeys teacher message ls _
      (ensure_sections-HasUniqueKeys teacher.id l.id message (sections_for teacher l.grade) acc h)

-- Giving a teacher a row for each of her classes and each of some lessons keeps the rows of progress
-- unique for a teacher, a lesson and a class.
pub ensure_progress_for_lessons-HasUniqueKeys :
    (db : Db) (teacher : User) (ls : List Lesson) (message : Option Text)
    → HasUniqueKeys db.progress
    → HasUniqueKeys (ensure_progress_for_lessons db teacher ls message).0.progress
unfolding ensure_progress_for_lessons
ensure_progress_for_lessons-HasUniqueKeys db teacher ls message h =
    ensure_from-HasUniqueKeys teacher message ls (db, 0) h
