-- ===== src/Sections/Moves.antt =====
-- The renaming of a class: the keys of the three tables, and the history of a lesson.
use edtech_back.Base.{
  ℕ, ◌≡◌, ◌≢◌, refl, Bool, true, false, not, ◌&&◌, ◌||◌, none, List, [], ◌∷◌, ℤ, Text, text_eq,
  text_eq_iff, text_eq_refl, ◌==◌, find, any, any_self, select, select-update_where,
  any-update_where-false, update_where, All, All-imp, if◌then◌else◌, arith, Bool-cases, inl, inr,
  nonempty,
}
use edtech_back.Model.{Progress, AccessRequest, ChatMessage, Db}
use edtech_back.Sections.{has_key, find_progress}
use edtech_back.Sections.Rename.{
  already_keyed, moves, move_rows, row_is, in_grade, rename_section_at, moved_count,
}
use edtech_back.Sections.Keys.{HasUniqueKeys}

module _ (t : ℕ) (old new : Text) (ok taken : ℕ → Bool) where
  abbrev moving : Progress → Bool
  moving r = r.teacher_id == t && text_eq r.section old && ok r.lesson_id && not (taken r.lesson_id)

  abbrev moved : Progress → Progress
  moved r = if moving r then record r { section = new } else r

  -- a row of the new label makes its lesson taken
  abbrev respects : Progress → Bool
  respects r = not (r.teacher_id == t && text_eq r.section new) || taken r.lesson_id

  apart :
      (p q : Progress)
      → respects p ≡ true
      → respects q ≡ true
      → has_key p.teacher_id p.lesson_id p.section q ≡ false
      → has_key (moved p).teacher_id (moved p).lesson_id (moved p).section (moved q) ≡ false
  apart p q hp hq h = ground (
    arith,
    text_eq_iff q.section p.section,
    text_eq_iff q.section new,
    text_eq_iff q.section old,
    text_eq_iff p.section old,
    text_eq_iff p.section new,
    text_eq_iff new p.section,
    text_eq_refl new,
  )

  find_progress-moved :
      (p : Progress) (ps : List Progress)
      → respects p ≡ true
      → All (λ r. respects r ≡ true) ps
      → find_progress ps p.teacher_id p.lesson_id p.section ≡ none
      → find_progress
          (update_where moving (λ r. record r { section = new }) ps)
          (moved p).teacher_id
          (moved p).lesson_id
          (moved p).section
        ≡ none
  unfolding find_progress find update_where
  find_progress-moved p [] hp hs h = refl
  find_progress-moved p (q ∷ ps) hp hs h =
      ground (arith, apart p q hp hs.0, find_progress-moved p ps hp hs.1)

  moved-HasUniqueKeys :
      (ps : List Progress)
      → All (λ r. respects r ≡ true) ps
      → HasUniqueKeys ps
      → HasUniqueKeys (update_where moving (λ r. record r { section = new }) ps)
  unfolding update_where
  moved-HasUniqueKeys [] hs h = tt
  moved-HasUniqueKeys (p ∷ ps) hs h =
      (find_progress-moved p ps hs.0 hs.1 h.0, moved-HasUniqueKeys ps hs.1 h.1)

module _ (db : Db) (t : ℕ) (grade : ℤ) (old new : Text) where
  self_respects :
      (r : Progress)
      → ((f : Progress → Bool) → f r ≡ true → any f db.progress ≡ true)
      → respects t old new (in_grade db.lessons grade) (already_keyed db t new) r ≡ true
  unfolding already_keyed
  self_respects r h =
      ground (arith, h (λ q. row_is t new r.lesson_id q.teacher_id q.lesson_id q.section))

  pub move_rows-HasUniqueKeys :
      HasUniqueKeys db.progress → HasUniqueKeys (move_rows db t grade old new).progress
  unfolding move_rows moves
  move_rows-HasUniqueKeys h =
      moved-HasUniqueKeys t old new (in_grade db.lessons grade) (already_keyed db t new) db.progress
        (All-imp _ _ self_respects db.progress (any_self db.progress)) h

  -- what the three tables hold of a lesson
  abbrev pub SameHistory : ℕ → Db → Db → Type 0
  SameHistory l a b =
      (select (λ r. r.lesson_id == l) a.progress ≡ select (λ r. r.lesson_id == l) b.progress)
      × (select (λ r. r.lesson_id == l) a.chats ≡ select (λ r. r.lesson_id == l) b.chats)
      × (select (λ r. r.lesson_id == l) a.requests ≡ select (λ r. r.lesson_id == l) b.requests)

  stays_put :
      (l row_teacher row_lesson : ℕ) (row_section : Text)
      → already_keyed db t new l ≡ true
      → (row_lesson == l) ≡ true
      → moves db t grade old new row_teacher row_lesson row_section ≡ false
  unfolding moves
  stays_put l rt rl rs k h = let e : rl ≡ l = ground arith in rw (e, k) (ground arith)

  -- A lesson that the new label has any history of stays as it is, in all three tables.
  pub taken_stays :
      (l : ℕ) → already_keyed db t new l ≡ true → SameHistory l (move_rows db t grade old new) db
  unfolding move_rows
  taken_stays l k = (
    select-update_where _ _ _ (λ r. stays_put l r.teacher_id r.lesson_id r.section k) (λ r. refl)
        db.progress,
    select-update_where _ _ _ (λ r. stays_put l r.teacher_id r.lesson_id r.section k) (λ r. refl)
        db.chats,
    select-update_where _ _ _ (λ r. stays_put l r.teacher_id r.lesson_id r.section k) (λ r. refl)
        db.requests,
  )

  leaves :
      (l row_teacher row_lesson : ℕ) (row_section : Text)
      → old ≢ new
      → in_grade db.lessons grade l ≡ true
      → already_keyed db t new l ≡ false
      → (if moves db t grade old new row_teacher row_lesson row_section
          then row_is t old l row_teacher row_lesson new
          else row_is t old l row_teacher row_lesson row_section)
        ≡ false
  unfolding moves
  leaves l rt rl rs ne g k = elim (Bool-cases (rl == l)) [
    | inl same ↦ let e : rl ≡ l = ground arith in rw (e, g, k) (ground (arith, text_eq_iff new old))
    | inr other ↦ ground arith
  ]

  -- A lesson of the grade that the new label has no history of moves as a whole: nothing of it is
  -- left under the old label in any table.
  pub free_leaves :
      (l : ℕ)
      → old ≢ new
      → in_grade db.lessons grade l ≡ true
      → already_keyed db t new l ≡ false
      → already_keyed (move_rows db t grade old new) t old l ≡ false
  unfolding move_rows already_keyed
  free_leaves l ne g k =
      let in_progress =
        any-update_where-false {A = Progress}
          (λ r. row_is t old l r.teacher_id r.lesson_id r.section)
          (λ r. moves db t grade old new r.teacher_id r.lesson_id r.section)
          (λ r. record r { section = new })
          (λ r. leaves l r.teacher_id r.lesson_id r.section ne g k) db.progress in
      let in_chats =
        any-update_where-false {A = ChatMessage}
          (λ r. row_is t old l r.teacher_id r.lesson_id r.section)
          (λ r. moves db t grade old new r.teacher_id r.lesson_id r.section)
          (λ r. record r { section = new })
          (λ r. leaves l r.teacher_id r.lesson_id r.section ne g k) db.chats in
      let in_requests =
        any-update_where-false {A = AccessRequest}
          (λ r. row_is t old l r.teacher_id r.lesson_id r.section)
          (λ r. moves db t grade old new r.teacher_id r.lesson_id r.section)
          (λ r. record r { section = new })
          (λ r. leaves l r.teacher_id r.lesson_id r.section ne g k) db.requests in
      rw (in_progress, in_chats, in_requests) refl

  rename_section_at-move_rows :
      old ≢ new → (rename_section_at db t grade old new).0 ≡ move_rows db t grade old new
  unfolding rename_section_at
  rename_section_at-move_rows ne = go old new ne
    where
      go :
          (a b : Text)
          → a ≢ b
          → (if◌then◌else◌ {A = Db × ℕ}
              (text_eq a b || (not (nonempty a) && not (nonempty b)))
              (db, 0)
              (move_rows db t grade old new, moved_count db t grade old new)).0
            ≡ move_rows db t grade old new
      go [] [] h = absurd (h refl)
      go [] (c ∷ b) h = ground (arith, text_eq_iff [] (c ∷ b))
      go (c ∷ a) b h = ground (arith, text_eq_iff (c ∷ a) b)

  -- Renaming a class leaves alone, in all three tables, what there is of a lesson of the grade that
  -- the new label already has any history of, in any of the three.
  pub rename_section_at-SameHistory :
      (l : ℕ)
      → old ≢ new
      → already_keyed db t new l ≡ true
      → SameHistory l (rename_section_at db t grade old new).0 db
  rename_section_at-SameHistory l ne taken =
      rw (rename_section_at-move_rows ne) (taken_stays l taken)

  -- Renaming a class leaves no row of a lesson of the grade under the old label, in any of the three
  -- tables, where the new label has no history of the lesson yet.
  pub rename_section_at-already_keyed :
      (l : ℕ)
      → old ≢ new
      → in_grade db.lessons grade l ≡ true
      → already_keyed db t new l ≡ false
      → already_keyed (rename_section_at db t grade old new).0 t old l ≡ false
  rename_section_at-already_keyed l ne g free =
      rw (rename_section_at-move_rows ne) (free_leaves l ne g free)

  -- Renaming a class keeps the rows of progress unique for a teacher, a lesson and a class.
  pub rename_section_at-HasUniqueKeys :
      HasUniqueKeys db.progress → HasUniqueKeys (rename_section_at db t grade old new).0.progress
  unfolding rename_section_at
  rename_section_at-HasUniqueKeys h =
      elim (Bool-cases (text_eq old new || (not (nonempty old) && not (nonempty new)))) [
        | inl same ↦ rw same h
        | inr other ↦ rw other (move_rows-HasUniqueKeys h)
      ]
