-- ===== src/Assignments/Exact.antt =====
-- Which teachers hold which lessons after an edit of the assignments.
use edtech_back.Base.{
  ℕ, ◌≡◌, ◌∙◌, refl, Bool, true, not, ◌&&◌, ◌||◌, Option, none, some, List, [], ◌∷◌, ◌==◌, find,
  find_sound, select, map, all, delete_where, if◌then◌else◌, contains, contains-select,
  contains-distinct, distinct, ok, arith, Bool-cases, Option-cases, inl, inr,
}
use edtech_back.Model.{User, Lesson, LessonAssignment, Db}
use edtech_back.Permissions.{Capability, user_can}
use edtech_back.LessonAccess.Tracks.{is_assigned}
use edtech_back.Sections.Ensure.{ensure_progress_rows, ensure_progress_for_lessons}
use edtech_back.AutoAssign.Sync.{is_assigned-append, ensure_from-assignments}
use edtech_back.Assignments.{
  manual_assignment, manual_note, seed_rows, add_assignment, add_teachers, remove_teachers,
  is_in_school, current_in_school, set_teachers, replace_assignments,
}

pub seed_rows-assignments :
    (teacher : Option User) (lesson : Lesson) (db : Db)
    → (seed_rows teacher lesson db).assignments ≡ db.assignments
unfolding seed_rows ensure_progress_rows ensure_progress_for_lessons
seed_rows-assignments none lesson db = refl
seed_rows-assignments (some teacher) lesson db =
    ensure_from-assignments teacher manual_note (lesson ∷ []) (db, 0)

pub add_teachers-is_assigned :
    (teachers : List User) (lesson : Lesson) (ts : List ℕ) (db : Db) (t l : ℕ)
    → is_assigned (add_teachers teachers lesson ts db).assignments t l
      ≡ (is_assigned db.assignments t l || (lesson.id == l && contains t ts))
unfolding add_teachers contains add_assignment
add_teachers-is_assigned teachers lesson [] db t l = ground arith
add_teachers-is_assigned teachers lesson (x ∷ xs) db t l =
    let seeded =
      seed_rows-assignments (find (λ u. u.id == x) teachers) lesson (add_assignment x lesson db) in
    add_teachers-is_assigned teachers lesson xs _ t l
    ∙ rw (seeded, is_assigned-append db.assignments (manual_assignment db.next_id lesson.id x) t l)
        (unfold manual_assignment in ground arith)

is_assigned-delete_where :
    (l' : ℕ) (gone : List ℕ) (xs : List LessonAssignment) (t l : ℕ)
    → is_assigned (delete_where (λ a. a.lesson_id == l' && contains a.teacher_id gone) xs) t l
      ≡ (is_assigned xs t l && not (l' == l && contains t gone))
unfolding is_assigned delete_where
is_assigned-delete_where l' gone [] t l = refl
is_assigned-delete_where l' gone (a ∷ xs) t l =
    ground (arith, is_assigned-delete_where l' gone xs t l)

pub remove_teachers-is_assigned :
    (l' : ℕ) (gone : List ℕ) (db : Db) (t l : ℕ)
    → is_assigned (remove_teachers l' gone db).assignments t l
      ≡ (is_assigned db.assignments t l && not (l' == l && contains t gone))
unfolding remove_teachers
remove_teachers-is_assigned l' gone db t l = is_assigned-delete_where l' gone db.assignments t l

-- the teachers of a lesson, read off the rows
contains-map :
    (l : ℕ) (xs : List LessonAssignment) (t : ℕ)
    → contains t (map (λ a. a.teacher_id) (select (λ a. a.lesson_id == l) xs)) ≡ is_assigned xs t l
unfolding contains select is_assigned
contains-map l [] t = refl
contains-map l (a ∷ xs) t = ground (arith, contains-map l xs t)

module _ (db : Db) (school_id : ℕ) (lesson : Lesson) (wanted : List ℕ) (t l : ℕ) where
  current_in_school-contains :
      contains t (current_in_school db school_id lesson.id)
      ≡ (is_assigned db.assignments t lesson.id && is_in_school db school_id t)
  unfolding current_in_school
  current_in_school-contains =
      rw (contains-distinct, contains-select, contains-map lesson.id db.assignments t) refl

  set_teachers-is_assigned :
      is_assigned (set_teachers db school_id lesson wanted).assignments t l ≡ (
        ((is_assigned db.assignments t l
            || (lesson.id == l
                && (contains t wanted
                    && not
                        (is_assigned db.assignments t lesson.id && is_in_school db school_id t))))
          && not (
              lesson.id == l
              && ((is_assigned db.assignments t lesson.id && is_in_school db school_id t)
                  && not (contains t wanted)))))
  unfolding set_teachers
  set_teachers-is_assigned =
      rw
        (
          remove_teachers-is_assigned, add_teachers-is_assigned, contains-select, contains-select,
          current_in_school-contains,
        )
        refl

all-contains :
    (p : ℕ → Bool) (t : ℕ) (xs : List ℕ) → all p xs ≡ true → contains t xs ≡ true → p t ≡ true
unfolding all contains
all-contains p t [] h c = cc
all-contains p t (x ∷ xs) h c = elim (Bool-cases (x == t)) [
  | inl same ↦ ground arith
  | inr other ↦ all-contains p t xs (ground arith) (ground arith)
]

module _ (db : Db) (current : User) (lesson_id school_id : ℕ) (wanted : List ℕ)
    (lesson : Lesson) where
  -- what has been tested when a replacement is accepted
  replace_assignments-ok :
      (replace_assignments db current lesson_id school_id wanted).0 ≡ ok lesson
      → (find (λ l. l.id == lesson_id) db.lessons ≡ some lesson)
        × (all (is_in_school db school_id) (distinct wanted) ≡ true)
        × ((replace_assignments db current lesson_id school_id wanted).1
            ≡ set_teachers db school_id lesson (distinct wanted))
  unfolding replace_assignments
  replace_assignments-ok h = elim (Bool-cases (user_can current Capability.assign_files)) [
    | inr refused ↦ absurd (ground arith)
    | inl able ↦ elim (Option-cases (find (λ l. l.id == lesson_id) db.lessons)) [
      | inl missing ↦ absurd (ground arith)
      | inr (found, e) ↦ elim (Bool-cases (all (is_in_school db school_id) (distinct wanted))) [
        | inr unknown ↦ absurd (ground arith)
        | inl known ↦
            let same : found ≡ lesson = ground arith in
            (rw (e, same) refl, known, rw (able, e, known, same) refl)
      ]
    ]
  ]

  -- When replacing the teachers of a lesson within a school is accepted, an active teacher of
  -- the school has the lesson afterwards exactly if the request names them, and every other pair of
  -- a teacher and a lesson is assigned as it was, also of teachers of the school that are not active.
  pub replace_assignments-exact :
      (t l : ℕ)
      → (replace_assignments db current lesson_id school_id wanted).0 ≡ ok lesson
      → is_assigned (replace_assignments db current lesson_id school_id wanted).1.assignments t l
        ≡ (if lesson_id == l && is_in_school db school_id t
            then contains t wanted
            else is_assigned db.assignments t l)
  replace_assignments-exact t l h =
      let (found, known, result) = replace_assignments-ok h in
      let same : lesson.id ≡ lesson_id =
        ground (arith, find_sound (λ m. m.id == lesson_id) db.lessons found) in
      let named = contains-distinct t wanted in
      let inside = all-contains (is_in_school db school_id) t (distinct wanted) known in
      rw (result, set_teachers-is_assigned db school_id lesson (distinct wanted) t l)
        (ground (arith, inside))
