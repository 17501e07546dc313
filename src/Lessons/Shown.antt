-- ===== src/Lessons/Shown.antt =====
-- `list_lessons` and `get_lesson` of app/routers/lessons.py, side by side, and what the lists
-- disclose.
use edtech_back.Base.{
  ℕ, ◌≡◌, ◌∙◌, sym, refl, Bool, true, false, ◌&&◌, ◌||◌, Option, none, List, [], ◌∷◌, Text, ◌==◌,
  find, find_sound, select, map, any, all, if◌then◌else◌, contains, is_some, any-latest_first,
  Outcome, ok, http_error, arith, Bool-cases, Option-cases, inl, inr,
}
use edtech_back.Model.{User, Lesson, LessonAssignment, Db, Settings, is_super_admin, is_teacher}
use edtech_back.LessonAccess.{LessonAccess, is_available}
use edtech_back.LessonAccess.Tracks.{is_assigned, section_access_at, passes}
use edtech_back.Lessons.{
  LessonOut, same_school, is_school_admin, visible_teacher_ids, is_visible, to_out, list_lessons,
  get_lesson,
}

-- the teachers whose assignments an account may be shown
pub discloses : Db → User → ℕ → Bool
discloses db current id =
    is_super_admin current.role
    || (if is_school_admin current.role
        then any (λ u. u.id == id && same_school u.school_id current.school_id) db.users
        else current.id == id)

abbrev pub is_ok : Outcome LessonOut → Bool
is_ok (ok o) = true
is_ok (http_error code) = false

module _ {A : Type 0} {B : Type 0} where
  all-map-every :
      (q : B → Bool) (f : A → B)
      → ((a : A) → q (f a) ≡ true)
      → (xs : List A) → all q (map f xs) ≡ true
  unfolding all
  all-map-every q f h [] = refl
  all-map-every q f h (x ∷ xs) = ground (arith, h x, all-map-every q f h xs)

contains-map :
    (p : User → Bool) (id : ℕ) (us : List User)
    → contains id (map (λ u. u.id) (select p us)) ≡ any (λ u. u.id == id && p u) us
unfolding contains select any
contains-map p id [] = refl
contains-map p id (u ∷ us) = ground (arith, contains-map p id us)

module _ (db : Db) (current : User) where
  is_visible-discloses :
      (id : ℕ)
      → is_visible (visible_teacher_ids db current) id ≡ true
      → discloses db current id ≡ true
  unfolding visible_teacher_ids discloses contains
  is_visible-discloses id h =
      let there = contains-map (λ u. same_school u.school_id current.school_id) id db.users in
      elim (Bool-cases (is_super_admin current.role)) [
        | inl root ↦ rw root refl
        | inr limited ↦ elim (Bool-cases (is_school_admin current.role)) [
          | inl admin ↦ rw (limited, admin) (sym there ∙ ground arith)
          | inr teacher ↦ rw (limited, teacher) (ground arith)
        ]
      ]

  shown-discloses :
      (l : Lesson) (xs : List LessonAssignment)
      → all (discloses db current) (
          map
            (λ a. a.teacher_id)
            (select
              (λ a. a.lesson_id == l.id && is_visible (visible_teacher_ids db current) a.teacher_id)
              xs))
        ≡ true
  unfolding all select
  shown-discloses l [] = refl
  shown-discloses l (a ∷ xs) =
      ground (arith, is_visible-discloses a.teacher_id, shown-discloses l xs)

  to_out-discloses :
      (access : Option LessonAccess) (l : Lesson)
      → all
          (discloses db current)
          (to_out db (visible_teacher_ids db current) access l).assigned_teacher_ids
        ≡ true
  unfolding to_out
  to_out-discloses access l = shown-discloses l db.assignments

  -- Every teacher whose assignment is shown in a list of lessons is one the account may be shown:
  -- anybody for a super-admin, somebody of their own school for a school-admin, and nobody but
  -- themselves for a teacher.
  pub list_lessons-discloses :
      (settings : Settings) (now : ℕ) (section : Option Text)
      → all
          (λ o. all (discloses db current) o.assigned_teacher_ids)
          (list_lessons settings now db current section)
        ≡ true
  unfolding list_lessons
  list_lessons-discloses settings now section =
      let visible = visible_teacher_ids db current in
      elim (Bool-cases (is_teacher current.role)) [
        | inl teacher ↦ rw teacher (
            all-map-every _ _
              (λ l. to_out-discloses (section_access_at settings now db current section l.id) l) _)
        | inr other ↦ elim (Bool-cases (is_school_admin current.role)) [
          | inl admin ↦ rw (other, admin) (all-map-every _ _ (to_out-discloses none) _)
          | inr root ↦ rw (other, root) (all-map-every _ _ (to_out-discloses none) _)
        ]
      ]

  any-map :
      (q : LessonOut → Bool) (f : Lesson → LessonOut) (xs : List Lesson)
      → any q (map f xs) ≡ any (λ l. q (f l)) xs
  unfolding any
  any-map q f [] = refl
  any-map q f (x ∷ xs) = ground (arith, any-map q f xs)

  module _ (settings : Settings) (now : ℕ) (section : Option Text) (id : ℕ) where
    opens : ℕ → Bool
    opens i = passes is_available (section_access_at settings now db current section i)

    any-opens :
        (ls : List Lesson)
        → any
            (λ l. l.id == id && opens l.id)
            (select (λ l. is_assigned db.assignments current.id l.id) ls)
          ≡ (is_some (find (λ l. l.id == id) ls)
              && (is_assigned db.assignments current.id id && opens id))
    unfolding any select find
    any-opens [] = refl
    any-opens (l ∷ ls) = ground (arith, any-opens ls)

    get_lesson-opens :
        is_teacher current.role ≡ true
        → is_ok (get_lesson settings now db current section id) ≡ (
            is_some (find (λ l. l.id == id) db.lessons)
            && (is_assigned db.assignments current.id id && opens id))
    unfolding get_lesson opens
    get_lesson-opens teacher = elim (Option-cases (find (λ l. l.id == id) db.lessons)) [
      | inl missing ↦ rw (missing, is_ok) refl
      | inr (lesson, e) ↦
          let same : lesson.id ≡ id = ground (arith, find_sound (λ l. l.id == id) db.lessons e) in
          rw (e, is_ok, teacher, same)
            (elim (Bool-cases (is_assigned db.assignments current.id id)) [
              | inr never ↦ rw (never, is_ok) refl
              | inl assigned ↦
                  elim (Bool-cases
                    (passes is_available (section_access_at settings now db current section id))) [
                      | inr shut ↦ rw (assigned, shut, is_ok) refl
                      | inl free ↦ rw (assigned, free, is_ok) refl
                    ]
            ])
    ]

    -- A teacher is given a lesson that she asks for exactly if her list shows it as available.
    pub get_lesson-list_lessons :
        is_teacher current.role ≡ true
        → is_ok (get_lesson settings now db current section id)
          ≡ any
              (λ o. o.lesson.id == id && passes is_available o.access)
              (list_lessons settings now db current section)
    unfolding list_lessons to_out opens
    get_lesson-list_lessons teacher =
        get_lesson-opens teacher
        ∙ sym (rw (teacher, any-map, any-latest_first) (any-opens db.lessons))
