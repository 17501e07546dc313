-- ===== src/Assignments/Bulk.antt =====
-- What the edit of many lessons does to the assignments, and what its preview says of it.
use edtech_back.Base.{
  ℕ, ◌≡◌, ◌∙◌, refl, true, false, not, ◌&&◌, ◌||◌, List, [], ◌∷◌, ◌==◌, select, any, if◌then◌else◌,
  contains, contains-select, distinct, nonempty, ok, Outcome-cases, contains-distinct, arith,
  Bool-cases, inl, inr,
}
use edtech_back.Model.{User, Lesson, LessonAssignment, Db}
use edtech_back.Permissions.{Capability, user_can}
use edtech_back.LessonAccess.Tracks.{is_assigned}
use edtech_back.LessonAccess.Order.{has_lesson}
use edtech_back.Assignments.{add_teachers}
use edtech_back.Assignments.Exact.{add_teachers-is_assigned, remove_teachers-is_assigned}
use edtech_back.Assignments.Many.{
  BulkAssignment, Resolved, resolve_bulk, new_for, gone_for, Counts, no_counts, BulkResult,
  edit_lesson, edit_lessons, bulk_of, bulk_assignments,
}

pub contains-empty : (t : ℕ) (xs : List ℕ) → nonempty xs ≡ false → contains t xs ≡ false
unfolding contains
contains-empty t [] h = refl
contains-empty t (x ∷ xs) h = cc

module _ (before : List LessonAssignment) (teachers : List User) (add remove : List ℕ) where
  edit_lesson-is_assigned :
      (m : Lesson) (acc : Db × Counts) (t l : ℕ)
      → is_assigned (edit_lesson before teachers add remove m acc).0.assignments t l ≡ (
          (is_assigned acc.0.assignments t l || (m.id == l && contains t (new_for before add m)))
          && not (m.id == l && contains t (gone_for before remove m)))
  unfolding edit_lesson
  edit_lesson-is_assigned m (db, c) t l =
      let added = add_teachers teachers m (new_for before add m) db in
      let grown = add_teachers-is_assigned teachers m (new_for before add m) db t l in
      let shrunk = remove_teachers-is_assigned m.id (gone_for before remove m) added t l in
      elim (Bool-cases (nonempty (gone_for before remove m))) [
        | inl some_go ↦ rw some_go (shrunk ∙ rw grown refl)
        | inr none_go ↦
            rw none_go
              (grown ∙ rw (contains-empty t (gone_for before remove m) none_go) (ground arith))
      ]

  -- A pair is assigned after the loop if it was before or is new, and does not go.
  edit_lessons-is_assigned :
      (ls : List Lesson) (acc : Db × Counts) (t l : ℕ)
      → is_assigned (edit_lessons before teachers add remove ls acc).0.assignments t l ≡ (
          (is_assigned acc.0.assignments t l
            || (has_lesson l ls && (contains t add && not (is_assigned before t l))))
          && not (has_lesson l ls && (contains t remove && is_assigned before t l)))
  unfolding edit_lessons has_lesson new_for gone_for
  edit_lessons-is_assigned [] acc t l = ground arith
  edit_lessons-is_assigned (m ∷ ms) acc t l =
      edit_lessons-is_assigned ms (edit_lesson before teachers add remove m acc) t l
      ∙ rw
          (
            edit_lesson-is_assigned m acc t l,
            contains-select (λ i. not (is_assigned before i m.id)) t add,
            contains-select (λ i. is_assigned before i m.id) t remove,
          )
          (ground arith)

disjoint :
    (remove : List ℕ) (t : ℕ) (add : List ℕ)
    → any (λ i. contains i remove) add ≡ false
    → (contains t add && contains t remove) ≡ false
unfolding any contains
disjoint remove t [] h = refl
disjoint remove t (x ∷ xs) h = ground (arith, disjoint remove t xs)

resolve_bulk-disjoint :
    (db : Db) (payload : BulkAssignment) (r : Resolved) (t : ℕ)
    → resolve_bulk db payload ≡ ok r
    → (contains t r.add && contains t r.remove) ≡ false
unfolding resolve_bulk
resolve_bulk-disjoint db payload r t h =
    let add = distinct payload.add_teacher_ids in
    let remove = distinct payload.remove_teacher_ids in
    elim (Bool-cases (any (λ i. contains i remove) add)) [
      | inl both ↦ absurd (ground arith)
      | inr apart ↦
          let sides : (r.add ≡ add) × (r.remove ≡ remove) = ground arith in
          rw (sides.0, sides.1, disjoint remove t add apart) refl
    ]

has_lesson-select :
    (ids : List ℕ) (l : ℕ) (ls : List Lesson)
    → has_lesson l (select (λ m. contains m.id ids) ls) ≡ (contains l ids && has_lesson l ls)
unfolding has_lesson select
has_lesson-select ids l [] = ground arith
has_lesson-select ids l (m ∷ ms) = elim (Bool-cases (m.id == l)) [
  | inl same ↦
      let e : m.id ≡ l = ground arith in
      let f : contains m.id ids ≡ contains l ids = rw e refl in
      ground (arith, has_lesson-select ids l ms)
  | inr other ↦ ground (arith, has_lesson-select ids l ms)
]

has_lesson-any : (l : ℕ) (ls : List Lesson) → has_lesson l ls ≡ any (λ m. m.id == l) ls
unfolding has_lesson any
has_lesson-any l [] = refl
has_lesson-any l (m ∷ ms) = ground (arith, has_lesson-any l ms)

-- what an accepted request resolves to, in terms of the payload
resolve_bulk-payload :
    (db : Db) (payload : BulkAssignment) (r : Resolved)
    → resolve_bulk db payload ≡ ok r
    → r ≡ record {
      lessons = select (λ m. contains m.id (distinct payload.lesson_ids)) db.lessons;
      add = distinct payload.add_teacher_ids;
      remove = distinct payload.remove_teacher_ids;
    }
unfolding resolve_bulk
resolve_bulk-payload db payload r h = ground arith

resolved_assignments :
    (db : Db) (current : User) (payload : BulkAssignment) (r : Resolved) (t l : ℕ)
    → user_can current Capability.assign_files ≡ true
    → resolve_bulk db payload ≡ ok r
    → is_assigned (bulk_assignments db current payload).1.assignments t l ≡ (
        if has_lesson l r.lessons
        then contains t r.add || (is_assigned db.assignments t l && not (contains t r.remove))
        else is_assigned db.assignments t l)
unfolding bulk_assignments bulk_of
resolved_assignments db current payload r t l able h =
    let teachers = select (λ u. contains u.id r.add) db.users in
    let apart = resolve_bulk-disjoint db payload r t h in
    rw
      (
        able,
        h,
        edit_lessons-is_assigned db.assignments teachers r.add r.remove r.lessons (db, no_counts) t
            l,
      )
      (ground arith)

-- When the edit of many lessons is accepted, each lesson that the request names, and that is there,
-- is held afterwards by the teachers that the request names to be added and by those who held it and
-- are not named to be removed, and every other lesson is held as before.
pub bulk_assignments-exact :
    (db : Db) (current : User) (payload : BulkAssignment) (b : BulkResult) (t l : ℕ)
    → (bulk_assignments db current payload).0 ≡ ok b
    → is_assigned (bulk_assignments db current payload).1.assignments t l ≡ (
        if contains l payload.lesson_ids && any (λ m. m.id == l) db.lessons
        then contains t payload.add_teacher_ids
          || (is_assigned db.assignments t l && not (contains t payload.remove_teacher_ids))
        else is_assigned db.assignments t l)
unfolding bulk_assignments
bulk_assignments-exact db current payload b t l h =
    elim (Bool-cases (user_can current Capability.assign_files)) [
      | inr unable ↦ absurd (ground arith)
      | inl able ↦ elim (Outcome-cases (resolve_bulk db payload)) [
        | inl (code, e) ↦ absurd (ground arith)
        | inr (r, e) ↦
            let shape = resolve_bulk-payload db payload r e in
            let result = resolved_assignments db current payload r t l able e in
            let named = has_lesson-select (distinct payload.lesson_ids) l db.lessons in
            rw
              (
                result,
                shape,
                named,
                has_lesson-any l db.lessons,
                contains-distinct l payload.lesson_ids,
                contains-distinct t payload.add_teacher_ids,
                contains-distinct t payload.remove_teacher_ids,
              )
              refl
      ]
    ]
