-- ===== src/Assignments/Preview.antt =====
-- `preview_bulk_assignments` and `bulk_assignments` of app/routers/lessons.py, side by side.
use edtech_back.Base.{
  ℕ, ◌≡◌, ◌∙◌, ◌+◌, refl, Bool, false, not, ◌&&◌, ◌||◌, Option, some, List, [], ◌∷◌, ◌++◌, Text,
  ◌==◌, select, map, find, delete_where, count_where, count-select, count-append_one, contains,
  nonempty, ok, Outcome-cases, arith, Bool-cases, inl, inr, is_some, none,
}
use edtech_back.Model.{User, Lesson, LessonAssignment, Progress, Db, LessonStatus, is_not_started}
use edtech_back.Permissions.{Capability, user_can}
use edtech_back.Sections.{find_progress, sections_for, new_progress}
use edtech_back.Sections.Ensure.{
  ensure_row, ensure_sections, ensure_from, ensure_progress_rows, ensure_progress_for_lessons,
  assigned_progress,
}
use edtech_back.Assignments.{seed_rows, add_assignment, add_teachers, remove_teachers, manual_note}
use edtech_back.Assignments.Bulk.{contains-empty}
use edtech_back.Assignments.Many.{
  BulkAssignment, resolve_bulk, new_for, gone_for, Counts, no_counts, remove_pairs, count_edits,
  has_pair, BulkPreview, preview_of, preview_bulk_assignments, edit_lesson, edit_lessons, bulk_of,
  bulk_assignments,
}

abbrev pub has_begun : Progress → Bool
has_begun p = not (is_not_started p.status)

count_where-same :
    (p q : Progress → Bool)
    → ((a : Progress) → p a ≡ q a)
    → (xs : List Progress) → count_where p xs ≡ count_where q xs
unfolding count_where
count_where-same p q same [] = refl
count_where-same p q same (x ∷ xs) = ground (arith, same x, count_where-same p q same xs)

count_where-delete_where :
    (q m : Progress → Bool) (xs : List Progress)
    → count_where q (delete_where m xs) ≡ count_where (λ p. q p && not (m p)) xs
unfolding count_where delete_where
count_where-delete_where q m [] = refl
count_where-delete_where q m (x ∷ xs) = ground (arith, count_where-delete_where q m xs)

count_where-split :
    (q m : Progress → Bool) (xs : List Progress)
    → count_where (λ p. q p && not (m p)) xs + count_where (λ p. q p && m p) xs ≡ count_where q xs
unfolding count_where
count_where-split q m [] = refl
count_where-split q m (x ∷ xs) = ground (arith, count_where-split q m xs)

has_pair-map :
    (l : ℕ) (gone : List ℕ) (pairs : List (ℕ × ℕ)) (p : Progress)
    → has_pair (map (λ t. (l, t)) gone ++ pairs) p
      ≡ ((p.lesson_id == l && contains p.teacher_id gone) || has_pair pairs p)
unfolding has_pair contains
has_pair-map l [] pairs p = ground arith
has_pair-map l (t ∷ ts) pairs p = ground (arith, has_pair-map l ts pairs p)

-- A test that no row passes which has not been started counts the same after rows are added.
module _ (q : Progress → Bool)
    (off : (p : Progress) → p.status ≡ LessonStatus.not_started → q p ≡ false) where
  ensure_row-count :
      (t l : ℕ) (message : Option Text) (s : Text) (acc : Db × ℕ)
      → count_where q (ensure_row t l message s acc).0.progress ≡ count_where q acc.0.progress
  unfolding ensure_row assigned_progress new_progress
  ensure_row-count t l message s (db, created) =
      let fresh = off (assigned_progress db.next_id t l s message) refl in
      elim (Bool-cases (is_some (find_progress db.progress t l s))) [
        | inl there ↦ rw there refl
        | inr absent ↦
            rw
              (
                absent,
                count-append_one q db.progress (assigned_progress db.next_id t l s message),
                fresh,
              )
              (omega arith)
      ]

  ensure_sections-count :
      (t l : ℕ) (message : Option Text) (ss : List Text) (acc : Db × ℕ)
      → count_where q (ensure_sections t l message ss acc).0.progress ≡ count_where q acc.0.progress
  unfolding ensure_sections
  ensure_sections-count t l message [] acc = refl
  ensure_sections-count t l message (s ∷ ss) acc =
      ensure_sections-count t l message ss (ensure_row t l message s acc)
      ∙ ensure_row-count t l message s acc

  seed_rows-count :
      (teacher : Option User) (lesson : Lesson) (db : Db)
      → count_where q (seed_rows teacher lesson db).progress ≡ count_where q db.progress
  unfolding seed_rows ensure_progress_rows ensure_progress_for_lessons ensure_from
  seed_rows-count none lesson db = refl
  seed_rows-count (some teacher) lesson db =
      ensure_sections-count teacher.id lesson.id manual_note (sections_for teacher lesson.grade)
        (db, 0)

  add_teachers-count :
      (teachers : List User) (lesson : Lesson) (ts : List ℕ) (db : Db)
      → count_where q (add_teachers teachers lesson ts db).progress ≡ count_where q db.progress
  unfolding add_teachers add_assignment
  add_teachers-count teachers lesson [] db = refl
  add_teachers-count teachers lesson (t ∷ ts) db =
      add_teachers-count teachers lesson ts _
      ∙ seed_rows-count (find (λ u. u.id == t) teachers) lesson (add_assignment t lesson db)

module _ (before : List LessonAssignment) (teachers : List User) (add remove : List ℕ) where
  -- The loop counts as the preview does.
  edit_lessons-counts :
      (ls : List Lesson) (acc : Db × Counts)
      → (edit_lessons before teachers add remove ls acc).1 ≡ count_edits before add remove ls acc.1
  unfolding edit_lessons count_edits edit_lesson
  edit_lessons-counts [] acc = refl
  edit_lessons-counts (l ∷ ls) acc =
      edit_lessons-counts ls (edit_lesson before teachers add remove l acc)

  edit_lesson-progress :
      (q : Progress → Bool)
      → ((p : Progress) → p.status ≡ LessonStatus.not_started → q p ≡ false)
      → (l : Lesson) (acc : Db × Counts)
      → count_where q (edit_lesson before teachers add remove l acc).0.progress
        ≡ count_where
            (λ p.
              q p && not (p.lesson_id == l.id && contains p.teacher_id (gone_for before remove l)))
            acc.0.progress
  unfolding edit_lesson remove_teachers contains
  edit_lesson-progress q off l (db, c) =
      let gone = gone_for before remove l in
      let added = add_teachers teachers l (new_for before add l) db in
      let m : Progress → Bool = λ p. p.lesson_id == l.id && contains p.teacher_id gone in
      elim (Bool-cases (nonempty gone)) [
        | inl some_go ↦ rw some_go (
            count_where-delete_where q m added.progress
            ∙ add_teachers-count (λ p. q p && not (m p))
                (λ p fresh. let o = off p fresh in ground arith) teachers l (new_for before add l)
                db)
        | inr none_go ↦ rw none_go (
            add_teachers-count q off teachers l (new_for before add l) db
            ∙ count_where-same _ _
                (λ p. let e = contains-empty p.teacher_id gone none_go in ground arith) db.progress)
      ]

  edit_lessons-progress :
      (q : Progress → Bool)
      → ((p : Progress) → p.status ≡ LessonStatus.not_started → q p ≡ false)
      → (ls : List Lesson) (acc : Db × Counts)
      → count_where q (edit_lessons before teachers add remove ls acc).0.progress
        ≡ count_where (λ p. q p && not (has_pair (remove_pairs before remove ls) p)) acc.0.progress
  unfolding edit_lessons remove_pairs has_pair
  edit_lessons-progress q off [] acc = count_where-same _ _ (λ p. ground arith) acc.0.progress
  edit_lessons-progress q off (l ∷ ls) acc =
      let pairs = remove_pairs before remove ls in
      let gone = gone_for before remove l in
      edit_lessons-progress q off ls (edit_lesson before teachers add remove l acc)
      ∙ edit_lesson-progress (λ p. q p && not (has_pair pairs p))
          (λ p fresh. let o = off p fresh in ground arith) l acc
      ∙ count_where-same _ _ (λ p. let h = has_pair-map l.id gone pairs p in ground arith)
          acc.0.progress

-- When the preview of the edit of many lessons is answered, the edit with the same request is
-- accepted and answers the preview's counts of lessons, additions and removals, and the started
-- rows of progress that are left are those there were, less the number that the preview gave as
-- lost.
pub preview_bulk_assignments-agrees :
    (db : Db) (current : User) (payload : BulkAssignment) (p : BulkPreview)
    → preview_bulk_assignments db current payload ≡ ok p
    → let out = bulk_assignments db current payload in
      (out.0
        ≡ ok (record {
          lessons_touched = p.lessons;
          assignments_added = p.adds;
          assignments_removed = p.removes;
        }))
      × (count_where has_begun out.1.progress + p.progress_lost ≡ count_where has_begun db.progress)
unfolding preview_bulk_assignments bulk_assignments bulk_of preview_of
preview_bulk_assignments-agrees db current payload p h =
    elim (Bool-cases (user_can current Capability.assign_files)) [
      | inr refused ↦ absurd (ground arith)
      | inl able ↦ elim (Outcome-cases (resolve_bulk db payload)) [
        | inl (code, e) ↦ absurd (ground arith)
        | inr (r, e) ↦
            let before = db.assignments in
            let teachers = select (λ u. contains u.id r.add) db.users in
            let pairs = remove_pairs before r.remove r.lessons in
            let counts =
              edit_lessons-counts before teachers r.add r.remove r.lessons (db, no_counts) in
            let left =
              edit_lessons-progress before teachers r.add r.remove has_begun
                (λ q fresh. rw fresh refl) r.lessons (db, no_counts) in
            let lost = count-select (λ q. has_begun q && has_pair pairs q) db.progress in
            let split = count_where-split has_begun (has_pair pairs) db.progress in
            let shown : p ≡ preview_of db r = ground arith in
            rw (able, e, shown) (rw counts refl, rw (left, lost) split)
      ]
    ]
