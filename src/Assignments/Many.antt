-- ===== src/Assignments/Many.antt =====
-- The edit of many lessons at once, and its preview. A teacher of both sets is refused.
use edtech_back.Base.{
  ℕ, ◌+◌, Bool, false, not, ◌&&◌, ◌||◌, List, [], ◌∷◌, ◌++◌, Text, text_eq, text_lt, ◌==◌, select,
  map, any, all, if◌then◌else◌, nonempty, length, ltb, contains, distinct, Outcome, ok, http_error,
}
use edtech_back.Model.{User, Lesson, LessonAssignment, Progress, Db, is_not_started}
use edtech_back.Permissions.{Capability, user_can}
use edtech_back.LessonAccess.Tracks.{is_assigned}
use edtech_back.Assignments.{is_in_school, add_teachers, remove_teachers}

-- `BulkAssignment`
pub record BulkAssignment : Type 0 where
  pub school_id : ℕ
  pub lesson_ids : List ℕ
  pub add_teacher_ids : List ℕ
  pub remove_teacher_ids : List ℕ

-- `MAX_BULK_LESSONS`
abbrev pub max_bulk_lessons : ℕ
max_bulk_lessons = 500

-- what `_resolve_bulk` returns
pub record Resolved : Type 0 where
  pub lessons : List Lesson
  pub add : List ℕ
  pub remove : List ℕ

-- `_resolve_bulk`
unfoldable pub resolve_bulk : Db → BulkAssignment → Outcome Resolved
resolve_bulk db payload =
    let lesson_ids = distinct payload.lesson_ids in
    let add = distinct payload.add_teacher_ids in
    let remove = distinct payload.remove_teacher_ids in
    let lessons = select (λ l. contains l.id lesson_ids) db.lessons in
    if not (nonempty lesson_ids)
    then http_error 400
    else if ltb max_bulk_lessons (length lesson_ids)
    then http_error 400
    else if any (λ t. contains t remove) add
    then http_error 400
    else if not (nonempty add) && not (nonempty remove)
    then http_error 400
    else if not (all (is_in_school db payload.school_id) (add ++ remove))
    then http_error 400
    else if not (nonempty lessons)
    then http_error 404
    else ok (record { lessons = lessons; add = add; remove = remove })

-- `add - assigned`
unfoldable pub new_for : List LessonAssignment → List ℕ → Lesson → List ℕ
new_for before add lesson = select (λ t. not (is_assigned before t lesson.id)) add

-- `remove & assigned`
unfoldable pub gone_for : List LessonAssignment → List ℕ → Lesson → List ℕ
gone_for before remove lesson = select (λ t. is_assigned before t lesson.id) remove

-- the counts of an edit, with the lessons that it touches
pub record Counts : Type 0 where
  pub touched : List ℕ
  pub added : ℕ
  pub removed : ℕ

abbrev pub no_counts : Counts
no_counts = record { touched = []; added = 0; removed = 0 }

unfoldable pub touch : List ℕ → List ℕ → Lesson → Counts → Counts
touch new gone lesson c = record {
  touched = if nonempty new || nonempty gone then c.touched ++ lesson.id ∷ [] else c.touched;
  added = c.added + length new;
  removed = c.removed + length gone;
}

-- `remove_pairs`
unfoldable pub remove_pairs : List LessonAssignment → List ℕ → List Lesson → List (ℕ × ℕ)
remove_pairs before remove [] = []
remove_pairs before remove (l ∷ ls) =
    map (λ t. (l.id, t)) (gone_for before remove l) ++ remove_pairs before remove ls

-- the loop of the preview
unfoldable pub count_edits : List LessonAssignment → List ℕ → List ℕ → List Lesson → Counts → Counts
count_edits before add remove [] c = c
count_edits before add remove (l ∷ ls) c =
    count_edits before add remove ls (touch (new_for before add l) (gone_for before remove l) l c)

-- `(row.lesson_id, row.teacher_id) in pairs`
unfoldable pub has_pair : List (ℕ × ℕ) → Progress → Bool
has_pair [] p = false
has_pair ((l, t) ∷ pairs) p = (p.lesson_id == l && p.teacher_id == t) || has_pair pairs p

-- a set of names in their order: `sorted(set(names))`
unfoldable pub add_name : Text → List Text → List Text
add_name n [] = n ∷ []
add_name n (m ∷ ms) =
    if text_eq n m then m ∷ ms else if text_lt n m then n ∷ m ∷ ms else m ∷ add_name n ms

unfoldable pub sorted_names : List Text → List Text
sorted_names [] = []
sorted_names (n ∷ ns) = add_name n (sorted_names ns)

-- `BulkAssignmentPreview`
pub record BulkPreview : Type 0 where
  pub lessons : ℕ
  pub adds : ℕ
  pub removes : ℕ
  pub progress_lost : ℕ
  pub teachers_losing_progress : List Text

unfoldable pub preview_of : Db → Resolved → BulkPreview
preview_of db r =
    let counts = count_edits db.assignments r.add r.remove r.lessons no_counts in
    let pairs = remove_pairs db.assignments r.remove r.lessons in
    let started = select (λ p. not (is_not_started p.status) && has_pair pairs p) db.progress in
    let losing = map (λ p. p.teacher_id) started in
    record {
      lessons = length (distinct counts.touched);
      adds = counts.added;
      removes = counts.removed;
      progress_lost = length started;
      teachers_losing_progress =
          sorted_names (map (λ u. u.name) (select (λ u. contains u.id losing) db.users));
    }

unfoldable pub preview_bulk_assignments : Db → User → BulkAssignment → Outcome BulkPreview
preview_bulk_assignments db current payload =
    if not (user_can current Capability.assign_files)
    then http_error 403
    else elim (resolve_bulk db payload) [
      | http_error code ↦ http_error code
      | ok r ↦ ok (preview_of db r)
    ]

-- one round of the loop over the lessons
unfoldable pub edit_lesson :
    List LessonAssignment → List User → List ℕ → List ℕ → Lesson → Db × Counts → Db × Counts
edit_lesson before teachers add remove l (db, c) =
    let gone = gone_for before remove l in
    let added = add_teachers teachers l (new_for before add l) db in
    (
      if nonempty gone then remove_teachers l.id gone added else added,
      touch (new_for before add l) gone l c,
    )

unfoldable pub edit_lessons :
    List LessonAssignment → List User → List ℕ → List ℕ → List Lesson → Db × Counts → Db × Counts
edit_lessons before teachers add remove [] acc = acc
edit_lessons before teachers add remove (l ∷ ls) acc =
    edit_lessons before teachers add remove ls (edit_lesson before teachers add remove l acc)

-- `BulkAssignmentResult`, without the lessons that are shown again
pub record BulkResult : Type 0 where
  pub lessons_touched : ℕ
  pub assignments_added : ℕ
  pub assignments_removed : ℕ

unfoldable pub bulk_of : Db → Resolved → BulkResult × Db
bulk_of db r =
    let teachers = select (λ u. contains u.id r.add) db.users in
    let edited = edit_lessons db.assignments teachers r.add r.remove r.lessons (db, no_counts) in
    (
      record {
        lessons_touched = length (distinct edited.1.touched);
        assignments_added = edited.1.added;
        assignments_removed = edited.1.removed;
      },
      edited.0,
    )

unfoldable pub bulk_assignments : Db → User → BulkAssignment → Outcome BulkResult × Db
bulk_assignments db current payload =
    if not (user_can current Capability.assign_files)
    then (http_error 403, db)
    else elim (resolve_bulk db payload) [
      | http_error code ↦ (http_error code, db)
      | ok r ↦ (ok (bulk_of db r).0, (bulk_of db r).1)
    ]
