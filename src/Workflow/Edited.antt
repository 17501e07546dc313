-- ===== src/Workflow/Edited.antt =====
-- What the edits of lessons and of their assignments do to the soundness of the rows of progress.
use edtech_back.Base.{
  ℕ, ◌≡◌, refl, not, ◌&&◌, ◌||◌, Option, none, some, List, [], ◌∷◌, Text, codes, ◌++◌, ◌==◌, find,
  select, delete_where, contains, distinct, all, nonempty, is_some, map, Outcome, ok, http_error,
  Outcome-cases, arith, Bool, Bool-cases, Option-cases, inl, inr,
}
use edtech_back.Model.{
  User, Lesson, LessonAssignment, Progress, Db, is_super_admin, is_teacher, is_active,
}
use edtech_back.Sections.Ensure.{ensure_progress_rows}
use edtech_back.ProgressRoute.Record.{IsWellFormed, IsSound}
use edtech_back.ProgressReset.{reset_progress}
use edtech_back.ProgressReset.Laws.{reset_progress-IsSound}
use edtech_back.Auth.Tokens.{Origin, record_event}
use edtech_back.Assignments.{
  seed_rows, add_assignment, add_teachers, remove_teachers, set_teachers, unassign, assign_teacher,
  replace_assignments, unassign_teacher, manual_note, is_in_school,
}
use edtech_back.Assignments.Many.{
  BulkAssignment, resolve_bulk, Counts, no_counts, edit_lesson, edit_lessons, bulk_of,
  bulk_assignments, new_for, gone_for,
}
use edtech_back.Lessons.{
  create_lesson, drop_lesson, delete_lesson, reset_teacher_progress, names_lesson, names_class,
  same_school,
}
use edtech_back.FairAccess.{refuse_fair_backed}
use edtech_back.Permissions.{Capability, user_can}
use edtech_back.LessonAccess.Tracks.{is_assigned}
use edtech_back.Lessons.Edits.{LessonEdit, run_edit, forget}
use edtech_back.Workflow.Assigned.{
  IsSound-progress, delete-HasUniqueKeys, delete-All, ensure_progress_for_lessons-IsSound,
}
use edtech_back.Workflow.Requests.{set_lesson_override-IsSound}

-- Deleting rows keeps the others sound.
deleted-IsSound :
    (db db' : Db) (m : Progress → Bool)
    → db'.progress ≡ delete_where m db.progress
    → IsSound db
    → IsSound db'
deleted-IsSound db db' m same h = record {
  unique = rw same (delete-HasUniqueKeys m db.progress h.unique);
  shaped = rw same (delete-All IsWellFormed m db.progress h.shaped);
}

seed_rows-IsSound :
    (teacher : Option User) (lesson : Lesson) (db : Db)
    → IsSound db
    → IsSound (seed_rows teacher lesson db)
unfolding seed_rows ensure_progress_rows
seed_rows-IsSound none lesson db h = h
seed_rows-IsSound (some teacher) lesson db h =
    ensure_progress_for_lessons-IsSound db teacher (lesson ∷ []) manual_note h

add_assignment-IsSound :
    (t : ℕ) (lesson : Lesson) (db : Db) → IsSound db → IsSound (add_assignment t lesson db)
add_assignment-IsSound t lesson db h =
    IsSound-progress (add_assignment t lesson db) db (unfold add_assignment in refl) h

add_teachers-IsSound :
    (teachers : List User) (lesson : Lesson) (ts : List ℕ) (db : Db)
    → IsSound db
    → IsSound (add_teachers teachers lesson ts db)
unfolding add_teachers
add_teachers-IsSound teachers lesson [] db h = h
add_teachers-IsSound teachers lesson (t ∷ ts) db h =
    add_teachers-IsSound teachers lesson ts _
      (seed_rows-IsSound _ lesson _ (add_assignment-IsSound t lesson db h))

remove_teachers-IsSound :
    (l : ℕ) (gone : List ℕ) (db : Db) → IsSound db → IsSound (remove_teachers l gone db)
remove_teachers-IsSound l gone db h =
    deleted-IsSound db (remove_teachers l gone db)
      (λ p. p.lesson_id == l && contains p.teacher_id gone) (unfold remove_teachers in refl) h

edit_lesson-IsSound :
    (before : List LessonAssignment) (teachers : List User) (add remove : List ℕ) (l : Lesson)
    (acc : Db × Counts)
    → IsSound acc.0
    → IsSound (edit_lesson before teachers add remove l acc).0
unfolding edit_lesson
edit_lesson-IsSound before teachers add remove l (db, c) h =
    let added = add_teachers-IsSound teachers l (new_for before add l) db h in
    elim (Bool-cases (nonempty (gone_for before remove l))) [
      | inl some_go ↦ rw some_go (remove_teachers-IsSound l.id _ _ added)
      | inr none_go ↦ rw none_go added
    ]

edit_lessons-IsSound :
    (before : List LessonAssignment) (teachers : List User) (add remove : List ℕ) (ls : List Lesson)
    (acc : Db × Counts)
    → IsSound acc.0
    → IsSound (edit_lessons before teachers add remove ls acc).0
unfolding edit_lessons
edit_lessons-IsSound before teachers add remove [] acc h = h
edit_lessons-IsSound before teachers add remove (l ∷ ls) acc h =
    edit_lessons-IsSound before teachers add remove ls _
      (edit_lesson-IsSound before teachers add remove l acc h)

reset_teacher_progress-IsSound :
    (now : ℕ) (origin : Origin) (db : Db) (admin : User) (t : ℕ) (l : Option ℕ) (s : Option Text)
    → IsSound db
    → IsSound (reset_teacher_progress now origin db admin t l s).1
unfolding reset_teacher_progress record_event
reset_teacher_progress-IsSound now origin db admin t l s h =
    elim (Bool-cases (is_super_admin admin.role)) [
      | inr other ↦ rw other h
      | inl root ↦ elim (Option-cases (find (λ u. u.id == t) db.users)) [
        | inl missing ↦ rw (root, missing) h
        | inr (teacher, e) ↦
            elim (Bool-cases (not (is_teacher teacher.role) || not (names_lesson db l))) [
              | inl absent ↦ rw (root, e, absent) h
              | inr there ↦ elim (Bool-cases (names_class db teacher l s)) [
                | inr unknown ↦ rw (root, e, there, unknown) h
                | inl known ↦
                    rw (root, e, there, known)
                      (let note = codes "Reset by " ++ admin.name in
                        IsSound-progress _ (reset_progress db teacher l s note).1 refl
                          (reset_progress-IsSound db teacher l s note h))
              ]
            ]
      ]
    ]

module _ (db : Db) (user : User) (h : IsSound db) where
  assign_teacher-IsSound : (l t : ℕ) → IsSound (assign_teacher db user l t).1
  unfolding assign_teacher
  assign_teacher-IsSound l t = elim (Bool-cases (user_can user Capability.assign_files)) [
    | inr unable ↦ rw unable h
    | inl able ↦ elim (Option-cases (find (λ m. m.id == l) db.lessons)) [
      | inl missing ↦ rw (able, missing) h
      | inr (lesson, e) ↦ elim (Option-cases (find (λ u. u.id == t) db.users)) [
        | inl unknown ↦ rw (able, e, unknown) h
        | inr (teacher, known) ↦
            elim (Bool-cases (not (is_teacher teacher.role) || not (is_active teacher.status))) [
              | inl unfit ↦ rw (able, e, known, unfit) h
              | inr fit ↦ elim (Bool-cases (is_assigned db.assignments t lesson.id)) [
                | inl already ↦ rw (able, e, known, fit, already) h
                | inr new ↦
                    rw (able, e, known, fit, new)
                      (seed_rows-IsSound (some teacher) lesson _
                        (add_assignment-IsSound t lesson db h))
              ]
            ]
      ]
    ]
  ]

  replace_assignments-IsSound :
      (l school_id : ℕ) (ts : List ℕ) → IsSound (replace_assignments db user l school_id ts).1
  unfolding replace_assignments set_teachers
  replace_assignments-IsSound l school_id ts =
      elim (Bool-cases (user_can user Capability.assign_files)) [
        | inr unable ↦ rw unable h
        | inl able ↦ elim (Option-cases (find (λ m. m.id == l) db.lessons)) [
          | inl missing ↦ rw (able, missing) h
          | inr (lesson, e) ↦ elim (Bool-cases (all (is_in_school db school_id) (distinct ts))) [
            | inr unknown ↦ rw (able, e, unknown) h
            | inl known ↦
                rw (able, e, known)
                  (remove_teachers-IsSound lesson.id _ _ (add_teachers-IsSound _ lesson _ db h))
          ]
        ]
      ]

  unassign_teacher-IsSound : (l t : ℕ) → IsSound (unassign_teacher db user l t).1
  unfolding unassign_teacher
  unassign_teacher-IsSound l t = elim (Bool-cases (user_can user Capability.assign_files)) [
    | inr unable ↦ rw unable h
    | inl able ↦ elim (Option-cases (find (λ m. m.id == l) db.lessons)) [
      | inl missing ↦ rw (able, missing) h
      | inr (lesson, e) ↦
          rw (able, e)
            (deleted-IsSound db (unassign l t db) (λ p. p.lesson_id == l && p.teacher_id == t)
              (unfold unassign in refl) h)
    ]
  ]

  bulk_assignments-IsSound :
      (payload : BulkAssignment) → IsSound (bulk_assignments db user payload).1
  unfolding bulk_assignments bulk_of
  bulk_assignments-IsSound payload = elim (Bool-cases (user_can user Capability.assign_files)) [
    | inr unable ↦ rw unable h
    | inl able ↦ elim (Outcome-cases (resolve_bulk db payload)) [
      | inl (code, e) ↦ rw (able, e) h
      | inr (r, e) ↦
          rw (able, e)
            (edit_lessons-IsSound db.assignments _ r.add r.remove r.lessons (db, no_counts) h)
    ]
  ]

  delete_lesson-IsSound : (l : ℕ) → IsSound (delete_lesson db user l).1
  unfolding delete_lesson
  delete_lesson-IsSound l =
      let doomed = select (λ f. same_school f.linked_lesson_id (some l)) db.files in
      elim (Bool-cases (
        user_can user Capability.upload_files
        && is_some (find (λ m. m.id == l) db.lessons)
        && refuse_fair_backed db (map (λ f. f.id) doomed))) [
          | inr no_way ↦
              IsSound-progress (delete_lesson db user l).1 db (unfold delete_lesson in ground arith)
                h
          | inl able ↦
              deleted-IsSound db (delete_lesson db user l).1 (λ p. p.lesson_id == l)
                (unfold delete_lesson drop_lesson in ground arith) h
        ]

-- An answer that is forgotten leaves the database.
forget-db : {A : Type 0} (out : Outcome A × Db) → (forget out).1 ≡ out.1
forget-db (ok a, db) = refl
forget-db (http_error code, db) = refl

module _ (now : ℕ) (origin : Origin) (db : Db) (user : User) (h : IsSound db) where
  pub run_edit-IsSound : (e : LessonEdit) → IsSound (run_edit now origin db user e).1
  unfolding run_edit
  run_edit-IsSound (LessonEdit.create_edit payload) = rw forget-db (
      IsSound-progress (create_lesson db user payload).1 db (unfold create_lesson in ground arith)
        h)
  run_edit-IsSound (LessonEdit.delete_edit id) = delete_lesson-IsSound db user h id
  run_edit-IsSound (LessonEdit.assign_edit l t) =
      rw forget-db (assign_teacher-IsSound db user h l t)
  run_edit-IsSound (LessonEdit.unassign_edit l t) =
      rw forget-db (unassign_teacher-IsSound db user h l t)
  run_edit-IsSound (LessonEdit.replace_edit l s ts) =
      rw forget-db (replace_assignments-IsSound db user h l s ts)
  run_edit-IsSound (LessonEdit.bulk_edit payload) =
      rw forget-db (bulk_assignments-IsSound db user h payload)
  run_edit-IsSound (LessonEdit.override_edit t l section unlocked) =
      set_lesson_override-IsSound now db t l section unlocked user h
  run_edit-IsSound (LessonEdit.reset_edit t l section) =
      rw forget-db (reset_teacher_progress-IsSound now origin db user t l section h)
