-- ===== src/Workflow/Requests.antt =====
-- What a renaming of classes, requests and overrides do to the soundness of the rows of progress.
use edtech_back.Base.{
  ℕ, ◌≡◌, refl, Bool, true, false, not, ◌&&◌, ◌||◌, Option, ℤ, Text, text_eq, nonempty, find, All,
  update_where-All, if◌then◌else◌, Bool-cases, inl, inr, Option-cases, ◌==◌,
}
use edtech_back.Model.{User, Db, Settings, is_teacher, is_super_admin}
use edtech_back.Sections.{resolve_section}
use edtech_back.Sections.Rename.{moves, move_rows, rename_section_at}
use edtech_back.Sections.Moves.{rename_section_at-HasUniqueKeys}
use edtech_back.ProgressRoute.Record.{IsWellFormed, IsSound}
use edtech_back.LessonAccess.Tracks.{is_assigned}
use edtech_back.Workflow.Assigned.{IsSound-progress}
use edtech_back.AccessRequests.{
  RequestCreate, is_pending_for, file_request, create_request, set_override, grant_pending,
  set_lesson_override,
}
use edtech_back.AccessRequests.Grant.{set_override-IsSound}
use edtech_back.AccessRequests.Pending.{create_request-keeps}

rename_section_at-All :
    (db : Db) (t : ℕ) (grade : ℤ) (old new : Text)
    → All IsWellFormed db.progress
    → All IsWellFormed (rename_section_at db t grade old new).0.progress
unfolding rename_section_at move_rows
rename_section_at-All db t grade old new h =
    elim (Bool-cases (text_eq old new || (not (nonempty old) && not (nonempty new)))) [
      | inl same ↦ rw same h
      | inr other ↦ rw other (
          update_where-All IsWellFormed
            (λ r. moves db t grade old new r.teacher_id r.lesson_id r.section)
            (λ r. record r { section = new })
            (λ p w. record {
              bounded = w.bounded;
              finished = w.finished;
              stamped = w.stamped;
              untouched = w.untouched;
            })
            db.progress h)
    ]

pub rename_section_at-IsSound :
    (db : Db) (t : ℕ) (grade : ℤ) (old new : Text)
    → IsSound db
    → IsSound (rename_section_at db t grade old new).0
rename_section_at-IsSound db t grade old new h = record {
  unique = rename_section_at-HasUniqueKeys db t grade old new h.unique;
  shaped = rename_section_at-All db t grade old new h.shaped;
}

file_request-progress :
    (db : Db) (t : ℕ) (payload : RequestCreate) (s : Text)
    → (file_request db t payload s).1.progress ≡ db.progress
unfolding file_request
file_request-progress db t payload s =
    elim (Option-cases (find (is_pending_for t payload.lesson_id s) db.requests)) [
      | inl e ↦ rw (e, file_request) refl
      | inr (existing, e) ↦ rw (e, file_request) refl
    ]

pub create_request-IsSound :
    (settings : Settings) (now : ℕ) (db : Db) (current : User) (payload : RequestCreate)
    → IsSound db
    → IsSound (create_request settings now db current payload).1
create_request-IsSound settings now db current payload h =
    create_request-keeps IsSound settings now db current payload h
      (λ s. IsSound-progress _ db (file_request-progress db current.id payload s) h)

granted-IsSound :
    (now admin_id t l : ℕ) (s : Text) (unlocked : Bool) (db : Db)
    → IsSound db
    → IsSound (if unlocked then grant_pending now admin_id t l s db else db)
unfolding grant_pending
granted-IsSound now admin_id t l s true db h = record { unique = h.unique; shaped = h.shaped }
granted-IsSound now admin_id t l s false db h = h

pub set_lesson_override-IsSound :
    (now : ℕ) (db : Db) (t l : ℕ) (requested : Option Text) (unlocked : Bool) (admin : User)
    → IsSound db
    → IsSound (set_lesson_override now db t l requested unlocked admin).1
unfolding set_lesson_override
set_lesson_override-IsSound now db t l requested unlocked admin h =
    elim (Bool-cases (is_super_admin admin.role)) [
      | inr other ↦ rw other h
      | inl super ↦ rw super (elim (Option-cases (find (λ u. u.id == t) db.users)) [
        | inl e ↦ rw e h
        | inr (teacher, e) ↦
            rw e
              (elim (Bool-cases
                (not (is_teacher teacher.role) || not (is_assigned db.assignments t l))) [
                  | inl out ↦ rw out h
                  | inr held ↦ rw held (elim (Option-cases (find (λ m. m.id == l) db.lessons)) [
                    | inl k ↦ rw k h
                    | inr (lesson, k) ↦
                        rw k (elim (Option-cases (resolve_section teacher lesson.grade requested)) [
                          | inl no_class ↦ rw no_class h
                          | inr (s, r) ↦ rw r (
                              granted-IsSound now admin.id t l s unlocked
                                (set_override t l s unlocked db)
                                (set_override-IsSound t l s unlocked db h))
                        ])
                  ])
                ])
      ])
    ]
