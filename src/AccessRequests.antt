-- ===== src/AccessRequests.antt =====
-- app/routers/access_requests.py, and the override endpoint of app/routers/lessons.py: a teacher
-- asks for a lesson, and a super-admin opens it. The notification email is left out.
use edtech_back.Base.{
  ℕ, ◌+◌, Bool, true, false, not, ◌&&◌, ◌||◌, Option, none, some, List, [], ◌∷◌, ◌++◌, Text,
  text_eq, nonempty, ◌==◌, find, update_where, if◌then◌else◌, Outcome, ok, http_error,
}
use edtech_back.Model.{
  User, Lesson, Progress, AccessRequest, Db, Settings, RequestStatus, is_pending, is_super_admin,
  is_teacher,
}
use edtech_back.Permissions.{Capability, user_can}
use edtech_back.Sections.{resolve_section}
use edtech_back.LessonAccess.Tracks.{is_assigned, is_lesson_available}
use edtech_back.ProgressRoute.{with_row, edit_row}
pub mod Grant
pub mod Pending

-- `AccessRequestCreate`
pub record RequestCreate : Type 0 where
  pub lesson_id : ℕ
  pub section : Option Text
  pub note : Option Text

-- a pending request of the teacher for the lesson and the class
abbrev pub is_pending_for : ℕ → ℕ → Text → AccessRequest → Bool
is_pending_for teacher_id lesson_id section r =
    r.teacher_id == teacher_id
    && r.lesson_id == lesson_id
    && text_eq r.section section
    && is_pending r.status

-- `if payload.note: existing.note = payload.note`
abbrev pub noted : Option Text → AccessRequest → AccessRequest
noted none r = r
noted (some []) r = r
noted (some (c ∷ s)) r = record r { note = some (c ∷ s) }

-- the existing request, or a new one
unfoldable pub file_request : Db → ℕ → RequestCreate → Text → Outcome AccessRequest × Db
file_request db teacher_id payload section =
    let fresh : AccessRequest = record {
      id = db.next_id;
      teacher_id = teacher_id;
      lesson_id = payload.lesson_id;
      section = section;
      status = RequestStatus.pending;
      note = payload.note;
      resolved_by = none;
      resolved_at = none;
    } in
    elim (find (is_pending_for teacher_id payload.lesson_id section) db.requests) [
      | some existing ↦ (
        ok (noted payload.note existing),
        record db {
          requests = update_where (λ r. r.id == existing.id) (noted payload.note) db.requests;
        },
      )
      | none ↦
          (ok fresh, record db { requests = db.requests ++ fresh ∷ []; next_id = db.next_id + 1 })
    ]

unfoldable pub create_request :
    Settings → ℕ → Db → User → RequestCreate → Outcome AccessRequest × Db
create_request settings now db current payload =
    if not (user_can current Capability.view_assigned_lessons)
    then (http_error 403, db)
    else elim (find (λ l. l.id == payload.lesson_id) db.lessons) [
      | none ↦ (http_error 404, db)
      | some lesson ↦
          if not (is_assigned db.assignments current.id payload.lesson_id)
          then (http_error 403, db)
          else elim (resolve_section current lesson.grade payload.section) [
            | none ↦ (http_error 400, db)
            | some section ↦
                if is_lesson_available settings now db current payload.lesson_id (some section)
                then (http_error 400, db)
                else file_request db current.id payload section
          ]
    ]

-- `progress.unlocked_override = unlocked`, on the row of the key, created if it is missing
unfoldable pub set_override : ℕ → ℕ → Text → Bool → Db → Db
set_override teacher_id lesson_id section unlocked db =
    edit_row teacher_id lesson_id section (λ p. record p { unlocked_override = unlocked })
      (with_row teacher_id lesson_id section db)

abbrev pub resolution : Bool → RequestStatus
resolution true = RequestStatus.granted
resolution false = RequestStatus.denied

-- the assignments to the attributes of the request
abbrev pub resolved_request : ℕ → ℕ → Bool → AccessRequest → AccessRequest
resolved_request now admin_id granted r = record r {
  status = resolution granted;
  resolved_by = some admin_id;
  resolved_at = some now;
}

-- `_resolve` of a request that is there
unfoldable pub resolve_found : ℕ → Db → ℕ → User → Bool → AccessRequest → Outcome AccessRequest × Db
resolve_found now db request_id admin granted req =
    let opened =
      if granted then set_override req.teacher_id req.lesson_id req.section true db else db in
    if not (is_pending req.status) then (http_error 409, db) else (
      ok (resolved_request now admin.id granted req),
      record opened {
        requests =
            update_where (λ r. r.id == request_id) (resolved_request now admin.id granted)
              opened.requests;
      },
    )

-- `_resolve`
unfoldable pub resolve_request : ℕ → Db → ℕ → User → Bool → Outcome AccessRequest × Db
resolve_request now db request_id admin granted =
    elim (find (λ r. r.id == request_id) db.requests) [
      | none ↦ (http_error 404, db)
      | some req ↦ resolve_found now db request_id admin granted req
    ]

-- `grant_request`, and `deny_request`
unfoldable pub answer_request : ℕ → Db → ℕ → User → Bool → Outcome AccessRequest × Db
answer_request now db request_id admin granted =
    if not (is_super_admin admin.role)
    then (http_error 403, db)
    else resolve_request now db request_id admin granted

-- the pending requests that an override grants
unfoldable pub grant_pending : ℕ → ℕ → ℕ → ℕ → Text → Db → Db
grant_pending now admin_id teacher_id lesson_id section db = record db {
  requests =
      update_where (is_pending_for teacher_id lesson_id section)
        (resolved_request now admin_id true) db.requests;
}

-- `set_lesson_override`; the answer is the row of the page, which is left out
unfoldable pub set_lesson_override :
    ℕ → Db → ℕ → ℕ → Option Text → Bool → User → Outcome (Unit {0}) × Db
set_lesson_override now db teacher_id lesson_id requested unlocked admin =
    if not (is_super_admin admin.role)
    then (http_error 403, db)
    else elim (find (λ u. u.id == teacher_id) db.users) [
      | none ↦ (http_error 404, db)
      | some teacher ↦
          if not (is_teacher teacher.role) || not (is_assigned db.assignments teacher_id lesson_id)
          then (http_error 404, db)
          else elim (find (λ l. l.id == lesson_id) db.lessons) [
            | none ↦ (http_error 404, db)
            | some lesson ↦ elim (resolve_section teacher lesson.grade requested) [
              | none ↦ (http_error 400, db)
              | some section ↦
                  let opened = set_override teacher_id lesson_id section unlocked db in
                  (
                    ok tt,
                    if unlocked
                        then grant_pending now admin.id teacher_id lesson_id section opened
                        else opened,
                  )
            ]
          ]
    ]
