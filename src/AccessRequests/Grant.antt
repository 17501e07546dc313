-- ===== src/AccessRequests/Grant.antt =====
-- `answer_request` of app/routers/access_requests.py, followed to what `is_lesson_available`
-- answers afterwards.
use edtech_back.Base.{
  ℕ, ◌≡◌, refl, Bool, true, some, Text, contains_text, ◌==◌, find, arith, Bool-cases, Option-cases,
  inl, inr,
}
use edtech_back.Model.{
  User, Lesson, Progress, AccessRequest, Db, Settings, Role, is_pending, is_super_admin,
}
use edtech_back.Sections.{sections_for}
use edtech_back.LessonAccess.Tracks.{is_assigned, is_lesson_available}
use edtech_back.LessonAccess.Grouping.{IsTracked, overridden-is_lesson_available}
use edtech_back.ProgressRoute.{with_row, edit_row}
use edtech_back.ProgressRoute.Record.{IsSound, with_row-IsSound, edit_row-IsSound}
use edtech_back.ProgressRoute.Completed.{
  find_progress-with_row, find_progress-edit_row, with_row-keeps,
}
use edtech_back.AccessRequests.{set_override, resolve_request, resolve_found, answer_request}

abbrev opened_row : Bool → Progress → Progress
opened_row b p = record p { unlocked_override = b }

pub set_override-IsSound :
    (t l : ℕ) (s : Text) (b : Bool) (db : Db) → IsSound db → IsSound (set_override t l s b db)
unfolding set_override
set_override-IsSound t l s b db h =
    edit_row-IsSound t l s (opened_row b) (λ p. (refl, refl, refl)) (λ p w. ground arith) _
      (with_row-IsSound t l s db h)

-- What is needed of a teacher, a lesson and a class for an override to count.
pub record IsTaken (db : Db) (teacher : User) (l : Lesson) (section : Text) : Type 0 where
  pub by_teacher : teacher.role ≡ Role.teacher
  pub known : find (λ m. m.id == l.id) db.lessons ≡ some l
  pub assigned : is_assigned db.assignments teacher.id l.id ≡ true
  pub taken : contains_text section (sections_for teacher l.grade) ≡ true

module _ (settings : Settings) (db : Db) (teacher : User) (l : Lesson) (section : Text)
    (h : IsTaken db teacher l section) where
  set_override-IsTracked :
      (p : Progress) × IsTracked (set_override teacher.id l.id section true db) teacher l section p
      × (p.unlocked_override ≡ true)
  unfolding set_override edit_row
  set_override-IsTracked =
      let (q, e) = find_progress-with_row teacher.id l.id section db in
      let keeps = with_row-keeps teacher.id l.id section db in
      (
        opened_row true q,
        record {
          by_teacher = h.by_teacher;
          known = rw (keeps.0) h.known;
          assigned = rw (keeps.1) h.assigned;
          taken = h.taken;
          row =
              find_progress-edit_row teacher.id l.id section (opened_row true)
                (with_row teacher.id l.id section db) (λ r k. k) e;
        },
        refl,
      )

  -- An override that is set on a lesson opens it to the class at every later time.
  pub set_override-is_lesson_available :
      (later : ℕ)
      → is_lesson_available settings later
          (set_override teacher.id l.id section true db)
          teacher
          l.id
          (some section)
        ≡ true
  set_override-is_lesson_available later =
      let (p, tracked, o) = set_override-IsTracked in
      overridden-is_lesson_available settings later _ teacher l section p tracked o

module _ (now : ℕ) (db : Db) (id : ℕ) (admin : User) (granted : Bool) (h : IsSound db) where
  resolve_found-IsSound :
      (req : AccessRequest) → IsSound (resolve_found now db id admin granted req).1
  unfolding resolve_found
  resolve_found-IsSound req =
      let w = set_override-IsSound req.teacher_id req.lesson_id req.section true db h in
      elim (Bool-cases (is_pending req.status)) [
        | inr resolved ↦ rw resolved h
        | inl waiting ↦ elim (Bool-cases granted) [
          | inl yes_ ↦ rw (waiting, yes_) (record { unique = w.unique; shaped = w.shaped })
          | inr no_ ↦ rw (waiting, no_) (record { unique = h.unique; shaped = h.shaped })
        ]
      ]

  -- Whatever the answer to a request is, the rows of progress stay sound.
  pub answer_request-IsSound : IsSound (answer_request now db id admin granted).1
  unfolding answer_request resolve_request
  answer_request-IsSound = elim (Bool-cases (is_super_admin admin.role)) [
    | inr other ↦ rw other h
    | inl super ↦ rw super (elim (Option-cases (find (λ r. r.id == id) db.requests)) [
      | inl e ↦ rw (e, resolve_request) h
      | inr (req, e) ↦ rw (e, resolve_request) (resolve_found-IsSound req)
    ])
  ]
