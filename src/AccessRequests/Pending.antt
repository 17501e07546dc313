-- ===== src/AccessRequests/Pending.antt =====
-- `create_request` of app/routers/access_requests.py, and the pending requests of one teacher for
-- one lesson and class. Two requests at the same time are outside the model.
use edtech_back.Base.{
  ℕ, ◌≤◌, ◌≡◌, refl, Option, none, some, List, [], ◌∷◌, ◌++◌, Text, text_eq_iff, ◌==◌, find,
  count_where, count-update_where, count-append_one, count_where-find-none, arith, Bool-cases,
  Option-cases, inl, inr,
}
use edtech_back.Model.{User, AccessRequest, Db, Settings}
use edtech_back.Permissions.{Capability, user_can}
use edtech_back.Sections.{resolve_section}
use edtech_back.LessonAccess.Tracks.{is_assigned, is_lesson_available}
use edtech_back.AccessRequests.{RequestCreate, is_pending_for, noted, file_request, create_request}

-- at most one pending request for each key
abbrev pub HasOnePending : List AccessRequest → Type 0
HasOnePending rs = (t l : ℕ) (s : Text) → count_where (is_pending_for t l s) rs ≤ 1

noted-is_pending_for :
    (note : Option Text) (t l : ℕ) (s : Text) (r : AccessRequest)
    → is_pending_for t l s (noted note r) ≡ is_pending_for t l s r
noted-is_pending_for none t l s r = refl
noted-is_pending_for (some []) t l s r = refl
noted-is_pending_for (some (c ∷ cs)) t l s r = refl

-- a pending request is added where there was none
append-HasOnePending :
    (rs : List AccessRequest) (r : AccessRequest)
    → HasOnePending rs
    → find (is_pending_for r.teacher_id r.lesson_id r.section) rs ≡ none
    → HasOnePending (rs ++ r ∷ [])
append-HasOnePending rs r h n t l s = elim (Bool-cases (is_pending_for t l s r)) [
  | inr other ↦ rw (count-append_one (is_pending_for t l s) rs r, other) (omega (arith, h t l s))
  | inl same ↦
      let zero_there =
        count_where-find-none (is_pending_for r.teacher_id r.lesson_id r.section) rs n in
      let e : r.teacher_id ≡ t = ground arith in
      let f : r.lesson_id ≡ l = ground arith in
      let g : r.section ≡ s = ground (arith, text_eq_iff r.section s) in
      rw (count-append_one (is_pending_for t l s) rs r, same)
        (rw (← e, ← f, ← g) (omega (arith, zero_there)))
]

file_request-HasOnePending :
    (db : Db) (t : ℕ) (payload : RequestCreate) (s : Text)
    → HasOnePending db.requests
    → HasOnePending (file_request db t payload s).1.requests
unfolding file_request
file_request-HasOnePending db t payload s h =
    elim (Option-cases (find (is_pending_for t payload.lesson_id s) db.requests)) [
      | inl e ↦ rw (e, file_request) (append-HasOnePending db.requests _ h e)
      | inr (existing, e) ↦
          rw (e, file_request)
            (λ u l v.
              rw
                (count-update_where (is_pending_for u l v) (λ r. r.id == existing.id)
                  (noted payload.note) (noted-is_pending_for payload.note u l v) db.requests)
                (h u l v))
    ]

-- What holds of a database, and of one with the request filed, holds after `create_request`.
pub create_request-keeps :
    (P : Db → Type 0) (settings : Settings) (now : ℕ) (db : Db) (current : User)
    (payload : RequestCreate)
    → P db
    → ((s : Text) → P (file_request db current.id payload s).1)
    → P (create_request settings now db current payload).1
unfolding create_request
create_request-keeps P settings now db current payload h filed =
    elim (Bool-cases (user_can current Capability.view_assigned_lessons)) [
      | inr no_right ↦ rw no_right h
      | inl right ↦
          rw right (elim (Option-cases (find (λ l. l.id == payload.lesson_id) db.lessons)) [
            | inl e ↦ rw e h
            | inr (lesson, e) ↦
                rw e (elim (Bool-cases (is_assigned db.assignments current.id payload.lesson_id)) [
                  | inr no_lesson ↦ rw no_lesson h
                  | inl mine ↦
                      rw mine
                        (elim (Option-cases
                          (resolve_section current lesson.grade payload.section)) [
                            | inl no_class ↦ rw no_class h
                            | inr (s, r) ↦
                                rw r
                                  (elim (Bool-cases (
                                    is_lesson_available settings now db current payload.lesson_id
                                      (some s))) [
                                        | inl open_now ↦ rw open_now h
                                        | inr shut ↦ rw shut (filed s)
                                      ])
                          ])
                ])
          ])
    ]

-- Where there is at most one pending request for each teacher, lesson and class, asking once for a
-- lesson, with no other request in between, keeps it so.
pub create_request-HasOnePending :
    (settings : Settings) (now : ℕ) (db : Db) (current : User) (payload : RequestCreate)
    → HasOnePending db.requests
    → HasOnePending (create_request settings now db current payload).1.requests
create_request-HasOnePending settings now db current payload h =
    create_request-keeps (λ d. HasOnePending d.requests) settings now db current payload h
      (λ s. file_request-HasOnePending db current.id payload s h)
