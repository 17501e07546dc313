-- ===== src/ProgressRoute/Sound.antt =====
-- `update_progress` of app/routers/progress.py, and the shape of the rows of progress.
use edtech_back.Base.{
  ℕ, ◌≡◌, ◌≤◌, refl, not, Option, none, some, Text, find, Outcome, ok, http_error, ◌==◌,
  if◌then◌else◌, arith, Bool-cases, inl, inr, ◌⊎◌,
}
use edtech_back.Model.{User, Lesson, Progress, Db, Settings}
use edtech_back.Permissions.{Capability, user_can}
use edtech_back.Sections.{resolve_section}
use edtech_back.LessonAccess.Tracks.{is_assigned}
use edtech_back.ProgressRoute.{
  ProgressUpdate, Guarded, refused, already, proceed, guard_write_access, slide_total_of,
  sync_slide_count, resolve_percent, record_row, write_progress, update_section, update_progress,
  returned_row,
}
use edtech_back.ProgressRoute.Record.{
  IsSound, with_row-IsSound, edit_row-IsSound, record_row-IsWellFormed, resolve_percent_bounds,
}

Outcome-cases :
    {A : Type 0} (o : Outcome A) → ((a : A) × (o ≡ ok a)) ⊎ ((code : ℕ) × (o ≡ http_error code))
Outcome-cases (ok a) = inl (a, refl)
Outcome-cases (http_error code) = inr (code, refl)

pub Guarded-cases :
    (g : Guarded) → (g ≡ refused) ⊎ (((p : Progress) × (g ≡ already p)) ⊎ (g ≡ proceed))
Guarded-cases refused = inl refl
Guarded-cases (already p) = inr (inl (p, refl))
Guarded-cases proceed = inr (inr refl)

write_progress-IsSound :
    (payload : ProgressUpdate) (total percent now t l : ℕ) (s : Text) (db : Db)
    → percent ≤ 100
    → IsSound db
    → IsSound (write_progress payload total percent now t l s db)
unfolding write_progress sync_slide_count
write_progress-IsSound payload total percent now t l s db b h =
    edit_row-IsSound t l s (record_row payload total percent now)
      (λ p. unfold record_row in (refl, refl, refl))
      (λ p w. record_row-IsWellFormed payload total percent now p b) _
      (with_row-IsSound t l s _ (record { unique = h.unique; shaped = h.shaped }))

pub returned_row-db : (db : Db) (t l : ℕ) (s : Text) → (returned_row db t l s).1 ≡ db
returned_row-db db t l s = ground arith

module _ (percent_of : ℕ → ℕ → ℕ) (settings : Settings) (now : ℕ) (db : Db) (current : User)
    (sound : IsSound db) where
  update_section-IsSound :
      (lesson : Lesson) (payload : ProgressUpdate) (section : Text)
      → IsSound (update_section percent_of settings now db current lesson payload section).1
  unfolding update_section
  update_section-IsSound lesson payload section =
      elim (Guarded-cases (guard_write_access settings now db current lesson.id section)) [
        | inl e ↦ rw (e, update_section) sound
        | inr (inl (p, e)) ↦ rw (e, update_section) sound
        | inr (inr e) ↦
            elim (Outcome-cases
              (resolve_percent percent_of payload (slide_total_of payload lesson))) [
                | inl (percent, r) ↦
                    rw (e, update_section, r)
                      (rw (returned_row-db _ current.id lesson.id section) (
                        write_progress-IsSound payload (slide_total_of payload lesson) percent now
                          current.id lesson.id section db
                          (resolve_percent_bounds percent_of payload (slide_total_of payload lesson)
                            r).0
                          sound))
                | inr (code, r) ↦ rw (e, update_section) (rw r sound)
              ]
      ]

  -- Whatever a teacher reports, the rows of progress stay sound: unique for a teacher, a lesson and
  -- a class, with a percentage of at most 100 that is 100 exactly where the status is completed,
  -- and a completion time exactly there.
  pub update_progress-IsSound :
      (lesson_id : ℕ) (payload : ProgressUpdate)
      → IsSound (update_progress percent_of settings now db current lesson_id payload).1
  unfolding update_progress
  update_progress-IsSound lesson_id payload =
      elim (Bool-cases (user_can current Capability.view_assigned_lessons)) [
        | inr no_right ↦ rw no_right sound
        | inl right ↦ rw right (found (find (λ l. l.id == lesson_id) db.lessons))
      ]
    where
      resolved :
          (lesson : Lesson) (o : Option Text)
          → IsSound
              (elim o as (λ _. Outcome Progress × Db) [
                | none ↦ (http_error 400, db)
                | some section ↦
                    update_section percent_of settings now db current lesson payload section
              ]).1
      resolved lesson none = sound
      resolved lesson (some section) = update_section-IsSound lesson payload section

      found :
          (o : Option Lesson)
          → IsSound
              (elim o as (λ _. Outcome Progress × Db) [
                | none ↦ (http_error 404, db)
                | some lesson ↦
                    if not (is_assigned db.assignments current.id lesson_id)
                    then (http_error 403, db)
                    else elim (resolve_section current lesson.grade payload.section) [
                      | none ↦ (http_error 400, db)
                      | some section ↦
                          update_section percent_of settings now db current lesson payload section
                    ]
              ]).1
      found none = sound
      found (some lesson) = elim (Bool-cases (is_assigned db.assignments current.id lesson_id)) [
        | inr no_lesson ↦ rw no_lesson sound
        | inl mine ↦
            rw mine (resolved lesson (resolve_section current lesson.grade payload.section))
      ]
