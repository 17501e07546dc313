-- ===== src/ProgressRoute/Kept.antt =====
-- `update_progress` of app/routers/progress.py in any sequence of reports, and a completed row that
-- was not reopened.
use edtech_back.Base.{
  ℕ, ◌≡◌, ◌∙◌, refl, sym, Bool, true, false, ◌&&◌, Option, some, List, [], ◌∷◌, Text, text_eq,
  text_eq_iff, contains_text, find, find_sound, find-update_where_any, find-append_some,
  Outcome-cases, ◌==◌, ==_iff, is_some, arith, Bool-cases, Option-cases, inl, inr,
}
use mathlib.Core.Path.{subst}
use edtech_back.Model.{User, Role, Lesson, Progress, Db, Settings, LessonStatus}
use edtech_back.Permissions.{Capability, can, user_can}
use edtech_back.Sections.{has_key, find_progress, resolve_section, sections_for}
use edtech_back.Sections.Resolve.{resolve_section-contains}
use edtech_back.LessonAccess.Tracks.{is_assigned}
use edtech_back.LessonAccess.Grouping.{IsTracked, completed-get_access_status}
use edtech_back.ProgressRoute.{
  ProgressUpdate, already, proceed, guard_write_access, slide_total_of, sync_slide_count,
  resolve_percent, record_row, with_row, edit_row, write_progress, update_section, update_progress,
}
use edtech_back.ProgressRoute.Sound.{Guarded-cases, returned_row-db}

-- the keys of two reports
abbrev is_same_key : ℕ → ℕ → Text → ℕ → ℕ → Text → Bool
is_same_key t l s t' l' s' = t == t' && l == l' && text_eq s s'

has_key-apart :
    (t l : ℕ) (s : Text) (t' l' : ℕ) (s' : Text) (p : Progress)
    → is_same_key t l s t' l' s' ≡ false
    → has_key t l s p ≡ true
    → has_key t' l' s' p ≡ false
has_key-apart t l s t' l' s' p apart here = elim (Bool-cases (has_key t' l' s' p)) [
  | inr away ↦ away
  | inl there ↦
      let one : p.section ≡ s = (text_eq_iff p.section s).0 (ground arith) in
      let two : p.section ≡ s' = (text_eq_iff p.section s').0 (ground arith) in
      let same : text_eq s s' ≡ true = (text_eq_iff s s').1 (sym one ∙ two) in absurd (ground arith)
]

find_progress-with_row_kept :
    (t l : ℕ) (s : Text) (t' l' : ℕ) (s' : Text) (db : Db) {p : Progress}
    → find_progress db.progress t l s ≡ some p
    → find_progress (with_row t' l' s' db).progress t l s ≡ some p
unfolding with_row
find_progress-with_row_kept t l s t' l' s' db row =
    elim (Bool-cases (is_some (find_progress db.progress t' l' s'))) [
      | inl there ↦ rw there row
      | inr absent ↦
          rw absent (unfold find_progress in find-append_some (has_key t l s) db.progress _ row)
    ]

-- A report on one key leaves the row of another as it is.
write_progress-apart :
    (payload : ProgressUpdate) (total percent now : ℕ) (t l : ℕ) (s : Text) (t' l' : ℕ) (s' : Text)
    (db : Db) (p : Progress)
    → is_same_key t l s t' l' s' ≡ false
    → find_progress db.progress t l s ≡ some p
    → find_progress (write_progress payload total percent now t' l' s' db).progress t l s ≡ some p
unfolding write_progress edit_row find_progress
write_progress-apart payload total percent now t l s t' l' s' db p apart row =
    let before = with_row t' l' s' (sync_slide_count payload l' db) in
    let there : find_progress before.progress t l s ≡ some p =
      find_progress-with_row_kept t l s t' l' s' (sync_slide_count payload l' db)
        (unfold sync_slide_count in row) in
    find-update_where_any (has_key t l s) (has_key t' l' s') (record_row payload total percent now)
      (λ q. unfold record_row in refl) before.progress
    ∙ rw there (
        rw (has_key-apart t l s t' l' s' p apart (find_sound (has_key t l s) before.progress there))
          refl)

module _ (percent_of : ℕ → ℕ → ℕ) (settings : Settings) (now : ℕ) (db : Db) (current : User)
    (p : Progress) (t l : ℕ) (s : Text) (row : find_progress db.progress t l s ≡ some p)
    (done : p.status ≡ LessonStatus.completed) (shut : p.unlocked_override ≡ false) where
  guard-completed :
      (lesson : Lesson)
      → IsTracked db current lesson s p
      → guard_write_access settings now db current lesson.id s ≡ already p
  unfolding guard_write_access
  guard-completed lesson tracked = ground (
    arith,
    tracked.row,
    completed-get_access_status settings now db current lesson s p tracked done shut,
  )

  update_section-kept :
      (lesson : Lesson) (payload : ProgressUpdate) (section : Text)
      → (is_same_key t l s current.id lesson.id section ≡ true
          → IsTracked db current lesson s p × (section ≡ s))
      → find_progress
          (update_section percent_of settings now db current lesson payload section).1.progress
          t
          l
          s
        ≡ some p
  unfolding update_section
  update_section-kept lesson payload section tracked =
      elim (Guarded-cases (guard_write_access settings now db current lesson.id section)) [
        | inl e ↦ rw (e, update_section) row
        | inr (inl (q, e)) ↦ rw (e, update_section) row
        | inr (inr e) ↦ elim (Bool-cases (is_same_key t l s current.id lesson.id section)) [
          | inl same ↦ absurd (stuck lesson section (tracked same) e)
          | inr apart ↦
              elim (Outcome-cases
                (resolve_percent percent_of payload (slide_total_of payload lesson))) [
                  | inl (code, r) ↦ rw (e, update_section) (rw r row)
                  | inr (percent, r) ↦
                      rw (e, update_section, r)
                        (rw (returned_row-db _ current.id lesson.id section) (
                          write_progress-apart payload (slide_total_of payload lesson) percent now t
                            l s current.id lesson.id section db p apart row))
                ]
        ]
      ]
    where
      stuck :
          (lesson : Lesson) (section : Text)
          → IsTracked db current lesson s p × (section ≡ s)
          → guard_write_access settings now db current lesson.id section ≡ proceed
          → ⊥
      stuck lesson section h e =
          let one : guard_write_access settings now db current lesson.id s ≡ proceed =
            subst (λ x. guard_write_access settings now db current lesson.id x ≡ proceed) h.1 e in
          let two = guard-completed lesson h.0 in cc

  viewer_is_teacher :
      (u : User) → user_can u Capability.view_assigned_lessons ≡ true → u.role ≡ Role.teacher
  unfolding user_can can
  viewer_is_teacher u h = ground arith

  report-IsTracked :
      (lesson : Lesson) (lesson_id : ℕ) (requested : Option Text) (section : Text)
      → user_can current Capability.view_assigned_lessons ≡ true
      → find (λ m. m.id == lesson_id) db.lessons ≡ some lesson
      → is_assigned db.assignments current.id lesson_id ≡ true
      → resolve_section current lesson.grade requested ≡ some section
      → is_same_key t l s current.id lesson.id section ≡ true
      → IsTracked db current lesson s p × (section ≡ s)
  report-IsTracked lesson lesson_id requested section right known mine resolved same =
      let this : lesson.id ≡ lesson_id =
        (==_iff lesson.id lesson_id).0 (find_sound (λ m. m.id == lesson_id) db.lessons known) in
      let me : t ≡ current.id = ground arith in
      let it : l ≡ lesson.id = ground arith in
      let named : s ≡ section = (text_eq_iff s section).0 (ground arith) in
      let contained = resolve_section-contains current lesson.grade requested section resolved in
      (
        record {
          by_teacher = viewer_is_teacher current right;
          known = subst (λ i. find (λ m. m.id == i) db.lessons ≡ some lesson) (sym this) known;
          assigned = subst (λ i. is_assigned db.assignments current.id i ≡ true) (sym this) mine;
          taken =
              subst (λ x. contains_text x (sections_for current lesson.grade) ≡ true) (sym named)
                contained;
          row =
              subst (λ i. find_progress db.progress i lesson.id s ≡ some p) me
                (subst (λ i. find_progress db.progress t i s ≡ some p) it row);
        },
        sym named,
      )

  -- the row of a completed lesson, after any report
  pub update_progress-kept :
      (lesson_id : ℕ) (payload : ProgressUpdate)
      → find_progress
          (update_progress percent_of settings now db current lesson_id payload).1.progress
          t
          l
          s
        ≡ some p
  unfolding update_progress
  update_progress-kept lesson_id payload =
      elim (Bool-cases (user_can current Capability.view_assigned_lessons)) [
        | inr no_right ↦ rw no_right row
        | inl right ↦ rw right (elim (Option-cases (find (λ m. m.id == lesson_id) db.lessons)) [
          | inl e ↦ rw e row
          | inr (lesson, e) ↦
              rw e (elim (Bool-cases (is_assigned db.assignments current.id lesson_id)) [
                | inr no_lesson ↦ rw no_lesson row
                | inl mine ↦
                    rw mine
                      (elim (Option-cases (resolve_section current lesson.grade payload.section)) [
                        | inl no_class ↦ rw no_class row
                        | inr (section, r) ↦ rw r (
                            update_section-kept lesson payload section (
                              report-IsTracked lesson lesson_id payload.section section right e mine
                                r))
                      ])
              ])
        ])
      ]

-- a report, by whom and when
pub record Report : Type 0 where
  pub now : ℕ
  pub current : User
  pub lesson_id : ℕ
  pub payload : ProgressUpdate

unfoldable pub run_reports : (ℕ → ℕ → ℕ) → Settings → List Report → Db → Db
run_reports percent_of settings [] db = db
run_reports percent_of settings (r ∷ rs) db =
    run_reports percent_of settings rs
      (update_progress percent_of settings r.now db r.current r.lesson_id r.payload).1

-- A row that is completed and not reopened is found as it is after any number of reports, by any
-- users, at any moments: no report changes it, whether it is on that lesson and class or another.
pub run_reports-kept :
    (percent_of : ℕ → ℕ → ℕ) (settings : Settings) (rs : List Report) (db : Db) (p : Progress)
    (t l : ℕ) (s : Text)
    → find_progress db.progress t l s ≡ some p
    → p.status ≡ LessonStatus.completed
    → p.unlocked_override ≡ false
    → find_progress (run_reports percent_of settings rs db).progress t l s ≡ some p
unfolding run_reports
run_reports-kept percent_of settings [] db p t l s row done shut = row
run_reports-kept percent_of settings (r ∷ rs) db p t l s row done shut =
    run_reports-kept percent_of settings rs _ p t l s
      (update_progress-kept percent_of settings r.now db r.current p t l s row done shut r.lesson_id
        r.payload)
      done shut
