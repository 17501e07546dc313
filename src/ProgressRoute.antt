-- ===== src/ProgressRoute.antt =====
-- app/routers/progress.py: a teacher records where she stopped in a lesson, or finishes it.
use edtech_back.Base.{
  ℕ, ◌+◌, Bool, true, false, not, ◌&&◌, ◌||◌, Option, none, some, List, [], ◌∷◌, ◌++◌, Text, codes,
  show_nat, ◌==◌, leb, ltb, min, find, update_where, if◌then◌else◌, is_some, Outcome, ok,
  http_error,
}
use edtech_back.Model.{User, Lesson, Progress, Db, Settings, LessonStatus, WatchdogStatus}
use edtech_back.Permissions.{Capability, user_can}
use edtech_back.Sections.{resolve_section, find_progress, new_progress, has_key}
use edtech_back.LessonAccess.{AccessStatus}
use edtech_back.LessonAccess.Tracks.{is_assigned, get_access_status}
pub mod Record
pub mod Completed
pub mod Sound
pub mod Kept

-- `_compute_watchdog`; the due date gives no verdict
unfoldable pub compute_watchdog : ℕ → Option ℕ → WatchdogStatus × Option Text
compute_watchdog percent last_opened =
    if leb 100 percent
    then (WatchdogStatus.completed, none)
    else if not (is_some last_opened) && percent == 0
    then (WatchdogStatus.not_opened, some (codes "Not opened yet"))
    else (WatchdogStatus.on_track, some (codes "In progress — " ++ show_nat percent ++ codes "%"))

-- `ProgressUpdate`
pub record ProgressUpdate : Type 0 where
  pub slide : Option ℕ
  pub total : Option ℕ
  pub complete : Bool
  pub section : Option Text

-- what `_guard_write_access` decides
pub data Guarded : Type 0 where
  refused : Guarded
  already : Progress → Guarded
  proceed : Guarded

-- the row of a completed lesson, if it is there
abbrev pub already_or_proceed : Option Progress → Guarded
already_or_proceed none = proceed
already_or_proceed (some p) = already p

unfoldable pub guard_write_access : Settings → ℕ → Db → User → ℕ → Text → Guarded
guard_write_access settings now db teacher lesson_id section =
    elim (get_access_status settings now db teacher lesson_id (some section)) [
      | none ↦ proceed
      | some AccessStatus.locked ↦ refused
      | some AccessStatus.waiting ↦ refused
      | some AccessStatus.completed ↦
          already_or_proceed (find_progress db.progress teacher.id lesson_id section)
      | some AccessStatus.available ↦ proceed
    ]

-- `n` where it is there and not zero, else `d`: `n or d`
abbrev pub or_else : Option ℕ → ℕ → ℕ
or_else none d = d
or_else (some n) d = if n == 0 then d else n

-- `payload.total or lesson.slide_count or 0`
unfoldable pub slide_total_of : ProgressUpdate → Lesson → ℕ
slide_total_of payload lesson = or_else payload.total (or_else lesson.slide_count 0)

-- `if payload.total and payload.total != lesson.slide_count: lesson.slide_count = payload.total`
unfoldable pub synced_slide_count : ProgressUpdate → Lesson → Lesson
synced_slide_count payload lesson = elim payload.total [
  | none ↦ lesson
  | some n ↦ if n == 0 then lesson else record lesson { slide_count = some n }
]

unfoldable pub sync_slide_count : ProgressUpdate → ℕ → Db → Db
sync_slide_count payload lesson_id db = record db {
  lessons = update_where (λ l. l.id == lesson_id) (synced_slide_count payload) db.lessons;
}

-- `percent_of slide total` stands for `round(slide / total * 100)`, in floating point.
module _ (percent_of : ℕ → ℕ → ℕ) where
  -- `_resolve_percent`
  unfoldable pub resolve_percent : ProgressUpdate → ℕ → Outcome ℕ
  resolve_percent payload total = if payload.complete then ok 100 else elim payload.slide [
    | none ↦ http_error 400
    | some slide ↦ ok (if ltb 0 total then min 99 (percent_of slide total) else 0)
  ]

-- the assignments to `progress.last_slide`
abbrev pub recorded_slide : ProgressUpdate → ℕ → Option ℕ → Option ℕ
recorded_slide payload total last =
    if payload.complete
    then (if total == 0 then last else some total)
    else elim payload.slide [ none ↦ last | some slide ↦ some slide ]

abbrev pub status_of : ℕ → LessonStatus
status_of percent =
    if leb 100 percent
    then LessonStatus.completed
    else if ltb 0 percent
    then LessonStatus.in_progress
    else LessonStatus.not_started

-- `now` if no completion time is there yet
abbrev pub stamp_once : ℕ → Option ℕ → Option ℕ
stamp_once now none = some now
stamp_once now (some at) = some at

-- the assignments to the attributes of the row
unfoldable pub record_row : ProgressUpdate → ℕ → ℕ → ℕ → Progress → Progress
record_row payload total percent now p = record p {
  percent_complete = percent;
  last_opened_at = some now;
  slide_total = if ltb 0 total then some total else p.slide_total;
  last_slide = recorded_slide payload total p.last_slide;
  status = status_of percent;
  completed_at = if leb 100 percent then stamp_once now p.completed_at else none;
  unlocked_override = if leb 100 percent then false else p.unlocked_override;
  watchdog = (compute_watchdog percent (some now)).0;
  watchdog_message = (compute_watchdog percent (some now)).1;
}

-- the row of the key, created if it is missing
unfoldable pub with_row : ℕ → ℕ → Text → Db → Db
with_row teacher_id lesson_id section db =
    if is_some (find_progress db.progress teacher_id lesson_id section) then db else record db {
      progress = db.progress ++ new_progress db.next_id teacher_id lesson_id section ∷ [];
      next_id = db.next_id + 1;
    }

-- an assignment to attributes of the row of the key
unfoldable pub edit_row : ℕ → ℕ → Text → (Progress → Progress) → Db → Db
edit_row teacher_id lesson_id section f db = record db {
  progress = update_where (has_key teacher_id lesson_id section) f db.progress;
}

-- the handler behind its guards: the row that is returned, and the committed database
unfoldable pub write_progress : ProgressUpdate → ℕ → ℕ → ℕ → ℕ → ℕ → Text → Db → Db
write_progress payload total percent now teacher_id lesson_id section db =
    edit_row teacher_id lesson_id section (record_row payload total percent now)
      (with_row teacher_id lesson_id section (sync_slide_count payload lesson_id db))

abbrev pub returned_row : Db → ℕ → ℕ → Text → Outcome Progress × Db
returned_row db teacher_id lesson_id section =
    elim (find_progress db.progress teacher_id lesson_id section) [
      | none ↦ (http_error 500, db)
      | some p ↦ (ok p, db)
    ]

module _ (percent_of : ℕ → ℕ → ℕ) (settings : Settings) (now : ℕ) where
  -- the part of the handler that runs for a resolved class
  unfoldable pub update_section : Db → User → Lesson → ProgressUpdate → Text → Outcome Progress × Db
  update_section db current lesson payload section =
      elim (guard_write_access settings now db current lesson.id section) [
        | refused ↦ (http_error 403, db)
        | already p ↦ (ok p, db)
        | proceed ↦
            let total = slide_total_of payload lesson in
            elim (resolve_percent percent_of payload total) [
              | http_error code ↦ (http_error code, db)
              | ok percent ↦
                  returned_row
                    (write_progress payload total percent now current.id lesson.id section db)
                    current.id lesson.id section
            ]
      ]

  unfoldable pub update_progress : Db → User → ℕ → ProgressUpdate → Outcome Progress × Db
  update_progress db current lesson_id payload =
      if not (user_can current Capability.view_assigned_lessons)
      then (http_error 403, db)
      else elim (find (λ l. l.id == lesson_id) db.lessons) [
        | none ↦ (http_error 404, db)
        | some lesson ↦
            if not (is_assigned db.assignments current.id lesson_id)
            then (http_error 403, db)
            else elim (resolve_section current lesson.grade payload.section) [
              | none ↦ (http_error 400, db)
              | some section ↦ update_section db current lesson payload section
            ]
      ]
