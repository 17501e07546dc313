-- ===== src/LessonAccess/Tracks.antt =====
-- `compute_access` and the questions that are answered from it: the tracks of a teacher, and the
-- access for each pair of a lesson and a class. A dict is a list of its items.
use edtech_back.Base.{
  ℕ, Bool, true, false, ◌&&◌, ◌||◌, Option, none, some, List, [], ◌∷◌, ℤ, int_eq, Text, text_eq,
  contains_text, ◌==◌, ◌++◌, find, select, map, if◌then◌else◌,
}
use edtech_back.Model.{
  User, Lesson, LessonAssignment, Progress, Db, Language, Settings, days, is_teacher, language_eq,
}
use edtech_back.Sections.{sections_for, find_progress, first_section}
use edtech_back.LessonAccess.{AccessStatus, LessonAccess, is_available, walk, start}
use edtech_back.LessonAccess.Order.{sort_lessons}

abbrev pub language_option_eq : Option Language → Option Language → Bool
language_option_eq none none = true
language_option_eq (some a) (some b) = language_eq a b
language_option_eq _ _ = false

-- `_track_key`
pub record TrackKey : Type 0 where
  pub grade : ℤ
  pub language : Option Language
  pub year : ℕ
  pub section : Text

unfoldable pub track_key : Lesson → Text → TrackKey
track_key lesson section = record {
  grade = lesson.grade;
  language = lesson.language;
  year = lesson.year;
  section = section;
}

unfoldable pub track_key_eq : TrackKey → TrackKey → Bool
track_key_eq k j =
    int_eq k.grade j.grade
    && language_option_eq k.language j.language
    && k.year == j.year
    && text_eq k.section j.section

abbrev pub Tracks : Type 0
Tracks = List (TrackKey × List Lesson)

-- `tracks.setdefault(key, []).append(lesson)`
unfoldable pub append_to_track : TrackKey → Lesson → Tracks → Tracks
append_to_track key lesson [] = (key, lesson ∷ []) ∷ []
append_to_track key lesson ((k, track) ∷ tracks) =
    if track_key_eq k key
    then (k, track ++ lesson ∷ []) ∷ tracks
    else (k, track) ∷ append_to_track key lesson tracks

-- the loop over the sections of a lesson
unfoldable pub group_sections : Lesson → List Text → Tracks → Tracks
group_sections lesson [] tracks = tracks
group_sections lesson (s ∷ ss) tracks =
    group_sections lesson ss (append_to_track (track_key lesson s) lesson tracks)

-- the loop over the lessons
unfoldable pub group_lessons : User → List Lesson → Tracks → Tracks
group_lessons teacher [] tracks = tracks
group_lessons teacher (l ∷ ls) tracks =
    group_lessons teacher ls (group_sections l (sections_for teacher l.grade) tracks)

abbrev pub AccessMap : Type 0
AccessMap = List ((ℕ × Text) × LessonAccess)

-- `out.get((lesson_id, section))`
unfoldable pub get_access : ℕ → Text → AccessMap → Option LessonAccess
get_access id section [] = none
get_access id section (((i, s), a) ∷ out) =
    if i == id && text_eq s section then some a else get_access id section out

-- `out[(lesson_id, section)] = access`
unfoldable pub set_access : ℕ → Text → LessonAccess → AccessMap → AccessMap
set_access id section a [] = ((id, section), a) ∷ []
set_access id section a (((i, s), b) ∷ out) =
    if i == id && text_eq s section
    then ((i, s), a) ∷ out
    else ((i, s), b) ∷ set_access id section a out

-- the accesses of a track, written into the dict
unfoldable pub store_track : Text → List Lesson → List LessonAccess → AccessMap → AccessMap
store_track section (l ∷ ls) (a ∷ accesses) out =
    store_track section ls accesses (set_access l.id section a out)
store_track section _ _ out = out

module _ (wait now : ℕ) (progress_of : ℕ → Text → Option Progress) where
  -- the loop over the tracks
  unfoldable pub walk_tracks : Tracks → AccessMap → AccessMap
  walk_tracks [] out = out
  walk_tracks ((key, track) ∷ tracks) out =
      let ordered = sort_lessons track in
      let rows = map (λ l. progress_of l.id key.section) ordered in
      walk_tracks tracks (store_track key.section ordered (walk wait now start rows) out)

-- `a.lesson_id` is among the teacher's assignments
unfoldable pub is_assigned : List LessonAssignment → ℕ → ℕ → Bool
is_assigned [] teacher_id lesson_id = false
is_assigned (a ∷ rest) teacher_id lesson_id =
    (a.teacher_id == teacher_id && a.lesson_id == lesson_id)
    || is_assigned rest teacher_id lesson_id

unfoldable pub compute_access : Settings → ℕ → Db → User → AccessMap
compute_access settings now db teacher =
    if is_teacher teacher.role
    then walk_tracks (days settings.lesson_unlock_wait_days) now
        (find_progress db.progress teacher.id)
        (group_lessons teacher (select (λ l. is_assigned db.assignments teacher.id l.id) db.lessons)
          [])
        []
    else []

-- the class that `section_access` chooses for a grade
unfoldable pub chosen_section : User → ℤ → Option Text → Text
chosen_section teacher grade none = first_section (sections_for teacher grade)
chosen_section teacher grade (some s) =
    if contains_text s (sections_for teacher grade)
    then s
    else first_section (sections_for teacher grade)

-- `section_access(...).get(lesson_id)`
unfoldable pub section_access_at : Settings → ℕ → Db → User → Option Text → ℕ → Option LessonAccess
section_access_at settings now db teacher section lesson_id =
    elim (find (λ l. l.id == lesson_id) db.lessons) [
      | none ↦ none
      | some l ↦
          get_access lesson_id (chosen_section teacher l.grade section)
            (compute_access settings now db teacher)
    ]

-- the access is there, and its status passes the test
abbrev pub passes : (AccessStatus → Bool) → Option LessonAccess → Bool
passes test none = false
passes test (some a) = test a.status

-- `any(access.status == AVAILABLE ... if lid == lesson_id)`
unfoldable pub any_available : ℕ → AccessMap → Bool
any_available id [] = false
any_available id (((i, s), a) ∷ out) = (i == id && is_available a.status) || any_available id out

unfoldable pub is_lesson_available : Settings → ℕ → Db → User → ℕ → Option Text → Bool
is_lesson_available settings now db teacher lesson_id none =
    any_available lesson_id (compute_access settings now db teacher)
is_lesson_available settings now db teacher lesson_id (some s) =
    passes is_available (get_access lesson_id s (compute_access settings now db teacher))

-- `get_access_status`
unfoldable pub get_access_status : Settings → ℕ → Db → User → ℕ → Option Text → Option AccessStatus
get_access_status settings now db teacher lesson_id section =
    elim (section_access_at settings now db teacher section lesson_id) [
      | none ↦ none
      | some a ↦ some a.status
    ]
