-- ===== src/LessonAccess/Grouping.antt =====
-- The grouping of lessons into tracks, and an override in the answer of `is_lesson_available`.
use edtech_back.Base.{
  ℕ, Bool, true, false, ◌&&◌, ◌||◌, Option, some, List, [], ◌∷◌, ◌++◌, Text, text_eq, text_eq_iff,
  contains_text, ◌==◌, find, find-select, select, map, if◌then◌else◌, ◌≡◌, arith, Bool-cases, inl,
  inr, sym,
}
use edtech_back.Model.{User, Lesson, Progress, Db, Settings, days, Role, LessonStatus}
use edtech_back.Sections.{sections_for, find_progress}
use edtech_back.LessonAccess.{
  AccessStatus, LessonAccess, Gate, is_available, walk, start, access_at, gate_behind,
}
use edtech_back.LessonAccess.Order.{sort_lessons, has_lesson, has_lesson-sort_lessons}
use edtech_back.LessonAccess.Tracks.{
  TrackKey, track_key, track_key_eq, Tracks, append_to_track, group_sections, group_lessons,
  AccessMap, get_access, set_access, store_track, walk_tracks, is_assigned, compute_access, passes,
  is_lesson_available, get_access_status, section_access_at, chosen_section,
}

has_lesson-append :
    (id : ℕ) (ls : List Lesson) (l : Lesson)
    → has_lesson id (ls ++ l ∷ []) ≡ (has_lesson id ls || l.id == id)
unfolding has_lesson
has_lesson-append id [] l = ground arith
has_lesson-append id (m ∷ ms) l = ground (arith, has_lesson-append id ms l)

track_key_eq-section : (k j : TrackKey) → track_key_eq k j ≡ true → k.section ≡ j.section
unfolding track_key_eq
track_key_eq-section k j h = ground (arith, text_eq_iff k.section j.section)

module _ (id : ℕ) (section : Text) where
  -- some track of the class holds the lesson
  tracks_have : Tracks → Bool
  tracks_have [] = false
  tracks_have ((k, track) ∷ tracks) =
      (text_eq k.section section && has_lesson id track) || tracks_have tracks

  append_to_track-keeps :
      (key : TrackKey) (l : Lesson) (tracks : Tracks)
      → tracks_have tracks ≡ true
      → tracks_have (append_to_track key l tracks) ≡ true
  unfolding tracks_have append_to_track
  append_to_track-keeps key l [] h = cc
  append_to_track-keeps key l ((k, track) ∷ tracks) h =
      ground (arith, has_lesson-append id track l, append_to_track-keeps key l tracks)

  append_to_track-has :
      (key : TrackKey) (l : Lesson) (tracks : Tracks)
      → l.id ≡ id
      → key.section ≡ section
      → tracks_have (append_to_track key l tracks) ≡ true
  unfolding tracks_have append_to_track has_lesson
  append_to_track-has key l [] e s = ground (arith, text_eq_iff key.section section)
  append_to_track-has key l ((k, track) ∷ tracks) e s = ground (
    arith,
    track_key_eq-section k key,
    text_eq_iff k.section section,
    has_lesson-append id track l,
    append_to_track-has key l tracks e s,
  )

  group_sections-keeps :
      (l : Lesson) (ss : List Text) (tracks : Tracks)
      → tracks_have tracks ≡ true
      → tracks_have (group_sections l ss tracks) ≡ true
  unfolding group_sections
  group_sections-keeps l [] tracks h = h
  group_sections-keeps l (s ∷ ss) tracks h =
      group_sections-keeps l ss _ (append_to_track-keeps (track_key l s) l tracks h)

  group_sections-has :
      (l : Lesson) (ss : List Text) (tracks : Tracks)
      → l.id ≡ id
      → contains_text section ss ≡ true
      → tracks_have (group_sections l ss tracks) ≡ true
  unfolding group_sections contains_text track_key
  group_sections-has l [] tracks e h = cc
  group_sections-has l (s ∷ ss) tracks e h = elim (Bool-cases (text_eq section s)) [
    | inl same ↦
        group_sections-keeps l ss _
          (append_to_track-has (track_key l s) l tracks e (sym ((text_eq_iff section s).0 same)))
    | inr other ↦ group_sections-has l ss _ e (ground arith)
  ]

  group_lessons-keeps :
      (teacher : User) (ls : List Lesson) (tracks : Tracks)
      → tracks_have tracks ≡ true
      → tracks_have (group_lessons teacher ls tracks) ≡ true
  unfolding group_lessons
  group_lessons-keeps teacher [] tracks h = h
  group_lessons-keeps teacher (l ∷ ls) tracks h =
      group_lessons-keeps teacher ls _
        (group_sections-keeps l (sections_for teacher l.grade) tracks h)

  group_lessons-has :
      (teacher : User) (ls : List Lesson) (l : Lesson) (tracks : Tracks)
      → find (λ m. m.id == id) ls ≡ some l
      → contains_text section (sections_for teacher l.grade) ≡ true
      → tracks_have (group_lessons teacher ls tracks) ≡ true
  unfolding group_lessons find
  group_lessons-has teacher [] l tracks e h = cc
  group_lessons-has teacher (m ∷ ms) l tracks e h = elim (Bool-cases (m.id == id)) [
    | inl same ↦
        group_lessons-keeps teacher ms _
          (group_sections-has m (sections_for teacher m.grade) tracks (ground arith) (ground arith))
    | inr other ↦ group_lessons-has teacher ms l _ (ground arith) h
  ]

  module _ (test : AccessStatus → Bool) where
    -- the access that is stored for the lesson and the class passes the test
    meets : AccessMap → Bool
    meets out = passes test (get_access id section out)

    meets-set_access :
        (i : ℕ) (s : Text) (a : LessonAccess) (out : AccessMap)
        → meets (set_access i s a out)
          ≡ (if i == id && text_eq s section then test a.status else meets out)
    unfolding meets get_access set_access
    meets-set_access i s a [] = ground arith
    meets-set_access i s a (((j, t), b) ∷ out) = ground (
      arith,
      text_eq_iff t s,
      text_eq_iff t section,
      text_eq_iff s section,
      meets-set_access i s a out,
    )

    module _ (wait now : ℕ) (progress_of : ℕ → Text → Option Progress) (p : Progress)
        (row : progress_of id section ≡ some p)
        (fits : (g : Gate) → test (access_at wait now (some p) g).status ≡ true) where
      fitting_access :
          (l : Lesson) (s : Text) (g : Gate)
          → (l.id == id && text_eq s section) ≡ true
          → test (access_at wait now (progress_of l.id s) g).status ≡ true
      fitting_access l s g h =
          let e : l.id ≡ id = ground arith in
          let t : s ≡ section = ground (arith, text_eq_iff s section) in rw (e, t, row) (fits g)

      store_track-meets :
          (s : Text) (ls : List Lesson) (g : Gate) (out : AccessMap)
          → (meets out || (text_eq s section && has_lesson id ls)) ≡ true
          → meets (store_track s ls (walk wait now g (map (λ l. progress_of l.id s) ls)) out) ≡ true
      unfolding store_track walk has_lesson
      store_track-meets s [] g out h = ground arith
      store_track-meets s (l ∷ ls) g out h =
          let a = access_at wait now (progress_of l.id s) g in
          store_track-meets s ls (gate_behind wait now (progress_of l.id s) g)
            (set_access l.id s a out)
            (ground (arith, meets-set_access l.id s a out, fitting_access l s g))

      walk_tracks-meets :
          (tracks : Tracks) (out : AccessMap)
          → (meets out || tracks_have tracks) ≡ true
          → meets (walk_tracks wait now progress_of tracks out) ≡ true
      unfolding walk_tracks tracks_have
      walk_tracks-meets [] out h = ground arith
      walk_tracks-meets ((k, track) ∷ tracks) out h =
          let ordered = sort_lessons track in
          let out' =
            store_track k.section ordered
              (walk wait now start (map (λ l. progress_of l.id k.section) ordered)) out in
          walk_tracks-meets tracks out' (
            ground (
              arith,
              has_lesson-sort_lessons id track,
              store_track-meets k.section ordered start out,
            ))

-- What is needed for a lesson and a class to stand in the map of a teacher, with this row.
pub record IsTracked (db : Db) (teacher : User) (l : Lesson) (section : Text) (p : Progress)
    : Type 0 where
  pub by_teacher : teacher.role ≡ Role.teacher
  pub known : find (λ m. m.id == l.id) db.lessons ≡ some l
  pub assigned : is_assigned db.assignments teacher.id l.id ≡ true
  pub taken : contains_text section (sections_for teacher l.grade) ≡ true
  pub row : find_progress db.progress teacher.id l.id section ≡ some p

module _ (settings : Settings) (now : ℕ) (db : Db) (teacher : User) (l : Lesson) (section : Text)
    (p : Progress) (tracked : IsTracked db teacher l section p) where
  -- A fact that the row settles in every gate holds of the access in the map.
  compute_access-passes :
      (test : AccessStatus → Bool)
      → ((g : Gate)
          → test (access_at (days settings.lesson_unlock_wait_days) now (some p) g).status ≡ true)
      → passes test (get_access l.id section (compute_access settings now db teacher)) ≡ true
  unfolding compute_access meets get_access
  compute_access-passes test fits =
      let wait = days settings.lesson_unlock_wait_days in
      let assigned = select (λ m. is_assigned db.assignments teacher.id m.id) db.lessons in
      simp tracked.by_teacher (
        walk_tracks-meets l.id section test wait now (find_progress db.progress teacher.id) p
          tracked.row fits (group_lessons teacher assigned []) []
          (group_lessons-has l.id section teacher assigned l []
            (find-select (λ m. m.id == l.id) (λ m. is_assigned db.assignments teacher.id m.id)
              db.lessons tracked.known tracked.assigned)
            tracked.taken))

  -- A lesson that is assigned to a teacher, and whose row has the override set for one of the
  -- classes that she takes through its grade, is available to that class, whatever the sequence
  -- and the waiting period say.
  pub overridden-is_lesson_available :
      p.unlocked_override ≡ true
      → is_lesson_available settings now db teacher l.id (some section) ≡ true
  unfolding is_lesson_available access_at
  overridden-is_lesson_available o = compute_access-passes is_available (λ g. ground arith)

  is_completed_access : AccessStatus → Bool
  is_completed_access AccessStatus.completed = true
  is_completed_access _ = false

  -- A lesson that is assigned to a teacher, and that one of her classes has completed with no
  -- override, has the status completed for that class.
  pub completed-get_access_status :
      p.status ≡ LessonStatus.completed
      → p.unlocked_override ≡ false
      → get_access_status settings now db teacher l.id (some section) ≡ some AccessStatus.completed
  unfolding get_access_status section_access_at chosen_section access_at is_completed_access
  completed-get_access_status c o = ground (
    arith,
    tracked.known,
    tracked.taken,
    compute_access-passes is_completed_access (λ g. ground arith),
  )
