-- ===== src/Lessons/Classes.antt =====
-- `my_classes` of app/routers/lessons.py: how far each class of a teacher has got, and what it opens
-- next.
use edtech_back.Base.{
  ℕ, ◌≡◌, ◌≤◌, refl, Bool, true, false, not, ◌&&◌, ◌||◌, Option, none, some, List, [], ◌∷◌, ℤ,
  int_eq, int_lt, Text, text_eq, text_lt, ◌==◌, ltb, length, find, map, any, all, count_where,
  is_some, if◌then◌else◌, arith, Option-cases, inl, inr,
}
use edtech_back.Model.{User, Lesson, Progress, Db, Settings, Language, is_teacher}
use edtech_back.Sections.{find_progress}
use edtech_back.LessonAccess.{AccessStatus, LessonAccess}
use edtech_back.LessonAccess.Order.{sort_lessons}
use edtech_back.LessonAccess.Tracks.{
  TrackKey, track_key, Tracks, append_to_track, AccessMap, get_access, compute_access,
  language_option_eq,
}

-- `a.status == "completed"`
abbrev pub is_done_status : AccessStatus → Bool
is_done_status AccessStatus.completed = true
is_done_status _ = false

-- the access is there, and is completed
abbrev pub has_done : Option LessonAccess → Bool
has_done none = false
has_done (some a) = is_done_status a.status

-- the access is there, and is not completed
abbrev pub is_ahead_of : Option LessonAccess → Bool
is_ahead_of none = false
is_ahead_of (some a) = not (is_done_status a.status)

-- `by_class`: the lessons of the accesses, grouped
unfoldable pub classes_from : Db → AccessMap → Tracks → Tracks
classes_from db [] tracks = tracks
classes_from db (((id, section), a) ∷ out) tracks =
    let grouped : Tracks = elim (find (λ l. l.id == id) db.lessons) [
      | none ↦ tracks
      | some l ↦ append_to_track (track_key l section) l tracks
    ] in
    classes_from db out grouped

-- `language or ""`, in the order of the texts
abbrev pub language_rank : Option Language → ℕ
language_rank none = 0
language_rank (some Language.both) = 1
language_rank (some Language.en) = 2
language_rank (some Language.fr) = 3

-- the key of `sorted`: grade, section, language, year
unfoldable pub class_lt : TrackKey → TrackKey → Bool
class_lt k j =
    int_lt k.grade j.grade
    || (int_eq k.grade j.grade
        && (text_lt k.section j.section
            || (text_eq k.section j.section
                && (ltb (language_rank k.language) (language_rank j.language)
                    || (language_rank k.language == language_rank j.language
                        && ltb k.year j.year)))))

unfoldable pub insert_class : TrackKey × List Lesson → Tracks → Tracks
insert_class c [] = c ∷ []
insert_class c (d ∷ ds) = if class_lt d.0 c.0 then d ∷ insert_class c ds else c ∷ d ∷ ds

unfoldable pub sorted_classes : Tracks → Tracks
sorted_classes [] = []
sorted_classes (c ∷ cs) = insert_class c (sorted_classes cs)

-- a class of the same grade and section is taught in another language
abbrev pub has_other_language : TrackKey → Tracks → Bool
has_other_language k tracks =
    any
      (λ c.
        int_eq c.0.grade k.grade
        && text_eq c.0.section k.section
        && not (language_option_eq c.0.language k.language))
      tracks

-- `ClassSummary`
pub record ClassSummary : Type 0 where
  pub grade : ℤ
  pub section : Text
  pub language : Option Language
  pub total : ℕ
  pub completed : ℕ
  pub next_lesson_id : Option ℕ
  pub next_status : Option AccessStatus
  pub available_at : Option ℕ
  pub last_slide : Option ℕ
  pub slide_total : Option ℕ

-- the lesson that the class has not finished
abbrev pub next_of : AccessMap → Text → List Lesson → Option Lesson
next_of access section group = find (λ l. is_ahead_of (get_access l.id section access)) group

abbrev pub status_if : Option LessonAccess → Option AccessStatus
status_if none = none
status_if (some a) = some a.status

abbrev pub available_if : Option LessonAccess → Option ℕ
available_if none = none
available_if (some a) = a.available_at

abbrev pub last_slide_if : Option Progress → Option ℕ
last_slide_if none = none
last_slide_if (some p) = p.last_slide

abbrev pub slide_total_if : Option Progress → Option ℕ
slide_total_if none = none
slide_total_if (some p) = p.slide_total

-- the row of a class without a lesson that is next, and with one
unfoldable pub summary_of : Db → User → AccessMap → Tracks → TrackKey → List Lesson → ClassSummary
summary_of db current access tracks key group =
    let shut : ClassSummary = record {
      grade = key.grade;
      section = key.section;
      language = if has_other_language key tracks then key.language else none;
      total = length group;
      completed = count_where (λ l. has_done (get_access l.id key.section access)) group;
      next_lesson_id = none;
      next_status = none;
      available_at = none;
      last_slide = none;
      slide_total = none;
    } in
    elim (next_of access key.section group) [
      | none ↦ shut
      | some l ↦ record shut {
        next_lesson_id = some l.id;
        next_status = status_if (get_access l.id key.section access);
        available_at = available_if (get_access l.id key.section access);
        last_slide = last_slide_if (find_progress db.progress current.id l.id key.section);
        slide_total = slide_total_if (find_progress db.progress current.id l.id key.section);
      }
    ]

-- `my_classes`
unfoldable pub my_classes : Settings → ℕ → Db → User → List ClassSummary
my_classes settings now db current =
    let access = compute_access settings now db current in
    let tracks = classes_from db access [] in
    if not (is_teacher current.role)
    then []
    else map (λ c. summary_of db current access tracks c.0 (sort_lessons c.1))
        (sorted_classes tracks)

count_where-le : {A : Type 0} (p : A → Bool) (xs : List A) → count_where p xs ≤ length xs
unfolding count_where
count_where-le p [] = omega arith
count_where-le p (x ∷ xs) = ground (arith, count_where-le p xs)

count-next :
    (access : AccessMap) (section : Text) (group : List Lesson)
    → all (λ l. is_some (get_access l.id section access)) group ≡ true
    → (count_where (λ l. has_done (get_access l.id section access)) group == length group)
      ≡ not (is_some (next_of access section group))
unfolding all count_where find
count-next access section [] h = refl
count-next access section (l ∷ ls) h = elim (Option-cases (get_access l.id section access)) [
  | inl e ↦ absurd (ground arith)
  | inr (a, e) ↦
      let le = count_where-le (λ x. has_done (get_access x.id section access)) ls in
      ground (arith, count-next access section ls)
]

-- A class whose lessons all have an access is told to have completed all of them exactly if there is
-- no lesson that is told as its next one.
pub summary_of-next :
    (db : Db) (current : User) (access : AccessMap) (tracks : Tracks) (key : TrackKey)
    (group : List Lesson)
    → all (λ l. is_some (get_access l.id key.section access)) group ≡ true
    → ((summary_of db current access tracks key group).completed
        == (summary_of db current access tracks key group).total)
      ≡ not (is_some (summary_of db current access tracks key group).next_lesson_id)
unfolding summary_of
summary_of-next db current access tracks key group h =
    let same = count-next access key.section group h in
    elim (Option-cases (next_of access key.section group)) [
      | inl e ↦ rw (e, summary_of) (rw e at same)
      | inr (l, e) ↦ rw (e, summary_of) (rw e at same)
    ]
