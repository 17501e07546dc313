-- ===== src/LessonAccess/Order.antt =====
-- The order of the lessons of a track: `COURSE_ORDER`, `lesson_order_key` and the sort by it.
use edtech_back.Base.{
  ℕ, Bool, false, ◌&&◌, ◌||◌, List, [], ◌∷◌, Text, codes, text_lt, ltb, ◌==◌, if◌then◌else◌,
  get_key, or_default, ◌≡◌, refl, arith,
}
use edtech_back.Model.{Lesson}

abbrev pub course_order_table : List (Text × ℕ)
course_order_table = (codes "python", 1) ∷ (codes "mtiny", 1) ∷ (codes "microbit", 2) ∷ []

-- `_course_order`
unfoldable pub course_order : Lesson → ℕ
course_order lesson = or_default (get_key (or_default lesson.course []) course_order_table) 0

-- `lesson_order_key`
unfoldable pub lesson_order_key : Lesson → ℕ × ℕ × Text
lesson_order_key lesson = (course_order lesson, or_default lesson.lesson_no 10000, lesson.title)

-- the order of the keys, as tuples
unfoldable pub key_lt : ℕ × ℕ × Text → ℕ × ℕ × Text → Bool
key_lt (a, b, c) (x, y, z) = ltb a x || ((a == x) && (ltb b y || ((b == y) && text_lt c z)))

unfoldable pub insert_lesson : Lesson → List Lesson → List Lesson
insert_lesson l [] = l ∷ []
insert_lesson l (m ∷ ms) =
    if key_lt (lesson_order_key m) (lesson_order_key l) then m ∷ insert_lesson l ms else l ∷ m ∷ ms

-- `track.sort(key=lesson_order_key)`, which is stable
unfoldable pub sort_lessons : List Lesson → List Lesson
sort_lessons [] = []
sort_lessons (l ∷ ls) = insert_lesson l (sort_lessons ls)

-- a lesson with this id is in the list
unfoldable pub has_lesson : ℕ → List Lesson → Bool
has_lesson id [] = false
has_lesson id (l ∷ ls) = l.id == id || has_lesson id ls

has_lesson-insert_lesson :
    (id : ℕ) (l : Lesson) (ls : List Lesson)
    → has_lesson id (insert_lesson l ls) ≡ (l.id == id || has_lesson id ls)
unfolding has_lesson insert_lesson
has_lesson-insert_lesson id l [] = refl
has_lesson-insert_lesson id l (m ∷ ms) = ground (arith, has_lesson-insert_lesson id l ms)

pub has_lesson-sort_lessons :
    (id : ℕ) (ls : List Lesson) → has_lesson id (sort_lessons ls) ≡ has_lesson id ls
unfolding has_lesson sort_lessons
has_lesson-sort_lessons id [] = refl
has_lesson-sort_lessons id (l ∷ ls) =
    ground (arith, has_lesson-insert_lesson id l (sort_lessons ls), has_lesson-sort_lessons id ls)
