-- ===== src/AutoAssign/Filename.antt =====
-- The names of the files of the curriculum, "Grade 7 micro:bit lesson 04 Buzzer.pdf" and "KG1 MTiny
-- lesson 03 Colors.pdf": the regular expression `_FILENAME_RE`, read from left to right, as it is
-- deterministic. A part of it takes the text that is left and gives what it matched and the rest.
use edtech_back.Base.{
  ℕ, zero, suc, ◌+◌, Bool, true, false, not, ◌&&◌, ◌||◌, Option, none, some, List, [], ◌∷◌, ◌++◌, ℤ,
  Text, codes, text_eq, lower_code, casefold, is_space, lstrip, strip, read_nat, leb, ◌==◌, select,
  if◌then◌else◌, or_default, nonempty,
}
use edtech_back.Grades.{grade_token, grade_number}
pub mod Reads

infixl 5 ◌>>=◌
abbrev pub ◌>>=◌ : {A B : Type 0} → Option A → (A → Option B) → Option B
none >>= f = none
some a >>= f = f a

-- a word, in any case; the pattern is in lower case
unfoldable pub match_word : Text → Text → Option (Text × Text)
match_word [] s = some ([], s)
match_word (w ∷ ws) [] = none
match_word (w ∷ ws) (c ∷ s) =
    let rest = match_word ws s in
    if lower_code c == w then rest >>= (λ r. some (c ∷ r.0, r.1)) else none

-- `\s+`
unfoldable pub match_spaces : Text → Option Text
match_spaces [] = none
match_spaces (c ∷ s) = if is_space c then some (lstrip s) else none

-- `\s?`
unfoldable pub match_space? : Text → Text × Text
match_space? [] = ([], [])
match_space? (c ∷ s) = if is_space c then (c ∷ [], s) else ([], c ∷ s)

-- `:?`
unfoldable pub match_colon? : Text → Text × Text
match_colon? [] = ([], [])
match_colon? (c ∷ s) = if c == b':' then (c ∷ [], s) else ([], c ∷ s)

abbrev pub is_digit : ℕ → Bool
is_digit c = leb 48 c && leb c 57

-- up to a number of digits
unfoldable pub take_digits : ℕ → Text → Text × Text
take_digits zero s = ([], s)
take_digits (suc n) [] = ([], [])
take_digits (suc n) (c ∷ s) =
    let more = take_digits n s in if is_digit c then (c ∷ more.0, more.1) else ([], c ∷ s)

-- `\d{1,n}`
unfoldable pub match_digits : ℕ → Text → Option (Text × Text)
match_digits n s = let digits = take_digits n s in if nonempty digits.0 then some digits else none

-- `[123]`
unfoldable pub match_kg_digit : Text → Option (Text × Text)
match_kg_digit [] = none
match_kg_digit (c ∷ s) = if leb 49 c && leb c 51 then some (c ∷ [], s) else none

-- `Grade\s+(\d{1,2})`, as the token that is read from it
unfoldable pub match_numbered : Text → Option (Text × Text)
match_numbered s = do
  word ← match_word (codes "grade") s
  rest ← match_spaces word.1
  digits ← match_digits 2 rest
  some (b'G' ∷ digits.0, digits.1)

-- `KG\s?[123]`
unfoldable pub match_kindergarten : Text → Option (Text × Text)
match_kindergarten s = do
  word ← match_word (codes "kg") s
  let space = match_space? word.1
  digit ← match_kg_digit space.1
  some (word.0 ++ space.0 ++ digit.0, digit.1)

unfoldable pub or_else_match : Option (Text × Text) → Option (Text × Text) → Option (Text × Text)
or_else_match none other = other
or_else_match (some m) other = some m

unfoldable pub match_grade : Text → Option (Text × Text)
match_grade s = or_else_match (match_numbered s) (match_kindergarten s)

-- `micro:?bit`
unfoldable pub match_microbit : Text → Option (Text × Text)
match_microbit s = do
  word ← match_word (codes "micro") s
  let colon = match_colon? word.1
  bit ← match_word (codes "bit") colon.1
  some (word.0 ++ colon.0 ++ bit.0, bit.1)

-- `m\s?tiny`
unfoldable pub match_mtiny : Text → Option (Text × Text)
match_mtiny s = do
  word ← match_word (codes "m") s
  let space = match_space? word.1
  tiny ← match_word (codes "tiny") space.1
  some (word.0 ++ space.0 ++ tiny.0, tiny.1)

-- the keyword of a course, and the spaces after it
unfoldable pub match_course : Text → Option (Text × Text)
match_course s = do
  keyword ←
      or_else_match (match_word (codes "python") s)
        (or_else_match (match_microbit s) (match_mtiny s))
  rest ← match_spaces keyword.1
  some (keyword.0, rest)

-- the optional group of the course
unfoldable pub match_course? : Text → Option Text × Text
match_course? s = elim (match_course s) [ none ↦ (none, s) | some m ↦ (some m.0, m.1) ]

abbrev pub is_word_code : ℕ → Bool
is_word_code c = is_digit c || (leb 65 c && leb c 90) || (leb 97 c && leb c 122) || c == b'_'

-- `\b` behind a digit
unfoldable pub at_boundary : Text → Bool
at_boundary [] = true
at_boundary (c ∷ s) = not (is_word_code c)

-- `(.*)$`: no newline, but for one at the end
unfoldable pub is_line : Text → Bool
is_line [] = true
is_line (c ∷ s) = if c == 10 then not (nonempty s) else is_line s

-- the groups of `_FILENAME_RE`: the grade as it is looked up, the course, and the number
unfoldable pub match_filename : Text → Option (Text × Option Text × Text)
match_filename base = do
  grade ← match_grade (lstrip base)
  rest ← match_spaces grade.1
  let course = match_course? rest
  word ← match_word (codes "lesson") course.1
  behind ← match_spaces word.1
  number ← match_digits 3 behind
  if at_boundary number.1 && is_line (lstrip number.1)
      then some (grade.0, course.0, number.0)
      else none

-- `s.replace(c, "")` of a character
unfoldable pub without : ℕ → Text → Text
without c s = select (λ d. not (d == c)) s

-- `text.startswith("micro")`, of a text in lower case
unfoldable pub is_micro : Text → Bool
is_micro text = elim (match_word (codes "micro") text) [ none ↦ false | some m ↦ true ]

-- `_course_keyword` of a text that is not empty
unfoldable pub course_keyword : Text → Text
course_keyword raw =
    let text = casefold (without b':' (without 32 raw)) in
    if is_micro text
    then codes "microbit"
    else if text_eq text (codes "mtiny")
    then codes "mtiny"
    else codes "python"

abbrev pub course_of : Option Text → Option Text
course_of none = none
course_of (some raw) = some (course_keyword raw)

-- `ParsedName`
pub record ParsedName : Type 0 where
  pub grade : ℤ
  pub token : Text
  pub lesson_no : ℕ
  pub title : Text
  pub course : Option Text

-- the base without ".pdf" at its end, in any case
unfoldable pub without_suffix : Text → Text
without_suffix [] = []
without_suffix (c ∷ s) =
    let rest = without_suffix s in
    if text_eq (casefold (c ∷ s)) (codes ".pdf") then [] else c ∷ rest

unfoldable pub parse_lesson_filename : Text → Option ParsedName
parse_lesson_filename filename =
    let base = without_suffix filename in
    do
      groups ← match_filename base
      grade ← grade_number (without 32 groups.0)
      number ← read_nat groups.2
      some (record {
        grade = grade;
        token = grade_token grade;
        lesson_no = number;
        title = strip base;
        course = course_of groups.1;
      })
