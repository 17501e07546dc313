-- ===== src/AutoAssign/Filename/Reads.antt =====
-- `parse_lesson_filename` on the names that follow the convention of the curriculum.
use edtech_back.Base.{
  ℕ, zero, suc, ◌≤◌, ◌≡◌, refl, ap, true, ◌&&◌, Option, none, some, [], ◌∷◌, ◌++◌, pos, Text, codes,
  text_eq, lower_code, casefold, is_space, lstrip, strip, all_digits, read_nat, read_from, select,
  length, length-append, get_key, upper_code, nonempty, arith, Bool-cases, inl, inr,
}
use edtech_back.Grades.{grade_token, grade_number, drop_g, in_range_number, in_school_range}
use edtech_back.AutoAssign.Filename.{
  match_word, match_spaces, match_space?, match_colon?, take_digits, match_digits, match_numbered,
  or_else_match, match_grade, match_microbit, match_mtiny, match_course, match_course?, at_boundary,
  is_line, match_filename, without, is_micro, course_keyword, course_of, ParsedName, without_suffix,
  parse_lesson_filename,
}

-- the keywords of a course, as they are written in the names that arrive
pub data Keyword : Type 0 where
  no_keyword python micro_bit microbit mtiny m_tiny : Keyword

abbrev pub spelling : Keyword → Text
spelling Keyword.no_keyword = []
spelling Keyword.python = codes "python "
spelling Keyword.micro_bit = codes "micro:bit "
spelling Keyword.microbit = codes "microbit "
spelling Keyword.mtiny = codes "MTiny "
spelling Keyword.m_tiny = codes "M Tiny "

abbrev pub stored : Keyword → Option Text
stored Keyword.no_keyword = none
stored Keyword.python = some (codes "python")
stored Keyword.micro_bit = some (codes "microbit")
stored Keyword.microbit = some (codes "microbit")
stored Keyword.mtiny = some (codes "mtiny")
stored Keyword.m_tiny = some (codes "mtiny")

-- "Grade 7 micro:bit lesson 04 Buzzer"
pub base_name : Text → Keyword → Text → Text → Text
base_name d k e title =
    codes "Grade " ++ (d ++ 32 ∷ (spelling k ++ (codes "lesson " ++ (e ++ 32 ∷ title))))

match_course?-keyword :
    (k : Keyword) (s : Text)
    → let m = match_course? (spelling k ++ (codes "lesson " ++ s)) in
      (course_of m.0 ≡ stored k) × (m.1 ≡ codes "lesson " ++ s)
unfolding match_course? match_course match_word match_microbit match_mtiny match_spaces match_space?
    match_colon? or_else_match lower_code is_space lstrip course_keyword is_micro without select
    casefold text_eq
match_course?-keyword Keyword.no_keyword s = (refl, refl)
match_course?-keyword Keyword.python s = (refl, refl)
match_course?-keyword Keyword.micro_bit s = (refl, refl)
match_course?-keyword Keyword.microbit s = (refl, refl)
match_course?-keyword Keyword.mtiny s = (refl, refl)
match_course?-keyword Keyword.m_tiny s = (refl, refl)

take_digits-append :
    (n : ℕ) (d : Text) (s : Text)
    → length d ≤ n
    → all_digits d ≡ true
    → take_digits n (d ++ 32 ∷ s) ≡ (d, 32 ∷ s)
unfolding take_digits all_digits
take_digits-append zero [] s l a = refl
take_digits-append zero (c ∷ d) s l a = absurd (omega arith)
take_digits-append (suc n) [] s l a = refl
take_digits-append (suc n) (c ∷ d) s l a =
    rw (take_digits-append n d s (omega arith) (ground arith)) (ground arith)

match_digits-append :
    (n : ℕ) (d : Text) (s : Text)
    → length d ≤ n
    → (nonempty d && all_digits d) ≡ true
    → match_digits n (d ++ 32 ∷ s) ≡ some (d, 32 ∷ s)
unfolding match_digits
match_digits-append n d s l a = rw (take_digits-append n d s l (ground arith)) (ground arith)

match_spaces-digits :
    (d : Text) (s : Text)
    → (nonempty d && all_digits d) ≡ true
    → match_spaces (32 ∷ d ++ s) ≡ some (d ++ s)
unfolding match_spaces is_space lstrip all_digits
match_spaces-digits [] s a = cc
match_spaces-digits (c ∷ d) s a = ground arith

is_line-lstrip : (s : Text) → is_line s ≡ true → is_line (lstrip s) ≡ true
unfolding is_line lstrip is_space
is_line-lstrip [] h = refl
is_line-lstrip (c ∷ []) h = ground arith
is_line-lstrip (c ∷ d ∷ s) h = ground (arith, is_line-lstrip (d ∷ s))

text_eq-length : (s t : Text) → text_eq (casefold s) t ≡ true → length s ≡ length t
unfolding text_eq casefold
text_eq-length [] [] h = refl
text_eq-length [] (b ∷ t) h = cc
text_eq-length (a ∷ s) [] h = cc
text_eq-length (a ∷ s) (b ∷ t) h = ground (arith, text_eq-length s t)

without_suffix-append : (s : Text) → without_suffix (s ++ codes ".pdf") ≡ s
unfolding without_suffix
without_suffix-append [] = unfold casefold in unfold lower_code in unfold text_eq in refl
without_suffix-append (c ∷ s) =
    elim (Bool-cases (text_eq (casefold (c ∷ s ++ codes ".pdf")) (codes ".pdf"))) [
      | inl short ↦
          let four = text_eq-length (c ∷ s ++ codes ".pdf") (codes ".pdf") short in
          let more = length-append s (codes ".pdf") in absurd (omega arith)
      | inr long ↦ rw (long, without_suffix-append s) refl
    ]

grade_number-digits :
    (d : Text) {n : ℕ}
    → length d ≤ 2
    → read_nat d ≡ some n
    → in_school_range n ≡ true
    → grade_number (without 32 (b'G' ∷ d)) ≡ some (pos n)
unfolding read_nat all_digits read_from grade_number without select strip lstrip is_space get_key
    text_eq drop_g in_range_number upper_code
grade_number-digits [] {n} l r i = cc
grade_number-digits (a ∷ []) {n} l r i = ground arith
grade_number-digits (a ∷ b ∷ []) {n} l r i = ground arith
grade_number-digits (a ∷ b ∷ c ∷ d) {n} l r i = absurd (omega arith)

read_nat-digits : (d : Text) {n : ℕ} → read_nat d ≡ some n → (nonempty d && all_digits d) ≡ true
unfolding read_nat
read_nat-digits d {n} h = ground arith

match_grade-digits :
    (d s : Text)
    → length d ≤ 2
    → (nonempty d && all_digits d) ≡ true
    → match_grade (codes "Grade " ++ (d ++ 32 ∷ s)) ≡ some (b'G' ∷ d, 32 ∷ s)
unfolding match_grade or_else_match match_numbered match_word lower_code
match_grade-digits d s l a =
    rw (match_spaces-digits d (32 ∷ s) a, match_digits-append 2 d s l a) refl

match_spaces-keyword :
    (k : Keyword) (s : Text)
    → match_spaces (32 ∷ spelling k ++ (codes "lesson " ++ s))
      ≡ some (spelling k ++ (codes "lesson " ++ s))
unfolding match_spaces is_space lstrip
match_spaces-keyword Keyword.no_keyword s = refl
match_spaces-keyword Keyword.python s = refl
match_spaces-keyword Keyword.micro_bit s = refl
match_spaces-keyword Keyword.microbit s = refl
match_spaces-keyword Keyword.mtiny s = refl
match_spaces-keyword Keyword.m_tiny s = refl

module _ (d e title : Text) (k : Keyword) where
  match_filename-base_name :
      length d ≤ 2
      → (nonempty d && all_digits d) ≡ true
      → length e ≤ 3
      → (nonempty e && all_digits e) ≡ true
      → is_line title ≡ true
      → match_filename (base_name d k e title)
        ≡ some
            (b'G' ∷ d, (match_course? (spelling k ++ (codes "lesson " ++ (e ++ 32 ∷ title)))).0, e)
  unfolding base_name match_filename lstrip is_space match_word lower_code at_boundary is_line
  match_filename-base_name ld dd le de line =
      let behind = e ++ 32 ∷ title in
      let start : lstrip (base_name d k e title)
          ≡ codes "Grade " ++ (d ++ 32 ∷ (spelling k ++ (codes "lesson " ++ behind))) =
        refl in
      rw
        (
          start,
          match_grade-digits d (spelling k ++ (codes "lesson " ++ behind)) ld dd,
          match_spaces-keyword k behind,
          (match_course?-keyword k behind).1,
          match_spaces-digits e (32 ∷ title) de,
          match_digits-append 3 e title le de,
        )
        (rw (is_line-lstrip title line) refl)

  -- A file that is named "Grade", a number, a keyword of a course or none, "lesson", a number and a
  -- title on one line is read as the lesson of that grade and number in that course, and is titled
  -- by its name; the grade has at most two digits and is one of 1 to 12, and the number has at most
  -- three digits.
  pub parse_lesson_filename-base_name :
      {n m : ℕ}
      → length d ≤ 2
      → read_nat d ≡ some n
      → in_school_range n ≡ true
      → length e ≤ 3
      → read_nat e ≡ some m
      → is_line title ≡ true
      → parse_lesson_filename (base_name d k e title ++ codes ".pdf")
        ≡ some (record {
          grade = pos n;
          token = grade_token (pos n);
          lesson_no = m;
          title = strip (base_name d k e title);
          course = stored k;
        })
  unfolding parse_lesson_filename
  parse_lesson_filename-base_name {n} {m} ld rd range le re line =
      let dd = read_nat-digits d rd in
      let de = read_nat-digits e re in
      let behind = e ++ 32 ∷ title in
      let parsed : ℕ → ℕ → Option Text → ParsedName = λ n m c. record {
        grade = pos n;
        token = grade_token (pos n);
        lesson_no = m;
        title = strip (base_name d k e title);
        course = c;
      } in
      rw
        (
          without_suffix-append (base_name d k e title),
          match_filename-base_name ld dd le de line,
          grade_number-digits d ld rd range,
          re,
        )
        (ap (λ c. some (parsed n m c)) (match_course?-keyword k behind).0)
