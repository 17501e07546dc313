-- ===== src/Grades/Laws.antt =====
-- Tokens and numbers of app/services/grades.py, read from each other.
use edtech_back.Base.{
  ◌≡◌, refl, inl, inr, Option, some, none, ℤ, pos, negsuc, int_eq, int_eq_iff, text_eq, strip,
  upper_code, show_nat, read_nat, get_key, ℕ, zero, suc, arith, Bool, true, false, ◌≤◌, ◌&&◌, ◌==◌,
  Bool-cases, Text, Option-cases, map,
}
use edtech_back.Grades.{grade_number, grade_token, in_range_number, drop_g, kg_token_to_int}

-- the grades of the curriculum: KG1 to KG3, and 1 to 12
abbrev pub IsGrade : ℤ → Type 0
IsGrade (pos n) = (1 ≤ n) × (n ≤ 12)
IsGrade (negsuc n) = n ≤ 2

abbrev reads_as : Option ℤ → ℤ → Bool
reads_as none g = false
reads_as (some h) g = int_eq h g

reads_as_sound : (o : Option ℤ) (g : ℤ) → reads_as o g ≡ true → o ≡ some g
reads_as_sound none g h = cc
reads_as_sound (some k) g h = ground (arith, int_eq_iff k g)

reads_back : ℕ → Bool
reads_back n = reads_as (grade_number (grade_token (pos n))) (pos n)

-- every grade from 1 up to the last one reads back
reads_back_to : (last : ℕ) → Bool
reads_back_to zero = true
reads_back_to (suc last) = reads_back_to last && reads_back (suc last)

reads_back_to-reads_back :
    (last n : ℕ) → 1 ≤ n → n ≤ last → reads_back_to last ≡ true → reads_back n ≡ true
unfolding reads_back_to
reads_back_to-reads_back zero n low high table = absurd (omega arith)
reads_back_to-reads_back (suc last) n low high table = elim (Bool-cases (n == suc last)) [
  | inl end ↦ let e : n ≡ suc last = ground arith in rw e (ground arith)
  | inr before ↦ reads_back_to-reads_back last n low (ground arith) (ground arith)
]

curriculum : reads_back_to 12 ≡ true
unfolding reads_back_to reads_back grade_number grade_token int_eq strip upper_code show_nat
    read_nat get_key text_eq
curriculum = refl

token_of_pos : (n : ℕ) → (1 ≤ n) × (n ≤ 12) → grade_number (grade_token (pos n)) ≡ some (pos n)
unfolding reads_back
token_of_pos n h = reads_as_sound _ _ (reads_back_to-reads_back 12 n h.0 h.1 curriculum)

-- The token of each grade of the curriculum reads back as that grade.
pub grade_number-grade_token : (g : ℤ) → IsGrade g → grade_number (grade_token g) ≡ some g
unfolding text_eq
grade_number-grade_token (pos n) h = token_of_pos n h
grade_number-grade_token (negsuc n) h = kg n h
  where
    kg : (n : ℕ) → n ≤ 2 → grade_number (grade_token (negsuc n)) ≡ some (negsuc n)
    kg zero h = unfold grade_number grade_token strip upper_code get_key in refl
    kg (suc zero) h = unfold grade_number grade_token strip upper_code get_key in refl
    kg (suc (suc zero)) h = unfold grade_number grade_token strip upper_code get_key in refl
    kg (suc (suc (suc n))) h = absurd (omega arith)

in_range-IsGrade : (o : Option ℕ) {g : ℤ} → in_range_number o ≡ some g → IsGrade g
unfolding in_range_number
in_range-IsGrade none h = cc
in_range-IsGrade (some n) h = ground arith

kg-IsGrade : (t : Text) {g : ℤ} → get_key t kg_token_to_int ≡ some g → IsGrade g
unfolding get_key
kg-IsGrade t h = ground arith

-- Whatever text is read as a grade, the number is one of the fifteen of the curriculum.
pub grade_number-IsGrade : (t : Text) {g : ℤ} → grade_number t ≡ some g → IsGrade g
unfolding grade_number
grade_number-IsGrade t h =
    let text = map upper_code (strip t) in
    elim (Option-cases (get_key text kg_token_to_int)) [
      | inl e ↦ in_range-IsGrade (read_nat (drop_g text)) (ground arith)
      | inr (k, e) ↦ kg-IsGrade text (ground arith)
    ]
