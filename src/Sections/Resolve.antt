-- ===== src/Sections/Resolve.antt =====
-- The class that a request names, `resolve_section` of app/services/sections.py.
use edtech_back.Base.{
  ◌≡◌, true, Option, none, some, List, [], ◌∷◌, Text, text_eq_refl, contains_text, get_key, arith,
  ℤ,
}
use edtech_back.Model.{User}
use edtech_back.Grades.{grade_token}
use edtech_back.Sections.{
  sections_for, sections_for_token, or_no_section, first_section, resolve_section, no_section,
}

first-or_no_section :
    (o : Option (List Text))
    → contains_text (first_section (or_no_section o)) (or_no_section o) ≡ true
unfolding or_no_section contains_text
first-or_no_section none = ground (arith, text_eq_refl no_section)
first-or_no_section (some []) = ground (arith, text_eq_refl no_section)
first-or_no_section (some (l ∷ ls)) = ground (arith, text_eq_refl l)

-- A request that is resolved to a class names one of those that the teacher takes for the grade.
pub resolve_section-contains :
    (teacher : User) (grade : ℤ) (requested : Option Text) (section : Text)
    → resolve_section teacher grade requested ≡ some section
    → contains_text section (sections_for teacher grade) ≡ true
unfolding resolve_section sections_for sections_for_token
resolve_section-contains teacher grade none section h =
    ground (arith, first-or_no_section (get_key (grade_token grade) teacher.sections))
resolve_section-contains teacher grade (some s) section h = ground arith
