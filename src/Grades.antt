-- ===== src/Grades.antt =====
-- app/services/grades.py: the tokens of a grade and its number.
use mathlib.Core.List.{[], ◌∷◌, ◌++◌}
use edtech_back.Base.{
  ℕ, suc, Bool, true, false, ◌&&◌, ◌||◌, Option, none, some, List, ℤ, pos, negsuc, int_eq, Text,
  codes, text_eq, nonempty, strip, upper_code, show_nat, read_nat, map, leb, is_some, or_default,
  get_key, if◌then◌else◌, ◌+◌, ◌==◌,
}
pub mod Laws
pub mod Digits

-- `KG_TOKEN_TO_INT`
abbrev pub kg_token_to_int : List (Text × ℤ)
kg_token_to_int = (codes "KG1", negsuc 2) ∷ (codes "KG2", negsuc 1) ∷ (codes "KG3", negsuc 0) ∷ []

-- `KG_INT_TO_TOKEN.get`
unfoldable pub kg_int_to_token : ℤ → Option Text
kg_int_to_token (negsuc (suc (suc (suc n)))) = none
kg_int_to_token (negsuc (suc (suc n))) = some (codes "KG1")
kg_int_to_token (negsuc (suc n)) = some (codes "KG2")
kg_int_to_token (negsuc n) = some (codes "KG3")
kg_int_to_token (pos n) = none

-- `grade in SCHOOL_GRADE_RANGE`
abbrev pub in_school_range : ℕ → Bool
in_school_range n = leb 1 n && leb n 12

-- `is_kindergarten` of a token
unfoldable pub is_kindergarten_token : Text → Bool
is_kindergarten_token t = is_some (get_key t kg_token_to_int)

-- `is_kindergarten` of a number
unfoldable pub is_kindergarten : ℤ → Bool
unfolding kg_int_to_token
is_kindergarten g = is_some (kg_int_to_token g)

-- `str` of an integer
unfoldable pub show_int : ℤ → Text
show_int (pos n) = show_nat n
show_int (negsuc n) = b'-' ∷ show_nat (n + 1)

unfoldable pub grade_token : ℤ → Text
unfolding kg_int_to_token show_int
grade_token g = or_default (kg_int_to_token g) (b'G' ∷ show_int g)

-- `text[1:]` if the text starts with "G"
unfoldable pub drop_g : Text → Text
drop_g [] = []
drop_g (c ∷ s) = if c == b'G' then s else c ∷ s

-- the number that is left, if the curriculum has it
unfoldable pub in_range_number : Option ℕ → Option ℤ
in_range_number none = none
in_range_number (some n) = if in_school_range n then some (pos n) else none

unfoldable pub grade_number : Text → Option ℤ
unfolding drop_g in_range_number
grade_number token =
    let text = map upper_code (strip token) in
    let rest = in_range_number (read_nat (drop_g text)) in
    elim (get_key text kg_token_to_int) [ some g ↦ some g | none ↦ rest ]
