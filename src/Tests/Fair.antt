-- ===== src/Tests/Fair.antt =====
-- Runs of the router of the ICT Fair.
use edtech_back.Base.{
  ◌≡◌, refl, true, none, some, List, [], ◌∷◌, codes, text_eq, contains_text, show_nat, digits_from,
  strip, lstrip, is_space, upper_code, nonempty, find, select, any, all,
}
use edtech_back.Model.{User}
use edtech_back.Fair.{all_grade_tokens, clean_grades, FairSectionCreate, FairProjectUpdate}
use edtech_back.Fair.Filed.{IsFair, FairEdit, run_fairs, run_fairs-IsFair}
use edtech_back.Fair.Listed.{are_unique}
use edtech_back.Tests.Fixtures.{db_1, teacher_1, admin_2}

-- what the runs below compute with
fair_program : Unit {0}
unfolding find select any all text_eq contains_text show_nat digits_from all_grade_tokens
fair_program = tt

db_1-IsFair : IsFair db_1
unfolding fair_program
db_1-IsFair = record { filed = refl; graded = refl }

abbrev art : FairSectionCreate
art = record {
  school_id = 7;
  title = codes "Art";
  blurb = none;
  grades = codes " kg2" ∷ codes "G9" ∷ codes "G99" ∷ codes "KG2" ∷ [];
}

abbrev refile : FairProjectUpdate
refile = record { title = none; section_id = some (some 100) }

-- a section is made, the project moved to it, and the emptied section deleted
abbrev fair_edits : List (User × FairEdit)
fair_edits =
    (admin_2, FairEdit.create_section art)
    ∷ (admin_2, FairEdit.update_project 71 refile)
    ∷ (teacher_1, FairEdit.delete_section 70)
    ∷ (admin_2, FairEdit.delete_section 70)
    ∷ (admin_2, FairEdit.upload_project (codes "Bee.pdf") (codes "%PDF-1") (some 100))
    ∷ []

run_fairs-IsFair_example : IsFair (run_fairs 9 db_1 fair_edits)
run_fairs-IsFair_example = run_fairs-IsFair 9 db_1 fair_edits db_1-IsFair

cleaned : clean_grades art.grades ≡ codes "KG2" ∷ codes "G9" ∷ []
unfolding fair_program clean_grades strip lstrip is_space upper_code nonempty
cleaned = refl

one_section : are_unique db_1.fair_sections ≡ true
unfolding fair_program
one_section = refl
