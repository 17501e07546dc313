-- ===== src/Tests/Archive.antt =====
-- Runs of the archive of the PDFs.
use edtech_back.Base.{
  ℕ, ◌≡◌, refl, Bool, true, none, some, [], ◌∷◌, Text, codes, text_eq, contains_text, show_nat,
  digits_from, is_space, lstrip, strip, find, select, any, map, contains, All,
}
use edtech_back.Model.{UploadedFile, Db}
use edtech_back.Grades.{is_kindergarten, kg_int_to_token}
use edtech_back.Backup.{
  two_digits, lesson_folder, component, last_component, lstrip_dots, safe_entry_name, archive_path,
  folder_of, entry_of, entries_of, wanted_files, build_files_archive,
}
use edtech_back.Backup.Safe.{is_bare, build_files_archive-safe}
use edtech_back.Tests.Fixtures.{db_1}

-- what the runs below compute with
archive_program : Unit {0}
unfolding text_eq contains_text show_nat digits_from is_space lstrip strip find select any contains
    two_digits component last_component lstrip_dots safe_entry_name lesson_folder folder_of entry_of
    entries_of wanted_files build_files_archive kg_int_to_token is_kindergarten
archive_program = tt

abbrev file_named : ℕ → Text → UploadedFile
file_named id filename = record {
  id = id;
  filename = filename;
  storage_path = some (codes "stored");
  linked_lesson_id = some 10;
}

abbrev db_a : Db
db_a = record db_1 {
  files = file_named 80 (codes "..\\..\\etc/.x.pdf") ∷ file_named 81 (codes "x.pdf") ∷ [];
}

abbrev on_disk : UploadedFile → Bool
on_disk f = true

-- the second name is taken by what is left of the first
paths :
    map (λ e. archive_path e) (build_files_archive on_disk db_a none)
    ≡ codes "year-1/english/grade-06/x.pdf" ∷ codes "year-1/english/grade-06/81_x.pdf" ∷ []
unfolding archive_program
paths = refl

build_files_archive-safe_example :
    All
      (λ e. (e.folder ≡ folder_of db_a e.file) × (is_bare e.name ≡ true))
      (build_files_archive on_disk db_a (some (81 ∷ 80 ∷ [])))
    × (map (λ e. e.file) (build_files_archive on_disk db_a (some (81 ∷ 80 ∷ [])))
        ≡ wanted_files (some (81 ∷ 80 ∷ [])) db_a.files)
build_files_archive-safe_example = build_files_archive-safe on_disk db_a (some (81 ∷ 80 ∷ []))
