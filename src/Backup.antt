-- ===== src/Backup.antt =====
-- app/services/backup.py: the archive of the stored PDFs. The manifest's copies of the title, the year
-- and the other columns of a lesson are left out.
use edtech_back.Base.{
  ℕ, zero, suc, ◌+◌, Bool, true, false, not, ◌&&◌, ◌||◌, Option, none, some, List, [], ◌∷◌, ◌++◌, ℤ,
  pos, negsuc, Text, codes, show_nat, strip, text_eq, contains_text, nonempty, ltb, ◌==◌, find,
  select, map, any, contains, if◌then◌else◌,
}
use edtech_back.Model.{Lesson, UploadedFile, Db, Language}
use edtech_back.Grades.{is_kindergarten, grade_token}
use edtech_back.Files.{is_fair_backed}
use edtech_back.Files.Read.{lesson_of_file, has_path}
pub mod Safe
pub mod Restore
pub mod Values

-- `LANGUAGE_FOLDERS`
abbrev pub language_folder : Option Language → Text
language_folder (some Language.en) = codes "english"
language_folder (some Language.fr) = codes "french"
language_folder _ = codes "language-not-set"

-- `f"{grade:02d}"`
unfoldable pub two_digits : ℤ → Text
two_digits (pos n) = if ltb n 10 then b'0' ∷ show_nat n else show_nat n
two_digits (negsuc n) = b'-' ∷ show_nat (n + 1)

-- `_lesson_folder`
unfoldable pub lesson_folder : Lesson → Text
lesson_folder lesson =
    codes "year-"
    ++ (show_nat lesson.year
        ++ (b'/' ∷ language_folder lesson.language
            ++ (codes "/grade-"
                ++ (if is_kindergarten lesson.grade
                    then grade_token lesson.grade
                    else two_digits lesson.grade))))

-- `filename.replace("\\", "/")`
abbrev pub slashed : Text → Text
slashed s = map (λ c. if c == 92 then b'/' else c) s

-- the last component of a path that is neither empty nor "."
unfoldable pub component : Text → Text
component s = if text_eq s (codes ".") then [] else s

-- `PurePosixPath(s).name`: what is read of the component at hand, and the last one before
unfoldable pub last_component : Text → Text → Text → Text
last_component name before [] = if nonempty (component name) then component name else before
last_component name before (c ∷ s) =
    let next = last_component [] (if nonempty (component name) then component name else before) s in
    let longer = last_component (name ++ c ∷ []) before s in if c == b'/' then next else longer

-- `s.lstrip(".")`
unfoldable pub lstrip_dots : Text → Text
lstrip_dots [] = []
lstrip_dots (c ∷ s) = if c == b'.' then lstrip_dots s else c ∷ s

-- `_safe_entry_name`
unfoldable pub safe_entry_name : Text → Text
safe_entry_name filename =
    let bare = lstrip_dots (strip (last_component [] [] (slashed filename))) in
    if nonempty bare then bare else codes "unnamed.pdf"

-- an entry of the manifest
pub record Entry : Type 0 where
  pub file : UploadedFile
  pub folder : Text
  pub name : Text
  pub is_missing : Bool

-- `archive_path`
abbrev pub archive_path : Entry → Text
archive_path e = e.folder ++ b'/' ∷ e.name

unfoldable pub folder_of : Db → UploadedFile → Text
folder_of db up =
    if is_fair_backed db up.id
    then codes "ict-fair"
    else elim (lesson_of_file db up.linked_lesson_id) [
      | none ↦ codes "unsorted"
      | some lesson ↦ lesson_folder lesson
    ]

-- the name of an entry whose first choice is taken
abbrev pub name_for : List Text → Text → UploadedFile → Text
name_for written folder up =
    if contains_text (folder ++ b'/' ∷ safe_entry_name up.filename) written
    then show_nat up.id ++ b'_' ∷ safe_entry_name up.filename
    else safe_entry_name up.filename

-- an upload, with the paths that are in the archive already
unfoldable pub entry_of : (UploadedFile → Bool) → Db → List Text → UploadedFile → Entry
entry_of on_disk db written up = record {
  file = up;
  folder = folder_of db up;
  name =
      if has_path up && on_disk up
      then name_for written (folder_of db up) up
      else safe_entry_name up.filename;
  is_missing = not (has_path up && on_disk up);
}

-- the loop over the uploads
unfoldable pub entries_of : (UploadedFile → Bool) → Db → List Text → List UploadedFile → List Entry
entries_of on_disk db written [] = []
entries_of on_disk db written (up ∷ ups) =
    let e = entry_of on_disk db written up in
    e ∷ entries_of on_disk db (if e.is_missing then written else archive_path e ∷ written) ups

-- the uploads that are asked for
unfoldable pub wanted_files : Option (List ℕ) → List UploadedFile → List UploadedFile
wanted_files none files = files
wanted_files (some ids) files = select (λ f. contains f.id ids) files

-- `build_files_archive`: the manifest
unfoldable pub build_files_archive : (UploadedFile → Bool) → Db → Option (List ℕ) → List Entry
build_files_archive on_disk db file_ids = entries_of on_disk db [] (wanted_files file_ids db.files)
