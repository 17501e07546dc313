-- ===== src/Backup/Safe.antt =====
-- `build_files_archive` of app/services/backup.py, and the paths of its entries.
use edtech_back.Base.{
  ℕ, ◌≡◌, refl, ap, Bool, true, false, not, ◌&&◌, Option, List, [], ◌∷◌, ◌++◌, Text, codes,
  show_nat, all_digits, lstrip, strip, nonempty, ◌==◌, map, all, All, all-append, if◌then◌else◌,
  arith, Bool-cases, inl, inr,
}
use mathlib.Core.List.{reverse_aux, reverse}
use edtech_back.Grades.Digits.{all_digits-show_nat}
use edtech_back.Model.{UploadedFile, Db}
use edtech_back.Backup.{
  slashed, component, last_component, lstrip_dots, safe_entry_name, archive_path, folder_of,
  entry_of, entries_of, wanted_files, build_files_archive,
}

-- neither "/" nor "\"
abbrev pub is_plain : ℕ → Bool
is_plain c = not (c == 47) && not (c == 92)

abbrev pub starts_with_dot : Text → Bool
starts_with_dot [] = false
starts_with_dot (c ∷ s) = c == 46

-- a name that stands for a file of its folder: it is not empty, it has no separator, and it is
-- neither "." nor "..", nor hidden
pub is_bare : Text → Bool
is_bare s = nonempty s && all is_plain s && not (starts_with_dot s)

-- no backslash
abbrev not_backslash : ℕ → Bool
not_backslash c = not (c == 92)

all-slashed : (s : Text) → all not_backslash (slashed s) ≡ true
unfolding all
all-slashed [] = refl
all-slashed (c ∷ s) = ground (arith, all-slashed s)

all-component : (s : Text) → all is_plain s ≡ true → all is_plain (component s) ≡ true
unfolding all component
all-component s h = ground arith

last_component-is_plain :
    (name before s : Text)
    → all is_plain name ≡ true
    → all is_plain before ≡ true
    → all not_backslash s ≡ true
    → all is_plain (last_component name before s) ≡ true
unfolding all last_component
last_component-is_plain name before [] n b h = ground (arith, all-component name n)
last_component-is_plain name before (c ∷ s) n b h = elim (Bool-cases (c == 47)) [
  | inl slash ↦ rw slash (
      last_component-is_plain [] (if nonempty (component name) then component name else before) s
        refl (ground (arith, all-component name n)) (ground arith))
  | inr other ↦ rw other (
      last_component-is_plain (name ++ c ∷ []) before s
        (rw (all-append is_plain name (c ∷ []), n) (ground arith)) b (ground arith))
]

module _ (p : ℕ → Bool) where
  all-reverse_aux : (s r : Text) → all p s ≡ true → all p r ≡ true → all p (reverse_aux s r) ≡ true
  unfolding all
  all-reverse_aux [] r h e = e
  all-reverse_aux (c ∷ s) r h e = all-reverse_aux s (c ∷ r) (ground arith) (ground arith)

  all-lstrip : (s : Text) → all p s ≡ true → all p (lstrip s) ≡ true
  unfolding all lstrip
  all-lstrip [] h = refl
  all-lstrip (c ∷ s) h = ground (arith, all-lstrip s)

  all-strip : (s : Text) → all p s ≡ true → all p (strip s) ≡ true
  unfolding strip
  all-strip s h =
      all-reverse_aux (lstrip (reverse (lstrip s))) []
        (all-lstrip (reverse (lstrip s))
          (all-reverse_aux (lstrip s) [] (all-lstrip s h) (unfold all in refl)))
        (unfold all in refl)

  all-lstrip_dots : (s : Text) → all p s ≡ true → all p (lstrip_dots s) ≡ true
  unfolding all lstrip_dots
  all-lstrip_dots [] h = refl
  all-lstrip_dots (c ∷ s) h = ground (arith, all-lstrip_dots s)

lstrip_dots-starts : (s : Text) → starts_with_dot (lstrip_dots s) ≡ false
unfolding lstrip_dots
lstrip_dots-starts [] = refl
lstrip_dots-starts (c ∷ s) = ground (arith, lstrip_dots-starts s)

or_unnamed-is_bare :
    (t : Text)
    → all is_plain t ≡ true
    → starts_with_dot t ≡ false
    → is_bare (if nonempty t then t else codes "unnamed.pdf") ≡ true
unfolding is_bare all
or_unnamed-is_bare [] h e = refl
or_unnamed-is_bare (c ∷ s) h e = ground arith

-- Whatever a client names its file, the name that is made of it is bare.
safe_entry_name-is_bare : (filename : Text) → is_bare (safe_entry_name filename) ≡ true
unfolding safe_entry_name
safe_entry_name-is_bare filename =
    let named = last_component [] [] (slashed filename) in
    let plain : all is_plain named ≡ true =
      last_component-is_plain [] [] (slashed filename) (unfold all in refl) (unfold all in refl)
        (all-slashed filename) in
    or_unnamed-is_bare (lstrip_dots (strip named))
      (all-lstrip_dots is_plain (strip named) (all-strip is_plain named plain))
      (lstrip_dots-starts (strip named))

digits-is_bare :
    (d s : Text)
    → (nonempty d && all_digits d) ≡ true
    → all is_plain s ≡ true
    → is_bare (d ++ s) ≡ true
unfolding is_bare all all_digits
digits-is_bare [] s h e = cc
digits-is_bare (c ∷ []) s h e = ground arith
digits-is_bare (c ∷ b ∷ d) s h e = ground (arith, digits-is_bare (b ∷ d) s)

bare-is_plain : (s : Text) → is_bare s ≡ true → all is_plain (b'_' ∷ s) ≡ true
unfolding is_bare all
bare-is_plain s h = ground arith

entry_of-is_bare :
    (on_disk : UploadedFile → Bool) (db : Db) (written : List Text) (up : UploadedFile)
    → is_bare (entry_of on_disk db written up).name ≡ true
unfolding entry_of
entry_of-is_bare on_disk db written up =
    let bare = safe_entry_name-is_bare up.filename in
    let numbered =
      digits-is_bare (show_nat up.id) (b'_' ∷ safe_entry_name up.filename)
        (all_digits-show_nat up.id) (bare-is_plain (safe_entry_name up.filename) bare) in
    ground (arith, bare, numbered)

entries_of-safe :
    (on_disk : UploadedFile → Bool) (db : Db) (written : List Text) (ups : List UploadedFile)
    → All
        (λ e. (e.folder ≡ folder_of db e.file) × (is_bare e.name ≡ true))
        (entries_of on_disk db written ups)
      × (map (λ e. e.file) (entries_of on_disk db written ups) ≡ ups)
unfolding entries_of entry_of
entries_of-safe on_disk db written [] = (tt, refl)
entries_of-safe on_disk db written (up ∷ ups) =
    let e = entry_of on_disk db written up in
    let (safe, same) =
      entries_of-safe on_disk db (if e.is_missing then written else archive_path e ∷ written) ups in
    (((refl, entry_of-is_bare on_disk db written up), safe), ap (λ fs. up ∷ fs) same)

-- The archive has one entry for each file that is asked for, in their order, and every entry stands
-- directly in the folder of its file: its name, whatever the client called the file, is not empty,
-- has no separator and does not start with a dot.
pub build_files_archive-safe :
    (on_disk : UploadedFile → Bool) (db : Db) (ids : Option (List ℕ))
    → All
        (λ e. (e.folder ≡ folder_of db e.file) × (is_bare e.name ≡ true))
        (build_files_archive on_disk db ids)
      × (map (λ e. e.file) (build_files_archive on_disk db ids) ≡ wanted_files ids db.files)
unfolding build_files_archive
build_files_archive-safe on_disk db ids = entries_of-safe on_disk db [] (wanted_files ids db.files)
