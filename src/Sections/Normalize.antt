-- ===== src/Sections/Normalize.antt =====
-- `normalize_sections`: what is stored of the classes that a super-admin types. Text is ASCII here
-- as far as white space and case go.
use edtech_back.Base.{
  false, ◌==◌, starts_with_space, ends_with_space, strip-starts, strip-ends, take-starts, take-cut,
  All-append_one, ℕ, ◌≤◌, ◌<◌, true, false, not, ◌||◌, List, [], ◌∷◌, ◌++◌, Text, text_eq,
  contains_text, nonempty, strip, casefold, take, length, length-append, length-take-le, leb, map,
  if◌then◌else◌, set_key, All, ◌≡◌, refl, arith, Bool-cases, inl, inr,
}
use edtech_back.Model.{Sections}

abbrev pub max_sections_per_grade : ℕ
max_sections_per_grade = 12

abbrev pub max_label_length : ℕ
max_label_length = 16

-- `label.strip()[:MAX_LABEL_LENGTH]`
unfoldable pub clean_label : Text → Text
clean_label label = take max_label_length (strip label)

-- the labels that are kept, up to case
abbrev pub seen_labels : List Text → List Text
seen_labels = map casefold

-- the loop over the labels of a grade
unfoldable pub clean_labels : List Text → List Text → List Text
clean_labels cleaned [] = cleaned
clean_labels cleaned (label ∷ labels) =
    let text = clean_label label in
    let skip = clean_labels cleaned labels in
    let kept = cleaned ++ text ∷ [] in
    let go_on = clean_labels kept labels in
    if not (nonempty text) || contains_text (casefold text) (seen_labels cleaned)
    then skip
    else if leb max_sections_per_grade (length kept)
    then kept
    else go_on

-- `out[token] = cleaned`, if it is not empty
abbrev pub store_cleaned : Text → List Text → Sections → Sections
store_cleaned token [] out = out
store_cleaned token (l ∷ ls) out = set_key token (l ∷ ls) out

-- the loop over the grades
unfoldable pub normalize_from : List Text → Sections → Sections → Sections
normalize_from grades out [] = out
normalize_from grades out ((token, labels) ∷ raw) =
    normalize_from grades
      (if contains_text token grades then store_cleaned token (clean_labels [] labels) out else out)
      raw

unfoldable pub normalize_sections : Sections → List Text → Sections
normalize_sections raw grades = normalize_from grades [] raw

-- A label as it is stored: not empty, no longer than the bound, without white space in front, and
-- without white space at the end unless it was cut off there.
abbrev pub IsLabel : Text → Type 0
IsLabel t =
    (nonempty t ≡ true)
    × (length t ≤ max_label_length)
    × (starts_with_space t ≡ false)
    × ((length t == max_label_length || not (ends_with_space t)) ≡ true)

pub data AreDistinct : List Text → Type 0 where
  none_kept : AreDistinct []
  one_more :
      {kept : List Text} (text : Text)
      → AreDistinct kept
      → contains_text (casefold text) (seen_labels kept) ≡ false
      → AreDistinct (kept ++ text ∷ [])

pub record AreLabels (labels : List Text) : Type 0 where
  pub each : All IsLabel labels
  pub few : length labels ≤ max_sections_per_grade
  pub distinct : AreDistinct labels

clean_label-IsLabel :
    (label : Text) → nonempty (clean_label label) ≡ true → IsLabel (clean_label label)
unfolding clean_label
clean_label-IsLabel label full = (
  full,
  length-take-le max_label_length (strip label),
  take-starts max_label_length (strip label) (strip-starts label),
  elim (take-cut max_label_length (strip label)) [
    | inl cut ↦ rw cut refl
    | inr whole ↦ rw (whole, strip-ends label) (ground arith)
  ],
)

keep-AreLabels :
    (cleaned : List Text) (label : Text)
    → AreLabels cleaned
    → length cleaned < max_sections_per_grade
    → nonempty (clean_label label) ≡ true
    → contains_text (casefold (clean_label label)) (seen_labels cleaned) ≡ false
    → AreLabels (cleaned ++ clean_label label ∷ [])
keep-AreLabels cleaned label h room full new = record {
  each = All-append_one IsLabel cleaned _ h.each (clean_label-IsLabel label full);
  few = omega (arith, length-append cleaned (clean_label label ∷ []));
  distinct = one_more (clean_label label) h.distinct new;
}

clean_labels-AreLabels :
    (cleaned labels : List Text)
    → AreLabels cleaned
    → length cleaned < max_sections_per_grade
    → AreLabels (clean_labels cleaned labels)
unfolding clean_labels
clean_labels-AreLabels cleaned [] h room = h
clean_labels-AreLabels cleaned (label ∷ labels) h room =
    elim (Bool-cases (not (nonempty text) || contains_text (casefold text) (seen_labels cleaned))) [
      | inl skipped ↦ rw skipped (clean_labels-AreLabels cleaned labels h room)
      | inr new ↦
          let kept = keep-AreLabels cleaned label h room (ground arith) (ground arith) in
          elim (Bool-cases (leb max_sections_per_grade (length (cleaned ++ text ∷ [])))) [
            | inl full ↦ rw (new, full) kept
            | inr more ↦
                rw (new, more)
                  (clean_labels-AreLabels (cleaned ++ text ∷ []) labels kept (ground arith))
          ]
    ]
  where
    text : Text
    text = clean_label label

-- what is stored under a grade: labels, at least one, of a grade that the teacher has
abbrev pub IsStored : List Text → Text × List Text → Type 0
IsStored grades (token, labels) =
    (contains_text token grades ≡ true) × (nonempty labels ≡ true) × AreLabels labels

set_key-IsStored :
    (grades : List Text) (k : Text) (v : List Text) (d : Sections)
    → All (IsStored grades) d
    → IsStored grades (k, v)
    → All (IsStored grades) (set_key k v d)
unfolding set_key
set_key-IsStored grades k v [] h p = (p, tt)
set_key-IsStored grades k v ((j, w) ∷ d) h p = elim (Bool-cases (text_eq k j)) [
  | inl same ↦ rw same ((h.0.0, p.1, p.2), h.1)
  | inr other ↦ rw other (h.0, set_key-IsStored grades k v d h.1 p)
]

store_cleaned-IsStored :
    (grades : List Text) (token : Text) (labels : List Text) (out : Sections)
    → All (IsStored grades) out
    → contains_text token grades ≡ true
    → AreLabels labels
    → All (IsStored grades) (store_cleaned token labels out)
store_cleaned-IsStored grades token [] out h c l = h
store_cleaned-IsStored grades token (x ∷ xs) out h c l =
    set_key-IsStored grades token (x ∷ xs) out h (c, refl, l)

no_labels : AreLabels []
no_labels = record { each = tt; few = omega arith; distinct = none_kept }

normalize_from-IsStored :
    (grades : List Text) (out raw : Sections)
    → All (IsStored grades) out
    → All (IsStored grades) (normalize_from grades out raw)
unfolding normalize_from
normalize_from-IsStored grades out [] h = h
normalize_from-IsStored grades out ((token, labels) ∷ raw) h =
    elim (Bool-cases (contains_text token grades)) [
      | inl known ↦ rw known (
          normalize_from-IsStored grades (store_cleaned token (clean_labels [] labels) out) raw (
            store_cleaned-IsStored grades token (clean_labels [] labels) out h known
              (clean_labels-AreLabels [] labels no_labels (omega arith))))
      | inr other ↦ rw other (normalize_from-IsStored grades out raw h)
    ]

-- Whatever a super-admin typed, what is stored has only grades that the teacher has, and for each
-- of them between one and twelve labels, none empty or longer than sixteen characters, none with white space
-- in front, none of less than sixteen characters with white space at the end, and no two that differ
-- only in case.
pub normalize_sections-IsStored :
    (raw : Sections) (grades : List Text) → All (IsStored grades) (normalize_sections raw grades)
unfolding normalize_sections
normalize_sections-IsStored raw grades = normalize_from-IsStored grades [] raw tt
