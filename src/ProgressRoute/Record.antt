-- ===== src/ProgressRoute/Record.antt =====
-- The rows that the handler writes: their shape, and their keys.
use edtech_back.Base.{
  ℕ, ◌≤◌, ◌≡◌, refl, Bool, none, List, [], ◌∷◌, Text, leb, find, update_where, is_some, ok, All,
  All-append_one, update_where-All, arith, Bool-cases, inl, inr,
}
use edtech_back.Model.{Progress, Db, is_completed, is_not_started}
use edtech_back.Sections.{find_progress, new_progress, has_key}
use edtech_back.Sections.Keys.{HasUniqueKeys, append-HasUniqueKeys}
use edtech_back.ProgressRoute.{ProgressUpdate, record_row, with_row, edit_row, resolve_percent}

-- A row that the program wrote: the status, the percentage and the completion time agree.
pub record IsWellFormed (p : Progress) : Type 0 where
  pub bounded : p.percent_complete ≤ 100
  pub finished : is_completed p.status ≡ leb 100 p.percent_complete
  pub stamped : is_some p.completed_at ≡ is_completed p.status
  pub untouched : is_not_started p.status ≡ leb p.percent_complete 0

pub new_progress-IsWellFormed : (id t l : ℕ) (s : Text) → IsWellFormed (new_progress id t l s)
unfolding new_progress
new_progress-IsWellFormed id t l s = ground arith

pub record_row-IsWellFormed :
    (payload : ProgressUpdate) (total percent now : ℕ) (p : Progress)
    → percent ≤ 100
    → IsWellFormed (record_row payload total percent now p)
unfolding record_row
record_row-IsWellFormed payload total percent now p h = ground arith

-- Whatever a teacher reports, the percentage is at most 100, and it is 100 exactly when she marks
-- the lesson complete: a slide is never enough.
pub resolve_percent_bounds :
    (percent_of : ℕ → ℕ → ℕ) (payload : ProgressUpdate) (total : ℕ) {percent : ℕ}
    → resolve_percent percent_of payload total ≡ ok percent
    → (percent ≤ 100) × (leb 100 percent ≡ payload.complete)
unfolding resolve_percent
resolve_percent_bounds percent_of payload total h = ground arith

-- an edit that leaves the key of a row alone
abbrev pub KeepsKey : (Progress → Progress) → Type 0
KeepsKey f =
    (p : Progress)
    → ((f p).teacher_id ≡ p.teacher_id)
      × ((f p).lesson_id ≡ p.lesson_id)
      × ((f p).section ≡ p.section)

find_progress-update :
    (m : Progress → Bool) (f : Progress → Progress)
    → KeepsKey f
    → (ps : List Progress) (t l : ℕ) (s : Text) → find_progress ps t l s ≡ none
    → find_progress (update_where m f ps) t l s ≡ none
unfolding find_progress find update_where
find_progress-update m f k [] t l s h = refl
find_progress-update m f k (p ∷ ps) t l s h =
    ground (arith, k p, find_progress-update m f k ps t l s)

pub update-HasUniqueKeys :
    (m : Progress → Bool) (f : Progress → Progress)
    → KeepsKey f
    → (ps : List Progress) → HasUniqueKeys ps
    → HasUniqueKeys (update_where m f ps)
unfolding update_where
update-HasUniqueKeys m f k [] h = tt
update-HasUniqueKeys m f k (p ∷ ps) h = elim (Bool-cases (m p)) [
  | inl hit ↦
      rw (hit, (k p).0, (k p).1, (k p).2)
        (
          find_progress-update m f k ps p.teacher_id p.lesson_id p.section h.0,
          update-HasUniqueKeys m f k ps h.1,
        )
  | inr miss ↦ rw miss (
    find_progress-update m f k ps p.teacher_id p.lesson_id p.section h.0,
    update-HasUniqueKeys m f k ps h.1,
  )
]

-- The rows of a database of the program.
pub record IsSound (db : Db) : Type 0 where
  pub unique : HasUniqueKeys db.progress
  pub shaped : All IsWellFormed db.progress

pub with_row-IsSound : (t l : ℕ) (s : Text) (db : Db) → IsSound db → IsSound (with_row t l s db)
unfolding with_row
with_row-IsSound t l s db h = elim (Bool-cases (is_some (find_progress db.progress t l s))) [
  | inl there ↦ rw there h
  | inr absent ↦ rw absent (record {
    unique =
        append-HasUniqueKeys db.progress (new_progress db.next_id t l s) h.unique
          (unfold new_progress in ground arith);
    shaped =
        All-append_one IsWellFormed db.progress _ h.shaped
          (new_progress-IsWellFormed db.next_id t l s);
  })
]

pub edit_row-IsSound :
    (t l : ℕ) (s : Text) (f : Progress → Progress)
    → KeepsKey f
    → ((p : Progress) → IsWellFormed p → IsWellFormed (f p))
    → (db : Db) → IsSound db
    → IsSound (edit_row t l s f db)
unfolding edit_row
edit_row-IsSound t l s f k w db h = record {
  unique = update-HasUniqueKeys (has_key t l s) f k db.progress h.unique;
  shaped = update_where-All IsWellFormed (has_key t l s) f w db.progress h.shaped;
}
