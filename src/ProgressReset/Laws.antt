-- ===== src/ProgressReset/Laws.antt =====
-- `reset_progress` of app/services/progress_reset.py: its scope, and a second run of it.
use edtech_back.Base.{
  update_where-All, ℕ, ◌≡◌, refl, Bool, false, not, ◌&&◌, Option, List, [], ◌∷◌, Text, select,
  update_where, count_where, arith, Bool-cases, inl, inr, ap,
}
use edtech_back.Model.{User, Progress, Db, is_completed, is_teacher}
use edtech_back.ProgressReset.{in_scope, is_started, reset_row, reset_progress}
use edtech_back.ProgressRoute.Record.{IsWellFormed, IsSound, update-HasUniqueKeys}

reset_row-scope :
    (t : ℕ) (l : Option ℕ) (s : Option Text) (note : Text) (p : Progress)
    → in_scope t l s (reset_row note p) ≡ in_scope t l s p
unfolding in_scope reset_row
reset_row-scope t l s note p = refl

reset_row_again :
    (note : Text) (p : Progress) → reset_row note (reset_row note p) ≡ reset_row note p
unfolding reset_row
reset_row_again note p = refl

module _ (t : ℕ) (l : Option ℕ) (s : Option Text) (note : Text) where
  scope : Progress → Bool
  scope = in_scope t l s

  -- what is counted of the rows in scope is gone from them afterwards
  cleared-count :
      (test : Progress → Bool)
      → ((p : Progress) → test (reset_row note p) ≡ false)
      → (ps : List Progress)
      → count_where (λ p. scope p && test p) (update_where scope (reset_row note) ps) ≡ 0
  unfolding count_where update_where scope
  cleared-count test gone [] = refl
  cleared-count test gone (p ∷ ps) =
      ground (arith, gone p, reset_row-scope t l s note p, cleared-count test gone ps)

  reset_again :
      (ps : List Progress)
      → update_where scope (reset_row note) (update_where scope (reset_row note) ps)
        ≡ update_where scope (reset_row note) ps
  unfolding update_where scope
  reset_again [] = refl
  reset_again (p ∷ ps) =
      ground (arith, reset_row-scope t l s note p, reset_row_again note p, reset_again ps)

  outside_scope :
      (ps : List Progress)
      → select (λ p. not (scope p)) (update_where scope (reset_row note) ps)
        ≡ select (λ p. not (scope p)) ps
  unfolding select update_where scope
  outside_scope [] = refl
  outside_scope (p ∷ ps) = ground (arith, reset_row-scope t l s note p, outside_scope ps)

-- Running a reset twice is safe: the second run changes nothing, and reports that it cleared no
-- completed lesson, no started one and no override.
pub reset_progress_twice :
    (db : Db) (teacher : User) (l : Option ℕ) (s : Option Text) (note : Text)
    → let db' = (reset_progress db teacher l s note).1 in
      let (second, db'') = reset_progress db' teacher l s note in
      (db'' ≡ db')
      × (second.completed_cleared ≡ 0)
      × (second.started_cleared ≡ 0)
      × (second.overrides_cleared ≡ 0)
unfolding reset_progress scope
reset_progress_twice db teacher l s note = elim (Bool-cases (is_teacher teacher.role)) [
  | inr other ↦ simp other (refl, refl, refl, refl)
  | inl same ↦ simp same (
    ap (λ ps. record db { progress = ps }) (reset_again teacher.id l s note db.progress),
    cleared-count teacher.id l s note (λ p. is_completed p.status) (λ p. unfold reset_row in refl)
        db.progress,
    cleared-count teacher.id l s note is_started (λ p. unfold reset_row in refl) db.progress,
    cleared-count teacher.id l s note (λ p. p.unlocked_override) (λ p. unfold reset_row in refl)
        db.progress,
  )
]

-- A reset leaves every row outside its scope as it was, and all other tables.
pub reset_progress-outside :
    (db : Db) (teacher : User) (l : Option ℕ) (s : Option Text) (note : Text)
    → let db' = (reset_progress db teacher l s note).1 in
      (select (λ p. not (in_scope teacher.id l s p)) db'.progress
        ≡ select (λ p. not (in_scope teacher.id l s p)) db.progress)
      × (db' ≡ record db { progress = db'.progress })
unfolding reset_progress scope
reset_progress-outside db teacher l s note = elim (Bool-cases (is_teacher teacher.role)) [
  | inr other ↦ simp other (refl, refl)
  | inl same ↦ simp same (outside_scope teacher.id l s note db.progress, refl)
]

-- A reset keeps the rows of progress sound.
pub reset_progress-IsSound :
    (db : Db) (teacher : User) (l : Option ℕ) (s : Option Text) (note : Text)
    → IsSound db
    → IsSound (reset_progress db teacher l s note).1
unfolding reset_progress
reset_progress-IsSound db teacher l s note h = elim (Bool-cases (is_teacher teacher.role)) [
  | inr other ↦ simp other h
  | inl same ↦ simp same (record {
    unique =
        update-HasUniqueKeys (in_scope teacher.id l s) (reset_row note)
          (λ p. unfold reset_row in (refl, refl, refl)) db.progress h.unique;
    shaped =
        update_where-All IsWellFormed (in_scope teacher.id l s) (reset_row note)
          (λ p w. unfold reset_row in ground arith) db.progress h.shaped;
  })
]
