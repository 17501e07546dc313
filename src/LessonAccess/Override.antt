-- ===== src/LessonAccess/Override.antt =====
-- The pass over a track with an override and without it.
use edtech_back.Base.{
  ℕ, ◌≡◌, refl, Bool, true, not, ◌||◌, Option, some, List, [], ◌∷◌, ◌++◌, length, set, ap, arith,
}
use edtech_back.Model.{Progress}
use edtech_back.LessonAccess.{
  LessonAccess, Gate, is_available, walk, access_at, gate_behind, gate_after_finished,
}

module _ (wait now : ℕ) where
  -- Setting or clearing the override of one lesson changes the access of that lesson alone, in
  -- whatever gate the track begins; setting it makes the lesson available.
  pub override-walk :
      (g : Gate) (before : List (Option Progress)) (p : Progress) (b : Bool)
      (after : List (Option Progress))
      → (a : LessonAccess) × (walk wait now g
            (before ++ some (record p { unlocked_override = b }) ∷ after)
          ≡ set (walk wait now g (before ++ some p ∷ after)) (length before) a)
        × ((not b || is_available a.status) ≡ true)
  unfolding walk access_at gate_behind gate_after_finished
  override-walk g [] p b after =
      (access_at wait now (some (record p { unlocked_override = b })) g, refl, ground arith)
  override-walk g (q ∷ before) p b after =
      let (a, same, opens) = override-walk (gate_behind wait now q g) before p b after in
      (a, ap (◌∷◌ (access_at wait now q g)) same, opens)
