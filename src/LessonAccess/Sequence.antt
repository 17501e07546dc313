-- ===== src/LessonAccess/Sequence.antt =====
-- The access of each lesson of a track, described by what came before it and by no running state.
use edtech_back.Base.{
  ℕ, ◌+◌, ◌≡◌, refl, not, ◌&&◌, Option, none, some, List, [], ◌∷◌, ◌++◌, leb, all, arith, length,
  if◌then◌else◌, get_elem?,
}
use edtech_back.Model.{Progress}
use edtech_back.LessonAccess.{
  AccessStatus, LessonAccess, Gate, overridden, finished, completion_time, walk, start, access_at,
  gate_behind, gate_after_finished,
}

-- the completion time of the lesson just before, if there is one and it recorded the time
abbrev pub last_completion : List (Option Progress) → Option ℕ
last_completion [] = none
last_completion (p ∷ _) = completion_time p

-- the rows `before`, the last one first, in front of `done`
abbrev pub preceding : List (Option Progress) → List (Option Progress) → List (Option Progress)
preceding [] done = done
preceding (p ∷ before) done = preceding before (p ∷ done)

module _ (wait now : ℕ) where
  -- `done` are the rows of the lessons before, the nearest first.
  unfoldable pub expected : List (Option Progress) → Option Progress → LessonAccess
  expected done p =
      if finished p && not (overridden p)
      then record { status = AccessStatus.completed; available_at = none }
      else if overridden p
      then record { status = AccessStatus.available; available_at = none }
      else if not (all finished done)
      then record { status = AccessStatus.locked; available_at = none }
      else elim (last_completion done) [
        | none ↦ record { status = AccessStatus.available; available_at = none }
        | some at ↦
            if leb (at + wait) now
            then record { status = AccessStatus.available; available_at = none }
            else record { status = AccessStatus.waiting; available_at = some (at + wait) }
      ]

  expected_from : List (Option Progress) → List (Option Progress) → List LessonAccess
  expected_from done [] = []
  expected_from done (p ∷ rows) = expected done p ∷ expected_from (p ∷ done) rows

  -- the gate that the loop has reached behind the lessons `done`
  gate_of : List (Option Progress) → Gate
  gate_of [] = start
  gate_of (p ∷ done) = gate_behind wait now p (gate_of done)

  blocked-gate_of :
      (done : List (Option Progress)) → (gate_of done).sequence_blocked ≡ not (all finished done)
  unfolding gate_of gate_behind all
  blocked-gate_of [] = refl
  blocked-gate_of (p ∷ done) = ground (arith, blocked-gate_of done)

  access_at-gate_of :
      (done : List (Option Progress)) (p : Option Progress)
      → access_at wait now p (gate_of done) ≡ expected done p
  unfolding gate_of gate_behind all access_at expected gate_after_finished
  access_at-gate_of [] p = ground arith
  access_at-gate_of (q ∷ done) p = ground (arith, blocked-gate_of done)

  walk-expected_from :
      (done rows : List (Option Progress))
      → walk wait now (gate_of done) rows ≡ expected_from done rows
  unfolding walk expected_from gate_of
  walk-expected_from done [] = refl
  walk-expected_from done (p ∷ rows) =
      ground (arith, access_at-gate_of done p, walk-expected_from (p ∷ done) rows)

  expected_from-append :
      (done before : List (Option Progress)) (p : Option Progress) (after : List (Option Progress))
      → get_elem? (expected_from done (before ++ p ∷ after)) (length before)
        ≡ some (expected (preceding before done) p)
  unfolding expected_from
  expected_from-append done [] p after = refl
  expected_from-append done (q ∷ before) p after = expected_from-append (q ∷ done) before p after

  -- In a track, each lesson's access is the one that is described by its own row and the rows of
  -- the lessons before it: completed if it is finished and not reopened; available if overridden;
  -- locked while a lesson before it is unfinished; otherwise available, or waiting until the
  -- lesson just before it has been finished for the waiting period. For the lessons after it, a
  -- finished lesson counts as finished also if it was reopened.
  pub walk-expected :
      (before : List (Option Progress)) (p : Option Progress) (after : List (Option Progress))
      → get_elem? (walk wait now start (before ++ p ∷ after)) (length before)
        ≡ some (expected (preceding before []) p)
  unfolding gate_of
  walk-expected before p after =
      rw (walk-expected_from [] (before ++ p ∷ after)) (expected_from-append [] before p after)
