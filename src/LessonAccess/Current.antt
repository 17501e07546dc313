-- ===== src/LessonAccess/Current.antt =====
-- The lessons of a track that are available without an override.
use edtech_back.Base.{
  ℕ, ◌+◌, ◌≤◌, ◌≡◌, refl, true, false, not, ◌&&◌, Option, none, List, [], ◌∷◌, arith, if◌then◌else◌,
}
use edtech_back.Model.{Progress}
use edtech_back.LessonAccess.{
  LessonAccess, Gate, is_available, overridden, walk, start, gate_behind, gate_after_finished,
}

-- the lessons that are available in the order of the sequence, with no override
pub current_lessons : List (Option Progress) → List LessonAccess → ℕ
current_lessons [] accesses = 0
current_lessons (p ∷ rows) [] = 0
current_lessons (p ∷ rows) (a ∷ accesses) =
    (if is_available a.status && not (overridden p) then 1 else 0) + current_lessons rows accesses

-- Behind an unfinished lesson the gate is shut, and nothing is pending.
pub record IsConsistent (g : Gate) : Type 0 where
  pub shut_open : g.sequence_blocked ≡ true → g.gate_open ≡ false
  pub shut_pending : g.sequence_blocked ≡ true → g.pending_unlock_at ≡ none

module _ (wait now : ℕ) where
  gate_behind-IsConsistent :
      (p : Option Progress) (g : Gate) → IsConsistent g → IsConsistent (gate_behind wait now p g)
  unfolding gate_behind gate_after_finished
  gate_behind-IsConsistent p g h = record {
    shut_open = λ e. ground arith;
    shut_pending = λ e. ground arith;
  }

  blocked_stays :
      (p : Option Progress) (g : Gate)
      → g.sequence_blocked ≡ true
      → (gate_behind wait now p g).sequence_blocked ≡ true
  unfolding gate_behind gate_after_finished
  blocked_stays p g h = ground arith

  current-blocked :
      (g : Gate) (rows : List (Option Progress))
      → IsConsistent g
      → g.sequence_blocked ≡ true
      → current_lessons rows (walk wait now g rows) ≡ 0
  unfolding current_lessons walk
  current-blocked g [] c h = refl
  current-blocked g (p ∷ rows) c h = ground (
    arith,
    c.shut_open h,
    current-blocked (gate_behind wait now p g) rows (gate_behind-IsConsistent p g c)
        (blocked_stays p g h),
  )

  current-le-one_from :
      (g : Gate) (rows : List (Option Progress))
      → IsConsistent g
      → current_lessons rows (walk wait now g rows) ≤ 1
  unfolding current_lessons walk
  current-le-one_from g [] c = omega arith
  current-le-one_from g (p ∷ rows) c = ground (
    arith,
    c.shut_open,
    current-le-one_from (gate_behind wait now p g) rows (gate_behind-IsConsistent p g c),
    current-blocked (gate_behind wait now p g) rows (gate_behind-IsConsistent p g c),
  )

  -- Whatever the rows of a track hold, at most one of its lessons is available without an
  -- override of an administrator.
  pub current-le-one :
      (rows : List (Option Progress)) → current_lessons rows (walk wait now start rows) ≤ 1
  current-le-one rows =
      current-le-one_from start rows (record { shut_open = λ e. cc; shut_pending = λ e. cc })
