-- ===== src/LessonAccess.antt =====
-- app/services/lesson_access.py: which lessons a teacher can open now.
pub mod Order
pub mod Tracks
pub mod Sequence
pub mod Current
pub mod Override
pub mod Grouping
use edtech_back.Base.{
  ℕ, ◌+◌, ◌*◌, Bool, true, false, not, ◌&&◌, ◌||◌, Option, none, some, List, [], ◌∷◌, ◌++◌, ℤ, Text,
  text_eq, leb, ◌==◌, find, select, if◌then◌else◌,
}
use edtech_back.Model.{User, Lesson, Progress, Db, is_completed}

pub data AccessStatus : Type 0 where
  available completed waiting locked : AccessStatus

-- The message of an access is a constant text for each status.
pub record LessonAccess : Type 0 where
  pub status : AccessStatus
  pub available_at : Option ℕ

abbrev pub is_available : AccessStatus → Bool
is_available AccessStatus.available = true
is_available _ = false

-- `bool(p and p.unlocked_override)`
abbrev pub overridden : Option Progress → Bool
overridden none = false
overridden (some p) = p.unlocked_override

-- `bool(p and p.status == LessonStatus.completed)`
abbrev pub finished : Option Progress → Bool
finished none = false
finished (some p) = is_completed p.status

-- `p.completed_at if p else None`
abbrev pub completion_time : Option Progress → Option ℕ
completion_time none = none
completion_time (some p) = p.completed_at

-- The variables of the loop over a track.
pub record Gate : Type 0 where
  pub gate_open : Bool
  pub pending_unlock_at : Option ℕ
  pub sequence_blocked : Bool

-- The wait and the present moment are the same for all tracks of a call.
module _ (wait now : ℕ) where
  -- `_gate_after_finished`: whether the gate is open, and when the next lesson unlocks
  unfoldable pub gate_after_finished : Option Progress → Bool → Bool × Option ℕ
  gate_after_finished p true = (false, none)
  gate_after_finished p false = elim (completion_time p) [
    | none ↦ (true, none)
    | some at ↦ if leb (at + wait) now then (true, none) else (false, some (at + wait))
  ]

  -- the gate after a finished lesson
  abbrev pub past_finished : Option Progress → Gate → Gate
  past_finished p g =
      let (open_now, pending) = gate_after_finished p g.sequence_blocked in
      record g { gate_open = open_now; pending_unlock_at = pending }

  abbrev pub shut : Gate
  shut = record { gate_open = false; pending_unlock_at = none; sequence_blocked = true }

  -- one round of the loop: the access of a lesson
  unfoldable pub access_at : Option Progress → Gate → LessonAccess
  access_at p g =
      if finished p && not (overridden p)
      then record { status = AccessStatus.completed; available_at = none }
      else if overridden p || g.gate_open
      then record { status = AccessStatus.available; available_at = none }
      else elim g.pending_unlock_at [
        | some at ↦ record { status = AccessStatus.waiting; available_at = some at }
        | none ↦ record { status = AccessStatus.locked; available_at = none }
      ]

  -- one round of the loop: the gate behind the lesson
  unfoldable pub gate_behind : Option Progress → Gate → Gate
  gate_behind p g = if finished p then past_finished p g else shut

  unfoldable pub walk : Gate → List (Option Progress) → List LessonAccess
  unfolding access_at gate_behind
  walk g [] = []
  walk g (p ∷ rows) = access_at p g ∷ walk (gate_behind p g) rows

-- the variables before the first lesson
abbrev pub start : Gate
start = record { gate_open = true; pending_unlock_at = none; sequence_blocked = false }
