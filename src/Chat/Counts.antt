-- ===== src/Chat/Counts.antt =====
-- `threads_for_teacher` and `list_messages`, side by side.
use edtech_back.Base.{
  ℕ, ◌≡◌, ◌+◌, refl, Bool, true, false, ◌&&◌, List, [], ◌∷◌, Text, text_eq, text_eq_iff, ◌==◌,
  select, count_where, if◌then◌else◌, arith, Bool-cases, inl, inr,
}
use edtech_back.Model.{ChatMessage, Db}
use edtech_back.ChatHistory.{is_shown}
use edtech_back.Chat.{
  thread_of, ThreadRow, is_counted, new_row, add_to_rows, grouped, insert_row, sorted_rows,
  threads_for_teacher,
}

module _ (lesson_id : ℕ) (section : Text) where
  abbrev is_row : ThreadRow → Bool
  is_row r = r.lesson_id == lesson_id && text_eq r.section section

  -- the messages that the rows of the lesson and the class count
  pub total : List ThreadRow → ℕ
  total [] = 0
  total (r ∷ rs) = (if is_row r then r.message_count else 0) + total rs

  is_row-same :
      (r : ThreadRow) (m : ChatMessage)
      → (r.lesson_id == m.lesson_id && text_eq r.section m.section) ≡ true
      → is_row r ≡ is_row (new_row m)
  is_row-same r m h =
      let s : r.section ≡ m.section = (text_eq_iff r.section m.section).0 (ground arith) in
      let l : r.lesson_id ≡ m.lesson_id = ground arith in rw (s, l) refl

  total-add_to_rows :
      (m : ChatMessage) (rs : List ThreadRow)
      → total (add_to_rows m rs) ≡ (if is_row (new_row m) then 1 else 0) + total rs
  unfolding total add_to_rows
  total-add_to_rows m [] = ground arith
  total-add_to_rows m (r ∷ rs) =
      elim (Bool-cases (r.lesson_id == m.lesson_id && text_eq r.section m.section)) [
        | inl same ↦ let e = is_row-same r m same in ground arith
        | inr other ↦ ground (arith, total-add_to_rows m rs)
      ]

  total-insert_row :
      (r : ThreadRow) (rs : List ThreadRow) → total (insert_row r rs) ≡ total (r ∷ rs)
  unfolding total insert_row
  total-insert_row r [] = refl
  total-insert_row r (q ∷ qs) = ground (arith, total-insert_row r qs)

  total-sorted_rows : (rs : List ThreadRow) → total (sorted_rows rs) ≡ total rs
  unfolding total sorted_rows
  total-sorted_rows [] = refl
  total-sorted_rows (r ∷ rs) =
      ground (arith, total-insert_row r (sorted_rows rs), total-sorted_rows rs)

  total-grouped :
      (teacher_id : ℕ) (ms : List ChatMessage)
      → total (grouped (select (is_counted teacher_id) ms))
        ≡ count_where (is_shown false (thread_of teacher_id lesson_id section)) ms
  unfolding total grouped select count_where
  total-grouped teacher_id [] = refl
  total-grouped teacher_id (m ∷ ms) = elim (Bool-cases (is_counted teacher_id m)) [
    | inl counted ↦ rw counted (
        ground (
          arith,
          total-add_to_rows m (grouped (select (is_counted teacher_id) ms)),
          total-grouped teacher_id ms,
        ))
    | inr left ↦ rw left (ground (arith, total-grouped teacher_id ms))
  ]

  -- For each lesson and class, the list of the threads of a teacher counts exactly the messages that
  -- the thread shows her.
  pub threads_for_teacher-total :
      (db : Db) (teacher_id : ℕ)
      → total (threads_for_teacher db teacher_id)
        ≡ count_where (is_shown false (thread_of teacher_id lesson_id section)) db.chats
  unfolding threads_for_teacher
  threads_for_teacher-total db teacher_id =
      rw (total-sorted_rows (grouped (select (is_counted teacher_id) db.chats)))
        (total-grouped teacher_id db.chats)
