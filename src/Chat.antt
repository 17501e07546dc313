-- ===== src/Chat.antt =====
-- app/routers/chat.py, and `threads_for_teacher` of app/services/chat_history.py: who is shown which
-- conversations. The order of the export is left out, and so are the title and the grade of the
-- lesson of a thread.
use edtech_back.Base.{
  ℕ, ◌+◌, Bool, true, false, not, ◌&&◌, ◌||◌, Option, none, some, List, [], ◌∷◌, Text, text_eq, ltb,
  leb, max, ◌==◌, select, if◌then◌else◌, Outcome, ok, http_error,
}
use edtech_back.Model.{User, ChatMessage, Db, is_teacher, is_super_admin}
use edtech_back.ChatHistory.{failure_role, Thread, thread_messages, clear_thread}
pub mod Private
pub mod Counts

-- `_resolve_subject`
unfoldable pub resolve_subject : User → Option ℕ → Outcome ℕ
resolve_subject current teacher_id =
    if is_teacher current.role
    then elim teacher_id [
      | none ↦ ok current.id
      | some id ↦ if not (id == current.id) then http_error 403 else ok current.id
    ]
    else if is_super_admin current.role
    then elim teacher_id [ none ↦ ok current.id | some id ↦ ok id ]
    else http_error 403

-- the thread of a teacher
abbrev pub thread_of : ℕ → ℕ → Text → Thread
thread_of teacher_id lesson_id section = record {
  teacher_id = teacher_id;
  lesson_id = lesson_id;
  section = section;
}

-- `list_messages`; FastAPI answers 422 to a limit out of its range
unfoldable pub list_messages : Db → User → ℕ → Text → Option ℕ → ℕ → Outcome (List ChatMessage)
list_messages db current lesson_id section teacher_id limit =
    if not (leb 1 limit && leb limit 200)
    then http_error 422
    else elim (resolve_subject current teacher_id) [
      | http_error code ↦ http_error code
      | ok subject ↦ ok (
          thread_messages db (thread_of subject lesson_id section) limit
            (is_super_admin current.role))
    ]

unfoldable pub clear_messages : Db → User → ℕ → Text → Outcome (Unit {0}) × Db
clear_messages db current lesson_id section =
    if not (is_teacher current.role)
    then (http_error 403, db)
    else (ok tt, (clear_thread db (thread_of current.id lesson_id section)).0)

-- a row of `threads_for_teacher`
pub record ThreadRow : Type 0 where
  pub lesson_id : ℕ
  pub section : Text
  pub message_count : ℕ
  pub last_message_at : ℕ

-- the messages that are counted
abbrev pub is_counted : ℕ → ChatMessage → Bool
is_counted teacher_id m = m.teacher_id == teacher_id && not (text_eq m.role failure_role)

abbrev pub new_row : ChatMessage → ThreadRow
new_row m = record {
  lesson_id = m.lesson_id;
  section = m.section;
  message_count = 1;
  last_message_at = m.created_at;
}

-- a message, in the group of its lesson and class
unfoldable pub add_to_rows : ChatMessage → List ThreadRow → List ThreadRow
add_to_rows m [] = new_row m ∷ []
add_to_rows m (r ∷ rs) =
    if r.lesson_id == m.lesson_id && text_eq r.section m.section
    then record r {
      message_count = r.message_count + 1;
      last_message_at =
          if ltb r.last_message_at m.created_at then m.created_at else r.last_message_at;
    }
      ∷ rs
    else r ∷ add_to_rows m rs

-- `group_by(ChatMessage.lesson_id, ChatMessage.section)`
unfoldable pub grouped : List ChatMessage → List ThreadRow
grouped [] = []
grouped (m ∷ ms) = add_to_rows m (grouped ms)

-- `threads.sort(..., reverse=True)`
unfoldable pub insert_row : ThreadRow → List ThreadRow → List ThreadRow
insert_row r [] = r ∷ []
insert_row r (q ∷ qs) =
    if ltb r.last_message_at q.last_message_at then q ∷ insert_row r qs else r ∷ q ∷ qs

unfoldable pub sorted_rows : List ThreadRow → List ThreadRow
sorted_rows [] = []
sorted_rows (r ∷ rs) = insert_row r (sorted_rows rs)

unfoldable pub threads_for_teacher : Db → ℕ → List ThreadRow
threads_for_teacher db teacher_id = sorted_rows (grouped (select (is_counted teacher_id) db.chats))

unfoldable pub list_threads : Db → User → Option ℕ → Outcome (List ThreadRow)
list_threads db current teacher_id = elim (resolve_subject current teacher_id) [
  | http_error code ↦ http_error code
  | ok subject ↦ ok (threads_for_teacher db subject)
]

unfoldable pub export_chats : Db → User → Outcome (List ChatMessage)
export_chats db current = if not (is_super_admin current.role) then http_error 403 else ok db.chats
