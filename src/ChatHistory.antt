-- ===== src/ChatHistory.antt =====
-- app/services/chat_history.py: the conversations of a teacher with the assistant, one thread for
-- each lesson and class; `threads_for_teacher` is in Chat. A database that fails in `save_exchange` is
-- left out. Between messages of one moment the query may choose; here the one that
-- was added first counts as the newer.
use edtech_back.Base.{
  ℕ, ◌+◌, Bool, true, false, not, ◌&&◌, ◌||◌, Option, none, some, List, [], ◌∷◌, ◌++◌, Text, codes,
  text_eq, nonempty, strip, take, leb, ltb, ◌==◌, select, delete_where, count_where, if◌then◌else◌,
}
use edtech_back.Model.{ChatMessage, Db, days}
pub mod Threads

-- `FAILURE_ROLE`
abbrev pub failure_role : Text
failure_role = codes "error"

-- the columns of a thread
pub record Thread : Type 0 where
  pub teacher_id : ℕ
  pub lesson_id : ℕ
  pub section : Text

abbrev pub is_in_thread : Thread → ChatMessage → Bool
is_in_thread t m =
    m.teacher_id == t.teacher_id && m.lesson_id == t.lesson_id && text_eq m.section t.section

abbrev pub message : ℕ → Thread → Text → Text → Option Text → ℕ → ChatMessage
message id t role content source_ref created_at = record {
  id = id;
  teacher_id = t.teacher_id;
  lesson_id = t.lesson_id;
  section = t.section;
  role = role;
  content = content;
  source_ref = source_ref;
  created_at = created_at;
}

unfoldable pub add_message : ChatMessage → Db → Db
add_message m db = record db { chats = db.chats ++ m ∷ []; next_id = db.next_id + 1 }

-- the answer, a microsecond after the question
unfoldable pub add_answer : ℕ → Thread → Text → Option Text → Db → Db
add_answer now t answer source_ref db =
    if not (nonempty (strip answer))
    then db
    else add_message (message db.next_id t (codes "assistant") answer source_ref (now + 1)) db

unfoldable pub add_failure : ℕ → Thread → Text → Db → Db
add_failure now t failure db =
    if not (nonempty failure)
    then db
    else add_message (message db.next_id t failure_role failure none (now + 2)) db

-- `save_exchange`, with a lesson
unfoldable pub save_exchange : ℕ → Thread → Text → Text → Option Text → Text → Db → Db
save_exchange now t question answer source_ref failure db =
    if not (nonempty (strip question))
    then db
    else add_failure now t failure (
        add_answer now t answer source_ref
          (add_message (message db.next_id t (codes "user") question none now) db))

-- `order_by(ChatMessage.created_at.desc())`
unfoldable pub insert_newest : ChatMessage → List ChatMessage → List ChatMessage
insert_newest m [] = m ∷ []
insert_newest m (n ∷ ns) =
    let rest = insert_newest m ns in if leb n.created_at m.created_at then m ∷ n ∷ ns else n ∷ rest

unfoldable pub newest_first : List ChatMessage → List ChatMessage
newest_first [] = []
newest_first (m ∷ ms) = insert_newest m (newest_first ms)

unfoldable pub reversed : List ChatMessage → List ChatMessage
reversed [] = []
reversed (m ∷ ms) = reversed ms ++ m ∷ []

-- the conditions of the query
abbrev pub is_shown : Bool → Thread → ChatMessage → Bool
is_shown include_failures t m =
    is_in_thread t m && (include_failures || not (text_eq m.role failure_role))

unfoldable pub thread_messages : Db → Thread → ℕ → Bool → List ChatMessage
thread_messages db t limit include_failures =
    reversed (take limit (newest_first (select (is_shown include_failures t) db.chats)))

-- `clear_thread`: the database, and the number of rows
unfoldable pub clear_thread : Db → Thread → Db × ℕ
clear_thread db t = (
  record db { chats = delete_where (is_in_thread t) db.chats },
  count_where (is_in_thread t) db.chats,
)

abbrev pub is_expired : ℕ → ℕ → ChatMessage → Bool
is_expired now retention_days m = ltb (m.created_at + days retention_days) now

-- `purge_expired`, with the number of days that is in force
unfoldable pub purge_expired : ℕ → ℕ → Db → Db × ℕ
purge_expired now retention_days db = if retention_days == 0 then (db, 0) else (
  record db { chats = delete_where (is_expired now retention_days) db.chats },
  count_where (is_expired now retention_days) db.chats,
)
