-- ===== src/ChatHistory/Threads.antt =====
-- `save_exchange`, `thread_messages` and the clearing of a thread, of app/services/chat_history.py.
use edtech_back.Base.{
  ℕ, suc, ◌+◌, ◌<◌, ◌≡◌, refl, Bool, true, false, not, Option, none, List, [], ◌∷◌, ◌++◌, Text,
  codes, text_eq, text_eq_refl, nonempty, strip, select, delete_where, All, arith,
}
use edtech_back.Model.{ChatMessage, Db}
use edtech_back.ChatHistory.{
  failure_role, Thread, is_in_thread, message, add_message, add_answer, add_failure, save_exchange,
  insert_newest, newest_first, reversed, is_shown, thread_messages, clear_thread,
}

select-append_two :
    (p : ChatMessage → Bool) (ms : List ChatMessage) (q a : ChatMessage)
    → p q ≡ true
    → p a ≡ true
    → select p ((ms ++ q ∷ []) ++ a ∷ []) ≡ select p ms ++ q ∷ a ∷ []
unfolding select
select-append_two p [] q a hq ha = ground arith
select-append_two p (m ∷ ms) q a hq ha = ground (arith, select-append_two p ms q a hq ha)

-- An exchange that is later than all else comes first.
newest_first-append_two :
    (ms : List ChatMessage) (q a : ChatMessage)
    → q.created_at < a.created_at
    → All (λ m. m.created_at < q.created_at) ms
    → newest_first (ms ++ q ∷ a ∷ []) ≡ a ∷ q ∷ newest_first ms
unfolding newest_first insert_newest
newest_first-append_two [] q a h old = ground arith
newest_first-append_two (m ∷ ms) q a h old =
    rw (newest_first-append_two ms q a h old.1) (let o = old.0 in ground arith)

-- a message that is no failure is shown in its thread
shown :
    (id : ℕ) (t : Thread) (role content : Text) (source_ref : Option Text) (at : ℕ)
    → text_eq role failure_role ≡ false
    → is_shown false t (message id t role content source_ref at) ≡ true
shown id t role content source_ref at h = ground (arith, text_eq_refl t.section, h)

user_is_no_failure : text_eq (codes "user") failure_role ≡ false
unfolding text_eq
user_is_no_failure = refl

assistant_is_no_failure : text_eq (codes "assistant") failure_role ≡ false
unfolding text_eq
assistant_is_no_failure = refl

-- An answered question that is later than all of its thread is what the thread ends with, after
-- the messages that were its tail before.
pub save_exchange-thread_messages :
    (now limit : ℕ) (t : Thread) (question answer : Text) (source_ref : Option Text) (db : Db)
    → nonempty (strip question) ≡ true
    → nonempty (strip answer) ≡ true
    → All (λ m. m.created_at < now) (select (is_shown false t) db.chats)
    → thread_messages
        (save_exchange now t question answer source_ref [] db)
        t
        (suc (suc limit))
        false
      ≡ (thread_messages db t limit false
          ++ message db.next_id t (codes "user") question none now ∷ [])
        ++ message (db.next_id + 1) t (codes "assistant") answer source_ref (now + 1) ∷ []
unfolding thread_messages save_exchange add_failure add_answer add_message reversed
save_exchange-thread_messages now limit t question answer source_ref db asked answered old =
    let q = message db.next_id t (codes "user") question none now in
    let a = message (db.next_id + 1) t (codes "assistant") answer source_ref (now + 1) in
    rw asked (
      rw answered (
        rw
          (select-append_two (is_shown false t) db.chats q a
            (shown db.next_id t (codes "user") question none now user_is_no_failure)
            (shown (db.next_id + 1) t (codes "assistant") answer source_ref (now + 1)
              assistant_is_no_failure))
          (rw (newest_first-append_two (select (is_shown false t) db.chats) q a (omega arith) old)
            refl)))

select-delete_none :
    (p : ChatMessage → Bool) (ms : List ChatMessage) → select p (delete_where p ms) ≡ []
unfolding select delete_where
select-delete_none p [] = refl
select-delete_none p (m ∷ ms) = ground (arith, select-delete_none p ms)

select-delete_others :
    (p : ChatMessage → Bool) (ms : List ChatMessage)
    → select (λ m. not (p m)) (delete_where p ms) ≡ select (λ m. not (p m)) ms
unfolding select delete_where
select-delete_others p [] = refl
select-delete_others p (m ∷ ms) = ground (arith, select-delete_others p ms)

-- Clearing a thread leaves none of its messages, and every message of the other threads, in order.
pub clear_thread-alone :
    (db : Db) (t : Thread)
    → (select (is_in_thread t) (clear_thread db t).0.chats ≡ [])
      × (select (λ m. not (is_in_thread t m)) (clear_thread db t).0.chats
          ≡ select (λ m. not (is_in_thread t m)) db.chats)
unfolding clear_thread
clear_thread-alone db t =
    (select-delete_none (is_in_thread t) db.chats, select-delete_others (is_in_thread t) db.chats)
