-- ===== src/Tests/Chats.antt =====
-- Runs of the conversations with the assistant.
use edtech_back.Base.{
  ◌<◌, ◌≡◌, refl, true, false, none, [], ◌∷◌, ◌++◌, codes, text_eq, nonempty, strip, lstrip,
  is_space, select, All, arith,
}
use edtech_back.ChatHistory.{Thread, message, is_shown, save_exchange, thread_messages}
use edtech_back.ChatHistory.Threads.{save_exchange-thread_messages}
use edtech_back.Tests.Fixtures.{class_a, db_1}

abbrev thread_a : Thread
thread_a = record { teacher_id = 1; lesson_id = 10; section = class_a }

asks : nonempty (strip (codes "How?")) ≡ true
unfolding strip lstrip is_space
asks = refl

answers : nonempty (strip (codes "So.")) ≡ true
unfolding strip lstrip is_space
answers = refl

older : All (λ m. m.created_at < 20) (select (is_shown false thread_a) db_1.chats)
unfolding select text_eq
older = (omega arith, tt)

save_exchange-thread_messages_example :
    thread_messages
      (save_exchange 20 thread_a (codes "How?") (codes "So.") none [] db_1)
      thread_a
      7
      false
    ≡ (thread_messages db_1 thread_a 5 false
        ++ message 100 thread_a (codes "user") (codes "How?") none 20 ∷ [])
      ++ message 101 thread_a (codes "assistant") (codes "So.") none 21 ∷ []
save_exchange-thread_messages_example =
    save_exchange-thread_messages 20 5 thread_a (codes "How?") (codes "So.") none db_1 asks answers
      older
