-- ===== src/Chat/Private.antt =====
-- `list_messages` of app/routers/chat.py, and whose messages it shows.
use edtech_back.Base.{
  ℕ, ◌≡◌, refl, ◌∙◌, Bool, true, not, ◌&&◌, ◌||◌, Option, none, some, List, [], ◌∷◌, Text, text_eq,
  leb, ◌==◌, select, take, all, all-take, all-select, all-append, ok, Outcome-cases, arith,
  Bool-cases, inl, inr,
}
use edtech_back.Model.{User, ChatMessage, Db, is_super_admin}
use edtech_back.ChatHistory.{
  failure_role, Thread, thread_messages, is_shown, insert_newest, newest_first, reversed,
}
use edtech_back.Chat.{resolve_subject, thread_of, list_messages}

module _ (p : ChatMessage → Bool) where
  all-insert_newest :
      (m : ChatMessage) (ms : List ChatMessage) → all p (insert_newest m ms) ≡ (p m && all p ms)
  unfolding all insert_newest
  all-insert_newest m [] = refl
  all-insert_newest m (n ∷ ns) = ground (arith, all-insert_newest m ns)

  all-newest_first : (ms : List ChatMessage) → all p (newest_first ms) ≡ all p ms
  unfolding all newest_first
  all-newest_first [] = refl
  all-newest_first (m ∷ ms) =
      ground (arith, all-insert_newest m (newest_first ms), all-newest_first ms)

  all-reversed : (ms : List ChatMessage) → all p (reversed ms) ≡ all p ms
  unfolding all reversed
  all-reversed [] = refl
  all-reversed (m ∷ ms) = ground (arith, all-append p (reversed ms) (m ∷ []), all-reversed ms)

  all-thread_messages :
      (db : Db) (t : Thread) (limit : ℕ) (failures : Bool)
      → ((m : ChatMessage) → is_shown failures t m ≡ true → p m ≡ true)
      → all p (thread_messages db t limit failures) ≡ true
  unfolding thread_messages
  all-thread_messages db t limit failures h =
      all-reversed (take limit (newest_first (select (is_shown failures t) db.chats)))
      ∙ all-take p limit (newest_first (select (is_shown failures t) db.chats)) (
          all-newest_first (select (is_shown failures t) db.chats)
          ∙ all-select p (is_shown failures t) h db.chats)

resolve_subject-own :
    (current : User) (teacher_id : Option ℕ) {subject : ℕ}
    → resolve_subject current teacher_id ≡ ok subject
    → (is_super_admin current.role || subject == current.id) ≡ true
unfolding resolve_subject
resolve_subject-own current none h = ground arith
resolve_subject-own current (some id) h = ground arith

-- The messages that are listed are of the lesson and the class that are asked for, and are the
-- account's own and no failures, unless it is a super-admin.
pub list_messages-own :
    (db : Db) (current : User) (lesson_id : ℕ) (section : Text) (teacher_id : Option ℕ) (limit : ℕ)
    (ms : List ChatMessage)
    → list_messages db current lesson_id section teacher_id limit ≡ ok ms
    → all
        (λ m.
          m.lesson_id == lesson_id
          && text_eq m.section section
          && (is_super_admin current.role
              || (m.teacher_id == current.id && not (text_eq m.role failure_role))))
        ms
      ≡ true
unfolding list_messages
list_messages-own db current lesson_id section teacher_id limit ms h =
    elim (Bool-cases (not (leb 1 limit && leb limit 200))) [
      | inl out ↦ absurd (ground arith)
      | inr within ↦ elim (Outcome-cases (resolve_subject current teacher_id)) [
        | inl (code, e) ↦ absurd (ground arith)
        | inr (subject, e) ↦
            let same : ms
                ≡ thread_messages db (thread_of subject lesson_id section) limit
                    (is_super_admin current.role) =
              ground arith in
            let own = resolve_subject-own current teacher_id e in
            rw same (
              all-thread_messages _ db (thread_of subject lesson_id section) limit
                (is_super_admin current.role) (λ m shown. ground arith))
      ]
    ]
