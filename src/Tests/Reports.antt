-- ===== src/Tests/Reports.antt =====
-- Runs of the conversations that are shown, of the counts of a report, and of a capped upload.
use edtech_back.Base.{
  ℕ, ◌≡◌, ◌+◌, ◌*◌, ◌≤◌, refl, true, not, ◌&&◌, ◌||◌, Option, none, some, [], ◌∷◌, text_eq, codes,
  ◌==◌, ltb, length, select, all, count_where, contains, nonempty, ok, http_error, if◌then◌else◌,
}
use edtech_back.Base.{Text, ℕ, Bool}
use edtech_back.Model.{User, is_super_admin}
use edtech_back.ChatHistory.{failure_role, thread_messages, insert_newest, newest_first, reversed}
use edtech_back.Chat.{resolve_subject, list_messages}
use edtech_back.Chat.Private.{list_messages-own}
use edtech_back.ReportMetrics.{week, is_since, is_question, movement}
use edtech_back.ReportMetrics.Weeks.{movement-weeks}
use edtech_back.Files.Capped.{read_upload_capped, joined, read_upload_capped-joined}
use edtech_back.Dashboard.{stalled_teachers}
use edtech_back.Dashboard.Agrees.{stalled_teachers-quiet_teachers}
use edtech_back.ReportMetrics.{quiet_teachers}
use edtech_back.Base.{count_where, ltb}
use edtech_back.Model.{days}
use edtech_back.Tests.Fixtures.{class_a, teacher_1, chat_50, db_1}

-- what the runs below compute with
reports_program : Unit {0}
unfolding text_eq select all list_messages resolve_subject thread_messages insert_newest
    newest_first reversed
reports_program = tt

lists_50 : list_messages db_1 teacher_1 10 class_a none 50 ≡ ok (chat_50 ∷ [])
unfolding reports_program
lists_50 = refl

list_messages-own_example :
    all
      (λ m.
        m.lesson_id == 10
        && text_eq m.section class_a
        && (is_super_admin teacher_1.role
            || (m.teacher_id == 1 && not (text_eq m.role failure_role))))
      (chat_50 ∷ [])
    ≡ true
list_messages-own_example =
    list_messages-own db_1 teacher_1 10 class_a none 50 (chat_50 ∷ []) lists_50

movement-weeks_example :
    ((movement 9 db_1 (1 ∷ []) (some 7)).completed.this_week
        + (movement 9 db_1 (1 ∷ []) (some 7)).completed.prior_week
      ≡ count_where
          (λ p. contains p.teacher_id (1 ∷ []) && is_since 9 (2 * week) p.completed_at)
          db_1.progress)
    × ((movement 9 db_1 (1 ∷ []) (some 7)).questions.this_week
          + (movement 9 db_1 (1 ∷ []) (some 7)).questions.prior_week
        ≡ count_where
            (λ m. is_question (1 ∷ []) m && is_since 9 (2 * week) (some m.created_at))
            db_1.chats)
    × ((movement 9 db_1 (1 ∷ []) (some 7)).teachers_active
        ≤ (movement 9 db_1 (1 ∷ []) (some 7)).lessons_touched)
movement-weeks_example = movement-weeks 9 db_1 (1 ∷ []) (some 7) refl

abbrev long_ago : User → Option ℕ
long_ago t = some 0

whole : all (λ c. nonempty c) (codes "%PDF" ∷ codes "-1" ∷ []) ≡ true
unfolding reports_program
whole = refl

read_upload_capped-joined_example : read_upload_capped 5 0 (codes "%PDF" ∷ codes "-1" ∷ []) ≡ (
    if ltb 5 (length (joined (codes "%PDF" ∷ codes "-1" ∷ [])))
    then http_error 413
    else ok (joined (codes "%PDF" ∷ codes "-1" ∷ [])))
read_upload_capped-joined_example =
    read_upload_capped-joined 5 (codes "%PDF" ∷ codes "-1" ∷ []) whole

abbrev told : Text → Text → ℕ → Bool
told name email completed = ltb 0 completed

abbrev joined_at : User → Option ℕ
joined_at t = some 0

stalled_teachers-quiet_teachers_example :
    count_where
      (λ s. told s.name s.email s.completed_count)
      (stalled_teachers (days 20) joined_at db_1)
    ≡ count_where
        (λ q. told q.name q.email q.completed)
        (quiet_teachers (days 20) joined_at db_1 db_1.users)
stalled_teachers-quiet_teachers_example =
    stalled_teachers-quiet_teachers told (days 20) joined_at db_1
