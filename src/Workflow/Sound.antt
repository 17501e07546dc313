-- ===== src/Workflow/Sound.antt =====
-- The rows of progress through any sequence of the steps of Workflow, and of no other operations.
use edtech_back.Base.{ℕ}
use edtech_back.Model.{Db, Settings}
use edtech_back.ProgressRoute.Record.{IsSound}
use edtech_back.ProgressRoute.Sound.{update_progress-IsSound}
use edtech_back.ProgressReset.Laws.{reset_progress-IsSound}
use edtech_back.AccessRequests.Grant.{answer_request-IsSound}
use edtech_back.Workflow.{Step, Reach}
use edtech_back.Workflow.Assigned.{
  sync_teacher_assignments-IsSound, prune_teacher_assignments-IsSound,
}
use edtech_back.Workflow.Edited.{run_edit-IsSound}
use edtech_back.Workflow.Requests.{
  rename_section_at-IsSound, create_request-IsSound, set_lesson_override-IsSound,
}

module _ (percent_of : ℕ → ℕ → ℕ) (settings : Settings) where
  Step-IsSound : (a b : Db) → Step percent_of settings a b → IsSound a → IsSound b
  Step-IsSound a b (Step.reported db now current l payload) h =
      update_progress-IsSound percent_of settings now db current h l payload
  Step-IsSound a b (Step.was_reset db teacher l s note) h =
      reset_progress-IsSound db teacher l s note h
  Step-IsSound a b (Step.asked db now current payload) h =
      create_request-IsSound settings now db current payload h
  Step-IsSound a b (Step.answered db now id admin granted) h =
      answer_request-IsSound now db id admin granted h
  Step-IsSound a b (Step.overridden db now t l requested unlocked admin) h =
      set_lesson_override-IsSound now db t l requested unlocked admin h
  Step-IsSound a b (Step.edited db now origin user e) h = run_edit-IsSound now origin db user h e
  Step-IsSound a b (Step.synced db teacher) h = sync_teacher_assignments-IsSound db teacher h
  Step-IsSound a b (Step.pruned db teacher) h = prune_teacher_assignments-IsSound db teacher h
  Step-IsSound a b (Step.renamed db t grade old new) h =
      rename_section_at-IsSound db t grade old new h

  -- Whatever reports, resets, requests and their answers, overrides, edits of lessons and of their
  -- assignments, runs of the rule and of its pruning, and renamings of classes follow each other, in
  -- any order, at any moments and by any users: the rows of progress stay unique for a teacher, a lesson and a class, with a percentage
  -- of at most 100 that is 100 exactly where the status is completed, and a completion time exactly
  -- there.
  pub Reach-IsSound : (a b : Db) → Reach percent_of settings a b → IsSound a → IsSound b
  Reach-IsSound a b Reach.here h = h
  Reach-IsSound a b (Reach.next before step) h = Step-IsSound _ b step (Reach-IsSound a _ before h)
