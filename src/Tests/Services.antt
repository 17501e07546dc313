-- ===== src/Tests/Services.antt =====
-- Runs of the quota of the assistant, of the fair, and of the editing of accounts and schools.
use edtech_back.Base.{
  ◌≡◌, ◌<◌, ◌&&◌, refl, true, some, [], ◌∷◌, codes, text_eq, contains_text, get_key, lower_code,
  find, any, all, select, update_where, delete_where, count_where, ◌==◌, arith,
}
use edtech_back.Model.{AiUsage, Db, Settings, default_settings, hours}
use edtech_back.AiUsage.{
  counts_for, hourly_limit, daily_limit, within, is_within, enforce_ai_limit, insert_sorted, sorted,
  frees_at, day_stamps, hour_stamps, quota_for,
}
use edtech_back.AiUsage.Limits.{is_left, enforce_ai_limit-quota_for, quota_for-hourly_resets_at}
use edtech_back.FairAccess.{section_visible_to, can_see_fair, teaches_any_grade, is_filed_behind}
use edtech_back.Schools.{holds_school, delete_school}
use edtech_back.Tests.Fixtures.{teacher_1, fair_section_70, fair_project_71, db_1}

-- what the runs below compute with
services_program : Unit {0}
unfolding find any all select update_where delete_where count_where text_eq contains_text get_key
    lower_code hourly_limit daily_limit enforce_ai_limit insert_sorted sorted frees_at day_stamps
    hour_stamps quota_for section_visible_to can_see_fair teaches_any_grade holds_school
    delete_school
services_program = tt

-- one question an hour, of which the teacher has asked one
abbrev one_an_hour : Settings
one_an_hour = record default_settings { ai_teacher_hourly_limit = 1 }

abbrev question : AiUsage
question = record {
  id = 90;
  user_id = some 1;
  school_id = some 7;
  kind = codes "teacher";
  created_at = 5;
}

abbrev db_asked : Db
db_asked = record db_1 { usage = question ∷ [] }

enforce_ai_limit-quota_for_example :
    (is_left (quota_for one_an_hour 9 teacher_1 (codes "teacher") db_asked).hourly_remaining
      && is_left (quota_for one_an_hour 9 teacher_1 (codes "teacher") db_asked).daily_remaining)
    ≡ is_within (enforce_ai_limit one_an_hour 9 teacher_1 (codes "teacher") db_asked)
enforce_ai_limit-quota_for_example =
    enforce_ai_limit-quota_for one_an_hour 9 teacher_1 (codes "teacher") db_asked

lets_through : enforce_ai_limit one_an_hour 9 teacher_1 (codes "teacher") db_1 ≡ within
unfolding services_program
lets_through = refl

shown :
    (quota_for one_an_hour 9 teacher_1 (codes "teacher") db_asked).hourly_resets_at
    ≡ some 3600000005
unfolding services_program
shown = refl

full :
    (quota_for one_an_hour 9 teacher_1 (codes "teacher") db_asked).hourly_used
    ≡ hourly_limit one_an_hour (codes "teacher")
unfolding services_program
full = refl

quota_for-hourly_resets_at_example :
    count_where (counts_for 1 (codes "teacher") (hours 1) 3600000006) (question ∷ [])
    < hourly_limit one_an_hour (codes "teacher")
quota_for-hourly_resets_at_example =
    quota_for-hourly_resets_at one_an_hour 9 3600000005 3600000006 teacher_1 (codes "teacher")
      db_asked shown full (omega arith) (omega arith)

listed : find (λ s. s.id == 70) db_1.fair_sections ≡ some fair_section_70
unfolding services_program
listed = refl

sees_70 : section_visible_to teacher_1 fair_section_70 ≡ true
unfolding services_program
sees_70 = refl

project_71 : find (λ q. q.id == 71) db_1.fair_projects ≡ some fair_project_71
unfolding services_program
project_71 = refl

behind_72 : find (is_filed_behind db_1 72) db_1.fair_projects ≡ some fair_project_71
unfolding services_program
behind_72 = refl
