-- ===== src/Tests/Served.antt =====
-- Runs of the serving of PDFs, and of the security log.
use edtech_back.Base.{◌&&◌, count_where, any, text_eq, map, int_lt}
use edtech_back.Lessons.Classes.{
  classes_from, class_lt, insert_class, sorted_classes, summary_of, my_classes,
}
use edtech_back.Base.{
  ◌≡◌, refl, Bool, true, false, none, some, [], ◌∷◌, codes, text_eq, contains_text, get_key, find,
  any, all, select, ok, digits_from, show_nat, int_eq,
}
use edtech_back.Model.{Db, default_settings}
use edtech_back.Grades.{grade_token, kg_int_to_token, show_int}
use edtech_back.Sections.{
  or_no_section, sections_for_token, sections_for, resolve_section, find_progress,
}
use edtech_back.LessonAccess.{walk, gate_after_finished, access_at, gate_behind}
use edtech_back.LessonAccess.Order.{
  course_order, lesson_order_key, key_lt, insert_lesson, sort_lessons, has_lesson,
}
use edtech_back.LessonAccess.Tracks.{
  track_key, track_key_eq, append_to_track, group_sections, group_lessons, get_access, set_access,
  store_track, walk_tracks, is_assigned, compute_access, chosen_section, section_access_at,
  any_available, is_lesson_available, get_access_status,
}
use edtech_back.Tests.Fixtures.{teacher_1, lesson_10, db_1}
use edtech_back.Model.{UploadedFile, SecurityLog, SecurityEvent, SecurityStatus}
use edtech_back.Base.{◌++◌, latest_first, count_where, digits_from, text_lt}
use edtech_back.Files.{is_fair_backed}
use edtech_back.Files.Read.{lesson_of_file, can_access, record_access, readable_file}
use edtech_back.Files.Read.Logged.{access_line, readable_file-assigned}
use edtech_back.Auth.Tokens.{Origin, record_event}
use edtech_back.SigninWatch.{
  WatchLibrary, warning, last_signin, later, is_signin_of, is_elsewhere, already_warned,
  check_sign_in,
}
use edtech_back.SecurityRoutes.{
  may_read, may_see_account, in_scope_of, insert_log, newest_logs, LogDetail, ip_rows, recent_of,
  sessions_of, security_log_detail,
}
use edtech_back.SecurityRoutes.Detail.{is_at, is_beside, is_open_for, security_log_detail-scoped}
use edtech_back.SecurityRoutes.{is_failed_login}
use edtech_back.SigninWatch.{is_normal_login}
use edtech_back.Assignments.Many.{sorted_names, add_name}
use edtech_back.Tests.Fixtures.{token_60, classroom}

-- what the runs below compute with
served_program : Unit {0}
unfolding find any all select text_eq contains_text get_key or_no_section sections_for_token
    sections_for resolve_section find_progress digits_from show_nat grade_token kg_int_to_token
    show_int is_assigned gate_after_finished access_at gate_behind walk course_order
    lesson_order_key key_lt insert_lesson sort_lessons has_lesson track_key track_key_eq
    append_to_track group_sections group_lessons get_access set_access store_track walk_tracks
    compute_access chosen_section section_access_at any_available is_lesson_available
    get_access_status int_eq text_lt readable_file can_access record_access record_event
served_program = tt

-- a file of the first lesson, which is open to the class 6B
abbrev file_82 : UploadedFile
file_82 = record {
  id = 82;
  filename = codes "Loops.pdf";
  storage_path = some (codes "82.pdf");
  linked_lesson_id = some 10;
}

abbrev db_s : Db
db_s = record db_1 { files = file_82 ∷ [] }

abbrev on_disk : UploadedFile → Bool
on_disk f = true

serves_82 : (readable_file on_disk default_settings 9 classroom db_s teacher_1 82).0 ≡ ok file_82
unfolding served_program
serves_82 = refl

not_backed : is_fair_backed db_s 82 ≡ false
unfolding served_program
not_backed = refl

linked_82 : lesson_of_file db_s (some 10) ≡ some lesson_10
unfolding served_program
linked_82 = refl

readable_file-assigned_example :
    (is_assigned db_s.assignments 1 10 ≡ true)
    × (is_lesson_available default_settings 9 db_s teacher_1 10 none ≡ true)
    × ((readable_file on_disk default_settings 9 classroom db_s teacher_1 82).1.log
        ≡ []
          ++ access_line 100 9 classroom teacher_1 SecurityEvent.lesson_file_served
              SecurityStatus.ok
            ∷ [])
readable_file-assigned_example =
    readable_file-assigned on_disk default_settings 9 classroom db_s teacher_1 82 file_82 lesson_10
      serves_82 refl not_backed linked_82

-- networks and browsers that are told apart by their texts
abbrev plain_watch : WatchLibrary
plain_watch = record { network_of = λ t. t; family = λ t. t }

abbrev elsewhere : Origin
elsewhere = record { ip = codes "10.9.0.1"; device = codes "laptop" }

abbrev signin_90 : SecurityLog
signin_90 = record {
  id = 90;
  user_id = some 1;
  user_name = codes "Rima";
  school_id = some 7;
  ip = codes "10.0.0.1";
  device = codes "laptop";
  event = SecurityEvent.normal_login;
  status = SecurityStatus.ok;
  timestamp = 5;
}

abbrev db_w : Db
db_w = record db_1 { log = signin_90 ∷ [] }

abbrev warned_100 : SecurityLog
warned_100 = warning 100 9 elsewhere teacher_1 SecurityEvent.suspicious_location

abbrev db_w' : Db
db_w' = record db_1 { log = signin_90 ∷ warned_100 ∷ []; next_id = 101 }

warns : check_sign_in plain_watch default_settings 9 teacher_1 elsewhere db_w ≡ warned_100 ∷ []
unfolding served_program is_signin_of later last_signin is_elsewhere already_warned check_sign_in
    warning
warns = refl

abbrev detail_90 : LogDetail
detail_90 = record {
  log = signin_90;
  sign_ins = 1;
  failed_attempts = 0;
  users = codes "Rima" ∷ [];
  recent_events = [];
  active_sessions = token_60 ∷ [];
}

details : security_log_detail 9 db_w teacher_1 90 ≡ ok detail_90
unfolding served_program in_scope_of may_read may_see_account insert_log newest_logs ip_rows
    recent_of sessions_of security_log_detail sorted_names add_name latest_first count_where
details = refl

security_log_detail-scoped_example :
    (may_read teacher_1 signin_90 ≡ true)
    × (all (λ e. may_read teacher_1 e && is_beside signin_90 e) [] ≡ true)
    × (all (is_open_for 9 db_w teacher_1 signin_90) (token_60 ∷ []) ≡ true)
    × (1
        ≡ count_where
            (λ e. is_at signin_90.ip e && may_read teacher_1 e && is_normal_login e.event)
            db_w.log)
    × (0
        ≡ count_where
            (λ e. is_at signin_90.ip e && may_read teacher_1 e && is_failed_login e.event)
            db_w.log)
    × (all
          (λ n.
            any
              (λ e. is_at signin_90.ip e && may_read teacher_1 e && text_eq e.user_name n)
              db_w.log)
          (codes "Rima" ∷ [])
        ≡ true)
security_log_detail-scoped_example =
    security_log_detail-scoped db_w teacher_1 refl 9 90 detail_90 details

-- of the classes 6A and 6B, the first has completed a lesson
classes : map (λ c. c.completed) (my_classes default_settings 9 db_1 teacher_1) ≡ 1 ∷ 0 ∷ []
unfolding served_program classes_from class_lt insert_class sorted_classes summary_of my_classes
    int_lt count_where
classes = refl
