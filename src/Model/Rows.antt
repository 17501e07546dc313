-- ===== src/Model/Rows.antt =====
-- The tables: app/models/user.py, school.py, lesson.py, progress.py, access_request.py, chat.py,
-- token.py, login_throttle.py, security_log.py, ai_usage.py, fair_section.py, fair_project.py.
-- Columns that no modelled operation reads or writes are left out.
use edtech_back.Base.{ℕ, Text, Bool, Option, List, ℤ}
use edtech_back.Model.Enums.{
  Role, Language, UserStatus, LessonStatus, WatchdogStatus, SecurityEvent, SecurityStatus,
  RequestStatus, Source,
}

-- a JSON object from grade tokens to class labels
abbrev pub Sections : Type 0
Sections = List (Text × List Text)

pub record User : Type 0 where
  pub id : ℕ
  pub name : Text
  pub email : Text
  pub password_hash : Text
  pub role : Role
  pub status : UserStatus
  pub school_id : Option ℕ
  pub grades : List Text
  pub sections : Sections
  pub language : Option Language
  pub ict_fair_access : Bool
  pub last_login_at : Option ℕ
  pub failed_login_count : ℕ
  pub locked_until : Option ℕ
  pub failed_login_window_started_at : Option ℕ
  pub sessions_valid_from : Option ℕ

pub record School : Type 0 where
  pub id : ℕ
  pub name : Text
  pub program_year : ℕ

pub record Lesson : Type 0 where
  pub id : ℕ
  pub title : Text
  pub grade : ℤ
  pub school_id : Option ℕ
  pub language : Option Language
  pub year : ℕ
  pub course : Option Text
  pub lesson_no : Option ℕ
  pub slide_count : Option ℕ

pub record LessonAssignment : Type 0 where
  pub id : ℕ
  pub lesson_id : ℕ
  pub teacher_id : ℕ
  pub source : Source

pub record Progress : Type 0 where
  pub id : ℕ
  pub teacher_id : ℕ
  pub lesson_id : ℕ
  pub section : Text
  pub status : LessonStatus
  pub percent_complete : ℕ
  pub last_opened_at : Option ℕ
  pub last_slide : Option ℕ
  pub slide_total : Option ℕ
  pub completed_at : Option ℕ
  pub unlocked_override : Bool
  pub watchdog : WatchdogStatus
  pub watchdog_message : Option Text

pub record AccessRequest : Type 0 where
  pub id : ℕ
  pub teacher_id : ℕ
  pub lesson_id : ℕ
  pub section : Text
  pub status : RequestStatus
  pub note : Option Text
  pub resolved_by : Option ℕ
  pub resolved_at : Option ℕ

pub record ChatMessage : Type 0 where
  pub id : ℕ
  pub teacher_id : ℕ
  pub lesson_id : ℕ
  pub section : Text
  pub role : Text
  pub content : Text
  pub source_ref : Option Text
  pub created_at : ℕ

pub record RefreshToken : Type 0 where
  pub id : ℕ
  pub user_id : ℕ
  pub token_hash : Text
  pub expires_at : ℕ
  pub revoked : Bool
  pub created_at : ℕ

pub record LoginThrottle : Type 0 where
  pub ip : Text
  pub failed_count : ℕ
  pub cycle_count : ℕ
  pub window_started_at : Option ℕ
  pub locked_until : Option ℕ
  pub blocked_at : Option ℕ
  pub reason : Text
  pub cycle_started_at : Option ℕ
  pub last_success_at : Option ℕ

pub record SecurityLog : Type 0 where
  pub id : ℕ
  pub user_id : Option ℕ
  pub user_name : Text
  pub school_id : Option ℕ
  pub ip : Text
  pub device : Text
  pub event : SecurityEvent
  pub status : SecurityStatus
  pub timestamp : ℕ

pub record AiUsage : Type 0 where
  pub id : ℕ
  pub user_id : Option ℕ
  pub school_id : Option ℕ
  pub kind : Text
  pub created_at : ℕ

pub record FairSection : Type 0 where
  pub id : ℕ
  pub school_id : ℕ
  pub title : Text
  pub blurb : Option Text
  pub grades : List Text

pub record FairProject : Type 0 where
  pub id : ℕ
  pub title : Text
  pub file_id : Option ℕ
  pub section_id : Option ℕ

-- The database. `next_id` stands for the random source of `new_id`: ids that it draws are fresh.
pub record UploadedFile : Type 0 where
  pub id : ℕ
  pub filename : Text
  pub storage_path : Option Text
  pub linked_lesson_id : Option ℕ

pub record Db : Type 0 where
  pub users : List User
  pub schools : List School
  pub lessons : List Lesson
  pub assignments : List LessonAssignment
  pub progress : List Progress
  pub requests : List AccessRequest
  pub chats : List ChatMessage
  pub tokens : List RefreshToken
  pub throttles : List LoginThrottle
  pub log : List SecurityLog
  pub usage : List AiUsage
  pub fair_sections : List FairSection
  pub fair_projects : List FairProject
  pub files : List UploadedFile
  pub next_id : ℕ
