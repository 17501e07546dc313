-- ===== src/Tests/Fixtures.antt =====
-- A teacher of the classes 6A and 6B, an administrator, and the rows of two lessons of grade 6.
use edtech_back.Base.{ℕ, Bool, true, false, none, some, [], ◌∷◌, Text, codes, pos}
use edtech_back.Model.{
  User, Role, UserStatus, Language, School, Lesson, LessonAssignment, Source, Progress,
  LessonStatus, WatchdogStatus, AccessRequest, RequestStatus, ChatMessage, RefreshToken,
  FairSection, FairProject, Db,
}
use edtech_back.Auth.Tokens.{TokenLibrary, Origin}
use edtech_back.Auth.Login.{PasswordLibrary}

abbrev pub class_a : Text
class_a = codes "A"

abbrev pub class_b : Text
class_b = codes "B"

abbrev pub teacher_1 : User
teacher_1 = record {
  id = 1;
  name = codes "Rima";
  email = codes "rima@school";
  password_hash = codes "pw";
  role = Role.teacher;
  status = UserStatus.active;
  school_id = some 7;
  grades = codes "G6" ∷ [];
  sections = (codes "G6", class_a ∷ class_b ∷ []) ∷ [];
  language = some Language.en;
  ict_fair_access = true;
  last_login_at = none;
  failed_login_count = 0;
  locked_until = none;
  failed_login_window_started_at = none;
  sessions_valid_from = none;
}

abbrev pub admin_2 : User
admin_2 = record {
  id = 2;
  name = codes "Nour";
  email = codes "nour@hq";
  password_hash = codes "pw";
  role = Role.super_admin;
  status = UserStatus.active;
  school_id = none;
  grades = [];
  sections = [];
  language = none;
  ict_fair_access = false;
  last_login_at = none;
  failed_login_count = 0;
  locked_until = none;
  failed_login_window_started_at = none;
  sessions_valid_from = none;
}

abbrev pub school_7 : School
school_7 = record { id = 7; name = codes "North"; program_year = 1 }

abbrev pub lesson_of : ℕ → ℕ → Lesson
lesson_of id number = record {
  id = id;
  title = codes "Loops";
  grade = pos 6;
  school_id = none;
  language = some Language.en;
  year = 1;
  course = none;
  lesson_no = some number;
  slide_count = some 10;
}

abbrev pub lesson_10 : Lesson
lesson_10 = lesson_of 10 1

abbrev pub lesson_11 : Lesson
lesson_11 = lesson_of 11 2

abbrev pub assignment_20 : LessonAssignment
assignment_20 = record { id = 20; lesson_id = 10; teacher_id = 1; source = Source.rule }

abbrev pub assignment_21 : LessonAssignment
assignment_21 = record { id = 21; lesson_id = 11; teacher_id = 1; source = Source.manual }

-- the row of a class of the teacher that has completed the first lesson
abbrev pub done_30 : Progress
done_30 = record {
  id = 30;
  teacher_id = 1;
  lesson_id = 10;
  section = class_a;
  status = LessonStatus.completed;
  percent_complete = 100;
  last_opened_at = some 5;
  last_slide = some 10;
  slide_total = some 10;
  completed_at = some 5;
  unlocked_override = false;
  watchdog = WatchdogStatus.on_track;
  watchdog_message = none;
}

-- the row of the other class, whose first lesson is open by an override
abbrev pub open_31 : Progress
open_31 = record {
  id = 31;
  teacher_id = 1;
  lesson_id = 10;
  section = class_b;
  status = LessonStatus.in_progress;
  percent_complete = 40;
  last_opened_at = some 5;
  last_slide = some 4;
  slide_total = some 10;
  completed_at = none;
  unlocked_override = true;
  watchdog = WatchdogStatus.on_track;
  watchdog_message = none;
}

-- the teacher asks for the second lesson, for the class that has just completed the first
abbrev pub request_40 : AccessRequest
request_40 = record {
  id = 40;
  teacher_id = 1;
  lesson_id = 11;
  section = class_a;
  status = RequestStatus.pending;
  note = none;
  resolved_by = none;
  resolved_at = none;
}

abbrev pub chat_50 : ChatMessage
chat_50 = record {
  id = 50;
  teacher_id = 1;
  lesson_id = 10;
  section = class_a;
  role = codes "user";
  content = codes "Why?";
  source_ref = none;
  created_at = 4;
}

-- the refresh token of the cookie "raw"
abbrev pub token_60 : RefreshToken
token_60 = record {
  id = 60;
  user_id = 1;
  token_hash = codes "raw";
  expires_at = 1000000000000;
  revoked = false;
  created_at = 1;
}

abbrev pub fair_section_70 : FairSection
fair_section_70 = record {
  id = 70;
  school_id = 7;
  title = codes "Robots";
  blurb = none;
  grades = codes "G6" ∷ [];
}

abbrev pub fair_project_71 : FairProject
fair_project_71 = record { id = 71; title = codes "Arm"; file_id = some 72; section_id = some 70 }

abbrev pub db_1 : Db
db_1 = record {
  users = teacher_1 ∷ admin_2 ∷ [];
  schools = school_7 ∷ [];
  lessons = lesson_10 ∷ lesson_11 ∷ [];
  assignments = assignment_20 ∷ assignment_21 ∷ [];
  progress = done_30 ∷ open_31 ∷ [];
  requests = request_40 ∷ [];
  chats = chat_50 ∷ [];
  tokens = token_60 ∷ [];
  throttles = [];
  log = [];
  usage = [];
  fair_sections = fair_section_70 ∷ [];
  fair_projects = fair_project_71 ∷ [];
  files = [];
  next_id = 100;
}

-- a library whose hashes are the texts themselves
abbrev pub plain_tokens : TokenLibrary
plain_tokens = record { hash_token = λ t. t; jwt_decode = λ _. none }

abbrev pub plain_passwords : (Text → Text → Bool) → PasswordLibrary
plain_passwords eq = record {
  verify_password = eq;
  hash_password = λ t. t;
  needs_rehash = λ _. false;
}

abbrev pub classroom : Origin
classroom = record { ip = codes "10.0.0.1"; device = codes "laptop" }
