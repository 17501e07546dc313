-- ===== src/Model/Enums.antt =====
-- app/models/enums.py, and the equality of its members.
use mathlib.Core.Bool.{Bool, true, false}

pub data Role : Type 0 where
  super_admin school_admin teacher : Role

pub data Language : Type 0 where
  en fr both : Language

pub data UserStatus : Type 0 where
  active pending suspended rejected : UserStatus

pub data LessonStatus : Type 0 where
  not_started in_progress completed : LessonStatus

pub data WatchdogStatus : Type 0 where
  on_track not_opened completed needs_attention : WatchdogStatus

pub data SecurityEvent : Type 0 where
  normal_login foreign_device new_ip suspicious_location blocked_second_device : SecurityEvent
  failed_login account_locked password_reset signed_out_all progress_reset : SecurityEvent
  lesson_file_served lesson_file_refused : SecurityEvent

pub data SecurityStatus : Type 0 where
  ok warning blocked : SecurityStatus

-- `AccessRequest.status`, one of three strings
pub data RequestStatus : Type 0 where
  pending granted denied : RequestStatus

-- `LessonAssignment.source`
pub data Source : Type 0 where
  rule manual : Source

abbrev pub is_super_admin : Role → Bool
is_super_admin Role.super_admin = true
is_super_admin _ = false

abbrev pub is_teacher : Role → Bool
is_teacher Role.teacher = true
is_teacher _ = false

abbrev pub is_active : UserStatus → Bool
is_active UserStatus.active = true
is_active _ = false

abbrev pub is_completed : LessonStatus → Bool
is_completed LessonStatus.completed = true
is_completed _ = false

abbrev pub is_not_started : LessonStatus → Bool
is_not_started LessonStatus.not_started = true
is_not_started _ = false

abbrev pub is_pending : RequestStatus → Bool
is_pending RequestStatus.pending = true
is_pending _ = false

abbrev pub is_rule : Source → Bool
is_rule Source.rule = true
is_rule Source.manual = false

abbrev pub language_eq : Language → Language → Bool
language_eq Language.en Language.en = true
language_eq Language.fr Language.fr = true
language_eq Language.both Language.both = true
language_eq _ _ = false
