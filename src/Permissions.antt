-- ===== src/Permissions.antt =====
-- app/permissions.py: the capability matrix, and the rules that narrow it for one account.
use edtech_back.Base.{
  Bool, true, false, not, ◌&&◌, ◌||◌, List, [], ◌∷◌, Text, all, nonempty, if◌then◌else◌,
}
use edtech_back.Model.{Role, User}
use edtech_back.Grades.{is_kindergarten_token}
pub mod Laws

-- `Capability`, one of these strings
pub data Capability : Type 0 where
  approve_accounts create_users suspend_users upload_files assign_files : Capability
  view_all_schools view_own_school_teachers request_reports export_reports : Capability
  view_global_security view_school_security view_teacher_chats : Capability
  view_assigned_lessons use_ai_assistant : Capability

-- `can`: `capability in _MATRIX.get(role, set())`
unfoldable pub can : Role → Capability → Bool
can Role.super_admin Capability.view_assigned_lessons = false
can Role.super_admin Capability.use_ai_assistant = false
can Role.super_admin _ = true
can Role.school_admin Capability.view_own_school_teachers = true
can Role.school_admin Capability.request_reports = true
can Role.school_admin Capability.export_reports = true
can Role.school_admin Capability.view_school_security = true
can Role.school_admin _ = false
can Role.teacher Capability.view_assigned_lessons = true
can Role.teacher Capability.use_ai_assistant = true
can Role.teacher _ = false

unfoldable pub teaches_only_kindergarten : User → Bool
teaches_only_kindergarten user = nonempty user.grades && all is_kindergarten_token user.grades

abbrev pub is_use_ai : Capability → Bool
is_use_ai Capability.use_ai_assistant = true
is_use_ai _ = false

unfoldable pub user_can : User → Capability → Bool
user_can user capability =
    if not (can user.role capability)
    then false
    else if is_use_ai capability && teaches_only_kindergarten user
    then false
    else true
