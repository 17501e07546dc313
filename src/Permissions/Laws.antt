-- ===== src/Permissions/Laws.antt =====
-- What the account rules do to the matrix.
use edtech_back.Base.{◌≡◌, Bool, true, false, arith, ◌↔◌}
use edtech_back.Model.{Role, User}
use edtech_back.Permissions.{Capability, can, user_can, teaches_only_kindergarten}

-- An account has a capability exactly when its role carries it and the account is not, for the
-- assistant, one that has grades and only kindergarten ones.
pub user_can_iff :
    (user : User) (c : Capability)
    → (user_can user c ≡ true) ↔ (
        (can user.role c ≡ true)
        × (c ≡ Capability.use_ai_assistant → teaches_only_kindergarten user ≡ false))
unfolding user_can
user_can_iff user c = (λ h. (ground arith, λ e. ground arith), λ h. ground (arith, h.1))

-- what only the platform's administrators do
abbrev pub is_privileged : Capability → Bool
is_privileged Capability.approve_accounts = true
is_privileged Capability.create_users = true
is_privileged Capability.suspend_users = true
is_privileged Capability.upload_files = true
is_privileged Capability.assign_files = true
is_privileged Capability.view_all_schools = true
is_privileged Capability.view_global_security = true
is_privileged Capability.view_teacher_chats = true
is_privileged _ = false

-- Approving, creating and suspending accounts, uploading and assigning files, and looking across
-- schools or into the chats of teachers are for super-admins alone.
pub privileged-super_admin :
    (user : User) (c : Capability)
    → is_privileged c ≡ true
    → user_can user c ≡ true
    → user.role ≡ Role.super_admin
unfolding user_can can
privileged-super_admin user Capability.approve_accounts p h = ground arith
privileged-super_admin user c p h = ground arith
