-- ===== src/Schools/Removal.antt =====
-- The removal of a school, app/routers/schools.py.
use edtech_back.Base.{ℕ, ◌≡◌, Text, ◌==◌, find, count_where, ok, arith, Option-cases, inl, inr}
use edtech_back.Model.{Db}
use edtech_back.AutoAssign.{in_school}
use edtech_back.Schools.{holds_school, delete_school}

-- A school that is removed has no user, no lesson and no section of the fair left behind, and none
-- of those that there are goes with it.
pub delete_school-leaves_none :
    (school_id : ℕ) (db db' : Db) (message : Text)
    → delete_school school_id db ≡ (ok message, db')
    → (count_where (λ u. in_school u.school_id school_id) db'.users ≡ 0)
      × (count_where (λ l. in_school l.school_id school_id) db'.lessons ≡ 0)
      × (count_where (λ s. s.school_id == school_id) db'.fair_sections ≡ 0)
      × (db'.users ≡ db.users)
      × (db'.lessons ≡ db.lessons)
      × (db'.fair_sections ≡ db.fair_sections)
unfolding delete_school holds_school
delete_school-leaves_none school_id db db' message h =
    elim (Option-cases (find (λ s. s.id == school_id) db.schools)) [
      | inl missing ↦ absurd (ground arith)
      | inr (school, known) ↦
          (ground arith, ground arith, ground arith, ground arith, ground arith, ground arith)
    ]
