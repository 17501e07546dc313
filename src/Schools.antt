-- ===== src/Schools.antt =====
-- app/routers/schools.py: the schools, and the lessons of the program year that their teachers get.
use edtech_back.Base.{
  ℕ, ◌+◌, Bool, true, false, not, ◌&&◌, ◌||◌, Option, none, some, List, [], ◌∷◌, ◌++◌, Text, strip,
  ◌==◌, find, update_where, delete_where, count_where, is_some, or_default, if◌then◌else◌, Outcome,
  ok, http_error,
}
use edtech_back.Model.{User, School, Db}
use edtech_back.AutoAssign.{in_school, resync_school_teachers}
pub mod Removal

unfoldable pub create_school : Text → ℕ → Db → School × Db
create_school name program_year db =
    let school : School = record {
      id = db.next_id;
      name = strip name;
      program_year = program_year;
    } in
    (school, record db { schools = db.schools ++ school ∷ []; next_id = db.next_id + 1 })

abbrev pub put_school : School → Db → Db
put_school school db = record db {
  schools = update_where (λ s. s.id == school.id) (λ _. school) db.schools;
}

abbrev pub or_name : Option Text → Text → Text
or_name none name = name
or_name (some name) _ = strip name

-- `update_school`, without the country and the city
unfoldable pub update_school : ℕ → Option Text → Option ℕ → Db → Outcome School × Db
update_school school_id name program_year db = elim (find (λ s. s.id == school_id) db.schools) [
  | none ↦ (http_error 404, db)
  | some school ↦
      let school' = record school {
        name = or_name name school.name;
        program_year = or_default program_year school.program_year;
      } in
      let stored = put_school school' db in
      if school'.program_year == school.program_year
      then (ok school', stored)
      else (ok school', (resync_school_teachers stored school').0)
]

-- `blocking`
unfoldable pub holds_school : ℕ → Db → Bool
holds_school school_id db =
    not (count_where (λ u. in_school u.school_id school_id) db.users == 0)
    || not (count_where (λ l. in_school l.school_id school_id) db.lessons == 0)
    || not (count_where (λ s. s.school_id == school_id) db.fair_sections == 0)

unfoldable pub delete_school : ℕ → Db → Outcome Text × Db
delete_school school_id db = elim (find (λ s. s.id == school_id) db.schools) [
  | none ↦ (http_error 404, db)
  | some school ↦ if holds_school school_id db then (http_error 409, db) else (
    ok [],
    record db {
      schools = delete_where (λ s. s.id == school.id) db.schools;
      log =
          update_where (λ e. in_school e.school_id school_id) (λ e. record e { school_id = none })
            db.log;
      usage =
          update_where (λ u. in_school u.school_id school_id) (λ u. record u { school_id = none })
            db.usage;
    },
  )
]
