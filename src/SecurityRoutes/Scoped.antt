-- ===== src/SecurityRoutes/Scoped.antt =====
-- `list_security_logs` of app/routers/security.py, against what an account may read.
use edtech_back.Base.{
  ℕ, ◌≡◌, refl, Bool, true, not, ◌&&◌, ◌||◌, Option, none, some, List, [], ◌∷◌, take, leb, select,
  all, all-take, all-select, is_some, ok, arith, Bool-cases, inl, inr,
}
use edtech_back.Model.{User, SecurityLog, SecurityEvent, Db}
use edtech_back.Lessons.{same_school, is_school_admin}
use edtech_back.SecurityRoutes.{
  is_listed, in_scope_of, may_read, insert_log, newest_logs, list_security_logs,
}

-- a school-admin has a school
abbrev pub has_school_if_admin : User → Bool
has_school_if_admin user = not (is_school_admin user.role) || is_some user.school_id

same_school-is_some :
    (s r : Option ℕ) → is_some r ≡ true → same_school s r ≡ true → is_some s ≡ true
same_school-is_some none none h e = cc
same_school-is_some none (some r) h e = cc
same_school-is_some (some s) r h e = refl

pub in_scope_of-may_read :
    (current : User) (log : SecurityLog)
    → has_school_if_admin current ≡ true
    → in_scope_of current log ≡ true
    → may_read current log ≡ true
unfolding in_scope_of may_read
in_scope_of-may_read current log h s =
    ground (arith, same_school-is_some log.school_id current.school_id)

module _ (p : SecurityLog → Bool) where
  all-insert_log :
      (e : SecurityLog) (xs : List SecurityLog) → all p (insert_log e xs) ≡ (p e && all p xs)
  unfolding all insert_log
  all-insert_log e [] = refl
  all-insert_log e (x ∷ xs) = ground (arith, all-insert_log e xs)

  pub all-newest_logs : (xs : List SecurityLog) → all p (newest_logs xs) ≡ all p xs
  unfolding all newest_logs
  all-newest_logs [] = refl
  all-newest_logs (x ∷ xs) = ground (arith, all-insert_log x (newest_logs xs), all-newest_logs xs)

module _ (db : Db) (current : User) (schooled : has_school_if_admin current ≡ true) where
  shown-may_read :
      (n : ℕ) (q : SecurityLog → Bool)
      → ((e : SecurityLog) → q e ≡ true → in_scope_of current e ≡ true)
      → all (may_read current) (take n (newest_logs (select q db.log))) ≡ true
  shown-may_read n q h = all-take (may_read current) n (newest_logs (select q db.log)) (
      rw (all-newest_logs (may_read current) (select q db.log)) (
        all-select (may_read current) q (λ e s. in_scope_of-may_read current e schooled (h e s))
          db.log))

  -- Every row of a list of the security log is one that its account may read, where a school-admin
  -- has a school.
  pub list_security_logs-may_read :
      (limit : ℕ) (event : Option SecurityEvent) (rows : List SecurityLog)
      → list_security_logs db current limit event ≡ ok rows
      → all (may_read current) rows ≡ true
  unfolding list_security_logs
  list_security_logs-may_read limit event rows h =
      let shown =
        shown-may_read limit (λ e. in_scope_of current e && is_listed event e.event)
          (λ e s. ground arith) in
      elim (Bool-cases (leb 1 limit && leb limit 500)) [
        | inr out ↦ absurd (ground arith)
        | inl within ↦
            let same : rows
                ≡ take limit (
                    newest_logs
                      (select (λ e. in_scope_of current e && is_listed event e.event) db.log)) =
              ground arith in
            rw same shown
      ]
