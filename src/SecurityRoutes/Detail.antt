-- ===== src/SecurityRoutes/Detail.antt =====
-- `security_log_detail` of app/routers/security.py: the history of the address of a row, the other
-- rows of its account, and the sessions of the account.
use edtech_back.Base.{
  ℕ, ◌≡◌, refl, sym, ap, ◌∙◌, Bool, true, false, not, ◌&&◌, none, some, List, [], ◌∷◌, Text,
  text_eq, text_eq_refl, nonempty, ◌==◌, ltb, find, select, select-same, map, any, any_self, all,
  All, all-take, all-select, all-select_kept, count_where, latest_first, all-append_one, ok, arith,
  Bool-cases, Option-cases, inl, inr,
}
use edtech_back.Model.{User, SecurityLog, RefreshToken, Db}
use edtech_back.Assignments.Many.{add_name, sorted_names}
use edtech_back.SigninWatch.{is_of, is_normal_login}
use edtech_back.SecurityRoutes.{
  in_scope_of, may_read, may_see_account, is_failed_login, newest_logs, LogDetail, ip_rows,
  recent_of, is_live_token, sessions_of, security_log_detail,
}
use edtech_back.SecurityRoutes.Scoped.{has_school_if_admin, in_scope_of-may_read, all-newest_logs}

-- the row is of the address, which is known
abbrev pub is_at : Text → SecurityLog → Bool
is_at ip e = nonempty ip && text_eq e.ip ip

-- the row is another one of the account of the first, which has one
abbrev pub is_beside : SecurityLog → SecurityLog → Bool
is_beside log e = elim log.user_id [
  | none ↦ false
  | some id ↦ is_of id e.user_id && not (e.id == log.id)
]

-- the session is open, and of the account of the row, whose state may be seen
abbrev pub is_open_for : ℕ → Db → User → SecurityLog → RefreshToken → Bool
is_open_for now db current log t = elim log.user_id [
  | none ↦ false
  | some id ↦
      t.user_id == id
      && not t.revoked
      && ltb now t.expires_at
      && may_see_account current (find (λ u. u.id == id) db.users)
]

may_read-in_scope_of :
    (current : User) (log : SecurityLog)
    → may_read current log ≡ true
    → in_scope_of current log ≡ true
unfolding in_scope_of may_read
may_read-in_scope_of current log h = ground arith

count-select_both :
    {A : Type 0} (p q : A → Bool) (xs : List A)
    → count_where p (select q xs) ≡ count_where (λ x. q x && p x) xs
unfolding count_where select
count-select_both p q [] = refl
count-select_both p q (x ∷ xs) = ground (arith, count-select_both p q xs)

select-none : {A : Type 0} (xs : List A) → select (λ x. false) xs ≡ []
unfolding select
select-none [] = refl
select-none (x ∷ xs) = select-none xs

module _ (p : Text → Bool) where
  all-add_name :
      (n : Text) (ns : List Text) → p n ≡ true → all p ns ≡ true → all p (add_name n ns) ≡ true
  unfolding all add_name
  all-add_name n [] h e = ground arith
  all-add_name n (m ∷ ms) h e = ground (arith, all-add_name n ms)

  all-sorted_names : (ns : List Text) → all p ns ≡ true → all p (sorted_names ns) ≡ true
  unfolding all sorted_names
  all-sorted_names [] h = refl
  all-sorted_names (n ∷ ns) h =
      all-add_name n (sorted_names ns) (ground arith) (all-sorted_names ns (ground arith))

module _ (q : SecurityLog → Bool) (log : List SecurityLog) where
  -- some row that passes the test has the name
  abbrev names : Text → Bool
  names n = any (λ e. q e && text_eq e.user_name n) log

  all-names :
      (rows : List SecurityLog)
      → All (λ a. (f : SecurityLog → Bool) → f a ≡ true → any f log ≡ true) rows
      → all names (map (λ e. e.user_name) (select q rows)) ≡ true
  unfolding all select
  all-names [] h = refl
  all-names (a ∷ rows) h = elim (Bool-cases (q a)) [
    | inr out ↦ rw out (all-names rows h.1)
    | inl passed ↦
        let named =
          h.0 (λ e. q e && text_eq e.user_name a.user_name)
            (rw (passed, text_eq_refl a.user_name) refl) in
        rw (passed, named) (all-names rows h.1)
  ]

  all-sorted :
      all names (sorted_names (select nonempty (map (λ e. e.user_name) (select q log)))) ≡ true
  all-sorted = all-sorted_names names (select nonempty (map (λ e. e.user_name) (select q log))) (
      all-select_kept names nonempty (map (λ e. e.user_name) (select q log))
        (all-names log (any_self log)))

all-latest_first :
    (p : RefreshToken → Bool) (ts : List RefreshToken)
    → all p ts ≡ true
    → all p (latest_first ts) ≡ true
unfolding all latest_first
all-latest_first p [] h = refl
all-latest_first p (t ∷ ts) h =
    all-append_one p (latest_first ts) t (all-latest_first p ts (ground arith)) (ground arith)

module _ (db : Db) (current : User) (schooled : has_school_if_admin current ≡ true) where
  in_scope_of-same : (e : SecurityLog) → in_scope_of current e ≡ may_read current e
  in_scope_of-same e =
      ground (arith, in_scope_of-may_read current e schooled, may_read-in_scope_of current e)

  ip_rows-may_read :
      (ip : Text) → ip_rows db current ip ≡ select (λ e. is_at ip e && may_read current e) db.log
  unfolding ip_rows
  ip_rows-may_read [] = sym (select-none db.log)
  ip_rows-may_read (c ∷ ip) =
      select-same (λ e. text_eq e.ip (c ∷ ip) && in_scope_of current e)
        (λ e. is_at (c ∷ ip) e && may_read current e)
        (λ e. ap (λ b. text_eq e.ip (c ∷ ip) && b) (in_scope_of-same e)) db.log

  recent_of-beside :
      (log : SecurityLog)
      → all (λ e. may_read current e && is_beside log e) (recent_of db current log) ≡ true
  unfolding recent_of
  recent_of-beside log = elim (Option-cases log.user_id) [
    | inl nobody ↦ rw nobody (unfold all in refl)
    | inr (id, e) ↦ rw e (
        let q : SecurityLog → Bool =
          λ f. is_of id f.user_id && not (f.id == log.id) && in_scope_of current f in
        let p : SecurityLog → Bool =
          λ f. may_read current f && (is_of id f.user_id && not (f.id == log.id)) in
        all-take p 10 (newest_logs (select q db.log)) (
          all-newest_logs p (select q db.log)
          ∙ all-select p q (λ f shown. ground (arith, in_scope_of-may_read current f schooled))
              db.log))
  ]

  sessions_of-open :
      (now : ℕ) (log : SecurityLog)
      → all (is_open_for now db current log) (sessions_of now db current log) ≡ true
  unfolding sessions_of
  sessions_of-open now log = elim (Option-cases log.user_id) [
    | inl nobody ↦ rw nobody (unfold all in refl)
    | inr (id, e) ↦ elim (Bool-cases (may_see_account current (find (λ u. u.id == id) db.users))) [
      | inr unseen ↦ rw (e, unseen) (unfold all in refl)
      | inl seen ↦
          rw (e, seen)
            (all-latest_first (is_open_for now db current (record log { user_id = some id }))
              (select (is_live_token now id) db.tokens)
              (all-select (is_open_for now db current (record log { user_id = some id }))
                (is_live_token now id) (λ t live. rw seen (ground arith)) db.tokens))
    ]
  ]

  -- What is shown around a row of the security log, where a school-admin has a school, is a row that
  -- the account may read; other rows of the account of the row, each of which it may read; open
  -- sessions of that account only, neither revoked nor expired, and only if its state may be seen;
  -- and of the address of the row, how many sign-ins and how many failed ones there are among the
  -- rows that it may read, and only names that stand in one of them.
  pub security_log_detail-scoped :
      (now log_id : ℕ) (d : LogDetail)
      → security_log_detail now db current log_id ≡ ok d
      → (may_read current d.log ≡ true)
        × (all (λ e. may_read current e && is_beside d.log e) d.recent_events ≡ true)
        × (all (is_open_for now db current d.log) d.active_sessions ≡ true)
        × (d.sign_ins
            ≡ count_where
                (λ e. is_at d.log.ip e && may_read current e && is_normal_login e.event)
                db.log)
        × (d.failed_attempts
            ≡ count_where
                (λ e. is_at d.log.ip e && may_read current e && is_failed_login e.event)
                db.log)
        × (all
              (λ n.
                any (λ e. is_at d.log.ip e && may_read current e && text_eq e.user_name n) db.log)
              d.users
            ≡ true)
  unfolding security_log_detail
  security_log_detail-scoped now log_id d h =
      elim (Option-cases (find (λ e. e.id == log_id) db.log)) [
        | inl missing ↦ absurd (ground arith)
        | inr (log, e) ↦ elim (Bool-cases (may_read current log)) [
          | inr barred ↦ absurd (ground arith)
          | inl readable ↦
              let same : d ≡ record {
                log = log;
                sign_ins = count_where (λ e. is_normal_login e.event) (ip_rows db current log.ip);
                failed_attempts =
                    count_where (λ e. is_failed_login e.event) (ip_rows db current log.ip);
                users =
                    sorted_names
                      (select nonempty (map (λ e. e.user_name) (ip_rows db current log.ip)));
                recent_events = recent_of db current log;
                active_sessions = sessions_of now db current log;
              } =
                ground arith in
              let rows : SecurityLog → Bool = λ e. is_at log.ip e && may_read current e in
              rw (same, ip_rows-may_read log.ip)
                (
                  readable,
                  recent_of-beside log,
                  sessions_of-open now log,
                  count-select_both (λ e. is_normal_login e.event) rows db.log,
                  count-select_both (λ e. is_failed_login e.event) rows db.log,
                  all-sorted rows db.log,
                )
        ]
      ]
