-- ===== src/Backup/Restore/Kept.antt =====
-- What the restore of a snapshot leaves, where the file is read as the tables that were dumped, and
-- what a refused restore leaves. Values/Read is about the reading of rows.
use edtech_back.Base.{
  ℕ, ◌≡◌, refl, Bool, List, [], ◌∷◌, map, select, ltb, text_lt, text_eq_refl, ok, http_error,
  Outcome-cases, Option-cases, arith, Bool-cases, inl, inr,
}
use edtech_back.Model.{Db}
use edtech_back.Backup.Restore.{
  RawRow, Tables, is_missing_table, Parsed, sort_by, dump, json_snapshot, read_rows, read_table,
  read_tables, still_points, return_stashed, restore_tables, restore_payload, restore_parsed,
  restore_json, backup_format,
}

read_rows-row : {A : Type 0} (rows : List A) → read_rows (map (λ a. RawRow.row a) rows) ≡ ok rows
unfolding read_rows
read_rows-row [] = refl
read_rows-row (a ∷ rows) = rw (read_rows-row rows) refl

read_table-dump :
    {A : Type 0} (lt : A → A → Bool) (rows : List A)
    → read_table (dump lt rows) ≡ ok (sort_by lt rows)
unfolding read_table
read_table-dump lt rows = read_rows-row (sort_by lt rows)

-- the rows of a database in the order of their keys, without conversations
pub in_order : ℕ → Db → Db
in_order next_id db = record {
  users = sort_by (λ a b. ltb a.id b.id) db.users;
  schools = sort_by (λ a b. ltb a.id b.id) db.schools;
  lessons = sort_by (λ a b. ltb a.id b.id) db.lessons;
  assignments = sort_by (λ a b. ltb a.id b.id) db.assignments;
  progress = sort_by (λ a b. ltb a.id b.id) db.progress;
  requests = sort_by (λ a b. ltb a.id b.id) db.requests;
  chats = [];
  tokens = sort_by (λ a b. ltb a.id b.id) db.tokens;
  throttles = sort_by (λ a b. text_lt a.ip b.ip) db.throttles;
  log = sort_by (λ a b. ltb a.id b.id) db.log;
  usage = sort_by (λ a b. ltb a.id b.id) db.usage;
  fair_sections = sort_by (λ a b. ltb a.id b.id) db.fair_sections;
  fair_projects = sort_by (λ a b. ltb a.id b.id) db.fair_projects;
  files = sort_by (λ a b. ltb a.id b.id) db.files;
  next_id = next_id;
}

-- Where a file is read as the snapshot of a database, restoring it leaves the sorted rows of every
-- table of the snapshot, and of the conversations of before those whose teacher and lesson are in the
-- snapshot.
pub restore_json-json_snapshot :
    (loads : List ℕ → Parsed) (content : List ℕ) (dumped db : Db)
    → loads content ≡ Parsed.object (json_snapshot dumped)
    → restore_json loads content db ≡ (
      ok tt,
      record (in_order db.next_id dumped) {
        chats = select (still_points (in_order db.next_id dumped)) db.chats;
      },
    )
unfolding restore_json restore_parsed restore_payload json_snapshot restore_tables read_tables
    in_order return_stashed
restore_json-json_snapshot loads content dumped db h =
    rw (h, text_eq_refl backup_format, restore_json)
      (rw
        (
          read_table-dump (λ a b. ltb a.id b.id) dumped.users,
          read_table-dump (λ a b. ltb a.id b.id) dumped.schools,
          read_table-dump (λ a b. ltb a.id b.id) dumped.lessons,
          read_table-dump (λ a b. ltb a.id b.id) dumped.assignments,
          read_table-dump (λ a b. ltb a.id b.id) dumped.progress,
          read_table-dump (λ a b. ltb a.id b.id) dumped.requests,
          read_table-dump (λ a b. ltb a.id b.id) dumped.tokens,
          read_table-dump (λ a b. text_lt a.ip b.ip) dumped.throttles,
          read_table-dump (λ a b. ltb a.id b.id) dumped.log,
          read_table-dump (λ a b. ltb a.id b.id) dumped.usage,
          read_table-dump (λ a b. ltb a.id b.id) dumped.fair_sections,
          read_table-dump (λ a b. ltb a.id b.id) dumped.fair_projects,
          read_table-dump (λ a b. ltb a.id b.id) dumped.files,
        )
        refl)

restore_tables-refused :
    (t : Tables) (db : Db) (code : ℕ)
    → (restore_tables t db).0 ≡ http_error code
    → (restore_tables t db).1 ≡ db
unfolding restore_tables
restore_tables-refused t db code h = elim (Bool-cases (is_missing_table t.users)) [
  | inl e ↦ rw (e, restore_tables) refl
  | inr e ↦ elim (Outcome-cases (read_tables db.next_id t)) [
    | inl (c, f) ↦ rw (e, f, restore_tables) refl
    | inr (restored, f) ↦ absurd (ground arith)
  ]
]

restore_parsed-refused :
    (p : Parsed) (db : Db) (code : ℕ)
    → (restore_parsed p db).0 ≡ http_error code
    → (restore_parsed p db).1 ≡ db
unfolding restore_parsed restore_payload
restore_parsed-refused Parsed.not_json db code h = refl
restore_parsed-refused Parsed.not_an_object db code h = refl
restore_parsed-refused (Parsed.object p) db code h = elim (Option-cases p.tables) [
  | inl e ↦ ground arith
  | inr (t, e) ↦ ground (arith, restore_tables-refused t db code)
]

-- A file that is refused, for whatever reason, leaves the database as it was.
pub restore_json-refused :
    (loads : List ℕ → Parsed) (content : List ℕ) (db : Db) (code : ℕ)
    → (restore_json loads content db).0 ≡ http_error code
    → (restore_json loads content db).1 ≡ db
unfolding restore_json
restore_json-refused loads content db code h = restore_parsed-refused (loads content) db code h
