-- ===== src/Tests/Restored.antt =====
-- Runs of the snapshot and of the restore.
use edtech_back.Base.{
  ℕ, ◌≡◌, refl, List, [], ◌∷◌, text_eq, text_lt, find, select, any, some, none, length, true, Text,
  Option, codes, all, pos, contains_text, if◌then◌else◌,
}
use edtech_back.Model.{Db}
use edtech_back.Backup.Restore.{
  RawTable, Parsed, insert_by, sort_by, json_snapshot, read_rows, read_table, read_tables,
  return_stashed, restore_tables, restore_payload, restore_parsed, restore_json, backup_format,
  backup_version,
}
use edtech_back.Backup.Values.{
  Formats, Column, ColumnType, Value, bytes_in, serialize_row, deserialize_row,
}
use edtech_back.Backup.Values.Read.{holds, cells_of, deserialize_row-serialize_row}
use edtech_back.Llm.Json.{Json}
use edtech_back.Tests.Fixtures.{db_1, lesson_11}

abbrev first_of : Text → Option ℕ
first_of [] = none
first_of (n ∷ ns) = some n

-- what the runs below compute with
restore_program : Unit {0}
unfolding find select any text_eq text_lt insert_by sort_by json_snapshot read_rows read_table
    read_tables return_stashed restore_tables restore_payload restore_parsed restore_json
restore_program = tt

-- a snapshot that was taken before the first lesson was made
abbrev earlier : Db
earlier = record db_1 { lessons = lesson_11 ∷ []; assignments = []; progress = [] }

abbrev reads_earlier : List ℕ → Parsed
reads_earlier content = Parsed.object (json_snapshot earlier)

-- the conversation about the lesson that is not there goes, and stays if it is
lost : length (restore_json reads_earlier [] db_1).1.chats ≡ 0
unfolding restore_program
lost = refl

abbrev reads_same : List ℕ → Parsed
reads_same content = Parsed.object (json_snapshot db_1)

kept : (restore_json reads_same [] db_1).1.chats ≡ db_1.chats
unfolding restore_program
kept = refl

-- a file whose table of users is `null` is taken for a backup, and leaves no account
abbrev null_users : List ℕ → Parsed
null_users content = Parsed.object (record {
  format = some backup_format;
  version = some backup_version;
  tables = some (record {
    users = RawTable.null;
    schools = RawTable.missing;
    lessons = RawTable.missing;
    assignments = RawTable.missing;
    progress = RawTable.missing;
    requests = RawTable.missing;
    tokens = RawTable.missing;
    throttles = RawTable.missing;
    log = RawTable.missing;
    usage = RawTable.missing;
    fair_sections = RawTable.missing;
    fair_projects = RawTable.missing;
    files = RawTable.missing;
  });
})

emptied : (restore_json null_users [] db_1).1.users ≡ []
unfolding restore_program
emptied = refl

-- a library that writes a number as the text of that one code point
abbrev plain_formats : Formats
plain_formats = record {
  b64encode = λ b. b;
  b64decode = λ t. some t;
  moment_format = λ n. n ∷ [];
  moment_read = first_of;
  day_format = λ n. n ∷ [];
  day_read = first_of;
  clock_format = λ n. n ∷ [];
  clock_read = first_of;
}

abbrev some_columns : List Column
some_columns =
    record { name = codes "role"; type_of = ColumnType.enum_column (codes "teacher" ∷ []) }
    ∷ record { name = codes "created_at"; type_of = ColumnType.moment_column }
    ∷ record { name = codes "school_id"; type_of = ColumnType.other_column }
    ∷ record { name = codes "content"; type_of = ColumnType.other_column }
    ∷ record { name = codes "locked_until"; type_of = ColumnType.moment_column }
    ∷ []

abbrev some_row : Text → Value
some_row name =
    if text_eq name (codes "role")
    then Value.member (codes "teacher")
    else if text_eq name (codes "created_at")
    then Value.moment 40
    else if text_eq name (codes "school_id")
    then Value.plain (Json.number (pos 7))
    else if text_eq name (codes "content")
    then Value.bytes (37 ∷ 80 ∷ 68 ∷ 70 ∷ [])
    else Value.plain Json.null

some_row_held : all (λ c. holds c.type_of (some_row c.name)) some_columns ≡ true
unfolding text_eq all any holds contains_text bytes_in
some_row_held = refl

deserialize_row-serialize_row_example :
    deserialize_row plain_formats (serialize_row plain_formats some_row some_columns) some_columns
    ≡ some (cells_of some_row some_columns)
deserialize_row-serialize_row_example =
    deserialize_row-serialize_row plain_formats (λ b. refl) (λ n. refl) (λ n. refl) (λ n. refl)
      some_row some_columns some_row_held
