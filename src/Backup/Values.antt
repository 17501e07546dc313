-- ===== src/Backup/Values.antt =====
-- app/services/backup.py: the values of a row in a JSON backup, and the values that a restore reads
-- from them. Base64, the ISO format of moments, days and times of day, which are numbers here, and
-- the classes of the enumerations are library code: a record of functions, and the values that the
-- members of a class have.
use edtech_back.Base.{
  ℕ, ◌≡◌, Bool, true, false, not, ◌&&◌, Option, none, some, List, [], ◌∷◌, map, Text, codes,
  contains_text, if◌then◌else◌, is_some,
}
use edtech_back.Llm.Json.{Json, Fields, lookup_field}
pub mod Read

-- `base64`, and `isoformat` and `fromisoformat` of `datetime`, `date` and `time`; a reader that
-- raises gives nothing
pub record Formats : Type 0 where
  pub b64encode : List ℕ → Text
  pub b64decode : Text → Option (List ℕ)
  pub moment_format : ℕ → Text
  pub moment_read : Text → Option ℕ
  pub day_format : ℕ → Text
  pub day_read : Text → Option ℕ
  pub clock_format : ℕ → Text
  pub clock_read : Text → Option ℕ

-- `column.type`, with the values of the members of an `SAEnum`
pub data ColumnType : Type 0 where
  enum_column : List Text → ColumnType
  moment_column day_column clock_column other_column : ColumnType

pub record Column : Type 0 where
  pub name : Text
  pub type_of : ColumnType

-- what a column holds: a member of an enumeration by its value, and what is in JSON as it is
pub data Value : Type 0 where
  member : Text → Value
  moment day clock : ℕ → Value
  bytes : List ℕ → Value
  plain : Json → Value

abbrev pub bytes_key : Text
bytes_key = codes "__bytes_b64__"

-- `_serialize_value`
unfoldable pub serialize_value : Formats → Value → Json
serialize_value fmt (Value.member v) = Json.string v
serialize_value fmt (Value.moment n) = Json.string (fmt.moment_format n)
serialize_value fmt (Value.day n) = Json.string (fmt.day_format n)
serialize_value fmt (Value.clock n) = Json.string (fmt.clock_format n)
serialize_value fmt (Value.bytes b) =
    Json.object (Fields.field bytes_key (Json.string (fmt.b64encode b)) Fields.no_field)
serialize_value fmt (Value.plain j) = j

abbrev pub is_null : Json → Bool
is_null Json.null = true
is_null _ = false

-- `isinstance(value, dict) and "__bytes_b64__" in value`
unfoldable pub bytes_in : Json → Option Json
bytes_in (Json.object fs) = lookup_field bytes_key fs
bytes_in _ = none

abbrev pub value_if : (ℕ → Value) → Option ℕ → Option Value
value_if wrap none = none
value_if wrap (some n) = some (wrap n)

abbrev pub bytes_if : Option (List ℕ) → Option Value
bytes_if none = none
bytes_if (some b) = some (Value.bytes b)

-- `base64.b64decode(value)`, which raises on what is no text
unfoldable pub read_bytes : Formats → Json → Option Value
read_bytes fmt (Json.string s) = bytes_if (fmt.b64decode s)
read_bytes fmt _ = none

-- the reader of the type of a column, which raises on what is no text where there is one
unfoldable pub read_typed : Formats → ColumnType → Json → Option Value
read_typed fmt (ColumnType.enum_column vs) (Json.string s) =
    if contains_text s vs then some (Value.member s) else none
read_typed fmt ColumnType.moment_column (Json.string s) = value_if Value.moment (fmt.moment_read s)
read_typed fmt ColumnType.day_column (Json.string s) = value_if Value.day (fmt.day_read s)
read_typed fmt ColumnType.clock_column (Json.string s) = value_if Value.clock (fmt.clock_read s)
read_typed fmt ColumnType.other_column j = some (Value.plain j)
read_typed fmt _ _ = none

unfoldable pub read_marked : Formats → ColumnType → Json → Option Json → Option Value
read_marked fmt c j none = read_typed fmt c j
read_marked fmt c j (some b) = read_bytes fmt b

-- `_deserialize_value`
unfoldable pub deserialize_value : Formats → ColumnType → Json → Option Value
deserialize_value fmt c j =
    if is_null j then some (Value.plain Json.null) else read_marked fmt c j (bytes_in j)

-- a row of the snapshot; `mapping` is the row that the database gives
unfoldable pub serialize_row : Formats → (Text → Value) → List Column → Fields
serialize_row fmt mapping [] = Fields.no_field
serialize_row fmt mapping (c ∷ cs) =
    Fields.field c.name (serialize_value fmt (mapping c.name)) (serialize_row fmt mapping cs)

pub record Cell : Type 0 where
  pub column : Text
  pub value : Value

unfoldable pub read_cell : Column → Option Value → Option (List Cell) → Option (List Cell)
read_cell c (some v) (some rest) = some (record { column = c.name; value = v } ∷ rest)
read_cell c _ _ = none

-- the columns of a table that a row of the file has
unfoldable pub deserialize_row : Formats → Fields → List Column → Option (List Cell)
deserialize_row fmt raw [] = some []
deserialize_row fmt raw (c ∷ cs) =
    let rest : Option (List Cell) = deserialize_row fmt raw cs in
    elim (lookup_field c.name raw) [
      | none ↦ rest
      | some j ↦ read_cell c (deserialize_value fmt c.type_of j) rest
    ]
