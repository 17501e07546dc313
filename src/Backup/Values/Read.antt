-- ===== src/Backup/Values/Read.antt =====
-- Reading a row of a JSON backup after writing it.
use edtech_back.Base.{
  ℕ, ◌≡◌, refl, Bool, true, false, not, none, some, List, [], ◌∷◌, map, all, any, Text, text_eq,
  text_eq_iff, text_eq_refl, contains_text, is_some, arith, Bool-cases, Option-cases, inl, inr,
}
use edtech_back.Llm.Json.{Json, Fields, lookup_field}
use edtech_back.Backup.Values.{
  Formats, ColumnType, Column, Value, Cell, bytes_key, serialize_value, is_null, bytes_in,
  read_bytes, read_typed, read_marked, deserialize_value, serialize_row, read_cell, deserialize_row,
}

-- a column holds nothing, or a value of its type; what is kept as JSON is not marked as bytes
unfoldable pub holds : ColumnType → Value → Bool
holds (ColumnType.enum_column vs) (Value.member v) = contains_text v vs
holds ColumnType.moment_column (Value.moment n) = true
holds ColumnType.day_column (Value.day n) = true
holds ColumnType.clock_column (Value.clock n) = true
holds ColumnType.other_column (Value.bytes b) = true
holds ColumnType.other_column (Value.plain j) = not (is_some (bytes_in j))
holds _ (Value.plain j) = is_null j
holds _ _ = false

-- a row as the database gives it
abbrev pub cells_of : (Text → Value) → List Column → List Cell
cells_of mapping cols = map (λ c. record { column = c.name; value = mapping c.name }) cols

module _ (fmt : Formats) (b64 : (b : List ℕ) → fmt.b64decode (fmt.b64encode b) ≡ some b)
    (moments : (n : ℕ) → fmt.moment_read (fmt.moment_format n) ≡ some n)
    (days : (n : ℕ) → fmt.day_read (fmt.day_format n) ≡ some n)
    (clocks : (n : ℕ) → fmt.clock_read (fmt.clock_format n) ≡ some n) where
  read_plain :
      (c : ColumnType) (j : Json)
      → is_null j ≡ true
      → deserialize_value fmt c j ≡ some (Value.plain j)
  unfolding deserialize_value
  read_plain c Json.null h = refl
  read_plain c (Json.boolean b) h = cc
  read_plain c (Json.number n) h = cc
  read_plain c (Json.string s) h = cc
  read_plain c (Json.array items) h = cc
  read_plain c (Json.object fs) h = cc

  read_other :
      (j : Json)
      → bytes_in j ≡ none
      → deserialize_value fmt ColumnType.other_column j ≡ some (Value.plain j)
  unfolding deserialize_value read_marked read_typed bytes_in
  read_other Json.null h = refl
  read_other (Json.boolean b) h = refl
  read_other (Json.number n) h = refl
  read_other (Json.string s) h = refl
  read_other (Json.array items) h = refl
  read_other (Json.object fs) h = rw h refl

  -- Every value that a column can hold is read back from what it was written as.
  pub deserialize_value-serialize_value :
      (c : ColumnType) (v : Value)
      → holds c v ≡ true
      → deserialize_value fmt c (serialize_value fmt v) ≡ some v
  unfolding deserialize_value read_marked read_typed read_bytes bytes_in serialize_value holds
      lookup_field
  deserialize_value-serialize_value (ColumnType.enum_column vs) (Value.member v) h = rw h refl
  deserialize_value-serialize_value ColumnType.moment_column (Value.moment n) h =
      rw (moments n) refl
  deserialize_value-serialize_value ColumnType.day_column (Value.day n) h = rw (days n) refl
  deserialize_value-serialize_value ColumnType.clock_column (Value.clock n) h = rw (clocks n) refl
  deserialize_value-serialize_value ColumnType.other_column (Value.bytes b) h =
      rw (text_eq_refl bytes_key, b64 b) refl
  deserialize_value-serialize_value ColumnType.other_column (Value.plain j) h =
      elim (Option-cases (bytes_in j)) [
        | inl e ↦ read_other j e
        | inr (k, e) ↦ absurd (ground arith)
      ]
  deserialize_value-serialize_value (ColumnType.enum_column vs) (Value.plain j) h =
      read_plain (ColumnType.enum_column vs) j h
  deserialize_value-serialize_value ColumnType.moment_column (Value.plain j) h =
      read_plain ColumnType.moment_column j h
  deserialize_value-serialize_value ColumnType.day_column (Value.plain j) h =
      read_plain ColumnType.day_column j h
  deserialize_value-serialize_value ColumnType.clock_column (Value.plain j) h =
      read_plain ColumnType.clock_column j h
  deserialize_value-serialize_value _ _ h = cc

  lookup_field-serialize_row :
      (mapping : Text → Value) (cols : List Column) (n : Text)
      → any (λ d. text_eq n d.name) cols ≡ true
      → lookup_field n (serialize_row fmt mapping cols) ≡ some (serialize_value fmt (mapping n))
  unfolding lookup_field serialize_row any
  lookup_field-serialize_row mapping [] n h = cc
  lookup_field-serialize_row mapping (c ∷ cs) n h = elim (Bool-cases (text_eq n c.name)) [
    | inl e ↦ rw (e, (text_eq_iff n c.name).0 e) refl
    | inr e ↦ rw (e, lookup_field-serialize_row mapping cs n (ground arith)) refl
  ]

  read_columns :
      (mapping : Text → Value) (raw : Fields) (cs : List Column)
      → ((n : Text)
          → any (λ d. text_eq n d.name) cs ≡ true
          → lookup_field n raw ≡ some (serialize_value fmt (mapping n)))
      → all (λ c. holds c.type_of (mapping c.name)) cs ≡ true
      → deserialize_row fmt raw cs ≡ some (cells_of mapping cs)
  unfolding deserialize_row read_cell all any
  read_columns mapping raw [] found h = refl
  read_columns mapping raw (c ∷ cs) found h =
      let here = found c.name (rw (text_eq_refl c.name) refl) in
      let value = deserialize_value-serialize_value c.type_of (mapping c.name) (ground arith) in
      let later : deserialize_row fmt raw cs ≡ some (cells_of mapping cs) =
        read_columns mapping raw cs (λ n there. found n (ground arith)) (ground arith) in
      rw (here, value, later, deserialize_row) refl

  -- A row is read back, value for value, from the JSON objects that the snapshot makes of it: bytes
  -- through Base64, members of enumerations by their values, moments, days and times of day through
  -- their ISO format, and all else, null included, as it is. Each column holds null or a value of its
  -- type, and what is kept as JSON has no key `__bytes_b64__`; of Base64 and the ISO format is used
  -- that what they write they read back. The text that `json` makes of the objects is left out.
  pub deserialize_row-serialize_row :
      (mapping : Text → Value) (cols : List Column)
      → all (λ c. holds c.type_of (mapping c.name)) cols ≡ true
      → deserialize_row fmt (serialize_row fmt mapping cols) cols ≡ some (cells_of mapping cols)
  deserialize_row-serialize_row mapping cols h =
      read_columns mapping (serialize_row fmt mapping cols) cols
        (λ n found. lookup_field-serialize_row mapping cols n found) h
