-- ===== src/Llm/Json.antt =====
-- What `json.loads` gives, and the lookups that the code makes in it. A lookup in a value of another
-- kind is an exception. Numbers are integers.
use edtech_back.Base.{
  Bool, true, false, not, Option, none, some, ℤ, int_eq, pos, Text, text_eq, nonempty,
  if◌then◌else◌,
}

mutual
  pub data Json : Type 0 where
    null : Json
    boolean : Bool → Json
    number : ℤ → Json
    string : Text → Json
    array : Items → Json
    object : Fields → Json

  pub data Items : Type 0 where
    no_item : Items
    item : Json → Items → Items

  pub data Fields : Type 0 where
    no_field : Fields
    field : Text → Json → Fields → Fields

-- `bool(value)`
unfoldable pub is_truthy : Json → Bool
is_truthy Json.null = false
is_truthy (Json.boolean b) = b
is_truthy (Json.number n) = not (int_eq n (pos 0))
is_truthy (Json.string s) = nonempty s
is_truthy (Json.array Items.no_item) = false
is_truthy (Json.array (Items.item j js)) = true
is_truthy (Json.object Fields.no_field) = false
is_truthy (Json.object (Fields.field k j fs)) = true

abbrev pub is_dict : Json → Bool
is_dict (Json.object fs) = true
is_dict _ = false

-- the value of a key
unfoldable pub lookup_field : Text → Fields → Option Json
lookup_field k Fields.no_field = none
lookup_field k (Fields.field j v fs) = if text_eq k j then some v else lookup_field k fs

-- `value[key]`, of which every exception is the same to the code
unfoldable pub at_key : Text → Json → Option Json
at_key k (Json.object fs) = lookup_field k fs
at_key k _ = none

-- `value[0]`
unfoldable pub at_start : Json → Option Json
at_start (Json.array (Items.item j js)) = some j
at_start _ = none

abbrev pub or_null : Option Json → Json
or_null none = Json.null
or_null (some j) = j

-- `value.get(key)`, which is an `AttributeError` where the value is no dict
unfoldable pub get_field : Text → Json → Option Json
get_field k (Json.object fs) = some (or_null (lookup_field k fs))
get_field k _ = none

abbrev pub is_string : Text → Json → Bool
is_string t (Json.string s) = text_eq s t
is_string t _ = false
