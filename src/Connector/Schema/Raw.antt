-- ===== src/Connector/Schema/Raw.antt =====
-- src/core/domain/connector/json-schema-validator.ts: the reads of validateJsonSchemaDefinition from
-- an unknown value. `raw.name` is read from the object's own properties; an array has none of these
-- names.
use open_claw_bot_neo.Prelude.{
  ℕ, Bool, true, false, not, ◌||◌, String, String_eq, Option, none, some, List, [], ◌∷◌,
  if◌then◌else◌, ◌==◌, leb, length, includes,
}
use open_claw_bot_neo.Connector.Json.{
  Number, number_lt, number_same, whole, Unknown, undefined, truth, numeral, string, reference,
  array_node, object_node, Heap,
}
use open_claw_bot_neo.Connector.Schema.{
  JsonSchemaType, object_type, string_type, number_type, integer_type, boolean_type, array_type,
  at_key, Checked, valid, fail, invalid_schema,
}

abbrev pub Fields : Type 0
Fields = List (String × Unknown)

-- `raw[name]`
unfoldable pub read : String → Fields → Unknown
read name [] = undefined
read name ((k, v) ∷ fs) = if k == name then v else read name fs

-- isRecord, with the object's own fields
unfoldable pub as_record : Heap → Unknown → Option Fields
as_record heap (reference a) = elim (heap a) [
  | array_node vs ↦ none
  | object_node is_plain fs ↦ some fs
]
as_record heap _ = none

-- Array.isArray, with the items
unfoldable pub as_array : Heap → Unknown → Option (List Unknown)
as_array heap (reference a) = elim (heap a) [
  | array_node vs ↦ some vs
  | object_node is_plain fs ↦ none
]
as_array heap _ = none

-- SCHEMA_TYPES, and `raw.type` in it
unfoldable pub schema_type : Unknown → Option JsonSchemaType
schema_type (string s) =
    if s == "object"
    then some object_type
    else if s == "string"
    then some string_type
    else if s == "number"
    then some number_type
    else if s == "integer"
    then some integer_type
    else if s == "boolean"
    then some boolean_type
    else if s == "array"
    then some array_type
    else none
schema_type _ = none

abbrev pub known_fields : List String
known_fields =
    "type" ∷ "properties" ∷ "required" ∷ "additionalProperties" ∷ "enum" ∷ "minimum" ∷ "maximum"
    ∷ "minLength" ∷ "maxLength" ∷ "minItems" ∷ "maxItems" ∷ "items" ∷ []

-- The loop over Object.keys(raw)
unfoldable pub has_unknown_field : Fields → Bool
has_unknown_field [] = false
has_unknown_field ((k, v) ∷ fs) = not (includes known_fields k) || has_unknown_field fs

-- `required.every((item) => typeof item === 'string')`, with the texts
unfoldable pub all_strings : List Unknown → Option (List String)
all_strings [] = some []
all_strings (string s ∷ vs) = elim (all_strings vs) [ none ↦ none | some ss ↦ some (s ∷ ss) ]
all_strings (_ ∷ vs) = none

-- `raw.required` where it is an array of strings, no longer than there are properties
abbrev pub short_enough : ℕ → Option (List String) → Option (List String)
short_enough n none = none
short_enough n (some ss) = if leb (length ss) n then some ss else none

abbrev pub strings_of : Option (List Unknown) → Option (List String)
strings_of none = none
strings_of (some vs) = all_strings vs

unfoldable pub read_required : Heap → ℕ → Unknown → Option (List String)
read_required heap n undefined = some []
read_required heap n v = short_enough n (strings_of (as_array heap v))

-- `raw.additionalProperties !== false`
unfoldable pub is_closed : Unknown → Bool
is_closed (truth false) = true
is_closed _ = false

unfoldable pub is_undefined : Unknown → Bool
is_undefined undefined = true
is_undefined _ = false

-- `x >= 0`
unfoldable pub is_not_negative : Number → Bool
is_not_negative n = number_lt (whole 0) n || number_same (whole 0) n

-- `raw.maxItems`: none where it is neither undefined nor a number from 0
unfoldable pub read_max_items : Unknown → Option (Option Number)
unfolding is_not_negative
read_max_items undefined = some none
read_max_items (numeral n) = if is_not_negative n then some (some n) else none
read_max_items _ = none

-- `raw.minItems`: what is no number is as if it were undefined
unfoldable pub read_min_items : Unknown → Option Number
read_min_items (numeral n) = some n
read_min_items _ = none

-- `raw.enum`: none where it is neither undefined nor an array with items
abbrev non_empty : Option (List Unknown) → Option (Option (List Unknown))
non_empty none = none
non_empty (some []) = none
non_empty (some (v ∷ vs)) = some (some (v ∷ vs))

unfoldable pub read_enum : Heap → Unknown → Option (Option (List Unknown))
read_enum heap undefined = some none
read_enum heap v = non_empty (as_array heap v)

-- A bound: undefined or a number
unfoldable pub read_bound : String → Fields → Checked (Option Number)
read_bound name raw = elim (read name raw) [
  | undefined ↦ valid none
  | numeral n ↦ valid (some n)
  | _ ↦ fail invalid_schema (at_key name ∷ [])
]
