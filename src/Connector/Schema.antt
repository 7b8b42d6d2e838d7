-- ===== src/Connector/Schema.antt =====
-- src/core/domain/connector/schema.ts and json-schema-validator.ts: what a schema is, and the test
-- of a JSON value against it. A failure has the path to where it stands; its reason, a fixed text
-- for each place, is left out. The depth is counted down, as in the bounds of JSON.
pub mod Conforms
pub mod Enums
pub mod Exact
pub mod Raw
pub mod Definition
mod Tests
use open_claw_bot_neo.Prelude.{
  ℕ, zero, suc, Bool, true, false, not, ◌||◌, ◌&&◌, String, String_eq, Option, none, some, List, [],
  ◌∷◌, ◌++◌, if◌then◌else◌, ◌==◌, ltb,
}
use open_claw_bot_neo.Connector.Json.{
  Number, is_finite, is_integer, number_lt, number_same, whole, utf16_length, JsonValue, null,
  boolean, number, text, array, object, JsonItems, end, item, JsonFields, done, field, count_items,
  Unknown, null_literal, truth, numeral, string, count_fields, has_own, max_depth, max_object_keys,
  max_array_items,
}

pub data JsonSchemaType : Type 0 where
  object_type string_type number_type integer_type boolean_type array_type : JsonSchemaType

-- The bounds of a schema, each undefined or a number, and its `enum`.
pub record Limits : Type 0 where
  pub enum : Option (List Unknown)
  pub minimum : Option Number
  pub maximum : Option Number
  pub min_length : Option Number
  pub max_length : Option Number
  pub min_items : Option Number
  pub max_items : Option Number

-- JsonSchema: its type, `properties` and `required`, both empty if undefined, its bounds and `items`.
mutual
  pub data JsonSchema : Type 0 where
    schema : JsonSchemaType → Properties → List String → Limits → ItemSchema → JsonSchema

  pub data Properties : Type 0 where
    no_property : Properties
    property : String → JsonSchema → Properties → Properties

  pub data ItemSchema : Type 0 where
    undefined_items : ItemSchema
    items : JsonSchema → ItemSchema

pub data SchemaFailureCode : Type 0 where
  invalid_schema type_mismatch missing_required additional_property enum_mismatch bound_violation
        too_deep :
      SchemaFailureCode

-- A step of a path: a key or an index.
pub data Segment : Type 0 where
  at_key : String → Segment
  at_index : ℕ → Segment

pub record SchemaFailure : Type 0 where
  pub code : SchemaFailureCode
  pub path : List Segment

pub data Checked (A : Type 0) : Type 0 where
  valid : A → Checked A
  invalid : SchemaFailure → Checked A

abbrev pub fail : {A : Type 0} → SchemaFailureCode → List Segment → Checked A
fail code path = invalid (record { code = code; path = path })

-- `properties[key]` under `Object.hasOwn(properties, key)`
unfoldable pub get_property : String → Properties → Option JsonSchema
get_property key no_property = none
get_property key (property k s ps) = if k == key then some s else get_property key ps

-- `value < bound` and `value > bound` for a bound that may be undefined
unfoldable pub is_below : Number → Option Number → Bool
is_below n none = false
is_below n (some bound) = number_lt n bound

unfoldable pub is_above : Number → Option Number → Bool
is_above n none = false
is_above n (some bound) = number_lt bound n

-- `item === value` for a copied value, which is none of the schema's arrays and objects
unfoldable pub strictly_equal : Unknown → JsonValue → Bool
strictly_equal (numeral m) (number n) = number_same m n
strictly_equal (string s) (text t) = s == t
strictly_equal (truth true) (boolean b) = b
strictly_equal (truth false) (boolean b) = not b
strictly_equal null_literal null = true
strictly_equal _ _ = false

-- `schema.enum.some((item) => item === value)`
unfoldable pub some_equal : List Unknown → JsonValue → Bool
some_equal [] v = false
some_equal (x ∷ xs) v = strictly_equal x v || some_equal xs v

unfoldable pub is_outside : Option (List Unknown) → JsonValue → Bool
unfolding some_equal
is_outside none v = false
is_outside (some allowed) v = not (some_equal allowed v)

-- The cases 'number' and 'integer', after the test of the type
unfoldable pub check_number : Limits → Number → List Segment → Checked (Unit {0})
check_number l n path =
    if is_below n l.minimum
    then fail bound_violation path
    else if is_above n l.maximum
    then fail bound_violation path
    else if is_outside l.enum (number n)
    then fail enum_mismatch path
    else valid tt

-- The case 'string', after the test of the type
unfoldable pub check_string : Limits → String → List Segment → Checked (Unit {0})
check_string l s path =
    if is_below (whole (utf16_length s)) l.min_length
    then fail bound_violation path
    else if is_above (whole (utf16_length s)) l.max_length
    then fail bound_violation path
    else if is_outside l.enum (text s)
    then fail enum_mismatch path
    else valid tt

-- The first of the required keys that the object lacks
unfoldable pub check_required : List String → JsonFields → List Segment → Checked (Unit {0})
check_required [] fs path = valid tt
check_required (k ∷ ks) fs path =
    if has_own k fs
    then check_required ks fs path
    else fail missing_required (path ++ (at_key k ∷ []))

-- Goes on where a test held.
abbrev pub then_check : Checked (Unit {0}) → Checked (Unit {0}) → Checked (Unit {0})
then_check (valid u) next = next
then_check (invalid f) next = invalid f

-- A key that no property has, and the test of a key that one has.
abbrev pub on_property :
    Option JsonSchema → List Segment → (JsonSchema → Checked (Unit {0})) → Checked (Unit {0})
on_property none path check = fail additional_property path
on_property (some s) path check = check s

-- The value at a type it does not match: what every type but its own returns.
abbrev pub mismatch : List Segment → Checked (Unit {0})
mismatch path = fail type_mismatch path

-- The tests of an array before its items
unfoldable pub check_array : Limits → ℕ → List Segment → Checked (Unit {0})
check_array l n path =
    if is_below (whole n) l.min_items
    then fail bound_violation path
    else if is_above (whole n) l.max_items
    then fail bound_violation path
    else if ltb max_array_items n
    then fail bound_violation path
    else valid tt

-- validateAgainst, on the value: the values of no parts, the items from an index, and the fields
unfoldable mutual
  pub validate_against : JsonValue → JsonSchema → List Segment → ℕ → Checked (Unit {0})
  validate_against v s path zero = fail too_deep path
  validate_against (boolean b) (schema boolean_type ps req l its) path (suc left) = valid tt
  validate_against (number n) (schema number_type ps req l its) path (suc left) =
      if not (is_finite n) then mismatch path else check_number l n path
  validate_against (number n) (schema integer_type ps req l its) path (suc left) =
      if not (is_finite n) || not (is_integer n) then mismatch path else check_number l n path
  validate_against (text t) (schema string_type ps req l its) path (suc left) =
      check_string l t path
  validate_against (array vs) (schema array_type ps req l its) path (suc left) =
      then_check (check_array l (count_items vs) path) (validate_items vs its path 0 left)
  validate_against (object fs) (schema object_type ps req l its) path (suc left) =
      if ltb max_object_keys (count_fields fs)
      then fail bound_violation path
      else then_check (check_required req fs path) (validate_fields fs ps path left)
  validate_against v s path (suc left) = mismatch path

  pub validate_items : JsonItems → ItemSchema → List Segment → ℕ → ℕ → Checked (Unit {0})
  validate_items end its path index left = valid tt
  validate_items (item v vs) undefined_items path index left = valid tt
  validate_items (item v vs) (items s) path index left =
      then_check (validate_against v s (path ++ (at_index index ∷ [])) left)
        (validate_items vs (items s) path (suc index) left)

  pub validate_fields : JsonFields → Properties → List Segment → ℕ → Checked (Unit {0})
  validate_fields done ps path left = valid tt
  validate_fields (field k v fs) ps path left =
      then_check
        (on_property (get_property k ps) (path ++ (at_key k ∷ []))
          (λ s. validate_against v s (path ++ (at_key k ∷ [])) left))
        (validate_fields fs ps path left)

-- validateJsonAgainstSchema
unfoldable pub validate_json_against_schema : JsonSchema → JsonValue → Checked (Unit {0})
validate_json_against_schema s v = validate_against v s [] (suc max_depth)
