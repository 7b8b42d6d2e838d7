-- ===== src/Connector/Schema/Definition.antt =====
-- src/core/domain/connector/json-schema-validator.ts, validateJsonSchemaDefinition: the schema that
-- an unknown value is. The depth is counted down, as in the bounds of JSON.
pub mod Shape
pub mod Validated
use open_claw_bot_neo.Prelude.{
  ℕ, zero, suc, not, String, String_eq, Option, none, some, List, [], ◌∷◌, if◌then◌else◌, ◌==◌, ltb,
  length,
}
use open_claw_bot_neo.Connector.Json.{
  Number, whole, Unknown, Heap, max_depth, max_object_keys, max_string_length,
}
use open_claw_bot_neo.Connector.Schema.{
  JsonSchemaType, object_type, string_type, array_type, Limits, JsonSchema, schema, Properties,
  no_property, property, undefined_items, items, at_key, Checked, valid, invalid, fail,
  invalid_schema, too_deep,
}
use open_claw_bot_neo.Connector.Schema.Raw.{
  Fields, read, as_record, schema_type, has_unknown_field, read_required, is_closed, is_undefined,
  read_max_items, read_min_items, read_enum, read_bound,
}

abbrev pub no_limits : Limits
no_limits = record {
  enum = none;
  minimum = none;
  maximum = none;
  min_length = none;
  max_length = none;
  min_items = none;
  max_items = none;
}

-- `properties[key] = child`: under the key `__proto__` this sets the prototype, and no property.
unfoldable pub set_property : String → JsonSchema → Properties → Properties
set_property key s ps = if key == "__proto__" then ps else property key s ps

-- Goes on with a part that is valid.
abbrev pub with_part : {A B : Type 0} → Checked A → (A → Checked B) → Checked B
with_part (valid a) f = f a
with_part (invalid e) f = invalid e

unfoldable pub validate_properties : (Unknown → Checked JsonSchema) → Fields → Checked Properties
validate_properties child [] = valid no_property
validate_properties child ((k, v) ∷ fs) =
    with_part (child v)
      (λ s. with_part (validate_properties child fs) (λ ps. valid (set_property k s ps)))

-- What an object schema keeps, once its properties are valid
abbrev pub object_schema : Properties → Option (List String) → Checked JsonSchema
object_schema ps none = fail invalid_schema (at_key "required" ∷ [])
object_schema ps (some req) = valid (schema object_type ps req no_limits undefined_items)

abbrev pub properties_of :
    (Unknown → Checked JsonSchema) → Heap → Unknown → Option Fields → Checked JsonSchema
properties_of child heap required none = fail invalid_schema (at_key "properties" ∷ [])
properties_of child heap required (some fs) =
    if ltb max_object_keys (length fs)
    then fail invalid_schema (at_key "properties" ∷ [])
    else with_part (validate_properties child fs)
        (λ ps. object_schema ps (read_required heap (length fs) required))

-- The branch of an object
unfoldable pub define_object : (Unknown → Checked JsonSchema) → Heap → Fields → Checked JsonSchema
define_object child heap raw =
    if not (is_closed (read "additionalProperties" raw))
    then fail invalid_schema []
    else if is_undefined (read "properties" raw)
    then valid (schema object_type no_property [] no_limits undefined_items)
    else properties_of child heap (read "required" raw) (as_record heap (read "properties" raw))

abbrev pub array_schema : JsonSchema → Option Number → Option (Option Number) → Checked JsonSchema
array_schema s min none = fail invalid_schema (at_key "maxItems" ∷ [])
array_schema s min (some max) = valid (
    schema array_type no_property [] (record no_limits { min_items = min; max_items = max })
      (items s))

-- The branch of an array
unfoldable pub define_array : (Unknown → Checked JsonSchema) → Fields → Checked JsonSchema
define_array child raw =
    if is_undefined (read "items" raw)
    then fail invalid_schema []
    else with_part (child (read "items" raw)) (λ s.
      array_schema s (read_min_items (read "minItems" raw)) (read_max_items (read "maxItems" raw)))

-- The greatest length of a text that gives none is the platform's.
unfoldable pub default_max_length : JsonSchemaType → Option Number → Option Number
default_max_length string_type none = some (whole max_string_length)
default_max_length t bound = bound

abbrev pub with_enum :
    Option (Option (List Unknown))
    → (Option (List Unknown) → Checked JsonSchema)
    → Checked JsonSchema
with_enum none f = fail invalid_schema (at_key "enum" ∷ [])
with_enum (some e) f = f e

-- The branch of the other types
unfoldable pub define_primitive : JsonSchemaType → Heap → Fields → Checked JsonSchema
unfolding default_max_length
define_primitive t heap raw = with_enum (read_enum heap (read "enum" raw)) (λ e.
    with_part (read_bound "minimum" raw) (λ minimum.
      with_part (read_bound "maximum" raw) (λ maximum.
        with_part (read_bound "minLength" raw) (λ min_length.
          with_part (read_bound "maxLength" raw) (λ max_length. valid (
            schema t no_property []
              (record no_limits {
                enum = e;
                minimum = minimum;
                maximum = maximum;
                min_length = min_length;
                max_length = default_max_length t max_length;
              })
              undefined_items))))))

abbrev pub define_typed :
    (Unknown → Checked JsonSchema) → Heap → Fields → JsonSchemaType → Checked JsonSchema
define_typed child heap raw object_type = define_object child heap raw
define_typed child heap raw array_type = define_array child raw
define_typed child heap raw t = define_primitive t heap raw

unfoldable pub define :
    (Unknown → Checked JsonSchema) → Heap → Fields → Option JsonSchemaType → Checked JsonSchema
define child heap raw none = fail invalid_schema []
define child heap raw (some t) =
    if has_unknown_field raw then fail invalid_schema [] else define_typed child heap raw t

abbrev pub define_record :
    (Unknown → Checked JsonSchema) → Heap → Option Fields → Checked JsonSchema
define_record child heap none = fail invalid_schema []
define_record child heap (some raw) = define child heap raw (schema_type (read "type" raw))

unfoldable pub validate_definition : Heap → ℕ → Unknown → Checked JsonSchema
validate_definition heap zero raw = fail too_deep []
validate_definition heap (suc left) raw =
    define_record (validate_definition heap left) heap (as_record heap raw)

-- validateJsonSchemaDefinition
unfoldable pub validate_json_schema_definition : Heap → Unknown → Checked JsonSchema
validate_json_schema_definition heap raw = validate_definition heap (suc max_depth) raw
