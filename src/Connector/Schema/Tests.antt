-- ===== src/Connector/Schema/Tests.antt =====
-- A schema read from a concrete heap, and values tested against it.
use open_claw_bot_neo.Prelude.{
  zero, suc, ◌≡◌, ◌↔◌, ◌≤◌, some, false, true, refl, [], ◌∷◌, ℕ_discrete, String-discrete, includes,
  arith,
}
use open_claw_bot_neo.Connector.Json.{
  JsonValue, number, boolean, object, done, field, truth, numeral, string, reference, array_node,
  object_node, Heap, whole, max_depth, is_finite, is_integer, number_lt, number_same, finite,
  count_fields, has_own,
}
use open_claw_bot_neo.Connector.Schema.{
  object_type, integer_type, boolean_type, JsonSchema, schema, no_property, property,
  undefined_items, valid, invalid, at_key, bound_violation, missing_required, get_property,
  is_below, is_above, is_outside, some_equal, strictly_equal, check_number, check_required,
  validate_against, validate_json_against_schema,
}
use open_claw_bot_neo.Connector.Schema.Enums.{without_boolean_enums}
use open_claw_bot_neo.Connector.Schema.Conforms.{Conforms}
use open_claw_bot_neo.Connector.Schema.Raw.{
  read, as_record, as_array, schema_type, has_unknown_field, all_strings, read_required, is_closed,
  is_undefined, read_max_items, read_min_items, read_enum, read_bound,
}
use open_claw_bot_neo.Connector.Schema.Definition.{
  set_property, validate_properties, no_limits, define_object, define_array, default_max_length,
  define_primitive, define, validate_definition, validate_json_schema_definition,
}
use open_claw_bot_neo.Connector.Schema.Definition.Shape.{WellFormed, schema_depth}
use open_claw_bot_neo.Connector.Schema.Definition.Validated.{
  validate_json_schema_definition-WellFormed, validate_json_against_schema-valid_iff,
}

schemas : Unit {0}
unfolding validate_json_schema_definition validate_json_against_schema ℕ_discrete String-discrete
    includes validate_against count_fields check_required has_own get_property is_finite is_integer
    check_number is_below is_above is_outside number_lt number_same validate_definition define
    define_object define_array define_primitive validate_properties as_record as_array read
    schema_type has_unknown_field all_strings read_required is_closed is_undefined read_enum
    read_bound set_property default_max_length read_max_items read_min_items
schemas = tt

-- 0 is `{type: "object", additionalProperties: false, properties: 1, required: ["n"]}`, where 1 has
-- under "n" an integer from 0 and under "b" a boolean whose `enum` is `[true]`.
abbrev heap : Heap
heap zero = object_node true (
    ("type", string "object")
    ∷ ("additionalProperties", truth false)
    ∷ ("properties", reference 1)
    ∷ ("required", reference 2)
    ∷ [])
heap (suc zero) = object_node true (("n", reference 3) ∷ ("b", reference 4) ∷ [])
heap (suc (suc zero)) = array_node (string "n" ∷ [])
heap (suc (suc (suc zero))) =
    object_node true (("type", string "integer") ∷ ("minimum", numeral (whole 0)) ∷ [])
heap (suc (suc (suc (suc zero)))) =
    object_node true (("type", string "boolean") ∷ ("enum", reference 5) ∷ [])
heap _ = array_node (truth true ∷ [])

abbrev from_zero : JsonSchema
from_zero =
    schema integer_type no_property [] (record no_limits { minimum = some (whole 0) })
      undefined_items

abbrev only_true : JsonSchema
only_true =
    schema boolean_type no_property [] (record no_limits { enum = some (truth true ∷ []) })
      undefined_items

abbrev counted : JsonSchema
counted =
    schema object_type (property "n" from_zero (property "b" only_true no_property)) ("n" ∷ [])
      no_limits undefined_items

defines : validate_json_schema_definition heap (reference 0) ≡ valid counted
unfolding schemas
defines = refl

abbrev three : JsonValue
three = object (field "n" (number (whole 3)) done)

accepts : validate_json_against_schema counted three ≡ valid tt
unfolding schemas
accepts = refl

below :
    validate_json_against_schema counted (object (field "n" (number (finite true 3 0)) done))
    ≡ invalid (record { code = bound_violation; path = at_key "n" ∷ [] })
unfolding schemas
below = refl

missing :
    validate_json_against_schema counted (object done)
    ≡ invalid (record { code = missing_required; path = at_key "n" ∷ [] })
unfolding schemas
missing = refl

-- The `enum` of a boolean is kept, and not tested: a value that does not conform is accepted.
enum_of_boolean : validate_json_against_schema only_true (boolean false) ≡ valid tt
unfolding schemas
enum_of_boolean = refl

false-nonconforming : ¬ Conforms (boolean false) only_true
unfolding schemas Conforms some_equal strictly_equal
false-nonconforming c = absurd (ground (arith, c (truth true ∷ []) refl))

validate_json_schema_definition-WellFormed_example :
    WellFormed counted × (schema_depth counted ≤ max_depth)
validate_json_schema_definition-WellFormed_example =
    validate_json_schema_definition-WellFormed heap (reference 0) counted defines

validate_json_against_schema-valid_iff_example :
    (validate_json_against_schema counted three ≡ valid tt)
    ↔ Conforms three (without_boolean_enums counted)
validate_json_against_schema-valid_iff_example =
    validate_json_against_schema-valid_iff heap (reference 0) counted three defines
