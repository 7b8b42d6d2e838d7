-- ===== src/Connector/Schema/Enums.antt =====
-- The schema that validateJsonAgainstSchema goes by: it does not read the `enum` of a boolean schema.
use open_claw_bot_neo.Prelude.{◌≡◌, refl, String, String_eq, Option, none, some, arith}
use open_claw_bot_neo.Connector.Schema.{
  boolean_type, JsonSchema, schema, Properties, no_property, property, ItemSchema, undefined_items,
  items, get_property,
}

-- The schema without the `enum` of its boolean schemas, at any depth
unfoldable mutual
  pub without_boolean_enums : JsonSchema → JsonSchema
  without_boolean_enums (schema boolean_type ps req l its) =
      schema boolean_type (without_in_properties ps) req (record l { enum = none })
        (without_in_items its)
  without_boolean_enums (schema t ps req l its) =
      schema t (without_in_properties ps) req l (without_in_items its)

  pub without_in_properties : Properties → Properties
  without_in_properties no_property = no_property
  without_in_properties (property k s ps) =
      property k (without_boolean_enums s) (without_in_properties ps)

  pub without_in_items : ItemSchema → ItemSchema
  without_in_items undefined_items = undefined_items
  without_in_items (items s) = items (without_boolean_enums s)

abbrev pub without_in_found : Option JsonSchema → Option JsonSchema
without_in_found none = none
without_in_found (some s) = some (without_boolean_enums s)

pub get_property-without :
    (k : String) (ps : Properties)
    → get_property k (without_in_properties ps) ≡ without_in_found (get_property k ps)
unfolding get_property without_in_properties
get_property-without k no_property = refl
get_property-without k (property n s ps) = ground (arith, get_property-without k ps)
