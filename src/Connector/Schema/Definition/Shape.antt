-- ===== src/Connector/Schema/Definition/Shape.antt =====
-- What the schemas that validateJsonSchemaDefinition returns are like, and what that makes of the
-- values they accept.
use Prim.Native.Nat.{max}
use open_claw_bot_neo.Prelude.{
  ℕ, suc, ◌<◌, ◌≤◌, ◌≡◌, refl, ap, subst, String, String_eq, some, length, arith, inl, inr,
  Bool-cases, ◌==◌,
}
use open_claw_bot_neo.Connector.Json.{
  Number, JsonValue, null, boolean, number, text, array, object, JsonItems, end, item, JsonFields,
  done, field, max_object_keys,
}
use open_claw_bot_neo.Connector.Json.Bounds.Copies.{depth, depth_items, depth_fields}
use open_claw_bot_neo.Connector.Schema.{
  object_type, string_type, boolean_type, array_type, JsonSchema, schema, Properties, no_property,
  property, ItemSchema, undefined_items, items, get_property,
}
use open_claw_bot_neo.Connector.Schema.Enums.{
  without_boolean_enums, without_in_properties, without_in_items,
}
use open_claw_bot_neo.Connector.Schema.Conforms.{Conforms, ItemsConform, FieldsConform}

unfoldable pub count_properties : Properties → ℕ
count_properties no_property = 0
count_properties (property k s ps) = suc (count_properties ps)

unfoldable mutual
  -- The nesting of a schema: nothing stands in one without properties and items.
  pub schema_depth : JsonSchema → ℕ
  schema_depth (schema t ps req l its) = max (properties_depth ps) (items_depth its)

  pub properties_depth : Properties → ℕ
  properties_depth no_property = 0
  properties_depth (property k s ps) = max (suc (schema_depth s)) (properties_depth ps)

  pub items_depth : ItemSchema → ℕ
  items_depth undefined_items = 0
  items_depth (items s) = suc (schema_depth s)

unfoldable mutual
  -- An object has at most 128 properties and 128 required keys, an array has a schema of its items, a
  -- text has a greatest length, and the same holds of the schemas within.
  pub WellFormed : JsonSchema → Type 0
  WellFormed (schema object_type ps req l its) =
      (count_properties ps ≤ max_object_keys)
      × (length req ≤ max_object_keys)
      × PropertiesWellFormed ps
  WellFormed (schema array_type ps req l its) = ItemsWellFormed its
  WellFormed (schema string_type ps req l its) = (n : Number) × (l.max_length ≡ some n)
  WellFormed (schema t ps req l its) = Unit

  pub PropertiesWellFormed : Properties → Type 0
  PropertiesWellFormed no_property = Unit
  PropertiesWellFormed (property k s ps) = WellFormed s × PropertiesWellFormed ps

  pub ItemsWellFormed : ItemSchema → Type 0
  ItemsWellFormed undefined_items = ⊥
  ItemsWellFormed (items s) = WellFormed s

-- The schema of a property is one of those within.
get_property-WellFormed :
    (ps : Properties) (k : String) (s : JsonSchema)
    → PropertiesWellFormed ps
    → get_property k ps ≡ some s
    → WellFormed s × (schema_depth s < properties_depth ps)
unfolding get_property WellFormed schema_depth
get_property-WellFormed no_property k s w e = absurd (cc)
get_property-WellFormed (property n t ps) k s (w, ws) e = elim (Bool-cases (n == k)) [
  | inl same ↦
      let found : t ≡ s = ground arith in
      subst
        (λ x. WellFormed x × (schema_depth x < max (suc (schema_depth t)) (properties_depth ps)))
        found (w, omega arith)
  | inr differ ↦ let (w', l) = get_property-WellFormed ps k s ws (ground arith) in (w', omega arith)
]

-- A value that conforms is no deeper than its schema.
mutual
  unfolding Conforms depth WellFormed schema_depth

  Conforms-depth :
      (v : JsonValue) (s : JsonSchema) → WellFormed s → Conforms v s → depth v ≤ schema_depth s
  Conforms-depth (array vs) (schema array_type ps req l its) w (n, c) =
      omega (arith, ItemsConform-depth vs its w c)
  Conforms-depth (object fs) (schema object_type ps req l its) (n, m, w) (k, has, c) =
      omega (arith, FieldsConform-depth fs ps w c)
  Conforms-depth null s w c = omega arith
  Conforms-depth (boolean b) s w c = omega arith
  Conforms-depth (number n) s w c = omega arith
  Conforms-depth (text t) s w c = omega arith
  Conforms-depth v s w c = absurd c

  ItemsConform-depth :
      (vs : JsonItems) (its : ItemSchema)
      → ItemsWellFormed its
      → ItemsConform vs its
      → depth_items vs ≤ items_depth its
  ItemsConform-depth end its w c = omega arith
  ItemsConform-depth (item v vs) undefined_items w c = absurd w
  ItemsConform-depth (item v vs) (items s) w (c, cs) =
      omega (arith, Conforms-depth v s w c, ItemsConform-depth vs (items s) w cs)

  FieldsConform-depth :
      (fs : JsonFields) (ps : Properties)
      → PropertiesWellFormed ps
      → FieldsConform fs ps
      → depth_fields fs ≤ properties_depth ps
  FieldsConform-depth done ps w c = omega arith
  FieldsConform-depth (field k v fs) ps w ((s, e, c), cs) =
      let (ws, l) = get_property-WellFormed ps k s w e in
      omega (arith, Conforms-depth v s ws c, FieldsConform-depth fs ps w cs)

count_properties-without :
    (ps : Properties) → count_properties (without_in_properties ps) ≡ count_properties ps
unfolding count_properties without_in_properties
count_properties-without no_property = refl
count_properties-without (property k s ps) = ap suc (count_properties-without ps)

-- Without the `enum` of boolean schemas a schema is as well formed and as deep as with it.
mutual
  unfolding without_boolean_enums schema_depth

  schema_depth-without : (s : JsonSchema) → schema_depth (without_boolean_enums s) ≡ schema_depth s
  schema_depth-without (schema boolean_type ps req l its) =
      omega (arith, properties_depth-without ps, items_depth-without its)
  schema_depth-without (schema t ps req l its) =
      omega (arith, properties_depth-without ps, items_depth-without its)

  properties_depth-without :
      (ps : Properties) → properties_depth (without_in_properties ps) ≡ properties_depth ps
  properties_depth-without no_property = refl
  properties_depth-without (property k s ps) =
      omega (arith, schema_depth-without s, properties_depth-without ps)

  items_depth-without : (its : ItemSchema) → items_depth (without_in_items its) ≡ items_depth its
  items_depth-without undefined_items = refl
  items_depth-without (items s) = ap suc (schema_depth-without s)

mutual
  unfolding without_boolean_enums WellFormed

  WellFormed-without : (s : JsonSchema) → WellFormed s → WellFormed (without_boolean_enums s)
  WellFormed-without (schema object_type ps req l its) (n, m, w) =
      (omega (arith, count_properties-without ps), m, PropertiesWellFormed-without ps w)
  WellFormed-without (schema array_type ps req l its) w = ItemsWellFormed-without its w
  WellFormed-without (schema string_type ps req l its) w = w
  WellFormed-without (schema t ps req l its) w = tt

  PropertiesWellFormed-without :
      (ps : Properties) → PropertiesWellFormed ps → PropertiesWellFormed (without_in_properties ps)
  PropertiesWellFormed-without no_property w = tt
  PropertiesWellFormed-without (property k s ps) (w, ws) =
      (WellFormed-without s w, PropertiesWellFormed-without ps ws)

  ItemsWellFormed-without :
      (its : ItemSchema) → ItemsWellFormed its → ItemsWellFormed (without_in_items its)
  ItemsWellFormed-without undefined_items w = absurd w
  ItemsWellFormed-without (items s) w = WellFormed-without s w

-- A value that conforms to a schema without the `enum` of boolean schemas is no deeper than the schema.
pub Conforms-without-depth :
    (v : JsonValue) (s : JsonSchema)
    → WellFormed s
    → Conforms v (without_boolean_enums s)
    → depth v ≤ schema_depth s
Conforms-without-depth v s w c = omega (
  arith,
  schema_depth-without s,
  Conforms-depth v (without_boolean_enums s) (WellFormed-without s w) c,
)
