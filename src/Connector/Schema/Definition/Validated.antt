-- ===== src/Connector/Schema/Definition/Validated.antt =====
-- What validateJsonSchemaDefinition returns is well formed, and decides the values it is for.
use open_claw_bot_neo.Prelude.{
  ℕ, zero, suc, ◌<◌, ◌≤◌, ◌≡◌, ◌↔◌, refl, subst, String, String_eq, Option, none, some, List, [],
  ◌∷◌, length, arith, inl, inr, Option-cases, Bool-cases, ◌==◌, ◌≢◌, if_cases,
}
use open_claw_bot_neo.Connector.Json.{
  Number, whole, JsonValue, Unknown, undefined, Heap, max_depth, max_object_keys, max_string_length,
}
use open_claw_bot_neo.Connector.Schema.{
  JsonSchemaType, object_type, string_type, array_type, Limits, JsonSchema, schema, Properties,
  no_property, property, undefined_items, items, Checked, valid, invalid,
  validate_json_against_schema,
}
use open_claw_bot_neo.Connector.Schema.Conforms.{Conforms}
use open_claw_bot_neo.Connector.Schema.Enums.{without_boolean_enums}
use open_claw_bot_neo.Connector.Schema.Exact.{validate_against-Decides}
use open_claw_bot_neo.Connector.Schema.Raw.{
  Fields, read, as_record, schema_type, read_required, strings_of, as_array, read_bound, read_enum,
  read_max_items, read_min_items, is_undefined,
}
use open_claw_bot_neo.Connector.Schema.Definition.{
  set_property, with_part, validate_properties, object_schema, properties_of, define_object,
  array_schema, define_array, default_max_length, define_primitive, define_typed, define, with_enum,
  no_limits, define_record, validate_definition, validate_json_schema_definition,
}
use open_claw_bot_neo.Connector.Schema.Definition.Shape.{
  count_properties, schema_depth, properties_depth, WellFormed, PropertiesWellFormed,
  Conforms-without-depth,
}

with_part-valid :
    {A B : Type 0} (c : Checked A) (f : A → Checked B) (b : B)
    → with_part c f ≡ valid b
    → (a : A) × (c ≡ valid a) × (f a ≡ valid b)
with_part-valid (valid a) f b h = (a, refl, h)
with_part-valid (invalid e) f b h = absurd (cc)

with_enum-valid :
    (e : Option (Option (List Unknown))) (f : Option (List Unknown) → Checked JsonSchema)
    (s : JsonSchema)
    → with_enum e f ≡ valid s
    → (l : Option (List Unknown)) × (f l ≡ valid s)
with_enum-valid none f s h = absurd (cc)
with_enum-valid (some l) f s h = (l, h)

-- Well formed, and less deep than a bound.
abbrev GoodBelow : ℕ → JsonSchema → Type 0
GoodBelow left s = WellFormed s × (schema_depth s < left)

good :
    (left : ℕ) (made s : JsonSchema) → valid made ≡ valid s → GoodBelow left made → GoodBelow left s
good left made s h g = let same : made ≡ s = cc in subst (GoodBelow left) same g

read_required-short :
    (heap : Heap) (n : ℕ) (v : Unknown) (req : List String)
    → read_required heap n v ≡ some req
    → length req ≤ n
unfolding read_required
read_required-short heap n undefined req h = ground arith
read_required-short heap n v req h = elim (Option-cases (strings_of (as_array heap v))) [
  | inl e ↦ absurd (ground arith)
  | inr (ss, e) ↦ ground arith
]

-- A text schema has a greatest length, and no other type without parts asks for anything.
primitive-good :
    (t : JsonSchemaType) (left : ℕ) (l : Limits) (bound : Option Number)
    → t ≢ object_type
    → t ≢ array_type
    → l.max_length ≡ default_max_length t bound
    → GoodBelow (suc left) (schema t no_property [] l undefined_items)
unfolding default_max_length WellFormed schema_depth
primitive-good object_type left l bound p q e = absurd (p refl)
primitive-good array_type left l bound p q e = absurd (q refl)
primitive-good string_type left l none p q e = ((whole max_string_length, e), omega arith)
primitive-good string_type left l (some n) p q e = ((n, e), omega arith)
primitive-good t left l bound p q e = (tt, omega arith)

define_primitive-good :
    (t : JsonSchemaType) (heap : Heap) (raw : Fields) (left : ℕ) (s : JsonSchema)
    → t ≢ object_type
    → t ≢ array_type
    → define_primitive t heap raw ≡ valid s
    → GoodBelow (suc left) s
unfolding define_primitive
define_primitive-good t heap raw left s p q h =
    let (e, h1) = with_enum-valid (read_enum heap (read "enum" raw)) _ s h in
    let (low, e1, h2) = with_part-valid (read_bound "minimum" raw) _ s h1 in
    let (high, e2, h3) = with_part-valid (read_bound "maximum" raw) _ s h2 in
    let (least, e3, h4) = with_part-valid (read_bound "minLength" raw) _ s h3 in
    let (most, e4, h5) = with_part-valid (read_bound "maxLength" raw) _ s h4 in
    good (suc left) _ s h5 (primitive-good t left _ most p q refl)

module _ (left : ℕ) (child : Unknown → Checked JsonSchema)
    (sound : (v : Unknown) (s : JsonSchema) → child v ≡ valid s → GoodBelow left s) where
  define_array-good :
      (raw : Fields) (s : JsonSchema) → define_array child raw ≡ valid s → GoodBelow (suc left) s
  unfolding define_array WellFormed schema_depth
  define_array-good raw s h =
      let (t, e, h1) =
        with_part-valid (child (read "items" raw))
          (λ s.
            array_schema s (read_min_items (read "minItems" raw))
              (read_max_items (read "maxItems" raw)))
          s (ground arith) in
      let (w, d) = sound (read "items" raw) t e in
      elim (Option-cases (read_max_items (read "maxItems" raw))) [
        | inl e ↦ absurd (ground arith)
        | inr (most, e) ↦
            good (suc left)
              (schema array_type no_property []
                (record no_limits {
                  min_items = read_min_items (read "minItems" raw);
                  max_items = most;
                })
                (items t))
              s (ground arith) (w, omega arith)
      ]

  validate_properties-good :
      (fs : Fields) (ps : Properties)
      → validate_properties child fs ≡ valid ps
      → PropertiesWellFormed ps × (properties_depth ps ≤ left) × (count_properties ps ≤ length fs)
  unfolding validate_properties WellFormed schema_depth count_properties set_property
  validate_properties-good [] ps h =
      let same : no_property ≡ ps = cc in
      subst (λ q. PropertiesWellFormed q × (properties_depth q ≤ left) × (count_properties q ≤ 0))
        same (tt, omega arith, omega arith)
  validate_properties-good ((k, v) ∷ fs) ps h =
      let (s, e, h1) = with_part-valid (child v) _ ps h in
      let (qs, e1, h2) = with_part-valid (validate_properties child fs) _ ps h1 in
      let (w, d) = sound v s e in
      let (ws, ds, n) = validate_properties-good fs qs e1 in
      let same : set_property k s qs ≡ ps = cc in
      subst
        (λ q.
          PropertiesWellFormed q
          × (properties_depth q ≤ left)
          × (count_properties q ≤ suc (length fs)))
        same
        (if_cases
          (λ (q : Properties).
            PropertiesWellFormed q
            × (properties_depth q ≤ left)
            × (count_properties q ≤ suc (length fs)))
          (k == "__proto__") qs (property k s qs) (λ p. (ws, ds, omega arith))
          (λ p. ((w, ws), omega arith, omega arith)))

  properties_of-good :
      (heap : Heap) (required : Unknown) (fs : Option Fields) (s : JsonSchema)
      → properties_of child heap required fs ≡ valid s
      → GoodBelow (suc left) s
  unfolding WellFormed schema_depth
  properties_of-good heap required none s h = absurd (cc)
  properties_of-good heap required (some fs) s h =
      let few : length fs ≤ max_object_keys = ground arith in
      let (ps, e, h1) =
        with_part-valid (validate_properties child fs)
          (λ ps. object_schema ps (read_required heap (length fs) required)) s (ground arith) in
      let (ws, ds, n) = validate_properties-good fs ps e in
      elim (Option-cases (read_required heap (length fs) required)) [
        | inl none_read ↦ absurd (ground arith)
        | inr (req, e) ↦
            good (suc left) (schema object_type ps req no_limits undefined_items) s (ground arith) (
              (omega arith, omega (arith, read_required-short heap (length fs) required req e), ws),
              omega arith,
            )
      ]

  define_object-good :
      (heap : Heap) (raw : Fields) (s : JsonSchema)
      → define_object child heap raw ≡ valid s
      → GoodBelow (suc left) s
  unfolding define_object WellFormed schema_depth count_properties
  define_object-good heap raw s h = elim (Bool-cases (is_undefined (read "properties" raw))) [
    | inl absent ↦
        good (suc left) (schema object_type no_property [] no_limits undefined_items) s
          (ground arith) ((omega arith, omega arith, tt), omega arith)
    | inr given ↦
        properties_of-good heap (read "required" raw) (as_record heap (read "properties" raw)) s
          (ground arith)
  ]

  define_typed-good :
      (t : JsonSchemaType) (heap : Heap) (raw : Fields) (s : JsonSchema)
      → define_typed child heap raw t ≡ valid s
      → GoodBelow (suc left) s
  define_typed-good object_type heap raw s h = define_object-good heap raw s h
  define_typed-good array_type heap raw s h = define_array-good raw s h
  define_typed-good t heap raw s h =
      define_primitive-good t heap raw left s (λ p. absurd (cc)) (λ p. absurd (cc)) h

  define_record-good :
      (heap : Heap) (raw : Option Fields) (s : JsonSchema)
      → define_record child heap raw ≡ valid s
      → GoodBelow (suc left) s
  unfolding define
  define_record-good heap none s h = absurd (cc)
  define_record-good heap (some raw) s h = elim (Option-cases (schema_type (read "type" raw))) [
    | inl unknown ↦ absurd (ground arith)
    | inr (t, e) ↦ define_typed-good t heap raw s (ground arith)
  ]

validate_definition-good :
    (heap : Heap) (left : ℕ) (raw : Unknown) (s : JsonSchema)
    → validate_definition heap left raw ≡ valid s
    → GoodBelow left s
unfolding validate_definition
validate_definition-good heap zero raw s h = absurd (cc)
validate_definition-good heap (suc left) raw s h =
    define_record-good left (validate_definition heap left) (validate_definition-good heap left)
      heap (as_record heap raw) s h

-- Every schema that validateJsonSchemaDefinition returns is at most 16 deep, and in it, at any depth,
-- an object has at most 128 properties and 128 required keys, an array has a schema of its items, and
-- a text has a greatest length.
pub validate_json_schema_definition-WellFormed :
    (heap : Heap) (raw : Unknown) (s : JsonSchema)
    → validate_json_schema_definition heap raw ≡ valid s
    → WellFormed s × (schema_depth s ≤ max_depth)
unfolding validate_json_schema_definition
validate_json_schema_definition-WellFormed heap raw s h =
    let (w, d) = validate_definition-good heap (suc max_depth) raw s h in (w, omega arith)

-- For a schema that validateJsonSchemaDefinition returned, validateJsonAgainstSchema accepts exactly
-- the values, however deep they are, that conform to the schema with the `enum` of its boolean schemas
-- left out, which the validation does not read.
pub validate_json_against_schema-valid_iff :
    (heap : Heap) (raw : Unknown) (s : JsonSchema) (v : JsonValue)
    → validate_json_schema_definition heap raw ≡ valid s
    → (validate_json_against_schema s v ≡ valid tt) ↔ Conforms v (without_boolean_enums s)
unfolding validate_json_against_schema
validate_json_against_schema-valid_iff heap raw s v h =
    let (w, d) = validate_json_schema_definition-WellFormed heap raw s h in
    let (accepts, covers) = validate_against-Decides v s [] (suc max_depth) in
    (accepts, λ c. covers (omega (arith, Conforms-without-depth v s w c)) c)
