-- ===== src/Connector/Schema/Conforms.antt =====
-- What it is for a value to conform to a schema, without paths, order or failures.
use open_claw_bot_neo.Prelude.{ℕ, ◌≤◌, ◌≡◌, true, false, String, Option, some, List, All}
use open_claw_bot_neo.Connector.Json.{
  Unknown, Number, is_finite, is_integer, number_lt, whole, utf16_length, JsonValue, boolean,
  number, text, array, object, JsonItems, end, item, JsonFields, done, field, count_items,
  count_fields, has_own, max_object_keys, max_array_items,
}
use open_claw_bot_neo.Connector.Schema.{
  object_type, string_type, number_type, integer_type, boolean_type, array_type, Limits, JsonSchema,
  schema, Properties, ItemSchema, undefined_items, items, get_property, some_equal,
}

-- A bound that is given is met.
abbrev pub AtLeast : Number → Option Number → Type 0
AtLeast n bound = (m : Number) → bound ≡ some m → number_lt n m ≡ false

abbrev pub AtMost : Number → Option Number → Type 0
AtMost n bound = (m : Number) → bound ≡ some m → number_lt m n ≡ false

-- The value is one of those that `enum` gives, if it gives any.
abbrev pub IsAllowed : JsonValue → Option (List Unknown) → Type 0
IsAllowed v enum = (allowed : List Unknown) → enum ≡ some allowed → some_equal allowed v ≡ true

abbrev pub NumberConforms : Limits → Number → Type 0
NumberConforms l n = AtLeast n l.minimum × AtMost n l.maximum × IsAllowed (number n) l.enum

abbrev pub TextConforms : Limits → String → Type 0
TextConforms l s =
    AtLeast (whole (utf16_length s)) l.min_length
    × AtMost (whole (utf16_length s)) l.max_length
    × IsAllowed (text s) l.enum

abbrev pub CountConforms : Limits → ℕ → Type 0
CountConforms l n =
    AtLeast (whole n) l.min_items × AtMost (whole n) l.max_items × (n ≤ max_array_items)

unfoldable mutual
  pub Conforms : JsonValue → JsonSchema → Type 0
  Conforms (boolean b) (schema boolean_type ps req l its) = IsAllowed (boolean b) l.enum
  Conforms (number n) (schema number_type ps req l its) = (is_finite n ≡ true) × NumberConforms l n
  Conforms (number n) (schema integer_type ps req l its) =
      (is_finite n ≡ true) × (is_integer n ≡ true) × NumberConforms l n
  Conforms (text s) (schema string_type ps req l its) = TextConforms l s
  Conforms (array vs) (schema array_type ps req l its) =
      CountConforms l (count_items vs) × ItemsConform vs its
  Conforms (object fs) (schema object_type ps req l its) =
      (count_fields fs ≤ max_object_keys) × All (λ k. has_own k fs ≡ true) req × FieldsConform fs ps
  Conforms v s = ⊥

  pub ItemsConform : JsonItems → ItemSchema → Type 0
  ItemsConform end its = Unit
  ItemsConform (item v vs) undefined_items = Unit
  ItemsConform (item v vs) (items s) = Conforms v s × ItemsConform vs (items s)

  -- Each key is a property's, and its value conforms to the property's schema.
  pub FieldsConform : JsonFields → Properties → Type 0
  FieldsConform done ps = Unit
  FieldsConform (field k v fs) ps =
      ((s : JsonSchema) × (get_property k ps ≡ some s) × Conforms v s) × FieldsConform fs ps
