-- ===== src/Connector/Schema/Exact.antt =====
-- validateJsonAgainstSchema decides whether a value conforms, to the schema without the `enum` of its
-- boolean schemas.
use open_claw_bot_neo.Prelude.{
  ℕ, zero, suc, ◌<◌, ◌≤◌, ◌≡◌, ◌↔◌, refl, sym, subst, true, false, String, Option, none, some, List,
  [], ◌∷◌, ◌++◌, arith, All,
}
use open_claw_bot_neo.Connector.Json.{
  Unknown, Number, whole, utf16_length, JsonValue, boolean, number, text, array, object, JsonItems,
  end, item, JsonFields, done, field, count_items, has_own,
}
use open_claw_bot_neo.Connector.Json.Bounds.Copies.{depth, depth_items, depth_fields}
use open_claw_bot_neo.Connector.Schema.{
  object_type, string_type, number_type, integer_type, boolean_type, array_type, Limits, JsonSchema,
  schema, Properties, ItemSchema, undefined_items, items, Segment, at_key, at_index, Checked, valid,
  invalid, get_property, is_below, is_above, is_outside, check_number, check_string, check_required,
  check_array, then_check, on_property, validate_against, validate_items, validate_fields,
}
use open_claw_bot_neo.Connector.Schema.Enums.{
  without_boolean_enums, without_in_properties, without_in_items, without_in_found,
  get_property-without,
}
use open_claw_bot_neo.Connector.Schema.Conforms.{
  AtLeast, AtMost, IsAllowed, NumberConforms, TextConforms, CountConforms, Conforms, ItemsConform,
  FieldsConform,
}

is_below_iff : (n : Number) (b : Option Number) → (is_below n b ≡ false) ↔ AtLeast n b
unfolding is_below
is_below_iff n none = (λ h m e. absurd (cc), λ h. refl)
is_below_iff n (some m) = (λ h k e. ground arith, λ h. h m refl)

is_above_iff : (n : Number) (b : Option Number) → (is_above n b ≡ false) ↔ AtMost n b
unfolding is_above
is_above_iff n none = (λ h m e. absurd (cc), λ h. refl)
is_above_iff n (some m) = (λ h k e. ground arith, λ h. h m refl)

is_outside_iff :
    (e : Option (List Unknown)) (v : JsonValue) → (is_outside e v ≡ false) ↔ IsAllowed v e
unfolding is_outside
is_outside_iff none v = (λ h a e. absurd (cc), λ h. refl)
is_outside_iff (some allowed) v = (λ h k e. ground arith, λ h. ground (arith, h allowed refl))

check_number_iff :
    (l : Limits) (n : Number) (path : List Segment)
    → (check_number l n path ≡ valid tt) ↔ NumberConforms l n
unfolding check_number
check_number_iff l n path =
    let low = is_below_iff n l.minimum in
    let high = is_above_iff n l.maximum in
    let listed = is_outside_iff l.enum (number n) in
    (
      λ h. (low.0 (ground arith), high.0 (ground arith), listed.0 (ground arith)),
      λ (a, b, c). ground (arith, low.1 a, high.1 b, listed.1 c),
    )

check_string_iff :
    (l : Limits) (s : String) (path : List Segment)
    → (check_string l s path ≡ valid tt) ↔ TextConforms l s
unfolding check_string
check_string_iff l s path =
    let low = is_below_iff (whole (utf16_length s)) l.min_length in
    let high = is_above_iff (whole (utf16_length s)) l.max_length in
    let listed = is_outside_iff l.enum (text s) in
    (
      λ h. (low.0 (ground arith), high.0 (ground arith), listed.0 (ground arith)),
      λ (a, b, c). ground (arith, low.1 a, high.1 b, listed.1 c),
    )

check_array_iff :
    (l : Limits) (n : ℕ) (path : List Segment)
    → (check_array l n path ≡ valid tt) ↔ CountConforms l n
unfolding check_array
check_array_iff l n path =
    let low = is_below_iff (whole n) l.min_items in
    let high = is_above_iff (whole n) l.max_items in
    (
      λ h. (low.0 (ground arith), high.0 (ground arith), ground arith),
      λ (a, b, c). ground (arith, low.1 a, high.1 b),
    )

check_required_iff :
    (ks : List String) (fs : JsonFields) (path : List Segment)
    → (check_required ks fs path ≡ valid tt) ↔ All (λ k. has_own k fs ≡ true) ks
unfolding check_required
check_required_iff [] fs path = (λ h. tt, λ h. refl)
check_required_iff (k ∷ ks) fs path =
    let rest = check_required_iff ks fs path in
    (λ h. (ground arith, rest.0 (ground arith)), λ (a, b). ground (arith, rest.1 b))

-- A test accepts only what has P, and, where a depth suffices, all that has it.
abbrev pub Decides : Checked (Unit {0}) → Type 0 → Type 0 → Type 0
Decides c P D = (c ≡ valid tt → P) × (D → P → c ≡ valid tt)

-- Two tests in a row.
then_check-Decides :
    (a b : Checked (Unit {0})) (P Q D E F : Type 0)
    → (F → D × E)
    → Decides a P D
    → Decides b Q E
    → Decides (then_check a b) (P × Q) F
then_check-Decides (valid u) b P Q D E F enough (p, p') (q, q') =
    (λ h. (p refl, q h), λ f (x, y). q' (enough f).1 y)
then_check-Decides (invalid e) b P Q D E F enough (p, p') (q, q') =
    (λ h. absurd (cc), λ f (x, y). absurd (cc (p' (enough f).0 x)))

property-Decides :
    (found : Option JsonSchema) (path : List Segment) (check : JsonSchema → Checked (Unit {0}))
    (P : JsonSchema → Type 0) (D : Type 0)
    → ((s : JsonSchema) → Decides (check s) (P (without_boolean_enums s)) D)
    → Decides
        (on_property found path check)
        ((s : JsonSchema) × (without_in_found found ≡ some s) × P s)
        D
property-Decides none path check P D inner = (λ h. absurd (cc), λ d (s, e, p). absurd (cc))
property-Decides (some s) path check P D inner = (
  λ h. (without_boolean_enums s, refl, (inner s).0 h),
  λ d (t, e, p). let same : t ≡ without_boolean_enums s = cc in (inner s).1 d (subst P same p),
)

mutual
  unfolding validate_against Conforms depth without_boolean_enums

  pub validate_against-Decides :
      (v : JsonValue) (s : JsonSchema) (path : List Segment) (left : ℕ)
      → Decides
          (validate_against v s path left)
          (Conforms v (without_boolean_enums s))
          (depth v < left)
  validate_against-Decides v s path zero = (λ h. absurd (cc), λ d c. absurd (omega arith))
  validate_against-Decides (boolean b) (schema boolean_type ps req l its) path (suc left) =
      (λ h allowed e. absurd (cc), λ d c. refl)
  validate_against-Decides (number n) (schema number_type ps req l its) path (suc left) =
      let own = check_number_iff l n path in
      (λ h. (ground arith, own.0 (ground arith)), λ d (f, c). ground (arith, own.1 c))
  validate_against-Decides (number n) (schema integer_type ps req l its) path (suc left) =
      let own = check_number_iff l n path in
      (
        λ h. (ground arith, ground arith, own.0 (ground arith)),
        λ d (f, i, c). ground (arith, own.1 c),
      )
  validate_against-Decides (text t) (schema string_type ps req l its) path (suc left) =
      ((check_string_iff l t path).0, λ d c. (check_string_iff l t path).1 c)
  validate_against-Decides (array vs) (schema array_type ps req l its) path (suc left) =
      let own = check_array_iff l (count_items vs) path in
      then_check-Decides (check_array l (count_items vs) path) (validate_items vs its path 0 left)
        (CountConforms l (count_items vs)) (ItemsConform vs (without_in_items its)) Unit
        (depth_items vs ≤ left) (depth_items vs < suc left) (λ d. (tt, omega arith))
        (own.0, λ u c. own.1 c) (validate_items-Decides vs its path 0 left)
  validate_against-Decides (object fs) (schema object_type ps req l its) path (suc left) =
      let own = check_required_iff req fs path in
      let (accepts, covers) =
        then_check-Decides (check_required req fs path) (validate_fields fs ps path left)
          (All (λ k. has_own k fs ≡ true) req) (FieldsConform fs (without_in_properties ps)) Unit
          (depth_fields fs ≤ left) (depth_fields fs < suc left) (λ d. (tt, omega arith))
          (own.0, λ u c. own.1 c) (validate_fields-Decides fs ps path left) in
      (
        λ h. let (has, fit) = accepts (ground arith) in (ground arith, has, fit),
        λ d (n, has, fit). ground (arith, covers d (has, fit)),
      )
  validate_against-Decides v s path (suc left) = (λ h. absurd (cc), λ d h. absurd h)

  validate_items-Decides :
      (vs : JsonItems) (its : ItemSchema) (path : List Segment) (index left : ℕ)
      → Decides
          (validate_items vs its path index left)
          (ItemsConform vs (without_in_items its))
          (depth_items vs ≤ left)
  validate_items-Decides end its path index left = (λ h. tt, λ d c. refl)
  validate_items-Decides (item v vs) undefined_items path index left = (λ h. tt, λ d c. refl)
  validate_items-Decides (item v vs) (items s) path index left =
      let here = path ++ (at_index index ∷ []) in
      then_check-Decides (validate_against v s here left)
        (validate_items vs (items s) path (suc index) left) (Conforms v (without_boolean_enums s))
        (ItemsConform vs (without_in_items (items s))) (depth v < left) (depth_items vs ≤ left)
        (depth_items (item v vs) ≤ left) (λ d. (omega arith, omega arith))
        (validate_against-Decides v s here left)
        (validate_items-Decides vs (items s) path (suc index) left)

  validate_fields-Decides :
      (fs : JsonFields) (ps : Properties) (path : List Segment) (left : ℕ)
      → Decides
          (validate_fields fs ps path left)
          (FieldsConform fs (without_in_properties ps))
          (depth_fields fs ≤ left)
  validate_fields-Decides done ps path left = (λ h. tt, λ d c. refl)
  validate_fields-Decides (field k v fs) ps path left =
      let here = path ++ (at_key k ∷ []) in
      let check = λ (s : JsonSchema). validate_against v s here left in
      then_check-Decides (on_property (get_property k ps) here check)
        (validate_fields fs ps path left)
        ((s : JsonSchema) × (get_property k (without_in_properties ps) ≡ some s) × Conforms v s)
        (FieldsConform fs (without_in_properties ps)) (depth v < left) (depth_fields fs ≤ left)
        (depth_fields (field k v fs) ≤ left) (λ d. (omega arith, omega arith))
        (subst
          (λ found.
            Decides (on_property (get_property k ps) here check)
              ((s : JsonSchema) × (found ≡ some s) × Conforms v s) (depth v < left))
          (sym (get_property-without k ps))
          (property-Decides (get_property k ps) here check (λ s. Conforms v s) (depth v < left)
            (λ s. validate_against-Decides v s here left)))
        (validate_fields-Decides fs ps path left)
