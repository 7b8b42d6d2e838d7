-- ===== src/Connector/Json/Bounds.antt =====
-- src/core/domain/connector/json-bounds.ts: the copy of an unknown value that is known to be JSON
-- and within the platform's bounds. The length of JSON.stringify's text in UTF-8 is an argument,
-- `none` where it throws. The depth is counted down: `left` is what remains of it, with the depth
-- that is too deep as zero.
pub mod Copies
mod Sound
mod Complete
pub mod Exact
pub mod Cycles
mod Tests
use open_claw_bot_neo.Prelude.{
  ℕ, zero, suc, Bool, true, not, String, Option, none, some, List, [], ◌∷◌, length, includes,
  if◌then◌else◌, ltb, ℕ_eq,
}
use open_claw_bot_neo.Connector.Json.{
  is_finite, JsonValue, null, boolean, number, text, array, object, JsonItems, end, item,
  JsonFields, done, field, Unknown, null_literal, undefined, other, truth, numeral, string,
  reference, Node, array_node, object_node, Heap, utf16_length, max_depth, max_object_keys,
  max_array_items, max_string_length, max_key_length, max_serialized_bytes,
}

pub data JsonBoundsFailure : Type 0 where
  unsupported_value too_deep too_many_keys too_many_items string_too_long key_too_long
        serialized_too_large non_plain cycle :
      JsonBoundsFailure

pub data Bounded (A : Type 0) : Type 0 where
  ok : A → Bounded A
  err : JsonBoundsFailure → Bounded A

-- A step of the walk: what it returns, and the objects seen after it.
abbrev pub Walked : Type 0 → Type 0
Walked A = Bounded A × List ℕ

-- Goes on with a part that was accepted; a failure is returned at once.
abbrev pub continue : {A B : Type 0} → Walked A → (A → List ℕ → Walked B) → Walked B
continue (ok a, seen) f = f a seen
continue (err e, seen) f = (err e, seen)

-- measureSerialized, compared with the limit: a text that cannot be made is longer than any limit.
unfoldable pub is_too_large : Option ℕ → ℕ → Bool
is_too_large none max_bytes = true
is_too_large (some bytes) max_bytes = ltb max_bytes bytes

-- The end of an array or object whose parts were accepted.
abbrev pub measured : (JsonValue → Option ℕ) → ℕ → JsonValue → List ℕ → Walked JsonValue
measured measure max_bytes j seen =
    if is_too_large (measure j) max_bytes then (err serialized_too_large, seen) else (ok j, seen)

unfoldable pub walk_items :
    (Unknown → List ℕ → Walked JsonValue) → List Unknown → List ℕ → Walked JsonItems
walk_items step [] seen = (ok end, seen)
walk_items step (v ∷ vs) seen =
    continue (step v seen)
      (λ j after. continue (walk_items step vs after) (λ rest last. (ok (item j rest), last)))

unfoldable pub walk_fields :
    (Unknown → List ℕ → Walked JsonValue) → List (String × Unknown) → List ℕ → Walked JsonFields
walk_fields step [] seen = (ok done, seen)
walk_fields step ((k, v) ∷ fs) seen =
    if ltb max_key_length (utf16_length k)
    then (err key_too_long, seen)
    else continue (step v seen)
        (λ j after. continue (walk_fields step fs after) (λ rest last. (ok (field k j rest), last)))

module _ (measure : JsonValue → Option ℕ) (max_bytes : ℕ) where
  unfoldable pub walk_node :
      (Unknown → List ℕ → Walked JsonValue) → Node → List ℕ → Walked JsonValue
  walk_node step (array_node vs) seen =
      if ltb max_array_items (length vs)
      then (err too_many_items, seen)
      else continue (walk_items step vs seen)
          (λ js after. measured measure max_bytes (array js) after)
  walk_node step (object_node is_plain fs) seen =
      if not is_plain
      then (err non_plain, seen)
      else if ltb max_object_keys (length fs)
      then (err too_many_keys, seen)
      else continue (walk_fields step fs seen)
          (λ js after. measured measure max_bytes (object js) after)

  unfoldable pub walk : Heap → ℕ → Unknown → List ℕ → Walked JsonValue
  walk heap zero v seen = (err too_deep, seen)
  walk heap (suc left) null_literal seen = (ok null, seen)
  walk heap (suc left) undefined seen = (err unsupported_value, seen)
  walk heap (suc left) other seen = (err unsupported_value, seen)
  walk heap (suc left) (truth b) seen = (ok (boolean b), seen)
  walk heap (suc left) (numeral n) seen =
      if is_finite n then (ok (number n), seen) else (err unsupported_value, seen)
  walk heap (suc left) (string s) seen =
      if ltb max_string_length (utf16_length s)
      then (err string_too_long, seen)
      else (ok (text s), seen)
  walk heap (suc left) (reference a) seen =
      if includes seen a then (err cycle, seen) else walk_node (walk heap left) (heap a) (a ∷ seen)

-- boundJsonValue
unfoldable pub bound_json_value :
    (JsonValue → Option ℕ) → Heap → Unknown → (max_bytes : ℕ) → Bounded JsonValue
bound_json_value measure heap v max_bytes = (walk measure max_bytes heap (suc max_depth) v []).0

-- The test of boundJsonObject on what was accepted.
unfoldable pub only_object : Bounded JsonValue → Bounded JsonFields
only_object (err e) = err e
only_object (ok (object fs)) = ok fs
only_object (ok _) = err non_plain

-- boundJsonObject
unfoldable pub bound_json_object :
    (JsonValue → Option ℕ) → Heap → Unknown → (max_bytes : ℕ) → Bounded JsonFields
unfolding only_object bound_json_value
bound_json_object measure heap v max_bytes = only_object (bound_json_value measure heap v max_bytes)

-- boundConnectorOutput
unfoldable pub bound_connector_output : (JsonValue → Option ℕ) → Heap → Unknown → Bounded JsonFields
unfolding bound_json_object
bound_connector_output measure heap v = bound_json_object measure heap v max_serialized_bytes
