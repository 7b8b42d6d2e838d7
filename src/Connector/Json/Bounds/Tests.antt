-- ===== src/Connector/Json/Bounds/Tests.antt =====
-- Values at concrete heaps: a plain object, one that holds itself, and one object met twice.
use open_claw_bot_neo.Prelude.{
  ℕ, zero, suc, ◌≡◌, ◌↔◌, ◌≤◌, Option, some, true, refl, List, [], ◌∷◌, inl, ℕ_discrete, includes,
}
use open_claw_bot_neo.Connector.Json.{
  JsonValue, number, text, object, done, field, numeral, string, reference, array_node, object_node,
  Heap, whole, utf16_length, max_depth, is_finite,
}
use open_claw_bot_neo.Connector.Json.Bounds.{
  ok, err, cycle, serialized_too_large, JsonBoundsFailure, walk, bound_json_value,
  bound_connector_output, walk_node, walk_items, walk_fields, is_too_large,
}
use open_claw_bot_neo.Connector.Json.Bounds.Copies.{Copy, Distinct, Within, depth}
use open_claw_bot_neo.Connector.Json.Bounds.Exact.{bound_json_value-ok_iff}
use open_claw_bot_neo.Connector.Json.Bounds.Cycles.{part, bound_json_value-cyclic}

bounds : Unit {0}
unfolding bound_json_value bound_connector_output walk walk_node walk_items walk_fields is_too_large
    includes utf16_length is_finite ℕ_discrete
bounds = tt

abbrev forty : JsonValue → Option ℕ
forty j = some 40

-- 0 is `{"n": 1, "s": "ab"}`, 1 holds itself, and 2 is an array of 0 twice.
abbrev heap : Heap
heap zero = object_node true (("n", numeral (whole 1)) ∷ ("s", string "ab") ∷ [])
heap (suc zero) = array_node (reference 1 ∷ [])
heap _ = array_node (reference 0 ∷ reference 0 ∷ [])

abbrev copied : JsonValue
copied = object (field "n" (number (whole 1)) (field "s" (text "ab") done))

copies : bound_json_value forty heap (reference 0) 40 ≡ ok copied
unfolding bounds
copies = refl

too_large : bound_json_value forty heap (reference 0) 39 ≡ err serialized_too_large
unfolding bounds
too_large = refl

holds_itself : bound_json_value forty heap (reference 1) 40 ≡ err cycle
unfolding bounds
holds_itself = refl

-- The same object twice is not a cycle, and is refused as one.
shared : bound_json_value forty heap (reference 2) 40 ≡ err cycle
unfolding bounds
shared = refl

bound_json_value-ok_iff_example : (bound_json_value forty heap (reference 0) 40 ≡ ok copied) ↔ (
    (refs : List ℕ) × Copy heap (reference 0) copied refs
    × Distinct refs
    × Within forty 40 copied
    × (depth copied ≤ max_depth))
bound_json_value-ok_iff_example = bound_json_value-ok_iff forty heap (reference 0) 40 copied

bound_json_value-cyclic_example :
    (e : JsonBoundsFailure) × (bound_json_value forty heap (reference 1) 40 ≡ err e)
bound_json_value-cyclic_example =
    bound_json_value-cyclic forty heap 1 1 40 (inl refl) (part 1 1 (inl refl))
