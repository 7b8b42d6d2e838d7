-- ===== src/Connector/Json/Bounds/Copies.antt =====
-- What the copy of a value is, without the walk that makes it: the tree that the references spell
-- out, its depth, and the bounds on its parts.
use Prim.Native.Nat.{max}
use open_claw_bot_neo.Prelude.{
  ℕ, suc, ◌≤◌, ◌≡◌, Bool, true, false, String, Option, some, List, [], ◌∷◌, ◌++◌, includes, ℕ_eq,
}
use open_claw_bot_neo.Connector.Json.{
  Number, is_finite, JsonValue, null, boolean, number, text, array, object, JsonItems, end, item,
  JsonFields, done, field, Unknown, null_literal, truth, numeral, string, reference, array_node,
  object_node, Heap, count_items, count_fields, utf16_length, max_object_keys, max_array_items,
  max_string_length, max_key_length,
}

-- `Copy heap v j refs`: j spells out v, and refs are the addresses of its arrays and objects, each
-- before those that hold it and with one occurrence for each place where it is met.
mutual
  pub data Copy (heap : Heap) : Unknown → JsonValue → List ℕ → Type 0 where
    null_copy : Copy heap null_literal null []
    boolean_copy : (b : Bool) → Copy heap (truth b) (boolean b) []
    number_copy : (n : Number) → Copy heap (numeral n) (number n) []
    text_copy : (s : String) → Copy heap (string s) (text s) []
    array_copy :
        (a : ℕ) (vs : List Unknown) (js : JsonItems) (refs : List ℕ)
        → heap a ≡ array_node vs
        → CopyItems heap vs js refs
        → Copy heap (reference a) (array js) (refs ++ (a ∷ []))
    object_copy :
        (a : ℕ) (fs : List (String × Unknown)) (js : JsonFields) (refs : List ℕ)
        → heap a ≡ object_node true fs
        → CopyFields heap fs js refs
        → Copy heap (reference a) (object js) (refs ++ (a ∷ []))

  pub data CopyItems (heap : Heap) : List Unknown → JsonItems → List ℕ → Type 0 where
    end_copy : CopyItems heap [] end []
    item_copy :
        (v : Unknown) (vs : List Unknown) (j : JsonValue) (js : JsonItems) (first rest : List ℕ)
        → Copy heap v j first
        → CopyItems heap vs js rest
        → CopyItems heap (v ∷ vs) (item j js) (rest ++ first)

  pub data CopyFields (heap : Heap) : List (String × Unknown) → JsonFields → List ℕ → Type 0 where
    done_copy : CopyFields heap [] done []
    field_copy :
        (k : String) (v : Unknown) (fs : List (String × Unknown)) (j : JsonValue) (js : JsonFields)
        (first rest : List ℕ)
        → Copy heap v j first
        → CopyFields heap fs js rest
        → CopyFields heap ((k, v) ∷ fs) (field k j js) (rest ++ first)

-- No address occurs twice.
abbrev pub Distinct : List ℕ → Type 0
Distinct [] = Unit
Distinct (a ∷ rest) = (includes rest a ≡ false) × Distinct rest

-- The nesting of a value: nothing stands in an empty array or object.
unfoldable mutual
  pub depth : JsonValue → ℕ
  depth (array js) = depth_items js
  depth (object js) = depth_fields js
  depth null = 0
  depth (boolean b) = 0
  depth (number n) = 0
  depth (text s) = 0

  pub depth_items : JsonItems → ℕ
  depth_items end = 0
  depth_items (item j js) = max (suc (depth j)) (depth_items js)

  pub depth_fields : JsonFields → ℕ
  depth_fields done = 0
  depth_fields (field k j js) = max (suc (depth j)) (depth_fields js)

module _ (measure : JsonValue → Option ℕ) (max_bytes : ℕ) where
  -- The serialized length is known and within the limit.
  abbrev pub Fits : JsonValue → Type 0
  Fits j = (bytes : ℕ) × (measure j ≡ some bytes) × (bytes ≤ max_bytes)

  -- Every number is finite, every text and key is short enough, and every array and object has few
  -- enough parts and fits.
  unfoldable mutual
    pub Within : JsonValue → Type 0
    Within null = Unit
    Within (boolean b) = Unit
    Within (number n) = is_finite n ≡ true
    Within (text s) = utf16_length s ≤ max_string_length
    Within (array js) = (count_items js ≤ max_array_items) × WithinItems js × Fits (array js)
    Within (object js) = (count_fields js ≤ max_object_keys) × WithinFields js × Fits (object js)

    pub WithinItems : JsonItems → Type 0
    WithinItems end = Unit
    WithinItems (item j js) = Within j × WithinItems js

    pub WithinFields : JsonFields → Type 0
    WithinFields done = Unit
    WithinFields (field k j js) = (utf16_length k ≤ max_key_length) × Within j × WithinFields js
