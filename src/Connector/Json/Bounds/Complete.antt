-- ===== src/Connector/Json/Bounds/Complete.antt =====
-- A copy within the bounds, of objects that are met once each, is accepted.
use mathlib.Core.List.{append_assoc}
use open_claw_bot_neo.Prelude.{
  ℕ, zero, suc, ◌<◌, ◌≤◌, ◌≡◌, refl, ap, subst, String, Option, List, [], ◌∷◌, ◌++◌, length, arith,
  ℕ_eq,
}
use open_claw_bot_neo.Connector.Json.{
  JsonValue, array, object, JsonItems, JsonFields, Unknown, Heap, count_items, count_fields,
}
use open_claw_bot_neo.Connector.Json.Bounds.{
  ok, measured, is_too_large, walk_items, walk_fields, walk_node, walk,
}
use open_claw_bot_neo.Connector.Json.Bounds.Copies.{
  Copy, null_copy, boolean_copy, number_copy, text_copy, array_copy, object_copy, CopyItems,
  end_copy, item_copy, CopyFields, done_copy, field_copy, Distinct, depth, depth_items,
  depth_fields, Within, WithinItems, WithinFields, Fits,
}

Distinct-append : (front back : List ℕ) → Distinct (front ++ back) → Distinct back
Distinct-append [] back d = d
Distinct-append (a ∷ front) back d = Distinct-append front back d.1

-- The parts of a list of addresses, the last met in front.
Distinct-later :
    (back front seen : List ℕ)
    → Distinct ((back ++ front) ++ seen)
    → Distinct (back ++ (front ++ seen))
Distinct-later back front seen d = subst Distinct (append_assoc back front seen) d

module _ (heap : Heap) (measure : JsonValue → Option ℕ) (max_bytes : ℕ) where
  measured-Fits :
      (j : JsonValue) (seen : List ℕ)
      → Fits measure max_bytes j
      → measured measure max_bytes j seen ≡ (ok j, seen)
  unfolding is_too_large
  measured-Fits j seen (bytes, e, l) = ground arith

  count_items-length :
      (vs : List Unknown) (js : JsonItems) (refs : List ℕ)
      → CopyItems heap vs js refs
      → count_items js ≡ length vs
  unfolding count_items
  count_items-length vs js refs end_copy = refl
  count_items-length vs js refs (item_copy v vs' j js' first rest c cs) =
      ap (λ n. suc n) (count_items-length vs' js' rest cs)

  count_fields-length :
      (fs : List (String × Unknown)) (js : JsonFields) (refs : List ℕ)
      → CopyFields heap fs js refs
      → count_fields js ≡ length fs
  unfolding count_fields
  count_fields-length fs js refs done_copy = refl
  count_fields-length fs js refs (field_copy k v fs' j js' first rest c cs) =
      ap (λ n. suc n) (count_fields-length fs' js' rest cs)

  mutual
    unfolding walk walk_node walk_items walk_fields Within depth

    pub walk-Copy :
        (v : Unknown) (j : JsonValue) (refs : List ℕ) (c : Copy heap v j refs) (left : ℕ)
        (seen : List ℕ)
        → Distinct (refs ++ seen)
        → Within measure max_bytes j
        → depth j < left
        → walk measure max_bytes heap left v seen ≡ (ok j, refs ++ seen)
    walk-Copy v j refs c zero seen d w l = absurd (omega arith)
    walk-Copy v j refs null_copy (suc left) seen d w l = refl
    walk-Copy v j refs (boolean_copy b) (suc left) seen d w l = refl
    walk-Copy v j refs (number_copy n) (suc left) seen d w l = ground arith
    walk-Copy v j refs (text_copy s) (suc left) seen d w l = ground arith
    walk-Copy v j refs (array_copy a vs js inner e cs) (suc left) seen d (n, ws, fits) l =
        let d' = Distinct-later inner (a ∷ []) seen d in
        let fresh = (Distinct-append inner (a ∷ seen) d').0 in
        let parts = walk_items-CopyItems vs js inner cs left (a ∷ seen) d' ws (omega arith) in
        let counted = count_items-length vs js inner cs in
        let whole = measured-Fits (array js) (inner ++ (a ∷ seen)) fits in
        let joined = append_assoc inner (a ∷ []) seen in ground arith
    walk-Copy v j refs (object_copy a fs js inner e cs) (suc left) seen d (n, ws, fits) l =
        let d' = Distinct-later inner (a ∷ []) seen d in
        let fresh = (Distinct-append inner (a ∷ seen) d').0 in
        let parts = walk_fields-CopyFields fs js inner cs left (a ∷ seen) d' ws (omega arith) in
        let counted = count_fields-length fs js inner cs in
        let whole = measured-Fits (object js) (inner ++ (a ∷ seen)) fits in
        let joined = append_assoc inner (a ∷ []) seen in ground arith

    walk_items-CopyItems :
        (vs : List Unknown) (js : JsonItems) (refs : List ℕ) (c : CopyItems heap vs js refs)
        (left : ℕ) (seen : List ℕ)
        → Distinct (refs ++ seen)
        → WithinItems measure max_bytes js
        → depth_items js ≤ left
        → walk_items (walk measure max_bytes heap left) vs seen ≡ (ok js, refs ++ seen)
    walk_items-CopyItems vs js refs end_copy left seen d w l = refl
    walk_items-CopyItems vs js refs (item_copy v vs' j js' first rest c cs) left seen d (w, ws) l =
        let d' = Distinct-later rest first seen d in
        let one =
          walk-Copy v j first c left seen (Distinct-append rest (first ++ seen) d') w
            (omega arith) in
        let others =
          walk_items-CopyItems vs' js' rest cs left (first ++ seen) d' ws (omega arith) in
        let joined = append_assoc rest first seen in ground arith

    walk_fields-CopyFields :
        (fs : List (String × Unknown)) (js : JsonFields) (refs : List ℕ)
        (c : CopyFields heap fs js refs) (left : ℕ) (seen : List ℕ)
        → Distinct (refs ++ seen)
        → WithinFields measure max_bytes js
        → depth_fields js ≤ left
        → walk_fields (walk measure max_bytes heap left) fs seen ≡ (ok js, refs ++ seen)
    walk_fields-CopyFields fs js refs done_copy left seen d w l = refl
    walk_fields-CopyFields fs js refs (field_copy k v fs' j js' first rest c cs) left seen d
          (short, w, ws) l =
        let d' = Distinct-later rest first seen d in
        let one =
          walk-Copy v j first c left seen (Distinct-append rest (first ++ seen) d') w
            (omega arith) in
        let others =
          walk_fields-CopyFields fs' js' rest cs left (first ++ seen) d' ws (omega arith) in
        let joined = append_assoc rest first seen in ground arith
