-- ===== src/Connector/Json/Bounds/Sound.antt =====
-- What the walk accepts is a copy within the bounds, of objects that are met once each.
use mathlib.Core.List.{append_assoc}
use open_claw_bot_neo.Prelude.{
  ℕ, zero, suc, ◌<◌, ◌≤◌, ◌≡◌, refl, sym, ◌∙◌, ap, subst₂, Option-cases, true, false, String,
  Option, List, [], ◌∷◌, ◌++◌, length, includes, arith, inl, inr, ℕ_eq,
}
use open_claw_bot_neo.Connector.Json.{
  JsonValue, null, boolean, number, text, array, object, JsonItems, end, item, JsonFields, done,
  field, Unknown, null_literal, undefined, other, truth, numeral, string, reference, Node,
  array_node, object_node, Heap, count_items, count_fields, utf16_length, max_key_length,
}
use open_claw_bot_neo.Connector.Json.Bounds.{
  Walked, ok, err, continue, measured, is_too_large, walk_items, walk_fields, walk_node, walk,
}
use open_claw_bot_neo.Connector.Json.Bounds.Copies.{
  Copy, null_copy, boolean_copy, number_copy, text_copy, array_copy, object_copy, CopyItems,
  end_copy, item_copy, CopyFields, done_copy, field_copy, Distinct, depth, depth_items,
  depth_fields, Within, WithinItems, WithinFields, Fits,
}

abbrev pub Returns : {A : Type 0} → Walked A → A → List ℕ → Type 0
Returns r a last = r ≡ (ok a, last)

pub continue-ok :
    {A B : Type 0} (r : Walked A) (f : A → List ℕ → Walked B) (b : B) (last : List ℕ)
    → continue r f ≡ (ok b, last)
    → (a : A) × (after : List ℕ) × (r ≡ (ok a, after)) × (f a after ≡ (ok b, last))
continue-ok (ok a, seen) f b last h = (a, seen, refl, h)
continue-ok (err e, seen) f b last h = absurd (cc)

-- What an accepted value, its parts and the objects that were met say of each other.
pub record IsAccepted {A : Type 0} (P : A → List ℕ → Type 0) (Q : A → Type 0) (a : A)
    (seen last : List ℕ) : Type 0 where
  pub refs : List ℕ
  pub spelled : P a refs
  pub within : Q a
  pub met : last ≡ refs ++ seen
  pub distinct : Distinct seen → Distinct last

joined :
    (last middle seen back front : List ℕ)
    → last ≡ back ++ middle
    → middle ≡ front ++ seen
    → last ≡ (back ++ front) ++ seen
joined last middle seen back front p q =
    p ∙ ap (λ l. back ++ l) q ∙ sym (append_assoc back front seen)

-- A result that is known is the result.
at_result :
    {A : Type 0} (P : A → List ℕ → Type 0) (Q : A → Type 0) (k j : A) (seen after last : List ℕ)
    → Returns (ok k, after) j last
    → IsAccepted P Q k seen after
    → IsAccepted P Q j seen last
at_result P Q k j seen after last h a =
    let same : k ≡ j = cc in
    let then : after ≡ last = cc in subst₂ (λ x l. IsAccepted P Q x seen l) same then a

leaf :
    {A : Type 0} (P : A → List ℕ → Type 0) (Q : A → Type 0) (k j : A) (seen last : List ℕ)
    → Returns (ok k, seen) j last
    → P k []
    → Q k
    → IsAccepted P Q j seen last
leaf P Q k j seen last h p q =
    at_result P Q k j seen seen last h
      (record { refs = []; spelled = p; within = q; met = refl; distinct = λ d. d })

module _ (heap : Heap) (measure : JsonValue → Option ℕ) (max_bytes : ℕ) where
  measured-ok :
      (j k : JsonValue) (seen last : List ℕ)
      → measured measure max_bytes j seen ≡ (ok k, last)
      → Returns (ok j, seen) k last × Fits measure max_bytes j
  unfolding is_too_large
  measured-ok j k seen last h = elim (Option-cases (measure j)) [
    | inl e ↦ absurd (ground arith)
    | inr (bytes, e) ↦ (ground arith, (bytes, e, ground arith))
  ]

  abbrev IsGood : ℕ → JsonValue → Type 0
  IsGood left j = Within measure max_bytes j × (depth j < left)

  abbrev AreGood : ℕ → ℕ → JsonItems → Type 0
  AreGood left n js =
      WithinItems measure max_bytes js × (depth_items js ≤ left) × (count_items js ≡ n)

  abbrev AreGoodFields : ℕ → ℕ → JsonFields → Type 0
  AreGoodFields left n js =
      WithinFields measure max_bytes js × (depth_fields js ≤ left) × (count_fields js ≡ n)

  module _ (left : ℕ) (step : Unknown → List ℕ → Walked JsonValue)
      (sound : (v : Unknown) (seen : List ℕ) (j : JsonValue) (last : List ℕ)
        → step v seen ≡ (ok j, last)
        → IsAccepted (Copy heap v) (IsGood left) j seen last) where
    walk_items-ok :
        (vs : List Unknown) (seen : List ℕ) (js : JsonItems) (last : List ℕ)
        → walk_items step vs seen ≡ (ok js, last)
        → IsAccepted (CopyItems heap vs) (AreGood left (length vs)) js seen last
    unfolding walk_items Within depth count_items
    walk_items-ok [] seen js last h =
        leaf (CopyItems heap []) (AreGood left 0) end js seen last h end_copy
          (tt, omega arith, refl)
    walk_items-ok (v ∷ vs) seen js last h =
        let (j, after, first, h1) = continue-ok (step v seen) _ js last h in
        let (rest, final, others, h2) = continue-ok (walk_items step vs after) _ js last h1 in
        let a = sound v seen j after first in
        let b = walk_items-ok vs after rest final others in
        let (w, d) = a.within in
        let (ws, ds, n) = b.within in
        at_result (CopyItems heap (v ∷ vs)) (AreGood left (suc (length vs))) (item j rest) js seen
          final last h2
          (record {
            refs = b.refs ++ a.refs;
            spelled = item_copy v vs j rest a.refs b.refs a.spelled b.spelled;
            within = ((w, ws), omega arith, ap (λ k. suc k) n);
            met = joined final after seen b.refs a.refs b.met a.met;
            distinct = λ x. b.distinct (a.distinct x);
          })

    walk_fields-ok :
        (fs : List (String × Unknown)) (seen : List ℕ) (js : JsonFields) (last : List ℕ)
        → walk_fields step fs seen ≡ (ok js, last)
        → IsAccepted (CopyFields heap fs) (AreGoodFields left (length fs)) js seen last
    unfolding walk_fields Within depth count_fields
    walk_fields-ok [] seen js last h =
        leaf (CopyFields heap []) (AreGoodFields left 0) done js seen last h done_copy
          (tt, omega arith, refl)
    walk_fields-ok ((k, v) ∷ fs) seen js last h =
        let short : utf16_length k ≤ max_key_length = ground arith in
        let (j, after, first, h1) =
          continue-ok (step v seen)
            (λ j after.
              continue (walk_fields step fs after) (λ rest last. (ok (field k j rest), last)))
            js last (ground arith) in
        let (rest, final, others, h2) = continue-ok (walk_fields step fs after) _ js last h1 in
        let a = sound v seen j after first in
        let b = walk_fields-ok fs after rest final others in
        let (w, d) = a.within in
        let (ws, ds, n) = b.within in
        at_result (CopyFields heap ((k, v) ∷ fs)) (AreGoodFields left (suc (length fs)))
          (field k j rest) js seen final last h2
          (record {
            refs = b.refs ++ a.refs;
            spelled = field_copy k v fs j rest a.refs b.refs a.spelled b.spelled;
            within = ((short, w, ws), omega arith, ap (λ k. suc k) n);
            met = joined final after seen b.refs a.refs b.met a.met;
            distinct = λ x. b.distinct (a.distinct x);
          })

    walk_node-ok :
        (a : ℕ) (node : Node) (seen : List ℕ) (j : JsonValue) (last : List ℕ)
        → heap a ≡ node
        → includes seen a ≡ false
        → walk_node measure max_bytes step node (a ∷ seen) ≡ (ok j, last)
        → IsAccepted (Copy heap (reference a)) (IsGood (suc left)) j seen last
    unfolding walk_node Within depth
    walk_node-ok a (array_node vs) seen j last e fresh h =
        let (js, after, parts, h1) =
          continue-ok (walk_items step vs (a ∷ seen))
            (λ js after. measured measure max_bytes (array js) after) j last (ground arith) in
        let (h2, fits) = measured-ok (array js) j after last h1 in
        let b = walk_items-ok vs (a ∷ seen) js after parts in
        let (ws, ds, n) = b.within in
        at_result (Copy heap (reference a)) (IsGood (suc left)) (array js) j seen after last h2
          (record {
            refs = b.refs ++ (a ∷ []);
            spelled = array_copy a vs js b.refs e b.spelled;
            within = ((ground arith, ws, fits), omega arith);
            met = joined after (a ∷ seen) seen b.refs (a ∷ []) b.met refl;
            distinct = λ x. b.distinct (fresh, x);
          })
    walk_node-ok a (object_node false fs) seen j last e fresh h = absurd (cc)
    walk_node-ok a (object_node true fs) seen j last e fresh h =
        let (js, after, parts, h1) =
          continue-ok (walk_fields step fs (a ∷ seen))
            (λ js after. measured measure max_bytes (object js) after) j last (ground arith) in
        let (h2, fits) = measured-ok (object js) j after last h1 in
        let b = walk_fields-ok fs (a ∷ seen) js after parts in
        let (ws, ds, n) = b.within in
        at_result (Copy heap (reference a)) (IsGood (suc left)) (object js) j seen after last h2
          (record {
            refs = b.refs ++ (a ∷ []);
            spelled = object_copy a fs js b.refs e b.spelled;
            within = ((ground arith, ws, fits), omega arith);
            met = joined after (a ∷ seen) seen b.refs (a ∷ []) b.met refl;
            distinct = λ x. b.distinct (fresh, x);
          })

  pub walk-ok :
      (left : ℕ) (v : Unknown) (seen : List ℕ) (j : JsonValue) (last : List ℕ)
      → walk measure max_bytes heap left v seen ≡ (ok j, last)
      → IsAccepted (Copy heap v) (IsGood left) j seen last
  unfolding walk walk_node Within depth
  walk-ok zero v seen j last h = absurd (cc)
  walk-ok (suc left) null_literal seen j last h =
      leaf (Copy heap null_literal) (IsGood (suc left)) null j seen last h null_copy
        (tt, omega arith)
  walk-ok (suc left) undefined seen j last h = absurd (cc)
  walk-ok (suc left) other seen j last h = absurd (cc)
  walk-ok (suc left) (truth b) seen j last h =
      leaf (Copy heap (truth b)) (IsGood (suc left)) (boolean b) j seen last h (boolean_copy b)
        (tt, omega arith)
  walk-ok (suc left) (numeral n) seen j last h =
      leaf (Copy heap (numeral n)) (IsGood (suc left)) (number n) j seen last (ground arith)
        (number_copy n) (ground arith, omega arith)
  walk-ok (suc left) (string s) seen j last h =
      leaf (Copy heap (string s)) (IsGood (suc left)) (text s) j seen last (ground arith)
        (text_copy s) (ground arith, omega arith)
  walk-ok (suc left) (reference a) seen j last h =
      walk_node-ok left (walk measure max_bytes heap left) (walk-ok left) a (heap a) seen j last
        refl (ground arith) (ground arith)
