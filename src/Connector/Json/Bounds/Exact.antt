-- ===== src/Connector/Json/Bounds/Exact.antt =====
-- What boundJsonValue accepts, stated without its walk.
use mathlib.Core.List.{append-nil}
use open_claw_bot_neo.Prelude.{ℕ, suc, ◌≤◌, ◌≡◌, ◌∙◌, ap, sym, subst, List, [], ◌↔◌, Option, arith}
use open_claw_bot_neo.Connector.Json.{JsonValue, Unknown, Heap, max_depth}
use open_claw_bot_neo.Connector.Json.Bounds.{Walked, ok, bound_json_value, walk}
use open_claw_bot_neo.Connector.Json.Bounds.Copies.{Copy, Distinct, Within, depth}
use open_claw_bot_neo.Connector.Json.Bounds.Sound.{walk-ok}
use open_claw_bot_neo.Connector.Json.Bounds.Complete.{walk-Copy}

first_part : (r : Walked JsonValue) (j : JsonValue) → r.0 ≡ ok j → r ≡ (ok j, r.1)
first_part (a, last) j h = ap (λ b. (b, last)) h

-- boundJsonValue returns a value exactly when it is the tree that the argument's references spell
-- out, with no array or object met twice, at most 16 deep, all of its numbers finite, its texts and
-- keys, its arrays and objects of at most the platform's lengths, and each of its arrays and objects
-- serialized in at most the given bytes.
pub bound_json_value-ok_iff :
    (measure : JsonValue → Option ℕ) (heap : Heap) (v : Unknown) (max_bytes : ℕ) (j : JsonValue)
    → (bound_json_value measure heap v max_bytes ≡ ok j) ↔ (
        (refs : List ℕ) × Copy heap v j refs
        × Distinct refs
        × Within measure max_bytes j
        × (depth j ≤ max_depth))
unfolding bound_json_value
bound_json_value-ok_iff measure heap v max_bytes j =
    let result = walk measure max_bytes heap (suc max_depth) v [] in
    (
      λ h.
          let a =
            walk-ok heap measure max_bytes (suc max_depth) v [] j result.1
              (first_part result j h) in
          (
            a.refs,
            a.spelled,
            subst Distinct (a.met ∙ append-nil a.refs) (a.distinct tt),
            a.within.0,
            omega (arith, a.within.1),
          ),
      λ (refs, copy, distinct, within, shallow).
          ap (λ r. r.0)
            (walk-Copy heap measure max_bytes v j refs copy (suc max_depth) []
              (subst Distinct (sym (append-nil refs)) distinct) within (omega arith)),
    )
