-- ===== src/Connector/Json/Bounds/Cycles.antt =====
-- A value that holds itself is refused: the walk ends, and returns no copy.
use open_claw_bot_neo.Prelude.{
  ℕ, zero, suc, ◌<◌, ◌≡◌, ◌⊎◌, refl, subst, String, Option, List, [], ◌∷◌, arith, inl, inr,
}
use open_claw_bot_neo.Connector.Json.{
  JsonValue, JsonItems, JsonFields, Unknown, reference, Node, array_node, object_node, Heap,
}
use open_claw_bot_neo.Connector.Json.Bounds.{Bounded, ok, err, JsonBoundsFailure, bound_json_value}
use open_claw_bot_neo.Connector.Json.Bounds.Copies.{
  Copy, array_copy, object_copy, CopyItems, end_copy, item_copy, CopyFields, done_copy, field_copy,
  depth, depth_items, depth_fields,
}
use open_claw_bot_neo.Connector.Json.Bounds.Exact.{bound_json_value-ok_iff}

abbrev pub IsItem : Unknown → List Unknown → Type 0
IsItem u [] = ⊥
IsItem u (v ∷ vs) = (v ≡ u) ⊎ IsItem u vs

abbrev pub IsField : Unknown → List (String × Unknown) → Type 0
IsField u [] = ⊥
IsField u ((k, v) ∷ fs) = (v ≡ u) ⊎ IsField u fs

abbrev pub IsPart : Unknown → Node → Type 0
IsPart u (array_node vs) = IsItem u vs
IsPart u (object_node is_plain fs) = IsField u fs

-- From one array or object to another that it holds, directly or through others.
pub data Leads (heap : Heap) : ℕ → ℕ → Type 0 where
  part : (a b : ℕ) → IsPart (reference b) (heap a) → Leads heap a b
  through : (a b c : ℕ) → IsPart (reference b) (heap a) → Leads heap b c → Leads heap a c

module _ (heap : Heap) where
  -- A copy of an address that lies less deep than a bound.
  abbrev CopyBelow : ℕ → ℕ → Type 0
  CopyBelow a n = (j : JsonValue) × (refs : List ℕ) × Copy heap (reference a) j refs × (depth j < n)

  item_below :
      (b : ℕ) (vs : List Unknown) (js : JsonItems) (refs : List ℕ)
      → CopyItems heap vs js refs
      → IsItem (reference b) vs
      → CopyBelow b (depth_items js)
  unfolding depth
  item_below b vs js refs end_copy h = absurd h
  item_below b vs js refs (item_copy v vs' j js' first rest c cs) (inl e) =
      (j, first, subst (λ u. Copy heap u j first) e c, omega arith)
  item_below b vs js refs (item_copy v vs' j js' first rest c cs) (inr later) =
      let (k, more, d, l) = item_below b vs' js' rest cs later in (k, more, d, omega arith)

  field_below :
      (b : ℕ) (fs : List (String × Unknown)) (js : JsonFields) (refs : List ℕ)
      → CopyFields heap fs js refs
      → IsField (reference b) fs
      → CopyBelow b (depth_fields js)
  unfolding depth
  field_below b fs js refs done_copy h = absurd h
  field_below b fs js refs (field_copy k v fs' j js' first rest c cs) (inl e) =
      (j, first, subst (λ u. Copy heap u j first) e c, omega arith)
  field_below b fs js refs (field_copy k v fs' j js' first rest c cs) (inr later) =
      let (i, more, d, l) = field_below b fs' js' rest cs later in (i, more, d, omega arith)

  part_below :
      (a b : ℕ) (j : JsonValue) (refs : List ℕ)
      → Copy heap (reference a) j refs
      → IsPart (reference b) (heap a)
      → CopyBelow b (depth j)
  unfolding depth
  part_below a b j refs (array_copy a' vs js inner e cs) h =
      item_below b vs js inner cs (subst (IsPart (reference b)) e h)
  part_below a b j refs (object_copy a' fs js inner e cs) h =
      field_below b fs js inner cs (subst (IsPart (reference b)) e h)

  Leads-below :
      (a b : ℕ) (j : JsonValue) (refs : List ℕ)
      → Leads heap a b
      → Copy heap (reference a) j refs
      → CopyBelow b (depth j)
  Leads-below a b j refs (part a' b' h) c = part_below a b j refs c h
  Leads-below a b j refs (through a' m b' h later) c =
      let (k, more, d, l) = part_below a m j refs c h in
      let (i, most, d', l') = Leads-below m b k more later d in (i, most, d', omega arith)

  -- No copy of an address that leads to itself: each holds a less deep one.
  no_cycle : (n b : ℕ) → Leads heap b b → CopyBelow b n → ⊥
  no_cycle zero b h (j, refs, c, l) = omega arith
  no_cycle (suc n) b h (j, refs, c, l) =
      let (k, more, d, l') = Leads-below b b j refs h c in no_cycle n b h (k, more, d, omega arith)

Bounded-cases :
    {A : Type 0} (r : Bounded A) → ((a : A) × (r ≡ ok a)) ⊎ ((e : JsonBoundsFailure) × (r ≡ err e))
Bounded-cases (ok a) = inl (a, refl)
Bounded-cases (err e) = inr (e, refl)

-- Of an array or object from which one can be reached that holds itself, directly or through others,
-- boundJsonValue returns a failure, whatever the limit.
pub bound_json_value-cyclic :
    (measure : JsonValue → Option ℕ) (heap : Heap) (a b : ℕ) (max_bytes : ℕ)
    → (a ≡ b) ⊎ Leads heap a b
    → Leads heap b b
    → (e : JsonBoundsFailure) × (bound_json_value measure heap (reference a) max_bytes ≡ err e)
bound_json_value-cyclic measure heap a b max_bytes way round =
    elim (Bounded-cases (bound_json_value measure heap (reference a) max_bytes)) [
      | inl (j, h) ↦
          let (refs, copy, distinct, within, shallow) =
            (bound_json_value-ok_iff measure heap (reference a) max_bytes j).0 h in
          let found : CopyBelow heap b (suc (depth j)) = elim way [
            | inl e ↦ (j, refs, subst (λ x. Copy heap (reference x) j refs) e copy, omega arith)
            | inr path ↦
                let (k, more, d, l) = Leads-below heap a b j refs path copy in
                (k, more, d, omega arith)
          ] in
          absurd (no_cycle heap (suc (depth j)) b round found)
      | inr failed ↦ failed
    ]
