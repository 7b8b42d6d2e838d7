-- ===== src/Communication/Ledger/Invariant/Sequence.antt =====
-- Every step keeps the sequence numbers of a conversation different, and below its counter.
use open_claw_bot_neo.Prelude.{
  ℕ, ◌+◌, ◌≤◌, ◌<◌, ◌≡◌, ◌⊎◌, none, some, List, [], ◌∷◌, String, arith, subst, subst₂, sym, ap, ◌∙◌,
  All, or_else,
}
use open_claw_bot_neo.Communication.Turn.{QueueConfig}
use open_claw_bot_neo.Communication.Ledger.Rows.{
  TurnRow, CounterRow, Ledger, select_sequence, upsert_sequence,
}
use open_claw_bot_neo.Communication.Ledger.Step.{
  Rewrites, here, there, Step, stay, insert, revise, assign,
}
use open_claw_bot_neo.Communication.Ledger.Invariant.Keys.{All-Rewrites}

-- The number that the conversation assigns next.
abbrev pub next : String → String → List CounterRow → ℕ
next owner conversation counters = or_else (select_sequence owner conversation counters) 1

next-upsert_sequence_self :
    (o c : String) (n : ℕ) (cs : List CounterRow) → next o c (upsert_sequence o c n cs) ≡ n
unfolding select_sequence upsert_sequence
next-upsert_sequence_self o c n [] = ground arith
next-upsert_sequence_self o c n (x ∷ cs) = ground (arith, next-upsert_sequence_self o c n cs)

next-le-upsert_sequence :
    (o c p q : String) (n : ℕ) (cs : List CounterRow)
    → next o c cs ≤ n
    → next p q cs ≤ next p q (upsert_sequence o c n cs)
unfolding select_sequence upsert_sequence
next-le-upsert_sequence o c p q n [] h = ground arith
next-le-upsert_sequence o c p q n (x ∷ cs) h = ground (arith, next-le-upsert_sequence o c p q n cs)

-- The turn has this number in this conversation of this owner.
abbrev pub IsNumbered : TurnRow → String → String → ℕ → Type 0
IsNumbered r o c n =
    (r.conversation_sequence ≡ some n) × (r.owner_id ≡ some o) × (r.conversation_id ≡ some c)

abbrev pub IsPlaced : List CounterRow → TurnRow → Type 0
IsPlaced counters r = (o c : String) (n : ℕ) → IsNumbered r o c n → n < next o c counters

abbrev pub AreApart : TurnRow → TurnRow → Type 0
AreApart r s = (o c : String) (n : ℕ) → IsNumbered r o c n → IsNumbered s o c n → ⊥

abbrev pub HasApartNumbers : List TurnRow → Type 0
HasApartNumbers [] = Unit
HasApartNumbers (r ∷ rs) = All (AreApart r) rs × HasApartNumbers rs

All-map {ℓ} :
    {P Q : TurnRow → Type ℓ} (rs : List TurnRow) → ((r : TurnRow) → P r → Q r) → All P rs → All Q rs
All-map [] f a = tt
All-map (r ∷ rs) f (p, a) = (f r p, All-map rs f a)

HasApartNumbers-revised :
    {r r' : TurnRow} {rs rs' : List TurnRow}
    → ((o c : String) (n : ℕ) → IsNumbered r' o c n → IsNumbered r o c n)
    → Rewrites r r' rs rs'
    → HasApartNumbers rs
    → HasApartNumbers rs'
HasApartNumbers-revised f (here {rs}) (a, h) =
    (All-map rs (λ s apart o c n x y. apart o c n (f o c n x) y) a, h)
HasApartNumbers-revised f (there {x} w) (a, h) = (
  All-Rewrites (AreApart x) w a (λ apart o c n p q. apart o c n p (f o c n q)),
  HasApartNumbers-revised f w h,
)

HasApartNumbers-assigned :
    (P : TurnRow → Type 0) {r r' : TurnRow} {rs rs' : List TurnRow}
    → ((s : TurnRow) → P s → (o c : String) (n : ℕ) → IsNumbered s o c n → IsNumbered r' o c n → ⊥)
    → Rewrites r r' rs rs'
    → All P rs
    → HasApartNumbers rs
    → HasApartNumbers rs'
HasApartNumbers-assigned P f (here {rs}) (p, b) (a, h) =
    (All-map rs (λ s q o c n x y. f s q o c n y x) b, h)
HasApartNumbers-assigned P f (there {x} w) (p, b) (a, h) =
    (All-Rewrites (AreApart x) w a (λ _. f x p), HasApartNumbers-assigned P f w b h)

-- Every number is below its conversation's counter, and no two turns share one.
pub record HasSequences (db : Ledger) : Type 0 where
  pub placed : All (IsPlaced db.counters) db.turns
  pub apart : HasApartNumbers db.turns

revised_IsNumbered :
    (r r' : TurnRow)
    → r'.conversation_sequence ≡ r.conversation_sequence
    → (r.conversation_sequence ≡ none)
      ⊎ ((r'.owner_id ≡ r.owner_id) × (r'.conversation_id ≡ r.conversation_id))
    → (o c : String) (n : ℕ) → IsNumbered r' o c n
    → IsNumbered r o c n
revised_IsNumbered r r' s k o c n h = ground arith

IsPlaced-upsert_sequence :
    (o c : String) (cs : List CounterRow) (r : TurnRow)
    → IsPlaced cs r
    → IsPlaced (upsert_sequence o c (next o c cs + 1) cs) r
IsPlaced-upsert_sequence o c cs r p owner conversation n h = omega (
  arith,
  p owner conversation n h,
  next-le-upsert_sequence o c owner conversation (next o c cs + 1) cs (omega arith),
)

-- The number that is assigned is above all that the conversation has.
not_yet_numbered :
    (counters : List CounterRow) (owner conversation : String) (r' s : TurnRow)
    → IsNumbered r' owner conversation (next owner conversation counters)
    → IsPlaced counters s
    → (o c : String) (n : ℕ) → IsNumbered s o c n
    → IsNumbered r' o c n
    → ⊥
not_yet_numbered counters owner conversation r' s new p o c n h k =
    let below = p o c n h in
    let same_owner : o ≡ owner = cc in
    let same_conversation : c ≡ conversation = cc in
    let same_number : n ≡ next owner conversation counters = cc in ground (arith, below)

assigned_IsPlaced :
    (counters : List CounterRow) (owner conversation : String) (r' : TurnRow)
    → IsNumbered r' owner conversation (next owner conversation counters)
    → IsPlaced
        (upsert_sequence owner conversation (next owner conversation counters + 1) counters)
        r'
assigned_IsPlaced counters owner conversation r' new o c n h =
    let same_owner : o ≡ owner = cc in
    let same_conversation : c ≡ conversation = cc in
    ground (
      arith,
      next-upsert_sequence_self owner conversation (next owner conversation counters + 1) counters,
    )

module _ {cfg : QueueConfig} {db db' : Ledger} where
  pub Step-HasSequences : Step cfg db db' → HasSequences db → HasSequences db'
  Step-HasSequences (stay same) v = subst HasSequences (sym same) v
  Step-HasSequences (insert row _ _ s turns counters) v = record {
    placed =
        subst₂ (λ cs. All (IsPlaced cs)) (sym counters) (sym turns)
          (λ o c n h. absurd (ground arith), v.placed);
    apart =
        subst HasApartNumbers (sym turns)
          (All-map db.turns (λ t _ o c n x y. ground arith) v.placed, v.apart);
  }
  Step-HasSequences (revise r r' w v s k counters) h =
      let same = revised_IsNumbered r r' s k in
      record {
        placed =
            subst (λ cs. All (IsPlaced cs) db'.turns) (sym counters)
              (All-Rewrites (IsPlaced db.counters) w h.placed
                (λ p o c n x. p o c n (same o c n x)));
        apart = HasApartNumbers-revised same w h.apart;
      }
  Step-HasSequences (assign r r' owner conversation n w v _ _ s p q e _ _ counters) h =
      let new : IsNumbered r' owner conversation (next owner conversation db.counters) =
        (s ∙ ap some e, p, q) in
      let counters' : db'.counters
          ≡ upsert_sequence owner conversation (next owner conversation db.counters + 1)
              db.counters =
        counters ∙ ap (λ k. upsert_sequence owner conversation (k + 1) db.counters) e in
      let raised =
        All-map db.turns (IsPlaced-upsert_sequence owner conversation db.counters) h.placed in
      record {
        placed =
            subst (λ cs. All (IsPlaced cs) db'.turns) (sym counters')
              (All-Rewrites _ w raised
                (λ _. assigned_IsPlaced db.counters owner conversation r' new));
        apart =
            HasApartNumbers-assigned (IsPlaced db.counters)
              (λ t pt. not_yet_numbered db.counters owner conversation r' t new pt) w h.placed
              h.apart;
      }
