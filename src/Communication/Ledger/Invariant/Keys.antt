-- ===== src/Communication/Ledger/Invariant/Keys.antt =====
-- Every step keeps the keys of the turns unique, and no turn has a sequence number before acceptance.
use open_claw_bot_neo.Prelude.{
  ◌≡◌, inl, inr, refl, true, none, List, String, arith, All, subst, sym, ◌∙◌,
}
use open_claw_bot_neo.Communication.Turn.{QueueConfig, TurnState, can_transition, observed}
use open_claw_bot_neo.Communication.Ledger.Rows.{TurnRow, Ledger, load_turn, select_by_key}
use open_claw_bot_neo.Communication.Ledger.Step.{
  IsDistinct, Rewrites, here, there, Revision, Step, stay, insert, revise, assign,
}
use open_claw_bot_neo.Communication.Ledger.Admission.Steps.{IsEarly}

-- The row that a rewrite replaces stands for the same turn and event, so the keys stay unique.
load_turn-Rewrites :
    {r r' : TurnRow} {rs rs' : List TurnRow} (id : String)
    → r'.turn_id ≡ r.turn_id
    → Rewrites r r' rs rs'
    → load_turn id rs ≡ none
    → load_turn id rs' ≡ none
unfolding load_turn
load_turn-Rewrites id same here h = ground arith
load_turn-Rewrites id same (there {x} {rs} {rs'} w) h = ground (arith, load_turn-Rewrites id same w)

select_by_key-Rewrites :
    {r r' : TurnRow} {rs rs' : List TurnRow} (key : String)
    → r'.idempotency_key ≡ r.idempotency_key
    → Rewrites r r' rs rs'
    → select_by_key key rs ≡ none
    → select_by_key key rs' ≡ none
unfolding select_by_key
select_by_key-Rewrites key same here h = ground arith
select_by_key-Rewrites key same (there {x} {rs} {rs'} w) h =
    ground (arith, select_by_key-Rewrites key same w)

IsDistinct-Rewrites :
    {r r' : TurnRow} {rs rs' : List TurnRow}
    → Revision r r'
    → Rewrites r r' rs rs'
    → IsDistinct rs
    → IsDistinct rs'
IsDistinct-Rewrites v (here {rs}) (a, b, d) =
    (ground (arith, v.same_turn), ground (arith, v.same_key), d)
IsDistinct-Rewrites v (there {x} {rs} {rs'} w) (a, b, d) = (
  load_turn-Rewrites x.turn_id v.same_turn w a,
  select_by_key-Rewrites x.idempotency_key v.same_key w b,
  IsDistinct-Rewrites v w d,
)

-- A predicate on rows survives a rewrite by a row that satisfies it.
pub All-Rewrites {ℓ} :
    (P : TurnRow → Type ℓ) {r r' : TurnRow} {rs rs' : List TurnRow}
    → Rewrites r r' rs rs'
    → All P rs
    → (P r → P r')
    → All P rs'
All-Rewrites P here (p, a) f = (f p, a)
All-Rewrites P (there w) (p, a) f = (p, All-Rewrites P w a f)

abbrev pub IsUnsequenced : TurnRow → Type 0
IsUnsequenced r = IsEarly r.state → r.conversation_sequence ≡ none

can_transition-IsEarly :
    (from to : TurnState) → can_transition from to ≡ true → IsEarly to → from ≡ observed
unfolding can_transition
can_transition-IsEarly observed to h e = refl
can_transition-IsEarly _ to h e = ground arith

module _ {cfg : QueueConfig} {db db' : Ledger} where
  pub Step-IsDistinct : Step cfg db db' → IsDistinct db.turns → IsDistinct db'.turns
  Step-IsDistinct (stay same) d = subst (λ l. IsDistinct l.turns) (sym same) d
  Step-IsDistinct (insert row id key _ turns _) d = subst IsDistinct (sym turns) (id, key, d)
  Step-IsDistinct (revise r r' w v _ _ _) d = IsDistinct-Rewrites v w d
  Step-IsDistinct (assign r r' o c n w v _ _ _ _ _ _ _ _ _) d = IsDistinct-Rewrites v w d

  pub Step-IsUnsequenced :
      Step cfg db db' → All IsUnsequenced db.turns → All IsUnsequenced db'.turns
  Step-IsUnsequenced (stay same) a = subst (λ l. All IsUnsequenced l.turns) (sym same) a
  Step-IsUnsequenced (insert row id key unsequenced turns _) a =
      subst (All IsUnsequenced) (sym turns) (λ _. unsequenced, a)
  Step-IsUnsequenced (revise r r' w v sequence _ _) a =
      All-Rewrites IsUnsequenced w a (λ f e. sequence ∙ f (earlier r r' v e))
    where
      earlier : (r r' : TurnRow) → Revision r r' → IsEarly r'.state → IsEarly r.state
      earlier r r' v e = elim v.moved [
        | inl same ↦ subst IsEarly same e
        | inr legal ↦ inl (can_transition-IsEarly r.state r'.state legal e)
      ]
  Step-IsUnsequenced (assign r r' o c n w v _ state _ _ _ _ _ _ _) a =
      All-Rewrites IsUnsequenced w a (λ f e. absurd (ground (arith, e)))
