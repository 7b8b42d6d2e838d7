-- ===== src/Communication/Ledger/Invariant/Capacity.antt =====
-- Every step keeps both bounds on the turns that are admitted to a queue and not completed.
use open_claw_bot_neo.Prelude.{
  ◌+◌, ◌≤◌, ◌<◌, ◌≡◌, ◌⊎◌, inl, inr, Bool, true, none, some, List, ◌∷◌, String, arith, subst, sym,
  Bool-cases,
}
use native.Mathlib.Nat.{le_trans}
use open_claw_bot_neo.Communication.Turn.{QueueConfig, TurnState, can_transition}
use open_claw_bot_neo.Communication.Ledger.Rows.{TurnRow, Ledger, is_active, is_active_in, count}
use open_claw_bot_neo.Communication.Ledger.Step.{
  Rewrites, here, there, Revision, Step, stay, insert, revise, assign,
}

count-le-Rewrites :
    (p : TurnRow → Bool) {r r' : TurnRow} {rs rs' : List TurnRow}
    → Rewrites r r' rs rs'
    → (p r' ≡ true → p r ≡ true)
    → count p rs' ≤ count p rs
unfolding count
count-le-Rewrites p {r} {r'} here f = ground (arith, f)
count-le-Rewrites p (there {x} {rs} {rs'} w) f = omega (arith, count-le-Rewrites p w f)

count-le-suc-Rewrites :
    (p : TurnRow → Bool) {r r' : TurnRow} {rs rs' : List TurnRow}
    → Rewrites r r' rs rs'
    → count p rs' ≤ count p rs + 1
unfolding count
count-le-suc-Rewrites p {r} {r'} here = ground arith
count-le-suc-Rewrites p (there {x} {rs} {rs'} w) = omega (arith, count-le-suc-Rewrites p w)

-- A completed turn stays completed.
pub Revision-completed :
    (r r' : TurnRow)
    → Revision r r'
    → r.state ≡ TurnState.completed
    → r'.state ≡ TurnState.completed
unfolding can_transition
Revision-completed r r' v e = ground (arith, v.moved)

-- Both queue bounds of the configuration.
pub record HasRoom (cfg : QueueConfig) (turns : List TurnRow) : Type 0 where
  pub depth :
      (owner conversation : String)
      → count (is_active_in owner conversation) turns ≤ cfg.max_depth_per_conversation
  pub global : count is_active turns ≤ cfg.max_global_pending

revised_is_active :
    (r r' : TurnRow)
    → Revision r r'
    → r'.conversation_sequence ≡ r.conversation_sequence
    → is_active r' ≡ true
    → is_active r ≡ true
unfolding is_active
revised_is_active r r' v s h = ground (arith, Revision-completed r r' v)

revised_is_active_in :
    (owner conversation : String) (r r' : TurnRow)
    → Revision r r'
    → r'.conversation_sequence ≡ r.conversation_sequence
    → (r.conversation_sequence ≡ none)
      ⊎ ((r'.owner_id ≡ r.owner_id) × (r'.conversation_id ≡ r.conversation_id))
    → is_active_in owner conversation r' ≡ true
    → is_active_in owner conversation r ≡ true
unfolding is_active_in
revised_is_active_in owner conversation r r' v s c h = ground (arith, Revision-completed r r' v)

assigned_elsewhere :
    (owner conversation o c : String) (r' : TurnRow)
    → r'.owner_id ≡ some owner
    → r'.conversation_id ≡ some conversation
    → is_active_in o c r' ≡ true
    → (o ≡ owner) × (c ≡ conversation)
unfolding is_active_in
assigned_elsewhere owner conversation o c r' p q h = ground arith

insert-HasRoom :
    {cfg : QueueConfig} (row : TurnRow) {turns : List TurnRow}
    → row.conversation_sequence ≡ none
    → HasRoom cfg turns
    → HasRoom cfg (row ∷ turns)
unfolding count is_active_in
insert-HasRoom row s v = record {
  depth = λ o c. ground (arith, v.depth o c);
  global = ground (arith, v.global);
}

assign-depth :
    {cfg : QueueConfig} {turns turns' : List TurnRow} {r r' : TurnRow}
    (owner conversation o c : String)
    → Rewrites r r' turns turns'
    → r'.owner_id ≡ some owner
    → r'.conversation_id ≡ some conversation
    → count (is_active_in owner conversation) turns < cfg.max_depth_per_conversation
    → HasRoom cfg turns
    → count (is_active_in o c) turns' ≤ cfg.max_depth_per_conversation
assign-depth {cfg} {turns} {turns'} {r} {r'} owner conversation o c w p q room v =
    elim (Bool-cases (is_active_in o c r')) [
      | inl counted ↦
          let (same_o, same_c) = assigned_elsewhere owner conversation o c r' p q counted in
          let bound = count-le-suc-Rewrites (is_active_in o c) w in
          let unchanged : count (is_active_in o c) turns < cfg.max_depth_per_conversation =
            rw (same_o, same_c) room in
          omega arith
      | inr other ↦
          le_trans (count-le-Rewrites (is_active_in o c) w (λ h. absurd (ground arith)))
            (v.depth o c)
    ]

module _ {cfg : QueueConfig} {db db' : Ledger} where
  pub Step-HasRoom : Step cfg db db' → HasRoom cfg db.turns → HasRoom cfg db'.turns
  Step-HasRoom (stay same) v = subst (λ l. HasRoom cfg l.turns) (sym same) v
  Step-HasRoom (insert row _ _ s turns _) v =
      subst (HasRoom cfg) (sym turns) (insert-HasRoom row s v)
  Step-HasRoom (revise r r' w v s c _) room = record {
    depth = λ o k.
        le_trans (count-le-Rewrites (is_active_in o k) w (revised_is_active_in o k r r' v s c))
          (room.depth o k);
    global = le_trans (count-le-Rewrites is_active w (revised_is_active r r' v s)) room.global;
  }
  Step-HasRoom (assign r r' owner conversation n w v _ _ _ p q _ room below _) h = record {
    depth = λ o c. assign-depth owner conversation o c w p q room h;
    global = le_trans (count-le-suc-Rewrites is_active w) (omega arith);
  }
