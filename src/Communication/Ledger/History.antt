-- ===== src/Communication/Ledger/History.antt =====
-- What a history of calls does to one turn.
use open_claw_bot_neo.Prelude.{
  ℕ, ◌≤◌, ◌≡◌, ◌⊎◌, inl, inr, refl, sym, subst, ◌∙◌, true, false, none, some, List, [], ◌∷◌, String,
  arith, is_none, String-discrete, All,
}
use native.Mathlib.Nat.{le_trans}
use open_claw_bot_neo.Communication.Turn.{QueueConfig, TurnState, DeliveryStatus, can_transition}
use open_claw_bot_neo.Communication.Turn.Moves.{Moves, done, then_to, Moves-trans}
use open_claw_bot_neo.Communication.Transaction.{Env}
use open_claw_bot_neo.Communication.Ledger.Rows.{TurnRow, Ledger, load_turn}
use open_claw_bot_neo.Communication.Ledger.Step.{
  Rewrites, here, there, Revision, Step, stay, insert, revise, assign,
}
use open_claw_bot_neo.Communication.Ledger.Invariant.Keys.{IsUnsequenced}
use open_claw_bot_neo.Communication.Ledger.Invariant.Sequence.{IsNumbered}
use open_claw_bot_neo.Communication.Ledger.Runs.{Call, perform, run, Inv, perform-Step, perform-Inv}

-- The same turn, at a later time.
pub record IsLater (r r' : TurnRow) : Type 0 where
  pub same_turn : r'.turn_id ≡ r.turn_id
  pub same_key : r'.idempotency_key ≡ r.idempotency_key
  pub revision : r.turn_revision ≤ r'.turn_revision
  pub moves : Moves r.state r'.state
  pub keeps_delivered :
      r.delivery_status ≡ DeliveryStatus.delivered → r'.delivery_status ≡ DeliveryStatus.delivered
  pub keeps_unknown :
      r.delivery_status ≡ DeliveryStatus.outcome_unknown
      → r'.delivery_status ≡ DeliveryStatus.outcome_unknown
  pub keeps_llm : is_none r.llm_outcome ≡ false → r'.llm_outcome ≡ r.llm_outcome
  pub keeps_number : (o c : String) (n : ℕ) → IsNumbered r o c n → IsNumbered r' o c n

IsLater-refl : (r : TurnRow) → IsLater r r
IsLater-refl r = record {
  same_turn = refl;
  same_key = refl;
  revision = omega arith;
  moves = done;
  keeps_delivered = λ p. p;
  keeps_unknown = λ p. p;
  keeps_llm = λ p. refl;
  keeps_number = λ o c n h. h;
}

IsLater-trans : {r s t : TurnRow} → IsLater r s → IsLater s t → IsLater r t
IsLater-trans {r} {s} {t} v w = record {
  same_turn = w.same_turn ∙ v.same_turn;
  same_key = w.same_key ∙ v.same_key;
  revision = le_trans v.revision w.revision;
  moves = Moves-trans v.moves w.moves;
  keeps_delivered = λ p. w.keeps_delivered (v.keeps_delivered p);
  keeps_unknown = λ p. w.keeps_unknown (v.keeps_unknown p);
  keeps_llm = λ p. ground (arith, v.keeps_llm p, w.keeps_llm);
  keeps_number = λ o c n h. w.keeps_number o c n (v.keeps_number o c n h);
}

Moves-Revision : {r r' : TurnRow} → Revision r r' → Moves r.state r'.state
Moves-Revision {r} {r'} v = elim v.moved [
  | inl same ↦ subst (Moves r.state) (sym same) done
  | inr legal ↦ then_to done legal
]

Revision-IsLater :
    {r r' : TurnRow}
    → Revision r r'
    → ((o c : String) (n : ℕ) → IsNumbered r o c n → IsNumbered r' o c n)
    → IsLater r r'
Revision-IsLater v number = record {
  same_turn = v.same_turn;
  same_key = v.same_key;
  revision = omega (arith, v.next);
  moves = Moves-Revision v;
  keeps_delivered = v.keeps_delivered;
  keeps_unknown = v.keeps_unknown;
  keeps_llm = v.keeps_llm;
  keeps_number = number;
}

-- The turn is still there, later.
abbrev pub Persists : String → TurnRow → List TurnRow → Type 0
Persists id r rs = (r' : TurnRow) × (load_turn id rs ≡ some r') × IsLater r r'

load_turn-Rewrites_later :
    {r r' : TurnRow} {rs rs' : List TurnRow} (id : String) (t : TurnRow)
    → IsLater r r'
    → Rewrites r r' rs rs'
    → load_turn id rs ≡ some t
    → Persists id t rs'
unfolding load_turn
load_turn-Rewrites_later {r} {r'} id t v (here {rs}) h = elim (String-discrete r.turn_id id) [
  | yes e ↦ (r', ground (arith, v.same_turn), subst (λ x. IsLater x r') (ground arith) v)
  | no n ↦ (t, ground (arith, v.same_turn), IsLater-refl t)
]
load_turn-Rewrites_later id t v (there {x} {rs} {rs'} w) h = elim (String-discrete x.turn_id id) [
  | yes e ↦ (t, ground arith, IsLater-refl t)
  | no n ↦
      let (t', found, later) = load_turn-Rewrites_later id t v w (ground arith) in
      (t', ground arith, later)
]

revised-IsLater :
    {r r' : TurnRow}
    → Revision r r'
    → r'.conversation_sequence ≡ r.conversation_sequence
    → (r.conversation_sequence ≡ none)
      ⊎ ((r'.owner_id ≡ r.owner_id) × (r'.conversation_id ≡ r.conversation_id))
    → IsLater r r'
revised-IsLater v s k = Revision-IsLater v (λ o c n h. ground arith)

accepted_from :
    (state : TurnState)
    → can_transition state TurnState.accepted ≡ true
    → state ≡ TurnState.authenticated
unfolding can_transition
accepted_from TurnState.authenticated h = refl
accepted_from _ h = ground arith

Rewrites-All {ℓ} :
    (P : TurnRow → Type ℓ) {r r' : TurnRow} {rs rs' : List TurnRow}
    → Rewrites r r' rs rs'
    → All P rs
    → P r
Rewrites-All P here (p, a) = p
Rewrites-All P (there w) (p, a) = Rewrites-All P w a

module _ (cfg : QueueConfig) (id : String) where
  Step-Persists :
      {db db' : Ledger} (r : TurnRow)
      → Inv cfg db
      → Step cfg db db'
      → load_turn id db.turns ≡ some r
      → Persists id r db'.turns
  unfolding load_turn
  Step-Persists r v (stay same) h =
      subst (λ l. Persists id r l.turns) (sym same) (r, h, IsLater-refl r)
  Step-Persists r v (insert row absent _ _ turns _) h =
      subst (Persists id r) (sym turns) (r, ground arith, IsLater-refl r)
  Step-Persists r v (revise t t' w u s k _) h =
      load_turn-Rewrites_later id r (revised-IsLater u s k) w h
  Step-Persists r v (assign t t' o c n w u legal _ _ _ _ _ _ _ _) h =
      let fresh = Rewrites-All IsUnsequenced w v.unsequenced (inr (accepted_from t.state legal)) in
      load_turn-Rewrites_later id r (Revision-IsLater u (λ o c n x. absurd (ground arith))) w h

  -- From a ledger that satisfies the invariant, through any history of calls and faults, a turn
  -- stays in the ledger under its identifier and idempotency key, moves only along legal
  -- transitions, keeps the number, the delivered or unknown delivery status and the LLM outcome it
  -- has, and its revision never falls.
  pub run-Persists :
      (calls : List (Env × Call)) (db : Ledger) (r : TurnRow)
      → Inv cfg db
      → load_turn id db.turns ≡ some r
      → Persists id r (run cfg calls db).turns
  unfolding run
  run-Persists [] db r v h = (r, h, IsLater-refl r)
  run-Persists ((env, call) ∷ rest) db r v h =
      let (s, found, first) = Step-Persists r v (perform-Step cfg env call db v) h in
      let (t, last_found, last) =
        run-Persists rest (perform cfg env call db) s (perform-Inv cfg env call db v) found in
      (t, last_found, IsLater-trans first last)
