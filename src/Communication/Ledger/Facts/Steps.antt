-- ===== src/Communication/Ledger/Facts/Steps.antt =====
-- transition and recordFactualOutcome revise at most one turn.
use open_claw_bot_neo.Prelude.{
  ◌≡◌, ◌⊎◌, inl, inr, refl, true, none, String, arith, Option-cases, ap, false, is_none,
}
use open_claw_bot_neo.Communication.Turn.{QueueConfig, DeliveryStatus, can_transition}
use open_claw_bot_neo.Communication.Transaction.{Env, commit, port_method_cases}
use open_claw_bot_neo.Communication.Ledger.Rows.{TurnRow, Ledger, load_turn, write_turn}
use open_claw_bot_neo.Communication.Ledger.Step.{IsDistinct, Step, stay, revise_written}
use open_claw_bot_neo.Communication.Ledger.Facts.{
  TransitionCommand, TransitionOutcome, moved_row, transition_row, transition_body, transition,
  FactsCommand, FactsOutcome, facts_row, fact_rewrite, facts_row_body, facts_body,
  record_factual_outcome,
}

transition_row_cases :
    (now : String) (cmd : TransitionCommand) (row : TurnRow) (db db' : Ledger)
    (a : TransitionOutcome)
    → transition_row now cmd row db ≡ commit a db'
    → (db' ≡ db)
      ⊎ ((can_transition row.state cmd.target_state ≡ true)
          × (db' ≡ record db {
            turns = (write_turn (moved_row cmd row) row.turn_revision now db.turns).1;
          }))
unfolding transition_row
transition_row_cases now cmd row db db' a h = ground arith

module _ (cfg : QueueConfig) (db : Ledger) (d : IsDistinct db.turns) where
  transition_body-Step :
      (now : String) (cmd : TransitionCommand) (a : TransitionOutcome) (db' : Ledger)
      → transition_body now cmd db ≡ commit a db'
      → Step cfg db db'
  unfolding transition_body
  transition_body-Step now cmd a db' h = elim (Option-cases (load_turn cmd.turn_id db.turns)) [
    | inl missing ↦ stay (ground arith)
    | inr (row, found) ↦
        elim (transition_row_cases now cmd row db db' a (rw (found, transition_body) at h)) [
          | inl same ↦ stay same
          | inr (legal, written) ↦
              revise_written db db' now d cmd.turn_id row (moved_row cmd row) found refl
                (ap (λ l. l.turns) written)
                (record {
                  same_turn = refl;
                  same_key = refl;
                  next = refl;
                  moved = inr legal;
                  keeps_delivered = λ p. p;
                  keeps_unknown = λ p. p;
                  keeps_llm = λ p. refl;
                })
                refl (inr (refl, refl)) (ap (λ l. l.counters) written)
        ]
  ]

  -- One transition leaves the ledger alone or moves one turn along a legal transition.
  pub transition-Step :
      (env : Env) (cmd : TransitionCommand) → Step cfg db (transition env cmd db).1
  unfolding transition
  transition-Step env cmd =
      port_method_cases (Step cfg db) db (stay refl) env _ _ _ (transition_body-Step env.now cmd)

fact_rewrite-none :
    (cmd : FactsCommand) (row : TurnRow)
    → fact_rewrite cmd row ≡ none
    → (row.delivery_status ≡ DeliveryStatus.delivered
        → cmd.delivery_status ≡ DeliveryStatus.delivered)
      × (row.delivery_status ≡ DeliveryStatus.outcome_unknown
          → cmd.delivery_status ≡ DeliveryStatus.outcome_unknown)
      × (is_none row.llm_outcome ≡ false → cmd.llm_outcome ≡ row.llm_outcome)
unfolding fact_rewrite
fact_rewrite-none cmd row h = (λ p. ground arith, λ p. ground arith, λ p. ground arith)

facts_row_cases :
    (now : String) (cmd : FactsCommand) (row : TurnRow) (db db' : Ledger) (a : FactsOutcome)
    → facts_row_body now cmd row db ≡ commit a db'
    → (db' ≡ db)
      ⊎ ((fact_rewrite cmd row ≡ none)
          × (db'.counters ≡ db.counters)
          × (db'.turns ≡ (write_turn (facts_row cmd row) row.turn_revision now db.turns).1))
unfolding facts_row_body
facts_row_cases now cmd row db db' a h = ground arith

module _ (cfg : QueueConfig) (db : Ledger) (d : IsDistinct db.turns) where
  facts_body-Step :
      (now : String) (cmd : FactsCommand) (a : FactsOutcome) (db' : Ledger)
      → facts_body now cmd db ≡ commit a db'
      → Step cfg db db'
  unfolding facts_body
  facts_body-Step now cmd a db' h = elim (Option-cases (load_turn cmd.turn_id db.turns)) [
    | inl missing ↦ stay (ground arith)
    | inr (row, found) ↦ elim (facts_row_cases now cmd row db db' a (rw (found, facts_body) at h)) [
      | inl same ↦ stay same
      | inr (allowed, counters, written) ↦
          let (delivered, unknown, llm) = fact_rewrite-none cmd row allowed in
          revise_written db db' now d cmd.turn_id row (facts_row cmd row) found refl written
            (record {
              same_turn = refl;
              same_key = refl;
              next = refl;
              moved = inl refl;
              keeps_delivered = delivered;
              keeps_unknown = unknown;
              keeps_llm = λ p. ground (arith, llm p);
            })
            refl (inr (refl, refl)) counters
    ]
  ]

  -- Recording facts leaves the ledger alone or revises one turn, whose state stays.
  pub record_factual_outcome-Step :
      (env : Env) (cmd : FactsCommand) → Step cfg db (record_factual_outcome env cmd db).1
  unfolding record_factual_outcome
  record_factual_outcome-Step env cmd =
      port_method_cases (Step cfg db) db (stay refl) env _ _ _ (facts_body-Step env.now cmd)
