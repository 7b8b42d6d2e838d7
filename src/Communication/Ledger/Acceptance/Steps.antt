-- ===== src/Communication/Ledger/Acceptance/Steps.antt =====
-- acceptConversationTurn gives at most one turn its sequence number.
use open_claw_bot_neo.Prelude.{
  ℕ, ◌+◌, ◌<◌, ◌≡◌, ◌⊎◌, inl, inr, refl, true, Option, some, String, arith, Option-cases, or_else,
}
use open_claw_bot_neo.Communication.Turn.{QueueConfig, TurnState, can_transition}
use open_claw_bot_neo.Communication.Transaction.{Env, commit, port_method_cases}
use open_claw_bot_neo.Communication.Ledger.Rows.{
  TurnRow, Ledger, load_turn, write_turn, set_columns, select_sequence, upsert_sequence, is_active,
  is_active_in, count,
}
use open_claw_bot_neo.Communication.Ledger.Step.{IsDistinct, Step, stay, assign, written-Rewrites}
use open_claw_bot_neo.Communication.Ledger.Acceptance.{
  AcceptCommand, AcceptOutcome, assigned_row, admit, admit_claimed, accept_fresh, accept_row,
  accept_body, accept_conversation_turn,
}

abbrev pub assigned : String → String → Ledger → ℕ
assigned owner conversation db = or_else (select_sequence owner conversation db.counters) 1

-- What a transaction has found when it assigns a sequence number.
pub record IsAdmission (cfg : QueueConfig) (now : String) (cmd : AcceptCommand) (row : TurnRow)
    (owner conversation : String) (db db' : Ledger) : Type 0 where
  pub depth : count (is_active_in owner conversation) db.turns < cfg.max_depth_per_conversation
  pub global : count is_active db.turns < cfg.max_global_pending
  pub turns :
      db'.turns
      ≡ (write_turn
          (assigned_row cmd row (assigned owner conversation db))
          row.turn_revision
          now
          db.turns).1
  pub counters :
      db'.counters
      ≡ upsert_sequence owner conversation (assigned owner conversation db + 1) db.counters

admit_cases :
    (cfg : QueueConfig) (now : String) (cmd : AcceptCommand) (row : TurnRow)
    (owner conversation : String) (db db' : Ledger) (a : AcceptOutcome)
    → admit cfg now cmd row owner conversation db ≡ commit a db'
    → (db' ≡ db) ⊎ IsAdmission cfg now cmd row owner conversation db db'
unfolding admit
admit_cases cfg now cmd row owner conversation db db' a h = ground arith

accept_fresh_cases :
    (cfg : QueueConfig) (now : String) (cmd : AcceptCommand) (row : TurnRow) (db db' : Ledger)
    (a : AcceptOutcome)
    → accept_fresh cfg now cmd row db ≡ commit a db'
    → (db' ≡ db)
      ⊎ ((can_transition row.state TurnState.accepted ≡ true)
          × (admit_claimed cfg now cmd row row.owner_id row.conversation_id db ≡ commit a db'))
unfolding accept_fresh
accept_fresh_cases cfg now cmd row db db' a h = ground arith

accept_row_cases :
    (cfg : QueueConfig) (now : String) (cmd : AcceptCommand) (row : TurnRow) (db db' : Ledger)
    (a : AcceptOutcome)
    → accept_row cfg now cmd row db ≡ commit a db'
    → (db' ≡ db) ⊎ (accept_fresh cfg now cmd row db ≡ commit a db')
unfolding accept_row
accept_row_cases cfg now cmd row db db' a h = ground arith

module _ (cfg : QueueConfig) (db : Ledger) (d : IsDistinct db.turns) where
  admit_claimed-Step :
      (now : String) (cmd : AcceptCommand) (row : TurnRow) (a : AcceptOutcome) (db' : Ledger)
      (owner conversation : Option String)
      → load_turn cmd.turn_id db.turns ≡ some row
      → can_transition row.state TurnState.accepted ≡ true
      → row.owner_id ≡ owner
      → row.conversation_id ≡ conversation
      → admit_claimed cfg now cmd row owner conversation db ≡ commit a db'
      → Step cfg db db'
  unfolding admit_claimed
  admit_claimed-Step now cmd row a db' (some owner) (some conversation) found legal o c h =
      elim (admit_cases cfg now cmd row owner conversation db db' a h) [
        | inl same ↦ stay same
        | inr v ↦
            let new = assigned_row cmd row (assigned owner conversation db) in
            assign row (set_columns new now row) owner conversation (assigned owner conversation db)
              (written-Rewrites db db' now d cmd.turn_id row new found refl v.turns)
              (record {
                same_turn = refl;
                same_key = refl;
                next = refl;
                moved = inr legal;
                keeps_delivered = λ p. p;
                keeps_unknown = λ p. p;
                keeps_llm = λ p. refl;
              })
              legal refl refl o c refl v.depth v.global v.counters
      ]
  admit_claimed-Step now cmd row a db' _ _ found legal o c h = stay (ground arith)

  accept_body-Step :
      (now : String) (cmd : AcceptCommand) (a : AcceptOutcome) (db' : Ledger)
      → accept_body cfg now cmd db ≡ commit a db'
      → Step cfg db db'
  unfolding accept_body
  accept_body-Step now cmd a db' h = elim (Option-cases (load_turn cmd.turn_id db.turns)) [
    | inl missing ↦ stay (ground arith)
    | inr (row, found) ↦
        elim (accept_row_cases cfg now cmd row db db' a (rw (found, accept_body) at h)) [
          | inl same ↦ stay same
          | inr fresh ↦ elim (accept_fresh_cases cfg now cmd row db db' a fresh) [
            | inl same ↦ stay same
            | inr (legal, claimed) ↦
                admit_claimed-Step now cmd row a db' row.owner_id row.conversation_id found legal
                  refl refl claimed
          ]
        ]
  ]

  -- Accepting leaves the ledger alone or gives one turn the next number of its conversation.
  pub accept_conversation_turn-Step :
      (env : Env) (cmd : AcceptCommand) → Step cfg db (accept_conversation_turn cfg env cmd db).1
  unfolding accept_conversation_turn
  accept_conversation_turn-Step env cmd =
      port_method_cases (Step cfg db) db (stay refl) env _ _ _ (accept_body-Step env.now cmd)
