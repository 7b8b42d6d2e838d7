-- ===== src/Communication/Ledger/Admission/Steps.antt =====
-- observeTransportEvent adds at most one turn; recordAuthenticationResult revises at most one.
use open_claw_bot_neo.Prelude.{
  ◌≡◌, ◌⊎◌, inl, inr, refl, true, Option, none, some, ◌∷◌, String, arith, Option-cases, Bool-cases,
  is_safe_integer, ◌+◌, All,
}
use open_claw_bot_neo.Communication.Turn.{QueueConfig, TurnState, observed, can_transition}
use open_claw_bot_neo.Communication.Transaction.{Env, commit, port_method_cases}
use open_claw_bot_neo.Communication.Ledger.Rows.{
  TurnRow, Ledger, load_turn, select_by_key, write_turn, observed_row,
}
use open_claw_bot_neo.Communication.Ledger.Step.{
  IsDistinct, Step, stay, insert, revise_written, All-load_turn,
}
use open_claw_bot_neo.Communication.Ledger.Admission.{
  ObserveCommand, ObserveOutcome, observe_body, observe_transport_event, AuthenticationCommand,
  AuthenticationOutcome, AuthenticationResult, write_authentication, Claims, claims, refused,
  claims_of, authenticated_row, authenticate_row, authentication_body, record_authentication_result,
  target_state,
}

abbrev row_of : ObserveCommand → TurnRow
row_of cmd = observed_row cmd.turn_id cmd.transport_instance_id cmd.idempotency_key cmd.observed_at

observe_body_cases :
    (cmd : ObserveCommand) (db db' : Ledger) (a : ObserveOutcome)
    → observe_body cmd db ≡ commit a db'
    → (db' ≡ db)
      ⊎ ((load_turn cmd.turn_id db.turns ≡ none)
          × (select_by_key cmd.idempotency_key db.turns ≡ none)
          × (db'.turns ≡ row_of cmd ∷ db.turns)
          × (db'.counters ≡ db.counters))
unfolding observe_body
observe_body_cases cmd db db' a h = ground arith

module _ (cfg : QueueConfig) (db : Ledger) (d : IsDistinct db.turns) where
  observe_body-Step :
      (cmd : ObserveCommand) (a : ObserveOutcome) (db' : Ledger)
      → observe_body cmd db ≡ commit a db'
      → Step cfg db db'
  observe_body-Step cmd a db' h = elim (observe_body_cases cmd db db' a h) [
    | inl same ↦ stay same
    | inr (fresh_id, fresh_key, turns, counters) ↦
        insert (row_of cmd) fresh_id fresh_key refl turns counters
  ]

  -- Observing an event leaves the ledger alone or adds one turn that has no sequence number.
  pub observe_transport_event-Step :
      (env : Env) (cmd : ObserveCommand) → Step cfg db (observe_transport_event env cmd db).1
  unfolding observe_transport_event
  observe_transport_event-Step env cmd =
      port_method_cases (Step cfg db) db (stay refl) env _ _ _ (observe_body-Step cmd)

-- What the methods that a turn meets first rely on: no sequence number before acceptance.
abbrev pub IsEarly : TurnState → Type 0
IsEarly state = (state ≡ observed) ⊎ (state ≡ TurnState.authenticated)

target_state-IsEarly :
    (state : TurnState) (r : AuthenticationResult)
    → can_transition state (target_state r) ≡ true
    → state ≡ observed
unfolding can_transition
target_state-IsEarly observed r h = refl
target_state-IsEarly _ (AuthenticationResult.authenticated c) h = ground arith
target_state-IsEarly _ (AuthenticationResult.rejected c) h = ground arith

write_authentication_cases :
    (now : String) (cmd : AuthenticationCommand) (row : TurnRow) (db db' : Ledger)
    (a : AuthenticationOutcome) (c : Claims)
    → write_authentication now cmd row db c ≡ commit a db'
    → (db' ≡ db)
      ⊎ ((owner : Option String) × (conversation : Option String) × (c ≡ claims owner conversation)
          × (db'.turns
              ≡ (write_turn
                  (authenticated_row cmd row owner conversation)
                  row.turn_revision
                  now
                  db.turns).1)
          × (db'.counters ≡ db.counters))
unfolding write_authentication
write_authentication_cases now cmd row db db' a (refused reason) h = ground arith
write_authentication_cases now cmd row db db' a (claims owner conversation) h =
    elim (Bool-cases (is_safe_integer (row.turn_revision + 1))) [
      | inl small ↦ inr (owner, conversation, refl, ground arith, ground arith)
      | inr large ↦ inl (ground arith)
    ]

authenticate_row_cases :
    (now : String) (cmd : AuthenticationCommand) (row : TurnRow) (db db' : Ledger)
    (a : AuthenticationOutcome)
    → authenticate_row now cmd row db ≡ commit a db'
    → (db' ≡ db)
      ⊎ ((can_transition row.state (target_state cmd.outcome) ≡ true)
          × (write_authentication now cmd row db (claims_of cmd row cmd.outcome) ≡ commit a db'))
unfolding authenticate_row
authenticate_row_cases now cmd row db db' a h = ground arith

module _ (cfg : QueueConfig) (db : Ledger) (d : IsDistinct db.turns)
    (early : All (λ r. IsEarly r.state → r.conversation_sequence ≡ none) db.turns) where
  authenticate_row-Step :
      (now : String) (cmd : AuthenticationCommand) (row : TurnRow) (a : AuthenticationOutcome)
      (db' : Ledger)
      → load_turn cmd.turn_id db.turns ≡ some row
      → authenticate_row now cmd row db ≡ commit a db'
      → Step cfg db db'
  authenticate_row-Step now cmd row a db' found h =
      elim (authenticate_row_cases now cmd row db db' a h) [
        | inl same ↦ stay same
        | inr (legal, w) ↦ elim (write_authentication_cases now cmd row db db' a _ w) [
          | inl same ↦ stay same
          | inr (owner, conversation, _, written, counters) ↦
              let observed_first = target_state-IsEarly row.state cmd.outcome legal in
              let sequence =
                All-load_turn _ cmd.turn_id db.turns found early (inl observed_first) in
              revise_written db db' now d cmd.turn_id row
                (authenticated_row cmd row owner conversation) found refl written
                (record {
                  same_turn = refl;
                  same_key = refl;
                  next = refl;
                  moved = inr legal;
                  keeps_delivered = λ p. p;
                  keeps_unknown = λ p. p;
                  keeps_llm = λ p. refl;
                })
                refl (inl sequence) counters
        ]
      ]

  authentication_body-Step :
      (now : String) (cmd : AuthenticationCommand) (a : AuthenticationOutcome) (db' : Ledger)
      → authentication_body now cmd db ≡ commit a db'
      → Step cfg db db'
  unfolding authentication_body
  authentication_body-Step now cmd a db' h = elim (Option-cases (load_turn cmd.turn_id db.turns)) [
    | inl missing ↦ stay (ground arith)
    | inr (row, found) ↦
        authenticate_row-Step now cmd row a db' found (rw (found, authentication_body) at h)
  ]

  -- Recording an authentication result leaves the ledger alone or revises one turn.
  pub record_authentication_result-Step :
      (env : Env) (cmd : AuthenticationCommand)
      → Step cfg db (record_authentication_result env cmd db).1
  unfolding record_authentication_result
  record_authentication_result-Step env cmd =
      port_method_cases (Step cfg db) db (stay refl) env _ _ _
        (authentication_body-Step env.now cmd)
