-- ===== src/Communication/Ledger/Tests.antt =====
-- Runs of the ledger on concrete calls, and its theorems at such runs.
use open_claw_bot_neo.Prelude.{
  ◌+◌, ◌<◌, ◌≡◌, ◌≢◌, ◌↔◌, refl, true, none, some, List, [], ◌∷◌, String, String-discrete,
  ℕ_discrete, Option-discrete,
}
use open_claw_bot_neo.Communication.Turn.{
  QueueConfig, TurnState, authenticated, queued, TurnState-discrete, can_transition,
  DeliveryStatus-discrete, CheckpointStatus-discrete, AuditStartStatus-discrete,
  AuditCompletionStatus-discrete, LlmOutcome-discrete,
}
use open_claw_bot_neo.Communication.Transaction.{Env, ok}
use open_claw_bot_neo.Communication.Ledger.Rows.{
  TurnRow, Ledger, empty, load_turn, select_by_key, has_dedup, update_turn, changes, write_turn,
  select_sequence, upsert_sequence, is_active, is_active_in, count, observed_row,
}
use open_claw_bot_neo.Communication.Ledger.Admission.{
  ObserveCommand, AuthenticationCommand, AuthenticationResult, fresh_observed, duplicate_existing,
  observe_transport_event, record_authentication_result,
}
use open_claw_bot_neo.Communication.Ledger.Acceptance.{
  AcceptCommand, AcceptOutcome, accept_conversation_turn,
}
use open_claw_bot_neo.Communication.Ledger.Facts.{
  TransitionCommand, transitioned, transition, record_factual_outcome,
}
use open_claw_bot_neo.Communication.Ledger.Runs.{
  Call, observes, authenticates, accepts, transitions, run, Inv, empty-Inv, run-Inv,
}
use open_claw_bot_neo.Communication.Ledger.History.{Persists, run-Persists}
use open_claw_bot_neo.Communication.Ledger.Observation.{observe_once}
use open_claw_bot_neo.Communication.Ledger.Concurrency.{
  IsExpected, transition-transitioned_iff, transition_once,
}
use open_claw_bot_neo.Communication.Ledger.Fifo.{accept_in_order}

-- Everything that a test computes with.
ledger : Unit {0}
unfolding run load_turn select_by_key has_dedup update_turn changes write_turn select_sequence
    upsert_sequence is_active is_active_in count observe_transport_event
    record_authentication_result accept_conversation_turn transition record_factual_outcome
    can_transition String-discrete ℕ_discrete Option-discrete TurnState-discrete
    DeliveryStatus-discrete CheckpointStatus-discrete AuditStartStatus-discrete
    AuditCompletionStatus-discrete LlmOutcome-discrete
ledger = tt

abbrev cfg : QueueConfig
cfg = record { max_depth_per_conversation = 2; max_global_pending = 3 }

abbrev calm : Env
calm = record { is_open = true; fault = none; now = "2026-01-01T00:00:00.000Z" }

abbrev event : String → String → ObserveCommand
event key id = record {
  idempotency_key = key;
  transport_instance_id = "telegram";
  turn_id = id;
  observed_at = "2026-01-01T00:00:00.000Z";
}

abbrev login : String → AuthenticationCommand
login id = record {
  turn_id = id;
  expected_revision = 1;
  correlation_id = "c";
  outcome =
      AuthenticationResult.authenticated
        (some (record { turn_id = id; owner_id = "owner"; conversation_id = "chat" }));
}

abbrev admission : String → AcceptCommand
admission id = record { turn_id = id; expected_revision = 2; correlation_id = "c" }

abbrev to_queue : String → TransitionCommand
to_queue id = record {
  turn_id = id;
  correlation_id = "c";
  expected_state = TurnState.accepted;
  expected_revision = 3;
  target_state = queued;
}

abbrev two_logins : List (Env × Call)
two_logins =
    (calm, observes (event "k1" "t1"))
    ∷ (calm, authenticates (login "t1"))
    ∷ (calm, observes (event "k2" "t2"))
    ∷ (calm, authenticates (login "t2"))
    ∷ []

abbrev ready : Ledger
ready = run cfg two_logins empty

ready-Inv : Inv cfg ready
ready-Inv = run-Inv cfg two_logins empty (empty-Inv cfg)

accept_tests :
    ((accept_conversation_turn cfg calm (admission "t1") ready).0 ≡ ok (AcceptOutcome.accepted 1 3))
    × ((accept_conversation_turn cfg calm
          (admission "t2")
          (accept_conversation_turn cfg calm (admission "t1") ready).1).0
        ≡ ok (AcceptOutcome.accepted 2 3))
    × ((accept_conversation_turn cfg calm (admission "zz") ready).0
        ≡ ok (AcceptOutcome.unavailable "Turn not found."))
unfolding ledger
accept_tests = (refl, refl, refl)

run-Inv_example : Inv cfg (run cfg two_logins empty)
run-Inv_example = run-Inv cfg two_logins empty (empty-Inv cfg)

abbrev later_calls : List (Env × Call)
later_calls = (calm, accepts (admission "t1")) ∷ (calm, transitions (to_queue "t1")) ∷ []

abbrev t1_authenticated : TurnRow
t1_authenticated = record (observed_row "t1" "telegram" "k1" "2026-01-01T00:00:00.000Z") {
  state = authenticated;
  turn_revision = 2;
  owner_id = some "owner";
  conversation_id = some "chat";
  correlation_id = some "c";
}

t1_loaded : load_turn "t1" ready.turns ≡ some t1_authenticated
unfolding ledger
t1_loaded = refl

run-Persists_example : Persists "t1" t1_authenticated (run cfg later_calls ready).turns
run-Persists_example = run-Persists cfg "t1" later_calls ready t1_authenticated ready-Inv t1_loaded

abbrev first_event : Ledger
first_event = (observe_transport_event calm (event "k1" "t1") empty).1

fresh_test :
    (observe_transport_event calm (event "k1" "t1") empty).0
    ≡ ok (fresh_observed "t1" 1 (record { sealed_for = "t1" }))
unfolding ledger
fresh_test = refl

observe_once_example :
    (state : TurnState) × (observe_transport_event calm
        (event "k1" "t9")
        (run cfg ((calm, authenticates (login "t1")) ∷ []) first_event)
      ≡ (
        ok (duplicate_existing "t1" state),
        run cfg ((calm, authenticates (login "t1")) ∷ []) first_event,
      ))
observe_once_example =
    observe_once cfg calm calm (event "k1" "t1") (event "k1" "t9") empty
      ((calm, authenticates (login "t1")) ∷ []) "t1" 1 (record { sealed_for = "t1" })
      (empty-Inv cfg) fresh_test refl refl refl

abbrev accepted_once : Ledger
accepted_once = run cfg ((calm, accepts (admission "t1")) ∷ []) ready

accepted_once-Inv : Inv cfg accepted_once
accepted_once-Inv = run-Inv cfg ((calm, accepts (admission "t1")) ∷ []) ready ready-Inv

queued_test : (transition calm (to_queue "t1") accepted_once).0 ≡ ok (transitioned 4)
unfolding ledger
queued_test = refl

transition-transitioned_iff_example :
    ((transition calm (to_queue "t1") accepted_once).0 ≡ ok (transitioned 4))
    ↔ ((row : TurnRow) × IsExpected (to_queue "t1") accepted_once row × (4 ≡ row.turn_revision + 1))
transition-transitioned_iff_example =
    transition-transitioned_iff calm (to_queue "t1") accepted_once accepted_once-Inv.distinct refl
      refl 4

transition_once_example :
    (transition calm (to_queue "t1") (
      run cfg
        ((calm, accepts (admission "t2")) ∷ [])
        (transition calm (to_queue "t1") accepted_once).1)).0
    ≢ ok (transitioned 4)
transition_once_example =
    transition_once cfg calm calm (to_queue "t1") (to_queue "t1") accepted_once
      ((calm, accepts (admission "t2")) ∷ []) 4 4 accepted_once-Inv queued_test refl refl

abbrev t2_authenticated : TurnRow
t2_authenticated = record (observed_row "t2" "telegram" "k2" "2026-01-01T00:00:00.000Z") {
  state = authenticated;
  turn_revision = 2;
  owner_id = some "owner";
  conversation_id = some "chat";
  correlation_id = some "c";
}

t2_loaded :
    load_turn "t2"
      (run cfg
        ((calm, transitions (to_queue "t1")) ∷ [])
        (accept_conversation_turn cfg calm (admission "t1") ready).1).turns
    ≡ some t2_authenticated
unfolding ledger
t2_loaded = refl

second_accepted :
    (accept_conversation_turn cfg calm (admission "t2") (
      run cfg
        ((calm, transitions (to_queue "t1")) ∷ [])
        (accept_conversation_turn cfg calm (admission "t1") ready).1)).0
    ≡ ok (AcceptOutcome.accepted 2 3)
unfolding ledger
second_accepted = refl

accept_in_order_example : 1 < 2
accept_in_order_example =
    accept_in_order cfg calm calm (admission "t1") (admission "t2") ready
      ((calm, transitions (to_queue "t1")) ∷ []) 1 3 2 3 t1_authenticated t2_authenticated "owner"
      "chat" ready-Inv accept_tests.0 t1_loaded refl refl t2_loaded refl refl second_accepted
