-- ===== src/Communication/Ledger/Admission.antt =====
-- observeTransportEvent and recordAuthenticationResult.
pub mod Steps
use open_claw_bot_neo.Prelude.{
  ℕ, ◌+◌, Bool, true, false, not, ◌&&◌, ◌||◌, Option, none, some, List, [], ◌∷◌, String, String_eq,
  ℕ_eq, ◌==◌, if◌then◌else◌, is_none, ltb, leb, is_safe_integer, or_else,
}
use open_claw_bot_neo.Communication.Turn.{
  TurnState, TurnState_eq, authentication_rejected, can_transition,
}
use open_claw_bot_neo.Communication.Transaction.{
  Fault, busy, broken, Env, Tx, commit, throw, Reply, port_method,
}
use open_claw_bot_neo.Communication.Ledger.Rows.{
  TurnRow, Ledger, load_turn, select_by_key, has_dedup, observed_row, write_turn, select_sequence,
  upsert_sequence, is_active, is_active_in, count,
}

-- FreshObservedAdmissionEvidence, which is sealed for one turn.
pub record AdmissionEvidence : Type 0 where
  pub sealed_for : String

pub record ObserveCommand : Type 0 where
  pub idempotency_key : String
  pub transport_instance_id : String
  pub turn_id : String
  pub observed_at : String

pub data ObserveOutcome : Type 0 where
  fresh_observed : (turn_id : String) (turn_revision : ℕ) → AdmissionEvidence → ObserveOutcome
  duplicate_existing : (turn_id : String) → TurnState → ObserveOutcome
  unavailable concurrency_conflict : String → ObserveOutcome

duplicate_of : Option TurnRow → Ledger → Tx ObserveOutcome Ledger
duplicate_of none db = throw
duplicate_of (some dup) db = commit (duplicate_existing dup.turn_id dup.state) db

-- insertTurn, insertDedup and the catch clause of their constraints.
insert_observed : ObserveCommand → Ledger → Tx ObserveOutcome Ledger
unfolding duplicate_of
insert_observed cmd db =
    if not (is_none (load_turn cmd.turn_id db.turns))
    then duplicate_of (select_by_key cmd.idempotency_key db.turns) db
    else if has_dedup cmd.idempotency_key db.dedup
    then duplicate_of (select_by_key cmd.idempotency_key (row ∷ db.turns))
        (record db { turns = row ∷ db.turns })
    else commit (fresh_observed cmd.turn_id 1 (record { sealed_for = cmd.turn_id })) (record db {
      turns = row ∷ db.turns;
      dedup =
          record {
            idempotency_key = cmd.idempotency_key;
            turn_id = cmd.turn_id;
            created_at = cmd.observed_at;
          }
          ∷ db.dedup;
    })
  where
    row : TurnRow
    row = observed_row cmd.turn_id cmd.transport_instance_id cmd.idempotency_key cmd.observed_at

observe_body : ObserveCommand → Ledger → Tx ObserveOutcome Ledger
unfolding insert_observed duplicate_of
observe_body cmd db = elim (select_by_key cmd.idempotency_key db.turns) [
  | some existing ↦ commit (duplicate_existing existing.turn_id existing.state) db
  | none ↦ insert_observed cmd db
]

observe_caught : Fault → ObserveOutcome
observe_caught busy = concurrency_conflict "SQLite database is busy or locked."
observe_caught broken = unavailable "Turn ledger observe failed."

abbrev pub ledger_closed : String
ledger_closed = "LEDGER_UNAVAILABLE"

unfoldable pub observe_transport_event :
    Env → ObserveCommand → Ledger → Reply ObserveOutcome × Ledger
unfolding observe_body observe_caught
observe_transport_event env cmd db =
    port_method env ledger_closed observe_caught db (observe_body cmd db)

-- InjectedPrincipalClaims
pub record PrincipalClaims : Type 0 where
  pub turn_id : String
  pub owner_id : String
  pub conversation_id : String

-- The principal of an authenticated outcome is what `readPrincipalClaims` makes of it.
pub data AuthenticationResult : Type 0 where
  authenticated : Option PrincipalClaims → AuthenticationResult
  rejected : String → AuthenticationResult

pub record AuthenticationCommand : Type 0 where
  pub turn_id : String
  pub expected_revision : ℕ
  pub correlation_id : String
  pub outcome : AuthenticationResult

pub data AuthenticationOutcome : Type 0 where
  recorded : ℕ → AuthenticationOutcome
  already_recorded stale_revision : AuthenticationOutcome
  illegal_transition : (from to : TurnState) → AuthenticationOutcome
  unavailable concurrency_conflict : String → AuthenticationOutcome

abbrev pub target_state : AuthenticationResult → TurnState
target_state (authenticated claims) = TurnState.authenticated
target_state (rejected reason) = authentication_rejected

-- `ownerId` and `conversationId`, or the reason for which the claims are not stored.
pub data Claims : Type 0 where
  claims : (owner_id conversation_id : Option String) → Claims
  refused : String → Claims

claims_of : AuthenticationCommand → TurnRow → AuthenticationResult → Claims
claims_of cmd row (authenticated none) = refused "Principal claims are not durable."
claims_of cmd row (authenticated (some c)) =
    if not (c.turn_id == cmd.turn_id)
    then refused "Principal turn binding mismatch."
    else claims (some c.owner_id) (some c.conversation_id)
claims_of cmd row (rejected reason) = claims row.owner_id row.conversation_id

abbrev pub authenticated_row :
    AuthenticationCommand → TurnRow → (owner_id conversation_id : Option String) → TurnRow
authenticated_row cmd row owner_id conversation_id = record row {
  state = target_state cmd.outcome;
  turn_revision = row.turn_revision + 1;
  owner_id = owner_id;
  conversation_id = conversation_id;
  correlation_id = some cmd.correlation_id;
}

write_authentication :
    String → AuthenticationCommand → TurnRow → Ledger → Claims → Tx AuthenticationOutcome Ledger
write_authentication now cmd row db (refused reason) = commit (unavailable reason) db
write_authentication now cmd row db (claims owner_id conversation_id) =
    let (written, turns) =
      write_turn (authenticated_row cmd row owner_id conversation_id) row.turn_revision now
        db.turns in
    if not (is_safe_integer (row.turn_revision + 1))
    then commit (unavailable "Turn revision overflow.") db
    else commit (if written then recorded (row.turn_revision + 1) else stale_revision)
        (record db { turns = turns })

authenticate_row :
    String → AuthenticationCommand → TurnRow → Ledger → Tx AuthenticationOutcome Ledger
unfolding write_authentication claims_of
authenticate_row now cmd row db =
    if not (is_safe_integer row.turn_revision)
    then commit (unavailable "Malformed turn revision.") db
    else if not (row.turn_revision == cmd.expected_revision)
    then commit stale_revision db
    else if row.state == target_state cmd.outcome
    then commit already_recorded db
    else if not (can_transition row.state (target_state cmd.outcome))
    then commit (illegal_transition row.state (target_state cmd.outcome)) db
    else write_authentication now cmd row db (claims_of cmd row cmd.outcome)

authentication_body : String → AuthenticationCommand → Ledger → Tx AuthenticationOutcome Ledger
unfolding authenticate_row
authentication_body now cmd db = elim (load_turn cmd.turn_id db.turns) [
  | none ↦ commit (unavailable "Turn not found.") db
  | some row ↦ authenticate_row now cmd row db
]

authentication_caught : Fault → AuthenticationOutcome
authentication_caught busy = concurrency_conflict "SQLite database is busy or locked."
authentication_caught broken = unavailable "Authentication result persistence failed."

unfoldable pub record_authentication_result :
    Env → AuthenticationCommand → Ledger → Reply AuthenticationOutcome × Ledger
unfolding authentication_body authentication_caught
record_authentication_result env cmd db =
    port_method env ledger_closed authentication_caught db (authentication_body env.now cmd db)
