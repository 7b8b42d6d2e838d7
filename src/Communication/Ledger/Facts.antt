-- ===== src/Communication/Ledger/Facts.antt =====
-- transition and recordFactualOutcome.
pub mod Steps
use open_claw_bot_neo.Prelude.{
  ℕ, ◌+◌, Bool, true, false, not, ◌&&◌, ◌||◌, Option, none, some, ◌∷◌, String, String_eq, ℕ_eq,
  Option_eq, ◌==◌, if◌then◌else◌, is_none, is_safe_integer,
}
use open_claw_bot_neo.Communication.Turn.{
  TurnState, TurnState_eq, DeliveryStatus, DeliveryStatus_eq, CheckpointStatus, CheckpointStatus_eq,
  AuditStartStatus, AuditStartStatus_eq, AuditCompletionStatus, AuditCompletionStatus_eq,
  LlmOutcome, LlmOutcome_eq, can_transition,
}
use open_claw_bot_neo.Communication.Transaction.{
  Fault, busy, broken, Env, Tx, commit, throw, Reply, port_method,
}
use open_claw_bot_neo.Communication.Ledger.Rows.{TurnRow, HistoryRow, Ledger, load_turn, write_turn}
use open_claw_bot_neo.Communication.Ledger.Admission.{ledger_closed}

pub record TransitionCommand : Type 0 where
  pub turn_id : String
  pub correlation_id : String
  pub expected_state : TurnState
  pub expected_revision : ℕ
  pub target_state : TurnState

pub data TransitionOutcome : Type 0 where
  transitioned : (turn_revision : ℕ) → TransitionOutcome
  already_transitioned stale_revision : TransitionOutcome
  illegal_transition : (from to : TurnState) → TransitionOutcome
  unavailable concurrency_conflict : String → TransitionOutcome

abbrev pub moved_row : TransitionCommand → TurnRow → TurnRow
moved_row cmd row = record row {
  state = cmd.target_state;
  turn_revision = row.turn_revision + 1;
  correlation_id = some cmd.correlation_id;
}

-- writeTurn, and `asRevision`, which throws on overflow.
write_transition : String → TransitionCommand → TurnRow → Ledger → Tx TransitionOutcome Ledger
write_transition now cmd row db =
    let (written, turns) = write_turn (moved_row cmd row) row.turn_revision now db.turns in
    if not written
    then commit stale_revision (record db { turns = turns })
    else if not (is_safe_integer (row.turn_revision + 1))
    then throw
    else commit (transitioned (row.turn_revision + 1)) (record db { turns = turns })

transition_row : String → TransitionCommand → TurnRow → Ledger → Tx TransitionOutcome Ledger
unfolding write_transition
transition_row now cmd row db =
    if not (is_safe_integer row.turn_revision)
    then commit (unavailable "Malformed turn revision.") db
    else if row.state == cmd.target_state
    then commit already_transitioned db
    else if not (row.turn_revision == cmd.expected_revision)
    then commit stale_revision db
    else if not (row.state == cmd.expected_state)
    then commit (illegal_transition row.state cmd.target_state) db
    else if not (can_transition row.state cmd.target_state)
    then commit (illegal_transition row.state cmd.target_state) db
    else write_transition now cmd row db

unfoldable pub transition_body : String → TransitionCommand → Ledger → Tx TransitionOutcome Ledger
unfolding transition_row
transition_body now cmd db = elim (load_turn cmd.turn_id db.turns) [
  | none ↦ commit (unavailable "Turn not found.") db
  | some row ↦ transition_row now cmd row db
]

transition_caught : Fault → TransitionOutcome
transition_caught busy = concurrency_conflict "SQLite database is busy or locked."
transition_caught broken = unavailable "Turn transition failed."

unfoldable pub transition : Env → TransitionCommand → Ledger → Reply TransitionOutcome × Ledger
unfolding transition_body transition_caught
transition env cmd db =
    port_method env ledger_closed transition_caught db (transition_body env.now cmd db)

pub record FactsCommand : Type 0 where
  pub turn_id : String
  pub correlation_id : String
  pub expected_revision : ℕ
  pub llm_outcome : Option LlmOutcome
  pub delivery_status : DeliveryStatus
  pub checkpoint_status : CheckpointStatus
  pub audit_start : AuditStartStatus
  pub audit_completion : AuditCompletionStatus
  pub error_code : Option String

pub data FactsOutcome : Type 0 where
  recorded : (turn_revision : ℕ) → FactsOutcome
  already_recorded stale_revision : FactsOutcome
  fact_rewrite_denied : String → FactsOutcome
  unavailable concurrency_conflict : String → FactsOutcome

-- The two tests on the LLM outcome: a stored one is neither replaced nor cleared.
llm_rewrite : Option LlmOutcome → Option LlmOutcome → Option String
llm_rewrite none new = none
llm_rewrite (some old) none = some "LLM outcome fact cannot be cleared."
llm_rewrite (some old) (some new) =
    if old == new then none else some "LLM outcome fact is immutable once set."

-- The reason for which a rewrite is denied, if any, in the order of the tests.
fact_rewrite : FactsCommand → TurnRow → Option String
unfolding llm_rewrite
fact_rewrite cmd row =
    if row.delivery_status == DeliveryStatus.delivered
      && not (cmd.delivery_status == DeliveryStatus.delivered)
    then some "Delivered delivery status is immutable."
    else if row.delivery_status == DeliveryStatus.outcome_unknown
        && not (cmd.delivery_status == DeliveryStatus.outcome_unknown)
    then some "Delivery outcome unknown is immutable."
    else llm_rewrite row.llm_outcome cmd.llm_outcome

same_facts : FactsCommand → TurnRow → Bool
same_facts cmd row =
    row.llm_outcome == cmd.llm_outcome
    && row.delivery_status == cmd.delivery_status
    && row.checkpoint_status == cmd.checkpoint_status
    && row.audit_start_status == cmd.audit_start
    && row.audit_completion_status == cmd.audit_completion
    && row.error_code == cmd.error_code

-- `command.llmOutcome ?? row.llm_outcome`
abbrev either_outcome : Option LlmOutcome → Option LlmOutcome → Option LlmOutcome
either_outcome none old = old
either_outcome (some new) old = some new

abbrev pub facts_row : FactsCommand → TurnRow → TurnRow
facts_row cmd row = record row {
  turn_revision = row.turn_revision + 1;
  correlation_id = some cmd.correlation_id;
  llm_outcome = either_outcome cmd.llm_outcome row.llm_outcome;
  delivery_status = cmd.delivery_status;
  checkpoint_status = cmd.checkpoint_status;
  audit_start_status = cmd.audit_start;
  audit_completion_status = cmd.audit_completion;
  error_code = cmd.error_code;
}

-- insertHistory's VALUES
abbrev history_of : String → TurnRow → HistoryRow
history_of at r = record {
  turn_id = r.turn_id;
  recorded_at = at;
  llm_outcome = r.llm_outcome;
  delivery_status = r.delivery_status;
  checkpoint_status = r.checkpoint_status;
  audit_start_status = r.audit_start_status;
  audit_completion_status = r.audit_completion_status;
  error_code = r.error_code;
  turn_revision = r.turn_revision;
}

write_facts : String → FactsCommand → TurnRow → Ledger → Tx FactsOutcome Ledger
write_facts now cmd row db =
    let (written, turns) = write_turn (facts_row cmd row) row.turn_revision now db.turns in
    if not written
    then commit stale_revision (record db { turns = turns })
    else if not (is_safe_integer (row.turn_revision + 1))
    then throw
    else commit (recorded (row.turn_revision + 1))
        (record db { turns = turns; history = history_of now (facts_row cmd row) ∷ db.history })

facts_row_body : String → FactsCommand → TurnRow → Ledger → Tx FactsOutcome Ledger
unfolding write_facts fact_rewrite same_facts
facts_row_body now cmd row db =
    if not (is_safe_integer row.turn_revision)
    then commit (unavailable "Malformed turn revision.") db
    else if not (row.turn_revision == cmd.expected_revision)
    then commit stale_revision db
    else elim (fact_rewrite cmd row) [
      | some reason ↦ commit (fact_rewrite_denied reason) db
      | none ↦ if same_facts cmd row then commit already_recorded db else write_facts now cmd row db
    ]

unfoldable pub facts_body : String → FactsCommand → Ledger → Tx FactsOutcome Ledger
unfolding facts_row_body
facts_body now cmd db = elim (load_turn cmd.turn_id db.turns) [
  | none ↦ commit (unavailable "Turn not found.") db
  | some row ↦ facts_row_body now cmd row db
]

facts_caught : Fault → FactsOutcome
facts_caught busy = concurrency_conflict "SQLite database is busy or locked."
facts_caught broken = unavailable "Factual outcome persistence failed."

unfoldable pub record_factual_outcome : Env → FactsCommand → Ledger → Reply FactsOutcome × Ledger
unfolding facts_body facts_caught
record_factual_outcome env cmd db =
    port_method env ledger_closed facts_caught db (facts_body env.now cmd db)
