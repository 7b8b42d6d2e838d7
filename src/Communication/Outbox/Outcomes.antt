-- ===== src/Communication/Outbox/Outcomes.antt =====
-- recordDeliveryOutcome, readDeliveryOutcome, getReconciliationCandidate and reconcile of
-- sqlite-communication-delivery-outbox-port.ts.
use open_claw_bot_neo.Prelude.{
  Bool, false, not, ◌&&◌, ◌||◌, Option, none, some, List, [], ◌∷◌, String, String_eq, ◌==◌,
  if◌then◌else◌,
}
use open_claw_bot_neo.Communication.Transaction.{Fault, Tx, commit}
use open_claw_bot_neo.Communication.Outbox.{
  Entry, OutcomeRow, ReconcileRow, Tables, Env, Answer, ok, err, scrubbing, in_transaction,
  closed_code,
}

pub data OutcomeKind : Type 0 where
  delivered known_failure outcome_unknown : OutcomeKind

abbrev pub outcome_text : OutcomeKind → String
outcome_text delivered = "delivered"
outcome_text known_failure = "known-failure"
outcome_text outcome_unknown = "outcome-unknown"

pub record RecordCommand : Type 0 where
  pub turn_id : String
  pub correlation_id : String
  pub idempotency_key : String
  pub outcome : OutcomeKind

pub data RecordOutcome : Type 0 where
  recorded already_recorded unavailable : RecordOutcome

unfoldable pub select_outcome : String → String → List OutcomeRow → Option OutcomeRow
select_outcome turn correlation [] = none
select_outcome turn correlation (r ∷ rs) =
    if r.turn_id == turn && r.correlation_id == correlation
    then some r
    else select_outcome turn correlation rs

-- The three tests on an outcome that is there.
abbrev existing_outcome : RecordCommand → OutcomeRow → RecordOutcome
existing_outcome cmd r =
    if r.outcome == outcome_text cmd.outcome && r.idempotency_key == cmd.idempotency_key
    then already_recorded
    else if r.outcome == "outcome-unknown"
    then already_recorded
    else if r.outcome == outcome_text cmd.outcome
    then already_recorded
    else unavailable

abbrev pub new_outcome : String → RecordCommand → OutcomeRow
new_outcome now cmd = record {
  turn_id = cmd.turn_id;
  correlation_id = cmd.correlation_id;
  idempotency_key = cmd.idempotency_key;
  outcome = outcome_text cmd.outcome;
  recorded_at = now;
}

-- The insertion violates the key only where the selection would have found the row.
abbrev record_fresh : String → RecordCommand → Option OutcomeRow → Tables → Tx RecordOutcome Tables
record_fresh now cmd (some r) t = commit (existing_outcome cmd r) t
record_fresh now cmd none t =
    commit recorded (record t { outcomes = new_outcome now cmd ∷ t.outcomes })

unfoldable pub record_body : String → RecordCommand → Tables → Tx RecordOutcome Tables
record_body now cmd t =
    record_fresh now cmd (select_outcome cmd.turn_id cmd.correlation_id t.outcomes) t

abbrev record_caught : Fault → RecordOutcome
record_caught f = unavailable

-- recordDeliveryOutcome
unfoldable pub record_delivery_outcome :
    Env → RecordCommand → Tables → Answer RecordOutcome × Tables
record_delivery_outcome env cmd t =
    scrubbing env (in_transaction env record_caught (record_body env.now cmd)) t

pub data ReadOutcome : Type 0 where
  read : OutcomeKind → ReadOutcome
  not_recorded not_found unavailable : ReadOutcome

abbrev pub stored_kind : String → ReadOutcome
stored_kind outcome =
    if outcome == "delivered"
    then read delivered
    else if outcome == "known-failure"
    then read known_failure
    else if outcome == "outcome-unknown"
    then read outcome_unknown
    else ReadOutcome.unavailable

unfoldable pub has_any_entry : String → String → List Entry → Bool
has_any_entry turn correlation [] = false
has_any_entry turn correlation (e ∷ es) =
    (e.turn_id == turn && e.correlation_id == correlation) || has_any_entry turn correlation es

abbrev pub read_row : Option OutcomeRow → Bool → ReadOutcome
read_row (some r) has_entry = stored_kind r.outcome
read_row none has_entry = if has_entry then not_recorded else not_found

abbrev read_faulty : Option Fault → ReadOutcome → ReadOutcome
read_faulty none outcome = outcome
read_faulty (some f) outcome = ReadOutcome.unavailable

-- readDeliveryOutcome, which does not scrub
unfoldable pub read_delivery_outcome :
    Env → (turn_id correlation_id : String) → Tables → Answer ReadOutcome
read_delivery_outcome env turn correlation t =
    if not env.is_open
    then err closed_code
    else ok (
        read_faulty env.fault (
          read_row (select_outcome turn correlation t.outcomes)
            (has_any_entry turn correlation t.entries)))

pub data Candidate : Type 0 where
  candidate no_candidate unavailable : Candidate

abbrev pub is_unknown : Option OutcomeRow → Bool
is_unknown none = false
is_unknown (some r) = r.outcome == "outcome-unknown"

abbrev pub candidate_faulty : Option Fault → Bool → Candidate
candidate_faulty none unknown = if unknown then candidate else no_candidate
candidate_faulty (some f) unknown = Candidate.unavailable

-- getReconciliationCandidate
unfoldable pub get_reconciliation_candidate :
    Env → (turn_id correlation_id : String) → Tables → Answer Candidate × Tables
get_reconciliation_candidate env turn correlation t =
    scrubbing env
      (λ s. (
        ok (candidate_faulty env.fault (is_unknown (select_outcome turn correlation s.outcomes))),
        s,
      ))
      t

pub record ReconcileCommand : Type 0 where
  pub turn_id : String
  pub correlation_id : String
  pub idempotency_key : String

pub data ReconcileOutcome : Type 0 where
  reconciled already_reconciled not_eligible unavailable : ReconcileOutcome

unfoldable pub has_reconcile_key : String → List ReconcileRow → Bool
has_reconcile_key key [] = false
has_reconcile_key key (r ∷ rs) = r.idempotency_key == key || has_reconcile_key key rs

unfoldable pub has_reconcile_turn : String → String → List ReconcileRow → Bool
has_reconcile_turn turn correlation [] = false
has_reconcile_turn turn correlation (r ∷ rs) =
    (r.turn_id == turn && r.correlation_id == correlation) || has_reconcile_turn turn correlation rs

abbrev pub new_reconcile : String → ReconcileCommand → ReconcileRow
new_reconcile now cmd = record {
  idempotency_key = cmd.idempotency_key;
  turn_id = cmd.turn_id;
  correlation_id = cmd.correlation_id;
  created_at = now;
}

-- The insertion violates the key only where the first selection would have found the row.
unfoldable pub reconcile_body : String → ReconcileCommand → Tables → Tx ReconcileOutcome Tables
reconcile_body now cmd t =
    if has_reconcile_key cmd.idempotency_key t.reconciles
    then commit already_reconciled t
    else if has_reconcile_turn cmd.turn_id cmd.correlation_id t.reconciles
    then commit already_reconciled t
    else if not (is_unknown (select_outcome cmd.turn_id cmd.correlation_id t.outcomes))
    then commit not_eligible t
    else commit reconciled (record t { reconciles = new_reconcile now cmd ∷ t.reconciles })

abbrev reconcile_caught : Fault → ReconcileOutcome
reconcile_caught f = unavailable

-- reconcile
unfoldable pub reconcile : Env → ReconcileCommand → Tables → Answer ReconcileOutcome × Tables
reconcile env cmd t =
    scrubbing env (in_transaction env reconcile_caught (reconcile_body env.now cmd)) t
