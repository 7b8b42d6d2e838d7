-- ===== src/Communication/Recovery.antt =====
-- src/core/communication/application/recover-communication-turns.service.ts, the calls of the ports:
-- what recovery asks of the ledger, the outbox, the conversation state and the audit, in order, and
-- what it takes for success (src/core/communication/application/phases/phase-outcomes.ts, and
-- recordDurableCheckpointBarrier of unknown-terminalization.ts). A port answers by what was asked
-- before. Reasons, keys, times and the error codes that facts carry are left out.
pub mod Recover
use open_claw_bot_neo.Prelude.{
  ℕ, zero, suc, Bool, true, false, ◌||◌, not, String, Option, none, some, List, [], ◌∷◌,
  if◌then◌else◌,
}
use open_claw_bot_neo.Communication.Turn.{
  TurnState, cancelled, completed, DeliveryStatus, CheckpointStatus, AuditStartStatus,
  AuditCompletionStatus, LlmOutcome,
}

pub data ErrorCode : Type 0 where
  recovery_context_unavailable ledger_unavailable outbox_unavailable conversation_state_unavailable
        conversation_checkpoint_failed audit_completion_failed config_invalid port_failed :
      ErrorCode

-- ConversationCheckpointBarrierReason, as far as recovery gives it
pub data BarrierReason : Type 0 where
  llm_outcome_unknown delivery_outcome_unknown recovery_context_unavailable_after_delivery
        checkpoint_failed :
      BarrierReason

-- What the ports answer; a Result that is an error is `port_error`.
pub data TransitionReply : Type 0 where
  transitioned : ℕ → TransitionReply
  already_transitioned stale_revision illegal_transition unavailable concurrency_conflict
        port_error :
      TransitionReply

pub data FactualReply : Type 0 where
  recorded : ℕ → FactualReply
  already_recorded stale_revision fact_rewrite_denied unavailable concurrency_conflict port_error :
      FactualReply

pub data RecordReply : Type 0 where
  recorded already_recorded unavailable rejected port_error : RecordReply

pub data DeliveryReply : Type 0 where
  delivered known_failure outcome_unknown not_recorded not_found unavailable port_error :
      DeliveryReply

-- A snapshot that is found has its checkpoint's status, whether it is degraded, and its revision.
pub data LoadReply : Type 0 where
  found : CheckpointStatus → (is_degraded : Bool) → ℕ → LoadReply
  not_found unavailable port_error : LoadReply

pub data BarrierReply : Type 0 where
  recorded already_recorded stale_revision unavailable port_error : BarrierReply

-- The statuses of a factual outcome
pub record Fact : Type 0 where
  pub llm_outcome : Option LlmOutcome
  pub delivery_status : DeliveryStatus
  pub checkpoint_status : CheckpointStatus
  pub audit_start : AuditStartStatus
  pub audit_completion : AuditCompletionStatus

-- CommunicationRecoveryCandidate
pub record Candidate : Type 0 where
  pub turn_id : String
  pub correlation_id : Option String
  pub owner_id : Option String
  pub conversation_id : Option String
  pub llm_outcome : Option LlmOutcome
  pub state : TurnState
  pub turn_revision : ℕ
  pub checkpoint_status : CheckpointStatus
  pub audit_start : AuditStartStatus
  pub audit_completion : AuditCompletionStatus

pub data ListReply : Type 0 where
  candidates : List Candidate → ListReply
  unavailable port_error : ListReply

-- What recovery has asked, with the answer that its course depends on.
pub data Action : Type 0 where
  asked_transition : String → (revision : ℕ) (from to : TurnState) → Action
  recorded_fact : String → (revision : ℕ) → Fact → Action
  read_outcome : String → Action
  recorded_unknown : String → Action
  loaded : Candidate → Action
  asked_barrier : String → BarrierReason → (revision : ℕ) → BarrierReply → Action
  audited : String → DeliveryStatus → CheckpointStatus → AuditCompletionStatus → Action
  listed : Action

abbrev pub Log : Type 0
Log = List Action

-- The ports, by what was asked before, the latest first; and whether a correlation can be made.
pub record Ports : Type 0 where
  pub correlates : String → Option String → Bool
  pub transition : Log → String → ℕ → TurnState → TurnState → TransitionReply
  pub record_factual_outcome : Log → String → ℕ → Fact → FactualReply
  pub read_delivery_outcome : Log → String → DeliveryReply
  pub record_delivery_outcome : Log → String → RecordReply
  pub load : Log → Candidate → LoadReply
  pub record_checkpoint_barrier : Log → String → BarrierReason → ℕ → BarrierReply
  pub record_completion :
      Log → String → DeliveryStatus → CheckpointStatus → AuditCompletionStatus → RecordReply
  pub list_recovery_candidates : Log → ListReply

pub data Recovered (A : Type 0) : Type 0 where
  ok : A → Recovered A
  err : ErrorCode → Recovered A

-- A part of recovery: its result, and all that was asked.
abbrev pub Ran : Type 0 → Type 0
Ran A = Recovered A × Log

abbrev pub and_then : {A B : Type 0} → Ran A → (A → Log → Ran B) → Ran B
and_then (ok a, log) f = f a log
and_then (err e, log) f = (err e, log)

-- requireTransitionSuccess
unfoldable pub require_transition_success : TransitionReply → ℕ → Recovered ℕ
require_transition_success (transitioned revision) expected = ok revision
require_transition_success already_transitioned expected = ok expected
require_transition_success TransitionReply.port_error expected = err port_failed
require_transition_success _ expected = err ledger_unavailable

-- requireFactualSuccess
unfoldable pub require_factual_success : FactualReply → ℕ → Recovered ℕ
require_factual_success (FactualReply.recorded revision) expected = ok revision
require_factual_success FactualReply.already_recorded expected = ok expected
require_factual_success FactualReply.port_error expected = err port_failed
require_factual_success _ expected = err ledger_unavailable

-- requireAuditSuccess and requireOutboxRecordSuccess, by the code of their failures
unfoldable pub require_record_success : ErrorCode → RecordReply → Recovered (Unit {0})
require_record_success code RecordReply.recorded = ok tt
require_record_success code RecordReply.already_recorded = ok tt
require_record_success code RecordReply.port_error = err port_failed
require_record_success code _ = err code

abbrev pub has_context : Option String → Option String → Bool
has_context (some owner) (some conversation) = true
has_context _ _ = false

abbrev pub barrier_cas_attempts : ℕ
barrier_cas_attempts = 3

module _ (p : Ports) where
  -- recoveryCorrelation
  unfoldable pub recovery_correlation : Candidate → Log → Ran (Unit {0})
  recovery_correlation c log =
      if p.correlates c.turn_id c.correlation_id
      then (ok tt, log)
      else (err recovery_context_unavailable, log)

  -- transitionTo
  unfoldable pub transition_to : String → ℕ → TurnState → TurnState → Log → Ran ℕ
  transition_to turn revision from to log = (
    require_transition_success (p.transition log turn revision from to) revision,
    asked_transition turn revision from to ∷ log,
  )

  unfoldable pub record_fact : String → ℕ → Fact → Log → Ran ℕ
  record_fact turn revision fact log = (
    require_factual_success (p.record_factual_outcome log turn revision fact) revision,
    recorded_fact turn revision fact ∷ log,
  )

  -- The end of a turn by a transition whose revision nothing reads
  unfoldable pub complete_from : String → ℕ → TurnState → Log → Ran (Unit {0})
  complete_from turn revision from log =
      and_then (transition_to turn revision from completed log) (λ r after. (ok tt, after))

  -- The revision that a barrier is recorded against
  abbrev pub barrier_revision : LoadReply → Option ℕ
  barrier_revision (found status is_degraded revision) = some revision
  barrier_revision LoadReply.not_found = some 0
  barrier_revision _ = none

  -- What follows the answer to a barrier: another attempt, on a stale revision
  abbrev pub after_barrier : BarrierReply → Log → (Log → Ran (Unit {0})) → Ran (Unit {0})
  after_barrier BarrierReply.recorded log again = (ok tt, log)
  after_barrier BarrierReply.already_recorded log again = (ok tt, log)
  after_barrier BarrierReply.stale_revision log again = again log
  after_barrier _ log again = (err conversation_checkpoint_failed, log)

  abbrev pub barrier_at :
      Option ℕ → Candidate → BarrierReason → Log → (Log → Ran (Unit {0})) → Ran (Unit {0})
  barrier_at none c reason log again = (err conversation_checkpoint_failed, log)
  barrier_at (some revision) c reason log again =
      let reply = p.record_checkpoint_barrier log c.turn_id reason revision in
      after_barrier reply (asked_barrier c.turn_id reason revision reply ∷ log) again

  -- recordDurableCheckpointBarrier, with the attempts that are left
  unfoldable pub record_barrier : (attempts : ℕ) → Candidate → BarrierReason → Log → Ran (Unit {0})
  record_barrier zero c reason log = (err conversation_checkpoint_failed, log)
  record_barrier (suc attempts) c reason log =
      barrier_at (barrier_revision (p.load log c)) c reason (loaded c ∷ log)
        (record_barrier attempts c reason)

  -- requireBarrier
  unfoldable pub require_barrier : Candidate → BarrierReason → Log → Ran (Unit {0})
  require_barrier c reason log =
      if has_context c.owner_id c.conversation_id
      then record_barrier barrier_cas_attempts c reason log
      else (err recovery_context_unavailable, log)
