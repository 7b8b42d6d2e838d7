-- ===== src/Communication/Turn.antt =====
-- src/core/communication/domain/communication-turn.ts and llm-completion.ts: the states of a turn,
-- its legal transitions and its orthogonal statuses.
pub mod Progress
pub mod Moves
pub mod Config
pub mod Outcomes
use open_claw_bot_neo.Prelude.{
  ℕ, Bool, true, false, ◌||◌, List, [], ◌∷◌, Eq, ◌==◌, includes, leb, if◌then◌else◌, ◌&&◌,
}

pub data TurnState : Type 0 where
  observed authentication_rejected authenticated accepted queued llm_started llm_known_failed
        deterministic_notice_prepared llm_completed output_validated delivery_started delivered
        delivery_failed delivery_outcome_unknown cancelled completed :
      TurnState

unfoldable pub TurnState-discrete : Discrete TurnState
TurnState-discrete = hlevel

instance abbrev pub TurnState_eq : Eq TurnState
TurnState_eq = record { decides = TurnState-discrete }

pub data DeliveryStatus : Type 0 where
  not_started started delivered failed outcome_unknown : DeliveryStatus

unfoldable pub DeliveryStatus-discrete : Discrete DeliveryStatus
DeliveryStatus-discrete = hlevel

instance abbrev pub DeliveryStatus_eq : Eq DeliveryStatus
DeliveryStatus_eq = record { decides = DeliveryStatus-discrete }

pub data CheckpointStatus : Type 0 where
  not_required pending succeeded failed : CheckpointStatus

unfoldable pub CheckpointStatus-discrete : Discrete CheckpointStatus
CheckpointStatus-discrete = hlevel

instance abbrev pub CheckpointStatus_eq : Eq CheckpointStatus
CheckpointStatus_eq = record { decides = CheckpointStatus-discrete }

pub data AuditStartStatus : Type 0 where
  pending succeeded failed : AuditStartStatus

unfoldable pub AuditStartStatus-discrete : Discrete AuditStartStatus
AuditStartStatus-discrete = hlevel

instance abbrev pub AuditStartStatus_eq : Eq AuditStartStatus
AuditStartStatus_eq = record { decides = AuditStartStatus-discrete }

pub data AuditCompletionStatus : Type 0 where
  not_started pending succeeded failed : AuditCompletionStatus

unfoldable pub AuditCompletionStatus-discrete : Discrete AuditCompletionStatus
AuditCompletionStatus-discrete = hlevel

instance abbrev pub AuditCompletionStatus_eq : Eq AuditCompletionStatus
AuditCompletionStatus_eq = record { decides = AuditCompletionStatus-discrete }

-- LEGAL_TRANSITIONS
unfoldable pub legal_transitions : TurnState → List TurnState
legal_transitions observed = authenticated ∷ authentication_rejected ∷ cancelled ∷ []
legal_transitions authentication_rejected = completed ∷ []
legal_transitions authenticated = accepted ∷ cancelled ∷ []
legal_transitions accepted = queued ∷ cancelled ∷ []
legal_transitions queued = llm_started ∷ cancelled ∷ []
legal_transitions llm_started = llm_completed ∷ llm_known_failed ∷ cancelled ∷ []
legal_transitions llm_known_failed = deterministic_notice_prepared ∷ completed ∷ []
legal_transitions deterministic_notice_prepared = output_validated ∷ cancelled ∷ []
legal_transitions llm_completed = output_validated ∷ cancelled ∷ []
legal_transitions output_validated = delivery_started ∷ cancelled ∷ []
legal_transitions delivery_started =
    TurnState.delivered ∷ delivery_failed ∷ delivery_outcome_unknown ∷ []
legal_transitions TurnState.delivered = completed ∷ []
legal_transitions delivery_failed = completed ∷ []
legal_transitions delivery_outcome_unknown = completed ∷ []
legal_transitions cancelled = completed ∷ []
legal_transitions completed = []

-- canTransitionCommunicationTurnState
unfoldable pub can_transition : TurnState → TurnState → Bool
unfolding legal_transitions includes
can_transition from to = includes (legal_transitions from) to

-- LlmCompletionOutcome
pub data LlmOutcome : Type 0 where
  completed cancelled_before_invocation known_timeout provider_unavailable quota_unavailable
        policy_rejected invalid_response outcome_unknown :
      LlmOutcome

unfoldable pub LlmOutcome-discrete : Discrete LlmOutcome
LlmOutcome-discrete = hlevel

instance abbrev pub LlmOutcome_eq : Eq LlmOutcome
LlmOutcome_eq = record { decides = LlmOutcome-discrete }

-- CommunicationQueueConfig
pub record QueueConfig : Type 0 where
  pub max_depth_per_conversation : ℕ
  pub max_global_pending : ℕ
