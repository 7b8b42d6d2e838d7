-- ===== src/Connector/Invocation.antt =====
-- src/core/application/connector/tool-invocation-orchestrator.ts, the data of a call: the manifests and
-- connections that it reads (src/core/domain/connector/manifests.ts, connection.ts), what comes from
-- outside, what it changes, and its outcome. Reasons, which are texts for a reader, are left out.
pub mod Rules
pub mod Stages
pub mod Invoke
use open_claw_bot_neo.Prelude.{ℕ, Bool, Option, String, List}
use open_claw_bot_neo.Connector.Capabilities.{
  ToolCapability, ToolSideEffectClass, CancellationSupport,
}
use open_claw_bot_neo.Connector.Approval.{StoredRecord, Clock, Grant}
use open_claw_bot_neo.Connector.Json.{Number, JsonValue, JsonFields, Heap, Unknown}
use open_claw_bot_neo.Connector.Schema.{JsonSchema}

-- The fields of ToolManifest that a call reads.
pub record Tool : Type 0 where
  pub tool_id : String
  pub connector_id : String
  pub input_schema : JsonSchema
  pub output_schema : JsonSchema
  pub capability : ToolCapability
  pub side_effect_class : ToolSideEffectClass
  pub timeout_ms : ℕ
  pub needs_key : Bool
  pub cancellation_support : CancellationSupport
  pub needs_network : Bool
  pub needs_account : Bool

-- The fields of ConnectorManifest that a call reads.
pub record ConnectorManifest : Type 0 where
  pub connector_id : String
  pub declared_capabilities : List ToolCapability
  pub has_network : Bool
  pub is_per_connection : Bool

pub data ConnectionStatus : Type 0 where
  active suspended revoked : ConnectionStatus

-- AccountConnection, with the identifier of its secret reference and that reference's connector
pub record AccountConnection : Type 0 where
  pub connection_id : String
  pub connector_id : String
  pub status : ConnectionStatus
  pub allowed_capabilities : List ToolCapability
  pub secret_reference : Option (String × String)

-- ToolInvocationRequest; `input` is a value in the heap.
pub record Request : Type 0 where
  pub invocation_id : String
  pub tool_id : String
  pub connection_id : Option String
  pub heap : Heap
  pub input : Unknown
  pub approval_id : Option String
  pub approval_nonce : Option String
  pub idempotency_key : Option String
  pub timeout_override_ms : Option Number

pub data AuditKind : Type 0 where
  invocation_requested validation_result policy_decision approval_decision execution_started
        execution_finished invocation_completed :
      AuditKind

pub data AuditOutcome : Type 0 where
  allow_outcome deny_outcome require_approval_outcome success_outcome failure_outcome
        unknown_outcome :
      AuditOutcome

pub data ErrorCode : Type 0 where
  invalid_input tool_not_found connector_not_found connection_not_found capability_denied
        policy_denied approval_required approval_denied approval_expired secret_unavailable
        connector_unavailable timed_out cancelled rate_limited remote_error invalid_remote_response
        internal_error :
      ErrorCode

pub data ExecutionState : Type 0 where
  not_started started outcome_unknown completed : ExecutionState

-- SafeToolAuditEvent
pub record AuditEvent : Type 0 where
  pub kind : AuditKind
  pub invocation_id : String
  pub tool_id : String
  pub connector_id : String
  pub connection_id : Option String
  pub input_digest_prefix : Option String
  pub outcome : AuditOutcome
  pub error_code : Option ErrorCode

-- ConnectorExecuteRequest
pub record ExecuteRequest : Type 0 where
  pub tool : Tool
  pub input : JsonFields
  pub secret_handle : Option String
  pub idempotency_key : Option String
  pub connector_id : String
  pub invocation_label : String

pub data HealthStatus : Type 0 where
  healthy degraded unavailable : HealthStatus

pub data FailureCategory : Type 0 where
  no_failure timeout_failure remote_failure invalid_response cancelled_failure internal_failure :
      FailureCategory

-- ConnectorHealthSnapshot, without the identifiers that it is kept under
pub record HealthSnapshot : Type 0 where
  pub status : HealthStatus
  pub last_success_at : Option String
  pub last_failure_at : Option String
  pub failure_category : FailureCategory
  pub retry_after_ms : Option ℕ

-- What a call changes: the approvals, the health of each connector and connection, and, latest first,
-- the audit events, the secrets asked for and the requests that connectors were given to execute.
pub record World : Type 0 where
  pub approvals : List StoredRecord
  pub health : String → Option String → Option HealthSnapshot
  pub audits : List AuditEvent
  pub secrets : List (String × String)
  pub executions : List ExecuteRequest

pub data ConnectorErrorCode : Type 0 where
  connector_gone connector_timeout connector_cancelled connector_remote_error
        connector_invalid_output :
      ConnectorErrorCode

-- What `connector.execute` comes to: an output in its own heap, a failure with its
-- `executionOutcome`, or a rejected promise.
pub data Execution : Type 0 where
  returned : Heap → Unknown → Execution
  failed : ConnectorErrorCode → (execution_outcome : Unknown) → Execution
  threw : Execution

-- `signal.reason`: the text "timeout", or anything else
pub data AbortReason : Type 0 where
  by_timeout by_caller : AbortReason

-- How Promise.race ends: the signal came first, or the execution did, with the signal as it is then.
pub data Race : Type 0 where
  aborted_first : AbortReason → Race
  done_first : Execution → Option AbortReason → Race

-- The registries and ports, and what they answer during one call.
pub record Outside : Type 0 where
  pub get_tool : String → Option Tool
  pub get_manifest : String → Option ConnectorManifest
  pub get_connection : String → Option AccountConnection
  pub has_connector : String → Bool
  pub records_event : List AuditEvent → AuditEvent → Bool
  pub resolve_handle : String × String → Option String
  pub measure : JsonValue → Option ℕ
  pub digest : JsonFields → String
  pub actor_id : String
  pub candidates : List String
  pub nonce : String
  pub clock : Clock
  pub expires_at : String
  pub now_text : String
  pub is_aborted : Bool
  pub race : Number → ExecuteRequest → Race

pub data Outcome : Type 0 where
  success : JsonFields → Outcome
  approval_needed : Grant → Outcome
  failure : ErrorCode → ExecutionState → Outcome

-- A stage of the call ends it or goes on.
pub data Stage (A : Type 0) : Type 0 where
  stop : Outcome → Stage A
  go : A → Stage A
