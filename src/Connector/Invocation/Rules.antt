-- ===== src/Connector/Invocation/Rules.antt =====
-- The rules of a call without state: src/core/domain/connector/manifest-validation.ts,
-- validateToolAgainstConnector; src/connectors/sdk/connector.ts, parseConnectorLocalExecutionOutcome;
-- and the mappings of src/core/application/connector/tool-invocation-orchestrator.ts.
use open_claw_bot_neo.Prelude.{
  ℕ, Bool, true, false, not, ◌&&◌, ◌||◌, ◌==◌, String, String_eq, Option, none, some, if◌then◌else◌,
  includes, leb,
}
use open_claw_bot_neo.Connector.Capabilities.{
  ToolCapability_eq, ToolSideEffectClass, is_write_like_side_effect,
}
use open_claw_bot_neo.Connector.Json.{Number, is_finite, number_lt, whole, Unknown, string}
use open_claw_bot_neo.Connector.Approval.{ApprovalFailure, has_expired}
use open_claw_bot_neo.Connector.Invocation.{
  Tool, ConnectorManifest, ErrorCode, timed_out, cancelled, remote_error, invalid_remote_response,
  internal_error, connector_unavailable, approval_denied, approval_expired, ExecutionState,
  outcome_unknown, completed, HealthStatus, healthy, degraded, unavailable, FailureCategory,
  timeout_failure, remote_failure, invalid_response, cancelled_failure, HealthSnapshot,
  ConnectorErrorCode, connector_gone, connector_timeout, connector_cancelled,
  connector_remote_error, connector_invalid_output, AbortReason, by_timeout, by_caller,
}

-- validateToolAgainstConnector, whether it is ok
unfoldable pub fits_connector : Tool → ConnectorManifest → Bool
fits_connector tool connector =
    if not (tool.connector_id == connector.connector_id)
    then false
    else if not (includes connector.declared_capabilities tool.capability)
    then false
    else if tool.needs_account && not connector.is_per_connection
    then false
    else if tool.needs_network && not connector.has_network
    then false
    else true

abbrev pub platform_max_timeout_ms : ℕ
platform_max_timeout_ms = 300000

abbrev pub capped_timeout : ℕ → ℕ
capped_timeout t = if leb t platform_max_timeout_ms then t else platform_max_timeout_ms

-- effectiveTimeout
unfoldable pub effective_timeout : ℕ → Option Number → Number
effective_timeout manifest none = whole (capped_timeout manifest)
effective_timeout manifest (some n) =
    if not (is_finite n) || not (number_lt (whole 0) n)
    then whole (capped_timeout manifest)
    else if number_lt n (whole (capped_timeout manifest))
    then n
    else whole (capped_timeout manifest)

-- A failure of an execution, and what it says of the connector's health.
pub record Mapped : Type 0 where
  pub code : ErrorCode
  pub execution_state : ExecutionState
  pub status : HealthStatus
  pub category : FailureCategory

abbrev pub mapped : ErrorCode → ExecutionState → HealthStatus → FailureCategory → Mapped
mapped code state status category = record {
  code = code;
  execution_state = state;
  status = status;
  category = category;
}

abbrev pub abort_code : AbortReason → ErrorCode
abort_code by_timeout = timed_out
abort_code by_caller = cancelled

abbrev pub abort_category : AbortReason → FailureCategory
abort_category by_timeout = timeout_failure
abort_category by_caller = cancelled_failure

-- mapAbortedExecution
unfoldable pub map_aborted_execution : AbortReason → ToolSideEffectClass → Mapped
unfolding is_write_like_side_effect
map_aborted_execution reason c =
    mapped (abort_code reason) (if is_write_like_side_effect c then outcome_unknown else completed)
      degraded (abort_category reason)

-- parseConnectorLocalExecutionOutcome(value) === 'outcome-unknown'
unfoldable pub is_outcome_unknown : Unknown → Bool
is_outcome_unknown (string s) = s == "outcome-unknown"
is_outcome_unknown _ = false

-- The switch on the connector's error code
unfoldable pub map_error_code : ConnectorErrorCode → Mapped
map_error_code connector_gone = mapped connector_unavailable completed unavailable remote_failure
map_error_code connector_timeout = mapped timed_out completed degraded timeout_failure
map_error_code connector_cancelled = mapped cancelled completed degraded cancelled_failure
map_error_code connector_remote_error = mapped remote_error completed degraded remote_failure
map_error_code connector_invalid_output =
    mapped invalid_remote_response completed degraded invalid_response

abbrev pub map_unless_aborted : Option AbortReason → ConnectorErrorCode → Mapped
map_unless_aborted none code = map_error_code code
map_unless_aborted (some reason) code =
    mapped (abort_code reason) completed degraded (abort_category reason)

abbrev pub is_running : Option AbortReason → Bool
is_running none = true
is_running (some reason) = false

-- mapConnectorFailure
unfoldable pub map_connector_failure :
    ConnectorErrorCode
    → (execution_outcome : Unknown) → Option AbortReason
    → ToolSideEffectClass
    → Mapped
unfolding is_write_like_side_effect is_outcome_unknown map_error_code
map_connector_failure code outcome signal c =
    if is_running signal && is_write_like_side_effect c && is_outcome_unknown outcome
    then mapped internal_error outcome_unknown degraded remote_failure
    else map_unless_aborted signal code

-- The snapshot that updateHealth stores, from the one before
unfoldable pub next_health :
    String → Option HealthSnapshot → HealthStatus → FailureCategory → HealthSnapshot
next_health now previous healthy category = record {
  status = healthy;
  last_success_at = some now;
  last_failure_at = elim previous [ none ↦ none | some p ↦ p.last_failure_at ];
  failure_category = category;
  retry_after_ms = none;
}
next_health now previous degraded category = record {
  status = degraded;
  last_success_at = elim previous [ none ↦ none | some p ↦ p.last_success_at ];
  last_failure_at = some now;
  failure_category = category;
  retry_after_ms = none;
}
next_health now previous unavailable category = record {
  status = unavailable;
  last_success_at = elim previous [ none ↦ none | some p ↦ p.last_success_at ];
  last_failure_at = some now;
  failure_category = category;
  retry_after_ms = some 30000;
}

-- The code of a refused approval
unfoldable pub approval_code : ApprovalFailure → ErrorCode
approval_code has_expired = approval_expired
approval_code _ = approval_denied
