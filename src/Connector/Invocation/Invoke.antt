-- ===== src/Connector/Invocation/Invoke.antt =====
-- src/core/application/connector/tool-invocation-orchestrator.ts, `invoke`: the execution and what
-- follows it, and the whole call. `Promise.race` and the signal's reason are what `race` answers.
pub mod Outcomes
pub mod Steps
pub mod Permits
pub mod Finish
pub mod Guarantees
mod Tests
use open_claw_bot_neo.Prelude.{
  Bool, true, false, not, ◌&&◌, ◌==◌, String, String_eq, Option, none, some, Option_eq, List, ◌∷◌,
  if◌then◌else◌,
}
use open_claw_bot_neo.Connector.Json.{Heap, Unknown, undefined, JsonFields, object}
use open_claw_bot_neo.Connector.Json.Bounds
use open_claw_bot_neo.Connector.Json.Bounds.{Bounded, bound_connector_output}
use open_claw_bot_neo.Connector.Schema.{Checked, valid, invalid, validate_json_against_schema}
use open_claw_bot_neo.Connector.Invocation.{
  Tool, ConnectorManifest, Request, invocation_requested, execution_finished, invocation_completed,
  success_outcome, failure_outcome, unknown_outcome, tool_not_found, connector_not_found,
  internal_error, invalid_remote_response, not_started, outcome_unknown, completed, AuditEvent,
  ExecuteRequest, HealthStatus, healthy, degraded, FailureCategory, no_failure, invalid_response,
  HealthSnapshot, World, Execution, returned, failed, threw, connector_gone, AbortReason, Race,
  aborted_first, done_first, Outside, Outcome, success, failure, stop, go,
}
use open_claw_bot_neo.Connector.Invocation.Rules.{
  effective_timeout, Mapped, mapped, map_aborted_execution, map_connector_failure, next_health,
}
use open_claw_bot_neo.Connector.Invocation.Stages.{
  Staged, event, tell, validate, connect, authorize, begin,
}
use Prim.Native.String.{slice}

-- digestPrefix: a digest is written in characters of one byte.
unfoldable pub digest_prefix : String → String
digest_prefix digest = slice digest 0 8

-- Goes on unless the stage has ended the call.
abbrev pub proceed : {A : Type 0} → Staged A → (A → World → Outcome × World) → Outcome × World
proceed (stop outcome, w) rest = (outcome, w)
proceed (go a, w) rest = rest a w

-- healthRegistry.update, at the connector and connection
unfoldable pub put_health :
    String
    → Option String
    → HealthSnapshot
    → (String → Option String → Option HealthSnapshot)
    → String
    → Option String
    → Option HealthSnapshot
put_health connector connection snapshot health c k =
    if c == connector && k == connection then some snapshot else health c k

-- The request that the connector is given
abbrev pub execute_request : Request → Tool → JsonFields → Option String → ExecuteRequest
execute_request r tool input handle = record {
  tool = tool;
  input = input;
  secret_handle = handle;
  idempotency_key = r.idempotency_key;
  connector_id = tool.connector_id;
  invocation_label = r.invocation_id;
}

module _ (o : Outside) (r : Request) (tool : Tool) (prefix : Option String) where
  -- updateHealth
  abbrev pub update_health : HealthStatus → FailureCategory → World → World
  update_health status category w = record w {
    health =
        put_health tool.connector_id r.connection_id
          (next_health o.now_text (w.health tool.connector_id r.connection_id) status category)
          w.health;
  }

  -- The completion's audit decides between the outcome and one that is not known.
  abbrev pub complete : AuditEvent → Outcome → World → Outcome × World
  complete e outcome w = (
    if o.records_event w.audits e then outcome else failure internal_error outcome_unknown,
    tell e w,
  )

  -- The four branches that end in a failure after the execution
  pub finish_failed : Mapped → World → Outcome × World
  finish_failed m w =
      complete (event r tool prefix invocation_completed failure_outcome (some m.code))
        (failure m.code m.execution_state)
        (tell (event r tool prefix execution_finished failure_outcome (some m.code))
          (update_health m.status m.category w))

  abbrev invalid_output : Mapped
  invalid_output = mapped invalid_remote_response completed degraded invalid_response

  abbrev pub checked_output : Checked (Unit {0}) → JsonFields → World → Outcome × World
  checked_output (invalid e) fs w = finish_failed invalid_output w
  checked_output (valid u) fs w =
      complete (event r tool prefix invocation_completed success_outcome none) (success fs) (
        tell (event r tool prefix execution_finished success_outcome none)
          (update_health healthy no_failure w))

  abbrev pub bounded_output : Bounded JsonFields → World → Outcome × World
  bounded_output (Bounds.err e) w = finish_failed invalid_output w
  bounded_output (Bounds.ok fs) w =
      checked_output (validate_json_against_schema tool.output_schema (object fs)) fs w

  -- An output that came, unless the signal has come by then
  abbrev pub output_unless_aborted : Option AbortReason → Heap → Unknown → World → Outcome × World
  output_unless_aborted (some reason) heap output w =
      finish_failed (map_aborted_execution reason tool.side_effect_class) w
  output_unless_aborted none heap output w =
      bounded_output (bound_connector_output o.measure heap output) w

  -- What follows the race; a rejected promise is a connector that is not available.
  pub conclude : Race → World → Outcome × World
  conclude (aborted_first reason) w =
      finish_failed (map_aborted_execution reason tool.side_effect_class) w
  conclude (done_first threw signal) w =
      finish_failed (map_connector_failure connector_gone undefined signal tool.side_effect_class) w
  conclude (done_first (failed code outcome) signal) w =
      finish_failed (map_connector_failure code outcome signal tool.side_effect_class) w
  conclude (done_first (returned heap output) signal) w = output_unless_aborted signal heap output w

  pub execute : ExecuteRequest → World → Outcome × World
  execute request w =
      conclude (o.race (effective_timeout tool.timeout_ms r.timeout_override_ms) request)
        (record w { executions = request ∷ w.executions })

module _ (o : Outside) (r : Request) where
  -- From the digest of the bounded input on
  pub digested : Tool → JsonFields → World → Outcome × World
  digested tool input w =
      let digest = o.digest input in
      let prefix = some (digest_prefix digest) in
      proceed (connect o r tool w) (λ secret w1.
        proceed (authorize o r tool digest prefix w1) (λ u w2.
          proceed (begin o r tool prefix secret w2)
            (λ handle w3. execute o r tool prefix (execute_request r tool input handle) w3)))

  abbrev pub requested_event : Tool → AuditEvent
  requested_event tool = event r tool none invocation_requested unknown_outcome none

  pub with_manifest : Tool → Option ConnectorManifest → World → Outcome × World
  with_manifest tool none w = (failure connector_not_found not_started, w)
  with_manifest tool (some manifest) w =
      if not (o.records_event w.audits (requested_event tool))
      then (failure internal_error not_started, tell (requested_event tool) w)
      else proceed (validate o r tool manifest (tell (requested_event tool) w)) (digested tool)

  abbrev pub with_tool : Option Tool → World → Outcome × World
  with_tool none w = (failure tool_not_found not_started, w)
  with_tool (some tool) w = with_manifest tool (o.get_manifest tool.connector_id) w

  -- invoke
  unfoldable pub invoke : World → Outcome × World
  invoke w = with_tool (o.get_tool r.tool_id) w
