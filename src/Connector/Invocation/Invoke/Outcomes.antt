-- ===== src/Connector/Invocation/Invoke/Outcomes.antt =====
-- What is stated of a call: whether it executed, what justifies an execution, the order of its audit
-- events, and the rule by which a stage is followed by the next.
use open_claw_bot_neo.Prelude.{
  ◌≡◌, ◌≢◌, ◌⊎◌, Bool, true, false, String, Option, none, some, List, ◌∷◌, includes,
}
use open_claw_bot_neo.Connector.Capabilities.{ToolCapability_eq, read_only, financial}
use open_claw_bot_neo.Connector.Approval.{StoredRecord, get_record}
use open_claw_bot_neo.Connector.Approval.Grants.{IsConsumable}
use open_claw_bot_neo.Connector.Json.{JsonFields, object, max_serialized_bytes, Heap, Unknown}
use open_claw_bot_neo.Connector.Json.Bounds.{ok, bound_json_object, bound_connector_output}
use open_claw_bot_neo.Connector.Schema.{valid, validate_json_against_schema}
use open_claw_bot_neo.Connector.Invocation.{
  Tool, ConnectorManifest, active, AccountConnection, Request, AuditKind, invocation_requested,
  validation_result, policy_decision, approval_decision, execution_started, execution_finished,
  invocation_completed, ExecutionState, not_started, started, outcome_unknown, completed,
  AuditEvent, ExecuteRequest, World, Outside, Outcome, success, approval_needed, failure, stop, go,
}
use open_claw_bot_neo.Connector.Invocation.Rules.{fits_connector}
use open_claw_bot_neo.Connector.Invocation.Stages.{Staged, consume_binding}
use open_claw_bot_neo.Connector.Invocation.Invoke.{proceed}

abbrev pub has_run : ExecutionState → Bool
has_run not_started = false
has_run started = false
has_run outcome_unknown = true
has_run completed = true

-- The outcome says that the connector was given the request to execute.
abbrev pub is_executed : Outcome → Bool
is_executed (success output) = true
is_executed (approval_needed g) = false
is_executed (failure code state) = has_run state

-- The connection that a tool with an account needs
abbrev pub HasConnection : Outside → Request → Tool → Type 0
HasConnection o r tool =
    (id : String) × (c : AccountConnection) × (r.connection_id ≡ some id)
    × (o.get_connection id ≡ some c)
    × (c.connector_id ≡ tool.connector_id)
    × (c.status ≡ active)
    × (includes c.allowed_capabilities tool.capability ≡ true)

-- The approval that a tool that writes needs: stored, and consumable for this request and input.
abbrev pub HasApproval : Outside → Request → Tool → JsonFields → List StoredRecord → Type 0
HasApproval o r tool input approvals =
    (id : String) × (nonce : String) × (stored : StoredRecord) × (r.approval_id ≡ some id)
    × (r.approval_nonce ≡ some nonce)
    × (get_record id approvals ≡ some stored)
    × IsConsumable o.clock nonce (consume_binding o r tool (o.digest input) nonce) o.actor_id stored

-- What an execution of a tool on an input rests on, for the approvals before the call.
pub record IsJustified (o : Outside) (r : Request) (approvals : List StoredRecord) (tool : Tool)
    (input : JsonFields) : Type 0 where
  pub is_registered : o.get_tool r.tool_id ≡ some tool
  pub is_declared :
      (m : ConnectorManifest) × (o.get_manifest tool.connector_id ≡ some m)
      × (fits_connector tool m ≡ true)
  pub is_bounded : bound_json_object o.measure r.heap r.input max_serialized_bytes ≡ ok input
  pub is_valid : validate_json_against_schema tool.input_schema (object input) ≡ valid tt
  pub is_connected : tool.needs_account ≡ true → HasConnection o r tool
  pub is_allowed :
      (tool.side_effect_class ≡ read_only)
      ⊎ ((tool.side_effect_class ≢ financial) × HasApproval o r tool input approvals)

-- Which event of a call may follow which.
pub data Follows : Option AuditKind → AuditKind → Type 0 where
  first_event : Follows none invocation_requested
  refused_input : Follows (some invocation_requested) validation_result
  decided_by_policy : Follows (some invocation_requested) policy_decision
  decided_by_approval : Follows (some policy_decision) approval_decision
  cancelled_allowed : Follows (some policy_decision) invocation_completed
  cancelled_approved : Follows (some approval_decision) invocation_completed
  started_allowed : Follows (some policy_decision) execution_started
  started_approved : Follows (some approval_decision) execution_started
  finished_started : Follows (some execution_started) execution_finished
  completed_finished : Follows (some execution_finished) invocation_completed

-- The events of a call, in front of those before it, with the kind of the last.
pub data Trail (r : Request) (base : List AuditEvent)
    : Option AuditKind → List AuditEvent → Type 0 where
  no_event : Trail r base none base
  next_event :
      (k : Option AuditKind) (es : List AuditEvent) (e : AuditEvent)
      → Trail r base k es
      → Follows k e.kind
      → e.invocation_id ≡ r.invocation_id
      → Trail r base (some e.kind) (e ∷ es)

-- A connector's output within the bounds that conforms to the schema of the tool that was asked for.
abbrev pub IsOutput : Outside → Request → JsonFields → Type 0
IsOutput o r output =
    (tool : Tool) × (heap : Heap) × (v : Unknown) × (o.get_tool r.tool_id ≡ some tool)
    × (bound_connector_output o.measure heap v ≡ ok output)
    × (validate_json_against_schema tool.output_schema (object output) ≡ valid tt)

-- The result of a call, from the state before it.
pub record Result (o : Outside) (r : Request) (before : World) (outcome : Outcome) (after : World)
    : Type 0 where
  pub execution :
      ((is_executed outcome ≡ false) × (after.executions ≡ before.executions))
      ⊎ ((is_executed outcome ≡ true)
          × (e : ExecuteRequest) × (after.executions ≡ e ∷ before.executions)
          × IsJustified o r before.approvals e.tool e.input)
  pub secret :
      (after.secrets ≡ before.secrets)
      ⊎ ((tool : Tool) × (input : JsonFields) × (reference : String × String) × (after.secrets
            ≡ reference ∷ before.secrets)
          × IsJustified o r before.approvals tool input)
  pub trail :
      (last : Option AuditKind) × Trail r before.audits last after.audits
      × (is_executed outcome ≡ true → last ≡ some invocation_completed)
  pub output : (fs : JsonFields) → outcome ≡ success fs → IsOutput o r fs

-- What a stage leaves: P where the call goes on, Q where it has ended.
abbrev pub Ends :
    {A : Type 0} → (A → World → Type 0) → (Outcome → World → Type 0) → Staged A → Type 0
Ends P Q (stop outcome, w) = Q outcome w
Ends P Q (go a, w) = P a w

pub proceed-Ends :
    {A : Type 0} (P : A → World → Type 0) (Q : Outcome → World → Type 0) (s : Staged A)
    (rest : A → World → Outcome × World)
    → Ends P Q s
    → ((a : A) (w : World) → P a w → Q (rest a w).0 (rest a w).1)
    → Q (proceed s rest).0 (proceed s rest).1
proceed-Ends P Q (stop outcome, w) rest e f = e
proceed-Ends P Q (go a, w) rest e f = f a w e
