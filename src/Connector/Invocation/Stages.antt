-- ===== src/Connector/Invocation/Stages.antt =====
-- src/core/application/connector/tool-invocation-orchestrator.ts, `invoke` up to the execution: the
-- validation, the connection, the policy, the approval, and the start.
use open_claw_bot_neo.Prelude.{
  Bool, true, false, not, ◌&&◌, ◌==◌, String, String_eq, Option, none, some, List, ◌∷◌, is_none,
  if◌then◌else◌, includes,
}
use open_claw_bot_neo.Connector.Capabilities.{ToolCapability_eq}
use open_claw_bot_neo.Connector.Policy.{
  PolicyContext, PolicyDecision, allow, deny, require_approval, evaluate,
}
use open_claw_bot_neo.Connector.Approval.{
  RequestBinding, ApprovalBinding, StoredRecord, Grant, Answer, ok, err, create_request,
  consume_grant,
}
use open_claw_bot_neo.Connector.Json.{JsonFields, object, max_serialized_bytes}
use open_claw_bot_neo.Connector.Json.Bounds
use open_claw_bot_neo.Connector.Json.Bounds.{Bounded, bound_json_object}
use open_claw_bot_neo.Connector.Schema.{Checked, valid, invalid, validate_json_against_schema}
use open_claw_bot_neo.Connector.Invocation.{
  Tool, ConnectorManifest, ConnectionStatus, active, suspended, revoked, AccountConnection, Request,
  AuditKind, validation_result, policy_decision, approval_decision, execution_started,
  invocation_completed, AuditOutcome, allow_outcome, deny_outcome, require_approval_outcome,
  failure_outcome, unknown_outcome, ErrorCode, invalid_input, connection_not_found,
  capability_denied, policy_denied, approval_required, approval_denied, secret_unavailable,
  connector_unavailable, cancelled, internal_error, not_started, started, AuditEvent, World,
  Outside, approval_needed, failure, Stage, stop, go,
}
use open_claw_bot_neo.Connector.Invocation.Rules.{fits_connector, approval_code}

-- What a stage leaves: whether the call goes on, and the state.
abbrev pub Staged : Type 0 → Type 0
Staged A = Stage A × World

abbrev pub refuse : {A : Type 0} → ErrorCode → World → Staged A
refuse code w = (stop (failure code not_started), w)

-- `auditEvent`; the digest prefix is null until the input is digested.
abbrev pub event :
    Request → Tool → Option String → AuditKind → AuditOutcome → Option ErrorCode → AuditEvent
event r tool prefix kind outcome code = record {
  kind = kind;
  invocation_id = r.invocation_id;
  tool_id = r.tool_id;
  connector_id = tool.connector_id;
  connection_id = r.connection_id;
  input_digest_prefix = prefix;
  outcome = outcome;
  error_code = code;
}

-- An event given to the audit port.
abbrev pub tell : AuditEvent → World → World
tell e w = record w { audits = e ∷ w.audits }

-- `connection.status === 'active'`
abbrev pub is_active : ConnectionStatus → Bool
is_active active = true
is_active suspended = false
is_active revoked = false

module _ (o : Outside) (r : Request) (tool : Tool) where
  abbrev invalid_input_event : AuditEvent
  invalid_input_event = event r tool none validation_result deny_outcome (some invalid_input)

  -- The test of the input against the tool's schema
  abbrev pub conforming : Checked (Unit {0}) → JsonFields → World → Staged JsonFields
  conforming (valid u) fs w = (go fs, w)
  conforming (invalid e) fs w = refuse invalid_input (tell invalid_input_event w)

  abbrev pub bounded : Bounded JsonFields → World → Staged JsonFields
  bounded (Bounds.err e) w = refuse invalid_input (tell invalid_input_event w)
  bounded (Bounds.ok fs) w =
      conforming (validate_json_against_schema tool.input_schema (object fs)) fs w

  -- From validateToolAgainstConnector to validateJsonAgainstSchema: the bounded input
  unfoldable pub validate : ConnectorManifest → World → Staged JsonFields
  validate manifest w =
      if not (fits_connector tool manifest)
      then refuse invalid_input (tell invalid_input_event w)
      else bounded (bound_json_object o.measure r.heap r.input max_serialized_bytes) w

  -- The tests of a connection that is registered: its secret reference
  abbrev pub usable : Option AccountConnection → World → Staged (Option (String × String))
  usable none w = refuse connection_not_found w
  usable (some c) w =
      if not (c.connector_id == tool.connector_id)
      then refuse connection_not_found w
      else if not (is_active c.status)
      then refuse connection_not_found w
      else if not (includes c.allowed_capabilities tool.capability)
      then refuse capability_denied w
      else (go c.secret_reference, w)

  abbrev pub required : Option String → World → Staged (Option (String × String))
  required none w = refuse connection_not_found w
  required (some id) w = usable (o.get_connection id) w

  -- From the idempotency key to the secret's metadata
  unfoldable pub connect : World → Staged (Option (String × String))
  connect w =
      if tool.needs_key && is_none r.idempotency_key
      then refuse invalid_input w
      else if not tool.needs_account
      then (go none, w)
      else required r.connection_id w

  -- The policy's context; `connect` has refused a connection that is not active or not allowed.
  abbrev pub policy_context : PolicyContext
  policy_context = record {
    connection_id = r.connection_id;
    side_effect_class = tool.side_effect_class;
    connection_active = true;
    capability_allowed = true;
    cancellation_support = tool.cancellation_support;
  }

  -- `requestBinding`
  abbrev pub request_binding : (digest : String) → RequestBinding
  request_binding digest = record {
    invocation_id = r.invocation_id;
    tool_id = r.tool_id;
    connector_id = tool.connector_id;
    connection_id = r.connection_id;
    input_digest = digest;
    side_effect_class = tool.side_effect_class;
    expires_at = o.expires_at;
    requesting_actor_id = o.actor_id;
  }

  -- `consumeBinding`
  abbrev pub consume_binding : (digest nonce : String) → ApprovalBinding
  consume_binding digest nonce = record {
    request = request_binding digest;
    approving_actor_id = none;
    nonce = nonce;
  }

  -- The event of an approval decision, with the records that the approval port has then
  abbrev pub decided :
      Option String → AuditOutcome → Option ErrorCode → List StoredRecord → World → World
  decided prefix outcome code records w =
      tell (event r tool prefix approval_decision outcome code) (record w { approvals = records })

  abbrev pub created : Answer Grant × List StoredRecord → Option String → World → Staged (Unit {0})
  created (ok g, records) prefix w = (
    stop (approval_needed g),
    decided prefix require_approval_outcome (some approval_required) records w,
  )
  created (err e, records) prefix w =
      refuse approval_denied
        (decided prefix require_approval_outcome (some approval_required) records w)

  abbrev pub used :
      Answer (Unit {0}) × List StoredRecord → Option String → World → Staged (Unit {0})
  used (ok u, records) prefix w = (go tt, decided prefix allow_outcome none records w)
  used (err e, records) prefix w =
      refuse (approval_code e) (decided prefix deny_outcome (some approval_denied) records w)

  -- The branch of a decision that asks for approval
  abbrev pub approve :
      (approval_id approval_nonce : Option String) (digest : String)
      → Option String
      → World
      → Staged (Unit {0})
  approve none given digest prefix w =
      created (create_request o.candidates o.nonce (request_binding digest) o.actor_id w.approvals)
        prefix w
  approve (some id) none digest prefix w = refuse approval_denied w
  approve (some id) (some nonce) digest prefix w =
      used (consume_grant o.clock id nonce (consume_binding digest nonce) o.actor_id w.approvals)
        prefix w

  -- What follows each of the policy's decisions, its event first
  abbrev pub by_decision :
      PolicyDecision → (digest : String) → Option String → World → Staged (Unit {0})
  by_decision allow digest prefix w =
      (go tt, tell (event r tool prefix policy_decision allow_outcome none) w)
  by_decision (deny reason) digest prefix w =
      refuse policy_denied
        (tell (event r tool prefix policy_decision deny_outcome (some policy_denied)) w)
  by_decision (require_approval reason) digest prefix w =
      approve r.approval_id r.approval_nonce digest prefix
        (tell (event r tool prefix policy_decision require_approval_outcome none) w)

  -- From the policy's evaluation to the end of the approval
  unfoldable pub authorize : (digest : String) → Option String → World → Staged (Unit {0})
  authorize digest prefix w = by_decision (evaluate policy_context) digest prefix w

  abbrev pub resolved : Option String → World → Staged (Option String)
  resolved none w = (stop (failure secret_unavailable started), w)
  resolved (some handle) w = (go (some handle), w)

  -- The secret's handle, if the connection has a secret
  abbrev pub resolve : Option (String × String) → World → Staged (Option String)
  resolve none w = (go none, w)
  resolve (some reference) w =
      resolved (o.resolve_handle reference) (record w { secrets = reference ∷ w.secrets })

  -- From the test of the signal to the secret's handle
  unfoldable pub begin : Option String → Option (String × String) → World → Staged (Option String)
  begin prefix secret w =
      if o.is_aborted
      then refuse cancelled
          (tell (event r tool prefix invocation_completed failure_outcome (some cancelled)) w)
      else if not (o.has_connector tool.connector_id)
      then refuse connector_unavailable w
      else if not
          (o.records_event w.audits (event r tool prefix execution_started unknown_outcome none))
      then refuse internal_error
          (tell (event r tool prefix execution_started unknown_outcome none) w)
      else resolve secret (tell (event r tool prefix execution_started unknown_outcome none) w)
