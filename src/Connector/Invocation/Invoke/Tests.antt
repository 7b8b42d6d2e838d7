-- ===== src/Connector/Invocation/Invoke/Tests.antt =====
-- Calls of two tools, one that reads and one that writes, in a concrete world.
use open_claw_bot_neo.Prelude.{
  ◌≡◌, ◌≤◌, ◌⊎◌, true, false, Option, some, none, refl, [], ◌∷◌, String, String-discrete,
  Option-discrete, ℕ_discrete, includes, map, if◌then◌else◌, ◌==◌, String_eq,
}
use open_claw_bot_neo.Connector.Capabilities.{
  read, update, read_only, low_risk_write, cooperative, ToolSideEffectClass, ToolCapability,
  ToolSideEffectClass-discrete, ToolCapability-discrete, is_write_like_side_effect,
  is_financial_action,
}
use open_claw_bot_neo.Connector.Policy.{evaluate}
use open_claw_bot_neo.Connector.Approval.{
  StoredRecord, granted, ApprovalStatus-discrete, get_record, put_record, create_request,
  consume_grant, grant, new_record,
}
use open_claw_bot_neo.Connector.Json.{
  JsonFields, done, field, object, numeral, reference, object_node, Heap, whole, max_depth,
  max_serialized_bytes, number, utf16_length, is_finite, count_fields, has_own, number_lt,
}
use open_claw_bot_neo.Connector.Json.Bounds.{
  bound_json_value, bound_json_object, bound_connector_output, walk, walk_node, walk_items,
  walk_fields, is_too_large, only_object,
}
use open_claw_bot_neo.Connector.Json.Bounds.Copies.{Within, depth}
use open_claw_bot_neo.Connector.Schema.{
  JsonSchema, schema, object_type, number_type, no_property, property, undefined_items, valid,
  validate_json_against_schema, validate_against, check_required, get_property, check_number,
  is_below, is_above, is_outside,
}
use open_claw_bot_neo.Connector.Schema.Definition.{no_limits}
use open_claw_bot_neo.Connector.Invocation.{
  Tool, ConnectorManifest, Request, AuditKind, invocation_requested, policy_decision,
  approval_decision, execution_started, execution_finished, invocation_completed, AuditEvent,
  ExecuteRequest, World, Race, returned, done_first, aborted_first, by_timeout, Outside, success,
  failure, approval_denied, timed_out, not_started, outcome_unknown,
}
use open_claw_bot_neo.Connector.Invocation.Rules.{
  fits_connector, effective_timeout, map_aborted_execution, next_health, approval_code,
}
use open_claw_bot_neo.Connector.Invocation.Stages.{
  validate, connect, authorize, begin, request_binding,
}
use open_claw_bot_neo.Connector.Invocation.Invoke.{
  digest_prefix, put_health, finish_failed, conclude, execute, digested, with_manifest, invoke,
}
use open_claw_bot_neo.Connector.Invocation.Invoke.Outcomes.{is_executed, IsJustified, Trail}
use open_claw_bot_neo.Connector.Invocation.Invoke.Guarantees.{
  invoke-executions, invoke-secrets, invoke-Trail, invoke-success,
}

calls : Unit {0}
unfolding invoke with_manifest digested execute conclude finish_failed put_health digest_prefix
    validate connect authorize begin fits_connector effective_timeout map_aborted_execution
    next_health approval_code evaluate is_write_like_side_effect is_financial_action
    bound_json_object bound_connector_output bound_json_value walk walk_node walk_items walk_fields
    is_too_large only_object utf16_length is_finite count_fields has_own number_lt
    validate_json_against_schema validate_against check_required get_property check_number is_below
    is_above is_outside create_request consume_grant grant get_record put_record includes
    String-discrete Option-discrete ℕ_discrete ToolSideEffectClass-discrete ToolCapability-discrete
    ApprovalStatus-discrete
calls = tt

-- `{"n": 1}`, as a heap and as a copy.
abbrev heap : Heap
heap a = object_node true (("n", numeral (whole 1)) ∷ [])

abbrev one_field : JsonFields
one_field = field "n" (number (whole 1)) done

abbrev numbered : JsonSchema
numbered =
    schema object_type
      (property "n" (schema number_type no_property [] no_limits undefined_items) no_property)
      ("n" ∷ []) no_limits undefined_items

abbrev tool_of : String → ToolCapability → ToolSideEffectClass → Tool
tool_of id capability effect = record {
  tool_id = id;
  connector_id = "disk";
  input_schema = numbered;
  output_schema = numbered;
  capability = capability;
  side_effect_class = effect;
  timeout_ms = 1000;
  needs_key = false;
  cancellation_support = cooperative;
  needs_network = false;
  needs_account = false;
}

abbrev tool_named : String → Option Tool
tool_named id =
    if id == "read"
    then some (tool_of "read" read read_only)
    else some (tool_of "write" update low_risk_write)

abbrev disk : ConnectorManifest
disk = record {
  connector_id = "disk";
  declared_capabilities = read ∷ update ∷ [];
  has_network = false;
  is_per_connection = false;
}

abbrev outside : Race → Outside
outside race = record {
  get_tool = tool_named;
  get_manifest = λ id. some disk;
  get_connection = λ id. none;
  has_connector = λ id. true;
  records_event = λ es e. true;
  resolve_handle = λ s. none;
  measure = λ j. some 7;
  digest = λ fs. "0123456789";
  actor_id = "bot";
  candidates = "a1" ∷ [];
  nonce = "n1";
  clock = record { now_ms = some 5; parse = λ t. some 1000 };
  expires_at = "2026-01-01T00:05:00.000Z";
  now_text = "2026-01-01T00:00:00.000Z";
  is_aborted = false;
  race = λ t e. race;
}

abbrev answers : Outside
answers = outside (done_first (returned heap (reference 0)) none)

abbrev call : String → Request
call id = record {
  invocation_id = "i1";
  tool_id = id;
  connection_id = none;
  heap = heap;
  input = reference 0;
  approval_id = some "a1";
  approval_nonce = some "n1";
  idempotency_key = none;
  timeout_override_ms = none;
}

abbrev empty : World
empty = record { approvals = []; health = λ c k. none; audits = []; secrets = []; executions = [] }

reads : (invoke answers (call "read") empty).0 ≡ success one_field
unfolding calls
reads = refl

-- The writing tool without a stored approval, and with one that the owner granted.
writes_unapproved : (invoke answers (call "write") empty).0 ≡ failure approval_denied not_started
unfolding calls
writes_unapproved = refl

abbrev write_tool : Tool
write_tool = tool_of "write" update low_risk_write

abbrev stored : StoredRecord
stored = new_record "a1" "n1" (request_binding answers (call "write") write_tool "0123456789")

abbrev approved : World
approved = record empty {
  approvals =
      record stored {
        binding = record (stored.binding) { approving_actor_id = some "owner" };
        status = granted;
      }
      ∷ [];
}

writes : (invoke answers (call "write") approved).0 ≡ success one_field
unfolding calls
writes = refl

writes_once :
    (invoke answers (call "write") (invoke answers (call "write") approved).1).0
    ≡ failure approval_denied not_started
unfolding calls
writes_once = refl

-- The write is under way when the time is up: nobody knows what became of it.
writes_too_long :
    (invoke (outside (aborted_first by_timeout)) (call "write") approved).0
    ≡ failure timed_out outcome_unknown
unfolding calls
writes_too_long = refl

write_events :
    map (λ (e : AuditEvent). e.kind) (invoke answers (call "write") approved).1.audits
    ≡ invocation_completed ∷ execution_finished ∷ execution_started ∷ approval_decision
      ∷ policy_decision ∷ invocation_requested ∷ []
unfolding calls
write_events = refl

invoke-executions_example :
    let (outcome, after) = invoke answers (call "write") approved in
    ((is_executed outcome ≡ false) × (after.executions ≡ approved.executions))
    ⊎ ((is_executed outcome ≡ true)
        × (e : ExecuteRequest) × (after.executions ≡ e ∷ approved.executions)
        × IsJustified answers (call "write") approved.approvals e.tool e.input)
invoke-executions_example = invoke-executions answers (call "write") approved

invoke-secrets_example :
    let after = (invoke answers (call "write") approved).1 in
    (after.secrets ≡ approved.secrets)
    ⊎ ((tool : Tool) × (input : JsonFields) × (reference : String × String) × (after.secrets
          ≡ reference ∷ approved.secrets)
        × IsJustified answers (call "write") approved.approvals tool input)
invoke-secrets_example = invoke-secrets answers (call "write") approved

invoke-Trail_example :
    let (outcome, after) = invoke answers (call "write") approved in
    (last : Option AuditKind) × Trail (call "write") approved.audits last after.audits
    × (is_executed outcome ≡ true → last ≡ some invocation_completed)
invoke-Trail_example = invoke-Trail answers (call "write") approved

invoke-success_example :
    Within answers.measure max_serialized_bytes (object one_field)
    × (depth (object one_field) ≤ max_depth)
    × (tool : Tool) × (answers.get_tool "write" ≡ some tool)
    × (validate_json_against_schema tool.output_schema (object one_field) ≡ valid tt)
invoke-success_example = invoke-success answers (call "write") approved one_field writes
