-- ===== src/Connector/Invocation/Invoke/Guarantees.antt =====
-- What a whole call guarantees.
use open_claw_bot_neo.Prelude.{
  ℕ, ◌≤◌, ◌≡◌, ◌⊎◌, refl, sym, ◌∙◌, ap, subst, true, false, not, String, String_eq, Option, none,
  some, ◌∷◌, if_cases,
}
use open_claw_bot_neo.Connector.Capabilities.{ToolCapability_eq}
use open_claw_bot_neo.Connector.Json.{
  JsonFields, object, max_serialized_bytes, Heap, Unknown, JsonValue, null, boolean, number, text,
  array, max_depth,
}
use open_claw_bot_neo.Connector.Json.Bounds.{
  Bounded, bound_json_object, bound_connector_output, only_object, bound_json_value,
}
use open_claw_bot_neo.Connector.Json.Bounds.Copies.{Within, depth}
use open_claw_bot_neo.Connector.Json.Bounds.Exact.{bound_json_value-ok_iff}
use open_claw_bot_neo.Connector.Json.Bounds
use open_claw_bot_neo.Connector.Schema.{valid, validate_json_against_schema}
use open_claw_bot_neo.Connector.Invocation.{
  Tool, ConnectorManifest, Request, AuditKind, invocation_requested, invocation_completed,
  ExecuteRequest, World, Outside, Outcome, success,
}
use open_claw_bot_neo.Connector.Invocation.Stages.{tell, validate, connect, authorize, begin}
use open_claw_bot_neo.Connector.Invocation.Invoke.{
  requested_event, digested, with_manifest, with_tool, invoke, digest_prefix,
}
use open_claw_bot_neo.Connector.Invocation.Invoke.Outcomes.{
  proceed-Ends, first_event, no_event, is_executed, HasConnection, IsJustified, Trail, Result,
}
use open_claw_bot_neo.Connector.Invocation.Invoke.Steps.{
  Quiet, stopped, told, IsValidated, validate-Ends,
}
use open_claw_bot_neo.Connector.Invocation.Invoke.Permits.{
  IsConnected, connect-Ends, IsAllowed, IsPermitted, authorize-Ends, IsStarted, begin-Ends,
}
use open_claw_bot_neo.Connector.Invocation.Invoke.Finish.{execute-Result}

module _ (o : Outside) (r : Request) (before : World) where
  -- Everything that the stages have found, put together.
  justified :
      (tool : Tool) (m : ConnectorManifest) (input : JsonFields) (w w1 : World)
      → o.get_tool r.tool_id ≡ some tool
      → o.get_manifest tool.connector_id ≡ some m
      → w.approvals ≡ before.approvals
      → IsValidated o r before tool m input w w1
      → (tool.needs_account ≡ true → HasConnection o r tool)
      → IsAllowed o r before tool input w1.approvals
      → IsJustified o r before.approvals tool input
  justified tool m input w w1 found declared same (q, kept, fit, bound, checked) connected allowed =
      record {
        is_registered = found;
        is_declared = (m, declared, fit);
        is_bounded = bound;
        is_valid = checked;
        is_connected = connected;
        is_allowed = subst (IsAllowed o r before tool input) (kept ∙ same) allowed;
      }

  digested-Result :
      (tool : Tool) (m : ConnectorManifest) (input : JsonFields) (w w1 : World)
      → o.get_tool r.tool_id ≡ some tool
      → o.get_manifest tool.connector_id ≡ some m
      → w.approvals ≡ before.approvals
      → IsValidated o r before tool m input w w1
      → Result o r before (digested o r tool input w1).0 (digested o r tool input w1).1
  unfolding digested
  digested-Result tool m input w w1 found declared same valid_input =
      let prefix = some (digest_prefix (o.digest input)) in
      proceed-Ends (λ s. IsConnected o r before tool w1) (Result o r before) (connect o r tool w1) _
        (connect-Ends o r before tool (some invocation_requested) w1 valid_input.0)
        (λ secret w2 (unchanged, connected).
          let q : Quiet r before (some invocation_requested) w2 =
            subst (Quiet r before (some invocation_requested)) (sym unchanged) valid_input.0 in
          proceed-Ends (λ u. IsPermitted o r before tool input w2) (Result o r before)
            (authorize o r tool (o.digest input) prefix w2) _
            (authorize-Ends o r before tool input prefix w2 q)
            (λ u w3 (k, q3, may, allowed).
              let why =
                justified tool m input w w1 found declared same valid_input connected
                  (subst (λ x. IsAllowed o r before tool input x.approvals) unchanged allowed) in
              proceed-Ends (λ h. IsStarted o r before tool) (Result o r before)
                (begin o r tool prefix secret w3) _
                (begin-Ends o r before tool input why k prefix secret w3 q3 may)
                (λ handle w4 started_now.
                  execute-Result o r before tool prefix input why handle w4 started_now)))

  with_manifest-Result :
      (tool : Tool) (m : Option ConnectorManifest)
      → o.get_tool r.tool_id ≡ some tool
      → o.get_manifest tool.connector_id ≡ m
      → Result o r before (with_manifest o r tool m before).0 (with_manifest o r tool m before).1
  unfolding with_manifest
  with_manifest-Result tool none found declared =
      stopped o r before none _ before
        (record { executions = refl; secrets = refl; trail = no_event }) refl
  with_manifest-Result tool (some m) found declared =
      let quiet : Quiet r before none before = record {
        executions = refl;
        secrets = refl;
        trail = no_event;
      } in
      let asked = told o r before none before (requested_event o r tool) quiet first_event refl in
      let w = tell (requested_event o r tool) before in
      if_cases (λ (x : Outcome × World). Result o r before x.0 x.1)
        (not (o.records_event before.audits (requested_event o r tool))) _ _
        (λ p. stopped o r before (some invocation_requested) _ w asked refl)
        (λ p.
          proceed-Ends (λ i. IsValidated o r before tool m i w) (Result o r before)
            (validate o r tool m w) _ (validate-Ends o r before tool m w asked)
            (λ input w1 fine. digested-Result tool m input w w1 found declared refl fine))

  with_tool-Result :
      (tool : Option Tool)
      → o.get_tool r.tool_id ≡ tool
      → Result o r before (with_tool o r tool before).0 (with_tool o r tool before).1
  with_tool-Result none found =
      stopped o r before none _ before
        (record { executions = refl; secrets = refl; trail = no_event }) refl
  with_tool-Result (some tool) found =
      with_manifest-Result tool (o.get_manifest tool.connector_id) found refl

  invoke-Result : Result o r before (invoke o r before).0 (invoke o r before).1
  unfolding invoke
  invoke-Result = with_tool-Result (o.get_tool r.tool_id) refl

only_object-ok :
    (b : Bounded JsonValue) (fs : JsonFields)
    → only_object b ≡ Bounds.ok fs
    → b ≡ Bounds.ok (object fs)
unfolding only_object
only_object-ok (Bounds.err e) fs h = absurd (cc)
only_object-ok (Bounds.ok null) fs h = absurd (cc)
only_object-ok (Bounds.ok (boolean b)) fs h = absurd (cc)
only_object-ok (Bounds.ok (number n)) fs h = absurd (cc)
only_object-ok (Bounds.ok (text t)) fs h = absurd (cc)
only_object-ok (Bounds.ok (array vs)) fs h = absurd (cc)
only_object-ok (Bounds.ok (object gs)) fs h =
    let same : gs ≡ fs = cc in ap (λ x. Bounds.ok (object x)) same

bound_connector_output-Within :
    (measure : JsonValue → Option ℕ) (heap : Heap) (v : Unknown) (fs : JsonFields)
    → bound_connector_output measure heap v ≡ Bounds.ok fs
    → Within measure max_serialized_bytes (object fs) × (depth (object fs) ≤ max_depth)
unfolding bound_connector_output bound_json_object
bound_connector_output-Within measure heap v fs h =
    let bound = bound_json_value measure heap v max_serialized_bytes in
    let (refs, copy, distinct, within, shallow) =
      (bound_json_value-ok_iff measure heap v max_serialized_bytes (object fs)).0
        (only_object-ok bound fs h) in
    (within, shallow)

-- A call gives the connector at most one request, and gives it exactly if the outcome is a success or
-- a failure whose execution state is completed or outcome-unknown. The request's tool is then the
-- registered one and fits its connector's manifest; its input is the request's, bounded, and valid
-- for the tool's schema; if the tool needs an account, the connection is registered, active, of that
-- connector, and allows the tool's capability; and the tool only reads, or is not financial and the
-- approval that the request names was stored, granted, unused and in time for this very call and
-- input.
pub invoke-executions :
    (o : Outside) (r : Request) (before : World)
    → let (outcome, after) = invoke o r before in
      ((is_executed outcome ≡ false) × (after.executions ≡ before.executions))
      ⊎ ((is_executed outcome ≡ true)
          × (e : ExecuteRequest) × (after.executions ≡ e ∷ before.executions)
          × IsJustified o r before.approvals e.tool e.input)
invoke-executions o r before = (invoke-Result o r before).execution

-- A call asks the secret provider at most once, and only when what an execution rests on holds: the
-- tool and the manifest, the bounded and valid input, the connection, and that the tool only reads or
-- that its approval was consumable.
pub invoke-secrets :
    (o : Outside) (r : Request) (before : World)
    → let after = (invoke o r before).1 in
      (after.secrets ≡ before.secrets)
      ⊎ ((tool : Tool) × (input : JsonFields) × (reference : String × String) × (after.secrets
            ≡ reference ∷ before.secrets)
          × IsJustified o r before.approvals tool input)
invoke-secrets o r before = (invoke-Result o r before).secret

-- The audit events of a call are those of the protocol, in its order, each with the call's identifier:
-- the request, then a refused input or the policy's decision, the approval's decision if there is one,
-- and the start, the finish and the completion of the execution, or its cancellation. If the connector
-- was given the request, the last is the completion.
pub invoke-Trail :
    (o : Outside) (r : Request) (before : World)
    → let (outcome, after) = invoke o r before in
      (last : Option AuditKind) × Trail r before.audits last after.audits
      × (is_executed outcome ≡ true → last ≡ some invocation_completed)
invoke-Trail o r before = (invoke-Result o r before).trail

-- The output of a successful call is at most 16 deep, within the bounds on numbers, texts, keys, arrays
-- and objects and on their serialized bytes, and is accepted by the output schema of the tool that the
-- request names.
pub invoke-success :
    (o : Outside) (r : Request) (before : World) (output : JsonFields)
    → (invoke o r before).0 ≡ success output
    → Within o.measure max_serialized_bytes (object output)
      × (depth (object output) ≤ max_depth)
      × (tool : Tool) × (o.get_tool r.tool_id ≡ some tool)
      × (validate_json_against_schema tool.output_schema (object output) ≡ valid tt)
invoke-success o r before output h =
    let (tool, heap, v, found, bound, fits) = (invoke-Result o r before).output output h in
    let (within, shallow) = bound_connector_output-Within o.measure heap v output bound in
    (within, shallow, tool, found, fits)
