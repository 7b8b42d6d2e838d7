-- ===== src/Connector/Invocation/Invoke/Steps.antt =====
-- What each stage before the execution leaves.
use open_claw_bot_neo.Prelude.{
  ◌≡◌, refl, sym, subst, true, false, not, String_eq, Option, some, if_cases, arith, inl,
}
use open_claw_bot_neo.Connector.Capabilities.{ToolCapability_eq}
use open_claw_bot_neo.Connector.Json.{JsonFields, object, max_serialized_bytes}
use open_claw_bot_neo.Connector.Json.Bounds.{Bounded, bound_json_object}
use open_claw_bot_neo.Connector.Json.Bounds
use open_claw_bot_neo.Connector.Schema.{Checked, valid, invalid, validate_json_against_schema}
use open_claw_bot_neo.Connector.Invocation.{
  Tool, ConnectorManifest, Request, AuditKind, invocation_requested, validation_result, AuditEvent,
  World, Outside, Outcome, success,
}
use open_claw_bot_neo.Connector.Invocation.Rules.{fits_connector}
use open_claw_bot_neo.Connector.Invocation.Stages.{Staged, tell, conforming, bounded, validate}
use open_claw_bot_neo.Connector.Invocation.Invoke.Outcomes.{
  is_executed, Follows, refused_input, Trail, next_event, Result, Ends,
}

-- Nothing was asked of a connector or of the secrets, and the last event is of this kind.
pub record Quiet (r : Request) (before : World) (last : Option AuditKind) (w : World) : Type 0 where
  pub executions : w.executions ≡ before.executions
  pub secrets : w.secrets ≡ before.secrets
  pub trail : Trail r before.audits last w.audits

module _ (o : Outside) (r : Request) (before : World) where
  pub stopped :
      (last : Option AuditKind) (outcome : Outcome) (w : World)
      → Quiet r before last w
      → is_executed outcome ≡ false
      → Result o r before outcome w
  stopped last outcome w q h = record {
    execution = inl (h, q.executions);
    secret = inl q.secrets;
    trail = (last, q.trail, λ p. absurd (cc));
    output = λ fs p.
        let no : is_executed (success fs) ≡ false = subst (λ x. is_executed x ≡ false) p h in
        absurd (cc no);
  }

  pub told :
      (last : Option AuditKind) (w : World) (e : AuditEvent)
      → Quiet r before last w
      → Follows last e.kind
      → e.invocation_id ≡ r.invocation_id
      → Quiet r before (some e.kind) (tell e w)
  told last w e q f same = record {
    executions = q.executions;
    secrets = q.secrets;
    trail = next_event last w.audits e q.trail f same;
  }

  module _ (tool : Tool) where
    -- The input was bounded and conforms to the tool's schema.
    abbrev pub IsValidated : ConnectorManifest → JsonFields → World → World → Type 0
    IsValidated m input w after =
        Quiet r before (some invocation_requested) after
        × (after.approvals ≡ w.approvals)
        × (fits_connector tool m ≡ true)
        × (bound_json_object o.measure r.heap r.input max_serialized_bytes ≡ Bounds.ok input)
        × (validate_json_against_schema tool.input_schema (object input) ≡ valid tt)

    refused :
        (w : World)
        → Quiet r before (some invocation_requested) w
        → (e : AuditEvent) → e.kind ≡ validation_result
        → e.invocation_id ≡ r.invocation_id
        → (outcome : Outcome) → is_executed outcome ≡ false
        → Result o r before outcome (tell e w)
    refused w q e k same outcome h =
        stopped (some e.kind) outcome (tell e w)
          (told (some invocation_requested) w e q
            (subst (Follows (some invocation_requested)) (sym k) refused_input) same)
          h

    conforming-Ends :
        (m : ConnectorManifest) (c : Checked (Unit {0})) (input : JsonFields) (w : World)
        → Quiet r before (some invocation_requested) w
        → fits_connector tool m ≡ true
        → bound_json_object o.measure r.heap r.input max_serialized_bytes ≡ Bounds.ok input
        → validate_json_against_schema tool.input_schema (object input) ≡ c
        → Ends (λ i. IsValidated m i w) (Result o r before) (conforming o r tool c input w)
    conforming-Ends m (valid u) input w q f b c = (q, refl, f, b, c)
    conforming-Ends m (invalid e) input w q f b c = refused w q _ refl refl _ refl

    bounded-Ends :
        (m : ConnectorManifest) (b : Bounded JsonFields) (w : World)
        → Quiet r before (some invocation_requested) w
        → fits_connector tool m ≡ true
        → bound_json_object o.measure r.heap r.input max_serialized_bytes ≡ b
        → Ends (λ i. IsValidated m i w) (Result o r before) (bounded o r tool b w)
    bounded-Ends m (Bounds.err e) w q f b = refused w q _ refl refl _ refl
    bounded-Ends m (Bounds.ok input) w q f b =
        conforming-Ends m (validate_json_against_schema tool.input_schema (object input)) input w q
          f b refl

    pub validate-Ends :
        (m : ConnectorManifest) (w : World)
        → Quiet r before (some invocation_requested) w
        → Ends (λ i. IsValidated m i w) (Result o r before) (validate o r tool m w)
    unfolding validate
    validate-Ends m w q =
        if_cases (λ (s : Staged JsonFields). Ends (λ i. IsValidated m i w) (Result o r before) s)
          (not (fits_connector tool m)) _ _ (λ p. refused w q _ refl refl _ refl)
          (λ p.
            bounded-Ends m (bound_json_object o.measure r.heap r.input max_serialized_bytes) w q
              (ground arith) refl)
