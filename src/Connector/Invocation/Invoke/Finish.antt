-- ===== src/Connector/Invocation/Invoke/Finish.antt =====
-- What the execution and all that follows it leave.
use open_claw_bot_neo.Prelude.{
  ◌≡◌, ◌⊎◌, refl, sym, ap, subst, true, ◌&&◌, String, String_eq, Option, none, some, ◌∷◌, if_cases,
  inl, inr,
}
use open_claw_bot_neo.Connector.Capabilities.{ToolCapability_eq, is_write_like_side_effect}
use open_claw_bot_neo.Connector.Json.{JsonFields, object, Heap, Unknown, undefined}
use open_claw_bot_neo.Connector.Json.Bounds.{Bounded, bound_json_object, bound_connector_output}
use open_claw_bot_neo.Connector.Json.Bounds
use open_claw_bot_neo.Connector.Schema.{Checked, valid, invalid, validate_json_against_schema}
use open_claw_bot_neo.Connector.Invocation.{
  Tool, Request, AuditKind, execution_started, invocation_completed, AuditEvent, World, Outside,
  Outcome, failure, internal_error, outcome_unknown, execution_finished, Race, aborted_first,
  done_first, returned, failed, threw, connector_gone, AbortReason, ConnectorErrorCode, success,
  completed, connector_timeout, connector_cancelled, connector_remote_error,
  connector_invalid_output, degraded, remote_failure,
}
use open_claw_bot_neo.Connector.Invocation.Rules.{
  Mapped, map_aborted_execution, map_connector_failure, map_unless_aborted, map_error_code, mapped,
  is_running, is_outcome_unknown,
}
use open_claw_bot_neo.Connector.Invocation.Stages.{tell}
use open_claw_bot_neo.Connector.Invocation.Invoke.{
  execute_request, complete, finish_failed, checked_output, bounded_output, conclude, execute,
}
use open_claw_bot_neo.Connector.Invocation.Invoke.Outcomes.{
  has_run, finished_started, completed_finished, is_executed, IsOutput, IsJustified, Follows, Trail,
  next_event, Result,
}
use open_claw_bot_neo.Connector.Invocation.Invoke.Permits.{IsStarted}

unless_aborted-has_run :
    (signal : Option AbortReason) (code : ConnectorErrorCode)
    → has_run (map_unless_aborted signal code).execution_state ≡ true
unfolding map_error_code
unless_aborted-has_run (some reason) code = refl
unless_aborted-has_run none connector_gone = refl
unless_aborted-has_run none connector_timeout = refl
unless_aborted-has_run none connector_cancelled = refl
unless_aborted-has_run none connector_remote_error = refl
unless_aborted-has_run none connector_invalid_output = refl

module _ (o : Outside) (r : Request) (before : World) (tool : Tool) (prefix : Option String) where
  module _ (input : JsonFields) (why : IsJustified o r before.approvals tool input)
      (handle : Option String) where
    -- The connector was given the request, and the last event is of this kind.
    record HasRun (last : AuditKind) (w : World) : Type 0 where
      executions : w.executions ≡ execute_request r tool input handle ∷ before.executions
      secrets :
          (w.secrets ≡ before.secrets) ⊎ ((s : String × String) × (w.secrets ≡ s ∷ before.secrets))
      trail : Trail r before.audits (some last) w.audits

    finished :
        (w : World) (e : AuditEvent)
        → HasRun execution_started w
        → e.kind ≡ execution_finished
        → e.invocation_id ≡ r.invocation_id
        → HasRun execution_finished (tell e w)
    finished w e q k same = record {
      executions = q.executions;
      secrets = q.secrets;
      trail =
          subst (λ x. Trail r before.audits (some x) (e ∷ w.audits)) k
            (next_event (some execution_started) w.audits e q.trail
              (subst (Follows (some execution_started)) (sym k) finished_started) same);
    }

    complete-Result :
        (e : AuditEvent) (outcome : Outcome) (w : World)
        → HasRun execution_finished w
        → is_executed outcome ≡ true
        → ((fs : JsonFields) → outcome ≡ success fs → IsOutput o r fs)
        → e.kind ≡ invocation_completed
        → e.invocation_id ≡ r.invocation_id
        → Result o r before (complete o r tool prefix e outcome w).0 (tell e w)
    complete-Result e outcome w q h out k same =
        let done =
          if_cases (λ (x : Outcome). is_executed x ≡ true) (o.records_event w.audits e) outcome
            (failure internal_error outcome_unknown) (λ p. h) (λ p. refl) in
        record {
          execution = inr (done, execute_request r tool input handle, q.executions, why);
          secret = elim q.secrets [
            | inl none_asked ↦ inl none_asked
            | inr (s, p) ↦ inr (tool, input, s, p, why)
          ];
          trail = (
            some e.kind,
            next_event (some execution_finished) w.audits e q.trail
                (subst (Follows (some execution_finished)) (sym k) completed_finished) same,
            λ p. ap some k,
          );
          output =
              if_cases (λ (x : Outcome). (fs : JsonFields) → x ≡ success fs → IsOutput o r fs)
                (o.records_event w.audits e) outcome (failure internal_error outcome_unknown)
                (λ p. out) (λ p fs x. absurd (cc));
        }

    -- A failure after the execution says that there was one.
    finish_failed-Result :
        (m : Mapped) (w : World)
        → HasRun execution_started w
        → has_run m.execution_state ≡ true
        → Result o r before
            (finish_failed o r tool prefix m w).0
            (finish_failed o r tool prefix m w).1
    unfolding finish_failed
    finish_failed-Result m w q h =
        complete-Result _ (failure m.code m.execution_state) _
          (finished _ _ (record { executions = q.executions; secrets = q.secrets; trail = q.trail })
            refl refl)
          h (λ fs x. absurd (cc)) refl refl

    checked_output-Result :
        (c : Checked (Unit {0})) (fs : JsonFields) (w : World)
        → HasRun execution_started w
        → (c ≡ valid tt → IsOutput o r fs)
        → Result o r before
            (checked_output o r tool prefix c fs w).0
            (checked_output o r tool prefix c fs w).1
    checked_output-Result (invalid e) fs w q good = finish_failed-Result _ w q refl
    checked_output-Result (valid u) fs w q good =
        complete-Result _ (success fs) _
          (finished _ _ (record { executions = q.executions; secrets = q.secrets; trail = q.trail })
            refl refl)
          refl (λ gs p. let same : fs ≡ gs = cc in subst (IsOutput o r) same (good refl)) refl refl

    bounded_output-Result :
        (heap : Heap) (v : Unknown) (b : Bounded JsonFields) (w : World)
        → HasRun execution_started w
        → bound_connector_output o.measure heap v ≡ b
        → Result o r before
            (bounded_output o r tool prefix b w).0
            (bounded_output o r tool prefix b w).1
    bounded_output-Result heap v (Bounds.err e) w q h = finish_failed-Result _ w q refl
    bounded_output-Result heap v (Bounds.ok fs) w q h =
        checked_output-Result (validate_json_against_schema tool.output_schema (object fs)) fs w q
          (λ c. (tool, heap, v, why.is_registered, h, c))

    aborted-has_run :
        (reason : AbortReason)
        → has_run (map_aborted_execution reason tool.side_effect_class).execution_state ≡ true
    unfolding map_aborted_execution
    aborted-has_run reason =
        if_cases (λ s. has_run s ≡ true) (is_write_like_side_effect tool.side_effect_class)
          outcome_unknown completed (λ p. refl) (λ p. refl)

    failed-has_run :
        (code : ConnectorErrorCode) (v : Unknown) (signal : Option AbortReason)
        → has_run (map_connector_failure code v signal tool.side_effect_class).execution_state
          ≡ true
    unfolding map_connector_failure map_error_code
    failed-has_run code v signal =
        if_cases (λ (m : Mapped). has_run m.execution_state ≡ true)
          (is_running signal
            && is_write_like_side_effect tool.side_effect_class
            && is_outcome_unknown v)
          (mapped internal_error outcome_unknown degraded remote_failure)
          (map_unless_aborted signal code) (λ p. refl) (λ p. unless_aborted-has_run signal code)

    conclude-Result :
        (race : Race) (w : World)
        → HasRun execution_started w
        → Result o r before (conclude o r tool prefix race w).0 (conclude o r tool prefix race w).1
    unfolding conclude
    conclude-Result (aborted_first reason) w q = finish_failed-Result _ w q (aborted-has_run reason)
    conclude-Result (done_first threw signal) w q =
        finish_failed-Result _ w q (failed-has_run connector_gone undefined signal)
    conclude-Result (done_first (failed code v) signal) w q =
        finish_failed-Result _ w q (failed-has_run code v signal)
    conclude-Result (done_first (returned heap v) (some reason)) w q =
        finish_failed-Result _ w q (aborted-has_run reason)
    conclude-Result (done_first (returned heap v) none) w q =
        bounded_output-Result heap v (bound_connector_output o.measure heap v) w q refl

    pub execute-Result :
        (w : World)
        → IsStarted o r before tool w
        → let e = execute_request r tool input handle in
          Result o r before (execute o r tool prefix e w).0 (execute o r tool prefix e w).1
    unfolding execute
    execute-Result w q = conclude-Result _ _ (record {
      executions = ap (λ l. execute_request r tool input handle ∷ l) q.executions;
      secrets = q.secrets;
      trail = q.trail;
    })
