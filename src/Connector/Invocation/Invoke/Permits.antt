-- ===== src/Connector/Invocation/Invoke/Permits.antt =====
-- What the connection, the policy and the approval leave, and the start of the execution.
use open_claw_bot_neo.Prelude.{
  ◌≡◌, ◌≢◌, ◌⊎◌, refl, sym, ap, subst, true, false, not, ◌&&◌, ◌==◌, String, String_eq, Option,
  none, some, List, ◌∷◌, is_none, if_cases, includes, arith, inl, inr,
}
use open_claw_bot_neo.Connector.Capabilities.{ToolCapability_eq, read_only, financial}
use open_claw_bot_neo.Connector.Policy.{
  PolicyDecision, allow, deny, require_approval, evaluate, evaluate-allow_iff,
}
use open_claw_bot_neo.Connector.Approval.{
  StoredRecord, get_record, Answer, Grant, create_request, consume_grant,
}
use open_claw_bot_neo.Connector.Approval
use open_claw_bot_neo.Connector.Approval.Uses.{consume_grant-ok_iff}
use open_claw_bot_neo.Connector.Json.{JsonFields}
use open_claw_bot_neo.Connector.Invocation.{
  Tool, ConnectionStatus, active, suspended, revoked, AccountConnection, Request, AuditKind,
  invocation_requested, policy_decision, approval_decision, execution_started, invocation_completed,
  AuditEvent, World, Outside, Outcome, unknown_outcome,
}
use open_claw_bot_neo.Connector.Invocation.Stages.{
  Staged, event, tell, is_active, usable, required, connect, policy_context, consume_binding,
  created, used, approve, by_decision, authorize, resolved, resolve, begin,
}
use open_claw_bot_neo.Connector.Invocation.Invoke.Outcomes.{
  is_executed, HasConnection, HasApproval, IsJustified, Follows, decided_by_policy,
  decided_by_approval, cancelled_allowed, cancelled_approved, started_allowed, started_approved,
  Trail, Result, Ends,
}
use open_claw_bot_neo.Connector.Invocation.Invoke.Steps.{Quiet, stopped, told}

active-only : (s : ConnectionStatus) → not (is_active s) ≡ false → s ≡ active
active-only active h = refl
active-only suspended h = absurd (cc)
active-only revoked h = absurd (cc)

module _ (o : Outside) (r : Request) (before : World) (tool : Tool) where
  -- The connection that is needed is there, and nothing has changed.
  abbrev pub IsConnected : World → World → Type 0
  IsConnected w after = (after ≡ w) × (tool.needs_account ≡ true → HasConnection o r tool)

  -- A stage that ends the call before the execution.
  ended :
      (last : Option AuditKind) (w : World)
      → Quiet r before last w
      → (outcome : Outcome) → is_executed outcome ≡ false
      → Result o r before outcome w
  ended last w q outcome h = stopped o r before last outcome w q h

  usable-Ends :
      (last : Option AuditKind) (id : String) (c : Option AccountConnection) (w : World)
      → Quiet r before last w
      → r.connection_id ≡ some id
      → o.get_connection id ≡ c
      → Ends (λ s. IsConnected w) (Result o r before) (usable o r tool c w)
  usable-Ends last id none w q named found = ended last w q _ refl
  usable-Ends last id (some c) w q named found =
      let P = λ (s : Staged (Option (String × String))).
        Ends (λ x. IsConnected w) (Result o r before) s in
      if_cases P (not (c.connector_id == tool.connector_id)) _ _ (λ p. ended last w q _ refl)
        (λ same.
          if_cases P (not (is_active c.status)) _ _ (λ p. ended last w q _ refl)
            (λ live.
              if_cases P (not (includes c.allowed_capabilities tool.capability)) _ _
                (λ p. ended last w q _ refl)
                (λ able. (
                  refl,
                  λ needed.
                      (id, c, named, found, ground arith, active-only c.status live, ground arith),
                ))))

  required-Ends :
      (last : Option AuditKind) (id : Option String) (w : World)
      → Quiet r before last w
      → r.connection_id ≡ id
      → Ends (λ s. IsConnected w) (Result o r before) (required o r tool id w)
  required-Ends last none w q named = ended last w q _ refl
  required-Ends last (some id) w q named = usable-Ends last id (o.get_connection id) w q named refl

  pub connect-Ends :
      (last : Option AuditKind) (w : World)
      → Quiet r before last w
      → Ends (λ s. IsConnected w) (Result o r before) (connect o r tool w)
  unfolding connect
  connect-Ends last w q =
      let P = λ (s : Staged (Option (String × String))).
        Ends (λ x. IsConnected w) (Result o r before) s in
      if_cases P (tool.needs_key && is_none r.idempotency_key) _ _ (λ p. ended last w q _ refl)
        (λ keyed.
          if_cases P (not tool.needs_account) _ _ (λ free. (refl, λ needed. absurd (ground arith)))
            (λ needed. required-Ends last r.connection_id w q refl))

  -- The event after which an execution may start, or the call be cancelled.
  abbrev pub MayStart : AuditKind → Type 0
  MayStart k = Follows (some k) invocation_completed × Follows (some k) execution_started

  abbrev pub IsAllowed : JsonFields → List StoredRecord → Type 0
  IsAllowed input approvals =
      (tool.side_effect_class ≡ read_only)
      ⊎ ((tool.side_effect_class ≢ financial) × HasApproval o r tool input approvals)

  abbrev pub IsPermitted : JsonFields → World → World → Type 0
  IsPermitted input w after =
      (k : AuditKind) × Quiet r before (some k) after × MayStart k × IsAllowed input w.approvals

  module _ (input : JsonFields) (prefix : Option String) where
    -- The event of an approval decision.
    answered :
        (w : World) (records : List StoredRecord) (e : AuditEvent)
        → Quiet r before (some policy_decision) w
        → e.kind ≡ approval_decision
        → e.invocation_id ≡ r.invocation_id
        → Quiet r before (some e.kind) (tell e (record w { approvals = records }))
    answered w records e q k same =
        told o r before (some policy_decision) (record w { approvals = records }) e
          (record { executions = q.executions; secrets = q.secrets; trail = q.trail })
          (subst (Follows (some policy_decision)) (sym k) decided_by_approval) same

    created-Ends :
        (a : Answer Grant × List StoredRecord) (w w0 : World)
        → Quiet r before (some policy_decision) w
        → Ends (λ u. IsPermitted input w0) (Result o r before) (created o r tool a prefix w)
    created-Ends (Approval.ok g, records) w w0 q =
        ended _ _ (answered w records _ q refl refl) _ refl
    created-Ends (Approval.err e, records) w w0 q =
        ended _ _ (answered w records _ q refl refl) _ refl

    used-Ends :
        (a : Answer (Unit {0}) × List StoredRecord) (w w0 : World)
        → Quiet r before (some policy_decision) w
        → (a.0 ≡ Approval.ok tt → IsAllowed input w0.approvals)
        → Ends (λ u. IsPermitted input w0) (Result o r before) (used o r tool a prefix w)
    used-Ends (Approval.ok u, records) w w0 q allowed = (
      approval_decision,
      answered w records _ q refl refl,
      (cancelled_approved, started_approved),
      allowed refl,
    )
    used-Ends (Approval.err e, records) w w0 q allowed =
        ended _ _ (answered w records _ q refl refl) _ refl

    approve-Ends :
        (id nonce : Option String) (w w0 : World)
        → Quiet r before (some policy_decision) w
        → w.approvals ≡ w0.approvals
        → tool.side_effect_class ≢ financial
        → r.approval_id ≡ id
        → r.approval_nonce ≡ nonce
        → Ends
            (λ u. IsPermitted input w0)
            (Result o r before)
            (approve o r tool id nonce (o.digest input) prefix w)
    approve-Ends none given w w0 q same plain named nonced = created-Ends _ w w0 q
    approve-Ends (some id) none w w0 q same plain named nonced = ended _ w q _ refl
    approve-Ends (some id) (some nonce) w w0 q same plain named nonced = used-Ends _ w w0 q (λ h.
        let (stored, found, fit) =
          (consume_grant-ok_iff o.clock id nonce (consume_binding o r tool (o.digest input) nonce)
              o.actor_id w.approvals).0
            h in
        inr (
          plain,
          (
            id,
            nonce,
            stored,
            named,
            nonced,
            subst (λ rs. get_record id rs ≡ some stored) same found,
            fit,
          ),
        ))

    by_decision-Ends :
        (d : PolicyDecision) (w : World)
        → Quiet r before (some invocation_requested) w
        → evaluate (policy_context o r tool) ≡ d
        → Ends
            (λ u. IsPermitted input w)
            (Result o r before)
            (by_decision o r tool d (o.digest input) prefix w)
    unfolding evaluate
    by_decision-Ends allow w q e = (
      policy_decision,
      told o r before (some invocation_requested) w _ q decided_by_policy refl,
      (cancelled_allowed, started_allowed),
      inl ((evaluate-allow_iff (policy_context o r tool)).0 e).0,
    )
    by_decision-Ends (deny reason) w q e =
        ended _ _ (told o r before (some invocation_requested) w _ q decided_by_policy refl) _ refl
    by_decision-Ends (require_approval reason) w q e =
        approve-Ends r.approval_id r.approval_nonce _ w
          (told o r before (some invocation_requested) w _ q decided_by_policy refl) refl
          (λ p. ground arith) refl refl

    pub authorize-Ends :
        (w : World)
        → Quiet r before (some invocation_requested) w
        → Ends
            (λ u. IsPermitted input w)
            (Result o r before)
            (authorize o r tool (o.digest input) prefix w)
    unfolding authorize
    authorize-Ends w q = by_decision-Ends (evaluate (policy_context o r tool)) w q refl

  -- The execution may start: nothing was asked of a connector, the secrets were asked for at most the
  -- one of the connection, and the start is audited.
  pub record IsStarted (after : World) : Type 0 where
    pub executions : after.executions ≡ before.executions
    pub secrets :
        (after.secrets ≡ before.secrets)
        ⊎ ((s : String × String) × (after.secrets ≡ s ∷ before.secrets))
    pub trail : Trail r before.audits (some execution_started) after.audits

  module _ (input : JsonFields) (why : IsJustified o r before.approvals tool input) where
    resolved-Ends :
        (handle : Option String) (s : String × String) (w : World)
        → w.executions ≡ before.executions
        → w.secrets ≡ s ∷ before.secrets
        → Trail r before.audits (some execution_started) w.audits
        → Ends (λ h. IsStarted) (Result o r before) (resolved o r tool handle w)
    resolved-Ends none s w e p t = record {
      execution = inl (refl, e);
      secret = inr (tool, input, s, p, why);
      trail = (some execution_started, t, λ x. absurd (cc));
      output = λ fs x. absurd (cc);
    }
    resolved-Ends (some h) s w e p t = record { executions = e; secrets = inr (s, p); trail = t }

    resolve-Ends :
        (s : Option (String × String)) (w : World)
        → Quiet r before (some execution_started) w
        → Ends (λ h. IsStarted) (Result o r before) (resolve o r tool s w)
    resolve-Ends none w q = record {
      executions = q.executions;
      secrets = inl q.secrets;
      trail = q.trail;
    }
    resolve-Ends (some s) w q =
        resolved-Ends (o.resolve_handle s) s (record w { secrets = s ∷ w.secrets }) q.executions
          (ap (λ l. s ∷ l) q.secrets) q.trail

    pub begin-Ends :
        (k : AuditKind) (prefix : Option String) (s : Option (String × String)) (w : World)
        → Quiet r before (some k) w
        → MayStart k
        → Ends (λ h. IsStarted) (Result o r before) (begin o r tool prefix s w)
    unfolding begin
    begin-Ends k prefix s w q (may_cancel, may_start) =
        let P = λ (s : Staged (Option String)). Ends (λ h. IsStarted) (Result o r before) s in
        let begun = told o r before (some k) w _ q may_start refl in
        if_cases P o.is_aborted _ _
          (λ p. ended _ _ (told o r before (some k) w _ q may_cancel refl) _ refl)
          (λ live.
            if_cases P (not (o.has_connector tool.connector_id)) _ _ (λ p. ended _ w q _ refl)
              (λ there.
                if_cases P
                  (not (
                    o.records_event w.audits
                      (event r tool prefix execution_started unknown_outcome none)))
                  _ _ (λ p. ended _ _ begun _ refl) (λ p. resolve-Ends s _ begun)))
