-- ===== src/Communication/KillSwitch/Decisions.antt =====
-- Which turns communication-kill-switch-policy.ts lets through.
use open_claw_bot_neo.Prelude.{Bool, true, false, ◌≡◌, ◌↔◌, none, ap, sym, ◌∙◌, arith, All}
use open_claw_bot_neo.Communication.KillSwitch.{
  DenialCode, Snapshot, eligible, denied, evaluate_snapshot, Observation, read_boolean,
  parse_observation, apply_policy, observation_fields,
}

-- Every switch stands where a turn may run offline.
pub record IsClear (s : Snapshot) : Type 0 where
  pub communication : s.communication_enabled ≡ true
  pub llm : s.llm_enabled ≡ true
  pub delivery : s.delivery_enabled ≡ true
  pub audit : s.audit_available ≡ true
  pub ledger : s.ledger_available ≡ true
  pub scanner : s.scanner_available ≡ true
  pub conversation_state :
      s.conversation_state_required ≡ true → s.conversation_state_available ≡ true
  pub config : s.config_valid ≡ true
  pub encryption : s.encryption_live_gate_satisfied ≡ true
  pub offline : s.offline_only ≡ true
  pub no_provider : s.provider_route_allowed ≡ false
  pub no_telegram : s.telegram_route_allowed ≡ false

evaluate_snapshot-IsClear :
    (s s' : Snapshot) → evaluate_snapshot s ≡ eligible s' → (s' ≡ s) × IsClear s
unfolding evaluate_snapshot
evaluate_snapshot-IsClear s s' h = (
  ground arith,
  record {
    communication = ground arith;
    llm = ground arith;
    delivery = ground arith;
    audit = ground arith;
    ledger = ground arith;
    scanner = ground arith;
    conversation_state = λ p. ground arith;
    config = ground arith;
    encryption = ground arith;
    offline = ground arith;
    no_provider = ground arith;
    no_telegram = ground arith;
  },
)

evaluate_snapshot-eligible : (s : Snapshot) → IsClear s → evaluate_snapshot s ≡ eligible s
unfolding evaluate_snapshot
evaluate_snapshot-eligible s v =
    let c = v.communication in
    let l = v.llm in
    let d = v.delivery in
    let a = v.audit in
    let g = v.ledger in
    let n = v.scanner in
    let st = v.conversation_state in
    let f = v.config in
    let e = v.encryption in
    let o = v.offline in let p = v.no_provider in let t = v.no_telegram in ground arith

-- A turn is eligible exactly when communication, model, delivery, audit, ledger, scanner,
-- configuration and encryption gate are on, conversation state is available where it is required,
-- the process is offline only, and the provider and Telegram routes are not allowed; the snapshot
-- that is handed on is the one that was evaluated.
pub evaluate_snapshot-eligible_iff :
    (s s' : Snapshot) → (evaluate_snapshot s ≡ eligible s') ↔ ((s' ≡ s) × IsClear s)
evaluate_snapshot-eligible_iff s s' =
    (evaluate_snapshot-IsClear s s', λ e. evaluate_snapshot-eligible s e.1 ∙ ap eligible (sym e.0))

-- A denial, whatever its code, forbids both the model and the delivery.
evaluate_snapshot-denied :
    (s : Snapshot) (code : DenialCode) (llm delivery : Bool)
    → evaluate_snapshot s ≡ denied code llm delivery
    → (llm ≡ true) × (delivery ≡ true)
unfolding evaluate_snapshot
evaluate_snapshot-denied s code llm delivery h = (ground arith, ground arith)

-- Fails closed: an observation that lacks a required field, or has another value than a Boolean
-- there, yields no decision at all.
apply_policy-malformed :
    (o : Observation)
    → All (λ field. read_boolean field o ≡ none → apply_policy o ≡ none) observation_fields
unfolding apply_policy parse_observation
apply_policy-malformed o = (
  λ h. ground arith,
  (
    λ h. ground arith,
    (
      λ h. ground arith,
      (
        λ h. ground arith,
        (
          λ h. ground arith,
          (
            λ h. ground arith,
            (
              λ h. ground arith,
              (
                λ h. ground arith,
                (
                  λ h. ground arith,
                  (
                    λ h. ground arith,
                    (λ h. ground arith, (λ h. ground arith, (λ h. ground arith, tt))),
                  ),
                ),
              ),
            ),
          ),
        ),
      ),
    ),
  ),
)
