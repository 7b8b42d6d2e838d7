-- ===== src/Connector/Policy.antt =====
-- src/core/application/connector/default-deny-tool-policy-engine.ts
mod Tests
use open_claw_bot_neo.Prelude.{
  Bool, true, false, not, ◌&&◌, ◌||◌, ◌≡◌, ◌≢◌, ◌↔◌, Option, none, some, String, is_none, arith,
  if◌then◌else◌, ◌==◌, refl,
}
use open_claw_bot_neo.Connector.Capabilities.{
  ToolSideEffectClass, ToolSideEffectClass_eq, read_only, low_risk_write, external_communication,
  destructive, financial, infrastructure, credential_or_security_change, CancellationSupport,
  cooperative, unsupported, is_write_like_side_effect, is_financial_action,
}

-- The fields of ToolPolicyContext that the engine reads.
pub record PolicyContext : Type 0 where
  pub connection_id : Option String
  pub side_effect_class : ToolSideEffectClass
  pub connection_active : Bool
  pub capability_allowed : Bool
  pub cancellation_support : CancellationSupport

pub data PolicyDecision : Type 0 where
  allow : PolicyDecision
  deny require_approval : String → PolicyDecision

abbrev lacks_cancellation : CancellationSupport → Bool
lacks_cancellation cooperative = false
lacks_cancellation unsupported = true

unfoldable pub evaluate : PolicyContext → PolicyDecision
unfolding is_financial_action is_write_like_side_effect
evaluate c =
    if is_financial_action c.side_effect_class
    then deny "FINANCIAL actions are hard-denied."
    else if not c.connection_active && not (is_none c.connection_id)
    then deny "Connection is not active."
    else if not c.capability_allowed
    then deny "Capability is not allowed for this connection."
    else if lacks_cancellation c.cancellation_support
        && is_write_like_side_effect c.side_effect_class
    then deny "Write-like tools without cooperative cancellation are denied."
    else if c.side_effect_class == read_only
    then allow
    else if c.side_effect_class == low_risk_write
        || c.side_effect_class == external_communication
        || c.side_effect_class == destructive
        || c.side_effect_class == infrastructure
        || c.side_effect_class == credential_or_security_change
    then require_approval "Side effect requires approval."
    else deny "Denied by default policy."

-- A usable connection, where one is named, and an allowed capability.
abbrev pub IsUsable : PolicyContext → Type 0
IsUsable c = (c.connection_active ≡ false → c.connection_id ≡ none) × (c.capability_allowed ≡ true)

-- The engine allows a call without approval exactly when it only reads, over a connection that is
-- active or not named, with an allowed capability.
pub evaluate-allow_iff :
    (c : PolicyContext) → (evaluate c ≡ allow) ↔ ((c.side_effect_class ≡ read_only) × IsUsable c)
unfolding evaluate
evaluate-allow_iff c = (λ h. (ground arith, (λ p. ground arith, ground arith)), λ h. ground arith)

-- It asks for approval exactly when the call writes, is not financial and can be cancelled, over a
-- connection that is active or not named, with an allowed capability.
pub evaluate-require_approval_iff :
    (c : PolicyContext)
    → (evaluate c ≡ require_approval "Side effect requires approval.") ↔ (
        (c.side_effect_class ≢ read_only)
        × (c.side_effect_class ≢ financial)
        × (c.cancellation_support ≡ cooperative)
        × IsUsable c)
unfolding evaluate
evaluate-require_approval_iff c = (
  λ h. (λ p. ground arith, λ p. ground arith, ground arith, (λ p. ground arith, ground arith)),
  λ h. ground arith,
)
