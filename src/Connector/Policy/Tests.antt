-- ===== src/Connector/Policy/Tests.antt =====
-- The policy engine at concrete calls.
use open_claw_bot_neo.Prelude.{◌≡◌, ◌≢◌, ◌↔◌, some, true}
use open_claw_bot_neo.Connector.Capabilities.{
  ToolSideEffectClass, read_only, financial, destructive, cooperative,
}
use open_claw_bot_neo.Connector.Policy.{
  PolicyContext, require_approval, evaluate, IsUsable, evaluate-require_approval_iff,
}

abbrev call : ToolSideEffectClass → PolicyContext
call c = record {
  connection_id = some "acc";
  side_effect_class = c;
  connection_active = true;
  capability_allowed = true;
  cancellation_support = cooperative;
}

evaluate-require_approval_iff_example :
    (evaluate (call destructive) ≡ require_approval "Side effect requires approval.") ↔ (
      ((call destructive).side_effect_class ≢ read_only)
      × ((call destructive).side_effect_class ≢ financial)
      × ((call destructive).cancellation_support ≡ cooperative)
      × IsUsable (call destructive))
evaluate-require_approval_iff_example = evaluate-require_approval_iff (call destructive)
