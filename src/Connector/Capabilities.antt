-- ===== src/Connector/Capabilities.antt =====
-- src/core/domain/connector/capabilities.ts
use open_claw_bot_neo.Prelude.{Bool, not, Eq, ◌==◌}

pub data ToolSideEffectClass : Type 0 where
  read_only low_risk_write external_communication destructive financial infrastructure
        credential_or_security_change :
      ToolSideEffectClass

unfoldable pub ToolSideEffectClass-discrete : Discrete ToolSideEffectClass
ToolSideEffectClass-discrete = hlevel

instance abbrev pub ToolSideEffectClass_eq : Eq ToolSideEffectClass
ToolSideEffectClass_eq = record { decides = ToolSideEffectClass-discrete }

pub data CancellationSupport : Type 0 where
  cooperative unsupported : CancellationSupport

-- isWriteLikeSideEffect
unfoldable pub is_write_like_side_effect : ToolSideEffectClass → Bool
is_write_like_side_effect c = not (c == read_only)

-- isFinancialAction
unfoldable pub is_financial_action : ToolSideEffectClass → Bool
is_financial_action c = c == financial

pub data ToolCapability : Type 0 where
  read search list summarize create update delete send publish deploy restart administer :
      ToolCapability

unfoldable pub ToolCapability-discrete : Discrete ToolCapability
ToolCapability-discrete = hlevel

instance abbrev pub ToolCapability_eq : Eq ToolCapability
ToolCapability_eq = record { decides = ToolCapability-discrete }
