-- ===== src/Communication/KillSwitch/Tests.antt =====
-- The kill switches at concrete observations.
use open_claw_bot_neo.Prelude.{true, false, ◌≡◌, ◌↔◌, refl, some, map, String-discrete}
use open_claw_bot_neo.Communication.KillSwitch.{
  Snapshot, eligible, boolean, evaluate_snapshot, Observation, read_boolean, parse_observation,
  observation_fields,
}
use open_claw_bot_neo.Communication.KillSwitch.Decisions.{IsClear, evaluate_snapshot-eligible_iff}

abbrev clear : Snapshot
clear = record {
  communication_enabled = true;
  llm_enabled = true;
  delivery_enabled = true;
  audit_available = true;
  ledger_available = true;
  scanner_available = true;
  conversation_state_required = false;
  conversation_state_available = false;
  config_valid = true;
  encryption_live_gate_satisfied = true;
  offline_only = true;
  provider_route_allowed = false;
  telegram_route_allowed = false;
}

abbrev observed : Observation
observed = map (λ f. (f, boolean true)) observation_fields

evaluate_snapshot-eligible_iff_example :
    (evaluate_snapshot clear ≡ eligible clear) ↔ ((clear ≡ clear) × IsClear clear)
evaluate_snapshot-eligible_iff_example = evaluate_snapshot-eligible_iff clear clear

all_on : (s : Snapshot) × (parse_observation observed ≡ some s)
unfolding parse_observation read_boolean String-discrete
all_on = (_, refl)
