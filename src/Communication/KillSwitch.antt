-- ===== src/Communication/KillSwitch.antt =====
-- src/core/communication/policy/communication-kill-switch-policy.ts: the switches that a turn must
-- pass before it reaches the model. An observation is a list of named values, as the plain object
-- that exactPlainObservation (not modelled: the check that the object has exactly the named data
-- properties) returns.
pub mod Decisions
mod Tests
use open_claw_bot_neo.Prelude.{
  Bool, true, false, not, ◌&&◌, ◌≡◌, ◌↔◌, Option, none, some, List, [], ◌∷◌, String, String_eq,
  ◌==◌, if◌then◌else◌, ◌>>=◌, arith, refl, ap, sym, ◌∙◌, Option-cases, inl, inr, map, All,
}

pub data DenialCode : Type 0 where
  communication_disabled llm_disabled delivery_disabled audit_unavailable ledger_unavailable
        scanner_unavailable conversation_state_unavailable config_invalid
        encryption_live_gate_blocked provider_route_blocked telegram_route_blocked :
      DenialCode

pub record Snapshot : Type 0 where
  pub communication_enabled : Bool
  pub llm_enabled : Bool
  pub delivery_enabled : Bool
  pub audit_available : Bool
  pub ledger_available : Bool
  pub scanner_available : Bool
  pub conversation_state_required : Bool
  pub conversation_state_available : Bool
  pub config_valid : Bool
  pub encryption_live_gate_satisfied : Bool
  pub offline_only : Bool
  pub provider_route_allowed : Bool
  pub telegram_route_allowed : Bool

pub data PolicyResult : Type 0 where
  eligible : Snapshot → PolicyResult
  denied : DenialCode → (llm_must_not_run delivery_must_not_run : Bool) → PolicyResult

abbrev deny : DenialCode → Bool → PolicyResult
deny code delivery_must_not_run = denied code true delivery_must_not_run

unfoldable pub evaluate_snapshot : Snapshot → PolicyResult
evaluate_snapshot s =
    if not s.communication_enabled
    then deny communication_disabled true
    else if not s.llm_enabled
    then deny llm_disabled true
    else if not s.delivery_enabled
    then deny delivery_disabled true
    else if not s.audit_available
    then deny audit_unavailable true
    else if not s.ledger_available
    then deny ledger_unavailable true
    else if not s.scanner_available
    then deny scanner_unavailable true
    else if s.conversation_state_required && not s.conversation_state_available
    then deny conversation_state_unavailable true
    else if not s.config_valid
    then deny config_invalid true
    else if not s.encryption_live_gate_satisfied
    then deny encryption_live_gate_blocked true
    else if not s.offline_only
    then deny config_invalid true
    else if s.provider_route_allowed
    then deny provider_route_blocked true
    else if s.telegram_route_allowed
    then deny telegram_route_blocked true
    else eligible s

-- A property's value; only Booleans are told apart from the rest.
pub data Value : Type 0 where
  boolean : Bool → Value
  other : Value

abbrev pub Observation : Type 0
Observation = List (String × Value)

-- readBoolean: `none` is the MALFORMED answer.
unfoldable pub read_boolean : String → Observation → Option Bool
read_boolean field [] = none
read_boolean field ((name, value) ∷ rest) =
    if name == field
    then elim value [ boolean b ↦ some b | other ↦ none ]
    else read_boolean field rest

-- parseCommunicationKillSwitchObservation on the plain object, and
-- canonicalizeCommunicationKillSwitchSnapshot, which reads the same Booleans again.
unfoldable pub parse_observation : Observation → Option Snapshot
unfolding read_boolean
parse_observation o = do
  communication_enabled ← read_boolean "communicationEnabled" o
  llm_enabled ← read_boolean "llmEnabled" o
  delivery_enabled ← read_boolean "deliveryEnabled" o
  audit_available ← read_boolean "auditAvailable" o
  ledger_available ← read_boolean "ledgerAvailable" o
  scanner_available ← read_boolean "scannerAvailable" o
  conversation_state_required ← read_boolean "conversationStateRequired" o
  conversation_state_available ← read_boolean "conversationStateAvailable" o
  config_valid ← read_boolean "configValid" o
  encryption_live_gate_satisfied ← read_boolean "encryptionLiveGateSatisfied" o
  offline_only ← read_boolean "offlineOnly" o
  provider_route_allowed ← read_boolean "providerRouteAllowed" o
  telegram_route_allowed ← read_boolean "telegramRouteAllowed" o
  some (record {
    communication_enabled = communication_enabled;
    llm_enabled = llm_enabled;
    delivery_enabled = delivery_enabled;
    audit_available = audit_available;
    ledger_available = ledger_available;
    scanner_available = scanner_available;
    conversation_state_required = conversation_state_required;
    conversation_state_available = conversation_state_available;
    config_valid = config_valid;
    encryption_live_gate_satisfied = encryption_live_gate_satisfied;
    offline_only = offline_only;
    provider_route_allowed = provider_route_allowed;
    telegram_route_allowed = telegram_route_allowed;
  })

-- applyCommunicationKillSwitchPolicy
unfoldable pub apply_policy : Observation → Option PolicyResult
apply_policy o = do snapshot ← parse_observation o; some (evaluate_snapshot snapshot)

-- KILL_SWITCH_OBSERVATION_FIELDS
abbrev pub observation_fields : List String
observation_fields =
    "communicationEnabled" ∷ "llmEnabled" ∷ "deliveryEnabled" ∷ "auditAvailable" ∷ "ledgerAvailable"
    ∷ "scannerAvailable" ∷ "conversationStateRequired" ∷ "conversationStateAvailable"
    ∷ "configValid" ∷ "encryptionLiveGateSatisfied" ∷ "offlineOnly" ∷ "providerRouteAllowed"
    ∷ "telegramRouteAllowed" ∷ []
