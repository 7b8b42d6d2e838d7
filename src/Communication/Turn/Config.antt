-- ===== src/Communication/Turn/Config.antt =====
-- src/core/communication/domain/communication-turn.ts, parseCommunicationQueueConfig: the bounds of the
-- queues, out of a value that may be anything. Every failure is MALFORMED; its reason is left out.
use open_claw_bot_neo.Prelude.{
  ℕ, ◌≤◌, ◌≡◌, ◌↔◌, ◌||◌, not, Option, none, some, ltb, max_safe_integer, is_safe_integer,
  if◌then◌else◌, arith,
}
use open_claw_bot_neo.Communication.Turn.{QueueConfig}

-- The descriptor of a property, as far as it is looked at: it is not there or has a getter, or its value
-- is a natural number, or anything else.
pub data Property : Type 0 where
  absent accessor other : Property
  number : ℕ → Property

-- The value: `object`, with its properties maxDepthPerConversation and maxGlobalPending
pub data Observed : Type 0 where
  not_object : Observed
  object : Property → Property → Observed

-- parseQueueInteger, of a property that has a value
unfoldable pub parse_queue_integer : Property → (min max : ℕ) → Option ℕ
parse_queue_integer (number n) min max =
    if not (is_safe_integer n) then none else if ltb n min || ltb max n then none else some n
parse_queue_integer _ min max = none

abbrev config_of : Option ℕ → Option ℕ → Option QueueConfig
config_of (some depth) (some global) =
    some (record { max_depth_per_conversation = depth; max_global_pending = global })
config_of _ _ = none

abbrev min_max_depth : ℕ
min_max_depth = 2

abbrev max_max_depth : ℕ
max_max_depth = 64

abbrev min_max_global_pending : ℕ
min_max_global_pending = 1

abbrev max_max_global_pending : ℕ
max_max_global_pending = 4096

-- parseCommunicationQueueConfig
unfoldable pub parse_communication_queue_config : Observed → Option QueueConfig
parse_communication_queue_config not_object = none
parse_communication_queue_config (object depth global) =
    config_of (parse_queue_integer depth min_max_depth max_max_depth)
      (parse_queue_integer global min_max_global_pending max_max_global_pending)

-- defaultCommunicationQueueConfig
abbrev pub default_communication_queue_config : QueueConfig
default_communication_queue_config = record {
  max_depth_per_conversation = 8;
  max_global_pending = min_max_global_pending;
}

parse_queue_integer-some_iff :
    (v : Property) (min max n : ℕ)
    → max ≤ max_safe_integer
    → (parse_queue_integer v min max ≡ some n) ↔ ((v ≡ number n) × (min ≤ n) × (n ≤ max))
unfolding parse_queue_integer
parse_queue_integer-some_iff absent min max n safe = (λ h. absurd (cc), λ h. absurd (cc))
parse_queue_integer-some_iff accessor min max n safe = (λ h. absurd (cc), λ h. absurd (cc))
parse_queue_integer-some_iff other min max n safe = (λ h. absurd (cc), λ h. absurd (cc))
parse_queue_integer-some_iff (number m) min max n safe =
    (λ h. (ground arith, ground arith, ground arith), λ h. ground arith)

config_of-some_iff :
    (depth global : Option ℕ) (cfg : QueueConfig)
    → (config_of depth global ≡ some cfg)
      ↔ ((depth ≡ some cfg.max_depth_per_conversation) × (global ≡ some cfg.max_global_pending))
config_of-some_iff (some d) (some g) cfg = (λ h. (ground arith, ground arith), λ h. ground arith)
config_of-some_iff none global cfg = (λ h. absurd (cc), λ h. absurd (cc))
config_of-some_iff (some d) none cfg = (λ h. absurd (cc), λ h. absurd (cc))

-- A configuration is accepted exactly when its two properties are natural numbers, the depth of a
-- conversation from 2 to 64 and the pending turns of all conversations from 1 to 4096, and it is read
-- as these two.
pub parse_communication_queue_config-some_iff :
    (depth global : Property) (cfg : QueueConfig)
    → (parse_communication_queue_config (object depth global) ≡ some cfg) ↔ (
        (depth ≡ number cfg.max_depth_per_conversation)
        × (global ≡ number cfg.max_global_pending)
        × (2 ≤ cfg.max_depth_per_conversation)
        × (cfg.max_depth_per_conversation ≤ 64)
        × (1 ≤ cfg.max_global_pending)
        × (cfg.max_global_pending ≤ 4096))
unfolding parse_communication_queue_config
parse_communication_queue_config-some_iff depth global cfg =
    let whole =
      config_of-some_iff (parse_queue_integer depth min_max_depth max_max_depth)
        (parse_queue_integer global min_max_global_pending max_max_global_pending) cfg in
    let d = parse_queue_integer-some_iff depth 2 64 cfg.max_depth_per_conversation (omega arith) in
    let g = parse_queue_integer-some_iff global 1 4096 cfg.max_global_pending (omega arith) in
    (
      λ h.
          let (a, b) = whole.0 h in
          let (a1, a2, a3) = d.0 a in let (b1, b2, b3) = g.0 b in (a1, b1, a2, a3, b2, b3),
      λ (a1, b1, a2, a3, b2, b3). whole.1 (d.1 (a1, a2, a3), g.1 (b1, b2, b3)),
    )
