-- ===== src/Communication/Turn/Progress.antt =====
-- A turn only moves forward through its legal transitions.
use open_claw_bot_neo.Prelude.{ℕ, ◌<◌, ◌≡◌, true, arith}
use open_claw_bot_neo.Communication.Turn.{
  TurnState, observed, authentication_rejected, authenticated, accepted, queued, llm_started,
  llm_known_failed, deterministic_notice_prepared, llm_completed, output_validated,
  delivery_started, delivery_failed, delivery_outcome_unknown, cancelled, can_transition,
}

pub rank : TurnState → ℕ
rank observed = 0
rank authentication_rejected = 1
rank authenticated = 1
rank accepted = 2
rank queued = 3
rank llm_started = 4
rank llm_known_failed = 5
rank deterministic_notice_prepared = 6
rank llm_completed = 5
rank output_validated = 7
rank delivery_started = 8
rank TurnState.delivered = 9
rank delivery_failed = 9
rank delivery_outcome_unknown = 9
rank cancelled = 9
rank TurnState.completed = 10

pub can_transition-rank :
    (from to : TurnState) → can_transition from to ≡ true → rank from < rank to
unfolding can_transition rank
can_transition-rank observed to h = ground arith
can_transition-rank _ to h = ground arith
