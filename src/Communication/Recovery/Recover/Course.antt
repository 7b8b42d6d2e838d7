-- ===== src/Communication/Recovery/Recover/Course.antt =====
-- The course of a turn through what recovery asks, and the rule by which a part is followed by the next.
use open_claw_bot_neo.Prelude.{ℕ, ◌≡◌, Bool, true, false, not, String, ◌∷◌, is_none}
use open_claw_bot_neo.Communication.Turn.{
  TurnState, delivery_started, delivery_outcome_unknown, llm_started, can_transition,
}
use open_claw_bot_neo.Communication.Recovery.{
  BarrierReason, BarrierReply, DeliveryReply, Ports, Candidate, Action, asked_transition,
  asked_barrier, listed, Log, Recovered, ok, err, Ran, and_then,
}

-- An action that neither asks for a transition nor lists the unfinished turns.
abbrev pub IsAside : Action → Type 0
IsAside (asked_transition turn revision from to) = ⊥
IsAside listed = ⊥
IsAside _ = Unit

-- `Course turn start base s b log`: since base, each transition asked for the turn was legal and set
-- out from the state that the one before it had asked for, the first from start; the last asked for
-- s; and b says whether a barrier is on record.
pub data Course (turn : String) (start : TurnState) (base : Log)
    : TurnState → Bool → Log → Type 0 where
  at_start : Course turn start base start false base
  move_to :
      (s to : TurnState) (b : Bool) (revision : ℕ) (log : Log)
      → Course turn start base s b log
      → can_transition s to ≡ true
      → Course turn start base to b (asked_transition turn revision s to ∷ log)
  bar :
      (s : TurnState) (b : Bool) (reason : BarrierReason) (revision : ℕ) (log : Log)
      → Course turn start base s b log
      → Course turn start base s true
          (asked_barrier turn reason revision BarrierReply.recorded ∷ log)
  bar_again :
      (s : TurnState) (b : Bool) (reason : BarrierReason) (revision : ℕ) (log : Log)
      → Course turn start base s b log
      → Course turn start base s true
          (asked_barrier turn reason revision BarrierReply.already_recorded ∷ log)
  aside :
      (s : TurnState) (b : Bool) (a : Action) (log : Log)
      → Course turn start base s b log
      → IsAside a
      → Course turn start base s b (a ∷ log)

abbrev pub is_known : DeliveryReply → Bool
is_known DeliveryReply.delivered = true
is_known DeliveryReply.known_failure = true
is_known _ = false

-- The turns whose outcome nobody knows: the answer of the model, or the delivery.
abbrev pub is_uncertain : Ports → Candidate → Log → TurnState → Bool
is_uncertain p c log delivery_started = not (is_known (p.read_delivery_outcome log c.turn_id))
is_uncertain p c log delivery_outcome_unknown = true
is_uncertain p c log llm_started = is_none c.llm_outcome
is_uncertain p c log _ = false

-- Wherever a failed recovery stopped, its course was legal.
abbrev pub IsLegal : String → TurnState → Log → Log → Type 0
IsLegal turn start base log = (s : TurnState) × (b : Bool) × Course turn start base s b log

-- P of the result and what was asked, if a part succeeds, and Q of what was asked if it fails.
abbrev pub After : {A : Type 0} → (A → Log → Type 0) → (Log → Type 0) → Ran A → Type 0
After P Q (ok a, log) = P a log
After P Q (err e, log) = Q log

pub and_then-After :
    {A B : Type 0} (P : A → Log → Type 0) (R : B → Log → Type 0) (Q : Log → Type 0) (r : Ran A)
    (f : A → Log → Ran B)
    → After P Q r
    → ((a : A) (log : Log) → P a log → After R Q (f a log))
    → After R Q (and_then r f)
and_then-After P R Q (ok a, log) f h g = g a log h
and_then-After P R Q (err e, log) f h g = h

-- A result that may be either.
pub either-After :
    {A : Type 0} (P : A → Log → Type 0) (Q : Log → Type 0) (r : Recovered A) (log : Log)
    → ((a : A) → P a log)
    → Q log
    → After P Q (r, log)
either-After P Q (ok a) log p q = p a
either-After P Q (err e) log p q = q
