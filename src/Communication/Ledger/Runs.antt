-- ===== src/Communication/Ledger/Runs.antt =====
-- Histories of calls: any methods, in any order, with any faults of the database.
use open_claw_bot_neo.Prelude.{List, [], ◌∷◌, All, arith}
use open_claw_bot_neo.Communication.Turn.{QueueConfig}
use open_claw_bot_neo.Communication.Transaction.{Env}
use open_claw_bot_neo.Communication.Ledger.Rows.{Ledger, empty, count}
use open_claw_bot_neo.Communication.Ledger.Step.{IsDistinct, Step}
use open_claw_bot_neo.Communication.Ledger.Admission.{
  ObserveCommand, observe_transport_event, AuthenticationCommand, record_authentication_result,
}
use open_claw_bot_neo.Communication.Ledger.Admission.Steps.{
  observe_transport_event-Step, record_authentication_result-Step,
}
use open_claw_bot_neo.Communication.Ledger.Acceptance.{AcceptCommand, accept_conversation_turn}
use open_claw_bot_neo.Communication.Ledger.Acceptance.Steps.{accept_conversation_turn-Step}
use open_claw_bot_neo.Communication.Ledger.Facts.{
  TransitionCommand, transition, FactsCommand, record_factual_outcome,
}
use open_claw_bot_neo.Communication.Ledger.Facts.Steps.{
  transition-Step, record_factual_outcome-Step,
}
use open_claw_bot_neo.Communication.Ledger.Invariant.Keys.{
  IsUnsequenced, Step-IsDistinct, Step-IsUnsequenced,
}
use open_claw_bot_neo.Communication.Ledger.Invariant.Capacity.{HasRoom, Step-HasRoom}
use open_claw_bot_neo.Communication.Ledger.Invariant.Sequence.{HasSequences, Step-HasSequences}

-- A call of one of the methods that write.
pub data Call : Type 0 where
  observes : ObserveCommand → Call
  authenticates : AuthenticationCommand → Call
  accepts : AcceptCommand → Call
  transitions : TransitionCommand → Call
  records : FactsCommand → Call

unfoldable pub perform : QueueConfig → Env → Call → Ledger → Ledger
perform cfg env (observes cmd) db = (observe_transport_event env cmd db).1
perform cfg env (authenticates cmd) db = (record_authentication_result env cmd db).1
perform cfg env (accepts cmd) db = (accept_conversation_turn cfg env cmd db).1
perform cfg env (transitions cmd) db = (transition env cmd db).1
perform cfg env (records cmd) db = (record_factual_outcome env cmd db).1

unfoldable pub run : QueueConfig → List (Env × Call) → Ledger → Ledger
unfolding perform
run cfg [] db = db
run cfg ((env, call) ∷ rest) db = run cfg rest (perform cfg env call db)

pub record Inv (cfg : QueueConfig) (db : Ledger) : Type 0 where
  pub distinct : IsDistinct db.turns
  pub unsequenced : All IsUnsequenced db.turns
  pub room : HasRoom cfg db.turns
  pub sequences : HasSequences db

module _ (cfg : QueueConfig) where
  pub empty-Inv : Inv cfg empty
  unfolding count
  empty-Inv = record {
    distinct = tt;
    unsequenced = tt;
    room = record { depth = λ o c. omega arith; global = omega arith };
    sequences = record { placed = tt; apart = tt };
  }

  -- Whatever a call does, it is one step of the ledger.
  pub perform-Step :
      (env : Env) (call : Call) (db : Ledger) → Inv cfg db → Step cfg db (perform cfg env call db)
  unfolding perform
  perform-Step env (observes cmd) db v = observe_transport_event-Step cfg db v.distinct env cmd
  perform-Step env (authenticates cmd) db v =
      record_authentication_result-Step cfg db v.distinct v.unsequenced env cmd
  perform-Step env (accepts cmd) db v = accept_conversation_turn-Step cfg db v.distinct env cmd
  perform-Step env (transitions cmd) db v = transition-Step cfg db v.distinct env cmd
  perform-Step env (records cmd) db v = record_factual_outcome-Step cfg db v.distinct env cmd

  pub Step-Inv : {db db' : Ledger} → Step cfg db db' → Inv cfg db → Inv cfg db'
  Step-Inv s v = record {
    distinct = Step-IsDistinct s v.distinct;
    unsequenced = Step-IsUnsequenced s v.unsequenced;
    room = Step-HasRoom s v.room;
    sequences = Step-HasSequences s v.sequences;
  }

  pub perform-Inv :
      (env : Env) (call : Call) (db : Ledger) → Inv cfg db → Inv cfg (perform cfg env call db)
  perform-Inv env call db v = Step-Inv (perform-Step env call db v) v

  -- From a ledger that satisfies the invariant, any history of calls, database faults and closed
  -- ports ends in one that does: turn identifiers and idempotency keys are unique, a turn that has
  -- not been accepted has no number, every conversation of an owner has at most the configured
  -- number of active turns and so has the whole ledger, every number that was given lies below its
  -- conversation's counter, and no two turns of one conversation have the same number.
  pub run-Inv : (calls : List (Env × Call)) (db : Ledger) → Inv cfg db → Inv cfg (run cfg calls db)
  unfolding run
  run-Inv [] db v = v
  run-Inv ((env, call) ∷ rest) db v =
      run-Inv rest (perform cfg env call db) (perform-Inv env call db v)
