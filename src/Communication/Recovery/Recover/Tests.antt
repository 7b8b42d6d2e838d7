-- ===== src/Communication/Recovery/Recover/Tests.antt =====
-- The recovery of turns, at concrete turns and ports.
use open_claw_bot_neo.Prelude.{
  ℕ, suc, ◌+◌, ◌≡◌, ◌≢◌, refl, Bool, true, String, String-discrete, none, some, [], ◌∷◌,
  if◌then◌else◌, arith,
}
use open_claw_bot_neo.Communication.Turn.{
  TurnState, llm_started, llm_known_failed, cancelled, completed, CheckpointStatus,
  AuditStartStatus, AuditCompletionStatus, can_transition,
}
use open_claw_bot_neo.Communication.Recovery.{
  TransitionReply, transitioned, illegal_transition, FactualReply, RecordReply, DeliveryReply,
  LoadReply, BarrierReply, Candidate, candidates, asked_transition, Log, Ports,
}
use open_claw_bot_neo.Communication.Recovery.Recover.{recover_one}
use open_claw_bot_neo.Communication.Recovery.Recover.Pages.{
  recover_page, recover_communication_turns, SideEffects,
}
use open_claw_bot_neo.Communication.Recovery.Recover.Course.{Course, is_uncertain, IsLegal, After}
use open_claw_bot_neo.Communication.Recovery.Recover.Listings.{
  listings, Ends, recover_communication_turns-Ends,
}
use open_claw_bot_neo.Communication.Recovery.Recover.Promises.{recover_one-Course}
use open_claw_bot_neo.Communication.Recovery.Recover.Stuck.{
  command, over_ledger, StopsAt, recover_page-llm_known_failed,
}
use open_claw_bot_neo.Communication.Transaction.{Env}
use open_claw_bot_neo.Communication.Ledger.Rows.{TurnRow, Ledger, empty, load_turn, observed_row}
use open_claw_bot_neo.Communication.Ledger.Facts.{transition}

abbrev of_table : Log → String → ℕ → TurnState → TurnState → TransitionReply
of_table log turn revision from to =
    if can_transition from to then transitioned (suc revision) else illegal_transition

-- Ports that take everything that is legal, and know of no delivery and no unfinished turn
abbrev ports : Ports
ports = record {
  correlates = λ turn correlation. true;
  transition = of_table;
  record_factual_outcome = λ log turn revision fact. FactualReply.recorded (suc revision);
  read_delivery_outcome = λ log turn. DeliveryReply.not_recorded;
  record_delivery_outcome = λ log turn. RecordReply.recorded;
  load = λ log c. LoadReply.not_found;
  record_checkpoint_barrier = λ log turn reason revision. BarrierReply.recorded;
  record_completion = λ log turn delivery checkpoint completion. RecordReply.recorded;
  list_recovery_candidates = λ log. candidates [];
}

abbrev turn_in : TurnState → Candidate
turn_in s = record {
  turn_id = "turn-1";
  correlation_id = none;
  owner_id = some "owner-1";
  conversation_id = some "conversation-1";
  llm_outcome = none;
  state = s;
  turn_revision = 4;
  checkpoint_status = CheckpointStatus.pending;
  audit_start = AuditStartStatus.succeeded;
  audit_completion = AuditCompletionStatus.pending;
}

abbrev started : Candidate
started = turn_in llm_started

abbrev known_failed : Candidate
known_failed = turn_in llm_known_failed

started-unended : started.state ≢ completed
started-unended h = ground arith

started-unknown : started.state ≢ llm_known_failed
started-unknown h = ground arith

recover_one-Course_example :
    After
      (λ u after.
        (b : Bool) × Course "turn-1" llm_started [] completed b after
        × (is_uncertain ports started [] llm_started ≡ true → b ≡ true))
      (λ after. IsLegal "turn-1" llm_started [] after)
      (recover_one ports started [])
recover_one-Course_example = recover_one-Course ports started [] started-unended started-unknown

abbrev stuck_row : TurnRow
stuck_row = record (observed_row "turn-1" "telegram" "key-1" "2026-01-01T00:00:00.000Z") {
  state = llm_known_failed;
  turn_revision = 4;
}

abbrev stuck_ledger : Ledger
stuck_ledger = record empty { turns = stuck_row ∷ [] }

abbrev calm : Env
calm = record { is_open = true; fault = none; now = "2026-01-01T00:00:00.000Z" }

stuck-there : load_turn "turn-1" (stuck_row ∷ []) ≡ some stuck_row
unfolding load_turn String-discrete
stuck-there = refl

recover_page-llm_known_failed_example :
    StopsAt (asked_transition "turn-1" 4 llm_known_failed cancelled) [] (
      recover_page
        (over_ledger (λ l. calm) (λ l. stuck_ledger) "recovery-turn-1" ports)
        (known_failed ∷ started ∷ [])
        0
        [])
    × ((transition calm
          (command "turn-1" "recovery-turn-1" 4 llm_known_failed cancelled)
          stuck_ledger).1
        ≡ stuck_ledger)
recover_page-llm_known_failed_example =
    recover_page-llm_known_failed (λ l. calm) (λ l. stuck_ledger) "recovery-turn-1" ports
      known_failed (started ∷ []) 0 [] stuck_row refl refl refl stuck-there refl

abbrev no_side_effects : SideEffects
no_side_effects = record { llm_calls = 0; delivery_calls = 0; memory_calls = 0 }

recover_communication_turns-Ends_example :
    Ends ports (10000 + listings []) (recover_communication_turns ports no_side_effects [])
recover_communication_turns-Ends_example = recover_communication_turns-Ends ports no_side_effects []
