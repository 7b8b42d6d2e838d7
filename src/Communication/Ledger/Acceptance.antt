-- ===== src/Communication/Ledger/Acceptance.antt =====
-- acceptConversationTurn: the turn gets the next sequence number of its conversation, unless the
-- conversation or the whole queue is full.
pub mod Steps
pub mod Order
use open_claw_bot_neo.Prelude.{
  ℕ, ◌+◌, Bool, true, false, not, ◌&&◌, Option, none, some, String, String_eq, ℕ_eq, ◌==◌,
  if◌then◌else◌, is_none, leb, is_safe_integer, or_else,
}
use open_claw_bot_neo.Communication.Turn.{TurnState, TurnState_eq, QueueConfig, can_transition}
use open_claw_bot_neo.Communication.Transaction.{
  Fault, busy, broken, Env, Tx, commit, throw, Reply, port_method,
}
use open_claw_bot_neo.Communication.Ledger.Rows.{
  TurnRow, Ledger, load_turn, write_turn, select_sequence, upsert_sequence, is_active, is_active_in,
  count,
}
use open_claw_bot_neo.Communication.Ledger.Admission.{ledger_closed}

pub record AcceptCommand : Type 0 where
  pub turn_id : String
  pub expected_revision : ℕ
  pub correlation_id : String

pub data AcceptOutcome : Type 0 where
  accepted : (conversation_sequence turn_revision : ℕ) → AcceptOutcome
  already_accepted : (conversation_sequence : ℕ) → AcceptOutcome
  illegal_transition : (from to : TurnState) → AcceptOutcome
  stale_revision queue_full global_queue_full : AcceptOutcome
  unavailable concurrency_conflict : String → AcceptOutcome

-- `asSequence`, which throws outside 1 .. MAX_SAFE_INTEGER.
abbrev pub is_sequence : ℕ → Bool
is_sequence n = leb 1 n && is_safe_integer n

abbrev pub assigned_row : AcceptCommand → TurnRow → ℕ → TurnRow
assigned_row cmd row assigned = record row {
  state = TurnState.accepted;
  turn_revision = row.turn_revision + 1;
  conversation_sequence = some assigned;
  correlation_id = some cmd.correlation_id;
}

-- upsertSequence, writeTurn and the two conversions of the result. `asRevision` throws on overflow.
write_accepted :
    String
    → AcceptCommand
    → TurnRow
    → (owner conversation : String) → ℕ
    → Ledger
    → Tx AcceptOutcome Ledger
write_accepted now cmd row owner conversation assigned db =
    let (written, turns) =
      write_turn (assigned_row cmd row assigned) row.turn_revision now db.turns in
    let after : Ledger = record db {
      turns = turns;
      counters = upsert_sequence owner conversation (assigned + 1) db.counters;
    } in
    if not written
    then commit stale_revision after
    else if not (is_safe_integer (row.turn_revision + 1))
    then throw
    else commit (accepted assigned (row.turn_revision + 1)) after

assign_sequence :
    String
    → AcceptCommand
    → TurnRow
    → (owner conversation : String) → ℕ
    → Ledger
    → Tx AcceptOutcome Ledger
unfolding write_accepted
assign_sequence now cmd row owner conversation assigned db =
    if not (is_sequence assigned)
    then commit (unavailable "Malformed sequence counter.") db
    else if not (is_safe_integer (assigned + 1))
    then commit (unavailable "Sequence counter overflow.") db
    else write_accepted now cmd row owner conversation assigned db

admit :
    QueueConfig
    → String
    → AcceptCommand
    → TurnRow
    → (owner conversation : String) → Ledger
    → Tx AcceptOutcome Ledger
unfolding assign_sequence
admit cfg now cmd row owner conversation db =
    if leb cfg.max_depth_per_conversation (count (is_active_in owner conversation) db.turns)
    then commit queue_full db
    else if leb cfg.max_global_pending (count is_active db.turns)
    then commit global_queue_full db
    else assign_sequence now cmd row owner conversation
        (or_else (select_sequence owner conversation db.counters) 1) db

admit_claimed :
    QueueConfig
    → String
    → AcceptCommand
    → TurnRow
    → (owner conversation : Option String) → Ledger
    → Tx AcceptOutcome Ledger
unfolding admit
admit_claimed cfg now cmd row (some owner) (some conversation) db =
    admit cfg now cmd row owner conversation db
admit_claimed cfg now cmd row _ _ db =
    commit (unavailable "Authenticated owner/conversation claims required.") db

accept_fresh : QueueConfig → String → AcceptCommand → TurnRow → Ledger → Tx AcceptOutcome Ledger
unfolding admit_claimed
accept_fresh cfg now cmd row db =
    if not (row.turn_revision == cmd.expected_revision)
    then commit stale_revision db
    else if not (can_transition row.state TurnState.accepted)
    then commit (illegal_transition row.state TurnState.accepted) db
    else admit_claimed cfg now cmd row row.owner_id row.conversation_id db

accept_row : QueueConfig → String → AcceptCommand → TurnRow → Ledger → Tx AcceptOutcome Ledger
unfolding accept_fresh
accept_row cfg now cmd row db =
    if not (is_safe_integer row.turn_revision)
    then commit (unavailable "Malformed turn revision.") db
    else if row.state == TurnState.accepted
    then elim row.conversation_sequence [
      | none ↦ accept_fresh cfg now cmd row db
      | some n ↦ if is_sequence n then commit (already_accepted n) db else throw
    ]
    else accept_fresh cfg now cmd row db

unfoldable pub accept_body : QueueConfig → String → AcceptCommand → Ledger → Tx AcceptOutcome Ledger
unfolding accept_row
accept_body cfg now cmd db = elim (load_turn cmd.turn_id db.turns) [
  | none ↦ commit (unavailable "Turn not found.") db
  | some row ↦ accept_row cfg now cmd row db
]

accept_caught : Fault → AcceptOutcome
accept_caught busy = concurrency_conflict "SQLite database is busy or locked."
accept_caught broken = unavailable "Accept conversation turn failed."

unfoldable pub accept_conversation_turn :
    QueueConfig → Env → AcceptCommand → Ledger → Reply AcceptOutcome × Ledger
unfolding accept_body accept_caught
accept_conversation_turn cfg env cmd db =
    port_method env ledger_closed accept_caught db (accept_body cfg env.now cmd db)
