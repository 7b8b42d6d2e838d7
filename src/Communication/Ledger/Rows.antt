-- ===== src/Communication/Ledger/Rows.antt =====
-- The tables of the turn ledger and the prepared statements, as functions on lists of rows. The
-- order of a list stands for nothing: each statement selects by a unique key or counts.
use open_claw_bot_neo.Prelude.{
  ℕ, ◌+◌, Bool, false, not, ◌&&◌, ◌||◌, Option, none, some, List, [], ◌∷◌, String, String_eq, ℕ_eq,
  Option_eq, ◌==◌, if◌then◌else◌, is_none,
}
use open_claw_bot_neo.Communication.Turn.{
  TurnState, TurnState_eq, DeliveryStatus, CheckpointStatus, AuditStartStatus,
  AuditCompletionStatus, LlmOutcome, observed,
}

pub record TurnRow : Type 0 where
  pub turn_id : String
  pub transport_instance_id : String
  pub idempotency_key : String
  pub state : TurnState
  pub turn_revision : ℕ
  pub conversation_sequence : Option ℕ
  pub owner_id : Option String
  pub conversation_id : Option String
  pub correlation_id : Option String
  pub delivery_status : DeliveryStatus
  pub checkpoint_status : CheckpointStatus
  pub audit_start_status : AuditStartStatus
  pub audit_completion_status : AuditCompletionStatus
  pub llm_outcome : Option LlmOutcome
  pub error_code : Option String
  pub observed_at : String
  pub updated_at : String

pub record DedupRow : Type 0 where
  pub idempotency_key : String
  pub turn_id : String
  pub created_at : String

pub record CounterRow : Type 0 where
  pub owner_id : String
  pub conversation_id : String
  pub next_sequence : ℕ

pub record HistoryRow : Type 0 where
  pub turn_id : String
  pub recorded_at : String
  pub llm_outcome : Option LlmOutcome
  pub delivery_status : DeliveryStatus
  pub checkpoint_status : CheckpointStatus
  pub audit_start_status : AuditStartStatus
  pub audit_completion_status : AuditCompletionStatus
  pub error_code : Option String
  pub turn_revision : ℕ

pub record Ledger : Type 0 where
  pub turns : List TurnRow
  pub dedup : List DedupRow
  pub counters : List CounterRow
  pub history : List HistoryRow

abbrev pub empty : Ledger
empty = record { turns = []; dedup = []; counters = []; history = [] }

-- selectByTurnId, `loadTurn`
unfoldable pub load_turn : String → List TurnRow → Option TurnRow
load_turn id [] = none
load_turn id (r ∷ rs) = if r.turn_id == id then some r else load_turn id rs

-- selectByIdempotency
unfoldable pub select_by_key : String → List TurnRow → Option TurnRow
select_by_key key [] = none
select_by_key key (r ∷ rs) = if r.idempotency_key == key then some r else select_by_key key rs

-- The primary key of turn_dedup.
unfoldable pub has_dedup : String → List DedupRow → Bool
has_dedup key [] = false
has_dedup key (d ∷ ds) = d.idempotency_key == key || has_dedup key ds

-- insertTurn's VALUES
abbrev pub observed_row : String → String → String → String → TurnRow
observed_row id transport key at = record {
  turn_id = id;
  transport_instance_id = transport;
  idempotency_key = key;
  state = observed;
  turn_revision = 1;
  conversation_sequence = none;
  owner_id = none;
  conversation_id = none;
  correlation_id = none;
  delivery_status = DeliveryStatus.not_started;
  checkpoint_status = CheckpointStatus.not_required;
  audit_start_status = AuditStartStatus.pending;
  audit_completion_status = AuditCompletionStatus.not_started;
  llm_outcome = none;
  error_code = none;
  observed_at = at;
  updated_at = at;
}

-- updateTurn's SET: the columns that the statement leaves alone are those of the stored row.
abbrev pub set_columns : TurnRow → String → TurnRow → TurnRow
set_columns new updated_at r = record new {
  turn_id = r.turn_id;
  transport_instance_id = r.transport_instance_id;
  idempotency_key = r.idempotency_key;
  observed_at = r.observed_at;
  updated_at = updated_at;
}

-- updateTurn's WHERE
abbrev pub is_target : TurnRow → ℕ → TurnRow → Bool
is_target new expected r = r.turn_id == new.turn_id && r.turn_revision == expected

unfoldable pub update_turn : TurnRow → ℕ → String → List TurnRow → List TurnRow
update_turn new expected at [] = []
update_turn new expected at (r ∷ rs) =
    (if is_target new expected r then set_columns new at r else r) ∷ update_turn new expected at rs

-- `result.changes`
unfoldable pub changes : TurnRow → ℕ → List TurnRow → ℕ
changes new expected [] = 0
changes new expected (r ∷ rs) =
    (if is_target new expected r then 1 else 0) + changes new expected rs

-- writeTurn: `none` is the stale answer. The statement has run all the same.
unfoldable pub write_turn : TurnRow → ℕ → String → List TurnRow → Bool × List TurnRow
write_turn new expected at turns =
    (changes new expected turns == 1, update_turn new expected at turns)

-- selectSequence
unfoldable pub select_sequence : String → String → List CounterRow → Option ℕ
select_sequence owner conversation [] = none
select_sequence owner conversation (c ∷ cs) =
    if c.owner_id == owner && c.conversation_id == conversation
    then some c.next_sequence
    else select_sequence owner conversation cs

-- upsertSequence
unfoldable pub upsert_sequence : String → String → ℕ → List CounterRow → List CounterRow
upsert_sequence owner conversation n [] =
    record { owner_id = owner; conversation_id = conversation; next_sequence = n } ∷ []
upsert_sequence owner conversation n (c ∷ cs) =
    if c.owner_id == owner && c.conversation_id == conversation
    then record c { next_sequence = n } ∷ cs
    else c ∷ upsert_sequence owner conversation n cs

-- The rows that countGlobalActive counts: admitted to a queue and not completed.
unfoldable pub is_active : TurnRow → Bool
is_active r = not (is_none r.conversation_sequence) && not (r.state == TurnState.completed)

-- The rows that countConversationActive counts.
unfoldable pub is_active_in : String → String → TurnRow → Bool
unfolding is_active
is_active_in owner conversation r =
    r.owner_id == some owner && r.conversation_id == some conversation && is_active r

unfoldable pub count : (TurnRow → Bool) → List TurnRow → ℕ
count p [] = 0
count p (r ∷ rs) = (if p r then 1 else 0) + count p rs
