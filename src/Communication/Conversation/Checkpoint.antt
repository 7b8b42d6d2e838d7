-- ===== src/Communication/Conversation/Checkpoint.antt =====
-- load and checkpoint of sqlite-conversation-state-port.ts. The reasons of the outcome
-- `unavailable` are left out.
use open_claw_bot_neo.Prelude.{
  ℕ, Bool, not, ◌&&◌, Option, none, some, List, [], ◌∷◌, String, String_eq, ℕ_eq, Option_eq, ◌==◌,
  if◌then◌else◌, is_safe_integer, ◌||◌,
}
use open_claw_bot_neo.Communication.Transaction.{
  Fault, Env, Tx, commit, Reply, ok, err, run_immediate, guarded,
}
use open_claw_bot_neo.Communication.Conversation.Snapshot.{Key, Snapshot}
use open_claw_bot_neo.Communication.Conversation.Json.{Json}
use open_claw_bot_neo.Communication.Conversation.Serialization.{
  Parts, encode_snapshot_parts, decode_snapshot, texts_for_scan, pause_text, status_text,
}
use open_claw_bot_neo.Communication.Conversation.Tables.{
  SnapshotRow, OpRow, Tables, select_snapshot, upsert_snapshot, select_op, insert_op, columns,
}

abbrev pub closed_code : String
closed_code = "CONVERSATION_STATE_UNAVAILABLE"

pub data LoadOutcome : Type 0 where
  found : Snapshot → LoadOutcome
  not_found unavailable : LoadOutcome

abbrev decoded_outcome : Option Snapshot → LoadOutcome
decoded_outcome none = LoadOutcome.unavailable
decoded_outcome (some s) = found s

abbrev pub load_row : Json → Option SnapshotRow → LoadOutcome
load_row j none = not_found
load_row j (some row) = decoded_outcome (decode_snapshot j (columns row))

abbrev load_faulty : Option Fault → LoadOutcome → LoadOutcome
load_faulty none read = read
load_faulty (some f) read = LoadOutcome.unavailable

-- load; it only reads, so that a fault has no transaction to roll back.
unfoldable pub load : Env → Json → Key → Tables → Reply LoadOutcome × Tables
load env j key t =
    guarded env.is_open (load_faulty env.fault (load_row j (select_snapshot key t.snapshots)), t)
      closed_code t

-- What the scanner port answers for a text.
pub data Scan : Type 0 where
  scanner_unavailable : Scan
  scanned : (allowed : Bool) → (findings : ℕ) → Scan

abbrev scan_rest : Scan → Option String → Option String
scan_rest scanner_unavailable rest = some "SECRET_SCAN_UNAVAILABLE"
scan_rest (scanned allowed findings) rest =
    if not allowed || not (findings == 0) then some "CONVERSATION_STATE_UNAVAILABLE" else rest

-- scanSnapshotFailClosed: the code of the error, if any.
unfoldable pub scan_texts : (String → Scan) → List String → Option String
scan_texts scan [] = none
scan_texts scan (t ∷ ts) = scan_rest (scan t) (scan_texts scan ts)

pub record CheckpointCommand : Type 0 where
  pub key : Key
  pub expected_revision : ℕ
  pub next_snapshot : Snapshot
  pub idempotency_key : String

pub data CheckpointOutcome : Type 0 where
  stored already_applied stale_revision barrier_active unavailable : CheckpointOutcome

abbrev applied_or_conflict : String → Option String → CheckpointOutcome
applied_or_conflict fingerprint recorded =
    if recorded == some fingerprint then already_applied else unavailable

abbrev existing_checkpoint : String → OpRow → CheckpointOutcome
existing_checkpoint fingerprint op =
    if not (op.op_kind == "checkpoint")
    then unavailable
    else applied_or_conflict fingerprint op.fingerprint

-- What the current row says against the command; `none` lets it through.
unfoldable pub checkpoint_refusal :
    CheckpointCommand → Option SnapshotRow → Option CheckpointOutcome
checkpoint_refusal cmd none = if cmd.expected_revision == 0 then none else some stale_revision
checkpoint_refusal cmd (some current) =
    if not (is_safe_integer current.revision)
    then some unavailable
    else if not (current.revision == cmd.expected_revision)
    then some stale_revision
    else if current.checkpoint_status == "failed" && current.pause_state == "degraded"
    then some barrier_active
    else none

abbrev pub checkpoint_row : String → Parts → CheckpointCommand → SnapshotRow
checkpoint_row now parts cmd = record {
  key = cmd.key;
  revision = cmd.next_snapshot.revision;
  pause_state = pause_text cmd.next_snapshot.pause_state;
  checkpoint_status = status_text cmd.next_snapshot.checkpoint.status;
  checkpoint_revision = cmd.next_snapshot.checkpoint.revision;
  active_context_json = parts.active_context_json;
  summary_json = parts.summary_json;
  fingerprint = parts.fingerprint;
  updated_at = now;
}

abbrev pub checkpoint_op : String → Parts → CheckpointCommand → OpRow
checkpoint_op now parts cmd = record {
  key = cmd.key;
  idempotency_key = cmd.idempotency_key;
  op_kind = "checkpoint";
  fingerprint = some parts.fingerprint;
  revision_after = some cmd.next_snapshot.revision;
  created_at = now;
}

abbrev raced_fingerprint : Option OpRow → Option String
raced_fingerprint none = none
raced_fingerprint (some op) = op.fingerprint

-- The insertion of the operation, with the clause that catches a violated key.
abbrev insert_checkpoint_op :
    Parts
    → CheckpointCommand
    → Option (List OpRow)
    → List SnapshotRow
    → List OpRow
    → Tx CheckpointOutcome Tables
insert_checkpoint_op parts cmd (some ops) snapshots old =
    commit stored (record { snapshots = snapshots; ops = ops })
insert_checkpoint_op parts cmd none snapshots old =
    commit
      (applied_or_conflict parts.fingerprint
        (raced_fingerprint (select_op cmd.key cmd.idempotency_key old)))
      (record { snapshots = snapshots; ops = old })

unfoldable pub write_checkpoint :
    String → Parts → CheckpointCommand → Tables → Tx CheckpointOutcome Tables
write_checkpoint now parts cmd t =
    if not (cmd.next_snapshot.owner_id == cmd.key.owner_id)
    then commit unavailable t
    else if not (cmd.next_snapshot.conversation_id == cmd.key.conversation_id)
    then commit unavailable t
    else insert_checkpoint_op parts cmd (insert_op (checkpoint_op now parts cmd) t.ops)
        (upsert_snapshot (checkpoint_row now parts cmd) t.snapshots) t.ops

abbrev checkpoint_unless :
    Option CheckpointOutcome → Tx CheckpointOutcome Tables → Tables → Tx CheckpointOutcome Tables
checkpoint_unless none write t = write
checkpoint_unless (some refusal) write t = commit refusal t

abbrev checkpoint_fresh :
    Option OpRow → String → Parts → CheckpointCommand → Tables → Tx CheckpointOutcome Tables
checkpoint_fresh (some op) now parts cmd t = commit (existing_checkpoint parts.fingerprint op) t
checkpoint_fresh none now parts cmd t =
    checkpoint_unless (checkpoint_refusal cmd (select_snapshot cmd.key t.snapshots))
      (write_checkpoint now parts cmd t) t

-- The body of the transaction.
unfoldable pub checkpoint_body :
    String → Parts → CheckpointCommand → Tables → Tx CheckpointOutcome Tables
checkpoint_body now parts cmd t =
    checkpoint_fresh (select_op cmd.key cmd.idempotency_key t.ops) now parts cmd t

abbrev checkpoint_caught : Fault → CheckpointOutcome
checkpoint_caught f = unavailable

abbrev checkpoint_encoded :
    Env → CheckpointCommand → Option Parts → Tables → CheckpointOutcome × Tables
checkpoint_encoded env cmd none t = (unavailable, t)
checkpoint_encoded env cmd (some parts) t =
    run_immediate env.fault checkpoint_caught t (checkpoint_body env.now parts cmd t)

abbrev checkpoint_scanned :
    Option String → CheckpointOutcome × Tables → Tables → Reply CheckpointOutcome × Tables
checkpoint_scanned (some code) done t = (err code, t)
checkpoint_scanned none (outcome, t') t = (ok outcome, t')

-- checkpoint
unfoldable pub checkpoint :
    Env → Json → (String → Scan) → CheckpointCommand → Tables → Reply CheckpointOutcome × Tables
checkpoint env j scan cmd t =
    if not env.is_open
    then (err closed_code, t)
    else checkpoint_scanned (scan_texts scan (texts_for_scan cmd.next_snapshot))
        (checkpoint_encoded env cmd (encode_snapshot_parts j cmd.next_snapshot) t) t
