-- ===== src/Communication/Conversation/Barrier.antt =====
-- recordCheckpointBarrier of sqlite-conversation-state-port.ts. The reasons of the outcome
-- `unavailable` are left out.
use open_claw_bot_neo.Prelude.{
  ℕ, ◌+◌, not, Option, none, some, List, [], String, String_eq, ℕ_eq, ◌==◌, if◌then◌else◌,
  is_safe_integer,
}
use open_claw_bot_neo.Communication.Transaction.{Fault, Env, Tx, commit, throw, Reply, port_method}
use open_claw_bot_neo.Communication.Conversation.Snapshot.{Key, Snapshot, degraded, failed}
use open_claw_bot_neo.Communication.Conversation.Json.{Json}
use open_claw_bot_neo.Communication.Conversation.Serialization.{
  Parts, encode_snapshot_parts, decode_snapshot, fingerprint_snapshot, Columns,
}
use open_claw_bot_neo.Communication.Conversation.Tables.{
  SnapshotRow, OpRow, Tables, select_snapshot, upsert_snapshot, select_op, insert_op, columns,
}
use open_claw_bot_neo.Communication.Conversation.Checkpoint.{closed_code}

-- The reason and the correlation identifier of the command are not read.
pub record BarrierCommand : Type 0 where
  pub key : Key
  pub expected_revision : ℕ
  pub idempotency_key : String

pub data BarrierOutcome : Type 0 where
  recorded already_recorded stale_revision : ℕ → BarrierOutcome
  unavailable : BarrierOutcome

-- An operation under the same key answers the revision that it recorded.
abbrev recorded_revision : Option ℕ → BarrierOutcome
recorded_revision none = unavailable
recorded_revision (some n) = if is_safe_integer n then already_recorded n else unavailable

abbrev existing_barrier : OpRow → BarrierOutcome
existing_barrier op =
    if not (op.op_kind == "barrier") then unavailable else recorded_revision op.revision_after

abbrev raced_barrier : Option OpRow → BarrierOutcome
raced_barrier none = unavailable
raced_barrier (some op) = existing_barrier op

abbrev pub barrier_op : String → String → ℕ → BarrierCommand → OpRow
barrier_op now fingerprint revision cmd = record {
  key = cmd.key;
  idempotency_key = cmd.idempotency_key;
  op_kind = "barrier";
  fingerprint = some fingerprint;
  revision_after = some revision;
  created_at = now;
}

abbrev insert_barrier_op :
    BarrierCommand
    → ℕ
    → Option (List OpRow)
    → List SnapshotRow
    → List OpRow
    → Tx BarrierOutcome Tables
insert_barrier_op cmd revision (some ops) snapshots old =
    commit (recorded revision) (record { snapshots = snapshots; ops = ops })
insert_barrier_op cmd revision none snapshots old =
    commit (raced_barrier (select_op cmd.key cmd.idempotency_key old))
      (record { snapshots = snapshots; ops = old })

-- The upsert and the insertion, which both branches make.
unfoldable pub write_barrier :
    String
    → BarrierCommand
    → (fingerprint : String) → SnapshotRow
    → Tables
    → Tx BarrierOutcome Tables
write_barrier now cmd fingerprint row t =
    insert_barrier_op cmd row.revision
      (insert_op (barrier_op now fingerprint row.revision cmd) t.ops)
      (upsert_snapshot row t.snapshots) t.ops

-- The empty snapshot that protects a conversation without one.
abbrev pub protective : Key → Snapshot
protective key = record {
  conversation_id = key.conversation_id;
  owner_id = key.owner_id;
  revision = 1;
  active_context = [];
  model_derived_summary = none;
  pause_state = degraded;
  checkpoint = record { status = failed; revision = 1 };
}

abbrev pub protective_row : String → Parts → Key → SnapshotRow
protective_row now parts key = record {
  key = key;
  revision = 1;
  pause_state = "degraded";
  checkpoint_status = "failed";
  checkpoint_revision = 1;
  active_context_json = parts.active_context_json;
  summary_json = parts.summary_json;
  fingerprint = parts.fingerprint;
  updated_at = now;
}

abbrev protect : String → BarrierCommand → Option Parts → Tables → Tx BarrierOutcome Tables
protect now cmd none t = commit unavailable t
protect now cmd (some parts) t =
    write_barrier now cmd parts.fingerprint (protective_row now parts cmd.key) t

-- The row with a barrier: the texts stay, the pause state, the status and the revision change.
abbrev pub barred_row : String → String → SnapshotRow → SnapshotRow
barred_row now fingerprint current = record current {
  revision = current.revision + 1;
  pause_state = "degraded";
  checkpoint_status = "failed";
  checkpoint_revision = current.revision + 1;
  fingerprint = fingerprint;
  updated_at = now;
}

-- What is decoded: the current texts under the new revision, pause state and status.
abbrev pub barred_columns : SnapshotRow → Columns
barred_columns current = record (columns current) {
  revision = current.revision + 1;
  pause_state = "degraded";
  checkpoint_status = "failed";
  checkpoint_revision = current.revision + 1;
}

-- The fingerprint of what the barred row decodes to; an exception where it cannot be written.
abbrev pub bar_fingerprinted :
    String → BarrierCommand → SnapshotRow → Option String → Tables → Tx BarrierOutcome Tables
bar_fingerprinted now cmd current none t = throw
bar_fingerprinted now cmd current (some fingerprint) t =
    write_barrier now cmd fingerprint (barred_row now fingerprint current) t

abbrev pub bar_decoded :
    String
    → Json
    → BarrierCommand
    → SnapshotRow
    → Option Snapshot
    → Tables
    → Tx BarrierOutcome Tables
bar_decoded now j cmd current none t = commit unavailable t
bar_decoded now j cmd current (some s) t =
    bar_fingerprinted now cmd current (fingerprint_snapshot j s) t

unfoldable pub bar_row :
    String → Json → BarrierCommand → Option SnapshotRow → Tables → Tx BarrierOutcome Tables
bar_row now j cmd none t =
    if not (cmd.expected_revision == 0)
    then commit (stale_revision 0) t
    else protect now cmd (encode_snapshot_parts j (protective cmd.key)) t
bar_row now j cmd (some current) t =
    if not (is_safe_integer current.revision)
    then commit unavailable t
    else if not (current.revision == cmd.expected_revision)
    then commit (stale_revision current.revision) t
    else if not (is_safe_integer (current.revision + 1))
    then commit unavailable t
    else bar_decoded now j cmd current (decode_snapshot j (barred_columns current)) t

abbrev barrier_fresh :
    Option OpRow → String → Json → BarrierCommand → Tables → Tx BarrierOutcome Tables
barrier_fresh (some op) now j cmd t = commit (existing_barrier op) t
barrier_fresh none now j cmd t = bar_row now j cmd (select_snapshot cmd.key t.snapshots) t

unfoldable pub barrier_body : String → Json → BarrierCommand → Tables → Tx BarrierOutcome Tables
barrier_body now j cmd t = barrier_fresh (select_op cmd.key cmd.idempotency_key t.ops) now j cmd t

abbrev barrier_caught : Fault → BarrierOutcome
barrier_caught f = unavailable

-- recordCheckpointBarrier
unfoldable pub record_checkpoint_barrier :
    Env → Json → BarrierCommand → Tables → Reply BarrierOutcome × Tables
record_checkpoint_barrier env j cmd t =
    port_method env closed_code barrier_caught t (barrier_body env.now j cmd t)
