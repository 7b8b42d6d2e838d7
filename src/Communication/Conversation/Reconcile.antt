-- ===== src/Communication/Conversation/Reconcile.antt =====
-- reconcileCheckpoint of sqlite-conversation-state-port.ts. The reasons of the outcome
-- `unavailable` are left out.
use open_claw_bot_neo.Prelude.{
  ℕ, ◌+◌, Bool, not, ◌||◌, Option, none, some, List, String, String_eq, ℕ_eq, ◌==◌, if◌then◌else◌,
  is_safe_integer,
}
use open_claw_bot_neo.Communication.Transaction.{Fault, Env, Tx, commit, throw, Reply, port_method}
use open_claw_bot_neo.Communication.Conversation.Snapshot.{
  Key, Snapshot, CheckpointStatus, not_required, succeeded,
}
use open_claw_bot_neo.Communication.Conversation.Json.{Json}
use open_claw_bot_neo.Communication.Conversation.Serialization.{
  decode_snapshot, fingerprint_snapshot,
}
use open_claw_bot_neo.Communication.Conversation.Tables.{
  SnapshotRow, OpRow, Tables, select_snapshot, upsert_snapshot, select_op, insert_op, columns,
}
use open_claw_bot_neo.Communication.Conversation.Checkpoint.{closed_code}

-- The correlation identifier of the command is not read.
pub record ReconcileCommand : Type 0 where
  pub key : Key
  pub expected_revision : ℕ
  pub idempotency_key : String

pub data ReconcileOutcome : Type 0 where
  reconciled already_reconciled stale_revision : ℕ → ReconcileOutcome
  not_eligible : CheckpointStatus → ℕ → ReconcileOutcome
  not_found idempotency_conflict unavailable : ReconcileOutcome

abbrev reconciled_revision : Option ℕ → ReconcileOutcome
reconciled_revision none = idempotency_conflict
reconciled_revision (some n) =
    if is_safe_integer n then already_reconciled n else idempotency_conflict

abbrev existing_reconcile : OpRow → ReconcileOutcome
existing_reconcile op =
    if not (op.op_kind == "reconcile")
    then idempotency_conflict
    else reconciled_revision op.revision_after

-- isConversationCheckpointReconcileEligible
abbrev pub is_reconcile_eligible : String → Bool
is_reconcile_eligible status = status == "pending" || status == "failed"

abbrev pub reconcile_op : String → String → ℕ → ReconcileCommand → OpRow
reconcile_op now fingerprint revision cmd = record {
  key = cmd.key;
  idempotency_key = cmd.idempotency_key;
  op_kind = "reconcile";
  fingerprint = some fingerprint;
  revision_after = some revision;
  created_at = now;
}

-- The texts and the pause state stay; the status and the revision change.
abbrev pub reconciled_row : String → String → SnapshotRow → SnapshotRow
reconciled_row now fingerprint current = record current {
  revision = current.revision + 1;
  checkpoint_status = "succeeded";
  checkpoint_revision = current.revision + 1;
  fingerprint = fingerprint;
  updated_at = now;
}

abbrev insert_reconcile_op :
    ℕ → Option (List OpRow) → List SnapshotRow → List OpRow → Tx ReconcileOutcome Tables
insert_reconcile_op revision (some ops) snapshots old =
    commit (reconciled revision) (record { snapshots = snapshots; ops = ops })
insert_reconcile_op revision none snapshots old =
    commit idempotency_conflict (record { snapshots = snapshots; ops = old })

unfoldable pub write_reconcile :
    String
    → ReconcileCommand
    → (fingerprint : String) → SnapshotRow
    → Tables
    → Tx ReconcileOutcome Tables
write_reconcile now cmd fingerprint row t =
    insert_reconcile_op row.revision
      (insert_op (reconcile_op now fingerprint row.revision cmd) t.ops)
      (upsert_snapshot row t.snapshots) t.ops

abbrev pub reconciled_snapshot : ℕ → Snapshot → Snapshot
reconciled_snapshot revision s = record s {
  revision = revision;
  checkpoint = record { status = succeeded; revision = revision };
}

-- The fingerprint of the reconciled snapshot; an exception where it cannot be written.
abbrev reconcile_fingerprinted :
    String → ReconcileCommand → SnapshotRow → Option String → Tables → Tx ReconcileOutcome Tables
reconcile_fingerprinted now cmd current none t = throw
reconcile_fingerprinted now cmd current (some fingerprint) t =
    write_reconcile now cmd fingerprint (reconciled_row now fingerprint current) t

abbrev reconcile_decoded :
    String
    → Json
    → ReconcileCommand
    → SnapshotRow
    → Option Snapshot
    → Tables
    → Tx ReconcileOutcome Tables
reconcile_decoded now j cmd current none t = commit unavailable t
reconcile_decoded now j cmd current (some s) t =
    if not (is_safe_integer (current.revision + 1))
    then commit unavailable t
    else reconcile_fingerprinted now cmd current
        (fingerprint_snapshot j (reconciled_snapshot (current.revision + 1) s)) t

unfoldable pub reconcile_row :
    String → Json → ReconcileCommand → Option SnapshotRow → Tables → Tx ReconcileOutcome Tables
reconcile_row now j cmd none t = commit not_found t
reconcile_row now j cmd (some current) t =
    if not (is_safe_integer current.revision)
    then commit unavailable t
    else if not (current.revision == cmd.expected_revision)
    then commit (stale_revision current.revision) t
    else if current.checkpoint_status == "not_required"
    then commit (not_eligible not_required current.revision) t
    else if current.checkpoint_status == "succeeded"
    then commit (not_eligible succeeded current.revision) t
    else if not (is_reconcile_eligible current.checkpoint_status)
    then commit (not_eligible not_required current.revision) t
    else reconcile_decoded now j cmd current (decode_snapshot j (columns current)) t

abbrev reconcile_fresh :
    Option OpRow → String → Json → ReconcileCommand → Tables → Tx ReconcileOutcome Tables
reconcile_fresh (some op) now j cmd t = commit (existing_reconcile op) t
reconcile_fresh none now j cmd t = reconcile_row now j cmd (select_snapshot cmd.key t.snapshots) t

unfoldable pub reconcile_body :
    String → Json → ReconcileCommand → Tables → Tx ReconcileOutcome Tables
reconcile_body now j cmd t =
    reconcile_fresh (select_op cmd.key cmd.idempotency_key t.ops) now j cmd t

abbrev reconcile_caught : Fault → ReconcileOutcome
reconcile_caught f = unavailable

-- reconcileCheckpoint
unfoldable pub reconcile_checkpoint :
    Env → Json → ReconcileCommand → Tables → Reply ReconcileOutcome × Tables
reconcile_checkpoint env j cmd t =
    port_method env closed_code reconcile_caught t (reconcile_body env.now j cmd t)
