-- ===== src/Communication/Conversation/Step.antt =====
-- The outcomes with which the conversation state port changes its tables.
use open_claw_bot_neo.Prelude.{
  ℕ, ◌+◌, ◌≡◌, ◌⊎◌, inl, inr, refl, Option, none, some, List, ◌∷◌, String, arith, Option-cases,
}
use open_claw_bot_neo.Communication.Transaction.{commit}
use open_claw_bot_neo.Communication.Conversation.Snapshot.{Snapshot}
use open_claw_bot_neo.Communication.Conversation.Json.{Json}
use open_claw_bot_neo.Communication.Conversation.Serialization.{
  Parts, encode_snapshot_parts, decode_snapshot, fingerprint_snapshot,
}
use open_claw_bot_neo.Communication.Conversation.Tables.{
  SnapshotRow, OpRow, Tables, select_snapshot, upsert_snapshot, select_op, insert_op, columns,
}
use open_claw_bot_neo.Communication.Conversation.Checkpoint.{
  CheckpointCommand, stored, checkpoint_refusal, checkpoint_row, checkpoint_op, write_checkpoint,
  checkpoint_body,
}
use open_claw_bot_neo.Communication.Conversation.Barrier.{
  BarrierCommand, recorded, barrier_op, write_barrier, bar_row, barrier_body, protective,
  protective_row, barred_row, barred_columns, bar_decoded,
}
use open_claw_bot_neo.Communication.Conversation.Reconcile.{
  ReconcileCommand, reconciled, reconcile_op, reconciled_row, reconciled_snapshot, write_reconcile,
  reconcile_row, reconcile_body,
}

insert_op-fresh :
    (op : OpRow) (ops : List OpRow)
    → select_op op.key op.idempotency_key ops ≡ none
    → insert_op op ops ≡ some (op ∷ ops)
unfolding insert_op
insert_op-fresh op ops h = ground arith

-- A checkpoint that is stored: the key is new, the current row let it through, and the tables get
-- the snapshot and the operation.
pub checkpoint_body-stored :
    (now : String) (parts : Parts) (cmd : CheckpointCommand) (t t' : Tables)
    → checkpoint_body now parts cmd t ≡ commit stored t'
    → (select_op cmd.key cmd.idempotency_key t.ops ≡ none)
      × (checkpoint_refusal cmd (select_snapshot cmd.key t.snapshots) ≡ none)
      × (t'.snapshots ≡ upsert_snapshot (checkpoint_row now parts cmd) t.snapshots)
      × (t'.ops ≡ checkpoint_op now parts cmd ∷ t.ops)
unfolding checkpoint_body write_checkpoint insert_op checkpoint_refusal
checkpoint_body-stored now parts cmd t t' h =
    (ground arith, ground arith, ground arith, ground arith)

abbrev pub IsBarred : SnapshotRow → Type 0
IsBarred r = (r.checkpoint_status ≡ "failed") × (r.pause_state ≡ "degraded")

-- A barrier over the row that was there: the new row is barred and one revision on, with the texts
-- that the old one had.
pub record Bars (now : String) (cmd : BarrierCommand) (old : Option SnapshotRow) (n : ℕ)
    (t t' : Tables) : Type 0 where
  pub row : SnapshotRow
  pub fingerprint : String
  pub is_new : select_op cmd.key cmd.idempotency_key t.ops ≡ none
  pub next : n ≡ cmd.expected_revision + 1
  pub revision : row.revision ≡ n
  pub same_key : (old ≡ none → row.key ≡ cmd.key)
  pub is_barred : IsBarred row
  pub keeps_texts :
      (r : SnapshotRow)
      → old ≡ some r
      → (row.key ≡ r.key)
        × (row.active_context_json ≡ r.active_context_json)
        × (row.summary_json ≡ r.summary_json)
  pub snapshots : t'.snapshots ≡ upsert_snapshot row t.snapshots
  pub ops : t'.ops ≡ barrier_op now fingerprint n cmd ∷ t.ops

write_barrier-recorded :
    (now : String) (cmd : BarrierCommand) (fingerprint : String) (row : SnapshotRow) (t t' : Tables)
    (n : ℕ)
    → write_barrier now cmd fingerprint row t ≡ commit (recorded n) t'
    → (select_op cmd.key cmd.idempotency_key t.ops ≡ none)
      × (row.revision ≡ n)
      × (t'.snapshots ≡ upsert_snapshot row t.snapshots)
      × (t'.ops ≡ barrier_op now fingerprint n cmd ∷ t.ops)
unfolding write_barrier insert_op
write_barrier-recorded now cmd fingerprint row t t' n h =
    (ground arith, ground arith, ground arith, ground arith)

bar_row-missing :
    (now : String) (j : Json) (cmd : BarrierCommand) (t t' : Tables) (n : ℕ)
    → bar_row now j cmd none t ≡ commit (recorded n) t'
    → Bars now cmd none n t t'
unfolding bar_row
bar_row-missing now j cmd t t' n h =
    elim (Option-cases (encode_snapshot_parts j (protective cmd.key))) [
      | inl e ↦ absurd (ground arith)
      | inr (parts, e) ↦
          let (new, rev, snaps, ops) =
            write_barrier-recorded now cmd parts.fingerprint (protective_row now parts cmd.key) t t'
              n (ground arith) in
          record {
            row = protective_row now parts cmd.key;
            fingerprint = parts.fingerprint;
            is_new = new;
            next = ground arith;
            revision = rev;
            same_key = λ p. refl;
            is_barred = (refl, refl);
            keeps_texts = λ r p. absurd (cc);
            snapshots = snaps;
            ops = ops;
          }
    ]

bar_decoded-recorded :
    (now : String) (j : Json) (cmd : BarrierCommand) (current : SnapshotRow) (o : Option Snapshot)
    (t t' : Tables) (n : ℕ)
    → bar_decoded now j cmd current o t ≡ commit (recorded n) t'
    → (fingerprint : String) × (write_barrier now cmd fingerprint
          (barred_row now fingerprint current)
          t
        ≡ commit (recorded n) t')
bar_decoded-recorded now j cmd current none t t' n h = absurd (cc)
bar_decoded-recorded now j cmd current (some s) t t' n h =
    elim (Option-cases (fingerprint_snapshot j s)) [
      | inl e ↦ absurd (ground arith)
      | inr (fingerprint, e) ↦ (fingerprint, ground arith)
    ]

bar_row-decoded :
    (now : String) (j : Json) (cmd : BarrierCommand) (current : SnapshotRow) (t t' : Tables) (n : ℕ)
    → bar_row now j cmd (some current) t ≡ commit (recorded n) t'
    → (current.revision ≡ cmd.expected_revision)
      × (bar_decoded now j cmd current (decode_snapshot j (barred_columns current)) t
          ≡ commit (recorded n) t')
unfolding bar_row
bar_row-decoded now j cmd current t t' n h = (ground arith, ground arith)

bar_row-present :
    (now : String) (j : Json) (cmd : BarrierCommand) (current : SnapshotRow) (t t' : Tables) (n : ℕ)
    → bar_row now j cmd (some current) t ≡ commit (recorded n) t'
    → Bars now cmd (some current) n t t'
bar_row-present now j cmd current t t' n h =
    let (expected, decoded) = bar_row-decoded now j cmd current t t' n h in
    let (fingerprint, written) = bar_decoded-recorded now j cmd current _ t t' n decoded in
    let (new, rev, snaps, ops) =
      write_barrier-recorded now cmd fingerprint (barred_row now fingerprint current) t t' n
        written in
    record {
      row = barred_row now fingerprint current;
      fingerprint = fingerprint;
      is_new = new;
      next = ground arith;
      revision = rev;
      same_key = λ p. absurd (cc);
      is_barred = (refl, refl);
      keeps_texts = λ r p. (ground arith, ground arith, ground arith);
      snapshots = snaps;
      ops = ops;
    }

bar_row-recorded :
    (now : String) (j : Json) (cmd : BarrierCommand) (o : Option SnapshotRow) (t t' : Tables)
    (n : ℕ)
    → bar_row now j cmd o t ≡ commit (recorded n) t'
    → Bars now cmd o n t t'
bar_row-recorded now j cmd none t t' n h = bar_row-missing now j cmd t t' n h
bar_row-recorded now j cmd (some r) t t' n h = bar_row-present now j cmd r t t' n h

-- A barrier that is recorded is one over the row that the key selects.
pub barrier_body-recorded :
    (now : String) (j : Json) (cmd : BarrierCommand) (t t' : Tables) (n : ℕ)
    → barrier_body now j cmd t ≡ commit (recorded n) t'
    → Bars now cmd (select_snapshot cmd.key t.snapshots) n t t'
unfolding barrier_body
barrier_body-recorded now j cmd t t' n h =
    bar_row-recorded now j cmd (select_snapshot cmd.key t.snapshots) t t' n (ground arith)

-- A reconciliation of a row: it was pending or failed, and keeps its texts and its pause state.
pub record Reconciles (now : String) (cmd : ReconcileCommand) (n : ℕ) (t t' : Tables) : Type 0 where
  pub old : SnapshotRow
  pub fingerprint : String
  pub is_new : select_op cmd.key cmd.idempotency_key t.ops ≡ none
  pub selected : select_snapshot cmd.key t.snapshots ≡ some old
  pub expected : old.revision ≡ cmd.expected_revision
  pub was_open : (old.checkpoint_status ≡ "pending") ⊎ (old.checkpoint_status ≡ "failed")
  pub next : n ≡ cmd.expected_revision + 1
  pub snapshots : t'.snapshots ≡ upsert_snapshot (reconciled_row now fingerprint old) t.snapshots
  pub ops : t'.ops ≡ reconcile_op now fingerprint n cmd ∷ t.ops

reconcile_row-reconciled :
    (now : String) (j : Json) (cmd : ReconcileCommand) (old : SnapshotRow) (t t' : Tables) (n : ℕ)
    → select_snapshot cmd.key t.snapshots ≡ some old
    → reconcile_row now j cmd (some old) t ≡ commit (reconciled n) t'
    → Reconciles now cmd n t t'
unfolding reconcile_row write_reconcile insert_op
reconcile_row-reconciled now j cmd old t t' n selected h =
    elim (Option-cases (decode_snapshot j (columns old))) [
      | inl e ↦ absurd (ground arith)
      | inr (s, e) ↦
          elim (Option-cases (fingerprint_snapshot j (reconciled_snapshot (old.revision + 1) s))) [
            | inl f ↦ absurd (ground arith)
            | inr (fingerprint, f) ↦ record {
              old = old;
              fingerprint = fingerprint;
              is_new = ground arith;
              selected = selected;
              expected = ground arith;
              was_open = ground arith;
              next = ground arith;
              snapshots = ground arith;
              ops = ground arith;
            }
          ]
    ]

pub reconcile_body-reconciled :
    (now : String) (j : Json) (cmd : ReconcileCommand) (t t' : Tables) (n : ℕ)
    → reconcile_body now j cmd t ≡ commit (reconciled n) t'
    → Reconciles now cmd n t t'
unfolding reconcile_body reconcile_row
reconcile_body-reconciled now j cmd t t' n h =
    elim (Option-cases (select_snapshot cmd.key t.snapshots)) [
      | inl e ↦ absurd (ground arith)
      | inr (old, e) ↦
          let row : reconcile_row now j cmd (some old) t ≡ commit (reconciled n) t' =
            ground arith in
          reconcile_row-reconciled now j cmd old t t' n e row
    ]
