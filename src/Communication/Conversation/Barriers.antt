-- ===== src/Communication/Conversation/Barriers.antt =====
-- What a recorded barrier promises over any later calls.
use open_claw_bot_neo.Prelude.{
  ℕ, ◌≡◌, ◌≢◌, inl, inr, sym, subst, ◌∙◌, none, some, List, [], ◌∷◌, String, arith, Option-cases,
  Bool-cases, All,
}
use open_claw_bot_neo.Communication.Transaction.{Env, ok}
use open_claw_bot_neo.Communication.Conversation.Snapshot.{Key, same_key}
use open_claw_bot_neo.Communication.Conversation.Json.{Json}
use open_claw_bot_neo.Communication.Conversation.Lookups.{
  same_key-≡, same_key_ne, select_snapshot-key, select_snapshot-upsert, select_snapshot-upsert_ne,
}
use open_claw_bot_neo.Communication.Conversation.Step.{
  IsBarred, Bars, checkpoint_body-stored, barrier_body-recorded, reconcile_body-reconciled,
}
use open_claw_bot_neo.Communication.Conversation.Tables.{
  SnapshotRow, Tables, select_snapshot, upsert_snapshot,
}
use open_claw_bot_neo.Communication.Conversation.Checkpoint.{
  CheckpointCommand, stored, checkpoint_refusal, checkpoint_row, checkpoint, Scan,
}
use open_claw_bot_neo.Communication.Conversation.Barrier.{
  BarrierCommand, recorded, record_checkpoint_barrier,
}
use open_claw_bot_neo.Communication.Conversation.Reconcile.{reconciled_row}
use open_claw_bot_neo.Communication.Conversation.History.{
  Call, checkpoints, bars, reconciles, perform, run, checkpoint_cases, barrier_cases,
  reconcile_cases,
}
use open_claw_bot_neo.Communication.Conversation.Checkpoints.{checkpoint-Stores}
use open_claw_bot_neo.Communication.Conversation.Replies.{record_checkpoint_barrier-recorded}

-- A conversation's row is barred.
abbrev pub IsHeld : Key → Tables → Type 0
IsHeld k t = (r : SnapshotRow) × (select_snapshot k t.snapshots ≡ some r) × IsBarred r

-- The call is no reconciliation of that conversation.
abbrev pub Spares : Key → Call → Type 0
Spares k (reconciles env cmd) = cmd.key ≢ k
Spares k (checkpoints env scan cmd) = Unit
Spares k (bars env cmd) = Unit

write-IsHeld :
    (k : Key) (row : SnapshotRow) (rs rs' : List SnapshotRow) (r : SnapshotRow)
    → select_snapshot k rs ≡ some r
    → IsBarred r
    → rs' ≡ upsert_snapshot row rs
    → (row.key ≡ k → IsBarred row)
    → (r' : SnapshotRow) × (select_snapshot k rs' ≡ some r') × IsBarred r'
write-IsHeld k row rs rs' r found barred written hit = elim (Bool-cases (same_key row.key k)) [
  | inl e ↦
      let same = same_key-≡ row.key k e in
      (
        row,
        subst (λ l. select_snapshot k l ≡ some row) (sym written)
            (subst (λ x. select_snapshot x (upsert_snapshot row rs) ≡ some row) same
              (select_snapshot-upsert row rs)),
        hit same,
      )
  | inr e ↦
      let apart : row.key ≢ k = λ p. same_key_ne row.key k e p in
      (
        r,
        subst (λ l. select_snapshot k l ≡ some r) (sym written)
            (select_snapshot-upsert_ne k row rs apart ∙ found),
        barred,
      )
]

barred-refuses :
    (cmd : CheckpointCommand) (r : SnapshotRow)
    → IsBarred r
    → checkpoint_refusal cmd (some r) ≢ none
unfolding checkpoint_refusal
barred-refuses cmd r (s, p) h = ground arith

held-refuses :
    (cmd : CheckpointCommand) (t : Tables)
    → IsHeld cmd.key t
    → checkpoint_refusal cmd (select_snapshot cmd.key t.snapshots) ≢ none
held-refuses cmd t (r, found, barred) h =
    barred-refuses cmd r barred (subst (λ o. checkpoint_refusal cmd o ≡ none) found h)

perform-IsHeld :
    (j : Json) (c : Call) (k : Key) (t : Tables)
    → Spares k c
    → IsHeld k t
    → IsHeld k (perform j c t)
perform-IsHeld j (checkpoints env scan cmd) k t spares (r, found, barred) =
    elim (checkpoint_cases env j scan cmd t) [
      | inl same ↦ subst (IsHeld k) (sym same) (r, found, barred)
      | inr (parts, b) ↦
          let (_, passed, snaps, _) =
            checkpoint_body-stored env.now parts cmd t (checkpoint env j scan cmd t).1 b in
          write-IsHeld k (checkpoint_row env.now parts cmd) t.snapshots _ r found barred snaps (λ e.
            absurd (held-refuses cmd t (subst (λ x. IsHeld x t) (sym e) (r, found, barred)) passed))
    ]
perform-IsHeld j (bars env cmd) k t spares (r, found, barred) = elim (barrier_cases env j cmd t) [
  | inl same ↦ subst (IsHeld k) (sym same) (r, found, barred)
  | inr b ↦
      let v = barrier_body-recorded env.now j cmd t _ _ b in
      write-IsHeld k v.row t.snapshots _ r found barred v.snapshots (λ e. v.is_barred)
]
perform-IsHeld j (reconciles env cmd) k t spares (r, found, barred) =
    elim (reconcile_cases env j cmd t) [
      | inl same ↦ subst (IsHeld k) (sym same) (r, found, barred)
      | inr b ↦
          let v = reconcile_body-reconciled env.now j cmd t _ _ b in
          write-IsHeld k (reconciled_row env.now v.fingerprint v.old) t.snapshots _ r found barred
            v.snapshots
            (λ e. absurd (spares (sym (select_snapshot-key cmd.key t.snapshots v.selected) ∙ e)))
    ]

run-IsHeld :
    (j : Json) (cs : List Call) (k : Key) (t : Tables)
    → All (Spares k) cs
    → IsHeld k t
    → IsHeld k (run j cs t)
unfolding run
run-IsHeld j [] k t spares h = h
run-IsHeld j (c ∷ cs) k t (spare, spares) h =
    run-IsHeld j cs k (perform j c t) spares (perform-IsHeld j c k t spare h)

Bars-IsHeld :
    (now : String) (cmd : BarrierCommand) (n : ℕ) (t t' : Tables)
    → Bars now cmd (select_snapshot cmd.key t.snapshots) n t t'
    → IsHeld cmd.key t'
Bars-IsHeld now cmd n t t' v =
    let own : v.row.key ≡ cmd.key = elim (Option-cases (select_snapshot cmd.key t.snapshots)) [
      | inl e ↦ v.same_key e
      | inr (old, e) ↦ (v.keeps_texts old e).0 ∙ select_snapshot-key cmd.key t.snapshots e
    ] in
    (
      v.row,
      subst (λ l. select_snapshot cmd.key l ≡ some v.row) (sym v.snapshots)
          (subst (λ x. select_snapshot x (upsert_snapshot v.row t.snapshots) ≡ some v.row) own
            (select_snapshot-upsert v.row t.snapshots)),
      v.is_barred,
    )

run-barred-IsHeld :
    (env : Env) (j : Json) (cmd : BarrierCommand) (n : ℕ) (t : Tables) (calls : List Call)
    → (record_checkpoint_barrier env j cmd t).0 ≡ ok (recorded n)
    → All (Spares cmd.key) calls
    → IsHeld cmd.key (run j (bars env cmd ∷ calls) t)
unfolding run
run-barred-IsHeld env j cmd n t calls h spares =
    run-IsHeld j calls cmd.key (record_checkpoint_barrier env j cmd t).1 spares
      (Bars-IsHeld env.now cmd n t _ (record_checkpoint_barrier-recorded env j cmd t n h))

-- A barrier holds until it is reconciled: after it was recorded for a conversation, through any
-- later calls of the port among which none reconciles that conversation, no checkpoint of that
-- conversation is stored, whatever its expected revision, its snapshot and its idempotency key.
pub barrier_holds :
    (env later : Env) (j : Json) (cmd : BarrierCommand) (n : ℕ) (t : Tables) (calls : List Call)
    (scan : String → Scan) (next : CheckpointCommand)
    → (record_checkpoint_barrier env j cmd t).0 ≡ ok (recorded n)
    → All (Spares cmd.key) calls
    → next.key ≡ cmd.key
    → (checkpoint later j scan next (run j (bars env cmd ∷ calls) t)).0 ≢ ok stored
barrier_holds env later j cmd n t calls scan next h spares same p =
    let first = run j (bars env cmd ∷ calls) t in
    let held : IsHeld cmd.key first = run-barred-IsHeld env j cmd n t calls h spares in
    let v = checkpoint-Stores later j scan next first p in
    let (_, passed, _, _) =
      checkpoint_body-stored later.now v.parts next first (checkpoint later j scan next first).1
        v.body in
    held-refuses next first (subst (λ k. IsHeld k first) (sym same) held) passed
