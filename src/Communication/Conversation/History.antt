-- ===== src/Communication/Conversation/History.antt =====
-- Histories of calls of the conversation state port.
use open_claw_bot_neo.Prelude.{
  ◌+◌, ◌≡◌, ◌⊎◌, inl, inr, refl, sym, subst, ap, ◌∙◌, none, some, List, [], ◌∷◌, String, arith,
  Option-cases,
}
use open_claw_bot_neo.Communication.Transaction.{Env, commit, throw, port_method_cases, Tx-cases}
use open_claw_bot_neo.Communication.Conversation.Snapshot.{Key}
use open_claw_bot_neo.Communication.Conversation.Json.{Json}
use open_claw_bot_neo.Communication.Conversation.Lookups.{select_op-insert}
use open_claw_bot_neo.Communication.Conversation.Step.{
  checkpoint_body-stored, barrier_body-recorded, reconcile_body-reconciled,
}
use open_claw_bot_neo.Communication.Conversation.Serialization.{Parts, encode_snapshot_parts}
use open_claw_bot_neo.Communication.Conversation.Tables.{OpRow, Tables, select_op, insert_op}
use open_claw_bot_neo.Communication.Conversation.Checkpoint.{
  CheckpointCommand, CheckpointOutcome, stored, checkpoint_op, write_checkpoint, checkpoint_body,
  checkpoint, Scan,
}
use open_claw_bot_neo.Communication.Conversation.Barrier.{
  BarrierCommand, BarrierOutcome, recorded, barrier_op, write_barrier, bar_row, barrier_body,
  record_checkpoint_barrier,
}
use open_claw_bot_neo.Communication.Conversation.Reconcile.{
  ReconcileCommand, ReconcileOutcome, reconciled, reconcile_op, write_reconcile, reconcile_row,
  reconcile_body, reconcile_checkpoint,
}

checkpoint_body-changes :
    (now : String) (parts : Parts) (cmd : CheckpointCommand) (t t' : Tables) (a : CheckpointOutcome)
    → checkpoint_body now parts cmd t ≡ commit a t'
    → (t' ≡ t) ⊎ (a ≡ stored)
unfolding checkpoint_body write_checkpoint insert_op
checkpoint_body-changes now parts cmd t t' a h = ground arith

barrier_body-changes :
    (now : String) (j : Json) (cmd : BarrierCommand) (t t' : Tables) (a : BarrierOutcome)
    → barrier_body now j cmd t ≡ commit a t'
    → (t' ≡ t) ⊎ (a ≡ recorded (cmd.expected_revision + 1))
unfolding barrier_body bar_row write_barrier insert_op
barrier_body-changes now j cmd t t' a h = ground arith

reconcile_body-changes :
    (now : String) (j : Json) (cmd : ReconcileCommand) (t t' : Tables) (a : ReconcileOutcome)
    → reconcile_body now j cmd t ≡ commit a t'
    → (t' ≡ t) ⊎ (a ≡ reconciled (cmd.expected_revision + 1))
unfolding reconcile_body reconcile_row write_reconcile insert_op
reconcile_body-changes now j cmd t t' a h = ground arith

-- What a call needs from outside.
pub data Call : Type 0 where
  checkpoints : Env → (String → Scan) → CheckpointCommand → Call
  bars : Env → BarrierCommand → Call
  reconciles : Env → ReconcileCommand → Call

abbrev pub perform : Json → Call → Tables → Tables
perform j (checkpoints env scan cmd) t = (checkpoint env j scan cmd t).1
perform j (bars env cmd) t = (record_checkpoint_barrier env j cmd t).1
perform j (reconciles env cmd) t = (reconcile_checkpoint env j cmd t).1

unfoldable pub run : Json → List Call → Tables → Tables
run j [] t = t
run j (c ∷ cs) t = run j cs (perform j c t)

-- A checkpoint leaves the tables alone or stores the snapshot.
checkpoint_ends :
    (env : Env) (j : Json) (scan : String → Scan) (cmd : CheckpointCommand) (t t' : Tables)
    (parts : Parts) (a : CheckpointOutcome)
    → encode_snapshot_parts j cmd.next_snapshot ≡ some parts
    → checkpoint_body env.now parts cmd t ≡ commit a t'
    → ((checkpoint env j scan cmd t).1 ≡ t) ⊎ ((checkpoint env j scan cmd t).1 ≡ t')
unfolding checkpoint
checkpoint_ends env j scan cmd t t' parts a e b = ground arith

checkpoint_rolls_back :
    (env : Env) (j : Json) (scan : String → Scan) (cmd : CheckpointCommand) (t : Tables)
    (parts : Parts)
    → encode_snapshot_parts j cmd.next_snapshot ≡ some parts
    → checkpoint_body env.now parts cmd t ≡ throw
    → (checkpoint env j scan cmd t).1 ≡ t
unfolding checkpoint
checkpoint_rolls_back env j scan cmd t parts e b = ground arith

checkpoint_unencoded :
    (env : Env) (j : Json) (scan : String → Scan) (cmd : CheckpointCommand) (t : Tables)
    → encode_snapshot_parts j cmd.next_snapshot ≡ none
    → (checkpoint env j scan cmd t).1 ≡ t
unfolding checkpoint
checkpoint_unencoded env j scan cmd t e = ground arith

checkpoint_commits :
    (env : Env) (j : Json) (scan : String → Scan) (cmd : CheckpointCommand) (t t' : Tables)
    (parts : Parts) (a : CheckpointOutcome)
    → encode_snapshot_parts j cmd.next_snapshot ≡ some parts
    → checkpoint_body env.now parts cmd t ≡ commit a t'
    → ((checkpoint env j scan cmd t).1 ≡ t)
      ⊎ (checkpoint_body env.now parts cmd t ≡ commit stored (checkpoint env j scan cmd t).1)
checkpoint_commits env j scan cmd t t' parts a e b =
    elim (checkpoint_ends env j scan cmd t t' parts a e b) [
      | inl same ↦ inl same
      | inr new ↦ elim (checkpoint_body-changes env.now parts cmd t t' a b) [
        | inl same ↦ inl (new ∙ same)
        | inr done ↦ inr (b ∙ ap (λ x. commit x t') done ∙ ap (λ x. commit stored x) (sym new))
      ]
    ]

pub checkpoint_cases :
    (env : Env) (j : Json) (scan : String → Scan) (cmd : CheckpointCommand) (t : Tables)
    → ((checkpoint env j scan cmd t).1 ≡ t)
      ⊎ ((parts : Parts) × (checkpoint_body env.now parts cmd t
            ≡ commit stored (checkpoint env j scan cmd t).1))
checkpoint_cases env j scan cmd t =
    elim (Option-cases (encode_snapshot_parts j cmd.next_snapshot)) [
      | inl e ↦ inl (checkpoint_unencoded env j scan cmd t e)
      | inr (parts, e) ↦ elim (Tx-cases (checkpoint_body env.now parts cmd t)) [
        | inl b ↦ inl (checkpoint_rolls_back env j scan cmd t parts e b)
        | inr (a, t', b) ↦ elim (checkpoint_commits env j scan cmd t t' parts a e b) [
          | inl same ↦ inl same
          | inr done ↦ inr (parts, done)
        ]
      ]
    ]

-- So does a barrier, and a reconciliation.
pub barrier_cases :
    (env : Env) (j : Json) (cmd : BarrierCommand) (t : Tables)
    → ((record_checkpoint_barrier env j cmd t).1 ≡ t)
      ⊎ (barrier_body env.now j cmd t
          ≡ commit (recorded (cmd.expected_revision + 1)) (record_checkpoint_barrier env j cmd t).1)
unfolding record_checkpoint_barrier
barrier_cases env j cmd t =
    port_method_cases
      (λ x.
        (x ≡ t) ⊎ (barrier_body env.now j cmd t ≡ commit (recorded (cmd.expected_revision + 1)) x))
      t (inl refl) env _ _ (barrier_body env.now j cmd t)
      (λ a t' b. elim (barrier_body-changes env.now j cmd t t' a b) [
        | inl same ↦ inl same
        | inr done ↦ inr (b ∙ ap (λ x. commit x t') done)
      ])

pub reconcile_cases :
    (env : Env) (j : Json) (cmd : ReconcileCommand) (t : Tables)
    → ((reconcile_checkpoint env j cmd t).1 ≡ t)
      ⊎ (reconcile_body env.now j cmd t
          ≡ commit (reconciled (cmd.expected_revision + 1)) (reconcile_checkpoint env j cmd t).1)
unfolding reconcile_checkpoint
reconcile_cases env j cmd t =
    port_method_cases
      (λ x.
        (x ≡ t)
        ⊎ (reconcile_body env.now j cmd t ≡ commit (reconciled (cmd.expected_revision + 1)) x))
      t (inl refl) env _ _ (reconcile_body env.now j cmd t)
      (λ a t' b. elim (reconcile_body-changes env.now j cmd t t' a b) [
        | inl same ↦ inl same
        | inr done ↦ inr (b ∙ ap (λ x. commit x t') done)
      ])

-- An operation that is recorded stays recorded.
abbrev pub IsRecorded : Key → String → OpRow → Tables → Type 0
IsRecorded k i op t = select_op k i t.ops ≡ some op

add-IsRecorded :
    (k : Key) (i : String) (op new : OpRow) (t : Tables) (ops : List OpRow)
    → select_op new.key new.idempotency_key t.ops ≡ none
    → ops ≡ new ∷ t.ops
    → IsRecorded k i op t
    → select_op k i ops ≡ some op
add-IsRecorded k i op new t ops absent added h =
    subst (λ l. select_op k i l ≡ some op) (sym added) (select_op-insert k i new t.ops absent h)

perform-IsRecorded :
    (j : Json) (c : Call) (k : Key) (i : String) (op : OpRow) (t : Tables)
    → IsRecorded k i op t
    → IsRecorded k i op (perform j c t)
perform-IsRecorded j (checkpoints env scan cmd) k i op t h =
    elim (checkpoint_cases env j scan cmd t) [
      | inl same ↦ subst (IsRecorded k i op) (sym same) h
      | inr (parts, b) ↦
          let (absent, _, _, ops) =
            checkpoint_body-stored env.now parts cmd t (checkpoint env j scan cmd t).1 b in
          add-IsRecorded k i op (checkpoint_op env.now parts cmd) t _ absent ops h
    ]
perform-IsRecorded j (bars env cmd) k i op t h = elim (barrier_cases env j cmd t) [
  | inl same ↦ subst (IsRecorded k i op) (sym same) h
  | inr b ↦
      let v = barrier_body-recorded env.now j cmd t _ _ b in
      add-IsRecorded k i op (barrier_op env.now v.fingerprint _ cmd) t _ v.is_new v.ops h
]
perform-IsRecorded j (reconciles env cmd) k i op t h = elim (reconcile_cases env j cmd t) [
  | inl same ↦ subst (IsRecorded k i op) (sym same) h
  | inr b ↦
      let v = reconcile_body-reconciled env.now j cmd t _ _ b in
      add-IsRecorded k i op (reconcile_op env.now v.fingerprint _ cmd) t _ v.is_new v.ops h
]

pub run-IsRecorded :
    (j : Json) (cs : List Call) (k : Key) (i : String) (op : OpRow) (t : Tables)
    → IsRecorded k i op t
    → IsRecorded k i op (run j cs t)
unfolding run
run-IsRecorded j [] k i op t h = h
run-IsRecorded j (c ∷ cs) k i op t h =
    run-IsRecorded j cs k i op (perform j c t) (perform-IsRecorded j c k i op t h)
