-- ===== src/Communication/Conversation/Replies.antt =====
-- What the replies of recordCheckpointBarrier and reconcileCheckpoint say of the tables.
use open_claw_bot_neo.Prelude.{ℕ, ◌≡◌, inl, inr}
use open_claw_bot_neo.Communication.Transaction.{Env, ok, port_method-ok}
use open_claw_bot_neo.Communication.Conversation.Json.{Json}
use open_claw_bot_neo.Communication.Conversation.Step.{
  Bars, Reconciles, barrier_body-recorded, reconcile_body-reconciled,
}
use open_claw_bot_neo.Communication.Conversation.Tables.{Tables, select_snapshot}
use open_claw_bot_neo.Communication.Conversation.Barrier.{
  BarrierCommand, recorded, barrier_body, record_checkpoint_barrier,
}
use open_claw_bot_neo.Communication.Conversation.Reconcile.{
  ReconcileCommand, reconciled, reconcile_body, reconcile_checkpoint,
}

-- A recorded barrier answers the revision after the expected one, under a new idempotency key, and
-- writes exactly one row, whose status is failed and whose pause state is degraded: the row that the
-- conversation had keeps its texts, and the operation is recorded with that revision.
pub record_checkpoint_barrier-recorded :
    (env : Env) (j : Json) (cmd : BarrierCommand) (t : Tables) (n : ℕ)
    → (record_checkpoint_barrier env j cmd t).0 ≡ ok (recorded n)
    → Bars env.now cmd
        (select_snapshot cmd.key t.snapshots)
        n
        t
        (record_checkpoint_barrier env j cmd t).1
unfolding record_checkpoint_barrier
record_checkpoint_barrier-recorded env j cmd t n h =
    elim (port_method-ok env _ _ t (barrier_body env.now j cmd t) (recorded n) h) [
      | inl b ↦ barrier_body-recorded env.now j cmd t _ n b
      | inr (f, e) ↦ absurd (cc)
    ]

-- A reconciliation answers the revision after the expected one, under a new idempotency key, and
-- happens only where the conversation has a row of the expected revision that is pending or failed:
-- that row keeps its texts and its pause state and becomes succeeded.
pub reconcile_checkpoint-reconciled :
    (env : Env) (j : Json) (cmd : ReconcileCommand) (t : Tables) (n : ℕ)
    → (reconcile_checkpoint env j cmd t).0 ≡ ok (reconciled n)
    → Reconciles env.now cmd n t (reconcile_checkpoint env j cmd t).1
unfolding reconcile_checkpoint
reconcile_checkpoint-reconciled env j cmd t n h =
    elim (port_method-ok env _ _ t (reconcile_body env.now j cmd t) (reconciled n) h) [
      | inl b ↦ reconcile_body-reconciled env.now j cmd t _ n b
      | inr (f, e) ↦ absurd (cc)
    ]
