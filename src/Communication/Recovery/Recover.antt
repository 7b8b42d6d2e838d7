-- ===== src/Communication/Recovery/Recover.antt =====
-- src/core/communication/application/recover-communication-turns.service.ts, recoverOne: the recovery of
-- one turn, by its state.
pub mod Pages
pub mod Course
pub mod Steps
pub mod Branches
pub mod Deliveries
pub mod Turns
pub mod Promises
pub mod Stuck
pub mod Listings
mod Tests
use open_claw_bot_neo.Prelude.{
  ℕ, zero, suc, ◌+◌, Bool, true, false, ◌||◌, ◌&&◌, not, ◌==◌, String, String_eq, Option, none,
  some, Option_eq, List, [], ◌∷◌, map, is_none, if◌then◌else◌,
}
use open_claw_bot_neo.Communication.Turn.{
  TurnState, TurnState_eq, authentication_rejected, llm_started, delivery_started, delivery_failed,
  delivery_outcome_unknown, cancelled, completed, DeliveryStatus, DeliveryStatus_eq,
  CheckpointStatus, CheckpointStatus_eq, AuditStartStatus, AuditStartStatus_eq,
  AuditCompletionStatus, LlmOutcome,
}
use open_claw_bot_neo.Communication.Recovery.{
  ErrorCode, recovery_context_unavailable, ledger_unavailable, outbox_unavailable,
  conversation_state_unavailable, audit_completion_failed, port_failed, BarrierReason,
  llm_outcome_unknown, delivery_outcome_unknown as unknown_delivery,
  recovery_context_unavailable_after_delivery, checkpoint_failed, RecordReply, DeliveryReply,
  LoadReply, found, Fact, Candidate, ListReply, candidates, read_outcome, recorded_unknown, loaded,
  audited, listed, Log, Ports, Recovered, ok, err, Ran, and_then, require_record_success,
  recovery_correlation, transition_to, record_fact, complete_from, has_context, require_barrier,
}

-- DeliveryLikeState, and the turn state that it is
pub data DeliveryLike : Type 0 where
  was_delivered has_failed is_unknown : DeliveryLike

abbrev pub state_of : DeliveryLike → TurnState
state_of was_delivered = TurnState.delivered
state_of has_failed = delivery_failed
state_of is_unknown = delivery_outcome_unknown

abbrev pub status_of : DeliveryLike → DeliveryStatus
status_of was_delivered = DeliveryStatus.delivered
status_of has_failed = DeliveryStatus.failed
status_of is_unknown = DeliveryStatus.outcome_unknown

-- CheckpointRecoveryAssessment: a failure of the checkpoint has its barrier's reason.
pub data Assessment : Type 0 where
  consistent : Assessment
  fails : BarrierReason → Assessment
  contradiction : Assessment

module _ (p : Ports) where
  -- The assessment of a checkpoint that the ledger has as succeeded, by the snapshot
  abbrev pub assess_snapshot : LoadReply → Recovered Assessment
  assess_snapshot (found status is_degraded revision) =
      if not (status == CheckpointStatus.succeeded) || is_degraded
      then ok contradiction
      else ok consistent
  assess_snapshot LoadReply.not_found = ok contradiction
  assess_snapshot LoadReply.unavailable = err conversation_state_unavailable
  assess_snapshot LoadReply.port_error = err recovery_context_unavailable

  abbrev pub failure_reason : DeliveryLike → BarrierReason
  failure_reason was_delivered = recovery_context_unavailable_after_delivery
  failure_reason _ = checkpoint_failed

  -- assessCheckpointRecovery
  unfoldable pub assess_checkpoint_recovery : Candidate → DeliveryLike → Log → Ran Assessment
  assess_checkpoint_recovery c is_unknown log = (ok (fails unknown_delivery), log)
  assess_checkpoint_recovery c like log =
      if not (c.checkpoint_status == CheckpointStatus.succeeded)
      then (ok (fails (failure_reason like)), log)
      else if not (has_context c.owner_id c.conversation_id)
      then (ok contradiction, log)
      else (assess_snapshot (p.load log c), loaded c ∷ log)

  -- `auditCompletionStatus`
  abbrev pub completion_status : DeliveryLike → CheckpointStatus → AuditCompletionStatus
  completion_status was_delivered CheckpointStatus.succeeded = AuditCompletionStatus.succeeded
  completion_status _ _ = AuditCompletionStatus.failed

  abbrev pub completion_fact :
      Candidate → DeliveryLike → CheckpointStatus → AuditCompletionStatus → Fact
  completion_fact c like checkpoint completion = record {
    llm_outcome = c.llm_outcome;
    delivery_status = status_of like;
    checkpoint_status = checkpoint;
    audit_start = c.audit_start;
    audit_completion = completion;
  }

  -- A completion that is not audited yet: the audit, and the fact of it
  unfoldable pub audit_completion_now :
      Candidate → ℕ → DeliveryLike → CheckpointStatus → Log → Ran ℕ
  audit_completion_now c revision like checkpoint log =
      let completion = completion_status like checkpoint in
      and_then
        (
          require_record_success audit_completion_failed
              (p.record_completion log c.turn_id (status_of like) checkpoint completion),
          audited c.turn_id (status_of like) checkpoint completion ∷ log,
        )
        (λ u after.
          record_fact p c.turn_id revision (completion_fact c like checkpoint completion) after)

  -- By the completion that the turn has: one that succeeded or failed cannot be bypassed.
  unfoldable pub audit_by_completion :
      AuditCompletionStatus → Candidate → ℕ → DeliveryLike → CheckpointStatus → Log → Ran ℕ
  audit_by_completion AuditCompletionStatus.succeeded c revision was_delivered
        CheckpointStatus.succeeded log =
      (ok revision, log)
  audit_by_completion AuditCompletionStatus.succeeded c revision like checkpoint log =
      (err recovery_context_unavailable, log)
  audit_by_completion AuditCompletionStatus.failed c revision like CheckpointStatus.succeeded log =
      (err recovery_context_unavailable, log)
  audit_by_completion AuditCompletionStatus.failed c revision like checkpoint log =
      record_fact p c.turn_id revision
        (completion_fact c like checkpoint AuditCompletionStatus.failed) log
  audit_by_completion _ c revision like checkpoint log =
      audit_completion_now c revision like checkpoint log

  -- reconcileCompletionAudit
  unfoldable pub reconcile_completion_audit :
      Candidate → ℕ → DeliveryLike → CheckpointStatus → Log → Ran ℕ
  reconcile_completion_audit c revision like checkpoint log =
      if not (has_context c.owner_id c.conversation_id)
      then (err recovery_context_unavailable, log)
      else if not (c.audit_start == AuditStartStatus.succeeded)
      then (err recovery_context_unavailable, log)
      else audit_by_completion c.audit_completion c revision like checkpoint log

  -- The checkpoint's status that the assessment comes to, after the barrier of a failed one
  unfoldable pub settle_checkpoint : Assessment → Candidate → Log → Ran CheckpointStatus
  settle_checkpoint consistent c log = (ok CheckpointStatus.succeeded, log)
  settle_checkpoint contradiction c log = (err recovery_context_unavailable, log)
  settle_checkpoint (fails reason) c log =
      and_then (require_barrier p c reason log) (λ u after. (ok CheckpointStatus.failed, after))

  -- completeDeliveryLike
  unfoldable pub complete_delivery_like : Candidate → DeliveryLike → ℕ → Log → Ran (Unit {0})
  complete_delivery_like c like revision log =
      and_then (assess_checkpoint_recovery c like log) (λ assessment l1.
        and_then (settle_checkpoint assessment c l1) (λ checkpoint l2.
          and_then (reconcile_completion_audit c revision like checkpoint l2)
            (λ next l3. complete_from p c.turn_id next (state_of like) l3)))

  -- What the outbox knows of a delivery that was started, with an unknown outcome put on record
  unfoldable pub look_up_delivery : DeliveryReply → Candidate → Log → Ran DeliveryLike
  look_up_delivery DeliveryReply.delivered c log = (ok was_delivered, log)
  look_up_delivery DeliveryReply.known_failure c log = (ok has_failed, log)
  look_up_delivery DeliveryReply.outcome_unknown c log = (ok is_unknown, log)
  look_up_delivery DeliveryReply.unavailable c log = (err outbox_unavailable, log)
  look_up_delivery DeliveryReply.port_error c log = (err port_failed, log)
  look_up_delivery _ c log =
      and_then
        (
          require_record_success outbox_unavailable (p.record_delivery_outcome log c.turn_id),
          recorded_unknown c.turn_id ∷ log,
        )
        (λ u after. (ok is_unknown, after))

  -- `nextCheckpointStatus`
  abbrev pub next_checkpoint_status : DeliveryLike → CheckpointStatus → CheckpointStatus
  next_checkpoint_status is_unknown status = CheckpointStatus.failed
  next_checkpoint_status like CheckpointStatus.not_required = CheckpointStatus.pending
  next_checkpoint_status like status = status

  abbrev pub delivery_fact : Candidate → DeliveryLike → Fact
  delivery_fact c like = record {
    llm_outcome = none;
    delivery_status = status_of like;
    checkpoint_status = next_checkpoint_status like c.checkpoint_status;
    audit_start = c.audit_start;
    audit_completion = c.audit_completion;
  }

  -- The branch of 'delivery_started'
  unfoldable pub recover_delivery : Candidate → Log → Ran (Unit {0})
  recover_delivery c log =
      and_then
        (look_up_delivery (p.read_delivery_outcome log c.turn_id) c (read_outcome c.turn_id ∷ log))
        (λ like l1.
          and_then (record_fact p c.turn_id c.turn_revision (delivery_fact c like) l1) (λ r2 l2.
            and_then (transition_to p c.turn_id r2 delivery_started (state_of like) l2) (λ r3 l3.
              complete_delivery_like
                (record c {
                  checkpoint_status = next_checkpoint_status like c.checkpoint_status;
                  state = state_of like;
                  turn_revision = r3;
                })
                like r3 l3)))

  abbrev pub unknown_fact : Candidate → Fact
  unknown_fact c = record {
    llm_outcome = some LlmOutcome.outcome_unknown;
    delivery_status = DeliveryStatus.not_started;
    checkpoint_status = CheckpointStatus.failed;
    audit_start = c.audit_start;
    audit_completion = c.audit_completion;
  }

  -- The branch of 'llm_started' without an outcome
  unfoldable pub recover_llm_unknown : Candidate → Log → Ran (Unit {0})
  recover_llm_unknown c log =
      and_then (record_fact p c.turn_id c.turn_revision (unknown_fact c) log) (λ r1 l1.
        and_then (transition_to p c.turn_id r1 llm_started cancelled l1) (λ r2 l2.
          and_then (require_barrier p c llm_outcome_unknown l2)
            (λ u l3. complete_from p c.turn_id r2 cancelled l3)))

  -- cancelAndComplete
  unfoldable pub cancel_and_complete : Candidate → Log → Ran (Unit {0})
  cancel_and_complete c log =
      if c.state == cancelled
      then complete_from p c.turn_id c.turn_revision cancelled log
      else and_then (transition_to p c.turn_id c.turn_revision c.state cancelled log)
          (λ r l. complete_from p c.turn_id r cancelled l)

  -- The branches of recoverOne, once the turn can be correlated
  unfoldable pub recover_in : TurnState → Candidate → Log → Ran (Unit {0})
  recover_in delivery_started c log = recover_delivery c log
  recover_in TurnState.delivered c log = complete_delivery_like c was_delivered c.turn_revision log
  recover_in delivery_failed c log = complete_delivery_like c has_failed c.turn_revision log
  recover_in delivery_outcome_unknown c log =
      complete_delivery_like c is_unknown c.turn_revision log
  recover_in authentication_rejected c log =
      complete_from p c.turn_id c.turn_revision authentication_rejected log
  recover_in llm_started c log =
      if is_none c.llm_outcome then recover_llm_unknown c log else cancel_and_complete c log
  recover_in _ c log = cancel_and_complete c log

  -- recoverOne
  unfoldable pub recover_one : Candidate → Log → Ran (Unit {0})
  recover_one c log =
      if c.state == completed
      then (ok tt, log)
      else and_then (recovery_correlation p c log) (λ u l. recover_in c.state c l)
