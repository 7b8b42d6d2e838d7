-- ===== src/Communication/Recovery/Recover/Steps.antt =====
-- The course that each part of recovery keeps to.
use open_claw_bot_neo.Prelude.{
  ℕ, zero, suc, ◌≡◌, refl, Bool, true, not, ◌==◌, Option, none, some, ◌∷◌, if_cases,
}
use open_claw_bot_neo.Communication.Turn.{
  TurnState, TurnState_eq, completed, CheckpointStatus, CheckpointStatus_eq, AuditStartStatus,
  AuditStartStatus_eq, AuditCompletionStatus, can_transition,
}
use open_claw_bot_neo.Communication.Recovery.{
  BarrierReason, BarrierReply, Fact, Candidate, asked_barrier, audited, Log, Ports, Ran,
  require_record_success, audit_completion_failed, transition_to, record_fact, complete_from,
  barrier_revision, after_barrier, barrier_at, record_barrier, barrier_cas_attempts, has_context,
  require_barrier,
}
use open_claw_bot_neo.Communication.Recovery.Recover.{
  DeliveryLike, was_delivered, is_unknown, status_of, Assessment, consistent, fails, contradiction,
  assess_checkpoint_recovery, completion_status, completion_fact, audit_completion_now,
  audit_by_completion, reconcile_completion_audit, settle_checkpoint,
}
use open_claw_bot_neo.Communication.Recovery.Recover.Course.{
  Course, move_to, bar, bar_again, aside, IsLegal, After, and_then-After, either-After,
}

module _ (p : Ports) (start : TurnState) (base : Log) (c : Candidate) where
  abbrev pub On : TurnState → Bool → Log → Type 0
  On s b log = Course c.turn_id start base s b log

  abbrev pub Q : Log → Type 0
  Q log = IsLegal c.turn_id start base log

  pub transition_to-After :
      (s to : TurnState) (b : Bool) (revision : ℕ) (log : Log)
      → On s b log
      → can_transition s to ≡ true
      → After (λ r l. On to b l) Q (transition_to p c.turn_id revision s to log)
  unfolding transition_to
  transition_to-After s to b revision log on legal =
      let next = move_to s to b revision log on legal in
      either-After (λ r l. On to b l) Q _ _ (λ r. next) (to, b, next)

  pub record_fact-After :
      (s : TurnState) (b : Bool) (revision : ℕ) (fact : Fact) (log : Log)
      → On s b log
      → After (λ r l. On s b l) Q (record_fact p c.turn_id revision fact log)
  unfolding record_fact
  record_fact-After s b revision fact log on =
      let next = aside s b _ log on tt in
      either-After (λ r l. On s b l) Q _ _ (λ r. next) (s, b, next)

  pub complete_from-After :
      (s : TurnState) (b : Bool) (revision : ℕ) (log : Log)
      → On s b log
      → can_transition s completed ≡ true
      → After (λ u l. On completed b l) Q (complete_from p c.turn_id revision s log)
  unfolding complete_from
  complete_from-After s b revision log on legal =
      and_then-After (λ r l. On completed b l) (λ u l. On completed b l) Q _ _
        (transition_to-After s completed b revision log on legal) (λ r l done. done)

  -- A barrier that is required is on record when it succeeds.
  after_barrier-After :
      (s : TurnState) (b : Bool) (reason : BarrierReason) (revision : ℕ) (reply : BarrierReply)
      (log : Log) (again : Log → Ran (Unit {0}))
      → On s b log
      → ((l : Log) → On s b l → After (λ u l. On s true l) Q (again l))
      → After
          (λ u l. On s true l)
          Q
          (after_barrier p reply (asked_barrier c.turn_id reason revision reply ∷ log) again)
  after_barrier-After s b reason revision BarrierReply.recorded log again on retry =
      bar s b reason revision log on
  after_barrier-After s b reason revision BarrierReply.already_recorded log again on retry =
      bar_again s b reason revision log on
  after_barrier-After s b reason revision BarrierReply.stale_revision log again on retry =
      retry _ (aside s b _ log on tt)
  after_barrier-After s b reason revision BarrierReply.unavailable log again on retry =
      (s, b, aside s b _ log on tt)
  after_barrier-After s b reason revision BarrierReply.port_error log again on retry =
      (s, b, aside s b _ log on tt)

  barrier_at-After :
      (s : TurnState) (b : Bool) (reason : BarrierReason) (revision : Option ℕ) (log : Log)
      (again : Log → Ran (Unit {0}))
      → On s b log
      → ((l : Log) → On s b l → After (λ u l. On s true l) Q (again l))
      → After (λ u l. On s true l) Q (barrier_at p revision c reason log again)
  barrier_at-After s b reason none log again on retry = (s, b, on)
  barrier_at-After s b reason (some revision) log again on retry =
      after_barrier-After s b reason revision _ log again on retry

  record_barrier-After :
      (attempts : ℕ) (s : TurnState) (b : Bool) (reason : BarrierReason) (log : Log)
      → On s b log
      → After (λ u l. On s true l) Q (record_barrier p attempts c reason log)
  unfolding record_barrier
  record_barrier-After zero s b reason log on = (s, b, on)
  record_barrier-After (suc attempts) s b reason log on =
      barrier_at-After s b reason (barrier_revision p (p.load log c)) _ _ (aside s b _ log on tt)
        (λ l on'. record_barrier-After attempts s b reason l on')

  pub require_barrier-After :
      (s : TurnState) (b : Bool) (reason : BarrierReason) (log : Log)
      → On s b log
      → After (λ u l. On s true l) Q (require_barrier p c reason log)
  unfolding require_barrier
  require_barrier-After s b reason log on =
      if_cases (λ (r : Ran (Unit {0})). After (λ u l. On s true l) Q r)
        (has_context c.owner_id c.conversation_id) _ _
        (λ h. record_barrier-After barrier_cas_attempts s b reason log on) (λ h. (s, b, on))

  -- The assessment asks for no transition, and fails the checkpoint of an unknown delivery.
  pub assess-After :
      (like : DeliveryLike) (s : TurnState) (b : Bool) (log : Log)
      → On s b log
      → After
          (λ a l. On s b l × (like ≡ is_unknown → (r : BarrierReason) × (a ≡ fails r)))
          Q
          (assess_checkpoint_recovery p c like log)
  unfolding assess_checkpoint_recovery
  assess-After is_unknown s b log on = (on, λ e. (_, refl))
  assess-After like s b log on =
      let P = λ (a : Assessment) (l : Log).
        On s b l × (like ≡ is_unknown → (r : BarrierReason) × (a ≡ fails r)) in
      if_cases (λ (r : Ran Assessment). After P Q r)
        (not (c.checkpoint_status == CheckpointStatus.succeeded)) _ _ (λ h. (on, λ e. (_, refl)))
        (λ h.
          if_cases (λ (r : Ran Assessment). After P Q r)
            (not (has_context c.owner_id c.conversation_id)) _ _ (λ g. (on, λ e. absurd (cc)))
            (λ g.
              either-After P Q _ _ (λ a. (aside s b _ log on tt, λ e. absurd (cc)))
                (s, b, aside s b _ log on tt)))

  pub settle_checkpoint-After :
      (a : Assessment) (s : TurnState) (b : Bool) (log : Log)
      → On s b log
      → After
          (λ k l. (b' : Bool) × On s b' l × ((r : BarrierReason) → a ≡ fails r → b' ≡ true))
          Q
          (settle_checkpoint p a c log)
  unfolding settle_checkpoint
  settle_checkpoint-After consistent s b log on = (b, on, λ r e. absurd (cc))
  settle_checkpoint-After contradiction s b log on = (s, b, on)
  settle_checkpoint-After (fails reason) s b log on =
      and_then-After (λ u l. On s true l)
        (λ k l.
          (b' : Bool) × On s b' l × ((r : BarrierReason) → fails reason ≡ fails r → b' ≡ true))
        Q _ _ (require_barrier-After s b reason log on) (λ u l barred. (true, barred, λ r e. refl))

  audit_completion_now-After :
      (like : DeliveryLike) (k : CheckpointStatus) (s : TurnState) (b : Bool) (revision : ℕ)
      (log : Log)
      → On s b log
      → After (λ r l. On s b l) Q (audit_completion_now p c revision like k log)
  unfolding audit_completion_now
  audit_completion_now-After like k s b revision log on =
      let made = completion_status p like k in
      let event = audited c.turn_id (status_of like) k made in
      let reply =
        require_record_success audit_completion_failed
          (p.record_completion log c.turn_id (status_of like) k made) in
      let next = aside s b event log on tt in
      and_then-After (λ u l. On s b l) (λ r l. On s b l) Q (reply, event ∷ log)
        (λ u after. record_fact p c.turn_id revision (completion_fact p c like k made) after)
        (either-After (λ u l. On s b l) Q reply (event ∷ log) (λ u. next) (s, b, next))
        (λ u l on'. record_fact-After s b revision (completion_fact p c like k made) l on')

  audit_by_completion-After :
      (completion : AuditCompletionStatus) (like : DeliveryLike) (k : CheckpointStatus)
      (s : TurnState) (b : Bool) (revision : ℕ) (log : Log)
      → On s b log
      → After (λ r l. On s b l) Q (audit_by_completion p completion c revision like k log)
  unfolding audit_by_completion
  audit_by_completion-After AuditCompletionStatus.succeeded was_delivered CheckpointStatus.succeeded
        s b revision log on =
      on
  audit_by_completion-After AuditCompletionStatus.succeeded like k s b revision log on = (s, b, on)
  audit_by_completion-After AuditCompletionStatus.failed like CheckpointStatus.succeeded s b
        revision log on =
      (s, b, on)
  audit_by_completion-After AuditCompletionStatus.failed like k s b revision log on =
      record_fact-After s b revision _ log on
  audit_by_completion-After _ like k s b revision log on =
      audit_completion_now-After like k s b revision log on

  pub reconcile_completion_audit-After :
      (like : DeliveryLike) (k : CheckpointStatus) (s : TurnState) (b : Bool) (revision : ℕ)
      (log : Log)
      → On s b log
      → After (λ r l. On s b l) Q (reconcile_completion_audit p c revision like k log)
  unfolding reconcile_completion_audit
  reconcile_completion_audit-After like k s b revision log on =
      let P = λ (r : Ran ℕ). After (λ r l. On s b l) Q r in
      if_cases P (not (has_context c.owner_id c.conversation_id)) _ _ (λ h. (s, b, on))
        (λ h.
          if_cases P (not (c.audit_start == AuditStartStatus.succeeded)) _ _ (λ g. (s, b, on))
            (λ g. audit_by_completion-After c.audit_completion like k s b revision log on))
