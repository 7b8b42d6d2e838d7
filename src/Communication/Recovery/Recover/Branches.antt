-- ===== src/Communication/Recovery/Recover/Branches.antt =====
-- The course of a turn through each branch of its recovery.
use open_claw_bot_neo.Prelude.{ℕ, ◌≡◌, refl, Bool, true, false, ◌==◌, if_cases, arith, subst}
use open_claw_bot_neo.Communication.Turn.{
  TurnState, TurnState_eq, TurnState-discrete, llm_started, cancelled, completed,
  CheckpointStatus_eq, AuditStartStatus_eq, can_transition,
}
use open_claw_bot_neo.Communication.Recovery.{
  BarrierReason, llm_outcome_unknown, Candidate, Log, Ports, ok, err, Ran, transition_to,
  record_fact, complete_from, require_barrier,
}
use open_claw_bot_neo.Communication.Recovery.Recover.{
  DeliveryLike, was_delivered, has_failed, is_unknown, state_of, fails, assess_checkpoint_recovery,
  reconcile_completion_audit, settle_checkpoint, complete_delivery_like, unknown_fact,
  recover_llm_unknown, cancel_and_complete,
}
use open_claw_bot_neo.Communication.Recovery.Recover.Course.{After, and_then-After}
use open_claw_bot_neo.Communication.Recovery.Recover.Steps.{
  On, Q, transition_to-After, record_fact-After, complete_from-After, require_barrier-After,
  assess-After, settle_checkpoint-After, reconcile_completion_audit-After,
}

module _ (p : Ports) (start : TurnState) (base : Log) (c : Candidate) where
  -- The turn has been brought to its end, with a barrier where one is called for.
  abbrev pub IsDone : Type 0 → Log → Type 0
  IsDone needed log = (b : Bool) × On p start base c completed b log × (needed → b ≡ true)

  ends_legally : (like : DeliveryLike) → can_transition (state_of like) completed ≡ true
  unfolding can_transition TurnState-discrete
  ends_legally was_delivered = refl
  ends_legally has_failed = refl
  ends_legally is_unknown = refl

  -- A course that has ended, as the end of a turn.
  pub finished :
      (needed : Type 0) (b : Bool) (r : Ran (Unit {0}))
      → After (λ u l. On p start base c completed b l) (Q p start base c) r
      → (needed → b ≡ true)
      → After (λ u l. IsDone needed l) (Q p start base c) r
  finished needed b (ok u, log) on has = (b, on, has)
  finished needed b (err e, log) on has = on

  pub complete_delivery_like-After :
      (like : DeliveryLike) (b : Bool) (revision : ℕ) (log : Log)
      → On p start base c (state_of like) b log
      → After
          (λ u l. IsDone (like ≡ is_unknown) l)
          (Q p start base c)
          (complete_delivery_like p c like revision log)
  unfolding complete_delivery_like
  complete_delivery_like-After like b revision log on =
      let s = state_of like in
      and_then-After
        (λ a l. On p start base c s b l × (like ≡ is_unknown → (r : BarrierReason) × (a ≡ fails r)))
        (λ u l. IsDone (like ≡ is_unknown) l) (Q p start base c)
        (assess_checkpoint_recovery p c like log) _ (assess-After p start base c like s b log on)
        (λ a l1 (on1, failed).
          and_then-After
            (λ k l.
              (b' : Bool) × On p start base c s b' l
              × ((r : BarrierReason) → a ≡ fails r → b' ≡ true))
            (λ u l. IsDone (like ≡ is_unknown) l) (Q p start base c) (settle_checkpoint p a c l1) _
            (settle_checkpoint-After p start base c a s b l1 on1)
            (λ k l2 (b', on2, barred).
              and_then-After (λ r l. On p start base c s b' l) (λ u l. IsDone (like ≡ is_unknown) l)
                (Q p start base c) (reconcile_completion_audit p c revision like k l2) _
                (reconcile_completion_audit-After p start base c like k s b' revision l2 on2)
                (λ next l3 on3.
                  let ends =
                    complete_from-After p start base c s b' next l3 on3 (ends_legally like) in
                  finished (like ≡ is_unknown) b' (complete_from p c.turn_id next s l3) ends
                    (λ e. let (r, same) = failed e in barred r same))))

  -- The needs of one end serve for another.
  pub weakened :
      (needed more : Type 0) (r : Ran (Unit {0}))
      → (more → needed)
      → After (λ u l. IsDone needed l) (Q p start base c) r
      → After (λ u l. IsDone more l) (Q p start base c) r
  weakened needed more (ok u, log) f (b, on, has) = (b, on, λ m. has (f m))
  weakened needed more (err e, log) f q = q

  pub recover_llm_unknown-After :
      (needed : Type 0) (b : Bool) (log : Log)
      → On p start base c llm_started b log
      → After (λ u l. IsDone needed l) (Q p start base c) (recover_llm_unknown p c log)
  unfolding recover_llm_unknown can_transition TurnState-discrete
  recover_llm_unknown-After needed b log on =
      let done = λ (u : Unit {0}) (l : Log). IsDone needed l in
      and_then-After (λ r l. On p start base c llm_started b l) done (Q p start base c)
        (record_fact p c.turn_id c.turn_revision (unknown_fact p c) log) _
        (record_fact-After p start base c llm_started b c.turn_revision (unknown_fact p c) log on)
        (λ r1 l1 on1.
          and_then-After (λ r l. On p start base c cancelled b l) done (Q p start base c)
            (transition_to p c.turn_id r1 llm_started cancelled l1) _
            (transition_to-After p start base c llm_started cancelled b r1 l1 on1 refl)
            (λ r2 l2 on2.
              and_then-After (λ u l. On p start base c cancelled true l) done (Q p start base c)
                (require_barrier p c llm_outcome_unknown l2) _
                (require_barrier-After p start base c cancelled b llm_outcome_unknown l2 on2)
                (λ u l3 on3.
                  finished needed true (complete_from p c.turn_id r2 cancelled l3)
                    (complete_from-After p start base c cancelled true r2 l3 on3 refl)
                    (λ x. refl))))

  pub cancel_and_complete-After :
      (b : Bool) (log : Log)
      → On p start base c c.state b log
      → ((c.state == cancelled) ≡ false → can_transition c.state cancelled ≡ true)
      → After (λ u l. IsDone ⊥ l) (Q p start base c) (cancel_and_complete p c log)
  unfolding cancel_and_complete can_transition TurnState-discrete
  cancel_and_complete-After b log on legal =
      let done = λ (u : Unit {0}) (l : Log). IsDone ⊥ l in
      if_cases (λ (r : Ran (Unit {0})). After done (Q p start base c) r) (c.state == cancelled) _ _
        (λ h.
          let at_end : c.state ≡ cancelled = ground arith in
          finished ⊥ b (complete_from p c.turn_id c.turn_revision cancelled log)
            (complete_from-After p start base c cancelled b c.turn_revision log
              (subst (λ s. On p start base c s b log) at_end on) refl)
            (λ x. absurd x))
        (λ h.
          and_then-After (λ r l. On p start base c cancelled b l) done (Q p start base c)
            (transition_to p c.turn_id c.turn_revision c.state cancelled log) _
            (transition_to-After p start base c c.state cancelled b c.turn_revision log on
              (legal h))
            (λ r l on'.
              finished ⊥ b (complete_from p c.turn_id r cancelled l)
                (complete_from-After p start base c cancelled b r l on' refl) (λ x. absurd x)))
