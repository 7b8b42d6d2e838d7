-- ===== src/Communication/Recovery/Recover/Turns.antt =====
-- The course of a turn, by the state in which recovery finds it.
use open_claw_bot_neo.Prelude.{
  ◌≡◌, ◌≢◌, refl, true, false, if_cases, arith, is_none, subst, sym, not, false,
}
use open_claw_bot_neo.Communication.Turn.{
  TurnState, TurnState_eq, TurnState-discrete, authentication_rejected, llm_started,
  llm_known_failed, observed, authenticated, accepted, queued, deterministic_notice_prepared,
  llm_completed, output_validated, delivery_started, delivery_failed, delivery_outcome_unknown,
  cancelled, completed, CheckpointStatus_eq, AuditStartStatus_eq, can_transition,
}
use open_claw_bot_neo.Communication.Recovery.{Candidate, Log, Ports, Ran}
use open_claw_bot_neo.Communication.Recovery.Recover.{
  was_delivered, has_failed, is_unknown, cancel_and_complete, recover_in,
}
use open_claw_bot_neo.Communication.Recovery.Recover.Course.{
  at_start, is_known, is_uncertain, After,
}
use open_claw_bot_neo.Communication.Recovery.Recover.Steps.{On, Q, complete_from-After}
use open_claw_bot_neo.Communication.Recovery.Recover.Branches.{
  IsDone, finished, complete_delivery_like-After, weakened, recover_llm_unknown-After,
  cancel_and_complete-After,
}
use open_claw_bot_neo.Communication.Recovery.Recover.Deliveries.{recover_delivery-After}

module _ (p : Ports) (c : Candidate) (base : Log) where
  -- The end of a turn that was in this state.
  abbrev pub EndsIn : TurnState → Ran (Unit {0}) → Type 0
  EndsIn s r = After (λ u l. IsDone p s base c (is_uncertain p c base s ≡ true) l) (Q p s base c) r

  plainly :
      (s : TurnState)
      → c.state ≡ s
      → can_transition s cancelled ≡ true
      → (is_uncertain p c base s ≡ true → ⊥)
      → EndsIn s (cancel_and_complete p c base)
  plainly s same legal certain = weakened p s base c ⊥ (is_uncertain p c base s ≡ true) _ certain (
      cancel_and_complete-After p s base c false base
        (subst (λ t. On p s base c t false base) (sym same) at_start)
        (λ h. subst (λ t. can_transition t cancelled ≡ true) (sym same) legal))

  pub recover_in-After :
      (s : TurnState)
      → c.state ≡ s
      → s ≢ completed
      → s ≢ llm_known_failed
      → EndsIn s (recover_in p s c base)
  unfolding recover_in can_transition TurnState-discrete
  recover_in-After delivery_started same unended known =
      weakened p delivery_started base c (is_known (p.read_delivery_outcome base c.turn_id) ≡ false)
        (not (is_known (p.read_delivery_outcome base c.turn_id)) ≡ true) _ (λ e. ground arith)
        (recover_delivery-After p delivery_started base c false base at_start)
  recover_in-After TurnState.delivered same unended known =
      weakened p TurnState.delivered base c (was_delivered ≡ is_unknown) (false ≡ true) _
        (λ e. absurd (cc))
        (complete_delivery_like-After p TurnState.delivered base c was_delivered false
          c.turn_revision base at_start)
  recover_in-After delivery_failed same unended known =
      weakened p delivery_failed base c (has_failed ≡ is_unknown) (false ≡ true) _
        (λ e. absurd (cc))
        (complete_delivery_like-After p delivery_failed base c has_failed false c.turn_revision base
          at_start)
  recover_in-After delivery_outcome_unknown same unended known =
      weakened p delivery_outcome_unknown base c (is_unknown ≡ is_unknown) (true ≡ true) _
        (λ e. refl)
        (complete_delivery_like-After p delivery_outcome_unknown base c is_unknown false
          c.turn_revision base at_start)
  recover_in-After authentication_rejected same unended known =
      finished p authentication_rejected base c (false ≡ true) false _
        (complete_from-After p authentication_rejected base c authentication_rejected false
          c.turn_revision base at_start refl)
        (λ e. absurd (cc))
  recover_in-After llm_started same unended known =
      if_cases (λ (r : Ran (Unit {0})). EndsIn llm_started r) (is_none c.llm_outcome) _ _
        (λ h. recover_llm_unknown-After p llm_started base c _ false base at_start)
        (λ h. plainly llm_started same refl (λ e. absurd (cc)))
  recover_in-After completed same unended known = absurd (unended refl)
  recover_in-After llm_known_failed same unended known = absurd (known refl)
  recover_in-After cancelled same unended known =
      weakened p cancelled base c ⊥ (false ≡ true) _ (λ e. absurd (cc))
        (cancel_and_complete-After p cancelled base c false base
          (subst (λ t. On p cancelled base c t false base) (sym same) at_start)
          (λ h. absurd (ground arith)))
  recover_in-After observed same unended known = plainly observed same refl (λ e. absurd (cc))
  recover_in-After authenticated same unended known =
      plainly authenticated same refl (λ e. absurd (cc))
  recover_in-After accepted same unended known = plainly accepted same refl (λ e. absurd (cc))
  recover_in-After queued same unended known = plainly queued same refl (λ e. absurd (cc))
  recover_in-After deterministic_notice_prepared same unended known =
      plainly deterministic_notice_prepared same refl (λ e. absurd (cc))
  recover_in-After llm_completed same unended known =
      plainly llm_completed same refl (λ e. absurd (cc))
  recover_in-After output_validated same unended known =
      plainly output_validated same refl (λ e. absurd (cc))
