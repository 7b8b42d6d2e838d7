-- ===== src/Communication/Recovery/Recover/Promises.antt =====
-- What the recovery of a turn promises.
use open_claw_bot_neo.Prelude.{◌≡◌, ◌≢◌, refl, Bool, true, false, ◌==◌, if_cases, arith}
use open_claw_bot_neo.Communication.Turn.{TurnState_eq, llm_known_failed, completed}
use open_claw_bot_neo.Communication.Recovery.{
  Candidate, Log, Ports, Ran, and_then, recovery_correlation,
}
use open_claw_bot_neo.Communication.Recovery.Recover.{recover_in, recover_one}
use open_claw_bot_neo.Communication.Recovery.Recover.Turns.{EndsIn, recover_in-After}
use open_claw_bot_neo.Communication.Recovery.Recover.Course.{
  Course, at_start, is_uncertain, IsLegal, After,
}

-- Whatever the ports answer, each transition that the recovery of a turn asks for is legal and sets out
-- from the one before, the first from the turn's state, if the turn is not completed and not
-- llm_known_failed. If the recovery succeeds, the last transition is to completed, and a barrier is on
-- record for a turn in delivery_outcome_unknown, for one in llm_started that has no outcome, and for one
-- in delivery_started of which the outbox does not answer that it was delivered or failed.
pub recover_one-Course :
    (p : Ports) (c : Candidate) (log : Log)
    → c.state ≢ completed
    → c.state ≢ llm_known_failed
    → After
        (λ u after.
          (b : Bool) × Course c.turn_id c.state log completed b after
          × (is_uncertain p c log c.state ≡ true → b ≡ true))
        (λ after. IsLegal c.turn_id c.state log after)
        (recover_one p c log)
unfolding recover_one recovery_correlation
recover_one-Course p c log unended known =
    if_cases (EndsIn p c log c.state) (c.state == completed) _ _
      (λ h. absurd (unended (ground arith)))
      (λ h.
        let f = λ (u : Unit {0}) (l : Log). recover_in p c.state c l in
        if_cases (λ (r : Ran (Unit {0})). EndsIn p c log c.state (and_then r f))
          (p.correlates c.turn_id c.correlation_id) _ _
          (λ g. recover_in-After p c log c.state refl unended known)
          (λ g. (c.state, false, at_start)))
