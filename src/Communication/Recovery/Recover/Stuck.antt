-- ===== src/Communication/Recovery/Recover/Stuck.antt =====
-- Recovery over the ledger's SQLite port: a turn in llm_known_failed, which it cannot end.
use open_claw_bot_neo.Prelude.{
  ℕ, ◌+◌, ◌≡◌, refl, sym, subst, true, String, some, List, ◌∷◌, inl, inr, arith, Option-cases,
}
use open_claw_bot_neo.Communication.Turn.{
  TurnState, TurnState_eq, TurnState-discrete, llm_known_failed, cancelled, can_transition,
}
use open_claw_bot_neo.Communication.Transaction
use open_claw_bot_neo.Communication.Transaction.{Env, Fault, busy, broken, Reply}
use open_claw_bot_neo.Communication.Ledger.Rows.{TurnRow, Ledger, load_turn}
use open_claw_bot_neo.Communication.Ledger.Facts.{
  TransitionCommand, TransitionOutcome, transition, transition_body,
}
use open_claw_bot_neo.Communication.Recovery.{
  TransitionReply, ledger_unavailable, Candidate, Action, asked_transition, Log, Ports, ok, err,
  Ran, and_then, require_transition_success, recovery_correlation, transition_to,
}
use open_claw_bot_neo.Communication.Recovery.Recover.{cancel_and_complete, recover_in, recover_one}
use open_claw_bot_neo.Communication.Recovery.Recover.Pages.{recover_page}

-- The answer of the ledger's port, as recovery reads it
abbrev pub reply_of : Reply TransitionOutcome → TransitionReply
reply_of (Transaction.ok (TransitionOutcome.transitioned revision)) =
    TransitionReply.transitioned revision
reply_of (Transaction.ok TransitionOutcome.already_transitioned) =
    TransitionReply.already_transitioned
reply_of (Transaction.ok TransitionOutcome.stale_revision) = TransitionReply.stale_revision
reply_of (Transaction.ok (TransitionOutcome.illegal_transition from to)) =
    TransitionReply.illegal_transition
reply_of (Transaction.ok (TransitionOutcome.unavailable reason)) = TransitionReply.unavailable
reply_of (Transaction.ok (TransitionOutcome.concurrency_conflict reason)) =
    TransitionReply.concurrency_conflict
reply_of (Transaction.err code) = TransitionReply.port_error

abbrev pub command : (turn correlation : String) → ℕ → TurnState → TurnState → TransitionCommand
command turn correlation revision from to = record {
  turn_id = turn;
  correlation_id = correlation;
  expected_state = from;
  expected_revision = revision;
  target_state = to;
}

-- The ports with a transition that is the ledger's, in the environment and on the tables that there are
-- after what was asked before
abbrev pub over_ledger : (Log → Env) → (Log → Ledger) → (correlation : String) → Ports → Ports
over_ledger env db correlation p = record p {
  transition = λ log turn revision from to.
      reply_of (transition (env log) (command turn correlation revision from to) (db log)).0;
}

-- What the ledger makes of the transition that recovery asks for.
abbrev Refused : ℕ → Ledger → Reply TransitionOutcome × Ledger → Type 0
Refused revision db r =
    (require_transition_success (reply_of r.0) revision ≡ err ledger_unavailable) × (r.1 ≡ db)

transition-Refused :
    (env : Env) (db : Ledger) (cmd : TransitionCommand) (row : TurnRow)
    → env.is_open ≡ true
    → load_turn cmd.turn_id db.turns ≡ some row
    → row.state ≡ llm_known_failed
    → cmd.target_state ≡ cancelled
    → Refused cmd.expected_revision db (transition env cmd db)
unfolding transition transition_body require_transition_success can_transition TurnState-discrete
transition-Refused env db cmd row is_open there state target = elim (Option-cases env.fault) [
  | inl e ↦ (ground arith, ground arith)
  | inr (busy, e) ↦ (ground arith, ground arith)
  | inr (broken, e) ↦ (ground arith, ground arith)
]

-- A part of recovery that stops at the ledger's refusal, after it asked for this transition.
abbrev pub StopsAt : {A : Type 0} → Action → Log → Ran A → Type 0
StopsAt action log r = (r.0 ≡ err ledger_unavailable) × (r.1 ≡ action ∷ log)

and_then-StopsAt :
    {A B : Type 0} (action : Action) (log : Log) (r : Ran A) (f : A → Log → Ran B)
    → StopsAt action log r
    → StopsAt action log (and_then r f)
and_then-StopsAt action log (ok a, after) f (failed, asked) = absurd (cc)
and_then-StopsAt action log (err e, after) f (failed, asked) = (ground arith, asked)

recover_one-StopsAt :
    (p : Ports) (c : Candidate) (log : Log)
    → c.state ≡ llm_known_failed
    → p.correlates c.turn_id c.correlation_id ≡ true
    → require_transition_success
        (p.transition log c.turn_id c.turn_revision llm_known_failed cancelled)
        c.turn_revision
      ≡ err ledger_unavailable
    → StopsAt
        (asked_transition c.turn_id c.turn_revision llm_known_failed cancelled)
        log
        (recover_one p c log)
unfolding recover_one recovery_correlation recover_in cancel_and_complete transition_to
    TurnState-discrete
recover_one-StopsAt p c log same correlated refused =
    let action = asked_transition c.turn_id c.turn_revision llm_known_failed cancelled in
    let cancels : StopsAt action log (cancel_and_complete p c log) = (ground arith, ground arith) in
    let at_state : StopsAt action log (recover_in p c.state c log) =
      subst (λ s. StopsAt action log (recover_in p s c log)) (sym same) cancels in
    (ground arith, ground arith)

-- Over the ledger's SQLite port, open and with whatever exception of the database, the recovery of a page
-- that begins with a turn that can be correlated and that is in llm_known_failed, for recovery and in
-- the ledger, fails at the first transition that it asks for, to cancelled, and this leaves the ledger
-- as it was: the table of transitions has none from llm_known_failed to cancelled.
pub recover_page-llm_known_failed :
    (env : Log → Env) (db : Log → Ledger) (correlation : String) (p : Ports) (c : Candidate)
    (cs : List Candidate) (count : ℕ) (log : Log) (row : TurnRow)
    → c.state ≡ llm_known_failed
    → p.correlates c.turn_id c.correlation_id ≡ true
    → (env log).is_open ≡ true
    → load_turn c.turn_id (db log).turns ≡ some row
    → row.state ≡ llm_known_failed
    → StopsAt
        (asked_transition c.turn_id c.turn_revision llm_known_failed cancelled)
        log
        (recover_page (over_ledger env db correlation p) (c ∷ cs) count log)
      × ((transition
            (env log)
            (command c.turn_id correlation c.turn_revision llm_known_failed cancelled)
            (db log)).1
          ≡ db log)
unfolding recover_page
recover_page-llm_known_failed env db correlation p c cs count log row same correlated is_open there
      state =
    let ports = over_ledger env db correlation p in
    let cmd = command c.turn_id correlation c.turn_revision llm_known_failed cancelled in
    let (refused, unchanged) =
      transition-Refused (env log) (db log) cmd row is_open there state refl in
    let action = asked_transition c.turn_id c.turn_revision llm_known_failed cancelled in
    (
      and_then-StopsAt action log (recover_one ports c log)
          (λ u after. recover_page ports cs (count + 1) after)
          (recover_one-StopsAt ports c log same correlated refused),
      unchanged,
    )
