-- ===== src/Communication/Outbox/Finality.antt =====
-- A recorded outcome is final, and a turn is reconciled once.
use open_claw_bot_neo.Prelude.{
  ◌≡◌, inl, inr, refl, sym, subst, subst₂, ap, ◌∙◌, true, none, some, List, [], ◌∷◌, String, arith,
  String-discrete,
}
use open_claw_bot_neo.Communication.Outbox.{OutcomeRow, Tables, Env, ok, scrub}
use open_claw_bot_neo.Communication.Outbox.Outcomes.{
  OutcomeKind, delivered, known_failure, outcome_unknown, outcome_text, RecordCommand, recorded,
  select_outcome, new_outcome, record_body, record_delivery_outcome, read, stored_kind,
  read_delivery_outcome, ReconcileCommand, reconciled, already_reconciled, has_reconcile_turn,
  reconcile_body, reconcile,
}
use open_claw_bot_neo.Communication.Outbox.History.{
  Call, records, reconciles, perform, run, Grows, perform-Grows, run-outcome,
}

stored_kind-outcome_text : (k : OutcomeKind) → stored_kind (outcome_text k) ≡ read k
unfolding String-discrete
stored_kind-outcome_text delivered = refl
stored_kind-outcome_text known_failure = refl
stored_kind-outcome_text outcome_unknown = refl

record-recorded :
    (env : Env) (cmd : RecordCommand) (t : Tables)
    → (record_delivery_outcome env cmd t).0 ≡ ok recorded
    → select_outcome cmd.turn_id cmd.correlation_id (record_delivery_outcome env cmd t).1.outcomes
      ≡ some (new_outcome env.now cmd)
unfolding record_delivery_outcome record_body scrub select_outcome
record-recorded env cmd t h = ground arith

read-recorded :
    (later : Env) (turn correlation : String) (t : Tables) (r : OutcomeRow)
    → select_outcome turn correlation t.outcomes ≡ some r
    → later.is_open ≡ true
    → later.fault ≡ none
    → read_delivery_outcome later turn correlation t ≡ ok (stored_kind r.outcome)
unfolding read_delivery_outcome
read-recorded later turn correlation t r h is_open calm = ground arith

-- A recorded delivery outcome is final: once it was recorded, through any later calls of the outbox,
-- reading the outcome of that turn, on an open port and a database that answers, returns it.
pub record_delivery_outcome_final :
    (env later : Env) (cmd : RecordCommand) (t : Tables) (calls : List Call)
    → (record_delivery_outcome env cmd t).0 ≡ ok recorded
    → later.is_open ≡ true
    → later.fault ≡ none
    → read_delivery_outcome later cmd.turn_id cmd.correlation_id (run (records env cmd ∷ calls) t)
      ≡ ok (read cmd.outcome)
unfolding run
record_delivery_outcome_final env later cmd t calls h is_open calm =
    let first = (record_delivery_outcome env cmd t).1 in
    let kept =
      run-outcome cmd.turn_id cmd.correlation_id (new_outcome env.now cmd) calls first
        (record-recorded env cmd t h) in
    read-recorded later cmd.turn_id cmd.correlation_id (run calls first) (new_outcome env.now cmd)
      kept is_open calm
    ∙ ap ok (stored_kind-outcome_text cmd.outcome)

Grows-reconciled :
    (turn correlation : String) {t t' : Tables}
    → Grows t t'
    → has_reconcile_turn turn correlation t.reconciles ≡ true
    → has_reconcile_turn turn correlation t'.reconciles ≡ true
unfolding has_reconcile_turn
Grows-reconciled turn correlation {t} v h = elim v.reconciles [
  | inl same ↦ subst (λ l. has_reconcile_turn turn correlation l ≡ true) (sym same) h
  | inr (new, added) ↦
      subst (λ l. has_reconcile_turn turn correlation l ≡ true) (sym added) (ground (arith, h))
]

run-reconciled :
    (turn correlation : String) (cs : List Call) (t : Tables)
    → has_reconcile_turn turn correlation t.reconciles ≡ true
    → has_reconcile_turn turn correlation (run cs t).reconciles ≡ true
unfolding run
run-reconciled turn correlation [] t h = h
run-reconciled turn correlation (c ∷ cs) t h =
    run-reconciled turn correlation cs (perform c t)
      (Grows-reconciled turn correlation (perform-Grows c t) h)

reconcile-reconciled :
    (env : Env) (cmd : ReconcileCommand) (t : Tables)
    → (reconcile env cmd t).0 ≡ ok reconciled
    → has_reconcile_turn cmd.turn_id cmd.correlation_id (reconcile env cmd t).1.reconciles ≡ true
unfolding reconcile reconcile_body scrub has_reconcile_turn
reconcile-reconciled env cmd t h = ground arith

reconcile-again :
    (later : Env) (again : ReconcileCommand) (t : Tables)
    → has_reconcile_turn again.turn_id again.correlation_id t.reconciles ≡ true
    → later.is_open ≡ true
    → later.scrub_fault ≡ none
    → later.fault ≡ none
    → (reconcile later again t).0 ≡ ok already_reconciled
unfolding reconcile reconcile_body scrub
reconcile-again later again t h is_open clean calm = ground arith

-- A turn is reconciled once: after a reconciliation succeeded, through any later calls of the outbox,
-- each reconciliation of that turn, under whatever idempotency key, on an open port and a database
-- that answers, returns already_reconciled.
pub reconcile_once :
    (env later : Env) (cmd again : ReconcileCommand) (t : Tables) (calls : List Call)
    → (reconcile env cmd t).0 ≡ ok reconciled
    → again.turn_id ≡ cmd.turn_id
    → again.correlation_id ≡ cmd.correlation_id
    → later.is_open ≡ true
    → later.scrub_fault ≡ none
    → later.fault ≡ none
    → (reconcile later again (run (reconciles env cmd ∷ calls) t)).0 ≡ ok already_reconciled
unfolding run
reconcile_once env later cmd again t calls h turn correlation is_open clean calm =
    let first = (reconcile env cmd t).1 in
    let kept =
      run-reconciled cmd.turn_id cmd.correlation_id calls first
        (reconcile-reconciled env cmd t h) in
    reconcile-again later again (run calls first)
      (subst₂ (λ x y. has_reconcile_turn x y (run calls first).reconciles ≡ true) (sym turn)
        (sym correlation) kept)
      is_open clean calm
