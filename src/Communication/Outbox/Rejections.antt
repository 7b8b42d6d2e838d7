-- ===== src/Communication/Outbox/Rejections.antt =====
-- When a promise of the outbox is rejected: the scrubbing stands before the try of each method.
use open_claw_bot_neo.Prelude.{◌≡◌, ◌≢◌, ◌↔◌, inl, inr, true, some, String, arith, Option-cases}
use open_claw_bot_neo.Communication.Transaction.{Fault, Tx}
use open_claw_bot_neo.Communication.Outbox.{
  Tables, Env, Answer, ok, throws, scrub, scrubbing, in_transaction,
}
use open_claw_bot_neo.Communication.Outbox.Put.{
  PutCommand, put_checked, put, PendingQuery, load_pending_checked, load_pending,
}
use open_claw_bot_neo.Communication.Outbox.Outcomes.{
  RecordOutcome, record_body, ReconcileOutcome, reconcile_body, RecordCommand,
  record_delivery_outcome, read_delivery_outcome, candidate_faulty, is_unknown, select_outcome,
  get_reconciliation_candidate, ReconcileCommand, reconcile,
}

-- A promise is rejected exactly where the scrubbing statement raises an exception on an open port, and
-- then nothing changes.
abbrev pub Rejects : {A : Type 0} → Env → Tables → Answer A × Tables → Type 0
Rejects env t r =
    ((r.0 ≡ throws) ↔ ((env.is_open ≡ true) × ((f : Fault) × (env.scrub_fault ≡ some f))))
    × (r.0 ≡ throws → r.1 ≡ t)

scrubbing-Rejects :
    {A : Type 0} (env : Env) (rest : Tables → Answer A × Tables) (t : Tables)
    → (rest (scrub env t)).0 ≢ throws
    → Rejects env t (scrubbing env rest t)
scrubbing-Rejects env rest t answers = elim (Option-cases env.scrub_fault) [
  | inl e ↦ (
    (λ h. absurd (ground arith), λ (o, (f, s)). absurd (ground arith)),
    λ h. absurd (ground arith),
  )
  | inr (f, e) ↦ ((λ h. (ground arith, (f, e)), λ (o, (g, s)). ground arith), λ h. ground arith)
]

in_transaction-Rejects :
    {A : Type 0} (env : Env) (caught : Fault → A) (body : Tables → Tx A Tables) (t : Tables)
    → Rejects env t (scrubbing env (in_transaction env caught body) t)
in_transaction-Rejects env caught body t =
    scrubbing-Rejects env (in_transaction env caught body) t (λ h. absurd (cc))

put_checked-answers :
    (env : Env) (cmd : PutCommand) (t : Tables) → (put_checked env cmd t).0 ≢ throws
unfolding put_checked
put_checked-answers env cmd t h = absurd (ground arith)

-- put, loadPending, recordDeliveryOutcome, getReconciliationCandidate and reconcile reject their promise
-- exactly where the scrubbing statement raises an exception on an open port, and then change nothing:
-- every other exception of the database is an answer. readDeliveryOutcome never rejects its promise.
pub scrub_fault-throws_iff :
    (env : Env) (t : Tables) (cmd : PutCommand) (q : PendingQuery) (r : RecordCommand)
    (turn correlation : String) (c : ReconcileCommand)
    → Rejects env t (put env cmd t)
      × Rejects env t (load_pending env q t)
      × Rejects env t (record_delivery_outcome env r t)
      × Rejects env t (get_reconciliation_candidate env turn correlation t)
      × Rejects env t (reconcile env c t)
      × (read_delivery_outcome env turn correlation t ≢ throws)
unfolding put load_pending record_delivery_outcome get_reconciliation_candidate reconcile
    read_delivery_outcome load_pending_checked
scrub_fault-throws_iff env t cmd q r turn correlation c = (
  scrubbing-Rejects env (put_checked env cmd) t (put_checked-answers env cmd (scrub env t)),
  scrubbing-Rejects env (load_pending_checked env q) t (λ h. ground arith),
  in_transaction-Rejects env (λ f. RecordOutcome.unavailable) (record_body env.now r) t,
  scrubbing-Rejects env
      (λ s. (
        ok (candidate_faulty env.fault (is_unknown (select_outcome turn correlation s.outcomes))),
        s,
      ))
      t (λ h. absurd (cc)),
  in_transaction-Rejects env (λ f. ReconcileOutcome.unavailable) (reconcile_body env.now c) t,
  λ h. ground arith,
)
