-- ===== src/Communication/Outbox/History.antt =====
-- Histories of calls of the outbox, through which what it has recorded stays.
use open_claw_bot_neo.Prelude.{
  ◌≡◌, ◌⊎◌, inl, inr, sym, subst, none, some, List, [], ◌∷◌, String, arith,
}
use open_claw_bot_neo.Communication.Outbox.{OutcomeRow, ReconcileRow, Tables, Env, scrub}
use open_claw_bot_neo.Communication.Outbox.Put.{
  PutCommand, put_checked, put_body, put, PendingQuery, load_pending_checked, load_pending,
}
use open_claw_bot_neo.Communication.Outbox.Outcomes.{
  RecordCommand, select_outcome, new_outcome, record_body, record_delivery_outcome,
  get_reconciliation_candidate, ReconcileCommand, new_reconcile, reconcile_body, reconcile,
}

pub data Call : Type 0 where
  puts : Env → PutCommand → Call
  loads : Env → PendingQuery → Call
  records : Env → RecordCommand → Call
  asks : Env → (turn_id correlation_id : String) → Call
  reconciles : Env → ReconcileCommand → Call

abbrev pub perform : Call → Tables → Tables
perform (puts env cmd) t = (put env cmd t).1
perform (loads env q) t = (load_pending env q t).1
perform (records env cmd) t = (record_delivery_outcome env cmd t).1
perform (asks env turn correlation) t = (get_reconciliation_candidate env turn correlation t).1
perform (reconciles env cmd) t = (reconcile env cmd t).1

unfoldable pub run : List Call → Tables → Tables
run [] t = t
run (c ∷ cs) t = run cs (perform c t)

-- Only recordDeliveryOutcome adds an outcome, and only where there is none.
pub record Grows (t t' : Tables) : Type 0 where
  pub outcomes :
      (t'.outcomes ≡ t.outcomes)
      ⊎ ((r : OutcomeRow) × (t'.outcomes ≡ r ∷ t.outcomes)
          × (select_outcome r.turn_id r.correlation_id t.outcomes ≡ none))
  pub reconciles :
      (t'.reconciles ≡ t.reconciles) ⊎ ((r : ReconcileRow) × (t'.reconciles ≡ r ∷ t.reconciles))

put-Grows : (env : Env) (cmd : PutCommand) (t : Tables) → Grows t (put env cmd t).1
unfolding put put_checked put_body scrub
put-Grows env cmd t = record { outcomes = inl (ground arith); reconciles = inl (ground arith) }

load_pending-Grows : (env : Env) (q : PendingQuery) (t : Tables) → Grows t (load_pending env q t).1
unfolding load_pending load_pending_checked scrub
load_pending-Grows env q t = record {
  outcomes = inl (ground arith);
  reconciles = inl (ground arith);
}

record-outcomes :
    (env : Env) (cmd : RecordCommand) (t : Tables)
    → ((record_delivery_outcome env cmd t).1.outcomes ≡ t.outcomes)
      ⊎ (((record_delivery_outcome env cmd t).1.outcomes ≡ new_outcome env.now cmd ∷ t.outcomes)
          × (select_outcome cmd.turn_id cmd.correlation_id t.outcomes ≡ none))
unfolding record_delivery_outcome record_body scrub
record-outcomes env cmd t = ground arith

record-Grows :
    (env : Env) (cmd : RecordCommand) (t : Tables) → Grows t (record_delivery_outcome env cmd t).1
unfolding record_delivery_outcome record_body scrub
record-Grows env cmd t = record {
  outcomes = elim (record-outcomes env cmd t) [
    | inl same ↦ inl same
    | inr (new, absent) ↦ inr (new_outcome env.now cmd, new, absent)
  ];
  reconciles = inl (ground arith);
}

ask-Grows :
    (env : Env) (turn correlation : String) (t : Tables)
    → Grows t (get_reconciliation_candidate env turn correlation t).1
unfolding get_reconciliation_candidate scrub
ask-Grows env turn correlation t = record {
  outcomes = inl (ground arith);
  reconciles = inl (ground arith);
}

reconcile-reconciles :
    (env : Env) (cmd : ReconcileCommand) (t : Tables)
    → ((reconcile env cmd t).1.reconciles ≡ t.reconciles)
      ⊎ ((reconcile env cmd t).1.reconciles ≡ new_reconcile env.now cmd ∷ t.reconciles)
unfolding reconcile reconcile_body scrub
reconcile-reconciles env cmd t = ground arith

reconcile-Grows :
    (env : Env) (cmd : ReconcileCommand) (t : Tables) → Grows t (reconcile env cmd t).1
unfolding reconcile reconcile_body scrub
reconcile-Grows env cmd t = record {
  outcomes = inl (ground arith);
  reconciles = elim (reconcile-reconciles env cmd t) [
    | inl same ↦ inl same
    | inr new ↦ inr (new_reconcile env.now cmd, new)
  ];
}

pub perform-Grows : (c : Call) (t : Tables) → Grows t (perform c t)
perform-Grows (puts env cmd) t = put-Grows env cmd t
perform-Grows (loads env q) t = load_pending-Grows env q t
perform-Grows (records env cmd) t = record-Grows env cmd t
perform-Grows (asks env turn correlation) t = ask-Grows env turn correlation t
perform-Grows (reconciles env cmd) t = reconcile-Grows env cmd t

select_outcome-add :
    (turn correlation : String) (new r : OutcomeRow) (rs : List OutcomeRow)
    → select_outcome new.turn_id new.correlation_id rs ≡ none
    → select_outcome turn correlation rs ≡ some r
    → select_outcome turn correlation (new ∷ rs) ≡ some r
unfolding select_outcome
select_outcome-add turn correlation new r rs absent h = ground arith

Grows-outcome :
    (turn correlation : String) (r : OutcomeRow) {t t' : Tables}
    → Grows t t'
    → select_outcome turn correlation t.outcomes ≡ some r
    → select_outcome turn correlation t'.outcomes ≡ some r
Grows-outcome turn correlation r {t} v h = elim v.outcomes [
  | inl same ↦ subst (λ l. select_outcome turn correlation l ≡ some r) (sym same) h
  | inr (new, added, absent) ↦
      subst (λ l. select_outcome turn correlation l ≡ some r) (sym added)
        (select_outcome-add turn correlation new r t.outcomes absent h)
]

pub run-outcome :
    (turn correlation : String) (r : OutcomeRow) (cs : List Call) (t : Tables)
    → select_outcome turn correlation t.outcomes ≡ some r
    → select_outcome turn correlation (run cs t).outcomes ≡ some r
unfolding run
run-outcome turn correlation r [] t h = h
run-outcome turn correlation r (c ∷ cs) t h =
    run-outcome turn correlation r cs (perform c t)
      (Grows-outcome turn correlation r (perform-Grows c t) h)
