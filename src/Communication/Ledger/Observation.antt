-- ===== src/Communication/Ledger/Observation.antt =====
-- One event is admitted once.
use open_claw_bot_neo.Prelude.{
  ◌≡◌, refl, sym, subst, true, none, some, List, [], ◌∷◌, String, arith, String-discrete, ℕ,
}
use open_claw_bot_neo.Communication.Turn.{QueueConfig, TurnState}
use open_claw_bot_neo.Communication.Transaction.{Env, ok}
use open_claw_bot_neo.Communication.Ledger.Rows.{TurnRow, Ledger, select_by_key, observed_row}
use open_claw_bot_neo.Communication.Ledger.Step.{
  Rewrites, here, there, Step, stay, insert, revise, assign,
}
use open_claw_bot_neo.Communication.Ledger.Admission.{
  ObserveCommand, AdmissionEvidence, fresh_observed, duplicate_existing, observe_transport_event,
}
use open_claw_bot_neo.Communication.Ledger.Runs.{
  Call, observes, perform, run, Inv, perform-Step, perform-Inv,
}

-- The event with this key belongs to this turn.
abbrev pub IsKnown : String → String → List TurnRow → Type 0
IsKnown key id rs = (r : TurnRow) × (select_by_key key rs ≡ some r) × (r.turn_id ≡ id)

select_by_key-Rewrites-IsKnown :
    {r r' : TurnRow} {rs rs' : List TurnRow} (key id : String)
    → r'.turn_id ≡ r.turn_id
    → r'.idempotency_key ≡ r.idempotency_key
    → Rewrites r r' rs rs'
    → IsKnown key id rs
    → IsKnown key id rs'
unfolding select_by_key
select_by_key-Rewrites-IsKnown {r} {r'} key id same_id same_key (here {rs}) (t, found, e) =
    elim (String-discrete r.idempotency_key key) [
      | yes p ↦ (r', ground arith, ground arith)
      | no n ↦ (t, ground arith, e)
    ]
select_by_key-Rewrites-IsKnown key id same_id same_key (there {x} {rs} {rs'} w) (t, found, e) =
    elim (String-discrete x.idempotency_key key) [
      | yes p ↦ (x, ground arith, ground arith)
      | no n ↦
          let (u, found', e') =
            select_by_key-Rewrites-IsKnown key id same_id same_key w (t, ground arith, e) in
          (u, ground arith, e')
    ]

module _ (cfg : QueueConfig) (key id : String) where
  Step-IsKnown :
      {db db' : Ledger} → Step cfg db db' → IsKnown key id db.turns → IsKnown key id db'.turns
  unfolding select_by_key
  Step-IsKnown (stay same) k = subst (λ l. IsKnown key id l.turns) (sym same) k
  Step-IsKnown (insert row _ absent _ turns _) (t, found, e) =
      subst (IsKnown key id) (sym turns) (t, ground arith, e)
  Step-IsKnown (revise r r' w v _ _ _) k =
      select_by_key-Rewrites-IsKnown key id v.same_turn v.same_key w k
  Step-IsKnown (assign r r' _ _ _ w v _ _ _ _ _ _ _ _ _) k =
      select_by_key-Rewrites-IsKnown key id v.same_turn v.same_key w k

  run-IsKnown :
      (calls : List (Env × Call)) (db : Ledger)
      → Inv cfg db
      → IsKnown key id db.turns
      → IsKnown key id (run cfg calls db).turns
  unfolding run
  run-IsKnown [] db v k = k
  run-IsKnown ((env, call) ∷ rest) db v k =
      run-IsKnown rest (perform cfg env call db) (perform-Inv cfg env call db v)
        (Step-IsKnown (perform-Step cfg env call db v) k)

observe-fresh_observed :
    (env : Env) (cmd : ObserveCommand) (db : Ledger) (id : String) (n : ℕ) (e : AdmissionEvidence)
    → (observe_transport_event env cmd db).0 ≡ ok (fresh_observed id n e)
    → IsKnown cmd.idempotency_key cmd.turn_id (observe_transport_event env cmd db).1.turns
unfolding observe_transport_event select_by_key
observe-fresh_observed env cmd db id n e h = (
  observed_row cmd.turn_id cmd.transport_instance_id cmd.idempotency_key cmd.observed_at,
  ground arith,
  refl,
)

observe-duplicate_existing :
    (env : Env) (cmd : ObserveCommand) (db : Ledger) (r : TurnRow)
    → env.is_open ≡ true
    → env.fault ≡ none
    → select_by_key cmd.idempotency_key db.turns ≡ some r
    → observe_transport_event env cmd db ≡ (ok (duplicate_existing r.turn_id r.state), db)
unfolding observe_transport_event
observe-duplicate_existing env cmd db r open_port no_fault h = ground arith

perform-observes :
    (cfg : QueueConfig) (env : Env) (cmd : ObserveCommand) (db : Ledger)
    → perform cfg env (observes cmd) db ≡ (observe_transport_event env cmd db).1
unfolding perform
perform-observes cfg env cmd db = refl

-- From a ledger that satisfies the invariant, once an event has been admitted as fresh, observing an event with its key again, after any history
-- of calls and faults and whatever turn identifier comes with it, on an open port and a database
-- that answers, returns the first turn as a duplicate and changes nothing.
pub observe_once :
    (cfg : QueueConfig) (env later : Env) (cmd again : ObserveCommand) (db : Ledger)
    (calls : List (Env × Call)) (id : String) (n : ℕ) (e : AdmissionEvidence)
    → Inv cfg db
    → (observe_transport_event env cmd db).0 ≡ ok (fresh_observed id n e)
    → again.idempotency_key ≡ cmd.idempotency_key
    → later.is_open ≡ true
    → later.fault ≡ none
    → (state : TurnState) × (observe_transport_event later again
          (run cfg calls (observe_transport_event env cmd db).1)
        ≡ (
          ok (duplicate_existing cmd.turn_id state),
          run cfg calls (observe_transport_event env cmd db).1,
        ))
observe_once cfg env later cmd again db calls id n e v fresh same open_port no_fault =
    let first = (observe_transport_event env cmd db).1 in
    let first-Inv : Inv cfg first =
      subst (Inv cfg) (perform-observes cfg env cmd db) (perform-Inv cfg env (observes cmd) db v) in
    let (r, found, e') =
      run-IsKnown cfg cmd.idempotency_key cmd.turn_id calls first first-Inv
        (observe-fresh_observed env cmd db id n e fresh) in
    let last = run cfg calls first in
    let found' : select_by_key again.idempotency_key last.turns ≡ some r =
      subst (λ k. select_by_key k last.turns ≡ some r) (sym same) found in
    (
      r.state,
      subst
          (λ i.
            observe_transport_event later again last ≡ (ok (duplicate_existing i r.state), last))
          e' (observe-duplicate_existing later again last r open_port no_fault found'),
    )
