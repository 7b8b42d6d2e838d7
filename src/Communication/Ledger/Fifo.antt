-- ===== src/Communication/Ledger/Fifo.antt =====
-- Of two turns of one conversation the one that is accepted first has the smaller number.
use open_claw_bot_neo.Prelude.{ℕ, ◌<◌, ◌≡◌, refl, ap, sym, subst, some, List, String}
use open_claw_bot_neo.Communication.Turn.{QueueConfig}
use open_claw_bot_neo.Communication.Transaction.{Env, ok}
use open_claw_bot_neo.Communication.Ledger.Rows.{TurnRow, Ledger, load_turn, set_columns}
use open_claw_bot_neo.Communication.Ledger.Step.{write_turn-Rewrites, load_turn-id, All-load_turn}
use open_claw_bot_neo.Communication.Ledger.Acceptance.{
  AcceptCommand, accepted, assigned_row, accept_conversation_turn,
}
use open_claw_bot_neo.Communication.Ledger.Acceptance.Order.{accept-accepted}
use open_claw_bot_neo.Communication.Ledger.Acceptance.Steps.{assigned}
use open_claw_bot_neo.Communication.Ledger.Concurrency.{load_turn-written}
use open_claw_bot_neo.Communication.Ledger.History.{run-Persists}
use open_claw_bot_neo.Communication.Ledger.Invariant.Sequence.{IsPlaced, IsNumbered}
use open_claw_bot_neo.Communication.Ledger.Runs.{
  Call, accepts, run, perform, Inv, run-Inv, perform-Inv,
}

perform-accepts :
    (cfg : QueueConfig) (env : Env) (cmd : AcceptCommand) (db : Ledger)
    → perform cfg env (accepts cmd) db ≡ (accept_conversation_turn cfg env cmd db).1
unfolding perform
perform-accepts cfg env cmd db = refl

module _ (cfg : QueueConfig) (env : Env) (cmd : AcceptCommand) (db : Ledger) (n k : ℕ) where
  accepted_IsNumbered :
      {r : TurnRow} {o c : String}
      → Inv cfg db
      → (accept_conversation_turn cfg env cmd db).0 ≡ ok (accepted n k)
      → load_turn cmd.turn_id db.turns ≡ some r
      → r.owner_id ≡ some o
      → r.conversation_id ≡ some c
      → (new : TurnRow) × (load_turn cmd.turn_id (accept_conversation_turn cfg env cmd db).1.turns
          ≡ some new)
        × IsNumbered new o c n
  accepted_IsNumbered {r} {o} {c} v h found p q =
      let (row, found', admitted) = accept-accepted cfg env cmd db n k h in
      let (owner, conversation, row_owner, row_conversation, same, admission) = admitted in
      let new = assigned_row cmd row (assigned owner conversation db) in
      let after = (accept_conversation_turn cfg env cmd db).1 in
      let w = write_turn-Rewrites env.now db.turns v.distinct cmd.turn_id row new found' refl in
      (
        set_columns new env.now row,
        subst (λ ts. load_turn cmd.turn_id ts ≡ some (set_columns new env.now row))
            (sym admission.turns)
            (load_turn-written cmd.turn_id refl w v.distinct
              (load_turn-id cmd.turn_id db.turns found')),
        (ap some (sym same), cc, cc),
      )

  -- The number is the next one of the conversation of the turn that is accepted.
  accepted_next :
      {r : TurnRow} {o c : String}
      → (accept_conversation_turn cfg env cmd db).0 ≡ ok (accepted n k)
      → load_turn cmd.turn_id db.turns ≡ some r
      → r.owner_id ≡ some o
      → r.conversation_id ≡ some c
      → n ≡ assigned o c db
  accepted_next {r} {o} {c} h found p q =
      let (row, found', admitted) = accept-accepted cfg env cmd db n k h in
      let (owner, conversation, row_owner, row_conversation, same, _) = admitted in
      let same_owner : owner ≡ o = cc in
      let same_conversation : conversation ≡ c = cc in
      subst (λ x. n ≡ assigned x c db) same_owner
        (subst (λ x. n ≡ assigned owner x db) same_conversation same)

-- From a ledger that satisfies the invariant, two turns of one owner and one conversation that are
-- accepted one after the other get increasing numbers, whatever calls and faults lie between.
pub accept_in_order :
    (cfg : QueueConfig) (env later : Env) (first second : AcceptCommand) (db : Ledger)
    (calls : List (Env × Call)) (n k m l : ℕ) (r s : TurnRow) (o c : String)
    → Inv cfg db
    → (accept_conversation_turn cfg env first db).0 ≡ ok (accepted n k)
    → load_turn first.turn_id db.turns ≡ some r
    → r.owner_id ≡ some o
    → r.conversation_id ≡ some c
    → load_turn second.turn_id (run cfg calls (accept_conversation_turn cfg env first db).1).turns
      ≡ some s
    → s.owner_id ≡ some o
    → s.conversation_id ≡ some c
    → (accept_conversation_turn cfg later second
        (run cfg calls (accept_conversation_turn cfg env first db).1)).0
      ≡ ok (accepted m l)
    → n < m
accept_in_order cfg env later first second db calls n k m l r s o c v h found p q found' p' q' h' =
    let after = (accept_conversation_turn cfg env first db).1 in
    let after-Inv : Inv cfg after =
      subst (Inv cfg) (perform-accepts cfg env first db)
        (perform-Inv cfg env (accepts first) db v) in
    let (new, loaded, numbered) = accepted_IsNumbered cfg env first db n k v h found p q in
    let (t, still, kept) = run-Persists cfg first.turn_id calls after new after-Inv loaded in
    let placed =
      All-load_turn (IsPlaced (run cfg calls after).counters) first.turn_id
        (run cfg calls after).turns still (run-Inv cfg calls after after-Inv).sequences.placed in
    let below = placed o c n (kept.keeps_number o c n numbered) in
    let same = accepted_next cfg later second (run cfg calls after) m l h' found' p' q' in
    subst (λ x. n < x) (sym same) below
