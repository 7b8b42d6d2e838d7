-- ===== src/Communication/Ledger/Acceptance/Order.antt =====
-- Turns get their sequence numbers in the order in which they are accepted.
use open_claw_bot_neo.Prelude.{ℕ, ◌≡◌, inl, inr, refl, Option, some, String, arith, Option-cases}
use open_claw_bot_neo.Communication.Turn.{QueueConfig}
use open_claw_bot_neo.Communication.Transaction.{
  Fault, busy, broken, Env, ok, commit, port_method-ok,
}
use open_claw_bot_neo.Communication.Ledger.Rows.{TurnRow, Ledger, load_turn}
use open_claw_bot_neo.Communication.Ledger.Acceptance.{
  AcceptCommand, accepted, admit, admit_claimed, accept_fresh, accept_row, accept_body,
  accept_caught, accept_conversation_turn,
}
use open_claw_bot_neo.Communication.Ledger.Acceptance.Steps.{assigned, IsAdmission}

module _ (cfg : QueueConfig) (now : String) (cmd : AcceptCommand) (n k : ℕ) (db db' : Ledger) where
  admit-accepted :
      (row : TurnRow) (owner conversation : String)
      → admit cfg now cmd row owner conversation db ≡ commit (accepted n k) db'
      → (n ≡ assigned owner conversation db) × IsAdmission cfg now cmd row owner conversation db db'
  unfolding admit
  admit-accepted row owner conversation h = ground arith

  -- The claims under which the turn is admitted, and what its admission does.
  abbrev pub IsAccepted : TurnRow → Type 0
  IsAccepted row =
      (owner : String) × (conversation : String) × (row.owner_id ≡ some owner)
      × (row.conversation_id ≡ some conversation)
      × (n ≡ assigned owner conversation db)
      × IsAdmission cfg now cmd row owner conversation db db'

  admit_claimed-accepted :
      (row : TurnRow) (owner conversation : Option String)
      → row.owner_id ≡ owner
      → row.conversation_id ≡ conversation
      → admit_claimed cfg now cmd row owner conversation db ≡ commit (accepted n k) db'
      → IsAccepted row
  unfolding admit_claimed
  admit_claimed-accepted row (some owner) (some conversation) p q h =
      let (same, v) = admit-accepted row owner conversation h in
      (owner, conversation, p, q, same, v)
  admit_claimed-accepted row _ _ p q h = absurd (ground arith)

  accept_fresh-accepted :
      (row : TurnRow)
      → accept_fresh cfg now cmd row db ≡ commit (accepted n k) db'
      → admit_claimed cfg now cmd row row.owner_id row.conversation_id db
        ≡ commit (accepted n k) db'
  unfolding accept_fresh
  accept_fresh-accepted row h = ground arith

  accept_row-accepted :
      (row : TurnRow)
      → accept_row cfg now cmd row db ≡ commit (accepted n k) db'
      → accept_fresh cfg now cmd row db ≡ commit (accepted n k) db'
  unfolding accept_row
  accept_row-accepted row h = ground arith

  accept_body-accepted :
      accept_body cfg now cmd db ≡ commit (accepted n k) db'
      → (row : TurnRow) × (load_turn cmd.turn_id db.turns ≡ some row) × IsAccepted row
  unfolding accept_body
  accept_body-accepted h = elim (Option-cases (load_turn cmd.turn_id db.turns)) [
    | inl missing ↦ absurd (ground arith)
    | inr (row, found) ↦ (
      row,
      found,
      admit_claimed-accepted row row.owner_id row.conversation_id refl refl
          (accept_fresh-accepted row (accept_row-accepted row (rw (found, accept_body) at h))),
    )
  ]

accept_caught-ne : (f : Fault) (n k : ℕ) → accept_caught f ≡ accepted n k → ⊥
unfolding accept_caught
accept_caught-ne busy n k h = cc
accept_caught-ne broken n k h = cc

-- What a successful acceptance found and did.
pub accept-accepted :
    (cfg : QueueConfig) (env : Env) (cmd : AcceptCommand) (db : Ledger) (n k : ℕ)
    → (accept_conversation_turn cfg env cmd db).0 ≡ ok (accepted n k)
    → (row : TurnRow) × (load_turn cmd.turn_id db.turns ≡ some row)
      × IsAccepted cfg env.now cmd n k db (accept_conversation_turn cfg env cmd db).1 row
unfolding accept_conversation_turn
accept-accepted cfg env cmd db n k h =
    elim (port_method-ok env _ accept_caught db _ (accepted n k) h) [
      | inl committed ↦ accept_body-accepted cfg env.now cmd n k db _ committed
      | inr (f, e) ↦ absurd (accept_caught-ne f n k e)
    ]
