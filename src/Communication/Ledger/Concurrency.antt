-- ===== src/Communication/Ledger/Concurrency.antt =====
-- Optimistic concurrency: what a transition does when it succeeds, and that a revision is spent once.
use open_claw_bot_neo.Prelude.{
  ℕ, ◌+◌, ◌≡◌, ◌≢◌, ◌↔◌, inl, inr, refl, sym, subst, ap, true, none, some, List, String, arith,
  is_safe_integer, Option-cases,
}
use open_claw_bot_neo.Communication.Turn.{QueueConfig, TurnState, can_transition}
use open_claw_bot_neo.Communication.Turn.Progress.{can_transition-rank}
use open_claw_bot_neo.Communication.Transaction.{Env, ok}
use open_claw_bot_neo.Communication.Ledger.Rows.{
  TurnRow, Ledger, load_turn, write_turn, set_columns,
}
use open_claw_bot_neo.Communication.Ledger.Step.{
  IsDistinct, write_turn-written, write_turn-Rewrites, load_turn-id, Rewrites, here, there,
}
use open_claw_bot_neo.Communication.Ledger.Facts.{
  TransitionCommand, transitioned, transition, moved_row,
}
use open_claw_bot_neo.Communication.Ledger.Runs.{Call, run, perform, Inv, transitions, perform-Inv}
use open_claw_bot_neo.Communication.Ledger.History.{run-Persists}

can_transition_irrefl : (s : TurnState) → can_transition s s ≢ true
can_transition_irrefl s h = omega (arith, can_transition-rank s s h)

load_turn-Rewritten :
    {row new : TurnRow} {rs rs' : List TurnRow}
    → Rewrites row new rs rs'
    → load_turn row.turn_id rs ≢ none
unfolding load_turn
load_turn-Rewritten here h = ground arith
load_turn-Rewritten {row} (there {x} {rs} w) h = ground (arith, load_turn-Rewritten w)

-- What was written is what the next call loads.
pub load_turn-written :
    {row new : TurnRow} {rs rs' : List TurnRow} (id : String)
    → new.turn_id ≡ row.turn_id
    → Rewrites row new rs rs'
    → IsDistinct rs
    → row.turn_id ≡ id
    → load_turn id rs' ≡ some new
unfolding load_turn
load_turn-written id same (here {rs}) d e = ground arith
load_turn-written {row} id same (there {x} {rs} {rs'} w) (absent, _, d) e =
    ground (arith, load_turn-written id same w d, load_turn-Rewritten w)

-- The turn as the command expects it, and the move that it asks for is legal.
pub record IsExpected (cmd : TransitionCommand) (db : Ledger) (row : TurnRow) : Type 0 where
  pub found : load_turn cmd.turn_id db.turns ≡ some row
  pub revision : row.turn_revision ≡ cmd.expected_revision
  pub state : row.state ≡ cmd.expected_state
  pub legal : can_transition row.state cmd.target_state ≡ true
  pub safe : is_safe_integer (row.turn_revision + 1) ≡ true

module _ (env : Env) (cmd : TransitionCommand) (db : Ledger) where
  transition-IsExpected :
      (n : ℕ) (row : TurnRow)
      → load_turn cmd.turn_id db.turns ≡ some row
      → (transition env cmd db).0 ≡ ok (transitioned n)
      → IsExpected cmd db row
        × (n ≡ row.turn_revision + 1)
        × ((transition env cmd db).1 ≡ record db {
          turns = (write_turn (moved_row cmd row) row.turn_revision env.now db.turns).1;
        })
  unfolding transition
  transition-IsExpected n row found h = (
    record {
      found = found;
      revision = ground arith;
      state = ground arith;
      legal = ground arith;
      safe = ground arith;
    },
    ground arith,
    ground arith,
  )

  transition-missing :
      (n : ℕ)
      → load_turn cmd.turn_id db.turns ≡ none
      → (transition env cmd db).0 ≢ ok (transitioned n)
  unfolding transition
  transition-missing n missing h = ground arith

  expected-transition :
      (row : TurnRow)
      → IsExpected cmd db row
      → row.state ≢ cmd.target_state
      → (write_turn (moved_row cmd row) row.turn_revision env.now db.turns).0 ≡ true
      → env.is_open ≡ true
      → env.fault ≡ none
      → (transition env cmd db).0 ≡ ok (transitioned (row.turn_revision + 1))
  unfolding transition
  expected-transition row v moves written open_port no_fault =
      ground (arith, v.found, v.revision, v.state, v.legal, v.safe)

  -- On an open port and a database that answers, with unique turn identifiers and keys, a
  -- transition succeeds exactly when the turn is there with the expected revision and state, the
  -- move is legal and the next revision is a safe integer; its result is the revision plus one.
  pub transition-transitioned_iff :
      IsDistinct db.turns
      → env.is_open ≡ true
      → env.fault ≡ none
      → (n : ℕ)
      → ((transition env cmd db).0 ≡ ok (transitioned n))
        ↔ ((row : TurnRow) × IsExpected cmd db row × (n ≡ row.turn_revision + 1))
  transition-transitioned_iff d open_port no_fault n = (
    λ h. elim (Option-cases (load_turn cmd.turn_id db.turns)) [
      | inl missing ↦ absurd (transition-missing n missing h)
      | inr (row, found) ↦ let (v, same, _) = transition-IsExpected n row found h in (row, v, same)
    ],
    λ e.
        let (row, v, same) = e in
        let written =
          write_turn-written env.now db.turns d cmd.turn_id row (moved_row cmd row) v.found refl in
        let moves : row.state ≢ cmd.target_state = λ p.
          can_transition_irrefl row.state
            (subst (λ t. can_transition row.state t ≡ true) (sym p) v.legal) in
        rw same (expected-transition row v moves written open_port no_fault),
  )

module _ (cfg : QueueConfig) (env later : Env) (first second : TransitionCommand)
    (db : Ledger) where
  transition-revision :
      (n : ℕ)
      → IsDistinct db.turns
      → (transition env first db).0 ≡ ok (transitioned n)
      → (new : TurnRow) × (load_turn first.turn_id (transition env first db).1.turns ≡ some new)
        × (new.turn_revision ≡ first.expected_revision + 1)
  transition-revision n d h = elim (Option-cases (load_turn first.turn_id db.turns)) [
    | inl missing ↦ absurd (transition-missing env first db n missing h)
    | inr (row, found) ↦
        let (v, _, written) = transition-IsExpected env first db n row found h in
        let w =
          write_turn-Rewrites env.now db.turns d first.turn_id row (moved_row first row) found
            refl in
        (
          set_columns (moved_row first row) env.now row,
          subst
              (λ l.
                load_turn first.turn_id l.turns
                ≡ some (set_columns (moved_row first row) env.now row))
              (sym written)
              (load_turn-written first.turn_id refl w d
                (load_turn-id first.turn_id db.turns found)),
          ap (λ k. k + 1) v.revision,
        )
  ]

  perform-transitions : perform cfg env (transitions first) db ≡ (transition env first db).1
  unfolding perform
  perform-transitions = refl

  -- A revision is spent once: from a ledger that satisfies the invariant, after a transition has succeeded, and after any further history of
  -- calls and faults, no second transition of the turn with the same expected revision succeeds.
  pub transition_once :
      (calls : List (Env × Call)) (n m : ℕ)
      → Inv cfg db
      → (transition env first db).0 ≡ ok (transitioned n)
      → second.turn_id ≡ first.turn_id
      → second.expected_revision ≡ first.expected_revision
      → (transition later second (run cfg calls (transition env first db).1)).0
        ≢ ok (transitioned m)
  transition_once calls n m v succeeded same_turn same_revision again =
      let after = (transition env first db).1 in
      let (new, found, revision) = transition-revision n v.distinct succeeded in
      let after-Inv : Inv cfg after =
        subst (Inv cfg) perform-transitions (perform-Inv cfg env (transitions first) db v) in
      let (row, found', now) = run-Persists cfg first.turn_id calls after new after-Inv found in
      let found'' =
        subst (λ i. load_turn i (run cfg calls after).turns ≡ some row) (sym same_turn) found' in
      let (expected, _, _) =
        transition-IsExpected later second (run cfg calls after) m row found'' again in
      omega (arith, expected.revision, now.revision)
