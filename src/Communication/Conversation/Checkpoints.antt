-- ===== src/Communication/Conversation/Checkpoints.antt =====
-- What a stored checkpoint promises over any later calls.
use open_claw_bot_neo.Prelude.{
  ◌≡◌, inl, inr, sym, subst, true, none, some, List, ◌∷◌, String, arith, Option-cases,
  String-discrete,
}
use open_claw_bot_neo.Communication.Transaction.{Env, commit, ok}
use open_claw_bot_neo.Communication.Conversation.Json.{Json}
use open_claw_bot_neo.Communication.Conversation.Lookups.{select_op-first}
use open_claw_bot_neo.Communication.Conversation.Step.{checkpoint_body-stored}
use open_claw_bot_neo.Communication.Conversation.Serialization.{
  Parts, encode_snapshot_parts, texts_for_scan,
}
use open_claw_bot_neo.Communication.Conversation.Tables.{Tables, select_op}
use open_claw_bot_neo.Communication.Conversation.Checkpoint.{
  CheckpointCommand, stored, already_applied, checkpoint_op, checkpoint_body, checkpoint, Scan,
  scan_texts,
}
use open_claw_bot_neo.Communication.Conversation.History.{
  Call, checkpoints, run, IsRecorded, run-IsRecorded,
}

pub record Stores (env : Env) (j : Json) (scan : String → Scan) (cmd : CheckpointCommand)
    (t : Tables) : Type 0 where
  pub parts : Parts
  pub encoded : encode_snapshot_parts j cmd.next_snapshot ≡ some parts
  pub is_clean : scan_texts scan (texts_for_scan cmd.next_snapshot) ≡ none
  pub body : checkpoint_body env.now parts cmd t ≡ commit stored (checkpoint env j scan cmd t).1

pub checkpoint-Stores :
    (env : Env) (j : Json) (scan : String → Scan) (cmd : CheckpointCommand) (t : Tables)
    → (checkpoint env j scan cmd t).0 ≡ ok stored
    → Stores env j scan cmd t
unfolding checkpoint
checkpoint-Stores env j scan cmd t h =
    elim (Option-cases (encode_snapshot_parts j cmd.next_snapshot)) [
      | inl e ↦ absurd (ground arith)
      | inr (parts, e) ↦ record {
        parts = parts;
        encoded = e;
        is_clean = ground arith;
        body = ground arith;
      }
    ]

existing_applied :
    (now : String) (parts : Parts) (cmd : CheckpointCommand) (t : Tables) (first : String)
    → IsRecorded cmd.key cmd.idempotency_key (checkpoint_op first parts cmd) t
    → checkpoint_body now parts cmd t ≡ commit already_applied t
unfolding checkpoint_body String-discrete
existing_applied now parts cmd t first h = ground arith

checkpoint-applied :
    (later : Env) (j : Json) (scan : String → Scan) (cmd : CheckpointCommand) (t : Tables)
    (parts : Parts)
    → encode_snapshot_parts j cmd.next_snapshot ≡ some parts
    → scan_texts scan (texts_for_scan cmd.next_snapshot) ≡ none
    → checkpoint_body later.now parts cmd t ≡ commit already_applied t
    → later.is_open ≡ true
    → later.fault ≡ none
    → checkpoint later j scan cmd t ≡ (ok already_applied, t)
unfolding checkpoint
checkpoint-applied later j scan cmd t parts e s b is_open calm = ground arith

-- A checkpoint is applied once: after a command was stored, through any later calls of the port,
-- the same command again, with the port open, no database fault and the scanner's answers as they
-- were, answers already_applied and changes nothing.
pub checkpoint_once :
    (env later : Env) (j : Json) (scan : String → Scan) (cmd : CheckpointCommand) (t : Tables)
    (calls : List Call)
    → (checkpoint env j scan cmd t).0 ≡ ok stored
    → later.is_open ≡ true
    → later.fault ≡ none
    → checkpoint later j scan cmd (run j (checkpoints env scan cmd ∷ calls) t)
      ≡ (ok already_applied, run j (checkpoints env scan cmd ∷ calls) t)
unfolding run
checkpoint_once env later j scan cmd t calls h is_open calm =
    let v = checkpoint-Stores env j scan cmd t h in
    let first = (checkpoint env j scan cmd t).1 in
    let op = checkpoint_op env.now v.parts cmd in
    let (absent, _, _, ops) = checkpoint_body-stored env.now v.parts cmd t first v.body in
    let kept = run-IsRecorded j calls cmd.key cmd.idempotency_key op first (
      subst (λ l. select_op cmd.key cmd.idempotency_key l ≡ some op) (sym ops)
        (select_op-first op t.ops)) in
    let b = existing_applied later.now v.parts cmd (run j calls first) env.now kept in
    checkpoint-applied later j scan cmd (run j calls first) v.parts v.encoded v.is_clean b is_open
      calm
