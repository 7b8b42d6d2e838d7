-- ===== src/Communication/Conversation/Tests.antt =====
-- The conversation state port at concrete calls.
use open_claw_bot_neo.Prelude.{
  ℕ, ◌+◌, ◌≡◌, ◌≢◌, refl, subst, true, Option, none, some, [], ◌∷◌, String, String-discrete,
  ℕ_discrete, Option-discrete, ◌==◌, String_eq, if◌then◌else◌,
}
use open_claw_bot_neo.Communication.Transaction.{Env, ok}
use open_claw_bot_neo.Communication.Conversation.Snapshot.{
  owner, untrusted, Entry, active, succeeded, Key, same_key, Snapshot,
}
use open_claw_bot_neo.Communication.Conversation.Json.{Value, null, array, end, item, Json}
use open_claw_bot_neo.Communication.Conversation.Serialization.{
  serialize_json, fingerprint_snapshot, encode_snapshot_parts, parse_entry, parse_entries,
  parse_active_context, parse_summary, decode_snapshot, context_value,
}
use open_claw_bot_neo.Communication.Conversation.Json.{get}
use open_claw_bot_neo.Communication.Conversation.Tables.{
  Tables, empty, select_snapshot, upsert_snapshot, select_op, insert_op,
}
use open_claw_bot_neo.Communication.Conversation.Checkpoint.{
  found, load, Scan, scanned, scan_texts, CheckpointCommand, stored, already_applied,
  checkpoint_refusal, write_checkpoint, checkpoint_body, checkpoint,
}
use open_claw_bot_neo.Communication.Conversation.Barrier.{
  BarrierCommand, recorded, write_barrier, bar_row, barrier_body, record_checkpoint_barrier,
}
use open_claw_bot_neo.Communication.Conversation.Reconcile.{
  ReconcileCommand, reconciled, write_reconcile, reconcile_row, reconcile_body,
  reconcile_checkpoint,
}
use open_claw_bot_neo.Communication.Conversation.Step.{Bars, Reconciles}
use open_claw_bot_neo.Communication.Conversation.History.{checkpoints, bars, reconciles, run}
use open_claw_bot_neo.Communication.Conversation.Barriers.{barrier_holds}
use open_claw_bot_neo.Communication.Conversation.Checkpoints.{checkpoint_once}
use open_claw_bot_neo.Communication.Conversation.Replies.{
  record_checkpoint_barrier-recorded, reconcile_checkpoint-reconciled,
}
use open_claw_bot_neo.Communication.Conversation.RoundTrip.{load-checkpoint}

-- Everything that a test computes with.
port : Unit {0}
unfolding run same_key serialize_json fingerprint_snapshot encode_snapshot_parts parse_entry
    parse_entries parse_active_context parse_summary decode_snapshot get select_snapshot
    upsert_snapshot select_op insert_op load scan_texts checkpoint_refusal write_checkpoint
    checkpoint_body checkpoint write_barrier bar_row barrier_body record_checkpoint_barrier
    write_reconcile reconcile_row reconcile_body reconcile_checkpoint String-discrete ℕ_discrete
    Option-discrete
port = tt

abbrev greeting : Entry
greeting = record { role = owner; text = "hi"; trust = untrusted }

-- Enough of JSON for contexts that are empty or hold the greeting.
abbrev write : Value → String
write null = "null"
write (array end) = "[]"
write (array (item v rest)) = "[hi]"
write _ = "{}"

abbrev read : String → Option Value
read t =
    if t == "null"
    then some null
    else if t == "[]"
    then some (array end)
    else if t == "[hi]"
    then some (context_value (greeting ∷ []))
    else none

reads : (w t : String) (v : Value) → some w ≡ some t → read w ≡ some v → read t ≡ some v
reads w t v e h = let same : w ≡ t = cc in subst (λ x. read x ≡ some v) same h

abbrev json : Json
json = record {
  stringify = λ v. some (write v);
  parse = read;
  byte_length = λ t. 4;
  digest = λ t. t;
}

abbrev calm : Env
calm = record { is_open = true; fault = none; now = "2026-01-01T00:00:00.000Z" }

abbrev clean : String → Scan
clean t = scanned true 0

abbrev chat : Key
chat = record { owner_id = "owner"; conversation_id = "chat" }

abbrev snapshot : ℕ → Snapshot
snapshot revision = record {
  conversation_id = "chat";
  owner_id = "owner";
  revision = revision;
  active_context = greeting ∷ [];
  model_derived_summary = none;
  pause_state = active;
  checkpoint = record { status = succeeded; revision = revision };
}

abbrev save : String → ℕ → CheckpointCommand
save id revision = record {
  key = chat;
  expected_revision = revision;
  next_snapshot = snapshot (revision + 1);
  idempotency_key = id;
}

abbrev bar : String → ℕ → BarrierCommand
bar id revision = record { key = chat; expected_revision = revision; idempotency_key = id }

abbrev settle : String → ℕ → ReconcileCommand
settle id revision = record { key = chat; expected_revision = revision; idempotency_key = id }

saved : (checkpoint calm json clean (save "a" 0) empty).0 ≡ ok stored
unfolding port
saved = refl

load-checkpoint_example :
    load calm json chat (checkpoint calm json clean (save "a" 0) empty).1
    ≡ (ok (found (snapshot 1)), (checkpoint calm json clean (save "a" 0) empty).1)
unfolding port
load-checkpoint_example =
    load-checkpoint calm calm json clean (save "a" 0) empty
      (λ t e. reads "[hi]" t (context_value (greeting ∷ [])) e refl)
      (λ t e. reads "null" t null e refl) saved refl refl refl refl

checkpoint_once_example :
    checkpoint calm json clean
      (save "a" 0)
      (run json (checkpoints calm clean (save "a" 0) ∷ bars calm (bar "b" 1) ∷ []) empty)
    ≡ (
      ok already_applied,
      run json (checkpoints calm clean (save "a" 0) ∷ bars calm (bar "b" 1) ∷ []) empty,
    )
checkpoint_once_example =
    checkpoint_once calm calm json clean (save "a" 0) empty (bars calm (bar "b" 1) ∷ []) saved refl
      refl

barred : (record_checkpoint_barrier calm json (bar "b" 0) empty).0 ≡ ok (recorded 1)
unfolding port
barred = refl

barrier_holds_example :
    (checkpoint calm json clean
      (save "d" 1)
      (run json (bars calm (bar "b" 0) ∷ checkpoints calm clean (save "c" 1) ∷ []) empty)).0
    ≢ ok stored
barrier_holds_example =
    barrier_holds calm calm json (bar "b" 0) 1 empty (checkpoints calm clean (save "c" 1) ∷ [])
      clean (save "d" 1) barred (tt, tt) refl

record_checkpoint_barrier-recorded_example :
    Bars calm.now
      (bar "b" 0)
      (select_snapshot chat empty.snapshots)
      1
      empty
      (record_checkpoint_barrier calm json (bar "b" 0) empty).1
record_checkpoint_barrier-recorded_example =
    record_checkpoint_barrier-recorded calm json (bar "b" 0) empty 1 barred

abbrev held : Tables
held = run json (bars calm (bar "b" 0) ∷ []) empty

settled : (reconcile_checkpoint calm json (settle "r" 1) held).0 ≡ ok (reconciled 2)
unfolding port
settled = refl

reconcile_checkpoint-reconciled_example :
    Reconciles calm.now (settle "r" 1) 2 held (reconcile_checkpoint calm json (settle "r" 1) held).1
reconcile_checkpoint-reconciled_example =
    reconcile_checkpoint-reconciled calm json (settle "r" 1) held 2 settled

-- A reconciliation lifts the barrier.
saved_again :
    (checkpoint calm json clean
      (save "d" 2)
      (run json (bars calm (bar "b" 0) ∷ reconciles calm (settle "r" 1) ∷ []) empty)).0
    ≡ ok stored
unfolding port
saved_again = refl
