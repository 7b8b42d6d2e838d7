-- ===== src/Communication/Outbox/Tests.antt =====
-- The outbox at concrete calls.
use open_claw_bot_neo.Prelude.{
  ◌≡◌, ◌≢◌, refl, true, false, none, some, [], ◌∷◌, String, String-discrete,
}
use open_claw_bot_neo.Communication.Transaction.{busy}
use open_claw_bot_neo.Communication.Outbox.{Tables, empty, Env, ok, throws, scrub_entry, scrub}
use open_claw_bot_neo.Communication.Outbox.Put.{
  PutCommand, stored, select_entry, new_entry, put_checked, put_body, put, PendingQuery, found,
  is_pending, insert_ordered, pending_entries, take, load_pending_checked, load_pending,
}
use open_claw_bot_neo.Communication.Outbox.Outcomes.{
  outcome_unknown, delivered, RecordCommand, recorded, select_outcome, record_body,
  record_delivery_outcome, read, has_any_entry, read_delivery_outcome, get_reconciliation_candidate,
  ReconcileCommand, reconciled, already_reconciled, has_reconcile_key, has_reconcile_turn,
  reconcile_body, reconcile,
}
use open_claw_bot_neo.Communication.Outbox.History.{puts, records, reconciles, run}
use open_claw_bot_neo.Communication.Outbox.Finality.{record_delivery_outcome_final, reconcile_once}
use open_claw_bot_neo.Communication.Outbox.Rejections.{Rejects, scrub_fault-throws_iff}
use open_claw_bot_neo.Communication.Outbox.Retention.{
  Accepts, put-Accepts, Finds, load_pending-found,
}

-- Everything that a test computes with.
outbox : Unit {0}
unfolding scrub_entry scrub select_entry put_checked put_body put is_pending insert_ordered
    pending_entries take load_pending_checked load_pending select_outcome record_body
    record_delivery_outcome has_any_entry read_delivery_outcome get_reconciliation_candidate
    has_reconcile_key has_reconcile_turn reconcile_body reconcile run String-discrete
outbox = tt

abbrev calm : Env
calm = record {
  is_open = true;
  scrub_fault = none;
  fault = none;
  now = "2026-01-01T00:00:00.000Z";
  now_ms = 1000;
  parse = λ t. some 2000;
  earlier = λ a b. false;
  byte_length = λ t. 5;
}

abbrev locked : Env
locked = record calm { scrub_fault = some busy }

abbrev hello : PutCommand
hello = record {
  is_genuine_principal = true;
  is_genuine_output = true;
  binding_version = some "v1";
  plaintext = some "hello";
  turn_id = "t1";
  correlation_id = "c1";
  output_digest = "d1";
  expires_at = "2026-01-01T00:00:01.000Z";
}

abbrev pending : PendingQuery
pending = record { turn_id = "t1"; correlation_id = "c1"; limit = 10 }

abbrev unknown : RecordCommand
unknown = record {
  turn_id = "t1";
  correlation_id = "c1";
  idempotency_key = "k1";
  outcome = outcome_unknown;
}

abbrev arrived : RecordCommand
arrived = record unknown { idempotency_key = "k2"; outcome = delivered }

abbrev settled : String → ReconcileCommand
settled key = record { turn_id = "t1"; correlation_id = "c1"; idempotency_key = key }

put-hello : (put calm hello empty).0 ≡ ok stored
unfolding outbox
put-hello = refl

put-Accepts_example : Accepts calm hello empty (put calm hello empty).1
put-Accepts_example = put-Accepts calm hello empty put-hello

abbrev waiting : Tables
waiting = run (puts calm hello ∷ []) empty

hello-pending :
    (load_pending calm pending waiting).0
    ≡ ok (found (new_entry "2026-01-01T00:00:00.000Z" hello "v1" "hello" ∷ []))
unfolding outbox
hello-pending = refl

load_pending-found_example :
    Finds calm pending
      (scrub calm waiting).entries
      (new_entry "2026-01-01T00:00:00.000Z" hello "v1" "hello" ∷ [])
load_pending-found_example =
    load_pending-found calm pending waiting
      (new_entry "2026-01-01T00:00:00.000Z" hello "v1" "hello" ∷ []) hello-pending

unknown-recorded : (record_delivery_outcome calm unknown waiting).0 ≡ ok recorded
unfolding outbox
unknown-recorded = refl

record_delivery_outcome_final_example :
    read_delivery_outcome calm "t1" "c1"
      (run (records calm unknown ∷ records calm arrived ∷ []) waiting)
    ≡ ok (read outcome_unknown)
record_delivery_outcome_final_example =
    record_delivery_outcome_final calm calm unknown waiting (records calm arrived ∷ [])
      unknown-recorded refl refl

abbrev in_doubt : Tables
in_doubt = run (records calm unknown ∷ []) waiting

in_doubt-reconciled : (reconcile calm (settled "r1") in_doubt).0 ≡ ok reconciled
unfolding outbox
in_doubt-reconciled = refl

reconcile_once_example :
    (reconcile calm
      (settled "r2")
      (run (reconciles calm (settled "r1") ∷ records calm arrived ∷ []) in_doubt)).0
    ≡ ok already_reconciled
reconcile_once_example =
    reconcile_once calm calm (settled "r1") (settled "r2") in_doubt (records calm arrived ∷ [])
      in_doubt-reconciled refl refl refl refl refl

scrub_fault-throws_iff_example :
    Rejects locked waiting (put locked hello waiting)
    × Rejects locked waiting (load_pending locked pending waiting)
    × Rejects locked waiting (record_delivery_outcome locked unknown waiting)
    × Rejects locked waiting (get_reconciliation_candidate locked "t1" "c1" waiting)
    × Rejects locked waiting (reconcile locked (settled "r1") waiting)
    × (read_delivery_outcome locked "t1" "c1" waiting ≢ throws)
scrub_fault-throws_iff_example =
    scrub_fault-throws_iff locked waiting hello pending unknown "t1" "c1" (settled "r1")
