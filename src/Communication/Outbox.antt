-- ===== src/Communication/Outbox.antt =====
-- src/host/storage/sqlite/communication/sqlite-communication-delivery-outbox-port.ts: texts on their
-- way out, what became of their delivery, and its reconciliation. The reasons of the outcomes
-- `unavailable` and `rejected` are left out.
pub mod Put
pub mod Outcomes
pub mod History
pub mod Finality
pub mod Retention
pub mod Rejections
mod Tests
use open_claw_bot_neo.Prelude.{
  ℕ, Bool, true, false, not, ◌&&◌, Option, none, some, List, [], ◌∷◌, map, String, String_eq, ◌==◌,
  if◌then◌else◌,
}
use open_claw_bot_neo.Communication.Transaction.{Fault, Tx, run_immediate}

pub record Entry : Type 0 where
  pub turn_id : String
  pub correlation_id : String
  pub output_digest : String
  pub expires_at : String
  pub sealed_binding_version : String
  pub plaintext_payload : Option String
  pub scrubbed : Bool
  pub created_at : String

-- The outcome is a text: 'delivered', 'known-failure' or 'outcome-unknown' where this port wrote it.
pub record OutcomeRow : Type 0 where
  pub turn_id : String
  pub correlation_id : String
  pub idempotency_key : String
  pub outcome : String
  pub recorded_at : String

pub record ReconcileRow : Type 0 where
  pub idempotency_key : String
  pub turn_id : String
  pub correlation_id : String
  pub created_at : String

pub record Tables : Type 0 where
  pub entries : List Entry
  pub outcomes : List OutcomeRow
  pub reconciles : List ReconcileRow

abbrev pub empty : Tables
empty = record { entries = []; outcomes = []; reconciles = [] }

-- What a call takes from outside: whether the port is open, what the database raises in the
-- statement that scrubs and in the rest, the clock as a text and in milliseconds, Date.parse (both
-- counted from one time before either), the order of texts in the database, and the length in UTF-8.
pub record Env : Type 0 where
  pub is_open : Bool
  pub scrub_fault : Option Fault
  pub fault : Option Fault
  pub now : String
  pub now_ms : ℕ
  pub parse : String → Option ℕ
  pub earlier : String → String → Bool
  pub byte_length : String → ℕ

-- `throws` is a promise that is rejected: the scrubbing stands outside the try of each method.
pub data Answer (A : Type 0) : Type 0 where
  ok : A → Answer A
  err : String → Answer A
  throws : Answer A

abbrev pub closed_code : String
closed_code = "OUTBOX_UNAVAILABLE"

unfoldable pub scrub_entry : (String → Bool) → Entry → Entry
scrub_entry has_expired e =
    if has_expired e.expires_at && not e.scrubbed
    then record e { plaintext_payload = none; scrubbed = true }
    else e

-- scrubBeforeMethod
unfoldable pub scrub : Env → Tables → Tables
scrub env t = record t { entries = map (scrub_entry (λ at. env.earlier at env.now)) t.entries }

module _ {A : Type 0} where
  abbrev answered : A × Tables → Answer A × Tables
  answered (a, t) = (ok a, t)

  abbrev scrubbed_first : Option Fault → Answer A × Tables → Tables → Answer A × Tables
  scrubbed_first none rest t = rest
  scrubbed_first (some f) rest t = (throws, t)

  -- A method that scrubs before it does anything else.
  abbrev pub scrubbing : Env → (Tables → Answer A × Tables) → Tables → Answer A × Tables
  scrubbing env rest t =
      if not env.is_open
      then (err closed_code, t)
      else scrubbed_first env.scrub_fault (rest (scrub env t)) t

  abbrev pub in_transaction :
      Env → (Fault → A) → (Tables → Tx A Tables) → Tables → Answer A × Tables
  in_transaction env caught body t = answered (run_immediate env.fault caught t (body t))
