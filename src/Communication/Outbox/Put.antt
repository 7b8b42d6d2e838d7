-- ===== src/Communication/Outbox/Put.antt =====
-- put and loadPending of sqlite-communication-delivery-outbox-port.ts.
use open_claw_bot_neo.Prelude.{
  ℕ, ◌-◌, Bool, true, false, not, ◌&&◌, ◌||◌, Option, none, some, List, [], ◌∷◌, String, String_eq,
  ◌==◌, leb, ltb, if◌then◌else◌, zero, suc, is_safe_integer,
}
use open_claw_bot_neo.Communication.Transaction.{Fault, Tx, commit}
use open_claw_bot_neo.Communication.Outbox.{
  Entry, Tables, Env, Answer, ok, err, scrubbing, in_transaction,
}

-- SQLITE_COMMUNICATION_MAX_OUTBOX_PLAINTEXT_BYTES and OFFLINE_OUTBOX_MAX_TTL_MS
abbrev pub max_plaintext_bytes : ℕ
max_plaintext_bytes = 65536

abbrev pub max_ttl_ms : ℕ
max_ttl_ms = 86400000

-- What the facades make of the principal and of the output stands in the place of the two.
pub record PutCommand : Type 0 where
  pub is_genuine_principal : Bool
  pub is_genuine_output : Bool
  pub binding_version : Option String
  pub plaintext : Option String
  pub turn_id : String
  pub correlation_id : String
  pub output_digest : String
  pub expires_at : String

pub data PutOutcome : Type 0 where
  stored already_stored unavailable rejected : PutOutcome

unfoldable pub select_entry : String → String → String → List Entry → Option Entry
select_entry turn correlation digest [] = none
select_entry turn correlation digest (e ∷ es) =
    if e.turn_id == turn && e.correlation_id == correlation && e.output_digest == digest
    then some e
    else select_entry turn correlation digest es

abbrev pub new_entry : String → PutCommand → (binding plaintext : String) → Entry
new_entry now cmd binding plaintext = record {
  turn_id = cmd.turn_id;
  correlation_id = cmd.correlation_id;
  output_digest = cmd.output_digest;
  expires_at = cmd.expires_at;
  sealed_binding_version = binding;
  plaintext_payload = some plaintext;
  scrubbed = false;
  created_at = now;
}

-- The insertion violates the key only where the selection would have found the row.
abbrev insert_entry : Option Entry → Entry → Tables → Tx PutOutcome Tables
insert_entry (some existing) new t = commit already_stored t
insert_entry none new t = commit stored (record t { entries = new ∷ t.entries })

unfoldable pub put_body :
    String → PutCommand → (binding plaintext : String) → Tables → Tx PutOutcome Tables
put_body now cmd binding plaintext t =
    insert_entry (select_entry cmd.turn_id cmd.correlation_id cmd.output_digest t.entries)
      (new_entry now cmd binding plaintext) t

abbrev put_caught : Fault → PutOutcome
put_caught f = unavailable

-- The tests on the time until the text expires.
abbrev is_expiry_refused : Option ℕ → ℕ → Bool
is_expiry_refused none now = true
is_expiry_refused (some expires) now = leb expires now || ltb max_ttl_ms (expires - now)

abbrev put_encoded :
    Env → PutCommand → (binding plaintext : String) → Tables → Answer PutOutcome × Tables
put_encoded env cmd binding plaintext t =
    if ltb max_plaintext_bytes (env.byte_length plaintext)
    then (ok rejected, t)
    else if is_expiry_refused (env.parse cmd.expires_at) env.now_ms
    then (ok rejected, t)
    else in_transaction env put_caught (put_body env.now cmd binding plaintext) t

abbrev put_read :
    Env → PutCommand → (binding plaintext : Option String) → Tables → Answer PutOutcome × Tables
put_read env cmd (some binding) (some plaintext) t = put_encoded env cmd binding plaintext t
put_read env cmd _ _ t = (ok rejected, t)

unfoldable pub put_checked : Env → PutCommand → Tables → Answer PutOutcome × Tables
put_checked env cmd t =
    if not cmd.is_genuine_principal
    then (ok rejected, t)
    else if not cmd.is_genuine_output
    then (ok rejected, t)
    else put_read env cmd cmd.binding_version cmd.plaintext t

-- put
unfoldable pub put : Env → PutCommand → Tables → Answer PutOutcome × Tables
put env cmd t = scrubbing env (put_checked env cmd) t

pub record PendingQuery : Type 0 where
  pub turn_id : String
  pub correlation_id : String
  pub limit : ℕ

pub data PendingOutcome : Type 0 where
  found : List Entry → PendingOutcome
  not_found unavailable : PendingOutcome

unfoldable pub is_pending : Env → PendingQuery → Entry → Bool
is_pending env q e =
    e.turn_id == q.turn_id
    && e.correlation_id == q.correlation_id
    && not e.scrubbed
    && not (env.earlier e.expires_at env.now)

-- ORDER BY created_at ASC, output_digest ASC
abbrev pub comes_before : Env → Entry → Entry → Bool
comes_before env a b =
    env.earlier a.created_at b.created_at
    || (a.created_at == b.created_at && env.earlier a.output_digest b.output_digest)

unfoldable pub insert_ordered : Env → Entry → List Entry → List Entry
insert_ordered env e [] = e ∷ []
insert_ordered env e (x ∷ xs) =
    if comes_before env e x then e ∷ x ∷ xs else x ∷ insert_ordered env e xs

unfoldable pub pending_entries : Env → PendingQuery → List Entry → List Entry
pending_entries env q [] = []
pending_entries env q (e ∷ es) =
    let rest = pending_entries env q es in
    if is_pending env q e then insert_ordered env e rest else rest

unfoldable pub take : ℕ → List Entry → List Entry
take zero es = []
take (suc n) [] = []
take (suc n) (e ∷ es) = e ∷ take n es

abbrev pending_outcome : List Entry → PendingOutcome
pending_outcome [] = not_found
pending_outcome es = found es

abbrev pending_faulty : Option Fault → PendingOutcome → PendingOutcome
pending_faulty none read = read
pending_faulty (some f) read = PendingOutcome.unavailable

-- loadPending; the entries that it returns leave out the payload, which the columns selected lack.
unfoldable pub load_pending_checked : Env → PendingQuery → Tables → Answer PendingOutcome × Tables
load_pending_checked env q t =
    if not (is_safe_integer q.limit) || ltb q.limit 1 || ltb 100 q.limit
    then (err "CONFIG_INVALID", t)
    else (
      ok (
          pending_faulty env.fault
            (pending_outcome (take q.limit (pending_entries env q t.entries)))),
      t,
    )

unfoldable pub load_pending : Env → PendingQuery → Tables → Answer PendingOutcome × Tables
load_pending env q t = scrubbing env (load_pending_checked env q) t
