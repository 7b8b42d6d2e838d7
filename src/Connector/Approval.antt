-- ===== src/Connector/Approval.antt =====
-- src/core/application/connector/in-memory-tool-approval-port.ts: approval requests of tool calls,
-- the owner's decisions on them, and their single use. `records` is a list that the identifiers
-- search; random identifiers and nonces, the clock and `Date.parse` are arguments.
pub mod Lifecycle
pub mod Calls
pub mod Runs
pub mod Grants
pub mod Uses
pub mod Flow
mod Tests
use open_claw_bot_neo.Prelude.{
  ℕ, Bool, true, false, not, ◌&&◌, ◌||◌, Option, none, some, List, [], ◌∷◌, String, String_eq,
  Option_eq, ◌==◌, Eq, if◌then◌else◌, is_none, leb, zero, suc,
}
use open_claw_bot_neo.Connector.Capabilities.{
  ToolSideEffectClass, ToolSideEffectClass_eq, is_financial_action,
}

pub data ApprovalStatus : Type 0 where
  pending granted consumed expired revoked denied : ApprovalStatus

unfoldable pub ApprovalStatus-discrete : Discrete ApprovalStatus
ApprovalStatus-discrete = hlevel

instance abbrev pub ApprovalStatus_eq : Eq ApprovalStatus
ApprovalStatus_eq = record { decides = ApprovalStatus-discrete }

-- ToolApprovalRequestBinding
pub record RequestBinding : Type 0 where
  pub invocation_id : String
  pub tool_id : String
  pub connector_id : String
  pub connection_id : Option String
  pub input_digest : String
  pub side_effect_class : ToolSideEffectClass
  pub expires_at : String
  pub requesting_actor_id : String

-- ToolApprovalBinding
pub record ApprovalBinding : Type 0 where
  pub request : RequestBinding
  pub open request use *
  pub approving_actor_id : Option String
  pub nonce : String

pub record StoredRecord : Type 0 where
  pub approval_id : String
  pub binding : ApprovalBinding
  pub status : ApprovalStatus
  pub is_consumed : Bool

pub data ApprovalFailure : Type 0 where
  not_found has_expired already_consumed was_revoked was_denied not_granted mismatch malformed
        financial_denied :
      ApprovalFailure

pub data Answer (A : Type 0) : Type 0 where
  ok : A → Answer A
  err : ApprovalFailure → Answer A

-- What a call takes from outside: the clock's milliseconds, if finite, and `Date.parse`. Both are
-- counted from one time before either, which changes no comparison.
pub record Clock : Type 0 where
  pub now_ms : Option ℕ
  pub parse : String → Option ℕ

-- bindingsMatch
bindings_match : ApprovalBinding → ApprovalBinding → Bool
bindings_match l r =
    l.invocation_id == r.invocation_id
    && l.tool_id == r.tool_id
    && l.connector_id == r.connector_id
    && l.connection_id == r.connection_id
    && l.input_digest == r.input_digest
    && l.side_effect_class == r.side_effect_class
    && l.requesting_actor_id == r.requesting_actor_id
    && l.nonce == r.nonce

-- evaluateApprovalExpiry and expiryFailure: `none` is a valid grant.
pub expiry_failure : Option ℕ → Option ℕ → Option ApprovalFailure
expiry_failure none now = some has_expired
expiry_failure (some expires) none = some malformed
expiry_failure (some expires) (some now) = if leb expires now then some has_expired else none

-- `records.get` and `records.has`
unfoldable pub get_record : String → List StoredRecord → Option StoredRecord
get_record id [] = none
get_record id (r ∷ rs) = if r.approval_id == id then some r else get_record id rs

-- A change of the stored object in place.
unfoldable pub put_record : StoredRecord → List StoredRecord → List StoredRecord
put_record new [] = []
put_record new (r ∷ rs) =
    if r.approval_id == new.approval_id then new ∷ rs else r ∷ put_record new rs

-- generateApprovalId: the first candidate that is free, among as many as attempts are left.
generate_approval_id : ℕ → List String → List StoredRecord → Option String
generate_approval_id zero candidates records = none
generate_approval_id (suc attempts) [] records = none
generate_approval_id (suc attempts) (c ∷ cs) records =
    if is_none (get_record c records) then some c else generate_approval_id attempts cs records

abbrev max_id_collision_retries : ℕ
max_id_collision_retries = 8

pub record Grant : Type 0 where
  pub approval_id : String
  pub binding : ApprovalBinding
  pub status : ApprovalStatus

abbrev pub new_record : String → String → RequestBinding → StoredRecord
new_record id nonce binding = record {
  approval_id = id;
  binding = record { request = binding; approving_actor_id = none; nonce = nonce };
  status = pending;
  is_consumed = false;
}

store_request :
    Option String → String → RequestBinding → List StoredRecord → Answer Grant × List StoredRecord
store_request none nonce binding records = (err malformed, records)
store_request (some id) nonce binding records = (
  ok (record {
    approval_id = id;
    binding = record { request = binding; approving_actor_id = none; nonce = nonce };
    status = pending;
  }),
  new_record id nonce binding ∷ records,
)

-- createRequest; `candidates` and `nonce` are what randomUUID returns.
unfoldable pub create_request :
    (candidates : List String) (nonce : String)
    → RequestBinding
    → (actor_id : String) → List StoredRecord
    → Answer Grant × List StoredRecord
unfolding is_financial_action store_request generate_approval_id get_record
create_request candidates nonce binding actor_id records =
    if is_financial_action binding.side_effect_class
    then (err financial_denied, records)
    else if not (binding.requesting_actor_id == actor_id)
    then (err mismatch, records)
    else store_request (generate_approval_id max_id_collision_retries candidates records) nonce
        binding records

-- The tests of consumeGrant on the stored record, in order; `none` lets the grant be consumed.
pub consume_failure :
    Clock
    → (nonce : String) → ApprovalBinding
    → (actor_id : String) → StoredRecord
    → Option ApprovalFailure
unfolding bindings_match expiry_failure
consume_failure clock nonce binding actor_id stored =
    if stored.status == denied
    then some was_denied
    else if stored.status == revoked
    then some was_revoked
    else if stored.is_consumed || stored.status == consumed
    then some already_consumed
    else if not (stored.status == granted)
    then some not_granted
    else if not (stored.binding.nonce == nonce)
    then some mismatch
    else if not (bindings_match stored.binding binding)
    then some mismatch
    else if not (binding.requesting_actor_id == actor_id)
    then some mismatch
    else if is_none stored.binding.approving_actor_id
    then some not_granted
    else expiry_failure (clock.parse stored.binding.expires_at) clock.now_ms

-- Carries out a change of the stored record unless the tests name a failure.
abbrev settle :
    Option ApprovalFailure
    → StoredRecord
    → List StoredRecord
    → Answer (Unit {0}) × List StoredRecord
settle none changed records = (ok tt, put_record changed records)
settle (some failure) changed records = (err failure, records)

-- The stored record, looked up, is tested and then changed.
abbrev pub on_record :
    Option StoredRecord
    → (StoredRecord → Option ApprovalFailure)
    → (StoredRecord → StoredRecord)
    → List StoredRecord
    → Answer (Unit {0}) × List StoredRecord
on_record none failure changed records = (err not_found, records)
on_record (some stored) failure changed records = settle (failure stored) (changed stored) records

abbrev consumed_record : StoredRecord → StoredRecord
consumed_record stored = record stored { is_consumed = true; status = consumed }

-- consumeGrant
unfoldable pub consume_grant :
    Clock
    → (approval_id nonce : String) → ApprovalBinding
    → (actor_id : String) → List StoredRecord
    → Answer (Unit {0}) × List StoredRecord
unfolding consume_failure
consume_grant clock approval_id nonce binding actor_id records =
    on_record (get_record approval_id records) (consume_failure clock nonce binding actor_id)
      consumed_record records

pub grant_failure : Clock → StoredRecord → Option ApprovalFailure
unfolding expiry_failure is_financial_action
grant_failure clock stored =
    if stored.status == denied
    then some was_denied
    else if stored.status == revoked
    then some was_revoked
    else if stored.is_consumed || stored.status == consumed
    then some already_consumed
    else if is_financial_action stored.binding.side_effect_class
    then some financial_denied
    else elim (expiry_failure (clock.parse stored.binding.expires_at) clock.now_ms) [
      | some failure ↦ some failure
      | none ↦
          if not (stored.status == pending) && not (stored.status == granted)
          then some malformed
          else none
    ]

abbrev granted_record : String → StoredRecord → StoredRecord
granted_record actor stored = record stored {
  binding = record (stored.binding) { approving_actor_id = some actor };
  status = granted;
}

-- grant
unfoldable pub grant :
    Clock
    → (approval_id approving_actor_id : String) → List StoredRecord
    → Answer (Unit {0}) × List StoredRecord
unfolding grant_failure
grant clock approval_id approving_actor_id records =
    on_record (get_record approval_id records) (grant_failure clock)
      (granted_record approving_actor_id) records

abbrev consumed_failure : StoredRecord → Option ApprovalFailure
consumed_failure stored =
    if stored.is_consumed || stored.status == consumed then some already_consumed else none

abbrev refused_record : ApprovalStatus → StoredRecord → StoredRecord
refused_record status stored = record stored { status = status }

-- deny
unfoldable pub deny :
    (approval_id : String) → List StoredRecord → Answer (Unit {0}) × List StoredRecord
deny approval_id records =
    on_record (get_record approval_id records) consumed_failure (refused_record denied) records

-- revoke
unfoldable pub revoke :
    (approval_id : String) → List StoredRecord → Answer (Unit {0}) × List StoredRecord
revoke approval_id records =
    on_record (get_record approval_id records) consumed_failure (refused_record revoked) records
