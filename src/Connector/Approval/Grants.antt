-- ===== src/Connector/Approval/Grants.antt =====
-- What createRequest, grant and consumeGrant promise of a request, over any further calls.
use open_claw_bot_neo.Prelude.{
  ℕ, ◌<◌, ◌≡◌, inl, inr, refl, false, Option, none, some, String, arith, Option-cases,
}
use open_claw_bot_neo.Connector.Approval.{
  granted, ApprovalBinding, StoredRecord, Clock, consume_failure, bindings_match, expiry_failure,
}

-- What the stored record must say for a grant of it to be used at this time.
pub record IsConsumable (clock : Clock) (nonce : String) (b : ApprovalBinding) (actor : String)
    (r : StoredRecord) : Type 0 where
  pub is_granted : r.status ≡ granted
  pub is_unused : r.is_consumed ≡ false
  pub same_nonce : (r.binding.nonce ≡ nonce) × (b.nonce ≡ nonce)
  pub same_invocation : r.binding.invocation_id ≡ b.invocation_id
  pub same_tool : r.binding.tool_id ≡ b.tool_id
  pub same_connector : r.binding.connector_id ≡ b.connector_id
  pub same_connection : r.binding.connection_id ≡ b.connection_id
  pub same_input : r.binding.input_digest ≡ b.input_digest
  pub same_side_effect : r.binding.side_effect_class ≡ b.side_effect_class
  pub same_actor : (r.binding.requesting_actor_id ≡ actor) × (b.requesting_actor_id ≡ actor)
  pub is_approved : (a : String) × (r.binding.approving_actor_id ≡ some a)
  pub is_in_time :
      (expires : ℕ) × (now : ℕ) × (clock.parse r.binding.expires_at ≡ some expires)
      × (clock.now_ms ≡ some now)
      × (now < expires)

expiry_failure-none :
    (expires now : Option ℕ)
    → expiry_failure expires now ≡ none
    → (e : ℕ) × (n : ℕ) × (expires ≡ some e) × (now ≡ some n) × (n < e)
unfolding expiry_failure
expiry_failure-none none now h = absurd (cc)
expiry_failure-none (some e) none h = absurd (cc)
expiry_failure-none (some e) (some n) h = (e, n, refl, refl, ground arith)

pub expiry_failure-in_time :
    (expires now : Option ℕ) (e n : ℕ)
    → expires ≡ some e
    → now ≡ some n
    → n < e
    → expiry_failure expires now ≡ none
unfolding expiry_failure
expiry_failure-in_time expires now e n p q l = ground arith

pub consume_failure-IsConsumable :
    (clock : Clock) (nonce : String) (b : ApprovalBinding) (actor : String) (r : StoredRecord)
    → consume_failure clock nonce b actor r ≡ none
    → IsConsumable clock nonce b actor r
unfolding consume_failure bindings_match
consume_failure-IsConsumable clock nonce b actor r h = record {
  is_granted = ground arith;
  is_unused = ground arith;
  same_nonce = (ground arith, ground arith);
  same_invocation = ground arith;
  same_tool = ground arith;
  same_connector = ground arith;
  same_connection = ground arith;
  same_input = ground arith;
  same_side_effect = ground arith;
  same_actor = (ground arith, ground arith);
  is_approved = elim (Option-cases r.binding.approving_actor_id) [
    | inl e ↦ absurd (ground arith)
    | inr found ↦ found
  ];
  is_in_time = expiry_failure-none (clock.parse r.binding.expires_at) clock.now_ms (ground arith);
}

pub consume_failure-none :
    (clock : Clock) (nonce : String) (b : ApprovalBinding) (actor : String) (r : StoredRecord)
    → IsConsumable clock nonce b actor r
    → consume_failure clock nonce b actor r ≡ none
unfolding consume_failure bindings_match
consume_failure-none clock nonce b actor r v =
    let (e, n, p, q, l) = v.is_in_time in
    let in_time =
      expiry_failure-in_time (clock.parse r.binding.expires_at) clock.now_ms e n p q l in
    let (approver, approved) = v.is_approved in
    let granted_now = v.is_granted in
    let unused = v.is_unused in
    let (n1, n2) = v.same_nonce in
    let i = v.same_invocation in
    let t = v.same_tool in
    let c = v.same_connector in
    let cn = v.same_connection in
    let inp = v.same_input in
    let se = v.same_side_effect in let (a1, a2) = v.same_actor in ground arith
