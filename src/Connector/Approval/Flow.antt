-- ===== src/Connector/Approval/Flow.antt =====
-- A request from its creation to its use.
use open_claw_bot_neo.Prelude.{
  ℕ, ◌<◌, ◌≡◌, refl, ◌∙◌, false, none, some, List, ◌∷◌, String, arith, ap,
}
use open_claw_bot_neo.Connector.Capabilities.{is_financial_action}
use open_claw_bot_neo.Connector.Approval.{
  pending, RequestBinding, StoredRecord, ok, Clock, get_record, put_record, generate_approval_id,
  max_id_collision_retries, new_record, store_request, create_request, consume_grant, grant_failure,
  granted_record, grant,
}
use open_claw_bot_neo.Connector.Approval.Grants.{expiry_failure-in_time}
use open_claw_bot_neo.Connector.Approval.Uses.{on_record-passes, consume_grant-ok_iff}

generate_approval_id-first :
    (candidates : List String) (id : String) (rs : List StoredRecord)
    → get_record id rs ≡ none
    → generate_approval_id max_id_collision_retries (id ∷ candidates) rs ≡ some id
unfolding generate_approval_id
generate_approval_id-first candidates id rs free = ground arith

create_request-made :
    (candidates : List String) (id nonce : String) (b : RequestBinding) (rs : List StoredRecord)
    → get_record id rs ≡ none
    → is_financial_action b.side_effect_class ≡ false
    → create_request (id ∷ candidates) nonce b b.requesting_actor_id rs ≡ (
      ok (record { approval_id = id; binding = (new_record id nonce b).binding; status = pending }),
      new_record id nonce b ∷ rs,
    )
unfolding create_request store_request
create_request-made candidates id nonce b rs free plain =
    ground (arith, generate_approval_id-first candidates id rs free)

get_record-first :
    (r : StoredRecord) (rs : List StoredRecord) → get_record r.approval_id (r ∷ rs) ≡ some r
unfolding get_record
get_record-first r rs = ground arith

put_record-first :
    (r r' : StoredRecord) (rs : List StoredRecord)
    → r'.approval_id ≡ r.approval_id
    → put_record r' (r ∷ rs) ≡ r' ∷ rs
unfolding put_record
put_record-first r r' rs e = ground arith

grant-made :
    (clock : Clock) (id nonce approver : String) (b : RequestBinding) (rs : List StoredRecord)
    (expires now : ℕ)
    → is_financial_action b.side_effect_class ≡ false
    → clock.parse b.expires_at ≡ some expires
    → clock.now_ms ≡ some now
    → now < expires
    → grant clock id approver (new_record id nonce b ∷ rs)
      ≡ (ok tt, granted_record approver (new_record id nonce b) ∷ rs)
unfolding grant grant_failure
grant-made clock id nonce approver b rs expires now plain p t l =
    let made = new_record id nonce b in
    let in_time =
      expiry_failure-in_time (clock.parse b.expires_at) clock.now_ms expires now p t l in
    on_record-passes (get_record id (made ∷ rs)) (grant_failure clock) (granted_record approver)
      (made ∷ rs) made (get_record-first made rs) (ground arith)
    ∙ ap (λ l. (ok tt, l)) (put_record-first made (granted_record approver made) rs refl)

module _ (candidates : List String) (id nonce : String) (b : RequestBinding)
    (rs : List StoredRecord) (first second : Clock) (approver : String) (expires n1 n2 : ℕ) where
  -- An approval reaches its use: from records without the identifier that is drawn first, for an
  -- action that is not financial and asked for by its own actor, whose expiry is a time after the
  -- times of the grant and of the use, creating the request answers a pending grant, granting it
  -- succeeds, whoever the approver is, the requesting actor included, and using it with the binding
  -- and nonce that were answered succeeds.
  pub approval_flow :
      get_record id rs ≡ none
      → is_financial_action b.side_effect_class ≡ false
      → first.parse b.expires_at ≡ some expires
      → second.parse b.expires_at ≡ some expires
      → first.now_ms ≡ some n1
      → second.now_ms ≡ some n2
      → n1 < expires
      → n2 < expires
      → let made = new_record id nonce b in
        let stored = (create_request (id ∷ candidates) nonce b b.requesting_actor_id rs).1 in
        let approved = grant first id approver stored in
        ((create_request (id ∷ candidates) nonce b b.requesting_actor_id rs).0
          ≡ ok (record { approval_id = id; binding = made.binding; status = pending }))
        × (approved.0 ≡ ok tt)
        × ((consume_grant second id nonce made.binding b.requesting_actor_id approved.1).0 ≡ ok tt)
  approval_flow free plain p1 p2 t1 t2 l1 l2 =
      let made = new_record id nonce b in
      let created = create_request-made candidates id nonce b rs free plain in
      let approved = grant-made first id nonce approver b rs expires n1 plain p1 t1 l1 in
      let stored = ap (λ p. p.1) created in
      let granted_now = ap (λ l. grant first id approver l) stored ∙ approved in
      (
        ap (λ p. p.0) created,
        ap (λ p. p.0) granted_now,
        ap (λ p. (consume_grant second id nonce made.binding b.requesting_actor_id p.1).0)
              granted_now
            ∙ (consume_grant-ok_iff second id nonce made.binding b.requesting_actor_id
                  (granted_record approver made ∷ rs)).1
                (
                  granted_record approver made,
                  get_record-first (granted_record approver made) rs,
                  record {
                    is_granted = refl;
                    is_unused = refl;
                    same_nonce = (refl, refl);
                    same_invocation = refl;
                    same_tool = refl;
                    same_connector = refl;
                    same_connection = refl;
                    same_input = refl;
                    same_side_effect = refl;
                    same_actor = (refl, refl);
                    is_approved = (approver, refl);
                    is_in_time = (expires, n2, p2, t2, l2);
                  },
                ),
      )
