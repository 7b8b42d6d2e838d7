-- ===== src/Connector/Approval/Calls.antt =====
-- What createRequest and the changes of a stored record do to the records.
use open_claw_bot_neo.Prelude.{
  ℕ, ◌≡◌, ◌⊎◌, inl, inr, refl, sym, subst, Option, none, some, List, [], ◌∷◌, String, zero, suc,
  arith,
}
use open_claw_bot_neo.Connector.Approval.{
  ApprovalStatus, revoked, denied, RequestBinding, ApprovalBinding, StoredRecord, ApprovalFailure,
  Clock, get_record, generate_approval_id, new_record, store_request, create_request,
  consume_failure, settle, consumed_record, grant_failure, granted_record, consumed_failure,
  max_id_collision_retries,
}
use open_claw_bot_neo.Connector.Approval.Lifecycle.{IsSound, IsLater, Step, stay, insert, change}

generate_approval_id-free :
    (attempts : ℕ) (candidates : List String) (rs : List StoredRecord) (id : String)
    → generate_approval_id attempts candidates rs ≡ some id
    → get_record id rs ≡ none
unfolding generate_approval_id
generate_approval_id-free zero candidates rs id h = absurd (cc)
generate_approval_id-free (suc n) [] rs id h = absurd (cc)
generate_approval_id-free (suc n) (c ∷ cs) rs id h =
    ground (arith, generate_approval_id-free n cs rs id)

store_request-Step :
    (id : Option String) (nonce : String) (b : RequestBinding) (rs : List StoredRecord)
    → ((i : String) → id ≡ some i → get_record i rs ≡ none)
    → Step rs (store_request id nonce b rs).1
unfolding store_request
store_request-Step none nonce b rs free = stay refl
store_request-Step (some id) nonce b rs free =
    insert (new_record id nonce b) (free id refl) refl refl

create_request_cases :
    (candidates : List String) (nonce : String) (b : RequestBinding) (actor : String)
    (rs : List StoredRecord)
    → ((create_request candidates nonce b actor rs).1 ≡ rs)
      ⊎ ((create_request candidates nonce b actor rs).1
          ≡ (store_request
              (generate_approval_id max_id_collision_retries candidates rs)
              nonce
              b
              rs).1)
unfolding create_request
create_request_cases candidates nonce b actor rs = ground arith

pub create_request-Step :
    (candidates : List String) (nonce : String) (b : RequestBinding) (actor : String)
    (rs : List StoredRecord)
    → Step rs (create_request candidates nonce b actor rs).1
create_request-Step candidates nonce b actor rs =
    elim (create_request_cases candidates nonce b actor rs) [
      | inl same ↦ stay same
      | inr stored ↦ subst (Step rs) (sym stored) (
          store_request-Step _ nonce b rs
            (λ i e. generate_approval_id-free max_id_collision_retries candidates rs i e))
    ]

pub settle-Step :
    (id : String) (rs : List StoredRecord) (failure : Option ApprovalFailure) (r r' : StoredRecord)
    → get_record id rs ≡ some r
    → (failure ≡ none → IsLater r r')
    → Step rs (settle failure r' rs).1
settle-Step id rs none r r' found v = change id r r' found (v refl) refl
settle-Step id rs (some f) r r' found v = stay refl

pub consume-IsLater :
    (clock : Clock) (nonce : String) (b : ApprovalBinding) (actor : String) (r : StoredRecord)
    → IsSound r
    → consume_failure clock nonce b actor r ≡ none
    → IsLater r (consumed_record r)
unfolding consume_failure
consume-IsLater clock nonce b actor r s h = record {
  same_id = refl;
  same_request = refl;
  same_nonce = refl;
  stays_spent = λ p. (refl, refl);
  stays_refused = λ p. absurd (ground arith);
  stays_sound = λ p f. absurd (ground (arith, s f));
}

pub grant-IsLater :
    (clock : Clock) (actor : String) (r : StoredRecord)
    → grant_failure clock r ≡ none
    → IsLater r (granted_record actor r)
unfolding grant_failure
grant-IsLater clock actor r h = record {
  same_id = refl;
  same_request = refl;
  same_nonce = refl;
  stays_spent = λ p. absurd (ground arith);
  stays_refused = λ p. absurd (ground arith);
  stays_sound = λ p f. absurd (ground arith);
}

pub refuse-IsLater :
    (status : ApprovalStatus) (r : StoredRecord)
    → (status ≡ denied) ⊎ (status ≡ revoked)
    → consumed_failure r ≡ none
    → IsLater r (record r { status = status })
refuse-IsLater status r s h = record {
  same_id = refl;
  same_request = refl;
  same_nonce = refl;
  stays_spent = λ p. absurd (ground arith);
  stays_refused = λ p. s;
  stays_sound = λ p f. (λ e. ground arith, λ e. ground arith);
}
