-- ===== src/Connector/Approval/Runs.antt =====
-- Histories of calls of the two approval ports of in-memory-tool-approval-port.ts.
use open_claw_bot_neo.Prelude.{
  ◌≡◌, inl, inr, refl, sym, subst, ◌∙◌, Option, none, some, List, [], ◌∷◌, String, arith,
  Option-cases, String-discrete,
}
use open_claw_bot_neo.Connector.Approval.{
  revoked, denied, RequestBinding, ApprovalBinding, StoredRecord, ApprovalFailure, Clock,
  get_record, put_record, create_request, consume_failure, consumed_record, consume_grant,
  grant_failure, granted_record, grant, consumed_failure, deny, revoke, on_record, refused_record,
}
use open_claw_bot_neo.Connector.Approval.Lifecycle.{
  IsSound, IsLater, IsLater-refl, IsLater-trans, Step, stay, insert, change, Persists,
  Step-Persists, get_record-put_record, get_record-put_record_ne, get_record-id,
}
use open_claw_bot_neo.Connector.Approval.Calls.{
  create_request-Step, settle-Step, consume-IsLater, grant-IsLater, refuse-IsLater,
}

-- Every record that can be looked up is sound.
abbrev pub AllSound : List StoredRecord → Type 0
AllSound rs = (id : String) (r : StoredRecord) → get_record id rs ≡ some r → IsSound r

pub empty-AllSound : AllSound []
unfolding get_record
empty-AllSound id r h = absurd (cc)

on_record-Step :
    (id : String) (rs : List StoredRecord) (failure : StoredRecord → Option ApprovalFailure)
    (changed : StoredRecord → StoredRecord)
    → ((r : StoredRecord) → get_record id rs ≡ some r → failure r ≡ none → IsLater r (changed r))
    → Step rs (on_record (get_record id rs) failure changed rs).1
on_record-Step id rs failure changed v = elim (Option-cases (get_record id rs)) [
  | inl e ↦ subst (λ o. Step rs (on_record o failure changed rs).1) (sym e) (stay refl)
  | inr (r, e) ↦
      subst (λ o. Step rs (on_record o failure changed rs).1) (sym e)
        (settle-Step id rs (failure r) r (changed r) e (v r e))
]

-- A call of either port, with what it takes from outside.
pub data Call : Type 0 where
  requests : (candidates : List String) (nonce : String) → RequestBinding → (actor : String) → Call
  consumes : Clock → (id nonce : String) → ApprovalBinding → (actor : String) → Call
  grants : Clock → (id actor : String) → Call
  denies revokes : String → Call

abbrev pub perform : Call → List StoredRecord → List StoredRecord
perform (requests candidates nonce b actor) rs = (create_request candidates nonce b actor rs).1
perform (consumes clock id nonce b actor) rs = (consume_grant clock id nonce b actor rs).1
perform (grants clock id actor) rs = (grant clock id actor rs).1
perform (denies id) rs = (deny id rs).1
perform (revokes id) rs = (revoke id rs).1

unfoldable pub run : List Call → List StoredRecord → List StoredRecord
run [] rs = rs
run (c ∷ cs) rs = run cs (perform c rs)

perform-Step : (c : Call) (rs : List StoredRecord) → AllSound rs → Step rs (perform c rs)
unfolding consume_grant grant deny revoke
perform-Step (requests candidates nonce b actor) rs s =
    create_request-Step candidates nonce b actor rs
perform-Step (consumes clock id nonce b actor) rs s =
    on_record-Step id rs (consume_failure clock nonce b actor) consumed_record
      (λ r e. consume-IsLater clock nonce b actor r (s id r e))
perform-Step (grants clock id actor) rs s =
    on_record-Step id rs (grant_failure clock) (granted_record actor)
      (λ r e. grant-IsLater clock actor r)
perform-Step (denies id) rs s =
    on_record-Step id rs consumed_failure (refused_record denied)
      (λ r e. refuse-IsLater denied r (inl refl))
perform-Step (revokes id) rs s =
    on_record-Step id rs consumed_failure (refused_record revoked)
      (λ r e. refuse-IsLater revoked r (inr refl))

change-AllSound :
    (other : String) (t t' : StoredRecord) (rs : List StoredRecord)
    → get_record other rs ≡ some t
    → IsLater t t'
    → AllSound rs
    → AllSound (put_record t' rs)
change-AllSound other t t' rs found v sound id r h =
    let named : t'.approval_id ≡ other = v.same_id ∙ get_record-id other rs found in
    elim (String-discrete other id) [
      | yes e ↦
          let same : t' ≡ r = ground (arith, get_record-put_record other t' rs found named) in
          subst IsSound same (v.stays_sound (sound other t found))
      | no n ↦ sound id r (sym (get_record-put_record_ne id t' rs (λ p. n (sym named ∙ p))) ∙ h)
    ]

Step-AllSound : {rs rs' : List StoredRecord} → Step rs rs' → AllSound rs → AllSound rs'
unfolding get_record
Step-AllSound (stay same) sound = subst AllSound (sym same) sound
Step-AllSound {rs} (insert new absent fresh same) sound = subst AllSound (sym same) (λ id r h.
    elim (String-discrete new.approval_id id) [
      | yes e ↦ λ f. (λ p. ground arith, λ p. ground arith)
      | no n ↦ sound id r (ground arith)
    ])
Step-AllSound {rs} (change other t t' found v same) sound =
    subst AllSound (sym same) (change-AllSound other t t' rs found v sound)

pub run-AllSound : (cs : List Call) (rs : List StoredRecord) → AllSound rs → AllSound (run cs rs)
unfolding run
run-AllSound [] rs s = s
run-AllSound (c ∷ cs) rs s = run-AllSound cs (perform c rs) (Step-AllSound (perform-Step c rs s) s)

-- Requests stay, with the identifier, the request and the nonce they had; what is spent stays
-- spent and what is refused stays refused.
pub run-Persists :
    (id : String) (cs : List Call) (rs : List StoredRecord) (r : StoredRecord)
    → AllSound rs
    → get_record id rs ≡ some r
    → Persists id r (run cs rs)
unfolding run
run-Persists id [] rs r s h = (r, h, IsLater-refl r)
run-Persists id (c ∷ cs) rs r s h =
    let (r', h', v) = Step-Persists id r (perform-Step c rs s) h in
    let (r'', h'', w) =
      run-Persists id cs (perform c rs) r' (Step-AllSound (perform-Step c rs s) s) h' in
    (r'', h'', IsLater-trans v w)

-- A record that the first of these calls put, later.
pub put-Persists :
    (id : String) (c : Call) (cs : List Call) (rs : List StoredRecord) (r r' : StoredRecord)
    → AllSound rs
    → get_record id rs ≡ some r
    → r'.approval_id ≡ r.approval_id
    → perform c rs ≡ put_record r' rs
    → Persists id r' (run (c ∷ cs) rs)
unfolding run
put-Persists id c cs rs r r' s found same written =
    run-Persists id cs (perform c rs) r' (run-AllSound (c ∷ []) rs s) (
      subst (λ l. get_record id l ≡ some r') (sym written)
        (get_record-put_record id r' rs found (same ∙ get_record-id id rs found)))
