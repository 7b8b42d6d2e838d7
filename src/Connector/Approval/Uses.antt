-- ===== src/Connector/Approval/Uses.antt =====
-- What grant, deny, revoke and consumeGrant promise over any later calls.
use open_claw_bot_neo.Prelude.{
  ◌≡◌, ◌≢◌, ◌↔◌, inl, inr, refl, sym, subst, ◌∙◌, Option, none, some, List, [], ◌∷◌, String, arith,
  Option-cases, ap,
}
use open_claw_bot_neo.Connector.Capabilities.{financial}
use open_claw_bot_neo.Connector.Approval.{
  revoked, denied, ApprovalBinding, StoredRecord, ApprovalFailure, ok, err, Clock, already_consumed,
  was_denied, was_revoked, get_record, put_record, consume_failure, settle, on_record,
  consumed_record, consume_grant, grant_failure, granted_record, grant, consumed_failure, deny,
  revoke, refused_record,
}
use open_claw_bot_neo.Connector.Approval.Lifecycle.{IsSpent, IsRefused}
use open_claw_bot_neo.Connector.Approval.Runs.{
  AllSound, Call, perform, consumes, denies, revokes, run, put-Persists, run-AllSound,
  empty-AllSound,
}
use open_claw_bot_neo.Connector.Approval.Grants.{
  IsConsumable, consume_failure-IsConsumable, consume_failure-none,
}

-- A change that succeeds found its record and passed its tests.
on_record-ok :
    (o : Option StoredRecord) (failure : StoredRecord → Option ApprovalFailure)
    (changed : StoredRecord → StoredRecord) (rs : List StoredRecord)
    → (on_record o failure changed rs).0 ≡ ok tt
    → (r : StoredRecord) × (o ≡ some r)
      × (failure r ≡ none)
      × ((on_record o failure changed rs).1 ≡ put_record (changed r) rs)
on_record-ok none failure changed rs h = absurd (cc)
on_record-ok (some r) failure changed rs h = elim (Option-cases (failure r)) [
  | inl e ↦ (
    r,
    refl,
    e,
    subst (λ f. (settle f (changed r) rs).1 ≡ put_record (changed r) rs) (sym e) refl,
  )
  | inr (f, e) ↦ absurd (subst (λ f. (settle f (changed r) rs).0 ≡ ok tt → ⊥) (sym e) (λ p. cc) h)
]

-- A change whose test succeeds or fails on the record that is found.
pub on_record-passes :
    (o : Option StoredRecord) (failure : StoredRecord → Option ApprovalFailure)
    (changed : StoredRecord → StoredRecord) (rs : List StoredRecord) (r : StoredRecord)
    → o ≡ some r
    → failure r ≡ none
    → on_record o failure changed rs ≡ (ok tt, put_record (changed r) rs)
on_record-passes o failure changed rs r e f =
    subst (λ o. on_record o failure changed rs ≡ (ok tt, put_record (changed r) rs)) (sym e)
      (subst (λ f. settle f (changed r) rs ≡ (ok tt, put_record (changed r) rs)) (sym f) refl)

on_record-fails :
    (o : Option StoredRecord) (failure : StoredRecord → Option ApprovalFailure)
    (changed : StoredRecord → StoredRecord) (rs : List StoredRecord) (r : StoredRecord)
    (f : ApprovalFailure)
    → o ≡ some r
    → failure r ≡ some f
    → on_record o failure changed rs ≡ (err f, rs)
on_record-fails o failure changed rs r f e h =
    subst (λ o. on_record o failure changed rs ≡ (err f, rs)) (sym e)
      (subst (λ x. settle x (changed r) rs ≡ (err f, rs)) (sym h) refl)

spent-fails :
    (clock : Clock) (nonce : String) (b : ApprovalBinding) (actor : String) (r : StoredRecord)
    → IsSpent r
    → consume_failure clock nonce b actor r ≡ some already_consumed
unfolding consume_failure
spent-fails clock nonce b actor r (s, c) = ground arith

refused-fails :
    (clock : Clock) (nonce : String) (b : ApprovalBinding) (actor : String) (r : StoredRecord)
    → IsRefused r
    → (f : ApprovalFailure) × (consume_failure clock nonce b actor r ≡ some f)
      × (grant_failure clock r ≡ some f)
unfolding consume_failure grant_failure
refused-fails clock nonce b actor r (inl d) = (was_denied, ground arith, ground arith)
refused-fails clock nonce b actor r (inr d) = (was_revoked, ground arith, ground arith)

module _ (clock : Clock) (id nonce : String) (b : ApprovalBinding) (actor : String)
    (rs : List StoredRecord) where
  -- A grant is used successfully exactly when a request with that identifier is stored, is
  -- granted by some approver and not used, expires after the clock's time, and agrees with the
  -- command in its nonce, its actor and every compared field of its binding.
  pub consume_grant-ok_iff :
      ((consume_grant clock id nonce b actor rs).0 ≡ ok tt)
      ↔ ((r : StoredRecord) × (get_record id rs ≡ some r) × IsConsumable clock nonce b actor r)
  unfolding consume_grant
  consume_grant-ok_iff = (
    λ h.
        let (r, found, passed, _) =
          on_record-ok (get_record id rs) (consume_failure clock nonce b actor) consumed_record rs
            h in
        (r, found, consume_failure-IsConsumable clock nonce b actor r passed),
    λ e.
        let (r, found, v) = e in
        ap (λ p. p.0)
          (on_record-passes (get_record id rs) (consume_failure clock nonce b actor) consumed_record
            rs r found (consume_failure-none clock nonce b actor r v)),
  )

  -- From sound records, a grant that was used successfully is used at most once: after any
  -- further calls of the two ports, each attempt to use it answers already_consumed and changes
  -- nothing, whatever its command and the time.
  pub consume_once :
      (calls : List Call) (late : Clock) (nonce' : String) (b' : ApprovalBinding) (actor' : String)
      → AllSound rs
      → (consume_grant clock id nonce b actor rs).0 ≡ ok tt
      → consume_grant late id nonce' b' actor' (run (consumes clock id nonce b actor ∷ calls) rs)
        ≡ (err already_consumed, run (consumes clock id nonce b actor ∷ calls) rs)
  unfolding consume_grant
  consume_once calls late nonce' b' actor' sound h =
      let c = consumes clock id nonce b actor in
      let (r, found, passed, written) =
        on_record-ok (get_record id rs) (consume_failure clock nonce b actor) consumed_record rs
          h in
      let (r', found', v) =
        put-Persists id c calls rs r (consumed_record r) sound found refl written in
      on_record-fails (get_record id (run (c ∷ calls) rs)) (consume_failure late nonce' b' actor')
        consumed_record (run (c ∷ calls) rs) r' already_consumed found'
        (spent-fails late nonce' b' actor' r' (v.stays_spent (refl, refl)))

module _ (id : String) (calls : List Call) (late : Clock) (nonce : String) (b : ApprovalBinding)
    (actor approver : String) (rs : List StoredRecord) where
  refused_forever :
      (c : Call) (r r' : StoredRecord)
      → AllSound rs
      → get_record id rs ≡ some r
      → r'.approval_id ≡ r.approval_id
      → IsRefused r'
      → perform c rs ≡ put_record r' rs
      → (consume_grant late id nonce b actor (run (c ∷ calls) rs)).0 ≢ ok tt
        × (grant late id approver (run (c ∷ calls) rs)).0 ≢ ok tt
  unfolding consume_grant grant
  refused_forever c r r' sound found same refused written =
      let (r1, found', v) = put-Persists id c calls rs r r' sound found same written in
      let (f, e, e') = refused-fails late nonce b actor r1 (v.stays_refused refused) in
      let after = run (c ∷ calls) rs in
      (
        λ p. ground (
          arith,
          on_record-fails (get_record id after) (consume_failure late nonce b actor) consumed_record
              after r1 f found' e,
        ),
        λ p. ground (
          arith,
          on_record-fails (get_record id after) (grant_failure late) (granted_record approver) after
              r1 f found' e',
        ),
      )

  -- From sound records, a request that was denied is never approved or used: after any further
  -- calls of the two ports, neither granting it nor using it succeeds.
  pub deny_forever :
      AllSound rs
      → (deny id rs).0 ≡ ok tt
      → (consume_grant late id nonce b actor (run (denies id ∷ calls) rs)).0 ≢ ok tt
        × (grant late id approver (run (denies id ∷ calls) rs)).0 ≢ ok tt
  unfolding deny
  deny_forever sound h =
      let (r, found, _, written) =
        on_record-ok (get_record id rs) consumed_failure (refused_record denied) rs h in
      refused_forever (denies id) r (refused_record denied r) sound found refl (inl refl) written

  -- From sound records, a request that was revoked is never approved or used: after any further
  -- calls of the two ports, neither granting it nor using it succeeds.
  pub revoke_forever :
      AllSound rs
      → (revoke id rs).0 ≡ ok tt
      → (consume_grant late id nonce b actor (run (revokes id ∷ calls) rs)).0 ≢ ok tt
        × (grant late id approver (run (revokes id ∷ calls) rs)).0 ≢ ok tt
  unfolding revoke
  revoke_forever sound h =
      let (r, found, _, written) =
        on_record-ok (get_record id rs) consumed_failure (refused_record revoked) rs h in
      refused_forever (revokes id) r (refused_record revoked r) sound found refl (inr refl) written

-- A financial action is never approved to the end: from no records, after any calls of the two
-- ports, using a grant with a binding of a financial action does not succeed.
pub financial_never :
    (calls : List Call) (clock : Clock) (id nonce : String) (b : ApprovalBinding) (actor : String)
    → b.side_effect_class ≡ financial
    → (consume_grant clock id nonce b actor (run calls [])).0 ≢ ok tt
financial_never calls clock id nonce b actor money h =
    let (r, found, v) = (consume_grant-ok_iff clock id nonce b actor (run calls [])).0 h in
    (run-AllSound calls [] empty-AllSound id r found (v.same_side_effect ∙ money)).0 v.is_granted
