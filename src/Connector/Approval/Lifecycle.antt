-- ===== src/Connector/Approval/Lifecycle.antt =====
-- What calls of the two approval ports do to the stored records.
use open_claw_bot_neo.Prelude.{
  ◌≡◌, ◌≢◌, ◌⊎◌, refl, sym, subst, ◌∙◌, true, none, some, List, [], ◌∷◌, String, arith,
  String-discrete,
}
use open_claw_bot_neo.Connector.Capabilities.{financial}
use open_claw_bot_neo.Connector.Approval.{
  pending, granted, consumed, revoked, denied, StoredRecord, get_record, put_record,
}

abbrev pub IsSpent : StoredRecord → Type 0
IsSpent r = (r.status ≡ consumed) × (r.is_consumed ≡ true)

abbrev pub IsRefused : StoredRecord → Type 0
IsRefused r = (r.status ≡ denied) ⊎ (r.status ≡ revoked)

-- A financial request is never granted, let alone consumed.
abbrev pub IsSound : StoredRecord → Type 0
IsSound r = r.binding.side_effect_class ≡ financial → (r.status ≢ granted) × (r.status ≢ consumed)

-- The same request, at a later time.
pub record IsLater (r r' : StoredRecord) : Type 0 where
  pub same_id : r'.approval_id ≡ r.approval_id
  pub same_request : r'.binding.request ≡ r.binding.request
  pub same_nonce : r'.binding.nonce ≡ r.binding.nonce
  pub stays_spent : IsSpent r → IsSpent r'
  pub stays_refused : IsRefused r → IsRefused r'
  pub stays_sound : IsSound r → IsSound r'

pub IsLater-refl : (r : StoredRecord) → IsLater r r
IsLater-refl r = record {
  same_id = refl;
  same_request = refl;
  same_nonce = refl;
  stays_spent = λ h. h;
  stays_refused = λ h. h;
  stays_sound = λ h. h;
}

pub IsLater-trans : {r s t : StoredRecord} → IsLater r s → IsLater s t → IsLater r t
IsLater-trans v w = record {
  same_id = w.same_id ∙ v.same_id;
  same_request = w.same_request ∙ v.same_request;
  same_nonce = w.same_nonce ∙ v.same_nonce;
  stays_spent = λ h. w.stays_spent (v.stays_spent h);
  stays_refused = λ h. w.stays_refused (v.stays_refused h);
  stays_sound = λ h. w.stays_sound (v.stays_sound h);
}

-- One call leaves the records alone, adds a pending one or changes one.
pub data Step (rs rs' : List StoredRecord) : Type 0 where
  stay : rs' ≡ rs → Step rs rs'
  insert :
      (new : StoredRecord)
      → get_record new.approval_id rs ≡ none
      → new.status ≡ pending
      → rs' ≡ new ∷ rs
      → Step rs rs'
  change :
      (id : String) (r r' : StoredRecord)
      → get_record id rs ≡ some r
      → IsLater r r'
      → rs' ≡ put_record r' rs
      → Step rs rs'

pub get_record-id :
    (id : String) (rs : List StoredRecord) {r : StoredRecord}
    → get_record id rs ≡ some r
    → r.approval_id ≡ id
unfolding get_record
get_record-id id [] h = cc
get_record-id id (x ∷ rs) {r} h = ground (arith, get_record-id id rs {r = r})

pub get_record-put_record :
    (id : String) (new : StoredRecord) (rs : List StoredRecord) {r : StoredRecord}
    → get_record id rs ≡ some r
    → new.approval_id ≡ id
    → get_record id (put_record new rs) ≡ some new
unfolding get_record put_record
get_record-put_record id new [] h e = cc
get_record-put_record id new (x ∷ rs) {r} h e =
    ground (arith, get_record-put_record id new rs {r = r})

pub get_record-put_record_ne :
    (id : String) (new : StoredRecord) (rs : List StoredRecord)
    → new.approval_id ≢ id
    → get_record id (put_record new rs) ≡ get_record id rs
unfolding get_record put_record
get_record-put_record_ne id new [] e = refl
get_record-put_record_ne id new (x ∷ rs) e = ground (arith, get_record-put_record_ne id new rs)

-- The request is still there, later.
abbrev pub Persists : String → StoredRecord → List StoredRecord → Type 0
Persists id r rs = (r' : StoredRecord) × (get_record id rs ≡ some r') × IsLater r r'

change-Persists :
    (id other : String) (t r r' : StoredRecord) (rs : List StoredRecord)
    → get_record id rs ≡ some t
    → get_record other rs ≡ some r
    → IsLater r r'
    → Persists id t (put_record r' rs)
change-Persists id other t r r' rs h found v = elim (String-discrete other id) [
  | yes e ↦
      let same : r ≡ t = ground arith in
      (
        r',
        get_record-put_record id r' rs h (v.same_id ∙ get_record-id other rs found ∙ e),
        subst (λ x. IsLater x r') same v,
      )
  | no n ↦
      let apart : r'.approval_id ≢ id =
        λ p. n (sym (v.same_id ∙ get_record-id other rs found) ∙ p) in
      (t, get_record-put_record_ne id r' rs apart ∙ h, IsLater-refl t)
]

pub Step-Persists :
    (id : String) {rs rs' : List StoredRecord} (r : StoredRecord)
    → Step rs rs'
    → get_record id rs ≡ some r
    → Persists id r rs'
unfolding get_record
Step-Persists id r (stay same) h = subst (Persists id r) (sym same) (r, h, IsLater-refl r)
Step-Persists id r (insert new absent _ same) h =
    subst (Persists id r) (sym same) (r, ground arith, IsLater-refl r)
Step-Persists id {rs} r (change other t t' found v same) h =
    subst (Persists id r) (sym same) (change-Persists id other r t t' rs h found v)
