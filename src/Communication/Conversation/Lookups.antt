-- ===== src/Communication/Conversation/Lookups.antt =====
-- What the statements of the conversation state port find after a change.
use open_claw_bot_neo.Prelude.{
  ◌≡◌, ◌≢◌, inl, inr, sym, subst, ap, ◌∙◌, true, false, none, some, List, [], ◌∷◌, String, arith,
  Bool-cases, if◌then◌else◌,
}
use open_claw_bot_neo.Communication.Conversation.Snapshot.{Key, same_key}
use open_claw_bot_neo.Communication.Conversation.Tables.{
  SnapshotRow, OpRow, select_snapshot, upsert_snapshot, select_op,
}

pub same_key-≡ : (k l : Key) → same_key k l ≡ true → k ≡ l
unfolding same_key
same_key-≡ k l h = ground arith

pub same_key-≢ : (k l : Key) → k ≢ l → same_key k l ≡ false
same_key-≢ k l n = elim (Bool-cases (same_key k l)) [
  | inl e ↦ absurd (n (same_key-≡ k l e))
  | inr e ↦ e
]

same_key_refl : (k : Key) → same_key k k ≡ true
unfolding same_key
same_key_refl k = ground arith

pub same_key_ne : (k l : Key) → same_key k l ≡ false → k ≢ l
same_key_ne k l h p = cc (h, subst (λ x. same_key k x ≡ true) p (same_key_refl k))

pub select_snapshot-key :
    (k : Key) (rs : List SnapshotRow) {r : SnapshotRow} → select_snapshot k rs ≡ some r → r.key ≡ k
unfolding select_snapshot
select_snapshot-key k [] h = absurd (cc)
select_snapshot-key k (x ∷ rs) {r} h =
    ground (arith, select_snapshot-key k rs {r = r}, same_key-≡ x.key k)

pub select_snapshot-upsert :
    (new : SnapshotRow) (rs : List SnapshotRow)
    → select_snapshot new.key (upsert_snapshot new rs) ≡ some new
unfolding select_snapshot upsert_snapshot
select_snapshot-upsert new [] = ground (arith, same_key_refl new.key)
select_snapshot-upsert new (x ∷ rs) =
    ground (arith, same_key_refl new.key, select_snapshot-upsert new rs)

pub select_snapshot-upsert_ne :
    (k : Key) (new : SnapshotRow) (rs : List SnapshotRow)
    → new.key ≢ k
    → select_snapshot k (upsert_snapshot new rs) ≡ select_snapshot k rs
unfolding select_snapshot upsert_snapshot
select_snapshot-upsert_ne k new [] n =
    ap (λ b. if b then some new else none) (same_key-≢ new.key k n)
select_snapshot-upsert_ne k new (x ∷ rs) n = elim (Bool-cases (same_key x.key new.key)) [
  | inl e ↦
      let apart : same_key x.key k ≡ false =
        same_key-≢ x.key k (λ p. n (sym (same_key-≡ x.key new.key e) ∙ p)) in
      ground (arith, same_key-≢ new.key k n)
  | inr e ↦ ground (arith, select_snapshot-upsert_ne k new rs n)
]

pub select_op-insert :
    (k : Key) (i : String) (new : OpRow) (ops : List OpRow) {op : OpRow}
    → select_op new.key new.idempotency_key ops ≡ none
    → select_op k i ops ≡ some op
    → select_op k i (new ∷ ops) ≡ some op
unfolding select_op
select_op-insert k i new ops absent h = ground (arith, same_key-≡ new.key k)

pub select_op-first :
    (new : OpRow) (ops : List OpRow) → select_op new.key new.idempotency_key (new ∷ ops) ≡ some new
unfolding select_op
select_op-first new ops = ground (arith, same_key_refl new.key)
