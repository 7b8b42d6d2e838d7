-- ===== src/Communication/Conversation/Tables.antt =====
-- The tables and statements of
-- src/host/storage/sqlite/communication/sqlite-conversation-state-port.ts.
use open_claw_bot_neo.Prelude.{
  ℕ, ◌&&◌, Option, none, some, List, [], ◌∷◌, String, String_eq, ◌==◌, if◌then◌else◌,
}
use open_claw_bot_neo.Communication.Conversation.Snapshot.{Key, same_key}
use open_claw_bot_neo.Communication.Conversation.Serialization.{Columns}

pub record SnapshotRow : Type 0 where
  pub key : Key
  pub revision : ℕ
  pub pause_state : String
  pub checkpoint_status : String
  pub checkpoint_revision : ℕ
  pub active_context_json : String
  pub summary_json : String
  pub fingerprint : String
  pub updated_at : String

pub record OpRow : Type 0 where
  pub key : Key
  pub idempotency_key : String
  pub op_kind : String
  pub fingerprint : Option String
  pub revision_after : Option ℕ
  pub created_at : String

pub record Tables : Type 0 where
  pub snapshots : List SnapshotRow
  pub ops : List OpRow

abbrev pub empty : Tables
empty = record { snapshots = []; ops = [] }

unfoldable pub select_snapshot : Key → List SnapshotRow → Option SnapshotRow
unfolding same_key
select_snapshot key [] = none
select_snapshot key (r ∷ rs) = if same_key r.key key then some r else select_snapshot key rs

-- INSERT … ON CONFLICT(owner_id, conversation_id) DO UPDATE
unfoldable pub upsert_snapshot : SnapshotRow → List SnapshotRow → List SnapshotRow
unfolding same_key
upsert_snapshot new [] = new ∷ []
upsert_snapshot new (r ∷ rs) =
    if same_key r.key new.key then new ∷ rs else r ∷ upsert_snapshot new rs

unfoldable pub select_op : Key → String → List OpRow → Option OpRow
unfolding same_key
select_op key idempotency_key [] = none
select_op key idempotency_key (o ∷ os) =
    if same_key o.key key && o.idempotency_key == idempotency_key
    then some o
    else select_op key idempotency_key os

-- `none` where the row violates the table's unique key.
unfoldable pub insert_op : OpRow → List OpRow → Option (List OpRow)
insert_op new ops = elim (select_op new.key new.idempotency_key ops) [
  | none ↦ some (new ∷ ops)
  | some taken ↦ none
]

abbrev pub columns : SnapshotRow → Columns
columns r = record {
  owner_id = r.key.owner_id;
  conversation_id = r.key.conversation_id;
  revision = r.revision;
  pause_state = r.pause_state;
  checkpoint_status = r.checkpoint_status;
  checkpoint_revision = r.checkpoint_revision;
  active_context_json = r.active_context_json;
  summary_json = r.summary_json;
}
