-- ===== src/Communication/Conversation/RoundTrip.antt =====
-- What the conversation state port stores is what it loads.
use open_claw_bot_neo.Prelude.{
  ◌≡◌, refl, sym, subst, true, Option, none, some, List, [], ◌∷◌, String, arith, Option-cases, inl,
  inr, String-discrete, is_safe_integer,
}
use open_claw_bot_neo.Communication.Transaction.{Env, commit, ok}
use open_claw_bot_neo.Communication.Conversation.Snapshot.{
  Key, Role, owner, assistant, system_notice, Trust, untrusted, model_derived_untrusted, Entry,
  Summary, PauseState, active, paused, degraded, CheckpointStatus, not_required, pending, succeeded,
  failed, Snapshot,
}
use open_claw_bot_neo.Communication.Conversation.Json.{Value, Json, ReadsBack, get}
use open_claw_bot_neo.Communication.Conversation.Serialization.{
  entry_value, entry_values, context_value, summary_value, parse_entry, parse_entries,
  parse_active_context, parse_summary, parse_pause_state, parse_status, pause_text, status_text,
  serialize_json, Parts, encode_snapshot_parts, Columns, decode_snapshot,
}
use open_claw_bot_neo.Communication.Conversation.Tables.{SnapshotRow, Tables, select_snapshot}
use open_claw_bot_neo.Communication.Conversation.Checkpoint.{
  found, load, load_row, Scan, CheckpointCommand, stored, checkpoint_row, checkpoint,
  write_checkpoint, checkpoint_body, checkpoint_refusal,
}
use open_claw_bot_neo.Communication.Conversation.Lookups.{select_snapshot-upsert}
use open_claw_bot_neo.Communication.Conversation.Step.{checkpoint_body-stored}
use open_claw_bot_neo.Communication.Conversation.Checkpoints.{checkpoint-Stores}

parse_parts :
    (role : Role) (words : String) (trust : Trust)
    → parse_entry (entry_value (record { role = role; text = words; trust = trust }))
      ≡ some (record { role = role; text = words; trust = trust })
unfolding parse_entry get String-discrete
parse_parts owner words untrusted = refl
parse_parts owner words model_derived_untrusted = refl
parse_parts assistant words untrusted = refl
parse_parts assistant words model_derived_untrusted = refl
parse_parts system_notice words untrusted = refl
parse_parts system_notice words model_derived_untrusted = refl

parse_entry-entry_value : (e : Entry) → parse_entry (entry_value e) ≡ some e
parse_entry-entry_value e = parse_parts e.role e.text e.trust

parse_entries-entry_values : (es : List Entry) → parse_entries (entry_values es) ≡ some es
unfolding parse_entries
parse_entries-entry_values [] = refl
parse_entries-entry_values (e ∷ es) =
    ground (arith, parse_entry-entry_value e, parse_entries-entry_values es)

parse_summary-summary_value : (s : Option Summary) → parse_summary (summary_value s) ≡ some s
unfolding parse_summary get String-discrete
parse_summary-summary_value none = refl
parse_summary-summary_value (some s) = refl

parse_pause_state-pause_text : (p : PauseState) → parse_pause_state (pause_text p) ≡ some p
unfolding String-discrete
parse_pause_state-pause_text active = refl
parse_pause_state-pause_text paused = refl
parse_pause_state-pause_text degraded = refl

parse_status-status_text : (s : CheckpointStatus) → parse_status (status_text s) ≡ some s
unfolding String-discrete
parse_status-status_text not_required = refl
parse_status-status_text pending = refl
parse_status-status_text succeeded = refl
parse_status-status_text failed = refl

serialize_json-parse :
    (j : Json) (v : Value) (t : String)
    → ReadsBack j v
    → serialize_json j v ≡ some t
    → j.parse t ≡ some v
unfolding serialize_json
serialize_json-parse j v t back h = elim (Option-cases (j.stringify v)) [
  | inl e ↦ absurd (ground arith)
  | inr (t', e) ↦ ground (arith, back t' e)
]

-- The columns that hold a snapshot.
abbrev pub snapshot_columns : Snapshot → Parts → Columns
snapshot_columns s parts = record {
  owner_id = s.owner_id;
  conversation_id = s.conversation_id;
  revision = s.revision;
  pause_state = pause_text s.pause_state;
  checkpoint_status = status_text s.checkpoint.status;
  checkpoint_revision = s.checkpoint.revision;
  active_context_json = parts.active_context_json;
  summary_json = parts.summary_json;
}

encode_snapshot_parts-context :
    (j : Json) (s : Snapshot) (parts : Parts)
    → encode_snapshot_parts j s ≡ some parts
    → (serialize_json j (context_value s.active_context) ≡ some parts.active_context_json)
      × (serialize_json j (summary_value s.model_derived_summary) ≡ some parts.summary_json)
unfolding encode_snapshot_parts
encode_snapshot_parts-context j s parts h = (ground arith, ground arith)

-- A snapshot whose revisions are safe integers is decoded from what it was encoded to.
decode-encode :
    (j : Json) (s : Snapshot) (parts : Parts)
    → ReadsBack j (context_value s.active_context)
    → ReadsBack j (summary_value s.model_derived_summary)
    → encode_snapshot_parts j s ≡ some parts
    → is_safe_integer s.revision ≡ true
    → is_safe_integer s.checkpoint.revision ≡ true
    → decode_snapshot j (snapshot_columns s parts) ≡ some s
unfolding decode_snapshot parse_active_context
decode-encode j s parts back back' h safe safe' =
    let (c, m) = encode_snapshot_parts-context j s parts h in
    let context =
      serialize_json-parse j (context_value s.active_context) parts.active_context_json back c in
    let summary =
      serialize_json-parse j (summary_value s.model_derived_summary) parts.summary_json back' m in
    ground (
      arith,
      parse_pause_state-pause_text s.pause_state,
      parse_status-status_text s.checkpoint.status,
      parse_entries-entry_values s.active_context,
      parse_summary-summary_value s.model_derived_summary,
    )

checkpoint_body-key :
    (now : String) (parts : Parts) (cmd : CheckpointCommand) (t t' : Tables)
    → checkpoint_body now parts cmd t ≡ commit stored t'
    → (cmd.next_snapshot.owner_id ≡ cmd.key.owner_id)
      × (cmd.next_snapshot.conversation_id ≡ cmd.key.conversation_id)
unfolding checkpoint_body write_checkpoint checkpoint_refusal
checkpoint_body-key now parts cmd t t' h = (ground arith, ground arith)

checkpoint_row-decoded :
    (now : String) (j : Json) (cmd : CheckpointCommand) (parts : Parts)
    → cmd.next_snapshot.owner_id ≡ cmd.key.owner_id
    → cmd.next_snapshot.conversation_id ≡ cmd.key.conversation_id
    → decode_snapshot j (snapshot_columns cmd.next_snapshot parts) ≡ some cmd.next_snapshot
    → load_row j (some (checkpoint_row now parts cmd)) ≡ found cmd.next_snapshot
checkpoint_row-decoded now j cmd parts o c h = ground arith

load-read :
    (later : Env) (j : Json) (k : Key) (t : Tables) (row : SnapshotRow) (s : Snapshot)
    → later.is_open ≡ true
    → later.fault ≡ none
    → select_snapshot k t.snapshots ≡ some row
    → load_row j (some row) ≡ found s
    → load later j k t ≡ (ok (found s), t)
unfolding load
load-read later j k t row s is_open calm selected read = ground arith

-- What is stored is loaded: after a checkpoint was stored, of a snapshot whose revisions are safe
-- integers, a load of that conversation, with the port open and no database fault, finds that
-- snapshot and changes nothing, where JSON.parse reads back what JSON.stringify wrote for its context
-- and its summary.
pub load-checkpoint :
    (env later : Env) (j : Json) (scan : String → Scan) (cmd : CheckpointCommand) (t : Tables)
    → ReadsBack j (context_value cmd.next_snapshot.active_context)
    → ReadsBack j (summary_value cmd.next_snapshot.model_derived_summary)
    → (checkpoint env j scan cmd t).0 ≡ ok stored
    → is_safe_integer cmd.next_snapshot.revision ≡ true
    → is_safe_integer cmd.next_snapshot.checkpoint.revision ≡ true
    → later.is_open ≡ true
    → later.fault ≡ none
    → load later j cmd.key (checkpoint env j scan cmd t).1
      ≡ (ok (found cmd.next_snapshot), (checkpoint env j scan cmd t).1)
load-checkpoint env later j scan cmd t back back' h safe safe' is_open calm =
    let v = checkpoint-Stores env j scan cmd t h in
    let after = (checkpoint env j scan cmd t).1 in
    let row = checkpoint_row env.now v.parts cmd in
    let (_, _, snaps, _) = checkpoint_body-stored env.now v.parts cmd t after v.body in
    let (own, conv) = checkpoint_body-key env.now v.parts cmd t after v.body in
    load-read later j cmd.key after row cmd.next_snapshot is_open calm
      (subst (λ l. select_snapshot cmd.key l ≡ some row) (sym snaps)
        (select_snapshot-upsert row t.snapshots))
      (checkpoint_row-decoded env.now j cmd v.parts own conv
        (decode-encode j cmd.next_snapshot v.parts back back' v.encoded safe safe'))
