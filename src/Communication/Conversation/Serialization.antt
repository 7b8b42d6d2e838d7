-- ===== src/Communication/Conversation/Serialization.antt =====
-- src/host/storage/sqlite/communication/sqlite-communication-serialization.ts, the part on
-- conversation snapshots. A failure's reason is left out.
use open_claw_bot_neo.Prelude.{
  ℕ, not, ◌||◌, Option, none, some, List, [], ◌∷◌, ◌++◌, map, String, String_eq, ltb,
  is_safe_integer, ◌==◌, if◌then◌else◌, ◌>>=◌,
}
use open_claw_bot_neo.Communication.Conversation.Snapshot.{
  Role, owner, assistant, system_notice, Trust, untrusted, model_derived_untrusted, Entry, Summary,
  PauseState, active, paused, degraded, CheckpointStatus, not_required, pending, succeeded, failed,
  Snapshot,
}
use open_claw_bot_neo.Communication.Conversation.Json.{
  Value, null, text, number, array, object, Values, end, item, done, field, get, Json,
}

-- SQLITE_COMMUNICATION_MAX_JSON_BYTES
abbrev max_json_bytes : ℕ
max_json_bytes = 65536

unfoldable pub serialize_json : Json → Value → Option String
serialize_json j v = do
  json ← j.stringify v
  if ltb max_json_bytes (j.byte_length json) then none else some json

abbrev role_text : Role → String
role_text owner = "owner"
role_text assistant = "assistant"
role_text system_notice = "system-notice"

abbrev trust_text : Trust → String
trust_text untrusted = "untrusted"
trust_text model_derived_untrusted = "model-derived-untrusted"

abbrev pub pause_text : PauseState → String
pause_text active = "active"
pause_text paused = "paused"
pause_text degraded = "degraded"

abbrev pub status_text : CheckpointStatus → String
status_text not_required = "not_required"
status_text pending = "pending"
status_text succeeded = "succeeded"
status_text failed = "failed"

-- The plain values of which the snapshot consists.
abbrev pub entry_value : Entry → Value
entry_value e = object (
    field "role" (text (role_text e.role))
      (field "text" (text e.text) (field "trust" (text (trust_text e.trust)) done)))

abbrev pub entry_values : List Entry → Values
entry_values [] = end
entry_values (e ∷ es) = item (entry_value e) (entry_values es)

abbrev pub context_value : List Entry → Value
context_value es = array (entry_values es)

abbrev pub summary_value : Option Summary → Value
summary_value none = null
summary_value (some s) =
    object (field "text" (text s.text) (field "trust" (text "model-derived-untrusted") done))

abbrev pub snapshot_value : Snapshot → Value
snapshot_value s = object (
    field "conversationId" (text s.conversation_id) (
      field "ownerId" (text s.owner_id) (
        field "revision" (number s.revision) (
          field "pauseState" (text (pause_text s.pause_state)) (
            field "checkpoint"
              (object (
                field "status" (text (status_text s.checkpoint.status))
                  (field "revision" (number s.checkpoint.revision) done)))
              (field "activeContext" (context_value s.active_context)
                (field "modelDerivedSummary" (summary_value s.model_derived_summary) done)))))))

-- fingerprintConversationSnapshot; `none` is the exception.
unfoldable pub fingerprint_snapshot : Json → Snapshot → Option String
fingerprint_snapshot j s = do json ← serialize_json j (snapshot_value s); some (j.digest json)

pub record Parts : Type 0 where
  pub active_context_json : String
  pub summary_json : String
  pub fingerprint : String

-- encodeConversationSnapshotParts
unfoldable pub encode_snapshot_parts : Json → Snapshot → Option Parts
encode_snapshot_parts j s = do
  context ← serialize_json j (context_value s.active_context)
  summary ← serialize_json j (summary_value s.model_derived_summary)
  fingerprint ← fingerprint_snapshot j s
  some (record { active_context_json = context; summary_json = summary; fingerprint = fingerprint })

abbrev text_of : Value → Option String
text_of (text t) = some t
text_of _ = none

abbrev parse_role : String → Option Role
parse_role t =
    if t == "owner"
    then some owner
    else if t == "assistant"
    then some assistant
    else if t == "system-notice"
    then some system_notice
    else none

abbrev parse_trust : String → Option Trust
parse_trust t =
    if t == "untrusted"
    then some untrusted
    else if t == "model-derived-untrusted"
    then some model_derived_untrusted
    else none

unfoldable pub parse_entry : Value → Option Entry
parse_entry (object fields) = do
  role_name ← text_of (get "role" fields)
  role ← parse_role role_name
  words ← text_of (get "text" fields)
  trust_name ← text_of (get "trust" fields)
  trust ← parse_trust trust_name
  some (record { role = role; text = words; trust = trust })
parse_entry _ = none

unfoldable pub parse_entries : Values → Option (List Entry)
parse_entries end = some []
parse_entries (item v vs) = do e ← parse_entry v; es ← parse_entries vs; some (e ∷ es)

-- parseActiveContext
unfoldable pub parse_active_context : Value → Option (List Entry)
parse_active_context (array vs) = parse_entries vs
parse_active_context _ = none

-- parseSummary
unfoldable pub parse_summary : Value → Option (Option Summary)
parse_summary null = some none
parse_summary (object fields) = do
  words ← text_of (get "text" fields)
  trust ← text_of (get "trust" fields)
  if trust == "model-derived-untrusted" then some (some (record { text = words })) else none
parse_summary _ = none

-- The columns that a snapshot is read from.
pub record Columns : Type 0 where
  pub owner_id : String
  pub conversation_id : String
  pub revision : ℕ
  pub pause_state : String
  pub checkpoint_status : String
  pub checkpoint_revision : ℕ
  pub active_context_json : String
  pub summary_json : String

abbrev pub parse_pause_state : String → Option PauseState
parse_pause_state t =
    if t == "active"
    then some active
    else if t == "paused"
    then some paused
    else if t == "degraded"
    then some degraded
    else none

abbrev pub parse_status : String → Option CheckpointStatus
parse_status t =
    if t == "not_required"
    then some not_required
    else if t == "pending"
    then some pending
    else if t == "succeeded"
    then some succeeded
    else if t == "failed"
    then some failed
    else none

-- decodeConversationSnapshot
unfoldable pub decode_snapshot : Json → Columns → Option Snapshot
decode_snapshot j c =
    if not (is_safe_integer c.revision) || not (is_safe_integer c.checkpoint_revision)
    then none
    else do
      pause ← parse_pause_state c.pause_state
      status ← parse_status c.checkpoint_status
      context_raw ← j.parse c.active_context_json
      context ← parse_active_context context_raw
      summary_raw ← j.parse c.summary_json
      summary ← parse_summary summary_raw
      some (record {
        conversation_id = c.conversation_id;
        owner_id = c.owner_id;
        revision = c.revision;
        active_context = context;
        model_derived_summary = summary;
        pause_state = pause;
        checkpoint = record { status = status; revision = c.checkpoint_revision };
      })

-- snapshotTextsForScan
abbrev summary_texts : Option Summary → List String
summary_texts none = []
summary_texts (some s) = s.text ∷ []

abbrev pub texts_for_scan : Snapshot → List String
texts_for_scan s = map (λ e. e.text) s.active_context ++ summary_texts s.model_derived_summary
