-- ===== src/Communication/Conversation/Snapshot.antt =====
-- src/core/communication/domain/conversation-state.ts
use open_claw_bot_neo.Prelude.{ℕ, Option, List, String, Bool, ◌&&◌, ◌==◌, String_eq}

pub data Role : Type 0 where
  owner assistant system_notice : Role

pub data Trust : Type 0 where
  untrusted model_derived_untrusted : Trust

pub record Entry : Type 0 where
  pub role : Role
  pub text : String
  pub trust : Trust

-- Its trust is always model_derived_untrusted.
pub record Summary : Type 0 where
  pub text : String

pub data PauseState : Type 0 where
  active paused degraded : PauseState

pub data CheckpointStatus : Type 0 where
  not_required pending succeeded failed : CheckpointStatus

pub record Key : Type 0 where
  pub owner_id : String
  pub conversation_id : String

-- conversationStateKeysEqual, and the WHERE clause of the statements
unfoldable pub same_key : Key → Key → Bool
same_key l r = l.conversation_id == r.conversation_id && l.owner_id == r.owner_id

pub record CheckpointMetadata : Type 0 where
  pub status : CheckpointStatus
  pub revision : ℕ

pub record Snapshot : Type 0 where
  pub conversation_id : String
  pub owner_id : String
  pub revision : ℕ
  pub active_context : List Entry
  pub model_derived_summary : Option Summary
  pub pause_state : PauseState
  pub checkpoint : CheckpointMetadata
