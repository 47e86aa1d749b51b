-- ===== src/Policy/Types.antt =====
-- packages/core/src/policy/types.ts, audit.ts and packages/core/src/events/inbound.ts.
use network_self_md.Prelude.{ℕ, Bool, List, Option, Bytes, Text}
use network_self_md.Value.{Number}

pub data Kind : Type 0 where
  group dm : Kind

pub record Event : Type 0 where
  pub kind : Kind
  pub message_id : Text
  pub group_id : Option Bytes
  pub sender_public_key : Bytes
  pub sender_fingerprint : Text
  pub plaintext : Bytes
  pub timestamp : Number
  pub received_at : Number

pub data Action : Type 0 where
  act ask ignore : Action

pub data Reason : Type 0 where
  not_addressed addressed_and_trusted addressed_unknown_sender addressed_matches_interest : Reason
  trusted_interest_hit interest_hit trusted_no_signal : Reason
  malformed_event unknown_event_kind duplicate_event not_a_member : Reason

pub record Decision : Type 0 where
  pub message_id : Text
  pub action : Action
  pub reason : Reason
  pub matched_interests : List Text
  pub addressed_to_me : Bool
  pub sender_trusted : Bool

pub record Config : Type 0 where
  pub trusted_fingerprints : Option (List Text)
  pub interests : Option (List Text)
  pub require_mention : Option Bool
  pub mention_prefix_len : Option ℕ

-- The `eventKind` of an audit row.
pub data EntryKind : Type 0 where
  known : Kind → EntryKind
  unknown : EntryKind

pub record Entry : Type 0 where
  pub audit_id : Text
  pub received_at : ℕ
  pub event_kind : EntryKind
  pub message_id : Option Text
  pub group_id_hex : Option Text
  pub sender_fingerprint : Option Text
  pub byte_length : ℕ
  pub action : Action
  pub reason : Reason
  pub addressed_to_me : Bool
  pub sender_trusted : Bool
  pub matched_interests : List Text
  pub gate_rejected : Bool

-- What the code takes from the JavaScript runtime and does not implement.
pub record Runtime : Type 0 where
  -- `String.prototype.toLowerCase`.
  pub lower : Text → Text
  -- `new TextDecoder('utf-8', { fatal: true }).decode`, `none` where it throws.
  pub decode : Bytes → Option Text
