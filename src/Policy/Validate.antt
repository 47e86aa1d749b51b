-- ===== src/Policy/Validate.antt =====
-- packages/node/src/policy/validate.ts.
pub mod Exact
use network_self_md.Prelude.{
  ℕ, Bool, true, false, [], ◌∷◌, Option, none, some, Bytes, Text, list_eq, codes, if◌then◌else◌,
}
use network_self_md.Value.{
  Number, Value, undefined, string, bytes, get, is_plain_object, as_string, as_bytes, as_finite,
}
use network_self_md.Policy.Types.{
  Kind, group, dm, Event, Reason, malformed_event, unknown_event_kind,
}

pub data ValidationResult : Type 0 where
  valid : Event → ValidationResult
  invalid : Reason → ValidationResult

infixl 5 ◌>>=◌
abbrev ◌>>=◌ {ℓ κ} : {A : Type ℓ} {B : Type κ} → Option A → (A → Option B) → Option B
none >>= f = none
some a >>= f = f a

-- A string that is not empty.
unfoldable pub as_name : Value → Option Text
as_name (string (c ∷ cs)) = some (c ∷ cs)
as_name _ = none

-- `groupId` is optional, but not for the kind `group`.
pub as_group_id : Kind → Value → Option (Option Bytes)
as_group_id kind (bytes b) = some (some b)
as_group_id dm undefined = some none
as_group_id _ _ = none

-- The tests behind the kind. Each failure has the one reason `malformed-event`.
pub as_event : Kind → Value → Option Event
unfolding as_name as_group_id
as_event kind raw = do
  id ← as_name (get "messageId" raw)
  fingerprint ← as_name (get "senderFingerprint" raw)
  key ← as_bytes (get "senderPublicKey" raw)
  plaintext ← as_bytes (get "plaintext" raw)
  sent ← as_finite (get "timestamp" raw)
  received ← as_finite (get "receivedAt" raw)
  group_id ← as_group_id kind (get "groupId" raw)
  some (record {
    kind = kind;
    message_id = id;
    group_id = group_id;
    sender_public_key = key;
    sender_fingerprint = fingerprint;
    plaintext = plaintext;
    timestamp = sent;
    received_at = received;
  })

abbrev pub or_malformed : Option Event → ValidationResult
or_malformed none = invalid malformed_event
or_malformed (some ev) = valid ev

abbrev pub kind_text : Kind → Text
kind_text group = codes "group"
kind_text dm = codes "dm"

pub validate_kind : Value → Value → ValidationResult
unfolding as_event
validate_kind (string k) raw =
    if list_eq k (codes "group")
    then or_malformed (as_event group raw)
    else if list_eq k (codes "dm")
    then or_malformed (as_event dm raw)
    else invalid unknown_event_kind
validate_kind _ raw = invalid malformed_event

unfoldable pub validate_inbound_event : Value → ValidationResult
unfolding validate_kind
validate_inbound_event raw =
    if is_plain_object raw then validate_kind (get "kind" raw) raw else invalid malformed_event
