-- ===== src/Authentication.antt =====
-- Which messages of a peer are authentic: packages/node/src/network/protocol-security.ts, with the
-- fingerprint of packages/core/src/identity.ts. Times are milliseconds; a decoded message has a
-- timestamp that is a safe integer. The CBOR payload of a message is a parameter.
pub mod Once
mod Examples
use network_self_md.Prelude.{
  ℕ, zero, suc, ◌+◌, ◌-◌, ◌*◌, ◌/◌, ◌%◌, ◌^◌, Bool, true, false, ◌&&◌, not, Option, none, some,
  List, [], ◌∷◌, ◌++◌, Bytes, Text, codes, list_eq, length, get_elem?, take, ltb, leb,
  if◌then◌else◌,
}
use network_self_md.Prelude.Results.{Result, ok, err, ◌>>=◌, ◌>>◌, require, or_throw}
use network_self_md.GroupState.{Primitives}
use network_self_md.Replay.{ReplayReservation}

abbrev pub z_base_32_alphabet : Text
z_base_32_alphabet = codes "ybndrfg8ejkmcpqxot1uwisza345h769"

abbrev pub letter_of : Option ℕ → ℕ
letter_of none = 0
letter_of (some c) = c

-- `Z_BASE_32_ALPHABET[value & 0x1f]`.
abbrev pub letter : ℕ → ℕ
letter value = letter_of (get_elem? z_base_32_alphabet (value % 32))

-- The inner loop: the letters of the whole groups of five bits, and the bits left.
unfoldable pub emit : ℕ → ℕ → ℕ → Text × ℕ
emit zero bits buffer = ([], bits)
emit (suc fuel) bits buffer =
    let rest = emit fuel (bits - 5) buffer in
    if ltb bits 5 then ([], bits) else (letter (buffer / 2 ^ (bits - 5)) ∷ rest.0, rest.1)

-- The bytes from here on, with the bits pending; the buffer has 32 bits.
unfoldable pub encode_from : ℕ → ℕ → Bytes → Text
unfolding emit
encode_from bits buffer [] = if ltb 0 bits then letter (buffer * 2 ^ (5 - bits)) ∷ [] else []
encode_from bits buffer (byte ∷ bytes) =
    let grown = (buffer * 256 + byte) % 2 ^ 32 in
    let (letters, left) = emit (bits + 8) (bits + 8) grown in
    letters ++ encode_from left grown bytes

unfoldable pub z_base_32_encode : Bytes → Text
unfolding encode_from
z_base_32_encode bytes = encode_from 0 0 bytes

unfoldable pub fingerprint_from_public_key : Primitives → Bytes → Text
unfolding z_base_32_encode
fingerprint_from_public_key p key = z_base_32_encode (take 20 (p.sha256 key))

-- What the checks read of a `PeerSession`; `is_ready` is `state === 'ready'`.
pub record PeerSession : Type 0 where
  pub peer_public_key : Option Bytes
  pub peer_fingerprint : Option Text
  pub is_ready : Bool

-- A message that is signed; a recipient is there where the message's type has one.
pub record AuthenticatedMessage : Type 0 where
  pub type : ℕ
  pub sender_fingerprint : Text
  pub recipient_fingerprint : Option Text
  pub timestamp : ℕ
  pub payload : Bytes
  pub signature : Bytes

pub data SecurityError : Type 0 where
  not_ready inconsistent_fingerprint out_of_range wrong_sender wrong_recipient bad_signature :
      SecurityError

abbrev pub is_name : Text → Bool
is_name [] = false
is_name (c ∷ cs) = true

abbrev pub ready_names : PeerSession → Option (Bytes × Text)
ready_names s = elim s.peer_public_key [
  | none ↦ none
  | some key ↦ elim s.peer_fingerprint [
    | none ↦ none
    | some name ↦ if is_name name && s.is_ready then some (key, name) else none
  ]
]

-- `validateReadySession`, with the public key that the rest of the code reads off the session.
unfoldable pub validate_ready_session :
    Primitives → PeerSession → Result SecurityError (Bytes × Text)
unfolding fingerprint_from_public_key
validate_ready_session p s = do
  (key, name) ← or_throw (ready_names s) not_ready
  require (list_eq name (fingerprint_from_public_key p key)) inconsistent_fingerprint
  ok (key, name)

abbrev pub message_timestamp_tolerance_ms : ℕ
message_timestamp_tolerance_ms = 300000

-- `Math.abs(now - timestamp)`.
abbrev pub distance : ℕ → ℕ → ℕ
distance now timestamp = (now - timestamp) + (timestamp - now)

unfoldable pub validate_fresh_timestamp : ℕ → ℕ → Result SecurityError (Unit {0})
validate_fresh_timestamp timestamp now =
    require (leb (distance now timestamp) message_timestamp_tolerance_ms) out_of_range

-- `verifyAuthenticatedMessage` and `authenticatedMessageId`, over the payload that was signed.
unfoldable pub verify_authenticated_message : Primitives → AuthenticatedMessage → Bytes → Bool
verify_authenticated_message p m key = p.verify m.signature m.payload key

unfoldable pub authenticated_message_id : Primitives → AuthenticatedMessage → Bytes
authenticated_message_id p m = p.sha256 (m.payload ++ m.signature)

abbrev pub is_recipient : Option Text → Text → Bool
is_recipient none me = true
is_recipient (some name) me = list_eq name me

unfoldable pub validate_authenticated_message :
    Primitives
    → PeerSession
    → AuthenticatedMessage
    → Text
    → ℕ
    → Result SecurityError ReplayReservation
unfolding validate_ready_session validate_fresh_timestamp verify_authenticated_message
    authenticated_message_id
validate_authenticated_message p s m me now = do
  (key, name) ← validate_ready_session p s
  validate_fresh_timestamp m.timestamp now
  require (list_eq m.sender_fingerprint name) wrong_sender
  require (is_recipient m.recipient_fingerprint me) wrong_recipient
  require (verify_authenticated_message p m key) bad_signature
  ok (record {
    message_id = authenticated_message_id p m;
    sender_fingerprint = name;
    message_type = m.type;
    received_at = now;
  })
