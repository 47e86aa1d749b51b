-- ===== src/EpochEnvelope.antt =====
-- The signed envelope in which an epoch travels: packages/core/src/protocol/epoch-envelope.ts.
pub mod Fingerprint
mod Examples
use network_self_md.Prelude.{
  ℕ, Bool, true, false, ◌&&◌, [], ◌∷◌, ◌++◌, Bytes, Text, codes, length, any, leb, ◌==◌,
  if◌then◌else◌,
}
use network_self_md.Prelude.Results.{Result, ok, err, ◌>>=◌, ◌>>◌, require}
use network_self_md.Bytes.{u16, u64, lp}
use network_self_md.GroupState.{Primitives, max_safe}
use network_self_md.Authentication.{z_base_32_alphabet}

-- The message without its envelope's signature; its timestamp is a natural number.
pub record GroupEpochMessage : Type 0 where
  pub type : ℕ
  pub protocol_version : ℕ
  pub group_id : Bytes
  pub epoch_data : Bytes
  pub signature : Bytes
  pub hash : Bytes
  pub sender_fingerprint : Text
  pub recipient_fingerprint : Text
  pub timestamp : ℕ

pub data EnvelopeError : Type 0 where
  unsupported_version bad_field bad_epoch_data bad_fingerprint bad_timestamp : EnvelopeError

-- `MessageType.GroupEpoch`.
abbrev pub group_epoch_type : ℕ
group_epoch_type = 10

abbrev pub envelope_domain : Text
envelope_domain = codes "network.self.md/GroupEpochEnvelope/v2" ++ 0 ∷ []

abbrev pub all_letters : Text → Bool
all_letters [] = true
all_letters (c ∷ cs) =
    let rest = all_letters cs in if any (λ a. a == c) z_base_32_alphabet then rest else false

-- `/^[ybndrfg8ejkmcpqxot1uwisza345h769]{32}$/`.
abbrev pub is_fingerprint : Text → Bool
is_fingerprint t = length t == 32 && all_letters t

abbrev pub envelope_bytes : Primitives → GroupEpochMessage → Bytes
envelope_bytes p m =
    p.utf8 envelope_domain
    ++ (m.type ∷ [])
    ++ u16 m.protocol_version
    ++ m.group_id
    ++ lp m.epoch_data
    ++ m.signature
    ++ m.hash
    ++ lp (p.utf8 m.sender_fingerprint)
    ++ lp (p.utf8 m.recipient_fingerprint)
    ++ u64 m.timestamp

unfoldable pub canonical_group_epoch_envelope :
    Primitives → GroupEpochMessage → Result EnvelopeError Bytes
canonical_group_epoch_envelope p m = do
  require (m.type == group_epoch_type && m.protocol_version == 2) unsupported_version
  require (length m.group_id == 32) bad_field
  require (leb 1 (length m.epoch_data) && leb (length m.epoch_data) 262144) bad_epoch_data
  require (length m.signature == 64) bad_field
  require (length m.hash == 32) bad_field
  require (is_fingerprint m.sender_fingerprint) bad_fingerprint
  require (is_fingerprint m.recipient_fingerprint) bad_fingerprint
  require (leb m.timestamp max_safe) bad_timestamp
  ok (envelope_bytes p m)

unfoldable pub sign_group_epoch_envelope :
    Primitives → GroupEpochMessage → Bytes → Result EnvelopeError Bytes
unfolding canonical_group_epoch_envelope
sign_group_epoch_envelope p m key = do
  encoded ← canonical_group_epoch_envelope p m
  ok (p.sign encoded key)

abbrev pub verifies : Primitives → Bytes → Bytes → Result EnvelopeError Bytes → Bool
verifies p signature key (ok encoded) = p.verify signature encoded key
verifies p signature key (err e) = false

unfoldable pub verify_group_epoch_envelope : Primitives → GroupEpochMessage → Bytes → Bytes → Bool
unfolding canonical_group_epoch_envelope
verify_group_epoch_envelope p m signature key =
    verifies p signature key (canonical_group_epoch_envelope p m)

unfoldable pub group_epoch_envelope_id :
    Primitives → GroupEpochMessage → Bytes → Result EnvelopeError Bytes
unfolding canonical_group_epoch_envelope
group_epoch_envelope_id p m signature = do
  encoded ← canonical_group_epoch_envelope p m
  ok (p.sha256 (encoded ++ signature))
