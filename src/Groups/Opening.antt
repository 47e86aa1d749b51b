-- ===== src/Groups/Opening.antt =====
-- The checks of `GroupManager.handleGroupEpoch` on the envelope that carries an epoch, before its
-- transaction.
use network_self_md.Prelude.{ℕ, ◌&&◌, Option, Bytes, list_eq, text_key}
use network_self_md.Prelude.Results.{Result, ok, err, ◌>>=◌, ◌>>◌, require}
use network_self_md.Value.{Value}
use network_self_md.Bytes.{to_hex}
use network_self_md.GroupState.{Primitives, SignedGroupEpoch}
use network_self_md.GroupState.Decoding.{deserialize_epoch}
use network_self_md.EpochEnvelope.{
  GroupEpochMessage, EnvelopeError, verify_group_epoch_envelope, group_epoch_envelope_id,
}
use network_self_md.Authentication.{
  PeerSession, SecurityError, validate_ready_session, validate_fresh_timestamp,
}
use network_self_md.Replay.{ReplayReservation, ReplayError, failed}
use network_self_md.Groups.{LocalIdentity, GroupError, insecure, bad_envelope, context_mismatch}
use network_self_md.Groups.EpochTable.{lift_epoch}

-- The envelope of a message with its signature.
pub record EpochDelivery : Type 0 where
  pub message : GroupEpochMessage
  pub envelope_signature : Bytes

abbrev pub secure : {A : Type 0} → Result SecurityError A → Result GroupError A
secure (ok a) = ok a
secure (err e) = err (insecure e)

abbrev pub in_envelope : {A : Type 0} → Result EnvelopeError A → Result GroupError A
in_envelope (ok a) = ok a
in_envelope (err e) = err bad_envelope

-- The checks of the envelope and of what it says of the epoch: the key of the sender, the epoch and
-- the entry for the replay ledger.
unfoldable pub open_delivery :
    Primitives
    → (Bytes → Option Value)
    → LocalIdentity
    → PeerSession
    → EpochDelivery
    → ℕ
    → Result GroupError (Bytes × (SignedGroupEpoch × ReplayReservation))
unfolding validate_ready_session validate_fresh_timestamp verify_group_epoch_envelope
    deserialize_epoch group_epoch_envelope_id
open_delivery p decode self session d now = do
  (key, name) ← secure (validate_ready_session p session)
  secure (validate_fresh_timestamp d.message.timestamp now)
  require
      (list_eq d.message.sender_fingerprint name
        && (list_eq d.message.recipient_fingerprint self.fingerprint
            && verify_group_epoch_envelope p d.message d.envelope_signature key))
      bad_envelope
  epoch ← lift_epoch (deserialize_epoch p decode d.message.epoch_data)
  require
      (list_eq epoch.group_id (to_hex d.message.group_id)
        && list_eq d.message.hash (p.sha256 d.message.epoch_data))
      context_mismatch
  id ← in_envelope (group_epoch_envelope_id p d.message d.envelope_signature)
  ok (
    key,
    (
      record {
        epoch = epoch;
        signature = d.message.signature;
        hash = p.sha256 d.message.epoch_data;
      },
      record {
        message_id = id;
        sender_fingerprint = name;
        message_type = d.message.type;
        received_at = now;
      },
    ),
  )

-- The transaction as the ledger sees it: what throws in it has failed.
abbrev pub as_mutation : {A : Type 0} → Result GroupError A → Result ReplayError A
as_mutation (ok a) = ok a
as_mutation (err e) = err failed
