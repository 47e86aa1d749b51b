-- ===== src/Groups/Distribute.antt =====
-- `GroupManager.distributeSenderKeys`, and what a call makes the node do. The sealing of a key for
-- its recipient is left out: a key that is sent stands as its payload.
use network_self_md.Prelude.{
  ℕ, ◌+◌, Bool, false, ◌&&◌, Option, none, some, List, [], ◌∷◌, Bytes, Text, list_eq, text_key,
  if◌then◌else◌,
}
use network_self_md.Bytes.{to_hex}
use network_self_md.GroupState.{Primitives, GroupMemberEntry, SignedGroupEpoch}
use network_self_md.Authentication.{fingerprint_from_public_key}
use network_self_md.Groups.{Tables, StoredSenderKey, LocalIdentity, GroupError}
use network_self_md.Groups.SenderKeyTable.{load, store}
use network_self_md.Groups.EpochTable.{version_of, get_latest_epoch, is_member_in_epoch}
use network_self_md.Groups.Membership.{find}
use network_self_md.Groups.Receive.{rebound_content, kept_key}

-- What `createDistribution` puts in a distribution.
pub record KeyPayload : Type 0 where
  pub group_id : Bytes
  pub chain_key : Bytes
  pub chain_index : ℕ
  pub epoch_version : ℕ
  pub epoch_hash : Bytes
  pub generation_id : Bytes
  pub sequence : ℕ

-- What a call makes the node do: an error that is emitted, a request for the epochs after the one
-- given, the two events, and a key sent to the member of a public key.
pub data GroupAction : Type 0 where
  emit_error : GroupError → GroupAction
  request_sync : SignedGroupEpoch → GroupAction
  group_left : Bytes → GroupAction
  epoch_updated : Bytes → ℕ → GroupAction
  send_key : Bytes → KeyPayload → GroupAction

-- What the swarm knows of a connected peer.
pub record Connection : Type 0 where
  pub peer_public_key : Option Bytes
  pub peer_x_public_key : Option Bytes
  pub has_sender_key_capability : Bool

abbrev pub may_receive : Option Connection → Bytes → Bool
may_receive none key = false
may_receive (some c) key = elim c.peer_public_key [
  | none ↦ false
  | some peer ↦ elim c.peer_x_public_key [
    | none ↦ false
    | some x ↦ list_eq peer key && c.has_sender_key_capability
  ]
]

-- One message for each member of the latest epoch but the sender, where it is connected.
unfoldable pub send_each_key :
    Primitives
    → LocalIdentity
    → (Text → Option Connection)
    → KeyPayload
    → List GroupMemberEntry
    → List GroupAction
unfolding fingerprint_from_public_key
send_each_key p self peers payload [] = []
send_each_key p self peers payload (m ∷ ms) =
    let rest = send_each_key p self peers payload ms in
    let session = peers (fingerprint_from_public_key p m.public_key) in
    if list_eq m.public_key self.public_key
    then rest
    else if may_receive session m.public_key
    then send_key m.public_key payload ∷ rest
    else rest

unfoldable pub distribute_key :
    Primitives
    → LocalIdentity
    → (Text → Option Connection)
    → ℕ
    → Bytes
    → SignedGroupEpoch
    → Option (StoredSenderKey × Bytes)
    → Tables
    → Tables × List GroupAction
unfolding store send_each_key
distribute_key p self peers now g latest none t = (t, [])
distribute_key p self peers now g latest (some (row, generation)) t =
    let content = record (rebound_content row generation latest) {
      sequence = row.distribution_sequence + 1;
    } in
    (
      store t g self.public_key content now,
      send_each_key p self peers
          (record {
            group_id = g;
            chain_key = row.chain_key;
            chain_index = row.chain_index;
            epoch_version = version_of latest;
            epoch_hash = latest.hash;
            generation_id = generation;
            sequence = row.distribution_sequence + 1;
          })
          latest.epoch.members,
    )

unfoldable pub distribute_sender_keys :
    Primitives
    → LocalIdentity
    → (Text → Option Connection)
    → ℕ
    → Bytes
    → Tables
    → Tables × List GroupAction
unfolding get_latest_epoch distribute_key
distribute_sender_keys p self peers now g t = elim (find t g) [
  | none ↦ (t, [])
  | some group ↦ elim (get_latest_epoch t (to_hex g)) [
    | none ↦ (t, [])
    | some latest ↦
        if is_member_in_epoch latest self.public_key
        then distribute_key p self peers now g latest (kept_key (load t g self.public_key)) t
        else (t, [])
  ]
]
